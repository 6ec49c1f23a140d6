-- ===== src/Utils.antt =====
-- src/utils.rs: the patterns for surrogates and noncharacters, lowercasing in chunks, and
-- `char::encode_utf8`, which the macro `ctostr!` calls.
pub mod Lowercase
use html5gum.Base.{ℕ, ◌+◌, ◌/◌, ◌%◌, Bool, false, ◌||◌, List, [], ◌∷◌, ltb, if◌then◌else◌}
use html5gum.Base.Bytes.{Bytes, within, is_ascii_uppercase, to_ascii_lowercase, contains}

-- `surrogate_pat!`.
unfoldable pub is_surrogate : ℕ → Bool
is_surrogate c = within 0xd800 0xdfff c

abbrev noncharacter_list : List ℕ
noncharacter_list =
    0xfffe ∷ 0xffff ∷ 0x1fffe ∷ 0x1ffff ∷ 0x2fffe ∷ 0x2ffff ∷ 0x3fffe ∷ 0x3ffff ∷ 0x4fffe ∷ 0x4ffff
    ∷ 0x5fffe ∷ 0x5ffff ∷ 0x6fffe ∷ 0x6ffff ∷ 0x7fffe ∷ 0x7ffff ∷ 0x8fffe ∷ 0x8ffff ∷ 0x9fffe
    ∷ 0x9ffff ∷ 0xafffe ∷ 0xaffff ∷ 0xbfffe ∷ 0xbffff ∷ 0xcfffe ∷ 0xcffff ∷ 0xdfffe ∷ 0xdffff
    ∷ 0xefffe ∷ 0xeffff ∷ 0xffffe ∷ 0xfffff ∷ 0x10fffe ∷ 0x10ffff ∷ []

-- `noncharacter_pat!`.
unfoldable pub is_noncharacter : ℕ → Bool
unfolding contains
is_noncharacter c = within 0xfdd0 0xfdef c || contains noncharacter_list c

-- A Unicode scalar value: what `char::from_u32` accepts.
unfoldable pub is_scalar : ℕ → Bool
is_scalar c = ltb c 0xd800 || within 0xe000 0x10ffff c

-- `char::encode_utf8`.
unfoldable pub encode_utf8 : ℕ → Bytes
encode_utf8 c =
    if ltb c 0x80
    then c ∷ []
    else if ltb c 0x800
    then (0xc0 + c / 64) ∷ (0x80 + c % 64) ∷ []
    else if ltb c 0x1_0000
    then (0xe0 + c / 4096) ∷ (0x80 + c / 64 % 64) ∷ (0x80 + c % 64) ∷ []
    else (0xf0 + c / 262144) ∷ (0x80 + c / 4096 % 64) ∷ (0x80 + c / 64 % 64) ∷ (0x80 + c % 64) ∷ []

unfoldable pub any_uppercase : Bytes → Bool
unfolding is_ascii_uppercase
any_uppercase [] = false
any_uppercase (x ∷ xs) = is_ascii_uppercase x || any_uppercase xs

-- The calls of `f`, in order, on a state that `f` changes.
unfoldable pub each_byte {ℓ} : {S : Type ℓ} → (Bytes → S → S) → Bytes → S → S
unfolding to_ascii_lowercase
each_byte f [] s = s
each_byte f (x ∷ xs) s = each_byte f xs (f (to_ascii_lowercase x ∷ []) s)

unfoldable pub with_lowercase_str {ℓ} : {S : Type ℓ} → Bytes → (Bytes → S → S) → S → S
unfolding any_uppercase each_byte
with_lowercase_str xs f s = if any_uppercase xs then each_byte f xs s else f xs s
