-- ===== src/Machine/Reference.antt =====
-- src/machine.rs: the tests and the tables of the states of a character reference that do not
-- touch the tokenizer.
pub mod Scalars
pub mod Digits
use html5gum.Base.{
  ℕ, Bool, true, false, not, ◌&&◌, ◌||◌, List, [], ◌∷◌, Option, none, some, leb, ◌==◌,
  if◌then◌else◌,
}
use html5gum.Base.Bytes.{Bytes, contains, is_ascii_alphanumeric, within}
use html5gum.Errors.{
  Error, null_character_reference, character_reference_outside_unicode_range,
  surrogate_character_reference, noncharacter_character_reference, control_character_reference,
}
use html5gum.Utils.{is_surrogate, is_noncharacter}

-- `name.chars().last() == Some(';')`.
unfoldable pub ends_with_semicolon : Bytes → Bool
ends_with_semicolon [] = false
ends_with_semicolon (x ∷ []) = x == b';'
ends_with_semicolon (x ∷ y ∷ xs) = ends_with_semicolon (y ∷ xs)

-- `x == b'=' || x.is_ascii_alphanumeric()`.
unfoldable pub is_word_or_equals : ℕ → Bool
unfolding is_ascii_alphanumeric
is_word_or_equals x = x == b'=' || is_ascii_alphanumeric x

-- The guard of the last arm but one of `NumericCharacterReferenceEnd`.
unfoldable pub is_control_reference : ℕ → Bool
unfolding contains
is_control_reference x =
    (x == 0x0d || within 0x00 0x1f x || within 0x7f 0x9f x)
    && not (contains (0x09 ∷ 0x0a ∷ 0x0c ∷ 0x20 ∷ []) x)

abbrev pub control_table : List (ℕ × ℕ)
control_table =
    (0x80, 0x20ac)
    ∷ (0x82, 0x201a)
    ∷ (0x83, 0x0192)
    ∷ (0x84, 0x201e)
    ∷ (0x85, 0x2026)
    ∷ (0x86, 0x2020)
    ∷ (0x87, 0x2021)
    ∷ (0x88, 0x02c6)
    ∷ (0x89, 0x2030)
    ∷ (0x8a, 0x0160)
    ∷ (0x8b, 0x2039)
    ∷ (0x8c, 0x0152)
    ∷ (0x8e, 0x017d)
    ∷ (0x91, 0x2018)
    ∷ (0x92, 0x2019)
    ∷ (0x93, 0x201c)
    ∷ (0x94, 0x201d)
    ∷ (0x95, 0x2022)
    ∷ (0x96, 0x2013)
    ∷ (0x97, 0x2014)
    ∷ (0x98, 0x02dc)
    ∷ (0x99, 0x2122)
    ∷ (0x9a, 0x0161)
    ∷ (0x9b, 0x203a)
    ∷ (0x9c, 0x0153)
    ∷ (0x9e, 0x017e)
    ∷ (0x9f, 0x0178)
    ∷ []

unfoldable pub control_in : ℕ → List (ℕ × ℕ) → ℕ
control_in x [] = x
control_in x ((from, to) ∷ rest) = if x == from then to else control_in x rest

-- The code that `NumericCharacterReferenceEnd` leaves for a code: each arm's assignment.
unfoldable pub end_code : ℕ → ℕ
unfolding is_surrogate is_noncharacter is_control_reference control_in
end_code x =
    if x == 0x00
    then 0xfffd
    else if leb 0x11_0000 x
    then 0xfffd
    else if is_surrogate x
    then 0xfffd
    else if is_noncharacter x
    then x
    else if is_control_reference x
    then control_in x control_table
    else x

-- The error of each arm.
unfoldable pub end_error : ℕ → Option Error
unfolding is_surrogate is_noncharacter is_control_reference
end_error x =
    if x == 0x00
    then some null_character_reference
    else if leb 0x11_0000 x
    then some character_reference_outside_unicode_range
    else if is_surrogate x
    then some surrogate_character_reference
    else if is_noncharacter x
    then some noncharacter_character_reference
    else if is_control_reference x
    then some control_character_reference
    else none
