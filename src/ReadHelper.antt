-- ===== src/ReadHelper.antt =====
-- src/read_helper.rs: `ReadHelper`, which turns the reader's bytes into the preprocessed input
-- stream (newlines normalised, characters validated) and holds one byte to be read again.
-- `Some(None)` in `to_reconsume` is an end of input to be read again.
pub mod Room
pub mod Newlines
use html5gum.Base.{
  ltb, ℕ, Bool, true, false, not, ◌&&◌, ◌||◌, List, [], ◌∷◌, ◌++◌, Option, none, some, ◌⊎◌, inl,
  inr, ◌==◌, if◌then◌else◌,
}
use html5gum.Base.Bytes.{Bytes, bytes_eq, to_ascii_lowercase, is_empty, contains}
use html5gum.Base.Lists.{length}
use html5gum.CharValidator.{CharValidator, reset, validate_byte, validate_bytes}
use html5gum.Emitter.{Emitter}
use html5gum.Outcome.{
  Outcome, ok, err, panic, out_of_fuel, needle_too_long, empty_text, text_with_carriage_return,
  from_result,
}
use html5gum.Reader.Trait.{Reader}

pub record ReadHelper ⦃R : Reader⦄ : Type 0 where
  pub reader : R.Self
  pub last_character_was_cr : Bool
  pub to_reconsume : Option (Option ℕ)

module _ ⦃R : Reader⦄ where
  unfoldable pub new : R.Self → ReadHelper
  new reader = record { reader = reader; last_character_was_cr = false; to_reconsume = none }

  abbrev pub unread_byte : Option ℕ → ReadHelper → ReadHelper
  unread_byte c h = record h { to_reconsume = some c }

  -- `matches!(c, Ok(Some(b)))`.
  abbrev pub is_byte : ℕ → (R.Error ⊎ Option ℕ) → Bool
  is_byte b (inr (some x)) = x == b
  is_byte b _ = false

  -- The reader's next byte, after the `\n` of a `\r\n` is passed over.
  unfoldable pub read_after_cr : ReadHelper → (R.Error ⊎ Option ℕ) × R.Self
  read_after_cr h =
      let (c, r) = R.read_byte h.reader in
      let again = R.read_byte r in
      if h.last_character_was_cr && is_byte b'\n' c then again else (c, r)

-- `xs = &xs[1..]` behind a carriage return.
abbrev pub drop_newline : Bool → Bytes → Bytes
drop_newline true (y ∷ ys) = if y == b'\n' then ys else y ∷ ys
drop_newline _ ys = ys

-- The part of the text that the reader must still match once the byte to be read again has been
-- compared with its head; `none` if they differ.
unfoldable pub match_reconsumed : Bool → Option ℕ → Bytes → Option Bytes
unfolding to_ascii_lowercase
match_reconsumed case_sensitive (some x) (x2 ∷ s) =
    if x == x2 || (not case_sensitive && to_ascii_lowercase x == to_ascii_lowercase x2)
    then some s
    else none
match_reconsumed case_sensitive _ _ = none

module _ ⦃R : Reader⦄ ⦃E : Emitter⦄ where
  -- What `read_byte` does with what the reader gave.
  unfoldable pub normalize :
      (R.Error ⊎ Option ℕ)
      → R.Self
      → CharValidator
      → E.Self
      → (R.Error ⊎ Option ℕ) × ReadHelper × CharValidator × E.Self
  normalize (inl x) r v e =
      (inl x, record { reader = r; last_character_was_cr = false; to_reconsume = none }, v, e)
  normalize (inr none) r v e =
      (inr none, record { reader = r; last_character_was_cr = false; to_reconsume = none }, v, e)
  normalize (inr (some x)) r v e =
      let cr = x == b'\r' in
      let y = if cr then b'\n' else x in
      let (v', e') = validate_byte y v e in
      (inr (some y), record { reader = r; last_character_was_cr = cr; to_reconsume = none }, v', e')

  unfoldable pub read_byte :
      ReadHelper
      → CharValidator
      → E.Self
      → (R.Error ⊎ Option ℕ) × ReadHelper × CharValidator × E.Self
  read_byte h v e = elim h.to_reconsume [
    | some c ↦ (inr c, record h { to_reconsume = none }, v, e)
    | none ↦ let (c, r) = read_after_cr h in normalize c r v e
  ]

  -- What `read_until` does with the chunk that the reader gave.
  unfoldable pub normalize_chunk :
      Bool
      → Outcome R.Error (Option Bytes)
      → R.Self
      → CharValidator
      → E.Self
      → Outcome R.Error (Option Bytes) × ReadHelper × CharValidator × E.Self
  normalize_chunk was_cr (err x) r v e =
      (err x, record { reader = r; last_character_was_cr = was_cr; to_reconsume = none }, v, e)
  normalize_chunk was_cr (panic p) r v e =
      (panic p, record { reader = r; last_character_was_cr = was_cr; to_reconsume = none }, v, e)
  normalize_chunk was_cr out_of_fuel r v e = (
    out_of_fuel,
    record { reader = r; last_character_was_cr = was_cr; to_reconsume = none },
    v,
    e,
  )
  normalize_chunk was_cr (ok none) r v e =
      (ok none, record { reader = r; last_character_was_cr = false; to_reconsume = none }, v, e)
  normalize_chunk was_cr (ok (some xs)) r v e =
      let cr = validate_byte b'\n' v e in
      let other = validate_bytes xs v e in
      if bytes_eq xs (b'\r' ∷ [])
      then (
        ok (some (b'\n' ∷ [])),
        record { reader = r; last_character_was_cr = true; to_reconsume = none },
        cr.0,
        cr.1,
      )
      else (
        ok (some (drop_newline was_cr xs)),
        record { reader = r; last_character_was_cr = false; to_reconsume = none },
        other.0,
        other.1,
      )

  -- `MAX_NEEDLE_LEN`: the size of `needle2`, to which the needle and a carriage return are copied.
  abbrev pub max_needle_len : ℕ
  max_needle_len = 13

  unfoldable pub read_until :
      Bytes
      → ReadHelper
      → CharValidator
      → E.Self
      → Outcome R.Error (Option Bytes) × ReadHelper × CharValidator × E.Self
  read_until needle h v e = elim h.to_reconsume [
    | some (some x) ↦ (ok (some (x ∷ [])), record h { to_reconsume = none }, v, e)
    | some none ↦ (ok none, record h { to_reconsume = none }, v, e)
    | none ↦
        let (c, r) = R.read_until (needle ++ b'\r' ∷ []) h.reader in
        let answer = normalize_chunk h.last_character_was_cr c r v e in
        if ltb (length needle) max_needle_len then answer else (panic needle_too_long, h, v, e)
  ]

module _ ⦃R : Reader⦄ where
  -- The answer of the reader to `s`, with `bak` in `to_reconsume` if the text is not there.
  unfoldable pub ask_reader :
      Bytes
      → Bool
      → Option (Option ℕ)
      → ReadHelper
      → CharValidator
      → (R.Error ⊎ Bool) × ReadHelper × CharValidator
  ask_reader s case_sensitive bak h v =
      let (found, r) = R.try_read_string s case_sensitive h.reader in
      let hit : ReadHelper = record {
        reader = r;
        last_character_was_cr = false;
        to_reconsume = none;
      } in
      elim found [
        | inl x ↦ (inl x, record h { reader = r; to_reconsume = none }, v)
        | inr true ↦ (inr true, hit, reset v)
        | inr false ↦ (inr false, record h { reader = r; to_reconsume = bak }, v)
      ]

  -- `s.is_empty() || reader.try_read_string(..)`.
  unfoldable pub try_rest :
      Bytes
      → Bool
      → Option (Option ℕ)
      → ReadHelper
      → CharValidator
      → (R.Error ⊎ Bool) × ReadHelper × CharValidator
  try_rest [] case_sensitive bak h v =
      (inr true, record h { last_character_was_cr = false; to_reconsume = none }, reset v)
  try_rest (x ∷ s) case_sensitive bak h v = ask_reader (x ∷ s) case_sensitive bak h v

  -- `try_read_string` behind its two assertions.
  unfoldable pub try_text :
      Bytes → Bool → ReadHelper → CharValidator → (R.Error ⊎ Bool) × ReadHelper × CharValidator
  try_text s case_sensitive h v = elim h.to_reconsume [
    | none ↦ try_rest s case_sensitive none h v
    | some c ↦ elim (match_reconsumed case_sensitive c s) [
      | none ↦ (inr false, h, v)
      | some rest ↦ try_rest rest case_sensitive (some c) h v
    ]
  ]

  unfoldable pub try_read_string :
      Bytes → Bool → ReadHelper → CharValidator → Outcome R.Error Bool × ReadHelper × CharValidator
  unfolding try_text
  try_read_string s case_sensitive h v =
      let (found, h', v') = try_text s case_sensitive h v in
      if is_empty s
      then (panic empty_text, h, v)
      else if contains s b'\r'
      then (panic text_with_carriage_return, h, v)
      else (from_result found, h', v')
