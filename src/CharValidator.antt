-- ===== src/CharValidator.antt =====
-- src/char_validator.rs: errors about the input stream's characters, and the order in which errors
-- about the current character are given out. A method takes the validator and the emitter and
-- gives both back.
pub mod Room
use html5gum.Base.{
  ℕ, ◌+◌, ◌*◌, ◌%◌, ◌^◌, Bool, not, ◌||◌, List, [], ◌∷◌, Option, none, some, ltb, leb, ◌==◌,
  if◌then◌else◌,
}
use html5gum.Base.Bytes.{Bytes, contains, within}
use html5gum.ArrayVec.{ArrayVec, new, push, drain}
use html5gum.Emitter.{Emitter}
use html5gum.Errors.{Error, noncharacter_in_input_stream, control_character_in_input_stream}

pub record CharValidator : Type 0 where
  pub last_4_bytes : ℕ  -- u32
  pub character_error : ArrayVec Error

-- `CharValidator::default`; `character_error` is an `ArrayVec<Error, 3>`.
unfoldable pub default : CharValidator
unfolding new
default = record { last_4_bytes = 0; character_error = new 3 }

abbrev pub reset : CharValidator → CharValidator
reset v = record v { last_4_bytes = 0 }

-- The first arm of `validate_last_4_bytes`.
abbrev noncharacter_bytes : List ℕ
noncharacter_bytes =
    0xef_b790 ∷ 0xef_b791 ∷ 0xef_b792 ∷ 0xef_b793 ∷ 0xef_b794 ∷ 0xef_b795 ∷ 0xef_b796 ∷ 0xef_b797
    ∷ 0xef_b798 ∷ 0xef_b799 ∷ 0xef_b79a ∷ 0xef_b79b ∷ 0xef_b79c ∷ 0xef_b79d ∷ 0xef_b79e ∷ 0xef_b79f
    ∷ 0xef_b7a0 ∷ 0xef_b7a1 ∷ 0xef_b7a2 ∷ 0xef_b7a3 ∷ 0xef_b7a4 ∷ 0xef_b7a5 ∷ 0xef_b7a6 ∷ 0xef_b7a7
    ∷ 0xef_b7a8 ∷ 0xef_b7a9 ∷ 0xef_b7aa ∷ 0xef_b7ab ∷ 0xef_b7ac ∷ 0xef_b7ad ∷ 0xef_b7ae ∷ 0xef_b7af
    ∷ 0xef_bfbe ∷ 0xef_bfbf ∷ 0xf09f_bfbe ∷ 0xf09f_bfbf ∷ 0xf0af_bfbe ∷ 0xf0af_bfbf ∷ 0xf0bf_bfbe
    ∷ 0xf0bf_bfbf ∷ 0xf18f_bfbe ∷ 0xf18f_bfbf ∷ 0xf19f_bfbe ∷ 0xf19f_bfbf ∷ 0xf1af_bfbe
    ∷ 0xf1af_bfbf ∷ 0xf1bf_bfbe ∷ 0xf1bf_bfbf ∷ 0xf28f_bfbe ∷ 0xf28f_bfbf ∷ 0xf29f_bfbe
    ∷ 0xf29f_bfbf ∷ 0xf2af_bfbe ∷ 0xf2af_bfbf ∷ 0xf2bf_bfbe ∷ 0xf2bf_bfbf ∷ 0xf38f_bfbe
    ∷ 0xf38f_bfbf ∷ 0xf39f_bfbe ∷ 0xf39f_bfbf ∷ 0xf3af_bfbe ∷ 0xf3af_bfbf ∷ 0xf3bf_bfbe
    ∷ 0xf3bf_bfbf ∷ 0xf48f_bfbe ∷ 0xf48f_bfbf ∷ []

-- The second arm.
abbrev control_bytes : List ℕ
control_bytes =
    0x1 ∷ 0x2 ∷ 0x3 ∷ 0x4 ∷ 0x5 ∷ 0x6 ∷ 0x7 ∷ 0x8 ∷ 0xb ∷ 0xd ∷ 0xe ∷ 0xf ∷ 0x10 ∷ 0x11 ∷ 0x12
    ∷ 0x13 ∷ 0x14 ∷ 0x15 ∷ 0x16 ∷ 0x17 ∷ 0x18 ∷ 0x19 ∷ 0x1a ∷ 0x1b ∷ 0x1c ∷ 0x1d ∷ 0x1e ∷ 0x1f
    ∷ 0x7f ∷ 0xc280 ∷ 0xc281 ∷ 0xc282 ∷ 0xc283 ∷ 0xc284 ∷ 0xc285 ∷ 0xc286 ∷ 0xc287 ∷ 0xc288 ∷ 0xc289
    ∷ 0xc28a ∷ 0xc28b ∷ 0xc28c ∷ 0xc28d ∷ 0xc28e ∷ 0xc28f ∷ 0xc290 ∷ 0xc291 ∷ 0xc292 ∷ 0xc293
    ∷ 0xc294 ∷ 0xc295 ∷ 0xc296 ∷ 0xc297 ∷ 0xc298 ∷ 0xc299 ∷ 0xc29a ∷ 0xc29b ∷ 0xc29c ∷ 0xc29d
    ∷ 0xc29e ∷ 0xc29f ∷ []

-- Which of the two errors, if any, the last bytes call for: the `match` of
-- `validate_last_4_bytes`.
unfoldable pub last_4_bytes_error : ℕ → Option Error
unfolding contains
last_4_bytes_error n =
    if contains noncharacter_bytes n
    then some noncharacter_in_input_stream
    else if contains control_bytes n
    then some control_character_in_input_stream
    else none

-- `last << 8 | byte` in a `u32`.
abbrev pub shift_in : ℕ → ℕ → ℕ
shift_in last byte = (last * 256) % 2 ^ 32 + byte

module _ ⦃E : Emitter⦄ where
  pub emit_errors : List Error → E.Self → E.Self
  emit_errors [] e = e
  emit_errors (x ∷ xs) e = emit_errors xs (E.emit_error x e)

  unfoldable pub flush_character_error : CharValidator → E.Self → CharValidator × E.Self
  unfolding drain
  flush_character_error v e =
      if E.should_emit_errors e
      then (
        record v { character_error = (drain v.character_error).1 },
        emit_errors (drain v.character_error).0 e,
      )
      else (v, e)

  -- `none` is a panic: the errors of one character do not fit in `character_error`.
  unfoldable pub set_character_error :
      Error → CharValidator → E.Self → Option (CharValidator × E.Self)
  unfolding push
  set_character_error error v e =
      if E.should_emit_errors e
      then if v.last_4_bytes == 0
        then some (v, E.emit_error error e)
        else elim (push error v.character_error) [
          | none ↦ none
          | some errors ↦ some (record v { character_error = errors }, e)
        ]
      else some (v, e)

  unfoldable pub validate_last_4_bytes : ℕ → CharValidator → E.Self → CharValidator × E.Self
  validate_last_4_bytes last v e = elim (last_4_bytes_error last) [
    | none ↦ (v, e)
    | some error ↦ flush_character_error v (E.emit_error error e)
  ]

  unfoldable pub validate_byte : ℕ → CharValidator → E.Self → CharValidator × E.Self
  validate_byte byte v e =
      let ascii = flush_character_error (record v { last_4_bytes = 0 }) e in
      let last = shift_in v.last_4_bytes byte in
      if not (E.should_emit_errors e)
      then (v, e)
      else if ltb byte 128
      then validate_last_4_bytes byte ascii.0 ascii.1
      else if leb 192 byte
      then flush_character_error (record v { last_4_bytes = byte }) e
      else validate_last_4_bytes last (record v { last_4_bytes = last }) e

  unfoldable pub validate_each : Bytes → CharValidator → E.Self → CharValidator × E.Self
  validate_each [] v e = (v, e)
  validate_each (x ∷ xs) v e = let (v', e') = validate_byte x v e in validate_each xs v' e'

  unfoldable pub validate_bytes : Bytes → CharValidator → E.Self → CharValidator × E.Self
  validate_bytes xs v e = if E.should_emit_errors e then validate_each xs v e else (v, e)
