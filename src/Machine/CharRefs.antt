-- ===== src/Machine/CharRefs.antt =====
-- src/machine.rs: the states of a character reference.
use html5gum.Base.{not, true, ◌||◌, [], ◌∷◌, none, if◌then◌else◌, ℕ, Option, some}
use html5gum.Base.Bytes.{is_ascii_alphanumeric}
use html5gum.Tokenizer.{M, ◌>>=◌, ◌>>◌, emit, read_byte, error, try_read_string, pure}
use html5gum.Machine.Ops.{
  Flow, bytes, clear_buffer, cont, exit_state, flush_code_points_consumed_as_character_reference,
  get_code, holds, is_any, is_consumed_as_part_of_an_attribute, is_in, loop,
  mutate_character_reference, push_buffer, reconsume_in, reconsume_in_return_state, set_code,
  switch_to,
}
use html5gum.MachineHelper.{
  MachineState, ControlToken, ambiguous_ampersand, decimal_character_reference,
  hexadecimal_character_reference, hexadecimal_character_reference_start, named_character_reference,
  numeric_character_reference, numeric_character_reference_end,
}
use html5gum.Errors.{
  absence_of_digits_in_numeric_character_reference, missing_semicolon_after_character_reference,
  unknown_named_character_reference,
}
use html5gum.Emitter.{Emitter}
use html5gum.Reader.Trait.{Reader}
use html5gum.Entities.{CharRef, try_read_character_reference}
use html5gum.Outcome.{ok, panic, not_a_scalar}
use html5gum.Machine.Reference.{end_code, end_error, ends_with_semicolon, is_word_or_equals}
use html5gum.Utils.{is_scalar, encode_utf8}
use html5gum.Errors.{Error}

module _ ⦃R : Reader⦄ ⦃E : Emitter⦄ (fuel : ℕ) (call : MachineState → M ControlToken) where
  -- One round of the loop of `states::CharacterReference::run`.
  unfoldable pub round_character_reference : M Flow
  round_character_reference = do
    c ← read_byte
    if holds is_ascii_alphanumeric c
        then reconsume_in c named_character_reference
        else if is_any (b'#' ∷ []) c
        then (do push_buffer (b'#' ∷ []); switch_to numeric_character_reference)
        else (do flush_code_points_consumed_as_character_reference; reconsume_in_return_state c)

  unfoldable pub run_character_reference : M ControlToken
  run_character_reference = do
    clear_buffer
    push_buffer (b'&' ∷ [])
    loop fuel round_character_reference

  -- `c.map(..)`: no reference is looked for at the end of the input.
  unfoldable pub read_reference : Option ℕ → M (Option CharRef)
  read_reference none = pure none
  read_reference (some x) = try_read_character_reference x (λ s. try_read_string s true)

  -- The reference counts: its characters take the place of the buffer.
  unfoldable pub replace_buffer : CharRef → M (Unit {0})
  replace_buffer char_ref = do
    (if ends_with_semicolon char_ref.name
        then pure tt
        else error missing_semicolon_after_character_reference)
    clear_buffer
    push_buffer char_ref.characters

  -- It does not, in an attribute: what was read of it is text.
  unfoldable pub keep_buffer : Option ℕ → CharRef → M (Unit {0})
  keep_buffer x char_ref = do push_buffer (bytes x); push_buffer char_ref.name

  -- The reference was found: the character read first is `x`, the entry's name goes on after it.
  unfoldable pub found_reference : Option ℕ → CharRef → M Flow
  unfolding replace_buffer keep_buffer
  found_reference x char_ref = do
    next_character ← read_byte
    attribute ← is_consumed_as_part_of_an_attribute
    if not attribute
          || ends_with_semicolon char_ref.name
          || not (holds is_word_or_equals next_character)
        then replace_buffer char_ref
        else keep_buffer x char_ref
    flush_code_points_consumed_as_character_reference
    reconsume_in_return_state next_character

  unfoldable pub no_reference : Option ℕ → M Flow
  no_reference c = do
    flush_code_points_consumed_as_character_reference
    reconsume_in c ambiguous_ampersand

  -- `states::NamedCharacterReference::run`, which has no loop.
  unfoldable pub round_named_character_reference : M Flow
  unfolding read_reference found_reference no_reference
  round_named_character_reference = do
    c ← read_byte
    char_ref ← read_reference c
    elim char_ref [ none ↦ no_reference c | some r ↦ found_reference c r ]

  unfoldable pub run_named_character_reference : M ControlToken
  run_named_character_reference = loop fuel round_named_character_reference

  -- One round of the loop of `states::AmbiguousAmpersand::run`.
  unfoldable pub round_ambiguous_ampersand : M Flow
  round_ambiguous_ampersand = do
    c ← read_byte
    attribute ← is_consumed_as_part_of_an_attribute
    if holds is_ascii_alphanumeric c
        then (if attribute
            then emit (E.push_attribute_value (bytes c)) >> cont
            else emit (E.emit_string (bytes c)) >> cont)
        else if is_any (b';' ∷ []) c
        then (do error unknown_named_character_reference; reconsume_in_return_state c)
        else reconsume_in_return_state c

  unfoldable pub run_ambiguous_ampersand : M ControlToken
  run_ambiguous_ampersand = loop fuel round_ambiguous_ampersand

  -- One round of the loop of `states::NumericCharacterReference::run`.
  unfoldable pub round_numeric_character_reference : M Flow
  round_numeric_character_reference = do
    c ← read_byte
    if is_any (b'x' ∷ b'X' ∷ []) c
        then (do push_buffer (bytes c); switch_to hexadecimal_character_reference_start)
        else if is_in b'0' b'9' c
        then reconsume_in c decimal_character_reference
        else (do
          error absence_of_digits_in_numeric_character_reference
          flush_code_points_consumed_as_character_reference
          reconsume_in_return_state c)

  unfoldable pub run_numeric_character_reference : M ControlToken
  run_numeric_character_reference = do set_code 0; loop fuel round_numeric_character_reference

  -- One round of the loop of `states::HexadecimalCharacterReferenceStart::run`.
  unfoldable pub round_hexadecimal_character_reference_start : M Flow
  round_hexadecimal_character_reference_start = do
    c ← read_byte
    if is_in b'0' b'9' c || is_in b'A' b'F' c || is_in b'a' b'f' c
        then reconsume_in c hexadecimal_character_reference
        else (do
          error absence_of_digits_in_numeric_character_reference
          flush_code_points_consumed_as_character_reference
          reconsume_in_return_state c)

  unfoldable pub run_hexadecimal_character_reference_start : M ControlToken
  run_hexadecimal_character_reference_start = loop fuel round_hexadecimal_character_reference_start

  -- One round of the loop of `states::HexadecimalCharacterReference::run`.
  unfoldable pub round_hexadecimal_character_reference : M Flow
  round_hexadecimal_character_reference = do
    c ← read_byte
    if is_in b'0' b'9' c
        then (do mutate_character_reference 16 0x0030 c; cont)
        else if is_in b'A' b'F' c
        then (do mutate_character_reference 16 0x0037 c; cont)
        else if is_in b'a' b'f' c
        then (do mutate_character_reference 16 0x0057 c; cont)
        else if is_any (b';' ∷ []) c
        then switch_to numeric_character_reference_end
        else (do
          error missing_semicolon_after_character_reference
          reconsume_in c numeric_character_reference_end)

  unfoldable pub run_hexadecimal_character_reference : M ControlToken
  run_hexadecimal_character_reference = loop fuel round_hexadecimal_character_reference

  -- One round of the loop of `states::DecimalCharacterReference::run`.
  unfoldable pub round_decimal_character_reference : M Flow
  round_decimal_character_reference = do
    c ← read_byte
    if is_in b'0' b'9' c
        then (do mutate_character_reference 10 0x0030 c; cont)
        else if is_any (b';' ∷ []) c
        then switch_to numeric_character_reference_end
        else (do
          error missing_semicolon_after_character_reference
          reconsume_in c numeric_character_reference_end)

  unfoldable pub run_decimal_character_reference : M ControlToken
  run_decimal_character_reference = loop fuel round_decimal_character_reference

  -- `char::from_u32(code).unwrap()`.
  unfoldable pub from_u32_unwrap : ℕ → M ℕ
  from_u32_unwrap code t = if is_scalar code then (ok code, t) else (panic not_a_scalar, t)

  unfoldable pub report : Option Error → M (Unit {0})
  report none = pure tt
  report (some e) = error e

  -- `states::NumericCharacterReferenceEnd::run`, which has no loop.
  unfoldable pub round_numeric_character_reference_end : M Flow
  unfolding from_u32_unwrap report
  round_numeric_character_reference_end = do
    code ← get_code
    report (end_error code)
    set_code (end_code code)
    clear_buffer
    c ← from_u32_unwrap (end_code code)
    push_buffer (encode_utf8 c)
    flush_code_points_consumed_as_character_reference
    exit_state

  unfoldable pub run_numeric_character_reference_end : M ControlToken
  run_numeric_character_reference_end = loop fuel round_numeric_character_reference_end
