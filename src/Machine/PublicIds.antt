-- ===== src/Machine/PublicIds.antt =====
-- src/machine.rs: the states of a doctype's public identifier.
use html5gum.Base.{[], ◌∷◌, if◌then◌else◌, ℕ}
use html5gum.Tokenizer.{M, ◌>>=◌, ◌>>◌, emit, read_byte, read_until, error}
use html5gum.Machine.Ops.{
  Flow, chunk, cont, eof, is_any, is_none, is_one_of, is_some, loop, reconsume_in,
  replacement_character, switch_to,
}
use html5gum.MachineHelper.{
  MachineState, ControlToken, after_doctype_public_identifier, before_doctype_public_identifier,
  between_doctype_public_and_system_identifiers, bogus_doctype, data_state,
  doctype_public_identifier_double_quoted, doctype_public_identifier_single_quoted,
  doctype_system_identifier_double_quoted, doctype_system_identifier_single_quoted,
}
use html5gum.Errors.{
  abrupt_doctype_public_identifier, eof_in_doctype, missing_doctype_public_identifier,
  missing_quote_before_doctype_public_identifier, missing_quote_before_doctype_system_identifier,
  missing_whitespace_after_doctype_public_keyword,
  missing_whitespace_between_doctype_public_and_system_identifiers, unexpected_null_character,
}
use html5gum.Emitter.{Emitter}
use html5gum.Reader.Trait.{Reader}

module _ ⦃R : Reader⦄ ⦃E : Emitter⦄ (fuel : ℕ) (call : MachineState → M ControlToken) where
  -- One round of the loop of `states::AfterDoctypePublicKeyword::run`.
  unfoldable pub round_after_doctype_public_keyword : M Flow
  round_after_doctype_public_keyword = do
    c ← read_byte
    if is_any (0x09 ∷ 0x0a ∷ 0x0c ∷ b' ' ∷ []) c
        then switch_to before_doctype_public_identifier
        else if is_any (0x22 ∷ []) c
        then (do
          error missing_whitespace_after_doctype_public_keyword
          emit (E.set_doctype_public_identifier [])
          switch_to doctype_public_identifier_double_quoted)
        else if is_any (0x27 ∷ []) c
        then (do
          error missing_whitespace_after_doctype_public_keyword
          emit (E.set_doctype_public_identifier [])
          switch_to doctype_public_identifier_single_quoted)
        else if is_any (b'>' ∷ []) c
        then (do
          error missing_doctype_public_identifier
          emit E.set_force_quirks
          emit E.emit_current_doctype
          switch_to data_state)
        else if is_none c
        then (do error eof_in_doctype; emit E.set_force_quirks; emit E.emit_current_doctype; eof)
        else (do
          error missing_quote_before_doctype_public_identifier
          emit E.set_force_quirks
          reconsume_in c bogus_doctype)

  unfoldable pub run_after_doctype_public_keyword : M ControlToken
  run_after_doctype_public_keyword = loop fuel round_after_doctype_public_keyword

  -- One round of the loop of `states::BeforeDoctypePublicIdentifier::run`.
  unfoldable pub round_before_doctype_public_identifier : M Flow
  round_before_doctype_public_identifier = do
    c ← read_byte
    if is_any (0x09 ∷ 0x0a ∷ 0x0c ∷ b' ' ∷ []) c
        then cont
        else if is_any (0x22 ∷ []) c
        then (do
          emit (E.set_doctype_public_identifier [])
          switch_to doctype_public_identifier_double_quoted)
        else if is_any (0x27 ∷ []) c
        then (do
          emit (E.set_doctype_public_identifier [])
          switch_to doctype_public_identifier_single_quoted)
        else if is_any (b'>' ∷ []) c
        then (do
          error missing_doctype_public_identifier
          emit E.set_force_quirks
          emit E.emit_current_doctype
          switch_to data_state)
        else if is_none c
        then (do error eof_in_doctype; emit E.set_force_quirks; emit E.emit_current_doctype; eof)
        else (do
          error missing_quote_before_doctype_public_identifier
          emit E.set_force_quirks
          reconsume_in c bogus_doctype)

  unfoldable pub run_before_doctype_public_identifier : M ControlToken
  run_before_doctype_public_identifier = loop fuel round_before_doctype_public_identifier

  -- One round of the loop of `states::DoctypePublicIdentifierDoubleQuoted::run`.
  unfoldable pub round_doctype_public_identifier_double_quoted : M Flow
  round_doctype_public_identifier_double_quoted = do
    xs ← read_until (0x22 ∷ 0x00 ∷ b'>' ∷ [])
    if is_one_of (0x22 ∷ []) xs
        then switch_to after_doctype_public_identifier
        else if is_one_of (0x00 ∷ []) xs
        then (do
          error unexpected_null_character
          emit (E.push_doctype_public_identifier replacement_character)
          cont)
        else if is_one_of (b'>' ∷ []) xs
        then (do
          error abrupt_doctype_public_identifier
          emit E.set_force_quirks
          emit E.emit_current_doctype
          switch_to data_state)
        else if is_some xs
        then (do emit (E.push_doctype_public_identifier (chunk xs)); cont)
        else (do error eof_in_doctype; emit E.set_force_quirks; emit E.emit_current_doctype; eof)

  unfoldable pub run_doctype_public_identifier_double_quoted : M ControlToken
  run_doctype_public_identifier_double_quoted =
      loop fuel round_doctype_public_identifier_double_quoted

  -- One round of the loop of `states::DoctypePublicIdentifierSingleQuoted::run`.
  unfoldable pub round_doctype_public_identifier_single_quoted : M Flow
  round_doctype_public_identifier_single_quoted = do
    xs ← read_until (0x27 ∷ 0x00 ∷ b'>' ∷ [])
    if is_one_of (0x27 ∷ []) xs
        then switch_to after_doctype_public_identifier
        else if is_one_of (0x00 ∷ []) xs
        then (do
          error unexpected_null_character
          emit (E.push_doctype_public_identifier replacement_character)
          cont)
        else if is_one_of (b'>' ∷ []) xs
        then (do
          error abrupt_doctype_public_identifier
          emit E.set_force_quirks
          emit E.emit_current_doctype
          switch_to data_state)
        else if is_some xs
        then (do emit (E.push_doctype_public_identifier (chunk xs)); cont)
        else (do error eof_in_doctype; emit E.set_force_quirks; emit E.emit_current_doctype; eof)

  unfoldable pub run_doctype_public_identifier_single_quoted : M ControlToken
  run_doctype_public_identifier_single_quoted =
      loop fuel round_doctype_public_identifier_single_quoted

  -- One round of the loop of `states::AfterDoctypePublicIdentifier::run`.
  unfoldable pub round_after_doctype_public_identifier : M Flow
  round_after_doctype_public_identifier = do
    c ← read_byte
    if is_any (0x09 ∷ 0x0a ∷ 0x0c ∷ b' ' ∷ []) c
        then switch_to between_doctype_public_and_system_identifiers
        else if is_any (b'>' ∷ []) c
        then (do emit E.emit_current_doctype; switch_to data_state)
        else if is_any (0x22 ∷ []) c
        then (do
          error missing_whitespace_between_doctype_public_and_system_identifiers
          emit (E.set_doctype_system_identifier [])
          switch_to doctype_system_identifier_double_quoted)
        else if is_any (0x27 ∷ []) c
        then (do
          error missing_whitespace_between_doctype_public_and_system_identifiers
          emit (E.set_doctype_system_identifier [])
          switch_to doctype_system_identifier_single_quoted)
        else if is_none c
        then (do error eof_in_doctype; emit E.set_force_quirks; emit E.emit_current_doctype; eof)
        else (do
          error missing_quote_before_doctype_system_identifier
          emit E.set_force_quirks
          reconsume_in c bogus_doctype)

  unfoldable pub run_after_doctype_public_identifier : M ControlToken
  run_after_doctype_public_identifier = loop fuel round_after_doctype_public_identifier

  -- One round of the loop of `states::BetweenDoctypePublicAndSystemIdentifiers::run`.
  unfoldable pub round_between_doctype_public_and_system_identifiers : M Flow
  round_between_doctype_public_and_system_identifiers = do
    c ← read_byte
    if is_any (0x09 ∷ 0x0a ∷ 0x0c ∷ b' ' ∷ []) c
        then cont
        else if is_any (b'>' ∷ []) c
        then (do emit E.emit_current_doctype; switch_to data_state)
        else if is_any (0x22 ∷ []) c
        then (do
          emit (E.set_doctype_system_identifier [])
          switch_to doctype_system_identifier_double_quoted)
        else if is_any (0x27 ∷ []) c
        then (do
          emit (E.set_doctype_system_identifier [])
          switch_to doctype_system_identifier_single_quoted)
        else if is_none c
        then (do error eof_in_doctype; emit E.set_force_quirks; emit E.emit_current_doctype; eof)
        else (do
          error missing_quote_before_doctype_system_identifier
          emit E.set_force_quirks
          reconsume_in c bogus_doctype)

  unfoldable pub run_between_doctype_public_and_system_identifiers : M ControlToken
  run_between_doctype_public_and_system_identifiers =
      loop fuel round_between_doctype_public_and_system_identifiers
