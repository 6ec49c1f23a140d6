-- ===== src/Machine/SystemIds.antt =====
-- src/machine.rs: the states of a doctype's system identifier.
use html5gum.Base.{[], ◌∷◌, if◌then◌else◌, ℕ}
use html5gum.Tokenizer.{M, ◌>>=◌, ◌>>◌, emit, read_byte, read_until, error}
use html5gum.Machine.Ops.{
  Flow, chunk, cont, eof, is_any, is_none, is_one_of, is_some, loop, reconsume_in,
  replacement_character, switch_to,
}
use html5gum.MachineHelper.{
  MachineState, ControlToken, after_doctype_system_identifier, before_doctype_system_identifier,
  bogus_doctype, data_state, doctype_system_identifier_double_quoted,
  doctype_system_identifier_single_quoted,
}
use html5gum.Errors.{
  abrupt_doctype_system_identifier, eof_in_doctype, missing_doctype_system_identifier,
  missing_quote_before_doctype_system_identifier, missing_whitespace_after_doctype_system_keyword,
  unexpected_character_after_doctype_system_identifier, unexpected_null_character,
}
use html5gum.Emitter.{Emitter}
use html5gum.Reader.Trait.{Reader}

module _ ⦃R : Reader⦄ ⦃E : Emitter⦄ (fuel : ℕ) (call : MachineState → M ControlToken) where
  -- One round of the loop of `states::AfterDoctypeSystemKeyword::run`.
  unfoldable pub round_after_doctype_system_keyword : M Flow
  round_after_doctype_system_keyword = do
    c ← read_byte
    if is_any (0x09 ∷ 0x0a ∷ 0x0c ∷ b' ' ∷ []) c
        then switch_to before_doctype_system_identifier
        else if is_any (0x22 ∷ []) c
        then (do
          error missing_whitespace_after_doctype_system_keyword
          emit (E.set_doctype_system_identifier [])
          switch_to doctype_system_identifier_double_quoted)
        else if is_any (0x27 ∷ []) c
        then (do
          error missing_whitespace_after_doctype_system_keyword
          emit (E.set_doctype_system_identifier [])
          switch_to doctype_system_identifier_single_quoted)
        else if is_any (b'>' ∷ []) c
        then (do
          error missing_doctype_system_identifier
          emit E.set_force_quirks
          emit E.emit_current_doctype
          switch_to data_state)
        else if is_none c
        then (do error eof_in_doctype; emit E.set_force_quirks; emit E.emit_current_doctype; eof)
        else (do
          error missing_quote_before_doctype_system_identifier
          emit E.set_force_quirks
          reconsume_in c bogus_doctype)

  unfoldable pub run_after_doctype_system_keyword : M ControlToken
  run_after_doctype_system_keyword = loop fuel round_after_doctype_system_keyword

  -- One round of the loop of `states::BeforeDoctypeSystemIdentifier::run`.
  unfoldable pub round_before_doctype_system_identifier : M Flow
  round_before_doctype_system_identifier = do
    c ← read_byte
    if is_any (0x09 ∷ 0x0a ∷ 0x0c ∷ b' ' ∷ []) c
        then cont
        else if is_any (0x22 ∷ []) c
        then (do
          emit (E.set_doctype_system_identifier [])
          switch_to doctype_system_identifier_double_quoted)
        else if is_any (0x27 ∷ []) c
        then (do
          emit (E.set_doctype_system_identifier [])
          switch_to doctype_system_identifier_single_quoted)
        else if is_any (b'>' ∷ []) c
        then (do
          error missing_doctype_system_identifier
          emit E.set_force_quirks
          emit E.emit_current_doctype
          switch_to data_state)
        else if is_none c
        then (do error eof_in_doctype; emit E.set_force_quirks; emit E.emit_current_doctype; eof)
        else (do
          error missing_quote_before_doctype_system_identifier
          emit E.set_force_quirks
          reconsume_in c bogus_doctype)

  unfoldable pub run_before_doctype_system_identifier : M ControlToken
  run_before_doctype_system_identifier = loop fuel round_before_doctype_system_identifier

  -- One round of the loop of `states::DoctypeSystemIdentifierDoubleQuoted::run`.
  unfoldable pub round_doctype_system_identifier_double_quoted : M Flow
  round_doctype_system_identifier_double_quoted = do
    xs ← read_until (0x22 ∷ 0x00 ∷ b'>' ∷ [])
    if is_one_of (0x22 ∷ []) xs
        then switch_to after_doctype_system_identifier
        else if is_one_of (0x00 ∷ []) xs
        then (do
          error unexpected_null_character
          emit (E.push_doctype_system_identifier replacement_character)
          cont)
        else if is_one_of (b'>' ∷ []) xs
        then (do
          error abrupt_doctype_system_identifier
          emit E.set_force_quirks
          emit E.emit_current_doctype
          switch_to data_state)
        else if is_some xs
        then (do emit (E.push_doctype_system_identifier (chunk xs)); cont)
        else (do error eof_in_doctype; emit E.set_force_quirks; emit E.emit_current_doctype; eof)

  unfoldable pub run_doctype_system_identifier_double_quoted : M ControlToken
  run_doctype_system_identifier_double_quoted =
      loop fuel round_doctype_system_identifier_double_quoted

  -- One round of the loop of `states::DoctypeSystemIdentifierSingleQuoted::run`.
  unfoldable pub round_doctype_system_identifier_single_quoted : M Flow
  round_doctype_system_identifier_single_quoted = do
    xs ← read_until (0x27 ∷ 0x00 ∷ b'>' ∷ [])
    if is_one_of (0x27 ∷ []) xs
        then switch_to after_doctype_system_identifier
        else if is_one_of (0x00 ∷ []) xs
        then (do
          error unexpected_null_character
          emit (E.push_doctype_system_identifier replacement_character)
          cont)
        else if is_one_of (b'>' ∷ []) xs
        then (do
          error abrupt_doctype_system_identifier
          emit E.set_force_quirks
          emit E.emit_current_doctype
          switch_to data_state)
        else if is_some xs
        then (do emit (E.push_doctype_system_identifier (chunk xs)); cont)
        else (do error eof_in_doctype; emit E.set_force_quirks; emit E.emit_current_doctype; eof)

  unfoldable pub run_doctype_system_identifier_single_quoted : M ControlToken
  run_doctype_system_identifier_single_quoted =
      loop fuel round_doctype_system_identifier_single_quoted

  -- One round of the loop of `states::AfterDoctypeSystemIdentifier::run`.
  unfoldable pub round_after_doctype_system_identifier : M Flow
  round_after_doctype_system_identifier = do
    c ← read_byte
    if is_any (0x09 ∷ 0x0a ∷ 0x0c ∷ b' ' ∷ []) c
        then cont
        else if is_any (b'>' ∷ []) c
        then (do emit E.emit_current_doctype; switch_to data_state)
        else if is_none c
        then (do error eof_in_doctype; emit E.set_force_quirks; emit E.emit_current_doctype; eof)
        else (do
          error unexpected_character_after_doctype_system_identifier
          reconsume_in c bogus_doctype)

  unfoldable pub run_after_doctype_system_identifier : M ControlToken
  run_after_doctype_system_identifier = loop fuel round_after_doctype_system_identifier
