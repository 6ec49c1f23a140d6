-- ===== src/Machine/Cdata.antt =====
-- src/machine.rs: the states of a CDATA section.
use html5gum.Base.{[], ◌∷◌, if◌then◌else◌, ℕ}
use html5gum.Base.Bytes.{codes}
use html5gum.Tokenizer.{M, ◌>>=◌, ◌>>◌, emit, read_byte, read_until, error}
use html5gum.Machine.Ops.{
  Flow, chunk, cont, eof, is_any, is_one_of, is_some, loop, reconsume_in, switch_to,
}
use html5gum.MachineHelper.{
  MachineState, ControlToken, cdata_section, cdata_section_bracket, cdata_section_end, data_state,
}
use html5gum.Errors.{eof_in_cdata}
use html5gum.Emitter.{Emitter}
use html5gum.Reader.Trait.{Reader}

module _ ⦃R : Reader⦄ ⦃E : Emitter⦄ (fuel : ℕ) (call : MachineState → M ControlToken) where
  -- One round of the loop of `states::CdataSection::run`.
  unfoldable pub round_cdata_section : M Flow
  round_cdata_section = do
    xs ← read_until (b']' ∷ [])
    if is_one_of (b']' ∷ []) xs
        then switch_to cdata_section_bracket
        else if is_some xs
        then (do emit (E.emit_string (chunk xs)); cont)
        else (do error eof_in_cdata; eof)

  unfoldable pub run_cdata_section : M ControlToken
  run_cdata_section = loop fuel round_cdata_section

  -- One round of the loop of `states::CdataSectionBracket::run`.
  unfoldable pub round_cdata_section_bracket : M Flow
  round_cdata_section_bracket = do
    c ← read_byte
    if is_any (b']' ∷ []) c
        then switch_to cdata_section_end
        else (do emit (E.emit_string (codes "]")); reconsume_in c cdata_section)

  unfoldable pub run_cdata_section_bracket : M ControlToken
  run_cdata_section_bracket = loop fuel round_cdata_section_bracket

  -- One round of the loop of `states::CdataSectionEnd::run`.
  unfoldable pub round_cdata_section_end : M Flow
  round_cdata_section_end = do
    c ← read_byte
    if is_any (b']' ∷ []) c
        then (do emit (E.emit_string (codes "]")); cont)
        else if is_any (b'>' ∷ []) c
        then switch_to data_state
        else (do emit (E.emit_string (codes "]]")); reconsume_in c cdata_section)

  unfoldable pub run_cdata_section_end : M ControlToken
  run_cdata_section_end = loop fuel round_cdata_section_end
