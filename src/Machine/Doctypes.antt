-- ===== src/Machine/Doctypes.antt =====
-- src/machine.rs: the states of a doctype and its name.
use html5gum.Base.{Bool, not, false, ◌&&◌, [], ◌∷◌, map, if◌then◌else◌, ℕ}
use html5gum.Base.Bytes.{Bytes, codes, to_ascii_lowercase}
use html5gum.Utils.{with_lowercase_str}
use html5gum.Tokenizer.{M, ◌>>=◌, ◌>>◌, emit, read_byte, read_until, error, try_read_string, pure}
use html5gum.Machine.Ops.{
  Flow, bytes, chunk, cont, eof, is_any, is_none, is_one_of, is_some, loop, reconsume_in,
  replacement_character, switch_to,
}
use html5gum.MachineHelper.{
  MachineState, ControlToken, after_doctype_name, after_doctype_public_keyword,
  after_doctype_system_keyword, before_doctype_name, bogus_doctype, data_state, doctype_name,
}
use html5gum.Errors.{
  eof_in_doctype, invalid_character_sequence_after_doctype_name, missing_doctype_name,
  missing_whitespace_before_doctype_name, unexpected_null_character,
}
use html5gum.Emitter.{Emitter}
use html5gum.Reader.Trait.{Reader}

module _ ⦃R : Reader⦄ ⦃E : Emitter⦄ (fuel : ℕ) (call : MachineState → M ControlToken) where
  -- One round of the loop of `states::Doctype::run`.
  unfoldable pub round_doctype : M Flow
  round_doctype = do
    c ← read_byte
    if is_any (0x09 ∷ 0x0a ∷ 0x0c ∷ b' ' ∷ []) c
        then switch_to before_doctype_name
        else if is_any (b'>' ∷ []) c
        then reconsume_in c before_doctype_name
        else if is_none c
        then (do
          error eof_in_doctype
          emit E.init_doctype
          emit E.set_force_quirks
          emit E.emit_current_doctype
          eof)
        else (do error missing_whitespace_before_doctype_name; reconsume_in c before_doctype_name)

  unfoldable pub run_doctype : M ControlToken
  run_doctype = loop fuel round_doctype

  -- One round of the loop of `states::BeforeDoctypeName::run`.
  unfoldable pub round_before_doctype_name : M Flow
  round_before_doctype_name = do
    c ← read_byte
    if is_any (0x09 ∷ 0x0a ∷ 0x0c ∷ b' ' ∷ []) c
        then cont
        else if is_any (0x00 ∷ []) c
        then (do
          error unexpected_null_character
          emit E.init_doctype
          emit (E.push_doctype_name replacement_character)
          switch_to doctype_name)
        else if is_any (b'>' ∷ []) c
        then (do
          error missing_doctype_name
          emit E.init_doctype
          emit E.set_force_quirks
          emit E.emit_current_doctype
          switch_to data_state)
        else if is_none c
        then (do
          error eof_in_doctype
          emit E.init_doctype
          emit E.set_force_quirks
          emit E.emit_current_doctype
          eof)
        else (do
          emit E.init_doctype
          emit (E.push_doctype_name (map to_ascii_lowercase (bytes c)))
          switch_to doctype_name)

  unfoldable pub run_before_doctype_name : M ControlToken
  run_before_doctype_name = loop fuel round_before_doctype_name

  -- One round of the loop of `states::DoctypeName::run`.
  unfoldable pub round_doctype_name : M Flow
  round_doctype_name = do
    xs ← read_until (0x09 ∷ 0x0a ∷ 0x0c ∷ b' ' ∷ b'>' ∷ 0x00 ∷ [])
    if is_one_of (0x09 ∷ 0x0a ∷ 0x0c ∷ b' ' ∷ []) xs
        then switch_to after_doctype_name
        else if is_one_of (b'>' ∷ []) xs
        then (do emit E.emit_current_doctype; switch_to data_state)
        else if is_one_of (0x00 ∷ []) xs
        then (do
          error unexpected_null_character
          emit (E.push_doctype_name replacement_character)
          cont)
        else if is_some xs
        then (do emit (with_lowercase_str (chunk xs) E.push_doctype_name); cont)
        else (do error eof_in_doctype; emit E.set_force_quirks; emit E.emit_current_doctype; eof)

  unfoldable pub run_doctype_name : M ControlToken
  run_doctype_name = loop fuel round_doctype_name

  -- The answer of `try_read_string` in the guard of an arm: it is asked if the pattern matches.
  unfoldable pub guard_string : Bool → Bytes → M Bool
  guard_string matches s = if matches then try_read_string s false else pure false

  -- One round of the loop of `states::AfterDoctypeName::run`.
  unfoldable pub round_after_doctype_name : M Flow
  unfolding guard_string
  round_after_doctype_name = do
    c ← read_byte
    public ← guard_string (is_any (b'p' ∷ b'P' ∷ []) c) (codes "ublic")
    system ← guard_string (not public && is_any (b's' ∷ b'S' ∷ []) c) (codes "ystem")
    if is_any (0x09 ∷ 0x0a ∷ 0x0c ∷ b' ' ∷ []) c
        then cont
        else if is_any (b'>' ∷ []) c
        then (do emit E.emit_current_doctype; switch_to data_state)
        else if is_none c
        then (do error eof_in_doctype; emit E.set_force_quirks; emit E.emit_current_doctype; eof)
        else if public
        then switch_to after_doctype_public_keyword
        else if system
        then switch_to after_doctype_system_keyword
        else (do
          error invalid_character_sequence_after_doctype_name
          emit E.set_force_quirks
          reconsume_in c bogus_doctype)

  unfoldable pub run_after_doctype_name : M ControlToken
  run_after_doctype_name = loop fuel round_after_doctype_name

  -- One round of the loop of `states::BogusDoctype::run`.
  unfoldable pub round_bogus_doctype : M Flow
  round_bogus_doctype = do
    xs ← read_until (b'>' ∷ 0x00 ∷ [])
    if is_one_of (b'>' ∷ []) xs
        then (do emit E.emit_current_doctype; switch_to data_state)
        else if is_one_of (0x00 ∷ []) xs
        then (do error unexpected_null_character; cont)
        else if is_some xs
        then cont
        else (do emit E.emit_current_doctype; eof)

  unfoldable pub run_bogus_doctype : M ControlToken
  run_bogus_doctype = loop fuel round_bogus_doctype
