-- ===== src/Machine/EndTags.antt =====
-- src/machine.rs: the states that look for the end tag of a text element.
use html5gum.Base.{◌&&◌, [], ◌∷◌, map, if◌then◌else◌, ℕ}
use html5gum.Base.Bytes.{codes, is_ascii_alphabetic, to_ascii_lowercase}
use html5gum.Tokenizer.{M, ◌>>=◌, ◌>>◌, emit, ask, read_byte}
use html5gum.Machine.Ops.{
  Flow, bytes, clear_buffer, cont, emit_current_tag_and_switch_to, flush_buffer_characters, holds,
  is_any, loop, push_buffer, reconsume_in, switch_to,
}
use html5gum.MachineHelper.{
  MachineState, ControlToken, before_attribute_name, data_state, raw_text, raw_text_end_tag_name,
  raw_text_end_tag_open, rc_data, rc_data_end_tag_name, rc_data_end_tag_open, script_data,
  script_data_end_tag_name, script_data_end_tag_open, script_data_escape_start,
  self_closing_start_tag,
}
use html5gum.Emitter.{Emitter}
use html5gum.Reader.Trait.{Reader}

module _ ⦃R : Reader⦄ ⦃E : Emitter⦄ (fuel : ℕ) (call : MachineState → M ControlToken) where
  -- One round of the loop of `states::RcDataLessThanSign::run`.
  unfoldable pub round_rc_data_less_than_sign : M Flow
  round_rc_data_less_than_sign = do
    c ← read_byte
    if is_any (b'/' ∷ []) c
        then (do clear_buffer; switch_to rc_data_end_tag_open)
        else (do emit (E.emit_string (codes "<")); reconsume_in c rc_data)

  unfoldable pub run_rc_data_less_than_sign : M ControlToken
  run_rc_data_less_than_sign = loop fuel round_rc_data_less_than_sign

  -- One round of the loop of `states::RcDataEndTagOpen::run`.
  unfoldable pub round_rc_data_end_tag_open : M Flow
  round_rc_data_end_tag_open = do
    c ← read_byte
    if holds is_ascii_alphabetic c
        then (do emit E.init_end_tag; reconsume_in c rc_data_end_tag_name)
        else (do emit (E.emit_string (codes "</")); reconsume_in c rc_data)

  unfoldable pub run_rc_data_end_tag_open : M ControlToken
  run_rc_data_end_tag_open = loop fuel round_rc_data_end_tag_open

  -- One round of the loop of `states::RcDataEndTagName::run`.
  unfoldable pub round_rc_data_end_tag_name : M Flow
  round_rc_data_end_tag_name = do
    c ← read_byte
    appropriate ← ask E.current_is_appropriate_end_tag_token
    if is_any (0x09 ∷ 0x0a ∷ 0x0c ∷ b' ' ∷ []) c && appropriate
        then switch_to before_attribute_name
        else if is_any (b'/' ∷ []) c && appropriate
        then switch_to self_closing_start_tag
        else if is_any (b'>' ∷ []) c && appropriate
        then emit_current_tag_and_switch_to data_state
        else if holds is_ascii_alphabetic c
        then (do
          emit (E.push_tag_name (map to_ascii_lowercase (bytes c)))
          push_buffer (bytes c)
          cont)
        else (do emit (E.emit_string (codes "</")); flush_buffer_characters; reconsume_in c rc_data)

  unfoldable pub run_rc_data_end_tag_name : M ControlToken
  run_rc_data_end_tag_name = loop fuel round_rc_data_end_tag_name

  -- One round of the loop of `states::RawTextLessThanSign::run`.
  unfoldable pub round_raw_text_less_than_sign : M Flow
  round_raw_text_less_than_sign = do
    c ← read_byte
    if is_any (b'/' ∷ []) c
        then (do clear_buffer; switch_to raw_text_end_tag_open)
        else (do emit (E.emit_string (codes "<")); reconsume_in c raw_text)

  unfoldable pub run_raw_text_less_than_sign : M ControlToken
  run_raw_text_less_than_sign = loop fuel round_raw_text_less_than_sign

  -- One round of the loop of `states::RawTextEndTagOpen::run`.
  unfoldable pub round_raw_text_end_tag_open : M Flow
  round_raw_text_end_tag_open = do
    c ← read_byte
    if holds is_ascii_alphabetic c
        then (do emit E.init_end_tag; reconsume_in c raw_text_end_tag_name)
        else (do emit (E.emit_string (codes "</")); reconsume_in c raw_text)

  unfoldable pub run_raw_text_end_tag_open : M ControlToken
  run_raw_text_end_tag_open = loop fuel round_raw_text_end_tag_open

  -- One round of the loop of `states::RawTextEndTagName::run`.
  unfoldable pub round_raw_text_end_tag_name : M Flow
  round_raw_text_end_tag_name = do
    c ← read_byte
    appropriate ← ask E.current_is_appropriate_end_tag_token
    if is_any (0x09 ∷ 0x0a ∷ 0x0c ∷ b' ' ∷ []) c && appropriate
        then switch_to before_attribute_name
        else if is_any (b'/' ∷ []) c && appropriate
        then switch_to self_closing_start_tag
        else if is_any (b'>' ∷ []) c && appropriate
        then emit_current_tag_and_switch_to data_state
        else if holds is_ascii_alphabetic c
        then (do
          emit (E.push_tag_name (map to_ascii_lowercase (bytes c)))
          push_buffer (bytes c)
          cont)
        else (do
          emit (E.emit_string (codes "</"))
          flush_buffer_characters
          reconsume_in c raw_text)

  unfoldable pub run_raw_text_end_tag_name : M ControlToken
  run_raw_text_end_tag_name = loop fuel round_raw_text_end_tag_name

  -- One round of the loop of `states::ScriptDataLessThanSign::run`.
  unfoldable pub round_script_data_less_than_sign : M Flow
  round_script_data_less_than_sign = do
    c ← read_byte
    if is_any (b'/' ∷ []) c
        then (do clear_buffer; switch_to script_data_end_tag_open)
        else if is_any (b'!' ∷ []) c
        then (do emit (E.emit_string (codes "<!")); switch_to script_data_escape_start)
        else (do emit (E.emit_string (codes "<")); reconsume_in c script_data)

  unfoldable pub run_script_data_less_than_sign : M ControlToken
  run_script_data_less_than_sign = loop fuel round_script_data_less_than_sign

  -- One round of the loop of `states::ScriptDataEndTagOpen::run`.
  unfoldable pub round_script_data_end_tag_open : M Flow
  round_script_data_end_tag_open = do
    c ← read_byte
    if holds is_ascii_alphabetic c
        then (do emit E.init_end_tag; reconsume_in c script_data_end_tag_name)
        else (do emit (E.emit_string (codes "</")); reconsume_in c script_data)

  unfoldable pub run_script_data_end_tag_open : M ControlToken
  run_script_data_end_tag_open = loop fuel round_script_data_end_tag_open

  -- One round of the loop of `states::ScriptDataEndTagName::run`.
  unfoldable pub round_script_data_end_tag_name : M Flow
  round_script_data_end_tag_name = do
    c ← read_byte
    appropriate ← ask E.current_is_appropriate_end_tag_token
    if is_any (0x09 ∷ 0x0a ∷ 0x0c ∷ b' ' ∷ []) c && appropriate
        then switch_to before_attribute_name
        else if is_any (b'/' ∷ []) c && appropriate
        then switch_to self_closing_start_tag
        else if is_any (b'>' ∷ []) c && appropriate
        then emit_current_tag_and_switch_to data_state
        else if holds is_ascii_alphabetic c
        then (do
          emit (E.push_tag_name (map to_ascii_lowercase (bytes c)))
          push_buffer (bytes c)
          cont)
        else (do
          emit (E.emit_string (codes "</"))
          flush_buffer_characters
          reconsume_in c script_data)

  unfoldable pub run_script_data_end_tag_name : M ControlToken
  run_script_data_end_tag_name = loop fuel round_script_data_end_tag_name
