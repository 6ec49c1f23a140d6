-- ===== src/Machine/ScriptEscaped.antt =====
-- src/machine.rs: the states of script data inside `<!--`.
use html5gum.Base.{◌&&◌, [], ◌∷◌, map, if◌then◌else◌, ℕ}
use html5gum.Base.Bytes.{codes, is_ascii_alphabetic, to_ascii_lowercase}
use html5gum.Tokenizer.{M, ◌>>=◌, ◌>>◌, emit, ask, read_byte, read_until, error}
use html5gum.Machine.Ops.{
  Flow, bytes, chunk, clear_buffer, cont, emit_current_tag_and_switch_to, eof,
  flush_buffer_characters, holds, is_any, is_one_of, is_some, loop, push_buffer, reconsume_in,
  replacement_character, switch_to,
}
use html5gum.MachineHelper.{
  MachineState, ControlToken, before_attribute_name, data_state, script_data,
  script_data_double_escape_start, script_data_escape_start_dash, script_data_escaped,
  script_data_escaped_dash, script_data_escaped_dash_dash, script_data_escaped_end_tag_name,
  script_data_escaped_end_tag_open, script_data_escaped_less_than_sign, self_closing_start_tag,
}
use html5gum.Errors.{eof_in_script_html_comment_like_text, unexpected_null_character}
use html5gum.Emitter.{Emitter}
use html5gum.Reader.Trait.{Reader}

module _ ⦃R : Reader⦄ ⦃E : Emitter⦄ (fuel : ℕ) (call : MachineState → M ControlToken) where
  -- One round of the loop of `states::ScriptDataEscapeStart::run`.
  unfoldable pub round_script_data_escape_start : M Flow
  round_script_data_escape_start = do
    c ← read_byte
    if is_any (b'-' ∷ []) c
        then (do emit (E.emit_string (codes "-")); switch_to script_data_escape_start_dash)
        else reconsume_in c script_data

  unfoldable pub run_script_data_escape_start : M ControlToken
  run_script_data_escape_start = loop fuel round_script_data_escape_start

  -- One round of the loop of `states::ScriptDataEscapeStartDash::run`.
  unfoldable pub round_script_data_escape_start_dash : M Flow
  round_script_data_escape_start_dash = do
    c ← read_byte
    if is_any (b'-' ∷ []) c
        then (do emit (E.emit_string (codes "-")); switch_to script_data_escaped_dash_dash)
        else reconsume_in c script_data

  unfoldable pub run_script_data_escape_start_dash : M ControlToken
  run_script_data_escape_start_dash = loop fuel round_script_data_escape_start_dash

  -- One round of the loop of `states::ScriptDataEscaped::run`.
  unfoldable pub round_script_data_escaped : M Flow
  round_script_data_escaped = do
    xs ← read_until (b'-' ∷ b'<' ∷ 0x00 ∷ [])
    if is_one_of (b'-' ∷ []) xs
        then (do emit (E.emit_string (codes "-")); switch_to script_data_escaped_dash)
        else if is_one_of (b'<' ∷ []) xs
        then switch_to script_data_escaped_less_than_sign
        else if is_one_of (0x00 ∷ []) xs
        then (do error unexpected_null_character; emit (E.emit_string replacement_character); cont)
        else if is_some xs
        then (do emit (E.emit_string (chunk xs)); cont)
        else (do error eof_in_script_html_comment_like_text; eof)

  unfoldable pub run_script_data_escaped : M ControlToken
  run_script_data_escaped = loop fuel round_script_data_escaped

  -- One round of the loop of `states::ScriptDataEscapedDash::run`.
  unfoldable pub round_script_data_escaped_dash : M Flow
  round_script_data_escaped_dash = do
    c ← read_byte
    if is_any (b'-' ∷ []) c
        then (do emit (E.emit_string (codes "-")); switch_to script_data_escaped_dash_dash)
        else if is_any (b'<' ∷ []) c
        then switch_to script_data_escaped_less_than_sign
        else if is_any (0x00 ∷ []) c
        then (do
          error unexpected_null_character
          emit (E.emit_string replacement_character)
          switch_to script_data_escaped)
        else if is_some c
        then (do emit (E.emit_string (bytes c)); switch_to script_data_escaped)
        else (do error eof_in_script_html_comment_like_text; eof)

  unfoldable pub run_script_data_escaped_dash : M ControlToken
  run_script_data_escaped_dash = loop fuel round_script_data_escaped_dash

  -- One round of the loop of `states::ScriptDataEscapedDashDash::run`.
  unfoldable pub round_script_data_escaped_dash_dash : M Flow
  round_script_data_escaped_dash_dash = do
    c ← read_byte
    if is_any (b'-' ∷ []) c
        then (do emit (E.emit_string (codes "-")); cont)
        else if is_any (b'<' ∷ []) c
        then switch_to script_data_escaped_less_than_sign
        else if is_any (b'>' ∷ []) c
        then (do emit (E.emit_string (codes ">")); switch_to script_data)
        else if is_any (0x00 ∷ []) c
        then (do
          error unexpected_null_character
          emit (E.emit_string replacement_character)
          switch_to script_data_escaped)
        else if is_some c
        then (do emit (E.emit_string (bytes c)); switch_to script_data_escaped)
        else (do error eof_in_script_html_comment_like_text; eof)

  unfoldable pub run_script_data_escaped_dash_dash : M ControlToken
  run_script_data_escaped_dash_dash = loop fuel round_script_data_escaped_dash_dash

  -- One round of the loop of `states::ScriptDataEscapedLessThanSign::run`.
  unfoldable pub round_script_data_escaped_less_than_sign : M Flow
  round_script_data_escaped_less_than_sign = do
    c ← read_byte
    if is_any (b'/' ∷ []) c
        then (do clear_buffer; switch_to script_data_escaped_end_tag_open)
        else if holds is_ascii_alphabetic c
        then (do
          clear_buffer
          emit (E.emit_string (codes "<"))
          reconsume_in c script_data_double_escape_start)
        else (do emit (E.emit_string (codes "<")); reconsume_in c script_data_escaped)

  unfoldable pub run_script_data_escaped_less_than_sign : M ControlToken
  run_script_data_escaped_less_than_sign = loop fuel round_script_data_escaped_less_than_sign

  -- One round of the loop of `states::ScriptDataEscapedEndTagOpen::run`.
  unfoldable pub round_script_data_escaped_end_tag_open : M Flow
  round_script_data_escaped_end_tag_open = do
    c ← read_byte
    if holds is_ascii_alphabetic c
        then (do emit E.init_end_tag; reconsume_in c script_data_escaped_end_tag_name)
        else (do emit (E.emit_string (codes "</")); reconsume_in c script_data_escaped)

  unfoldable pub run_script_data_escaped_end_tag_open : M ControlToken
  run_script_data_escaped_end_tag_open = loop fuel round_script_data_escaped_end_tag_open

  -- One round of the loop of `states::ScriptDataEscapedEndTagName::run`.
  unfoldable pub round_script_data_escaped_end_tag_name : M Flow
  round_script_data_escaped_end_tag_name = do
    c ← read_byte
    appropriate ← ask E.current_is_appropriate_end_tag_token
    if is_any (0x09 ∷ 0x0a ∷ 0x0c ∷ b' ' ∷ []) c && appropriate
        then switch_to before_attribute_name
        else if is_any (b'/' ∷ []) c && appropriate
        then switch_to self_closing_start_tag
        else if is_any (b'>' ∷ []) c && appropriate
        then emit_current_tag_and_switch_to data_state
        else if holds is_ascii_alphabetic c
        then (do
          emit (E.push_tag_name (map to_ascii_lowercase (bytes c)))
          push_buffer (bytes c)
          cont)
        else (do
          emit (E.emit_string (codes "</"))
          flush_buffer_characters
          reconsume_in c script_data_escaped)

  unfoldable pub run_script_data_escaped_end_tag_name : M ControlToken
  run_script_data_escaped_end_tag_name = loop fuel round_script_data_escaped_end_tag_name
