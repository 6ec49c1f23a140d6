-- ===== src/Machine/ScriptDouble.antt =====
-- src/machine.rs: the states of script data inside `<!-- <script`.
use html5gum.Base.{[], ◌∷◌, map, if◌then◌else◌, ℕ}
use html5gum.Base.Bytes.{codes, bytes_eq, is_ascii_alphabetic, to_ascii_lowercase}
use html5gum.Tokenizer.{M, ◌>>=◌, ◌>>◌, emit, read_byte, read_until, error}
use html5gum.Machine.Ops.{
  Flow, bytes, chunk, clear_buffer, cont, eof, get_buffer, holds, is_any, is_one_of, is_some, loop,
  push_buffer, reconsume_in, replacement_character, switch_to,
}
use html5gum.MachineHelper.{
  MachineState, ControlToken, script_data, script_data_double_escape_end,
  script_data_double_escaped, script_data_double_escaped_dash, script_data_double_escaped_dash_dash,
  script_data_double_escaped_less_than_sign, script_data_escaped,
}
use html5gum.Errors.{eof_in_script_html_comment_like_text, unexpected_null_character}
use html5gum.Emitter.{Emitter}
use html5gum.Reader.Trait.{Reader}

module _ ⦃R : Reader⦄ ⦃E : Emitter⦄ (fuel : ℕ) (call : MachineState → M ControlToken) where
  -- One round of the loop of `states::ScriptDataDoubleEscapeStart::run`.
  unfoldable pub round_script_data_double_escape_start : M Flow
  round_script_data_double_escape_start = do
    c ← read_byte
    if is_any (0x09 ∷ 0x0a ∷ 0x0c ∷ b' ' ∷ b'/' ∷ b'>' ∷ []) c
        then (do
          emit (E.emit_string (bytes c))
          buffer ← get_buffer
          if bytes_eq buffer (codes "script")
              then switch_to script_data_double_escaped
              else switch_to script_data_escaped)
        else if holds is_ascii_alphabetic c
        then (do
          push_buffer (map to_ascii_lowercase (bytes c))
          emit (E.emit_string (bytes c))
          cont)
        else reconsume_in c script_data_escaped

  unfoldable pub run_script_data_double_escape_start : M ControlToken
  run_script_data_double_escape_start = loop fuel round_script_data_double_escape_start

  -- One round of the loop of `states::ScriptDataDoubleEscaped::run`.
  unfoldable pub round_script_data_double_escaped : M Flow
  round_script_data_double_escaped = do
    xs ← read_until (b'-' ∷ b'<' ∷ 0x00 ∷ [])
    if is_one_of (b'-' ∷ []) xs
        then (do emit (E.emit_string (codes "-")); switch_to script_data_double_escaped_dash)
        else if is_one_of (b'<' ∷ []) xs
        then (do
          emit (E.emit_string (codes "<"))
          switch_to script_data_double_escaped_less_than_sign)
        else if is_one_of (0x00 ∷ []) xs
        then (do error unexpected_null_character; emit (E.emit_string replacement_character); cont)
        else if is_some xs
        then (do emit (E.emit_string (chunk xs)); cont)
        else (do error eof_in_script_html_comment_like_text; eof)

  unfoldable pub run_script_data_double_escaped : M ControlToken
  run_script_data_double_escaped = loop fuel round_script_data_double_escaped

  -- One round of the loop of `states::ScriptDataDoubleEscapedDash::run`.
  unfoldable pub round_script_data_double_escaped_dash : M Flow
  round_script_data_double_escaped_dash = do
    c ← read_byte
    if is_any (b'-' ∷ []) c
        then (do emit (E.emit_string (codes "-")); switch_to script_data_double_escaped_dash_dash)
        else if is_any (b'<' ∷ []) c
        then (do
          emit (E.emit_string (codes "<"))
          switch_to script_data_double_escaped_less_than_sign)
        else if is_any (0x00 ∷ []) c
        then (do
          error unexpected_null_character
          emit (E.emit_string replacement_character)
          switch_to script_data_double_escaped)
        else if is_some c
        then (do emit (E.emit_string (bytes c)); switch_to script_data_double_escaped)
        else (do error eof_in_script_html_comment_like_text; eof)

  unfoldable pub run_script_data_double_escaped_dash : M ControlToken
  run_script_data_double_escaped_dash = loop fuel round_script_data_double_escaped_dash

  -- One round of the loop of `states::ScriptDataDoubleEscapedDashDash::run`.
  unfoldable pub round_script_data_double_escaped_dash_dash : M Flow
  round_script_data_double_escaped_dash_dash = do
    c ← read_byte
    if is_any (b'-' ∷ []) c
        then (do emit (E.emit_string (codes "-")); cont)
        else if is_any (b'<' ∷ []) c
        then (do
          emit (E.emit_string (codes "<"))
          switch_to script_data_double_escaped_less_than_sign)
        else if is_any (b'>' ∷ []) c
        then (do emit (E.emit_string (codes ">")); switch_to script_data)
        else if is_any (0x00 ∷ []) c
        then (do
          error unexpected_null_character
          emit (E.emit_string replacement_character)
          switch_to script_data_double_escaped)
        else if is_some c
        then (do emit (E.emit_string (bytes c)); switch_to script_data_double_escaped)
        else (do error eof_in_script_html_comment_like_text; eof)

  unfoldable pub run_script_data_double_escaped_dash_dash : M ControlToken
  run_script_data_double_escaped_dash_dash = loop fuel round_script_data_double_escaped_dash_dash

  -- One round of the loop of `states::ScriptDataDoubleEscapedLessThanSign::run`.
  unfoldable pub round_script_data_double_escaped_less_than_sign : M Flow
  round_script_data_double_escaped_less_than_sign = do
    c ← read_byte
    if is_any (b'/' ∷ []) c
        then (do
          clear_buffer
          emit (E.emit_string (codes "/"))
          switch_to script_data_double_escape_end)
        else reconsume_in c script_data_double_escaped

  unfoldable pub run_script_data_double_escaped_less_than_sign : M ControlToken
  run_script_data_double_escaped_less_than_sign =
      loop fuel round_script_data_double_escaped_less_than_sign

  -- One round of the loop of `states::ScriptDataDoubleEscapeEnd::run`.
  unfoldable pub round_script_data_double_escape_end : M Flow
  round_script_data_double_escape_end = do
    c ← read_byte
    if is_any (0x09 ∷ 0x0a ∷ 0x0c ∷ b' ' ∷ b'/' ∷ b'>' ∷ []) c
        then (do
          emit (E.emit_string (bytes c))
          buffer ← get_buffer
          if bytes_eq buffer (codes "script")
              then switch_to script_data_escaped
              else switch_to script_data_double_escaped)
        else if holds is_ascii_alphabetic c
        then (do
          push_buffer (map to_ascii_lowercase (bytes c))
          emit (E.emit_string (bytes c))
          cont)
        else reconsume_in c script_data_double_escaped

  unfoldable pub run_script_data_double_escape_end : M ControlToken
  run_script_data_double_escape_end = loop fuel round_script_data_double_escape_end
