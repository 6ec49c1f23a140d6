-- ===== src/Machine/Text.antt =====
-- src/machine.rs: the states of plain text and of the start of a tag.
use html5gum.Base.{false, [], ◌∷◌, if◌then◌else◌, ℕ}
use html5gum.Base.Bytes.{codes, is_ascii_alphabetic}
use html5gum.Utils.{with_lowercase_str}
use html5gum.Tokenizer.{
  M, ◌>>=◌, ◌>>◌, emit, read_byte, read_until, unread_byte, error, error_immediate,
}
use html5gum.Machine.Ops.{
  Flow, chunk, cont, emit_current_tag_and_switch_to, enter_state, eof, holds, inline_next_state,
  is_any, is_none, is_one_of, is_some, loop, reconsume_in, replacement_character, switch_to,
}
use html5gum.MachineHelper.{
  MachineState, ControlToken, before_attribute_name, bogus_comment, character_reference, data_state,
  end_tag_open, markup_declaration_open, raw_text_less_than_sign, rc_data_less_than_sign,
  script_data_less_than_sign, self_closing_start_tag, tag_name, tag_open,
}
use html5gum.Errors.{
  eof_before_tag_name, eof_in_tag, invalid_first_character_of_tag_name, missing_end_tag_name,
  unexpected_null_character, unexpected_question_mark_instead_of_tag_name,
  unexpected_solidus_in_tag,
}
use html5gum.Emitter.{Emitter}
use html5gum.Reader.Trait.{Reader}

module _ ⦃R : Reader⦄ ⦃E : Emitter⦄ (fuel : ℕ) (call : MachineState → M ControlToken) where
  -- One round of the loop of `states::Data::run`.
  unfoldable pub round_data_state : M Flow
  round_data_state = do
    xs ← read_until (b'&' ∷ b'<' ∷ 0x00 ∷ [])
    if is_one_of (b'&' ∷ []) xs
        then enter_state character_reference false
        else if is_one_of (b'<' ∷ []) xs
        then inline_next_state call (ControlToken.switch_to tag_open)
        else if is_one_of (0x00 ∷ []) xs
        then (do error unexpected_null_character; emit (E.emit_string (0x00 ∷ [])); cont)
        else if is_some xs
        then (do emit (E.emit_string (chunk xs)); cont)
        else eof

  unfoldable pub run_data_state : M ControlToken
  run_data_state = loop fuel round_data_state

  -- One round of the loop of `states::RcData::run`.
  unfoldable pub round_rc_data : M Flow
  round_rc_data = do
    xs ← read_until (b'&' ∷ b'<' ∷ 0x00 ∷ [])
    if is_one_of (b'&' ∷ []) xs
        then enter_state character_reference false
        else if is_one_of (b'<' ∷ []) xs
        then switch_to rc_data_less_than_sign
        else if is_one_of (0x00 ∷ []) xs
        then (do error unexpected_null_character; emit (E.emit_string replacement_character); cont)
        else if is_some xs
        then (do emit (E.emit_string (chunk xs)); cont)
        else eof

  unfoldable pub run_rc_data : M ControlToken
  run_rc_data = loop fuel round_rc_data

  -- One round of the loop of `states::RawText::run`.
  unfoldable pub round_raw_text : M Flow
  round_raw_text = do
    xs ← read_until (b'<' ∷ 0x00 ∷ [])
    if is_one_of (b'<' ∷ []) xs
        then switch_to raw_text_less_than_sign
        else if is_one_of (0x00 ∷ []) xs
        then (do error unexpected_null_character; emit (E.emit_string replacement_character); cont)
        else if is_some xs
        then (do emit (E.emit_string (chunk xs)); cont)
        else eof

  unfoldable pub run_raw_text : M ControlToken
  run_raw_text = loop fuel round_raw_text

  -- One round of the loop of `states::ScriptData::run`.
  unfoldable pub round_script_data : M Flow
  round_script_data = do
    xs ← read_until (b'<' ∷ 0x00 ∷ [])
    if is_one_of (b'<' ∷ []) xs
        then switch_to script_data_less_than_sign
        else if is_one_of (0x00 ∷ []) xs
        then (do error unexpected_null_character; emit (E.emit_string replacement_character); cont)
        else if is_some xs
        then (do emit (E.emit_string (chunk xs)); cont)
        else eof

  unfoldable pub run_script_data : M ControlToken
  run_script_data = loop fuel round_script_data

  -- One round of the loop of `states::PlainText::run`.
  unfoldable pub round_plain_text : M Flow
  round_plain_text = do
    xs ← read_until (0x00 ∷ [])
    if is_one_of (0x00 ∷ []) xs
        then (do error unexpected_null_character; emit (E.emit_string replacement_character); cont)
        else if is_some xs
        then (do emit (E.emit_string (chunk xs)); cont)
        else eof

  unfoldable pub run_plain_text : M ControlToken
  run_plain_text = loop fuel round_plain_text

  -- One round of the loop of `states::TagOpen::run`.
  unfoldable pub round_tag_open : M Flow
  round_tag_open = do
    c ← read_byte
    if is_any (b'!' ∷ []) c
        then switch_to markup_declaration_open
        else if is_any (b'/' ∷ []) c
        then inline_next_state call (ControlToken.switch_to end_tag_open)
        else if holds is_ascii_alphabetic c
        then (do
          emit E.init_start_tag
          unread_byte c
          inline_next_state call (ControlToken.switch_to tag_name))
        else if is_any (b'?' ∷ []) c
        then (do
          error unexpected_question_mark_instead_of_tag_name
          emit E.init_comment
          reconsume_in c bogus_comment)
        else if is_none c
        then (do error eof_before_tag_name; emit (E.emit_string (codes "<")); eof)
        else (do
          error invalid_first_character_of_tag_name
          emit (E.emit_string (codes "<"))
          reconsume_in c data_state)

  unfoldable pub run_tag_open : M ControlToken
  run_tag_open = loop fuel round_tag_open

  -- One round of the loop of `states::EndTagOpen::run`.
  unfoldable pub round_end_tag_open : M Flow
  round_end_tag_open = do
    c ← read_byte
    if holds is_ascii_alphabetic c
        then (do emit E.init_end_tag; reconsume_in c tag_name)
        else if is_any (b'>' ∷ []) c
        then (do error missing_end_tag_name; switch_to data_state)
        else if is_none c
        then (do error eof_before_tag_name; emit (E.emit_string (codes "</")); eof)
        else (do
          error invalid_first_character_of_tag_name
          emit E.init_comment
          reconsume_in c bogus_comment)

  unfoldable pub run_end_tag_open : M ControlToken
  run_end_tag_open = loop fuel round_end_tag_open

  -- One round of the loop of `states::TagName::run`.
  unfoldable pub round_tag_name : M Flow
  round_tag_name = do
    xs ← read_until (0x09 ∷ 0x0a ∷ 0x0c ∷ b' ' ∷ b'/' ∷ b'>' ∷ 0x00 ∷ [])
    if is_one_of (0x09 ∷ 0x0a ∷ 0x0c ∷ b' ' ∷ []) xs
        then switch_to before_attribute_name
        else if is_one_of (b'/' ∷ []) xs
        then switch_to self_closing_start_tag
        else if is_one_of (b'>' ∷ []) xs
        then emit_current_tag_and_switch_to data_state
        else if is_one_of (0x00 ∷ []) xs
        then (do
          error unexpected_null_character
          emit (E.push_tag_name replacement_character)
          cont)
        else if is_some xs
        then (do emit (with_lowercase_str (chunk xs) E.push_tag_name); cont)
        else (do error eof_in_tag; eof)

  unfoldable pub run_tag_name : M ControlToken
  run_tag_name = loop fuel round_tag_name

  -- One round of the loop of `states::SelfClosingStartTag::run`.
  unfoldable pub round_self_closing_start_tag : M Flow
  round_self_closing_start_tag = do
    c ← read_byte
    if is_any (b'>' ∷ []) c
        then (do emit E.set_self_closing; emit_current_tag_and_switch_to data_state)
        else if is_none c
        then (do error eof_in_tag; eof)
        else (do error_immediate unexpected_solidus_in_tag; reconsume_in c before_attribute_name)

  unfoldable pub run_self_closing_start_tag : M ControlToken
  run_self_closing_start_tag = loop fuel round_self_closing_start_tag
