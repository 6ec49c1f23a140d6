-- ===== src/Machine/Attributes.antt =====
-- src/machine.rs: the states of attributes.
use html5gum.Base.{true, ◌||◌, [], ◌∷◌, none, some, if◌then◌else◌, ℕ}
use html5gum.Base.Bytes.{codes}
use html5gum.Utils.{with_lowercase_str}
use html5gum.Tokenizer.{M, ◌>>=◌, ◌>>◌, emit, read_byte, read_until, unread_byte, error}
use html5gum.Machine.Ops.{
  Flow, chunk, cont, emit_current_tag_and_switch_to, enter_state, eof, unwrap, index_0,
  inline_next_state, is_any, is_none, is_one_of, is_some, loop, reconsume_in, replacement_character,
  switch_to,
}
use html5gum.MachineHelper.{
  MachineState, ControlToken, after_attribute_name, after_attribute_value_quoted, attribute_name,
  attribute_value_double_quoted, attribute_value_single_quoted, attribute_value_unquoted,
  before_attribute_name, before_attribute_value, character_reference, data_state,
  self_closing_start_tag,
}
use html5gum.Errors.{
  eof_in_tag, missing_attribute_value, missing_whitespace_between_attributes,
  unexpected_character_in_attribute_name, unexpected_character_in_unquoted_attribute_value,
  unexpected_equals_sign_before_attribute_name, unexpected_null_character,
}
use html5gum.Emitter.{Emitter}
use html5gum.Reader.Trait.{Reader}

module _ ⦃R : Reader⦄ ⦃E : Emitter⦄ (fuel : ℕ) (call : MachineState → M ControlToken) where
  -- One round of the loop of `states::BeforeAttributeName::run`.
  unfoldable pub round_before_attribute_name : M Flow
  round_before_attribute_name = do
    c ← read_byte
    if is_any (0x09 ∷ 0x0a ∷ 0x0c ∷ b' ' ∷ []) c
        then cont
        else if is_any (b'/' ∷ b'>' ∷ []) c || is_none c
        then (do
          unread_byte c
          inline_next_state call (ControlToken.switch_to after_attribute_name))
        else if is_any (b'=' ∷ []) c
        then (do
          error unexpected_equals_sign_before_attribute_name
          emit E.init_attribute
          emit (E.push_attribute_name (codes "="))
          switch_to attribute_name)
        else (do
          emit E.init_attribute
          unread_byte c
          inline_next_state call (ControlToken.switch_to attribute_name))

  unfoldable pub run_before_attribute_name : M ControlToken
  run_before_attribute_name = loop fuel round_before_attribute_name

  -- One round of the loop of `states::AttributeName::run`.
  unfoldable pub round_attribute_name : M Flow
  round_attribute_name = do
    xs ←
        read_until (0x09 ∷ 0x0a ∷ 0x0c ∷ b' ' ∷ b'/' ∷ b'>' ∷ b'=' ∷ 0x00 ∷ 0x22 ∷ 0x27 ∷ b'<' ∷ [])
    if is_one_of (0x09 ∷ 0x0a ∷ 0x0c ∷ b' ' ∷ b'/' ∷ b'>' ∷ []) xs
        then (do ys ← unwrap xs; x ← index_0 ys; reconsume_in (some x) after_attribute_name)
        else if is_one_of (b'=' ∷ []) xs
        then inline_next_state call (ControlToken.switch_to before_attribute_value)
        else if is_one_of (0x00 ∷ []) xs
        then (do
          error unexpected_null_character
          emit (E.push_attribute_name replacement_character)
          cont)
        else if is_one_of (0x22 ∷ 0x27 ∷ b'<' ∷ []) xs
        then (do
          error unexpected_character_in_attribute_name
          ys ← unwrap xs
          emit (E.push_attribute_name ys)
          cont)
        else if is_some xs
        then (do emit (with_lowercase_str (chunk xs) E.push_attribute_name); cont)
        else reconsume_in none after_attribute_name

  unfoldable pub run_attribute_name : M ControlToken
  run_attribute_name = loop fuel round_attribute_name

  -- One round of the loop of `states::AfterAttributeName::run`.
  unfoldable pub round_after_attribute_name : M Flow
  round_after_attribute_name = do
    c ← read_byte
    if is_any (0x09 ∷ 0x0a ∷ 0x0c ∷ b' ' ∷ []) c
        then cont
        else if is_any (b'/' ∷ []) c
        then switch_to self_closing_start_tag
        else if is_any (b'=' ∷ []) c
        then switch_to before_attribute_value
        else if is_any (b'>' ∷ []) c
        then emit_current_tag_and_switch_to data_state
        else if is_none c
        then (do error eof_in_tag; eof)
        else (do emit E.init_attribute; reconsume_in c attribute_name)

  unfoldable pub run_after_attribute_name : M ControlToken
  run_after_attribute_name = loop fuel round_after_attribute_name

  -- One round of the loop of `states::BeforeAttributeValue::run`.
  unfoldable pub round_before_attribute_value : M Flow
  round_before_attribute_value = do
    c ← read_byte
    if is_any (0x09 ∷ 0x0a ∷ 0x0c ∷ b' ' ∷ []) c
        then cont
        else if is_any (0x22 ∷ []) c
        then inline_next_state call (ControlToken.switch_to attribute_value_double_quoted)
        else if is_any (0x27 ∷ []) c
        then switch_to attribute_value_single_quoted
        else if is_any (b'>' ∷ []) c
        then (do error missing_attribute_value; emit_current_tag_and_switch_to data_state)
        else reconsume_in c attribute_value_unquoted

  unfoldable pub run_before_attribute_value : M ControlToken
  run_before_attribute_value = loop fuel round_before_attribute_value

  -- One round of the loop of `states::AttributeValueDoubleQuoted::run`.
  unfoldable pub round_attribute_value_double_quoted : M Flow
  round_attribute_value_double_quoted = do
    xs ← read_until (0x22 ∷ b'&' ∷ 0x00 ∷ [])
    if is_one_of (0x22 ∷ []) xs
        then inline_next_state call (ControlToken.switch_to after_attribute_value_quoted)
        else if is_one_of (b'&' ∷ []) xs
        then enter_state character_reference true
        else if is_one_of (0x00 ∷ []) xs
        then (do
          error unexpected_null_character
          emit (E.push_attribute_value replacement_character)
          cont)
        else if is_some xs
        then (do emit (E.push_attribute_value (chunk xs)); cont)
        else (do error eof_in_tag; eof)

  unfoldable pub run_attribute_value_double_quoted : M ControlToken
  run_attribute_value_double_quoted = loop fuel round_attribute_value_double_quoted

  -- One round of the loop of `states::AttributeValueSingleQuoted::run`.
  unfoldable pub round_attribute_value_single_quoted : M Flow
  round_attribute_value_single_quoted = do
    xs ← read_until (0x27 ∷ b'&' ∷ 0x00 ∷ [])
    if is_one_of (0x27 ∷ []) xs
        then switch_to after_attribute_value_quoted
        else if is_one_of (b'&' ∷ []) xs
        then enter_state character_reference true
        else if is_one_of (0x00 ∷ []) xs
        then (do
          error unexpected_null_character
          emit (E.push_attribute_value replacement_character)
          cont)
        else if is_some xs
        then (do emit (E.push_attribute_value (chunk xs)); cont)
        else (do error eof_in_tag; eof)

  unfoldable pub run_attribute_value_single_quoted : M ControlToken
  run_attribute_value_single_quoted = loop fuel round_attribute_value_single_quoted

  -- One round of the loop of `states::AttributeValueUnquoted::run`.
  unfoldable pub round_attribute_value_unquoted : M Flow
  round_attribute_value_unquoted = do
    xs ←
        read_until
          (0x09 ∷ 0x0a ∷ 0x0c ∷ b' ' ∷ b'&' ∷ b'>' ∷ 0x00 ∷ 0x22 ∷ 0x27 ∷ b'<' ∷ b'=' ∷ 0x60 ∷ [])
    if is_one_of (0x09 ∷ 0x0a ∷ 0x0c ∷ b' ' ∷ []) xs
        then switch_to before_attribute_name
        else if is_one_of (b'&' ∷ []) xs
        then enter_state character_reference true
        else if is_one_of (b'>' ∷ []) xs
        then emit_current_tag_and_switch_to data_state
        else if is_one_of (0x00 ∷ []) xs
        then (do
          error unexpected_null_character
          emit (E.push_attribute_value replacement_character)
          cont)
        else if is_one_of (0x22 ∷ 0x27 ∷ b'<' ∷ b'=' ∷ 0x60 ∷ []) xs
        then (do
          error unexpected_character_in_unquoted_attribute_value
          ys ← unwrap xs
          emit (E.push_attribute_value ys)
          cont)
        else if is_some xs
        then (do emit (E.push_attribute_value (chunk xs)); cont)
        else (do error eof_in_tag; eof)

  unfoldable pub run_attribute_value_unquoted : M ControlToken
  run_attribute_value_unquoted = loop fuel round_attribute_value_unquoted

  -- One round of the loop of `states::AfterAttributeValueQuoted::run`.
  unfoldable pub round_after_attribute_value_quoted : M Flow
  round_after_attribute_value_quoted = do
    c ← read_byte
    if is_any (0x09 ∷ 0x0a ∷ 0x0c ∷ b' ' ∷ b'/' ∷ b'>' ∷ []) c || is_none c
        then (do
          unread_byte c
          inline_next_state call (ControlToken.switch_to before_attribute_name))
        else (do error missing_whitespace_between_attributes; reconsume_in c before_attribute_name)

  unfoldable pub run_after_attribute_value_quoted : M ControlToken
  run_after_attribute_value_quoted = loop fuel round_after_attribute_value_quoted
