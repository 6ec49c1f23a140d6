-- ===== src/Machine.antt =====
-- src/machine.rs: the table of the states' functions. A state's function has a child's name; it may
-- call another state's function by `call`, as `inline_next_state` does through the function pointer.
pub mod Ops
pub mod Reference
pub mod Text
pub mod EndTags
pub mod ScriptEscaped
pub mod ScriptDouble
pub mod Attributes
pub mod Comments
pub mod Doctypes
pub mod PublicIds
pub mod SystemIds
pub mod Cdata
pub mod CharRefs
pub mod Safety
use html5gum.Base.{ℕ, zero, suc}
use html5gum.Emitter.{Emitter}
use html5gum.Machine.Text.{
  run_data_state, run_rc_data, run_raw_text, run_script_data, run_plain_text, run_tag_open,
  run_end_tag_open, run_tag_name, run_self_closing_start_tag,
}
use html5gum.Machine.EndTags.{
  run_rc_data_less_than_sign, run_rc_data_end_tag_open, run_rc_data_end_tag_name,
  run_raw_text_less_than_sign, run_raw_text_end_tag_open, run_raw_text_end_tag_name,
  run_script_data_less_than_sign, run_script_data_end_tag_open, run_script_data_end_tag_name,
}
use html5gum.Machine.ScriptEscaped.{
  run_script_data_escape_start, run_script_data_escape_start_dash, run_script_data_escaped,
  run_script_data_escaped_dash, run_script_data_escaped_dash_dash,
  run_script_data_escaped_less_than_sign, run_script_data_escaped_end_tag_open,
  run_script_data_escaped_end_tag_name,
}
use html5gum.Machine.ScriptDouble.{
  run_script_data_double_escape_start, run_script_data_double_escaped,
  run_script_data_double_escaped_dash, run_script_data_double_escaped_dash_dash,
  run_script_data_double_escaped_less_than_sign, run_script_data_double_escape_end,
}
use html5gum.Machine.Attributes.{
  run_before_attribute_name, run_attribute_name, run_after_attribute_name,
  run_before_attribute_value, run_attribute_value_double_quoted, run_attribute_value_single_quoted,
  run_attribute_value_unquoted, run_after_attribute_value_quoted,
}
use html5gum.Machine.Comments.{
  run_bogus_comment, run_markup_declaration_open, run_comment_start, run_comment_start_dash,
  run_comment, run_comment_less_than_sign, run_comment_less_than_sign_bang,
  run_comment_less_than_sign_bang_dash, run_comment_less_than_sign_bang_dash_dash,
  run_comment_end_dash, run_comment_end, run_comment_end_bang,
}
use html5gum.Machine.Doctypes.{
  run_doctype, run_before_doctype_name, run_doctype_name, run_after_doctype_name, run_bogus_doctype,
}
use html5gum.Machine.PublicIds.{
  run_after_doctype_public_keyword, run_before_doctype_public_identifier,
  run_doctype_public_identifier_double_quoted, run_doctype_public_identifier_single_quoted,
  run_after_doctype_public_identifier, run_between_doctype_public_and_system_identifiers,
}
use html5gum.Machine.SystemIds.{
  run_after_doctype_system_keyword, run_before_doctype_system_identifier,
  run_doctype_system_identifier_double_quoted, run_doctype_system_identifier_single_quoted,
  run_after_doctype_system_identifier,
}
use html5gum.Machine.Cdata.{run_cdata_section, run_cdata_section_bracket, run_cdata_section_end}
use html5gum.Machine.CharRefs.{
  run_character_reference, run_named_character_reference, run_ambiguous_ampersand,
  run_numeric_character_reference, run_hexadecimal_character_reference_start,
  run_hexadecimal_character_reference, run_decimal_character_reference,
  run_numeric_character_reference_end,
}
use html5gum.MachineHelper.{
  MachineState, ControlToken, data_state, rc_data, raw_text, script_data, plain_text, tag_open,
  end_tag_open, tag_name, self_closing_start_tag, rc_data_less_than_sign, rc_data_end_tag_open,
  rc_data_end_tag_name, raw_text_less_than_sign, raw_text_end_tag_open, raw_text_end_tag_name,
  script_data_less_than_sign, script_data_end_tag_open, script_data_end_tag_name,
  script_data_escape_start, script_data_escape_start_dash, script_data_escaped,
  script_data_escaped_dash, script_data_escaped_dash_dash, script_data_escaped_less_than_sign,
  script_data_escaped_end_tag_open, script_data_escaped_end_tag_name,
  script_data_double_escape_start, script_data_double_escaped, script_data_double_escaped_dash,
  script_data_double_escaped_dash_dash, script_data_double_escaped_less_than_sign,
  script_data_double_escape_end, before_attribute_name, attribute_name, after_attribute_name,
  before_attribute_value, attribute_value_double_quoted, attribute_value_single_quoted,
  attribute_value_unquoted, after_attribute_value_quoted, bogus_comment, markup_declaration_open,
  comment_start, comment_start_dash, comment, comment_less_than_sign, comment_less_than_sign_bang,
  comment_less_than_sign_bang_dash, comment_less_than_sign_bang_dash_dash, comment_end_dash,
  comment_end, comment_end_bang, doctype, before_doctype_name, doctype_name, after_doctype_name,
  bogus_doctype, after_doctype_public_keyword, before_doctype_public_identifier,
  doctype_public_identifier_double_quoted, doctype_public_identifier_single_quoted,
  after_doctype_public_identifier, between_doctype_public_and_system_identifiers,
  after_doctype_system_keyword, before_doctype_system_identifier,
  doctype_system_identifier_double_quoted, doctype_system_identifier_single_quoted,
  after_doctype_system_identifier, cdata_section, cdata_section_bracket, cdata_section_end,
  character_reference, named_character_reference, ambiguous_ampersand, numeric_character_reference,
  hexadecimal_character_reference_start, hexadecimal_character_reference,
  decimal_character_reference, numeric_character_reference_end,
}
use html5gum.Outcome.{out_of_fuel}
use html5gum.Reader.Trait.{Reader}
use html5gum.Tokenizer.{M}

module _ ⦃R : Reader⦄ ⦃E : Emitter⦄ where
  -- The function of a state: what `state_ref!` puts into a `MachineState`.
  unfoldable pub function_of : ℕ → (MachineState → M ControlToken) → MachineState → M ControlToken
  function_of fuel call data_state = run_data_state fuel call
  function_of fuel call rc_data = run_rc_data fuel call
  function_of fuel call raw_text = run_raw_text fuel call
  function_of fuel call script_data = run_script_data fuel call
  function_of fuel call plain_text = run_plain_text fuel call
  function_of fuel call tag_open = run_tag_open fuel call
  function_of fuel call end_tag_open = run_end_tag_open fuel call
  function_of fuel call tag_name = run_tag_name fuel call
  function_of fuel call self_closing_start_tag = run_self_closing_start_tag fuel call
  function_of fuel call rc_data_less_than_sign = run_rc_data_less_than_sign fuel call
  function_of fuel call rc_data_end_tag_open = run_rc_data_end_tag_open fuel call
  function_of fuel call rc_data_end_tag_name = run_rc_data_end_tag_name fuel call
  function_of fuel call raw_text_less_than_sign = run_raw_text_less_than_sign fuel call
  function_of fuel call raw_text_end_tag_open = run_raw_text_end_tag_open fuel call
  function_of fuel call raw_text_end_tag_name = run_raw_text_end_tag_name fuel call
  function_of fuel call script_data_less_than_sign = run_script_data_less_than_sign fuel call
  function_of fuel call script_data_end_tag_open = run_script_data_end_tag_open fuel call
  function_of fuel call script_data_end_tag_name = run_script_data_end_tag_name fuel call
  function_of fuel call script_data_escape_start = run_script_data_escape_start fuel call
  function_of fuel call script_data_escape_start_dash = run_script_data_escape_start_dash fuel call
  function_of fuel call script_data_escaped = run_script_data_escaped fuel call
  function_of fuel call script_data_escaped_dash = run_script_data_escaped_dash fuel call
  function_of fuel call script_data_escaped_dash_dash = run_script_data_escaped_dash_dash fuel call
  function_of fuel call script_data_escaped_less_than_sign =
      run_script_data_escaped_less_than_sign fuel call
  function_of fuel call script_data_escaped_end_tag_open =
      run_script_data_escaped_end_tag_open fuel call
  function_of fuel call script_data_escaped_end_tag_name =
      run_script_data_escaped_end_tag_name fuel call
  function_of fuel call script_data_double_escape_start =
      run_script_data_double_escape_start fuel call
  function_of fuel call script_data_double_escaped = run_script_data_double_escaped fuel call
  function_of fuel call script_data_double_escaped_dash =
      run_script_data_double_escaped_dash fuel call
  function_of fuel call script_data_double_escaped_dash_dash =
      run_script_data_double_escaped_dash_dash fuel call
  function_of fuel call script_data_double_escaped_less_than_sign =
      run_script_data_double_escaped_less_than_sign fuel call
  function_of fuel call script_data_double_escape_end = run_script_data_double_escape_end fuel call
  function_of fuel call before_attribute_name = run_before_attribute_name fuel call
  function_of fuel call attribute_name = run_attribute_name fuel call
  function_of fuel call after_attribute_name = run_after_attribute_name fuel call
  function_of fuel call before_attribute_value = run_before_attribute_value fuel call
  function_of fuel call attribute_value_double_quoted = run_attribute_value_double_quoted fuel call
  function_of fuel call attribute_value_single_quoted = run_attribute_value_single_quoted fuel call
  function_of fuel call attribute_value_unquoted = run_attribute_value_unquoted fuel call
  function_of fuel call after_attribute_value_quoted = run_after_attribute_value_quoted fuel call
  function_of fuel call bogus_comment = run_bogus_comment fuel call
  function_of fuel call markup_declaration_open = run_markup_declaration_open fuel call
  function_of fuel call comment_start = run_comment_start fuel call
  function_of fuel call comment_start_dash = run_comment_start_dash fuel call
  function_of fuel call comment = run_comment fuel call
  function_of fuel call comment_less_than_sign = run_comment_less_than_sign fuel call
  function_of fuel call comment_less_than_sign_bang = run_comment_less_than_sign_bang fuel call
  function_of fuel call comment_less_than_sign_bang_dash =
      run_comment_less_than_sign_bang_dash fuel call
  function_of fuel call comment_less_than_sign_bang_dash_dash =
      run_comment_less_than_sign_bang_dash_dash fuel call
  function_of fuel call comment_end_dash = run_comment_end_dash fuel call
  function_of fuel call comment_end = run_comment_end fuel call
  function_of fuel call comment_end_bang = run_comment_end_bang fuel call
  function_of fuel call doctype = run_doctype fuel call
  function_of fuel call before_doctype_name = run_before_doctype_name fuel call
  function_of fuel call doctype_name = run_doctype_name fuel call
  function_of fuel call after_doctype_name = run_after_doctype_name fuel call
  function_of fuel call bogus_doctype = run_bogus_doctype fuel call
  function_of fuel call after_doctype_public_keyword = run_after_doctype_public_keyword fuel call
  function_of fuel call before_doctype_public_identifier =
      run_before_doctype_public_identifier fuel call
  function_of fuel call doctype_public_identifier_double_quoted =
      run_doctype_public_identifier_double_quoted fuel call
  function_of fuel call doctype_public_identifier_single_quoted =
      run_doctype_public_identifier_single_quoted fuel call
  function_of fuel call after_doctype_public_identifier =
      run_after_doctype_public_identifier fuel call
  function_of fuel call between_doctype_public_and_system_identifiers =
      run_between_doctype_public_and_system_identifiers fuel call
  function_of fuel call after_doctype_system_keyword = run_after_doctype_system_keyword fuel call
  function_of fuel call before_doctype_system_identifier =
      run_before_doctype_system_identifier fuel call
  function_of fuel call doctype_system_identifier_double_quoted =
      run_doctype_system_identifier_double_quoted fuel call
  function_of fuel call doctype_system_identifier_single_quoted =
      run_doctype_system_identifier_single_quoted fuel call
  function_of fuel call after_doctype_system_identifier =
      run_after_doctype_system_identifier fuel call
  function_of fuel call cdata_section = run_cdata_section fuel call
  function_of fuel call cdata_section_bracket = run_cdata_section_bracket fuel call
  function_of fuel call cdata_section_end = run_cdata_section_end fuel call
  function_of fuel call character_reference = run_character_reference fuel call
  function_of fuel call named_character_reference = run_named_character_reference fuel call
  function_of fuel call ambiguous_ampersand = run_ambiguous_ampersand fuel call
  function_of fuel call numeric_character_reference = run_numeric_character_reference fuel call
  function_of fuel call hexadecimal_character_reference_start =
      run_hexadecimal_character_reference_start fuel call
  function_of fuel call hexadecimal_character_reference =
      run_hexadecimal_character_reference fuel call
  function_of fuel call decimal_character_reference = run_decimal_character_reference fuel call
  function_of fuel call numeric_character_reference_end =
      run_numeric_character_reference_end fuel call

  -- A state's function with fuel for the rounds of its loop and for the states that it calls.
  unfoldable pub run_state : ℕ → MachineState → M ControlToken
  unfolding function_of
  run_state zero s t = (out_of_fuel, t)
  run_state (suc fuel) s t = function_of fuel (run_state fuel) s t
