-- ===== src/Machine/Safety/Run.antt =====
-- src/machine.rs: the function of every state, and calls from state to state.
use html5gum.Base.{ℕ, zero, suc, Bool, ◌≡◌}
use html5gum.Emitter.{Emitter}
use html5gum.Machine.Safety.Ready.{KeepsReady, Trusted}
use html5gum.Machine.{function_of, run_state}
use html5gum.Machine.Safety.Rounds.Text.{
  run_data_state-Ensures, run_rc_data-Ensures, run_raw_text-Ensures, run_script_data-Ensures,
  run_plain_text-Ensures,
}
use html5gum.Machine.Safety.Rounds.TagStarts.{
  run_tag_open-Ensures, run_end_tag_open-Ensures, run_tag_name-Ensures,
  run_self_closing_start_tag-Ensures,
}
use html5gum.Machine.Safety.Rounds.EndTags.{
  run_rc_data_less_than_sign-Ensures, run_rc_data_end_tag_open-Ensures,
  run_rc_data_end_tag_name-Ensures, run_raw_text_less_than_sign-Ensures,
  run_raw_text_end_tag_open-Ensures, run_raw_text_end_tag_name-Ensures,
}
use html5gum.Machine.Safety.Rounds.ScriptEndTags.{
  run_script_data_less_than_sign-Ensures, run_script_data_end_tag_open-Ensures,
  run_script_data_end_tag_name-Ensures,
}
use html5gum.Machine.Safety.Rounds.ScriptEscaped.{
  run_script_data_escape_start-Ensures, run_script_data_escape_start_dash-Ensures,
  run_script_data_escaped-Ensures, run_script_data_escaped_dash-Ensures,
  run_script_data_escaped_dash_dash-Ensures,
}
use html5gum.Machine.Safety.Rounds.ScriptEscapedTags.{
  run_script_data_escaped_less_than_sign-Ensures, run_script_data_escaped_end_tag_open-Ensures,
  run_script_data_escaped_end_tag_name-Ensures,
}
use html5gum.Machine.Safety.Rounds.ScriptDouble.{
  run_script_data_double_escape_start-Ensures, run_script_data_double_escaped-Ensures,
  run_script_data_double_escaped_dash-Ensures,
}
use html5gum.Machine.Safety.Rounds.ScriptDoubleEnds.{
  run_script_data_double_escaped_dash_dash-Ensures,
  run_script_data_double_escaped_less_than_sign-Ensures, run_script_data_double_escape_end-Ensures,
}
use html5gum.Machine.Safety.Rounds.Attributes.{
  run_before_attribute_name-Ensures, run_attribute_name-Ensures, run_after_attribute_name-Ensures,
  run_before_attribute_value-Ensures,
}
use html5gum.Machine.Safety.Rounds.AttributeValues.{
  run_attribute_value_double_quoted-Ensures, run_attribute_value_single_quoted-Ensures,
  run_attribute_value_unquoted-Ensures, run_after_attribute_value_quoted-Ensures,
}
use html5gum.Machine.Safety.Rounds.Comments.{
  run_bogus_comment-Ensures, run_markup_declaration_open-Ensures, run_comment_start-Ensures,
  run_comment_start_dash-Ensures, run_comment-Ensures,
}
use html5gum.Machine.Safety.Rounds.CommentEnds.{
  run_comment_less_than_sign-Ensures, run_comment_less_than_sign_bang-Ensures,
  run_comment_less_than_sign_bang_dash-Ensures, run_comment_less_than_sign_bang_dash_dash-Ensures,
  run_comment_end_dash-Ensures, run_comment_end-Ensures, run_comment_end_bang-Ensures,
}
use html5gum.Machine.Safety.Rounds.Doctypes.{
  run_doctype-Ensures, run_before_doctype_name-Ensures, run_doctype_name-Ensures,
  run_after_doctype_name-Ensures, run_bogus_doctype-Ensures,
}
use html5gum.Machine.Safety.Rounds.PublicIds.{
  run_after_doctype_public_keyword-Ensures, run_before_doctype_public_identifier-Ensures,
  run_doctype_public_identifier_double_quoted-Ensures,
}
use html5gum.Machine.Safety.Rounds.PublicIdEnds.{
  run_doctype_public_identifier_single_quoted-Ensures, run_after_doctype_public_identifier-Ensures,
  run_between_doctype_public_and_system_identifiers-Ensures,
}
use html5gum.Machine.Safety.Rounds.SystemIds.{
  run_after_doctype_system_keyword-Ensures, run_before_doctype_system_identifier-Ensures,
  run_doctype_system_identifier_double_quoted-Ensures,
}
use html5gum.Machine.Safety.Rounds.SystemIdEnds.{
  run_doctype_system_identifier_single_quoted-Ensures, run_after_doctype_system_identifier-Ensures,
}
use html5gum.Machine.Safety.Rounds.Cdata.{
  run_cdata_section-Ensures, run_cdata_section_bracket-Ensures, run_cdata_section_end-Ensures,
}
use html5gum.Machine.Safety.Rounds.CharRefs.{
  run_character_reference-Ensures, run_ambiguous_ampersand-Ensures,
  run_numeric_character_reference-Ensures, run_hexadecimal_character_reference_start-Ensures,
  run_hexadecimal_character_reference-Ensures, run_decimal_character_reference-Ensures,
}
use html5gum.Machine.Safety.Rounds.CharRefEnds.{
  run_named_character_reference-Ensures, run_numeric_character_reference_end-Ensures,
}
use html5gum.MachineHelper.{MachineState, ControlToken}
use html5gum.ReadHelper.Room.{Accepts}
use html5gum.Reader.Trait.{Reader}
use html5gum.Tokenizer.{M}

module _ ⦃R : Reader⦄ ⦃E : Emitter⦄ (emits : Bool) (trusted : Trusted emits) where
  function_of-Ensures :
      (fuel : ℕ) (call : MachineState → M ControlToken)
      → KeepsReady emits call
      → KeepsReady emits (function_of fuel call)
  unfolding function_of
  function_of-Ensures fuel call keeps MachineState.data_state =
      run_data_state-Ensures emits trusted fuel call keeps
  function_of-Ensures fuel call keeps MachineState.rc_data =
      run_rc_data-Ensures emits trusted fuel call keeps
  function_of-Ensures fuel call keeps MachineState.raw_text =
      run_raw_text-Ensures emits trusted fuel call keeps
  function_of-Ensures fuel call keeps MachineState.script_data =
      run_script_data-Ensures emits trusted fuel call keeps
  function_of-Ensures fuel call keeps MachineState.plain_text =
      run_plain_text-Ensures emits trusted fuel call keeps
  function_of-Ensures fuel call keeps MachineState.tag_open =
      run_tag_open-Ensures emits trusted fuel call keeps
  function_of-Ensures fuel call keeps MachineState.end_tag_open =
      run_end_tag_open-Ensures emits trusted fuel call keeps
  function_of-Ensures fuel call keeps MachineState.tag_name =
      run_tag_name-Ensures emits trusted fuel call keeps
  function_of-Ensures fuel call keeps MachineState.self_closing_start_tag =
      run_self_closing_start_tag-Ensures emits trusted fuel call keeps
  function_of-Ensures fuel call keeps MachineState.rc_data_less_than_sign =
      run_rc_data_less_than_sign-Ensures emits trusted fuel call keeps
  function_of-Ensures fuel call keeps MachineState.rc_data_end_tag_open =
      run_rc_data_end_tag_open-Ensures emits trusted fuel call keeps
  function_of-Ensures fuel call keeps MachineState.rc_data_end_tag_name =
      run_rc_data_end_tag_name-Ensures emits trusted fuel call keeps
  function_of-Ensures fuel call keeps MachineState.raw_text_less_than_sign =
      run_raw_text_less_than_sign-Ensures emits trusted fuel call keeps
  function_of-Ensures fuel call keeps MachineState.raw_text_end_tag_open =
      run_raw_text_end_tag_open-Ensures emits trusted fuel call keeps
  function_of-Ensures fuel call keeps MachineState.raw_text_end_tag_name =
      run_raw_text_end_tag_name-Ensures emits trusted fuel call keeps
  function_of-Ensures fuel call keeps MachineState.script_data_less_than_sign =
      run_script_data_less_than_sign-Ensures emits trusted fuel call keeps
  function_of-Ensures fuel call keeps MachineState.script_data_end_tag_open =
      run_script_data_end_tag_open-Ensures emits trusted fuel call keeps
  function_of-Ensures fuel call keeps MachineState.script_data_end_tag_name =
      run_script_data_end_tag_name-Ensures emits trusted fuel call keeps
  function_of-Ensures fuel call keeps MachineState.script_data_escape_start =
      run_script_data_escape_start-Ensures emits trusted fuel call keeps
  function_of-Ensures fuel call keeps MachineState.script_data_escape_start_dash =
      run_script_data_escape_start_dash-Ensures emits trusted fuel call keeps
  function_of-Ensures fuel call keeps MachineState.script_data_escaped =
      run_script_data_escaped-Ensures emits trusted fuel call keeps
  function_of-Ensures fuel call keeps MachineState.script_data_escaped_dash =
      run_script_data_escaped_dash-Ensures emits trusted fuel call keeps
  function_of-Ensures fuel call keeps MachineState.script_data_escaped_dash_dash =
      run_script_data_escaped_dash_dash-Ensures emits trusted fuel call keeps
  function_of-Ensures fuel call keeps MachineState.script_data_escaped_less_than_sign =
      run_script_data_escaped_less_than_sign-Ensures emits trusted fuel call keeps
  function_of-Ensures fuel call keeps MachineState.script_data_escaped_end_tag_open =
      run_script_data_escaped_end_tag_open-Ensures emits trusted fuel call keeps
  function_of-Ensures fuel call keeps MachineState.script_data_escaped_end_tag_name =
      run_script_data_escaped_end_tag_name-Ensures emits trusted fuel call keeps
  function_of-Ensures fuel call keeps MachineState.script_data_double_escape_start =
      run_script_data_double_escape_start-Ensures emits trusted fuel call keeps
  function_of-Ensures fuel call keeps MachineState.script_data_double_escaped =
      run_script_data_double_escaped-Ensures emits trusted fuel call keeps
  function_of-Ensures fuel call keeps MachineState.script_data_double_escaped_dash =
      run_script_data_double_escaped_dash-Ensures emits trusted fuel call keeps
  function_of-Ensures fuel call keeps MachineState.script_data_double_escaped_dash_dash =
      run_script_data_double_escaped_dash_dash-Ensures emits trusted fuel call keeps
  function_of-Ensures fuel call keeps MachineState.script_data_double_escaped_less_than_sign =
      run_script_data_double_escaped_less_than_sign-Ensures emits trusted fuel call keeps
  function_of-Ensures fuel call keeps MachineState.script_data_double_escape_end =
      run_script_data_double_escape_end-Ensures emits trusted fuel call keeps
  function_of-Ensures fuel call keeps MachineState.before_attribute_name =
      run_before_attribute_name-Ensures emits trusted fuel call keeps
  function_of-Ensures fuel call keeps MachineState.attribute_name =
      run_attribute_name-Ensures emits trusted fuel call keeps
  function_of-Ensures fuel call keeps MachineState.after_attribute_name =
      run_after_attribute_name-Ensures emits trusted fuel call keeps
  function_of-Ensures fuel call keeps MachineState.before_attribute_value =
      run_before_attribute_value-Ensures emits trusted fuel call keeps
  function_of-Ensures fuel call keeps MachineState.attribute_value_double_quoted =
      run_attribute_value_double_quoted-Ensures emits trusted fuel call keeps
  function_of-Ensures fuel call keeps MachineState.attribute_value_single_quoted =
      run_attribute_value_single_quoted-Ensures emits trusted fuel call keeps
  function_of-Ensures fuel call keeps MachineState.attribute_value_unquoted =
      run_attribute_value_unquoted-Ensures emits trusted fuel call keeps
  function_of-Ensures fuel call keeps MachineState.after_attribute_value_quoted =
      run_after_attribute_value_quoted-Ensures emits trusted fuel call keeps
  function_of-Ensures fuel call keeps MachineState.bogus_comment =
      run_bogus_comment-Ensures emits trusted fuel call keeps
  function_of-Ensures fuel call keeps MachineState.markup_declaration_open =
      run_markup_declaration_open-Ensures emits trusted fuel call keeps
  function_of-Ensures fuel call keeps MachineState.comment_start =
      run_comment_start-Ensures emits trusted fuel call keeps
  function_of-Ensures fuel call keeps MachineState.comment_start_dash =
      run_comment_start_dash-Ensures emits trusted fuel call keeps
  function_of-Ensures fuel call keeps MachineState.comment =
      run_comment-Ensures emits trusted fuel call keeps
  function_of-Ensures fuel call keeps MachineState.comment_less_than_sign =
      run_comment_less_than_sign-Ensures emits trusted fuel call keeps
  function_of-Ensures fuel call keeps MachineState.comment_less_than_sign_bang =
      run_comment_less_than_sign_bang-Ensures emits trusted fuel call keeps
  function_of-Ensures fuel call keeps MachineState.comment_less_than_sign_bang_dash =
      run_comment_less_than_sign_bang_dash-Ensures emits trusted fuel call keeps
  function_of-Ensures fuel call keeps MachineState.comment_less_than_sign_bang_dash_dash =
      run_comment_less_than_sign_bang_dash_dash-Ensures emits trusted fuel call keeps
  function_of-Ensures fuel call keeps MachineState.comment_end_dash =
      run_comment_end_dash-Ensures emits trusted fuel call keeps
  function_of-Ensures fuel call keeps MachineState.comment_end =
      run_comment_end-Ensures emits trusted fuel call keeps
  function_of-Ensures fuel call keeps MachineState.comment_end_bang =
      run_comment_end_bang-Ensures emits trusted fuel call keeps
  function_of-Ensures fuel call keeps MachineState.doctype =
      run_doctype-Ensures emits trusted fuel call keeps
  function_of-Ensures fuel call keeps MachineState.before_doctype_name =
      run_before_doctype_name-Ensures emits trusted fuel call keeps
  function_of-Ensures fuel call keeps MachineState.doctype_name =
      run_doctype_name-Ensures emits trusted fuel call keeps
  function_of-Ensures fuel call keeps MachineState.after_doctype_name =
      run_after_doctype_name-Ensures emits trusted fuel call keeps
  function_of-Ensures fuel call keeps MachineState.bogus_doctype =
      run_bogus_doctype-Ensures emits trusted fuel call keeps
  function_of-Ensures fuel call keeps MachineState.after_doctype_public_keyword =
      run_after_doctype_public_keyword-Ensures emits trusted fuel call keeps
  function_of-Ensures fuel call keeps MachineState.before_doctype_public_identifier =
      run_before_doctype_public_identifier-Ensures emits trusted fuel call keeps
  function_of-Ensures fuel call keeps MachineState.doctype_public_identifier_double_quoted =
      run_doctype_public_identifier_double_quoted-Ensures emits trusted fuel call keeps
  function_of-Ensures fuel call keeps MachineState.doctype_public_identifier_single_quoted =
      run_doctype_public_identifier_single_quoted-Ensures emits trusted fuel call keeps
  function_of-Ensures fuel call keeps MachineState.after_doctype_public_identifier =
      run_after_doctype_public_identifier-Ensures emits trusted fuel call keeps
  function_of-Ensures fuel call keeps MachineState.between_doctype_public_and_system_identifiers =
      run_between_doctype_public_and_system_identifiers-Ensures emits trusted fuel call keeps
  function_of-Ensures fuel call keeps MachineState.after_doctype_system_keyword =
      run_after_doctype_system_keyword-Ensures emits trusted fuel call keeps
  function_of-Ensures fuel call keeps MachineState.before_doctype_system_identifier =
      run_before_doctype_system_identifier-Ensures emits trusted fuel call keeps
  function_of-Ensures fuel call keeps MachineState.doctype_system_identifier_double_quoted =
      run_doctype_system_identifier_double_quoted-Ensures emits trusted fuel call keeps
  function_of-Ensures fuel call keeps MachineState.doctype_system_identifier_single_quoted =
      run_doctype_system_identifier_single_quoted-Ensures emits trusted fuel call keeps
  function_of-Ensures fuel call keeps MachineState.after_doctype_system_identifier =
      run_after_doctype_system_identifier-Ensures emits trusted fuel call keeps
  function_of-Ensures fuel call keeps MachineState.cdata_section =
      run_cdata_section-Ensures emits trusted fuel call keeps
  function_of-Ensures fuel call keeps MachineState.cdata_section_bracket =
      run_cdata_section_bracket-Ensures emits trusted fuel call keeps
  function_of-Ensures fuel call keeps MachineState.cdata_section_end =
      run_cdata_section_end-Ensures emits trusted fuel call keeps
  function_of-Ensures fuel call keeps MachineState.character_reference =
      run_character_reference-Ensures emits trusted fuel call keeps
  function_of-Ensures fuel call keeps MachineState.named_character_reference =
      run_named_character_reference-Ensures emits trusted fuel call keeps
  function_of-Ensures fuel call keeps MachineState.ambiguous_ampersand =
      run_ambiguous_ampersand-Ensures emits trusted fuel call keeps
  function_of-Ensures fuel call keeps MachineState.numeric_character_reference =
      run_numeric_character_reference-Ensures emits trusted fuel call keeps
  function_of-Ensures fuel call keeps MachineState.hexadecimal_character_reference_start =
      run_hexadecimal_character_reference_start-Ensures emits trusted fuel call keeps
  function_of-Ensures fuel call keeps MachineState.hexadecimal_character_reference =
      run_hexadecimal_character_reference-Ensures emits trusted fuel call keeps
  function_of-Ensures fuel call keeps MachineState.decimal_character_reference =
      run_decimal_character_reference-Ensures emits trusted fuel call keeps
  function_of-Ensures fuel call keeps MachineState.numeric_character_reference_end =
      run_numeric_character_reference_end-Ensures emits trusted fuel call keeps

  run_state-Trusted : (fuel : ℕ) → KeepsReady emits (run_state fuel)
  unfolding run_state
  run_state-Trusted zero s t ready at = tt
  run_state-Trusted (suc fuel) s t ready at =
      function_of-Ensures fuel (run_state fuel) (run_state-Trusted fuel) s t ready at

module _ ⦃R : Reader⦄ ⦃E : Emitter⦄ (emits : Bool)
    (steady : (e : E.Self) → E.should_emit_errors e ≡ emits) (accepts : Accepts) where
  -- The function of any state, called where it may be, comes to no panic of the machine, of the
  -- helpers it reads through or of the validator, for any emitter that does not change its mind
  -- about errors and any reader that does not panic on a needle of at most 13 bytes. It leaves a
  -- tokenizer on which the function of the state that comes next may be called, also if it ends in
  -- an error of the reader. A panic inside a method of the emitter is not spoken of.
  pub run_state-KeepsReady : (fuel : ℕ) → KeepsReady emits (run_state fuel)
  run_state-KeepsReady = run_state-Trusted emits (record { steady = steady; accepts = accepts })
