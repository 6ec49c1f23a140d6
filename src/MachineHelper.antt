-- ===== src/MachineHelper.antt =====
-- src/machine_helper.rs: the states of the machine, `MachineHelper`, `ControlToken`, and the
-- conversion of the states that an emitter may ask for. A state of the source is a function pointer
-- with a name; the model names the state, and `Machine.run_state` gives its function.
use html5gum.Base.{Bool, false, Option, none, some, [], ℕ}
use html5gum.Base.Bytes.{Bytes}
use html5gum.Emitter.{State}

-- The modules of `machine::states`.
pub data MachineState : Type 0 where
  data_state : MachineState
  rc_data : MachineState
  raw_text : MachineState
  script_data : MachineState
  plain_text : MachineState
  tag_open : MachineState
  end_tag_open : MachineState
  tag_name : MachineState
  rc_data_less_than_sign : MachineState
  rc_data_end_tag_open : MachineState
  rc_data_end_tag_name : MachineState
  raw_text_less_than_sign : MachineState
  raw_text_end_tag_open : MachineState
  raw_text_end_tag_name : MachineState
  script_data_less_than_sign : MachineState
  script_data_end_tag_open : MachineState
  script_data_end_tag_name : MachineState
  script_data_escape_start : MachineState
  script_data_escape_start_dash : MachineState
  script_data_escaped : MachineState
  script_data_escaped_dash : MachineState
  script_data_escaped_dash_dash : MachineState
  script_data_escaped_less_than_sign : MachineState
  script_data_escaped_end_tag_open : MachineState
  script_data_escaped_end_tag_name : MachineState
  script_data_double_escape_start : MachineState
  script_data_double_escaped : MachineState
  script_data_double_escaped_dash : MachineState
  script_data_double_escaped_dash_dash : MachineState
  script_data_double_escaped_less_than_sign : MachineState
  script_data_double_escape_end : MachineState
  before_attribute_name : MachineState
  attribute_name : MachineState
  after_attribute_name : MachineState
  before_attribute_value : MachineState
  attribute_value_double_quoted : MachineState
  attribute_value_single_quoted : MachineState
  attribute_value_unquoted : MachineState
  after_attribute_value_quoted : MachineState
  self_closing_start_tag : MachineState
  bogus_comment : MachineState
  markup_declaration_open : MachineState
  comment_start : MachineState
  comment_start_dash : MachineState
  comment : MachineState
  comment_less_than_sign : MachineState
  comment_less_than_sign_bang : MachineState
  comment_less_than_sign_bang_dash : MachineState
  comment_less_than_sign_bang_dash_dash : MachineState
  comment_end_dash : MachineState
  comment_end : MachineState
  comment_end_bang : MachineState
  doctype : MachineState
  before_doctype_name : MachineState
  doctype_name : MachineState
  after_doctype_name : MachineState
  after_doctype_public_keyword : MachineState
  before_doctype_public_identifier : MachineState
  doctype_public_identifier_double_quoted : MachineState
  doctype_public_identifier_single_quoted : MachineState
  after_doctype_public_identifier : MachineState
  between_doctype_public_and_system_identifiers : MachineState
  after_doctype_system_keyword : MachineState
  before_doctype_system_identifier : MachineState
  doctype_system_identifier_double_quoted : MachineState
  doctype_system_identifier_single_quoted : MachineState
  after_doctype_system_identifier : MachineState
  bogus_doctype : MachineState
  cdata_section : MachineState
  cdata_section_bracket : MachineState
  cdata_section_end : MachineState
  character_reference : MachineState
  named_character_reference : MachineState
  ambiguous_ampersand : MachineState
  numeric_character_reference : MachineState
  hexadecimal_character_reference_start : MachineState
  hexadecimal_character_reference : MachineState
  decimal_character_reference : MachineState
  numeric_character_reference_end : MachineState

pub data ControlToken : Type 0 where
  eof : ControlToken
  continue : ControlToken
  switch_to : MachineState → ControlToken

-- `impl Into<MachineState> for State`.
unfoldable pub into : State → MachineState
into State.data_state = data_state
into State.plain_text = plain_text
into State.rc_data = rc_data
into State.raw_text = raw_text
into State.script_data = script_data
into State.cdata_section = cdata_section

pub record MachineHelper : Type 0 where
  pub temporary_buffer : Bytes
  pub character_reference_code : ℕ  -- u32
  pub state : MachineState
  -- the state to go back to, and whether it is one of an attribute
  pub return_state : Option (MachineState × Bool)

-- `MachineHelper::default`.
unfoldable pub default : MachineHelper
default = record {
  temporary_buffer = [];
  character_reference_code = 0;
  state = data_state;
  return_state = none;
}

unfoldable pub is_consumed_as_part_of_an_attribute : MachineHelper → Bool
is_consumed_as_part_of_an_attribute m = elim m.return_state [
  | some (_, is_attribute) ↦ is_attribute
  | none ↦ false
]
