-- ===== src/Emitter.antt =====
-- src/emitters/emitter.rs: the trait `Emitter`, which the tokenizer calls and its users implement,
-- and `naive_next_state`. src/state.rs: the states that an emitter may ask for.
use html5gum.Base.{Bool, ◌||◌, Option, none, some, if◌then◌else◌}
use html5gum.Base.Bytes.{Bytes, codes, bytes_eq}
use html5gum.Errors.{Error}

pub data State : Type 0 where
  data_state plain_text rc_data raw_text script_data cdata_section : State

-- Each method takes the emitter's state and gives the new one; what it returns stands beside it.
pub record Emitter : Type 1 where
  pub Self : Type 0
  pub Token : Type 0
  pub set_last_start_tag : Option Bytes → Self → Self
  pub emit_eof : Self → Self
  pub emit_error : Error → Self → Self
  pub should_emit_errors : Self → Bool
  pub pop_token : Self → Option Token × Self
  pub emit_string : Bytes → Self → Self
  pub init_start_tag : Self → Self
  pub init_end_tag : Self → Self
  pub init_comment : Self → Self
  pub emit_current_tag : Self → Option State × Self
  pub emit_current_comment : Self → Self
  pub emit_current_doctype : Self → Self
  pub set_self_closing : Self → Self
  pub set_force_quirks : Self → Self
  pub push_tag_name : Bytes → Self → Self
  pub push_comment : Bytes → Self → Self
  pub push_doctype_name : Bytes → Self → Self
  pub init_doctype : Self → Self
  pub init_attribute : Self → Self
  pub push_attribute_name : Bytes → Self → Self
  pub push_attribute_value : Bytes → Self → Self
  pub set_doctype_public_identifier : Bytes → Self → Self
  pub set_doctype_system_identifier : Bytes → Self → Self
  pub push_doctype_public_identifier : Bytes → Self → Self
  pub push_doctype_system_identifier : Bytes → Self → Self
  pub current_is_appropriate_end_tag_token : Self → Bool
  pub adjusted_current_node_present_but_not_in_html_namespace : Self → Bool

-- A guess at the next state, from the name of the start tag just emitted.
unfoldable pub naive_next_state : Bytes → Option State
unfolding bytes_eq
naive_next_state name =
    if bytes_eq name (codes "textarea") || bytes_eq name (codes "title")
    then some rc_data
    else if bytes_eq name (codes "plaintext")
    then some plain_text
    else if bytes_eq name (codes "script")
    then some script_data
    else if bytes_eq name (codes "style")
        || bytes_eq name (codes "iframe")
        || bytes_eq name (codes "xmp")
        || bytes_eq name (codes "noembed")
        || bytes_eq name (codes "noframe")
        || bytes_eq name (codes "noscript")
    then some raw_text
    else none
