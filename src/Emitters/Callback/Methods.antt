-- ===== src/Emitters/Callback/Methods.antt =====
-- src/emitters/callback.rs: `impl Emitter for CallbackEmitter`.
use html5gum.Base.{Bool, true, false, not, [], ◌∷◌, ◌++◌, Option, none, some, if◌then◌else◌}
use html5gum.Base.Bytes.{Bytes, is_empty, bytes_eq}
use html5gum.Emitter.{State, naive_next_state}
use html5gum.Emitters.Callback.{
  CallbackEvent, CurrentTag, start, end, Callback, EmitterState, CallbackEmitter, Method, ◌then_do◌,
  assign, is_end, identifier, emit_event, flush_attribute_name, flush_attribute,
  flush_open_start_tag, flush_current_characters,
}
use html5gum.Errors.{Error, end_tag_with_attributes, end_tag_with_trailing_solidus}

-- `last_start_tag.unwrap_or_default()`.
abbrev pub or_empty : Option Bytes → Bytes
or_empty none = []
or_empty (some s) = s

-- Assignments to the fields that a method appends to.
abbrev pub clear_tag : CurrentTag → EmitterState → EmitterState
clear_tag start s = record s {
  current_tag_name = [];
  current_tag_type = some start;
  current_tag_self_closing = false;
}
clear_tag end s = record s {
  current_tag_name = [];
  current_tag_type = some end;
  current_tag_had_attributes = false;
}

abbrev pub clear_doctype : EmitterState → EmitterState
clear_doctype s = record s {
  doctype_name = [];
  doctype_has_public_identifier = false;
  doctype_has_system_identifier = false;
  doctype_public_identifier = [];
  doctype_system_identifier = [];
  doctype_force_quirks = false;
}

unfoldable pub current_is_appropriate_end_tag_token : EmitterState → Bool
unfolding bytes_eq
current_is_appropriate_end_tag_token s =
    if is_empty s.last_start_tag
    then false
    else if not (is_end s.current_tag_type)
    then false
    else bytes_eq s.last_start_tag s.current_tag_name

module _ ⦃F : Callback⦄ where
  unfoldable pub set_last_start_tag : Option Bytes → Method
  set_last_start_tag tag = assign (λ s. record s { last_start_tag = or_empty tag })

  unfoldable pub emit_eof : Method
  unfolding flush_current_characters
  emit_eof = flush_current_characters

  unfoldable pub emit_error : Error → Method
  unfolding emit_event
  emit_error error = emit_event (CallbackEvent.error error)

  unfoldable pub pop_token : CallbackEmitter → Option F.Token × CallbackEmitter
  pop_token e = elim e.emitted_tokens [
    | [] ↦ (none, e)
    | token ∷ tokens ↦ (some token, record e { emitted_tokens = tokens })
  ]

  unfoldable pub emit_string : Bytes → Method
  emit_string c = assign (λ s. record s { current_characters = s.current_characters ++ c })

  unfoldable pub init_start_tag : Method
  init_start_tag = assign (clear_tag start)

  unfoldable pub init_end_tag : Method
  init_end_tag = assign (clear_tag end)

  unfoldable pub init_comment : Method
  unfolding flush_current_characters
  init_comment = flush_current_characters then_do assign (λ s. record s { current_comment = [] })

  -- The `match` of `emit_current_tag` on the type of the current tag.
  emit_tag : Option CurrentTag → Method
  unfolding emit_error emit_event flush_open_start_tag
  emit_tag (some start) = flush_open_start_tag then_do λ e.
      emit_event (CallbackEvent.close_start_tag e.emitter_state.current_tag_self_closing) e
  emit_tag (some end) =
      (λ e.
        if e.emitter_state.current_tag_had_attributes
        then emit_error end_tag_with_attributes e
        else some e)
      then_do assign (λ s. record s { last_start_tag = [] })
      then_do λ e. emit_event (CallbackEvent.end_tag e.emitter_state.current_tag_name) e
  emit_tag none = some

  unfoldable pub emit_current_tag : Method
  unfolding flush_attribute flush_current_characters emit_tag
  emit_current_tag = flush_attribute then_do flush_current_characters then_do λ e.
      emit_tag e.emitter_state.current_tag_type e

  -- The state that `emit_current_tag` returns, read off the emitter that it leaves.
  unfoldable pub requested_state : EmitterState → Option State
  unfolding naive_next_state
  requested_state s = if s.naively_switch_states then naive_next_state s.last_start_tag else none

  unfoldable pub emit_current_comment : Method
  unfolding emit_event
  emit_current_comment =
      (λ e. emit_event (CallbackEvent.comment e.emitter_state.current_comment) e)
      then_do assign (λ s. record s { current_comment = [] })

  unfoldable pub emit_current_doctype : Method
  unfolding emit_event
  emit_current_doctype e =
      let s = e.emitter_state in
      emit_event
        (CallbackEvent.doctype s.doctype_name
          (identifier s.doctype_has_public_identifier s.doctype_public_identifier)
          (identifier s.doctype_has_system_identifier s.doctype_system_identifier)
          s.doctype_force_quirks)
        e

  unfoldable pub set_self_closing : Method
  unfolding emit_event
  set_self_closing e =
      if is_end e.emitter_state.current_tag_type
      then emit_event (CallbackEvent.error end_tag_with_trailing_solidus) e
      else assign (λ s. record s { current_tag_self_closing = true }) e

  unfoldable pub set_force_quirks : Method
  set_force_quirks = assign (λ s. record s { doctype_force_quirks = true })

  unfoldable pub push_tag_name : Bytes → Method
  push_tag_name x = assign (λ s. record s { current_tag_name = s.current_tag_name ++ x })

  unfoldable pub push_comment : Bytes → Method
  push_comment x = assign (λ s. record s { current_comment = s.current_comment ++ x })

  unfoldable pub push_doctype_name : Bytes → Method
  push_doctype_name x = assign (λ s. record s { doctype_name = s.doctype_name ++ x })

  unfoldable pub init_doctype : Method
  unfolding flush_current_characters
  init_doctype = flush_current_characters then_do assign clear_doctype

  unfoldable pub init_attribute : Method
  unfolding flush_open_start_tag flush_attribute
  init_attribute =
      flush_open_start_tag
      then_do flush_attribute
      then_do assign (λ s. record s { current_tag_had_attributes = true })

  unfoldable pub push_attribute_name : Bytes → Method
  push_attribute_name x =
      assign (λ s. record s { current_attribute_name = s.current_attribute_name ++ x })

  unfoldable pub push_attribute_value : Bytes → Method
  unfolding flush_attribute_name
  push_attribute_value x =
      flush_attribute_name
      then_do assign (λ s. record s { current_attribute_value = s.current_attribute_value ++ x })

  unfoldable pub set_doctype_public_identifier : Bytes → Method
  set_doctype_public_identifier x =
      assign (λ s. record s { doctype_has_public_identifier = true; doctype_public_identifier = x })

  unfoldable pub set_doctype_system_identifier : Bytes → Method
  set_doctype_system_identifier x =
      assign (λ s. record s { doctype_has_system_identifier = true; doctype_system_identifier = x })

  unfoldable pub push_doctype_public_identifier : Bytes → Method
  push_doctype_public_identifier x =
      assign (λ s. record s { doctype_public_identifier = s.doctype_public_identifier ++ x })

  unfoldable pub push_doctype_system_identifier : Bytes → Method
  push_doctype_system_identifier x =
      assign (λ s. record s { doctype_system_identifier = s.doctype_system_identifier ++ x })
