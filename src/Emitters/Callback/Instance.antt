-- ===== src/Emitters/Callback/Instance.antt =====
-- src/emitters/callback.rs: `CallbackEmitter` as an `Emitter`. The state of the instance is `none`
-- once the callback has panicked; nothing is emitted from then on.
use html5gum.Base.{Bool, true, false, Option, none, some}
use html5gum.Emitter.{Emitter, State}
use html5gum.Emitters.Callback.{Callback, CallbackEmitter, Method}
use html5gum.Emitters.Callback.Methods

module _ ⦃F : Callback⦄ where
  -- A method on an emitter that may have panicked.
  unfoldable pub after_panic : Method → Option CallbackEmitter → Option CallbackEmitter
  after_panic f none = none
  after_panic f (some e) = f e

  unfoldable pub pop : Option CallbackEmitter → Option F.Token × Option CallbackEmitter
  unfolding Methods.pop_token
  pop none = (none, none)
  pop (some e) = let (token, e') = Methods.pop_token e in (token, some e')

  unfoldable pub emit_tag_state : Option CallbackEmitter → Option State × Option CallbackEmitter
  unfolding Methods.requested_state
  emit_tag_state none = (none, none)
  emit_tag_state (some e) = (Methods.requested_state e.emitter_state, some e)

  unfoldable pub is_appropriate : Option CallbackEmitter → Bool
  unfolding Methods.current_is_appropriate_end_tag_token
  is_appropriate none = false
  is_appropriate (some e) = Methods.current_is_appropriate_end_tag_token e.emitter_state

  abbrev pub callback_emitter : Emitter
  callback_emitter = record {
    Self = Option CallbackEmitter;
    Token = F.Token;
    set_last_start_tag = λ tag. after_panic (Methods.set_last_start_tag tag);
    emit_eof = after_panic Methods.emit_eof;
    emit_error = λ x. after_panic (Methods.emit_error x);
    should_emit_errors = λ _. true;
    pop_token = pop;
    emit_string = λ x. after_panic (Methods.emit_string x);
    init_start_tag = after_panic Methods.init_start_tag;
    init_end_tag = after_panic Methods.init_end_tag;
    init_comment = after_panic Methods.init_comment;
    emit_current_tag = λ e. emit_tag_state (after_panic Methods.emit_current_tag e);
    emit_current_comment = after_panic Methods.emit_current_comment;
    emit_current_doctype = after_panic Methods.emit_current_doctype;
    set_self_closing = after_panic Methods.set_self_closing;
    set_force_quirks = after_panic Methods.set_force_quirks;
    push_tag_name = λ x. after_panic (Methods.push_tag_name x);
    push_comment = λ x. after_panic (Methods.push_comment x);
    push_doctype_name = λ x. after_panic (Methods.push_doctype_name x);
    init_doctype = after_panic Methods.init_doctype;
    init_attribute = after_panic Methods.init_attribute;
    push_attribute_name = λ x. after_panic (Methods.push_attribute_name x);
    push_attribute_value = λ x. after_panic (Methods.push_attribute_value x);
    set_doctype_public_identifier = λ x. after_panic (Methods.set_doctype_public_identifier x);
    set_doctype_system_identifier = λ x. after_panic (Methods.set_doctype_system_identifier x);
    push_doctype_public_identifier = λ x. after_panic (Methods.push_doctype_public_identifier x);
    push_doctype_system_identifier = λ x. after_panic (Methods.push_doctype_system_identifier x);
    current_is_appropriate_end_tag_token = is_appropriate;
    adjusted_current_node_present_but_not_in_html_namespace = λ _. false;
  }
