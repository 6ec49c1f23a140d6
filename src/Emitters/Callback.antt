-- ===== src/Emitters/Callback.antt =====
-- src/emitters/callback.rs: `CallbackEmitter`, which turns the calls of the tokenizer into events for
-- a callback and queues the tokens that the callback returns. `emitted_tokens` is the queue with the
-- next token to be popped first (`push_front` and `pop_back` of the source use it the other way
-- round). The callback is a state `F` with a function; a callback may panic, `none`, which leaves no
-- emitter to go on with.
pub mod Methods
pub mod Instance
pub mod Appropriate
use html5gum.Base.{
  ℕ, Bool, true, false, not, ◌&&◌, List, [], ◌∷◌, ◌++◌, Option, none, some, if◌then◌else◌,
}
use html5gum.Base.Bytes.{Bytes, is_empty, bytes_eq}
use html5gum.Emitter.{State, naive_next_state}
use html5gum.Errors.{Error, end_tag_with_attributes, end_tag_with_trailing_solidus}

pub data CallbackEvent : Type 0 where
  open_start_tag : Bytes → CallbackEvent
  attribute_name : Bytes → CallbackEvent
  attribute_value : Bytes → CallbackEvent
  close_start_tag : Bool → CallbackEvent
  end_tag : Bytes → CallbackEvent
  string : Bytes → CallbackEvent
  comment : Bytes → CallbackEvent
  doctype : Bytes → Option Bytes → Option Bytes → Bool → CallbackEvent
  error : Error → CallbackEvent

pub data CurrentTag : Type 0 where
  start end : CurrentTag

-- `Callback<T>`: the state of the callback, its tokens, and `handle_event`.
pub record Callback : Type 1 where
  pub Self : Type 0
  pub Token : Type 0
  pub handle_event : CallbackEvent → Self → Option (Option Token × Self)

pub record EmitterState : Type 0 where
  pub naively_switch_states : Bool
  pub current_characters : Bytes
  pub current_comment : Bytes
  pub last_start_tag : Bytes
  pub current_tag_had_attributes : Bool
  pub current_tag_type : Option CurrentTag
  pub current_tag_self_closing : Bool
  pub current_tag_name : Bytes
  pub current_attribute_name : Bytes
  pub current_attribute_value : Bytes
  pub doctype_name : Bytes
  pub doctype_has_public_identifier : Bool
  pub doctype_has_system_identifier : Bool
  pub doctype_public_identifier : Bytes
  pub doctype_system_identifier : Bytes
  pub doctype_force_quirks : Bool

-- `EmitterState::default`.
abbrev pub default : EmitterState
default = record {
  naively_switch_states = false;
  current_characters = [];
  current_comment = [];
  last_start_tag = [];
  current_tag_had_attributes = false;
  current_tag_type = none;
  current_tag_self_closing = false;
  current_tag_name = [];
  current_attribute_name = [];
  current_attribute_value = [];
  doctype_name = [];
  doctype_has_public_identifier = false;
  doctype_has_system_identifier = false;
  doctype_public_identifier = [];
  doctype_system_identifier = [];
  doctype_force_quirks = false;
}

abbrev pub is_start : Option CurrentTag → Bool
is_start (some start) = true
is_start _ = false

abbrev pub is_end : Option CurrentTag → Bool
is_end (some end) = true
is_end _ = false

-- The identifier, if the doctype has one.
abbrev pub identifier : Bool → Bytes → Option Bytes
identifier has value = if has then some value else none

module _ ⦃F : Callback⦄ where
  -- `callback_state` and `emitter_state`; the naming of their fields is flat here.
  pub record CallbackEmitter : Type 0 where
    pub callback : F.Self
    pub emitted_tokens : List F.Token
    pub emitter_state : EmitterState

  -- A method: `none` where the callback has panicked.
  abbrev pub Method : Type 0
  Method = CallbackEmitter → Option CallbackEmitter

  infixr 5 ◌then_do◌
  abbrev pub ◌then_do◌ : Method → Method → Method
  ◌then_do◌ f g e = elim (f e) [ none ↦ none | some e' ↦ g e' ]

  -- Assignments to the fields of `emitter_state`.
  abbrev pub assign : (EmitterState → EmitterState) → Method
  assign f e = some (record e { emitter_state = f e.emitter_state })

  abbrev pub token_list : Option F.Token → List F.Token
  token_list none = []
  token_list (some token) = token ∷ []

  -- `CallbackState::emit_event`.
  unfoldable pub emit_event : CallbackEvent → Method
  emit_event event e = elim (F.handle_event event e.callback) [
    | none ↦ none
    | some (res, callback) ↦
        some (record e { callback = callback; emitted_tokens = e.emitted_tokens ++ token_list res })
  ]

  unfoldable pub flush_attribute_name : Method
  unfolding emit_event
  flush_attribute_name e =
      let s = e.emitter_state in
      let flushed =
        (emit_event (attribute_name s.current_attribute_name)
            then_do assign (λ s'. record s' { current_attribute_name = [] }))
          e in
      if is_empty s.current_attribute_name then some e else flushed

  flush_attribute_value : Method
  unfolding emit_event
  flush_attribute_value e =
      let s = e.emitter_state in
      let flushed =
        (emit_event (attribute_value s.current_attribute_value)
            then_do assign (λ s'. record s' { current_attribute_value = [] }))
          e in
      if is_empty s.current_attribute_value then some e else flushed

  unfoldable pub flush_attribute : Method
  unfolding flush_attribute_name flush_attribute_value
  flush_attribute = flush_attribute_name then_do flush_attribute_value

  unfoldable pub flush_open_start_tag : Method
  unfolding emit_event
  flush_open_start_tag e =
      let s = e.emitter_state in
      let flushed =
        (emit_event (open_start_tag s.current_tag_name)
            then_do assign
                (λ s'. record s' { last_start_tag = s'.current_tag_name; current_tag_name = [] }))
          e in
      if is_start s.current_tag_type && not (is_empty s.current_tag_name) then flushed else some e

  unfoldable pub flush_current_characters : Method
  unfolding emit_event
  flush_current_characters e =
      let s = e.emitter_state in
      let flushed =
        (emit_event (string s.current_characters)
            then_do assign (λ s'. record s' { current_characters = [] }))
          e in
      if is_empty s.current_characters then some e else flushed
