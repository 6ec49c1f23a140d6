-- ===== src/Emitters/Default.antt =====
-- src/emitters/default.rs: the tokens, `OurCallback`, which makes a token of the events of each tag,
-- and `DefaultEmitter`, a `CallbackEmitter` over it. A `BTreeMap` is the list of its entries in
-- ascending order of the keys.
pub mod Attributes
use html5gum.Base.{
  Bool, true, false, ◌&&◌, ◌||◌, List, [], ◌∷◌, ◌++◌, Option, none, some, ltb, ◌==◌, if◌then◌else◌,
}
use html5gum.Base.Bytes.{Bytes, bytes_eq, is_empty}
use html5gum.Emitter.{Emitter}
use html5gum.Emitters.Callback.{CallbackEvent, Callback, CallbackEmitter, default}
use html5gum.Emitters.Callback.Instance.{callback_emitter}
use html5gum.Errors.{Error, duplicate_attribute}

abbrev pub AttributeMap : Type 0
AttributeMap = List (Bytes × Bytes)

pub record StartTag : Type 0 where
  pub self_closing : Bool
  pub name : Bytes
  pub attributes : AttributeMap

pub record Doctype : Type 0 where
  pub force_quirks : Bool
  pub name : Bytes
  pub public_identifier : Option Bytes
  pub system_identifier : Option Bytes

pub data Token : Type 0 where
  start_tag : StartTag → Token
  -- an `EndTag` has only a name
  end_tag : Bytes → Token
  string : Bytes → Token
  comment : Bytes → Token
  doctype : Doctype → Token
  error : Error → Token

pub record OurCallback : Type 0 where
  pub tag_name : Bytes
  pub attribute_name : Bytes
  pub attribute_map : AttributeMap

abbrev pub new_callback : OurCallback
new_callback = record { tag_name = []; attribute_name = []; attribute_map = [] }

-- The order of byte strings.
unfoldable pub bytes_lt : Bytes → Bytes → Bool
bytes_lt [] [] = false
bytes_lt [] (y ∷ ys) = true
bytes_lt (x ∷ xs) [] = false
bytes_lt (x ∷ xs) (y ∷ ys) = ltb x y || x == y && bytes_lt xs ys

unfoldable pub get : Bytes → AttributeMap → Option Bytes
unfolding bytes_eq
get k [] = none
get k ((j, v) ∷ m) = if bytes_eq k j then some v else get k m

-- `vacant.insert(v)`: the key is not in the map.
unfoldable pub insert_vacant : Bytes → Bytes → AttributeMap → AttributeMap
unfolding bytes_lt
insert_vacant k v [] = (k, v) ∷ []
insert_vacant k v ((j, w) ∷ m) =
    if bytes_lt k j then (k, v) ∷ (j, w) ∷ m else (j, w) ∷ insert_vacant k v m

-- `get_mut(k).unwrap().extend(value)`; `none` is the panic on a missing key.
unfoldable pub extend_value : Bytes → Bytes → AttributeMap → Option AttributeMap
unfolding bytes_eq
extend_value k value [] = none
extend_value k value ((j, w) ∷ m) =
    let rest = extend_value k value m in
    if bytes_eq k j
    then some ((j, w ++ value) ∷ m)
    else elim rest [ none ↦ none | some m' ↦ some ((j, w) ∷ m') ]

-- `OurCallback::handle_event`.
unfoldable pub handle_event : CallbackEvent → OurCallback → Option (Option Token × OurCallback)
unfolding get insert_vacant extend_value
handle_event (CallbackEvent.open_start_tag name) c = some (none, record c { tag_name = name })
handle_event (CallbackEvent.attribute_name name) c = elim (get name c.attribute_map) [
  | some _ ↦ some (some (Token.error duplicate_attribute), record c { attribute_name = [] })
  | none ↦ some (
    none,
    record c { attribute_name = name; attribute_map = insert_vacant name [] c.attribute_map },
  )
]
handle_event (CallbackEvent.attribute_value value) c =
    if is_empty c.attribute_name
    then some (none, c)
    else elim (extend_value c.attribute_name value c.attribute_map) [
      | none ↦ none
      | some m ↦ some (none, record c { attribute_map = m })
    ]
handle_event (CallbackEvent.close_start_tag self_closing) c = some (
  some (
      Token.start_tag
        (record { self_closing = self_closing; name = c.tag_name; attributes = c.attribute_map })),
  record c { tag_name = []; attribute_map = [] },
)
handle_event (CallbackEvent.end_tag name) c =
    some (some (Token.end_tag name), record c { attribute_map = [] })
handle_event (CallbackEvent.string value) c = some (some (Token.string value), c)
handle_event (CallbackEvent.comment value) c = some (some (Token.comment value), c)
handle_event (CallbackEvent.doctype name public system quirks) c = some (
  some (
      Token.doctype (record {
        force_quirks = quirks;
        name = name;
        public_identifier = public;
        system_identifier = system;
      })),
  c,
)
handle_event (CallbackEvent.error e) c = some (some (Token.error e), c)

instance abbrev pub our_callback : Callback
our_callback = record { Self = OurCallback; Token = Token; handle_event = handle_event }

-- `DefaultEmitter`: its methods are those of `inner`.
abbrev pub default_emitter : Emitter
default_emitter = callback_emitter

-- `DefaultEmitter::default`.
abbrev pub new_emitter : Option CallbackEmitter
new_emitter =
    some (record { callback = new_callback; emitted_tokens = []; emitter_state = default })
