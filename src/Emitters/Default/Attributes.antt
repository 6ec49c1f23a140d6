-- ===== src/Emitters/Default/Attributes.antt =====
-- src/emitters/default.rs: the attribute map under the events of one attribute.
use html5gum.Base.{
  List, ◌++◌, [], ◌∷◌, ℕ, Option, none, some, ◌≡◌, ◌≢◌, refl, ◌⊎◌, inl, inr, arith, if◌then◌else◌,
  Option-cases,
}
use html5gum.Base.Bytes.{Bytes, bytes_eq, bytes_eq_iff}
use html5gum.Emitters.Callback.{CallbackEvent}
use html5gum.Emitters.Default.{
  AttributeMap, Token, OurCallback, get, insert_vacant, extend_value, handle_event,
}
use html5gum.Errors.{duplicate_attribute}

get-insert_vacant :
    (j k w : Bytes) (m : AttributeMap)
    → get k m ≡ none
    → get j (insert_vacant k w m) ≡ (if bytes_eq j k then some w else get j m)
unfolding get insert_vacant
get-insert_vacant j k w [] h = refl
get-insert_vacant j k w ((i, u) ∷ m) h =
    ground (arith, get-insert_vacant j k w m, bytes_eq_iff j k, bytes_eq_iff j i, bytes_eq_iff k i)

extend_value-insert_vacant :
    (k v : Bytes) (m : AttributeMap)
    → get k m ≡ none
    → extend_value k v (insert_vacant k [] m) ≡ some (insert_vacant k v m)
unfolding get insert_vacant extend_value
extend_value-insert_vacant k v [] h = ground (arith, bytes_eq_iff k k)
extend_value-insert_vacant k v ((i, u) ∷ m) h =
    ground (arith, extend_value-insert_vacant k v m, bytes_eq_iff k k, bytes_eq_iff k i)

abbrev pub tokens_of : Option Token → List Token
tokens_of none = []
tokens_of (some token) = token ∷ []

-- The two events of an attribute with a value, with the tokens of both.
abbrev pub attribute : Bytes → Bytes → OurCallback → Option (List Token × OurCallback)
attribute name value c = elim (handle_event (CallbackEvent.attribute_name name) c) [
  | none ↦ none
  | some (token, c1) ↦ elim (handle_event (CallbackEvent.attribute_value value) c1) [
    | none ↦ none
    | some (token2, c2) ↦ some (tokens_of token ++ tokens_of token2, c2)
  ]
]

attribute-duplicate :
    (name value w : Bytes) (c : OurCallback)
    → get name c.attribute_map ≡ some w
    → attribute name value c
      ≡ some (Token.error duplicate_attribute ∷ [], record c { attribute_name = [] })
unfolding handle_event
attribute-duplicate name value w c e = rw (e, attribute, handle_event) refl

attribute-fresh :
    (x : ℕ) (xs value : Bytes) (c : OurCallback)
    → get (x ∷ xs) c.attribute_map ≡ none
    → attribute (x ∷ xs) value c
      ≡ some (
        [],
        record c {
          attribute_name = x ∷ xs;
          attribute_map = insert_vacant (x ∷ xs) value c.attribute_map;
        },
      )
unfolding handle_event
attribute-fresh x xs value c e =
    rw (e, attribute, handle_event)
      (rw (extend_value-insert_vacant (x ∷ xs) value c.attribute_map e) refl)

-- For a name that is not empty, the two events of an attribute with a value are handled without a
-- panic. If the tag has an attribute of that name, they give one token, the error
-- `duplicate-attribute`, and leave the map alone: the first one wins. If not, neither event gives a
-- token, and the map holds the value under the name and, under any
-- other name, what it held before.
pub attribute-first_wins :
    (name value : Bytes) (c : OurCallback)
    → name ≢ []
    → ((w : Bytes) × (get name c.attribute_map ≡ some w)
        × (attribute name value c
            ≡ some (Token.error duplicate_attribute ∷ [], record c { attribute_name = [] })))
      ⊎ ((m : AttributeMap) × (get name c.attribute_map ≡ none)
          × (attribute name value c
              ≡ some ([], record c { attribute_name = name; attribute_map = m }))
          × ((j : Bytes)
              → get j m ≡ (if bytes_eq j name then some value else get j c.attribute_map)))
attribute-first_wins [] value c h = absurd (h refl)
attribute-first_wins (x ∷ xs) value c h = elim (Option-cases (get (x ∷ xs) c.attribute_map)) [
  | inl e ↦ inr (
    insert_vacant (x ∷ xs) value c.attribute_map,
    e,
    attribute-fresh x xs value c e,
    λ j. get-insert_vacant j (x ∷ xs) value c.attribute_map e,
  )
  | inr (w, e) ↦ inl (w, e, attribute-duplicate (x ∷ xs) value w c e)
]
