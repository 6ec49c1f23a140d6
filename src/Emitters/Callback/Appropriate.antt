-- ===== src/Emitters/Callback/Appropriate.antt =====
-- src/emitters/callback.rs: which end tags are appropriate, in the words of the standard.
use html5gum.Base.{
  true, false, [], ◌∷◌, Option, none, some, ◌≡◌, ◌≢◌, ◌↔◌, refl, not, if◌then◌else◌,
}
use html5gum.Base.Bytes.{Bytes, bytes_eq, bytes_eq_iff, is_empty}
use html5gum.Emitters.Callback.{EmitterState, CurrentTag, is_end}
use html5gum.Emitters.Callback.Methods.{current_is_appropriate_end_tag_token}

test_iff :
    (last : Bytes) (tag : Option CurrentTag) (name : Bytes)
    → ((if is_empty last then false else if not (is_end tag) then false else bytes_eq last name)
        ≡ true)
      ↔ ((last ≢ []) × (tag ≡ some CurrentTag.end) × (last ≡ name))
test_iff [] tag name = (λ h. cc, λ h. absurd (h.0 refl))
test_iff (x ∷ xs) none name = (λ h. cc, λ h. cc)
test_iff (x ∷ xs) (some CurrentTag.start) name = (λ h. cc, λ h. cc)
test_iff (x ∷ xs) (some CurrentTag.end) name = (
  λ h. (λ e. cc, refl, (bytes_eq_iff (x ∷ xs) name).0 h),
  λ h. (bytes_eq_iff (x ∷ xs) name).1 h.2,
)

-- The current tag is an appropriate end tag token exactly if the name of the last start tag is not
-- empty, the current tag is an end tag, and its name is that name.
pub appropriate_iff :
    (s : EmitterState)
    → (current_is_appropriate_end_tag_token s ≡ true) ↔ (
        (s.last_start_tag ≢ [])
        × (s.current_tag_type ≡ some CurrentTag.end)
        × (s.last_start_tag ≡ s.current_tag_name))
unfolding current_is_appropriate_end_tag_token
appropriate_iff s = test_iff s.last_start_tag s.current_tag_type s.current_tag_name
