-- ===== src/Utils/Lowercase.antt =====
-- src/utils.rs: `with_lowercase_str` against lowercasing the whole text.
use html5gum.Base.{false, [], ◌∷◌, ◌++◌, map, ◌≡◌, refl, sym, ap, ◌∙◌, inl, inr, arith, Bool-cases}
use html5gum.Base.Bytes.{Bytes, to_ascii_lowercase}
use html5gum.Utils.{with_lowercase_str, any_uppercase, each_byte}

module _ {ℓ} {S : Type ℓ} (f : Bytes → S → S)
    (append : (xs ys : Bytes) (s : S) → f ys (f xs s) ≡ f (xs ++ ys) s)
    (nothing : (s : S) → f [] s ≡ s) where
  each_byte-map : (xs : Bytes) (s : S) → each_byte f xs s ≡ f (map to_ascii_lowercase xs) s
  unfolding each_byte
  each_byte-map [] s = sym (nothing s)
  each_byte-map (x ∷ xs) s =
      each_byte-map xs (f (to_ascii_lowercase x ∷ []) s)
      ∙ append (to_ascii_lowercase x ∷ []) (map to_ascii_lowercase xs) s

  map-no_uppercase : (xs : Bytes) → any_uppercase xs ≡ false → map to_ascii_lowercase xs ≡ xs
  unfolding any_uppercase to_ascii_lowercase
  map-no_uppercase [] h = refl
  map-no_uppercase (x ∷ xs) h = ground (arith, map-no_uppercase xs)

  -- For a receiver to which two calls in a row are one call with the bytes of both, and an empty
  -- call is none, `with_lowercase_str` is one call with all bytes in lower case.
  pub with_lowercase_str-map :
      (xs : Bytes) (s : S) → with_lowercase_str xs f s ≡ f (map to_ascii_lowercase xs) s
  unfolding with_lowercase_str
  with_lowercase_str-map xs s = elim (Bool-cases (any_uppercase xs)) [
    | inl e ↦ rw e (each_byte-map xs s)
    | inr e ↦ rw e (ap (λ ys. f ys s) (sym (map-no_uppercase xs e)))
  ]
