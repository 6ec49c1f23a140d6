-- ===== src/ReadHelper/Newlines.antt =====
-- src/read_helper.rs: what `read_byte` gives, byte after byte, on the bytes of a `StringReader`.
use mathlib.Core.Path.{subst}
use html5gum.Base.{
  ℕ, zero, suc, ◌<◌, Bool, true, false, ◌&&◌, [], ◌∷◌, none, some, inl, inr, ◌≡◌, refl, ap, ◌∙◌,
  arith, ◌==◌, if◌then◌else◌, Bool-cases,
}
use html5gum.Base.Bytes.{Bytes}
use html5gum.Base.Lists.{length}
use html5gum.CharValidator.{CharValidator}
use html5gum.Emitter.{Emitter}
use html5gum.ReadHelper.{ReadHelper, read_byte, read_after_cr, normalize, new}
use html5gum.Reader.StringReader.{string_reader, Build}
use html5gum.Reader.StringReader

-- The input stream after preprocessing: a carriage return is a newline, and a newline right behind
-- one is dropped. The flag says whether a carriage return stands before the text.
abbrev pub normalized : Bool → Bytes → Bytes
normalized behind [] = []
normalized behind (x ∷ xs) =
    let plain = normalized false xs in
    let newline = b'\n' ∷ normalized true xs in
    if x == b'\r' then newline else if behind && x == b'\n' then plain else x ∷ plain

module _ ⦃E : Emitter⦄ (build : Build) where
  -- The bytes that calls of `read_byte` give, up to the end.
  unfoldable pub all_bytes :
      ℕ → ReadHelper ⦃R = string_reader build⦄ → CharValidator → E.Self → Bytes
  unfolding read_byte
  all_bytes zero h v e = []
  all_bytes (suc fuel) h v e =
      let (c, h', v', e') = read_byte ⦃R = string_reader build⦄ h v e in
      let rest = all_bytes fuel h' v' e' in
      elim c [ inl _ ↦ [] | inr o ↦ elim o [ none ↦ [] | some x ↦ x ∷ rest ] ]

  abbrev at : Bool → Bytes → ReadHelper ⦃R = string_reader build⦄
  at cr input = record { reader = input; last_character_was_cr = cr; to_reconsume = none }

  -- What is to be shown of `fuel` calls.
  abbrev Reads : ℕ → Type 0
  Reads fuel =
      (cr : Bool) (input : Bytes) (v : CharValidator) (e : E.Self)
      → length input < fuel
      → all_bytes fuel (at cr input) v e ≡ normalized cr input

  step :
      (fuel : ℕ) (input : Bytes) (v : CharValidator) (e : E.Self)
      → Reads fuel
      → length input < suc fuel
      → all_bytes (suc fuel) (at false input) v e ≡ normalized false input
  unfolding all_bytes read_byte read_after_cr normalize StringReader.read_byte
  step fuel [] v e ih h = refl
  step fuel (x ∷ xs) v e ih h = elim (Bool-cases (x == b'\r')) [
    | inl c ↦ rw c (ap (◌∷◌ b'\n') (ih true xs _ _ (omega (arith, h))))
    | inr c ↦ rw c (ap (◌∷◌ x) (ih false xs _ _ (omega (arith, h))))
  ]

  drop_newline :
      (fuel : ℕ) (xs : Bytes) (v : CharValidator) (e : E.Self)
      → all_bytes (suc fuel) (at true (b'\n' ∷ xs)) v e ≡ all_bytes (suc fuel) (at false xs) v e
  unfolding all_bytes read_byte read_after_cr normalize StringReader.read_byte
  drop_newline fuel [] v e = refl
  drop_newline fuel (y ∷ ys) v e = refl

  other_after_cr :
      (x : ℕ) (xs : Bytes)
      → (x == b'\n') ≡ false
      → read_after_cr ⦃R = string_reader build⦄ (at true (x ∷ xs))
        ≡ read_after_cr ⦃R = string_reader build⦄ (at false (x ∷ xs))
  unfolding read_after_cr StringReader.read_byte
  other_after_cr x xs c = rw (c, read_after_cr) refl

  keep_other :
      (fuel x : ℕ) (xs : Bytes) (v : CharValidator) (e : E.Self)
      → (x == b'\n') ≡ false
      → all_bytes (suc fuel) (at true (x ∷ xs)) v e ≡ all_bytes (suc fuel) (at false (x ∷ xs)) v e
  unfolding all_bytes read_byte read_after_cr normalize StringReader.read_byte
  keep_other fuel x xs v e c =
      ap
        (λ r.
          let (o, h', v', e') = normalize ⦃R = string_reader build⦄ r.0 r.1 v e in
          let rest = all_bytes fuel h' v' e' in
          elim o [ inl _ ↦ [] | inr b ↦ elim b [ none ↦ [] | some y ↦ y ∷ rest ] ])
        (other_after_cr x xs c)

  step_behind :
      (fuel : ℕ) (input : Bytes) (v : CharValidator) (e : E.Self)
      → Reads fuel
      → length input < suc fuel
      → all_bytes (suc fuel) (at true input) v e ≡ normalized true input
  unfolding all_bytes read_byte read_after_cr normalize StringReader.read_byte
  step_behind fuel [] v e ih h = refl
  step_behind fuel (x ∷ xs) v e ih h = elim (Bool-cases (x == b'\n')) [
    | inl c ↦
        subst (λ y. all_bytes (suc fuel) (at true (y ∷ xs)) v e ≡ normalized true (y ∷ xs))
          (newline x c) (drop_newline fuel xs v e ∙ step fuel xs v e ih (omega (arith, h)))
    | inr c ↦ keep_other fuel x xs v e c ∙ step fuel (x ∷ xs) v e ih h ∙ rw c refl
  ]
    where
      newline : (x : ℕ) → (x == b'\n') ≡ true → b'\n' ≡ x
      newline x c = ground arith

  reads : (fuel : ℕ) → Reads fuel
  reads zero cr input v e h = absurd (omega (arith, h))
  reads (suc fuel) true input v e h = step_behind fuel input v e (reads fuel) h
  reads (suc fuel) false input v e h = step fuel input v e (reads fuel) h

  -- From a new `ReadHelper` on a `StringReader`, calls of `read_byte` give the whole input, with a
  -- newline for each carriage return and no second newline for a newline right behind one: one call
  -- more than the input has bytes is enough.
  pub all_bytes-normalized :
      (input : Bytes) (v : CharValidator) (e : E.Self)
      → all_bytes (suc (length input)) (new ⦃R = string_reader build⦄ input) v e
        ≡ normalized false input
  unfolding new
  all_bytes-normalized input v e = reads (suc (length input)) false input v e (omega arith)
