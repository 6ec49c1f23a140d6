-- ===== src/ArrayVec.antt =====
-- src/arrayvec.rs: a vector of bounded length in an array. Only the first `len` items of the array
-- are ever read, so the model keeps those; a `push` past the capacity indexes out of bounds.
use html5gum.Base.{ℕ, List, [], ◌∷◌, ◌++◌, Option, none, some, ltb, if◌then◌else◌}
use html5gum.Base.Lists.{length}

pub record ArrayVec {ℓ} (A : Type ℓ) : Type ℓ where
  pub cap : ℕ
  pub items : List A

module _ {ℓ} {A : Type ℓ} where
  unfoldable pub new : ℕ → ArrayVec A
  new cap = record { cap = cap; items = [] }

  -- `none` is the panic of an index out of bounds.
  unfoldable pub push : A → ArrayVec A → Option (ArrayVec A)
  push item v =
      if ltb (length v.items) v.cap then some (record v { items = v.items ++ item ∷ [] }) else none

  -- The items returned, and the vector left.
  unfoldable pub drain : ArrayVec A → List A × ArrayVec A
  drain v = (v.items, record v { items = [] })
