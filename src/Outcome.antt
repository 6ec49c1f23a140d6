-- ===== src/Outcome.antt =====
-- What a call of the program ends in: a value, an error of the reader (`Err(e)`), a panic, or, in
-- the model only, a loop that has used up its fuel.
use html5gum.Base.{◌⊎◌, inl, inr}

-- The places at which the modelled code can panic.
pub data Panic : Type 0 where
  -- `self.content[self.len] = item` past the capacity of an `ArrayVec`
  array_full : Panic
  -- `self.return_state.take().unwrap()`
  no_return_state : Panic
  -- `debug_assert!(self.return_state.is_none())`
  nested_return_state : Panic
  -- `std::char::from_u32(..).unwrap()`
  not_a_scalar : Panic
  -- `debug_assert!(needle.len() < needle2.len())`, or the copy and the index behind it; the same in
  -- the version of `fast_find` with jetscii
  needle_too_long : Panic
  -- `debug_assert!(!s.is_empty())` and `debug_assert!(!s.contains('\r'))`
  empty_text text_with_carriage_return : Panic
  -- `xs.unwrap()` and `xs.unwrap()[0]`
  no_chunk empty_chunk : Panic
  -- `x as u32 - sub` below zero
  subtraction_underflow : Panic
  -- `inline_next_state` on a token that switches to no state
  invalid_inline : Panic

pub data Outcome {ℓ} (X : Type 0) (A : Type ℓ) : Type ℓ where
  ok : A → Outcome X A
  err : X → Outcome X A
  panic : Panic → Outcome X A
  out_of_fuel : Outcome X A

abbrev pub from_result {ℓ} : {X : Type 0} {A : Type ℓ} → X ⊎ A → Outcome X A
from_result (inl x) = err x
from_result (inr a) = ok a

-- The call does not panic.
abbrev pub NoPanic {ℓ} : {X : Type 0} {A : Type ℓ} → Outcome X A → Type 0
NoPanic (panic _) = ⊥
NoPanic _ = Unit
