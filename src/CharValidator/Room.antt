-- ===== src/CharValidator/Room.antt =====
-- src/char_validator.rs: how many errors of the current character may wait in `character_error`.
-- An emitter's `should_emit_errors` gives one answer at all times, as its documentation asks.
use html5gum.Base.{
  ℕ, suc, ◌+◌, ◌≤◌, Bool, true, false, [], ◌∷◌, Option, none, some, ◌≡◌, ◌⊎◌, inl, inr, arith,
  Option-cases,
}
use html5gum.Base.Bytes.{Bytes}
use html5gum.Base.Lists.{length, length-append}
use html5gum.CharValidator.{
  CharValidator, flush_character_error, validate_last_4_bytes, validate_byte, validate_each,
  validate_bytes, set_character_error, reset, last_4_bytes_error, shift_in,
}
use html5gum.Emitter.{Emitter}
use html5gum.Errors.{Error}

-- No error waits, and no character of several bytes has begun.
abbrev pub IsClean : CharValidator → Type 0
IsClean v = (v.last_4_bytes ≡ 0) × (v.character_error.items ≡ [])

-- An ASCII character has just been read: nothing waits.
abbrev pub CleanAt : Option ℕ → CharValidator → Type 0
CleanAt none v = Unit
CleanAt (some x) v = (128 ≤ x) ⊎ IsClean v

-- There is room for `n` more errors of the current character; an emitter that wants no errors
-- leaves the validator as it was at the start.
pub record HasRoom (emits : Bool) (n : ℕ) (v : CharValidator) : Type 0 where
  pub cap_is : v.character_error.cap ≡ 3
  pub room : length v.character_error.items + n ≤ 3
  pub silent : (emits ≡ true) ⊎ IsClean v

module _ ⦃E : Emitter⦄ (emits : Bool) (steady : (e : E.Self) → E.should_emit_errors e ≡ emits) where
  flush_items :
      (v : CharValidator) (e : E.Self)
      → let w = (flush_character_error v e).0 in
        (w.last_4_bytes ≡ v.last_4_bytes)
        × (w.character_error.cap ≡ v.character_error.cap)
        × ((emits ≡ true) × (w.character_error.items ≡ []) ⊎ (emits ≡ false) × (w ≡ v))
  unfolding flush_character_error
  flush_items v e = ground (arith, steady e)

  validate_last_items :
      (last : ℕ) (v : CharValidator) (e : E.Self)
      → let w = (validate_last_4_bytes last v e).0 in
        (w.last_4_bytes ≡ v.last_4_bytes)
        × (w.character_error.cap ≡ v.character_error.cap)
        × ((w.character_error.items ≡ []) ⊎ (w ≡ v))
  unfolding validate_last_4_bytes
  validate_last_items last v e = elim (Option-cases (last_4_bytes_error last)) [
    | inl h ↦ rw (h, validate_last_4_bytes) (ground arith)
    | inr (error, h) ↦
        rw (h, validate_last_4_bytes) (ground (arith, flush_items v (E.emit_error error e)))
  ]

  pub validate_byte-HasRoom :
      (x n : ℕ) (v : CharValidator) (e : E.Self)
      → HasRoom emits n v
      → HasRoom emits n (validate_byte x v e).0 × CleanAt (some x) (validate_byte x v e).0
  unfolding validate_byte
  validate_byte-HasRoom x n v e r =
      let cleared = record v { last_4_bytes = 0 } in
      let ascii = flush_character_error cleared e in
      let shifted = shift_in v.last_4_bytes x in
      ground (
        arith,
        steady e,
        flush_items cleared e,
        validate_last_items x ascii.0 ascii.1,
        flush_items (record v { last_4_bytes = x }) e,
        validate_last_items shifted (record v { last_4_bytes = shifted }) e,
      )

  -- The error is taken, one place of the room is used, and a clean validator stays clean.
  abbrev pub Takes : ℕ → Option ℕ → Option (CharValidator × E.Self) → Type 0
  Takes n c none = ⊥
  Takes n c (some (w, _)) = HasRoom emits n w × CleanAt c w

  pub set_character_error-HasRoom :
      (error : Error) (n : ℕ) (c : Option ℕ) (v : CharValidator) (e : E.Self)
      → HasRoom emits (suc n) v
      → CleanAt c v
      → Takes n c (set_character_error error v e)
  unfolding set_character_error
  set_character_error-HasRoom error n none v e r k =
      ground (arith, steady e, length-append v.character_error.items (error ∷ []))
  set_character_error-HasRoom error n (some x) v e r k =
      ground (arith, steady e, length-append v.character_error.items (error ∷ []))

  pub validate_each-HasRoom :
      (xs : Bytes) (n : ℕ) (v : CharValidator) (e : E.Self)
      → HasRoom emits n v
      → HasRoom emits n (validate_each xs v e).0
  unfolding validate_each
  validate_each-HasRoom [] n v e r = r
  validate_each-HasRoom (x ∷ xs) n v e r =
      let next = validate_byte x v e in
      validate_each-HasRoom xs n next.0 next.1 (validate_byte-HasRoom x n v e r).0

  pub validate_bytes-HasRoom :
      (xs : Bytes) (n : ℕ) (v : CharValidator) (e : E.Self)
      → HasRoom emits n v
      → HasRoom emits n (validate_bytes xs v e).0
  unfolding validate_bytes
  validate_bytes-HasRoom xs n v e r = ground (arith, validate_each-HasRoom xs n v e)

  -- A single byte, as where a chunk is one character of the needle.
  pub validate_bytes-single :
      (x n : ℕ) (v : CharValidator) (e : E.Self)
      → HasRoom emits n v
      → CleanAt (some x) (validate_bytes (x ∷ []) v e).0
  unfolding validate_bytes validate_each
  validate_bytes-single x n v e r = ground (arith, steady e, validate_byte-HasRoom x n v e)

  pub validate_bytes-pair :
      (x y n : ℕ) (v : CharValidator) (e : E.Self)
      → HasRoom emits n v
      → CleanAt (some y) (validate_bytes (x ∷ y ∷ []) v e).0
  unfolding validate_bytes validate_each
  validate_bytes-pair x y n v e r =
      let next = validate_byte x v e in
      ground (
        arith,
        steady e,
        validate_byte-HasRoom x n v e r,
        validate_byte-HasRoom y n next.0 next.1 (validate_byte-HasRoom x n v e r).0,
      )

  pub flush-HasRoom :
      (n : ℕ) (c : Option ℕ) (v : CharValidator) (e : E.Self)
      → HasRoom emits n v
      → CleanAt c v
      → HasRoom emits n (flush_character_error v e).0 × CleanAt c (flush_character_error v e).0
  flush-HasRoom n none v e r k = ground (arith, flush_items v e)
  flush-HasRoom n (some x) v e r k = ground (arith, flush_items v e)

-- A reset keeps the room, and what is clean.
pub reset-HasRoom :
    (emits : Bool) (n : ℕ) (c : Option ℕ) (v : CharValidator)
    → HasRoom emits n v
    → CleanAt c v
    → HasRoom emits n (reset v) × CleanAt c (reset v)
reset-HasRoom emits n none v r k = ground arith
reset-HasRoom emits n (some x) v r k = ground arith
