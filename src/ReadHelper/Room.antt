-- ===== src/ReadHelper/Room.antt =====
-- src/read_helper.rs: what reading leaves in the validator, for any reader.
use html5gum.Base.{
  ltb, ◌≤◌, arith, not, ◌&&◌, ℕ, Bool, true, false, [], ◌∷◌, Option, none, some, ◌≡◌, refl, ◌⊎◌,
  inl, inr, ◌==◌, ◌++◌, if◌then◌else◌, Bool-cases, Option-cases,
}
use html5gum.Base.Bytes.{Bytes, bytes_eq, is_empty, contains}
use html5gum.CharValidator.{CharValidator, validate_bytes, reset}
use html5gum.CharValidator.Room.{
  CleanAt, HasRoom, validate_byte-HasRoom, validate_bytes-HasRoom, validate_bytes-single,
  validate_bytes-pair,
}
use html5gum.Emitter.{Emitter}
use html5gum.ReadHelper.{
  ReadHelper, read_byte, read_after_cr, normalize, read_until, normalize_chunk, drop_newline,
  try_read_string, try_text, match_reconsumed, try_rest, ask_reader,
}
use html5gum.Outcome.{Outcome, ok, err, panic, out_of_fuel, needle_too_long, NoPanic, from_result}
use html5gum.Base.Lists.{length, length-append}
use html5gum.Reader.Trait.{Reader}

-- If the chunk is a single ASCII character, nothing waits.
abbrev pub ChunkClean : Option Bytes → CharValidator → Type 0
ChunkClean (some (x ∷ [])) v = CleanAt (some x) v
ChunkClean _ v = Unit

-- The byte to be read again, if there is one.
abbrev pub ReconsumeClean : Option (Option ℕ) → CharValidator → Type 0
ReconsumeClean none v = Unit
ReconsumeClean (some c) v = CleanAt c v

length-with_cr :
    (needle : Bytes) → ltb (length needle) 13 ≡ true → length (needle ++ b'\r' ∷ []) ≤ 13
length-with_cr needle h = ground (arith, length-append needle (b'\r' ∷ []))

-- The assertions on the text of `try_read_string`.
abbrev pub askable : Bytes → Bool
askable s = not (is_empty s) && not (contains s b'\r')

module _ ⦃R : Reader⦄ where
  -- The reader does not panic on a needle of at most 13 bytes.
  abbrev pub Accepts : Type 0
  Accepts = (needle : Bytes) (r : R.Self) → length needle ≤ 13 → NoPanic (R.read_until needle r).0

module _ ⦃R : Reader⦄ ⦃E : Emitter⦄ (emits : Bool)
    (steady : (e : E.Self) → E.should_emit_errors e ≡ emits) where
  -- What holds behind a read: the room is still there, and nothing is held back.
  abbrev pub AfterRead {ℓ} :
      {A : Type ℓ}
      → (A → CharValidator → Type 0)
      → ℕ
      → (R.Error ⊎ A) × ReadHelper × CharValidator × E.Self
      → Type 0
  AfterRead P n (inl x, h, v, e) = HasRoom emits n v × (h.to_reconsume ≡ none)
  AfterRead P n (inr a, h, v, e) = HasRoom emits n v × (h.to_reconsume ≡ none) × P a v

  normalize-AfterRead :
      (c : R.Error ⊎ Option ℕ) (r : R.Self) (n : ℕ) (v : CharValidator) (e : E.Self)
      → HasRoom emits n v
      → AfterRead CleanAt n (normalize c r v e)
  unfolding normalize
  normalize-AfterRead (inl x) r n v e h = (h, refl)
  normalize-AfterRead (inr none) r n v e h = (h, refl, tt)
  normalize-AfterRead (inr (some x)) r n v e h =
      let room = validate_byte-HasRoom emits steady (if x == b'\r' then b'\n' else x) n v e h in
      (room.0, refl, room.1)

  pub read_byte-AfterRead :
      (h : ReadHelper) (n : ℕ) (v : CharValidator) (e : E.Self)
      → HasRoom emits n v
      → ReconsumeClean h.to_reconsume v
      → AfterRead CleanAt n (read_byte h v e)
  unfolding read_byte
  read_byte-AfterRead h n v e room clean = go h.to_reconsume clean
    where
      go :
          (o : Option (Option ℕ))
          → ReconsumeClean o v
          → AfterRead CleanAt n (elim o [
            | some c ↦ (inr c, record h { to_reconsume = none }, v, e)
            | none ↦ let (c, r) = read_after_cr h in normalize c r v e
          ])
      go (some c) k = (room, refl, k)
      go none k = normalize-AfterRead (read_after_cr h).0 (read_after_cr h).1 n v e room

  -- The same for a call that may panic: it does not.
  abbrev pub AfterCall {ℓ} :
      {A : Type ℓ}
      → (A → CharValidator → Type 0)
      → ℕ
      → Outcome R.Error A × ReadHelper × CharValidator × E.Self
      → Type 0
  AfterCall P n (err x, h, v, e) = HasRoom emits n v × (h.to_reconsume ≡ none)
  AfterCall P n (ok a, h, v, e) = HasRoom emits n v × (h.to_reconsume ≡ none) × P a v
  AfterCall P n (panic _, h, v, e) = ⊥
  AfterCall P n (out_of_fuel, h, v, e) = Unit

  normalize_chunk-AfterCall :
      (cr : Bool) (c : Outcome R.Error (Option Bytes)) (r : R.Self) (n : ℕ) (v : CharValidator)
      (e : E.Self)
      → NoPanic c
      → HasRoom emits n v
      → AfterCall ChunkClean n (normalize_chunk cr c r v e)
  unfolding normalize_chunk
  normalize_chunk-AfterCall cr (err x) r n v e fine h = (h, refl)
  normalize_chunk-AfterCall cr (panic p) r n v e fine h = fine
  normalize_chunk-AfterCall cr out_of_fuel r n v e fine h = tt
  normalize_chunk-AfterCall cr (ok none) r n v e fine h = (h, refl, tt)
  normalize_chunk-AfterCall cr (ok (some xs)) r n v e fine h =
      elim (Bool-cases (bytes_eq xs (b'\r' ∷ []))) [
        | inl q ↦
            let room = validate_byte-HasRoom emits steady b'\n' n v e h in
            rw (q, normalize_chunk) (room.0, refl, room.1)
        | inr q ↦
            rw (q, normalize_chunk)
              (validate_bytes-HasRoom emits steady xs n v e h, refl, dropped cr xs)
      ]
    where
      dropped :
          (was_cr : Bool) (ys : Bytes)
          → ChunkClean (some (drop_newline was_cr ys)) (validate_bytes ys v e).0
      dropped false [] = tt
      dropped true [] = tt
      dropped false (y ∷ []) = validate_bytes-single emits steady y n v e h
      dropped true (y ∷ []) = elim (Bool-cases (y == b'\n')) [
        | inl q ↦ rw q tt
        | inr q ↦ rw q (validate_bytes-single emits steady y n v e h)
      ]
      dropped false (y ∷ z ∷ ys) = tt
      dropped true (y ∷ z ∷ []) = elim (Bool-cases (y == b'\n')) [
        | inl q ↦ rw q (validate_bytes-pair emits steady y z n v e h)
        | inr q ↦ rw q tt
      ]
      dropped true (y ∷ z ∷ w ∷ ys) = elim (Bool-cases (y == b'\n')) [
        | inl q ↦ rw q tt
        | inr q ↦ rw q tt
      ]

  pub read_until-AfterCall :
      (needle : Bytes) (h : ReadHelper) (n : ℕ) (v : CharValidator) (e : E.Self)
      → Accepts
      → ltb (length needle) 13 ≡ true
      → HasRoom emits n v
      → ReconsumeClean h.to_reconsume v
      → AfterCall ChunkClean n (read_until needle h v e)
  unfolding read_until
  read_until-AfterCall needle h n v e accepts short room clean = go h.to_reconsume clean
    where
      go :
          (o : Option (Option ℕ))
          → ReconsumeClean o v
          → AfterCall ChunkClean n (elim o [
            | some (some x) ↦ (ok (some (x ∷ [])), record h { to_reconsume = none }, v, e)
            | some none ↦ (ok none, record h { to_reconsume = none }, v, e)
            | none ↦
                let (c, r) = R.read_until (needle ++ b'\r' ∷ []) h.reader in
                let answer = normalize_chunk h.last_character_was_cr c r v e in
                if ltb (length needle) 13 then answer else (panic needle_too_long, h, v, e)
          ])
      go (some (some x)) k = (room, refl, k)
      go (some none) k = (room, refl, tt)
      go none k =
          let asked = R.read_until (needle ++ b'\r' ∷ []) h.reader in
          rw short (
            normalize_chunk-AfterCall h.last_character_was_cr asked.0 asked.1 n v e
              (accepts (needle ++ b'\r' ∷ []) h.reader (length-with_cr needle short)) room)

module _ ⦃R : Reader⦄ where
  -- What `try_read_string` leaves: the validator as it was or reset, and the byte to be read again
  -- as it was or taken.
  abbrev pub AfterTry :
      Option (Option ℕ) → CharValidator → (R.Error ⊎ Bool) × ReadHelper × CharValidator → Type 0
  AfterTry bak v (found, h', v') =
      ((v' ≡ v) ⊎ (v' ≡ reset v)) × ((h'.to_reconsume ≡ none) ⊎ (h'.to_reconsume ≡ bak))

  try_rest-AfterTry :
      (s : Bytes) (cs : Bool) (bak : Option (Option ℕ)) (h : ReadHelper) (v : CharValidator)
      → AfterTry bak v (try_rest s cs bak h v)
  unfolding try_rest ask_reader
  try_rest-AfterTry [] cs bak h v = (inr refl, inl refl)
  try_rest-AfterTry (x ∷ s) cs bak h v = go (R.try_read_string (x ∷ s) cs h.reader).0
    where
      go :
          (found : R.Error ⊎ Bool)
          → let r = (R.try_read_string (x ∷ s) cs h.reader).1 in
            AfterTry bak v (elim found [
              | inl e ↦ (inl e, record h { reader = r; to_reconsume = none }, v)
              | inr true ↦ (
                inr true,
                record { reader = r; last_character_was_cr = false; to_reconsume = none },
                reset v,
              )
              | inr false ↦ (inr false, record h { reader = r; to_reconsume = bak }, v)
            ])
      go (inl e) = (inl refl, inl refl)
      go (inr true) = (inr refl, inl refl)
      go (inr false) = (inl refl, inr refl)

  pub try_text-AfterTry :
      (s : Bytes) (cs : Bool) (h : ReadHelper) (v : CharValidator)
      → AfterTry h.to_reconsume v (try_text s cs h v)
  unfolding try_text
  try_text-AfterTry s cs h v = elim (Option-cases h.to_reconsume) [
    | inl q ↦ rw (q, try_text) (try_rest-AfterTry s cs none h v)
    | inr (c, q) ↦ elim (Option-cases (match_reconsumed cs c s)) [
      | inl m ↦ rw (q, m, try_text) (inl refl, inr q)
      | inr (rest, m) ↦ rw (q, m, try_text) (try_rest-AfterTry rest cs (some c) h v)
    ]
  ]

  -- Behind the two assertions nothing else can panic.
  pub try_read_string-askable :
      (s : Bytes) (cs : Bool) (h : ReadHelper) (v : CharValidator)
      → askable s ≡ true
      → let (found, h', v') = try_text s cs h v in
        try_read_string s cs h v ≡ (from_result found, h', v')
  unfolding try_read_string
  try_read_string-askable [] cs h v p = cc
  try_read_string-askable (x ∷ s) cs h v p = rw (no_return (x ∷ s) p) refl
    where
      no_return : (ys : Bytes) → askable ys ≡ true → contains ys b'\r' ≡ false
      no_return ys q = ground arith
