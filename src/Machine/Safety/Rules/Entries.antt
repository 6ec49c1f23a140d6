-- ===== src/Machine/Safety/Rules/Entries.antt =====
-- Rules for the parts of NamedCharacterReference and of NumericCharacterReferenceEnd.
use html5gum.Base.Bytes.{codes, contains}
use html5gum.ReadHelper.Room.{askable}
use html5gum.Entities.{
  CharRef, try_entries, try_read_character_reference, table_of, branches, as_bytes,
}
use html5gum.Entities.Shape.{Entry}
use html5gum.Machine.CharRefs.{read_reference, replace_buffer, keep_buffer, from_u32_unwrap, report}
use html5gum.Machine.Reference.{ends_with_semicolon, end_code}
use html5gum.Machine.Reference.Scalars.{end_code-is_scalar}
use html5gum.Base.{
  ◌&&◌, true, false, ◌==◌, Bool-cases, inl, inr, ◌≡◌, refl, ℕ, suc, Bool, List, [], ◌∷◌, Option,
  none, some, leb, arith, if◌then◌else◌,
}
use html5gum.Emitter.{Emitter}
use html5gum.Errors.{Error, missing_semicolon_after_character_reference}
use html5gum.Machine.Ops.{Flow, again, stop, first}
use html5gum.Machine.Ops
use html5gum.Machine.Safety.Ready.{Trusted, budget, IsRunning, Ensures, Fits}
use html5gum.Machine.Safety.Rules.Steps.{
  bind-Ensures, HasRoom-le, error-Ensures, try_read_string-Ensures,
}
use html5gum.Machine.Safety.Rules.Neutral.{
  Fits-bind, Fits-then, IsNeutral, IsNeutral-then, pure-IsNeutral, clear_buffer-IsNeutral,
  push_buffer-IsNeutral,
}
use html5gum.MachineHelper.{MachineState, ControlToken}
use html5gum.Outcome.{ok}
use html5gum.Reader.Trait.{Reader}
use html5gum.Tokenizer.{Tokenizer, M, ◌>>=◌, ◌>>◌, pure, try_read_string, error}

-- No name in the tables trips the assertions of `try_read_string`.
abbrev all_askable : List Entry → Bool
all_askable [] = true
all_askable ((name, _) ∷ rest) = askable (codes name) && all_askable rest

abbrev tables_askable : List (ℕ × List Entry) → Bool
tables_askable [] = true
tables_askable ((_, table) ∷ rest) = all_askable table && tables_askable rest

branches-askable : tables_askable branches ≡ true
unfolding contains
branches-askable = refl

both : {a b : Bool} → (a && b) ≡ true → (a ≡ true) × (b ≡ true)
both {a = true} h = (refl, h)
both {a = false} h = cc

table_of-askable :
    (x : ℕ) (tables : List (ℕ × List Entry))
    → tables_askable tables ≡ true
    → all_askable (table_of x tables) ≡ true
unfolding table_of
table_of-askable x [] h = refl
table_of-askable x ((first, table) ∷ rest) h = elim (Bool-cases (x == first)) [
  | inl e ↦ rw e (both h).0
  | inr e ↦ rw e (table_of-askable x rest (both h).1)
]

module _ ⦃R : Reader⦄ ⦃E : Emitter⦄ (emits : Bool) (trusted : Trusted emits) (fuel : ℕ)
    (call : MachineState → M ControlToken) where
  -- What `IsRunning` says goes on holding, with room for `n` errors.
  abbrev Stays : MachineState → ℕ → Option ℕ → {A : Type 0} → A → Tokenizer → Type 0
  Stays s n c _ t = IsRunning emits s n c t

  if_Ensures :
      {A : Type 0} (P : A → Tokenizer → Type 0) (b : Bool) (m k : M A) (t : Tokenizer)
      → Ensures emits P (m t)
      → Ensures emits P (k t)
      → Ensures emits P ((if b then m else k) t)
  if_Ensures P true m k t h g = h
  if_Ensures P false m k t h g = g

  try_entries-Ensures :
      (s : MachineState) (n : ℕ) (c : Option ℕ)
      → leb (budget s) n ≡ true
      → (entries : List Entry) (t : Tokenizer) → all_askable entries ≡ true
      → IsRunning emits s n c t
      → Ensures emits (Stays s n c) (try_entries (λ x. try_read_string x true) entries t)
  unfolding try_entries pure ◌>>=◌
  try_entries-Ensures s n c enough [] t fine r = r
  try_entries-Ensures s n c enough ((name, characters) ∷ rest) t fine r =
      bind-Ensures emits (Stays s n c) (Stays s n c) (try_read_string (codes name) true t)
        (λ hit.
          if hit
          then pure (some (record { name = codes name; characters = as_bytes characters }))
          else try_entries (λ x. try_read_string x true) rest)
        (try_read_string-Ensures emits trusted (codes name) true s n c t (both fine).0 enough r)
        (λ hit u p.
          if_Ensures (Stays s n c) hit
            (pure (some (record { name = codes name; characters = as_bytes characters })))
            (try_entries (λ x. try_read_string x true) rest) u p
            (try_entries-Ensures s n c enough rest u (both fine).1 p))

  read_reference-Ensures :
      (x : Option ℕ) (s : MachineState) (n : ℕ) (c : Option ℕ)
      → leb (budget s) n ≡ true
      → (t : Tokenizer) → IsRunning emits s n c t
      → Ensures emits (Stays s n c) (read_reference fuel call x t)
  unfolding read_reference try_read_character_reference pure
  read_reference-Ensures none s n c enough t r = r
  read_reference-Ensures (some x) s n c enough t r =
      try_entries-Ensures s n c enough (table_of x branches) t
        (table_of-askable x branches branches-askable) r

  fewer :
      {s : MachineState} {n : ℕ} {c : Option ℕ} {t : Tokenizer}
      → IsRunning emits s (suc n) c t
      → IsRunning emits s n c t
  fewer {n} r = record {
    state_is = r.state_is;
    room = HasRoom-le emits n (suc n) (ground arith) r.room;
    last = r.last;
    reconsume = r.reconsume;
    returns = r.returns;
  }

  report-Ensures :
      (e : Option Error) (s : MachineState) (n : ℕ) (c : Option ℕ) (t : Tokenizer)
      → IsRunning emits s (suc n) c t
      → Ensures emits (Stays s n c) (report fuel call e t)
  unfolding report pure
  report-Ensures none s n c t r = fewer r
  report-Ensures (some e) s n c t r = error-Ensures emits trusted e s n c t r

  replace_buffer-Ensures :
      (char_ref : CharRef) (s : MachineState) (n : ℕ) (c : Option ℕ) (t : Tokenizer)
      → IsRunning emits s (suc n) c t
      → Ensures emits (Stays s n c) (replace_buffer fuel call char_ref t)
  unfolding replace_buffer ◌>>◌
  replace_buffer-Ensures char_ref s n c t r =
      let missing = error missing_semicolon_after_character_reference in
      bind-Ensures emits (Stays s n c) (Stays s n c)
        ((if ends_with_semicolon char_ref.name then pure tt else missing) t)
        (λ _. do Ops.clear_buffer; Ops.push_buffer char_ref.characters)
        (if_Ensures (Stays s n c) (ends_with_semicolon char_ref.name) (pure tt) missing t
          ((pure-IsNeutral emits tt).keeps s n c t (fewer r))
          (error-Ensures emits trusted missing_semicolon_after_character_reference s n c t r))
        (λ _.
          (IsNeutral-then emits (clear_buffer-IsNeutral emits)
              (push_buffer-IsNeutral emits char_ref.characters)).keeps
            s n c)

  keep_buffer-IsNeutral :
      (x : Option ℕ) (char_ref : CharRef) → IsNeutral emits (keep_buffer fuel call x char_ref)
  unfolding keep_buffer
  keep_buffer-IsNeutral x char_ref =
      IsNeutral-then emits (push_buffer-IsNeutral emits (Ops.bytes x))
        (push_buffer-IsNeutral emits char_ref.name)

  from_u32_unwrap-end_code :
      (code : ℕ) (t : Tokenizer)
      → from_u32_unwrap fuel call (end_code code) t ≡ (ok (end_code code), t)
  unfolding from_u32_unwrap
  from_u32_unwrap-end_code code t = rw (end_code-is_scalar code) refl

  module _ {s : MachineState} {n : ℕ} {c : Option ℕ} where
    pub read_reference-then :
        {f : Option CharRef → M Flow} (x : Option ℕ)
        → leb (budget s) n ≡ true
        → ((o : Option CharRef) → Fits emits s n c (f o))
        → Fits emits s n c (read_reference fuel call x >>= f)
    read_reference-then {f} x enough k =
        Fits-bind emits (Stays s n c) s n c (read_reference fuel call x) f
          (read_reference-Ensures x s n c enough) (λ a. (k a).run)

    pub report-then :
        {k : M Flow} (e : Option Error)
        → Fits emits s n c k
        → Fits emits s (suc n) c (report fuel call e >> k)
    report-then {k} e h =
        Fits-then emits (IsRunning emits s n c) s (suc n) c (report fuel call e) k
          (report-Ensures e s n c) h.run

    pub choose_buffer-then :
        {k : M Flow} (b : Bool) (x : Option ℕ) (char_ref : CharRef)
        → Fits emits s n c k
        → Fits emits s (suc n) c (
            (if b then replace_buffer fuel call char_ref else keep_buffer fuel call x char_ref)
            >> k)
    choose_buffer-then {k} b x char_ref h =
        let replaced = replace_buffer fuel call char_ref in
        let kept = keep_buffer fuel call x char_ref in
        Fits-then emits (IsRunning emits s n c) s (suc n) c (if b then replaced else kept) k
          (λ t r.
            if_Ensures (Stays s n c) b replaced kept t (replace_buffer-Ensures char_ref s n c t r)
              ((keep_buffer-IsNeutral x char_ref).keeps s n c t (fewer r)))
          h.run

    pub from_u32_unwrap-then :
        (f : ℕ → M Flow) (code : ℕ)
        → Fits emits s n c (f (end_code code))
        → Fits emits s n c (from_u32_unwrap fuel call (end_code code) >>= f)
    unfolding ◌>>=◌
    from_u32_unwrap-then f code h = record {
      run = λ t r. rw (from_u32_unwrap-end_code code t) (h.run t r);
    }
