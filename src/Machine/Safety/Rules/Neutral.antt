-- ===== src/Machine/Safety/Rules/Neutral.antt =====
-- Operations of a round that leave alone all that the invariant speaks of.
use html5gum.Machine.Ops.{holds}
use html5gum.Outcome.{ok}
use html5gum.Base.{
  arith, ltb, leb, ◌&&◌, ◌*◌, ◌^◌, ◌∷◌, some, none, ℕ, Bool, true, false, Option, ◌≡◌, refl, ◌∙◌,
  if◌then◌else◌,
}
use html5gum.Base.Bytes.{Bytes}
use html5gum.Emitter.{Emitter}
use html5gum.Machine.Ops.{Flow, again, stop, first}
use html5gum.Machine.Ops
use html5gum.Machine.Safety.Ready.{IsRunning, Ensures, AfterRound, Fits}
use html5gum.Machine.Safety.Rules.Steps.{bind-Ensures}
use html5gum.MachineHelper.{MachineState}
use html5gum.Reader.Trait.{Reader}
use html5gum.Tokenizer.{Tokenizer, M, ◌>>=◌, ◌>>◌, pure, emit, ask}

no_underflow : (b : Bool) (x sub : ℕ) → leb sub x ≡ true → (b && ltb x sub) ≡ false
no_underflow b x sub h = ground arith

module _ ⦃R : Reader⦄ ⦃E : Emitter⦄ (emits : Bool) where
  -- A bind fits if what it leaves fits what follows.
  pub Fits-bind :
      {A : Type 0} (P : A → Tokenizer → Type 0) (s : MachineState) (n : ℕ) (c : Option ℕ) (m : M A)
      (f : A → M Flow)
      → ((t : Tokenizer) → IsRunning emits s n c t → Ensures emits P (m t))
      → ((a : A) (t : Tokenizer) → P a t → Ensures emits (AfterRound emits s) (f a t))
      → Fits emits s n c (m >>= f)
  unfolding ◌>>=◌
  Fits-bind P s n c m f h k = record {
    run = λ t r. bind-Ensures emits P (AfterRound emits s) (m t) f (h t r) k;
  }

  pub Fits-then :
      {A : Type 0} (P : Tokenizer → Type 0) (s : MachineState) (n : ℕ) (c : Option ℕ) (m : M A)
      (k : M Flow)
      → ((t : Tokenizer) → IsRunning emits s n c t → Ensures emits (λ _. P) (m t))
      → ((t : Tokenizer) → P t → Ensures emits (AfterRound emits s) (k t))
      → Fits emits s n c (m >> k)
  unfolding ◌>>◌
  Fits-then P s n c m k h g = record {
    run = λ t r. bind-Ensures emits (λ _. P) (AfterRound emits s) (m t) (λ _. k) (h t r) (λ _. g);
  }

  -- An operation that leaves alone all that `IsRunning` speaks of.
  pub record IsNeutral {A : Type 0} (m : M A) : Type 0 where
    pub keeps :
        (s : MachineState) (n : ℕ) (c : Option ℕ) (t : Tokenizer)
        → IsRunning emits s n c t
        → Ensures emits (λ _. IsRunning emits s n c) (m t)

  module _ {s : MachineState} {n : ℕ} {c : Option ℕ} where
    pub neutral-bind :
        {A : Type 0} {m : M A} {f : A → M Flow}
        → IsNeutral m
        → ((a : A) → Fits emits s n c (f a))
        → Fits emits s n c (m >>= f)
    neutral-bind {m} {f} h k =
        Fits-bind (λ _. IsRunning emits s n c) s n c m f (h.keeps s n c) (λ a. (k a).run)

    pub neutral-then :
        {A : Type 0} {m : M A} {k : M Flow}
        → IsNeutral m
        → Fits emits s n c k
        → Fits emits s n c (m >> k)
    neutral-then {m} {k} h g = Fits-then (IsRunning emits s n c) s n c m k (h.keeps s n c) g.run

  pub IsNeutral-bind :
      {A B : Type 0} {m : M A} {f : A → M B}
      → IsNeutral m
      → ((a : A) → IsNeutral (f a))
      → IsNeutral (m >>= f)
  unfolding ◌>>=◌
  IsNeutral-bind {m} {f} h k = record {
    keeps = λ s n c t r.
        bind-Ensures emits (λ _. IsRunning emits s n c) (λ _. IsRunning emits s n c) (m t) f
          (h.keeps s n c t r) (λ a. (k a).keeps s n c);
  }

  pub IsNeutral-then :
      {A B : Type 0} {m : M A} {k : M B} → IsNeutral m → IsNeutral k → IsNeutral (m >> k)
  unfolding ◌>>◌
  IsNeutral-then {m} {k} h g = record {
    keeps = λ s n c t r.
        bind-Ensures emits (λ _. IsRunning emits s n c) (λ _. IsRunning emits s n c) (m t) (λ _. k)
          (h.keeps s n c t r) (λ _. g.keeps s n c);
  }

  pub IsNeutral-if :
      {A : Type 0} (b : Bool) {m k : M A}
      → IsNeutral m
      → IsNeutral k
      → IsNeutral (if b then m else k)
  IsNeutral-if true h g = h
  IsNeutral-if false h g = g

  pub moved :
      {s : MachineState} {n : ℕ} {c : Option ℕ} {t u : Tokenizer}
      → u.validator ≡ t.validator
      → u.reader ≡ t.reader
      → u.machine_helper.state ≡ t.machine_helper.state
      → u.machine_helper.return_state ≡ t.machine_helper.return_state
      → IsRunning emits s n c t
      → IsRunning emits s n c u
  moved v r m b running = record {
    state_is = m ∙ running.state_is;
    room = rw v running.room;
    last = rw v running.last;
    reconsume = rw (v, r) running.reconsume;
    returns = rw b running.returns;
  }

  pub emit-IsNeutral : (f : E.Self → E.Self) → IsNeutral (emit f)
  unfolding emit
  emit-IsNeutral f = record { keeps = λ s n c t. moved refl refl refl refl }

  pub ask-IsNeutral : (f : E.Self → Bool) → IsNeutral (ask f)
  unfolding ask
  ask-IsNeutral f = record { keeps = λ s n c t. moved refl refl refl refl }

  pub pure-IsNeutral : {A : Type 0} (a : A) → IsNeutral (pure a)
  unfolding pure
  pure-IsNeutral a = record { keeps = λ s n c t. moved refl refl refl refl }

  pub clear_buffer-IsNeutral : IsNeutral (Ops.clear_buffer)
  unfolding Ops.clear_buffer
  clear_buffer-IsNeutral = record { keeps = λ s n c t. moved refl refl refl refl }

  pub push_buffer-IsNeutral : (xs : Bytes) → IsNeutral (Ops.push_buffer xs)
  unfolding Ops.push_buffer
  push_buffer-IsNeutral xs = record { keeps = λ s n c t. moved refl refl refl refl }

  pub set_code-IsNeutral : (k : ℕ) → IsNeutral (Ops.set_code k)
  unfolding Ops.set_code
  set_code-IsNeutral k = record { keeps = λ s n c t. moved refl refl refl refl }

  pub get_buffer-IsNeutral : IsNeutral (Ops.get_buffer)
  unfolding Ops.get_buffer
  get_buffer-IsNeutral = record { keeps = λ s n c t. moved refl refl refl refl }

  pub get_code-IsNeutral : IsNeutral (Ops.get_code)
  unfolding Ops.get_code
  get_code-IsNeutral = record { keeps = λ s n c t. moved refl refl refl refl }

  pub is_consumed_as_part_of_an_attribute-IsNeutral :
      IsNeutral (Ops.is_consumed_as_part_of_an_attribute)
  unfolding Ops.is_consumed_as_part_of_an_attribute
  is_consumed_as_part_of_an_attribute-IsNeutral = record {
    keeps = λ s n c t. moved refl refl refl refl;
  }

  pub emit_current_tag-IsNeutral : IsNeutral (Ops.emit_current_tag)
  unfolding Ops.emit_current_tag
  emit_current_tag-IsNeutral = record { keeps = λ s n c t. moved refl refl refl refl }

  pub flush_buffer_characters-IsNeutral : IsNeutral Ops.flush_buffer_characters
  unfolding Ops.flush_buffer_characters
  flush_buffer_characters-IsNeutral =
      IsNeutral-bind get_buffer-IsNeutral
        (λ xs. IsNeutral-then (emit-IsNeutral (E.emit_string xs)) clear_buffer-IsNeutral)

  pub flush_code_points_consumed_as_character_reference-IsNeutral :
      IsNeutral Ops.flush_code_points_consumed_as_character_reference
  unfolding Ops.flush_code_points_consumed_as_character_reference
  flush_code_points_consumed_as_character_reference-IsNeutral =
      IsNeutral-bind is_consumed_as_part_of_an_attribute-IsNeutral (λ b.
        IsNeutral-bind get_buffer-IsNeutral (λ xs.
          IsNeutral-if b
            (IsNeutral-then (emit-IsNeutral (E.push_attribute_value xs)) clear_buffer-IsNeutral)
            flush_buffer_characters-IsNeutral))

  subtract-IsNeutral :
      (evaluated : Bool) (x sub : ℕ) → leb sub x ≡ true → IsNeutral (Ops.subtract evaluated x sub)
  unfolding Ops.subtract
  subtract-IsNeutral evaluated x sub h = rw (no_underflow evaluated x sub h) (pure-IsNeutral tt)

  pub mutate_character_reference-IsNeutral :
      (mul sub : ℕ) (c : Option ℕ)
      → holds (leb sub) c ≡ true
      → IsNeutral (Ops.mutate_character_reference mul sub c)
  unfolding Ops.mutate_character_reference holds
  mutate_character_reference-IsNeutral mul sub none h = pure-IsNeutral tt
  mutate_character_reference-IsNeutral mul sub (some x) h = IsNeutral-bind get_code-IsNeutral (λ k.
      IsNeutral-then (subtract-IsNeutral (ltb (k * mul) (2 ^ 32)) x sub h)
        (set_code-IsNeutral (Ops.next_code mul sub x k)))

  -- A call that is known to give a value and to leave the tokenizer alone.
  known-Fits :
      (s : MachineState) (n : ℕ) (c : Option ℕ) {A : Type 0} (m : M A) (a : A) (f : A → M Flow)
      → ((t : Tokenizer) → m t ≡ (ok a, t))
      → Fits emits s n c (f a)
      → Fits emits s n c (m >>= f)
  unfolding ◌>>=◌
  known-Fits s n c m a f known h = record { run = λ t r. rw (known t) (h.run t r) }

  unwrap-some : (xs : Bytes) (t : Tokenizer) → Ops.unwrap (some xs) t ≡ (ok xs, t)
  unfolding Ops.unwrap pure
  unwrap-some xs t = refl

  index_0-cons : (x : ℕ) (xs : Bytes) (t : Tokenizer) → Ops.index_0 (x ∷ xs) t ≡ (ok x, t)
  unfolding Ops.index_0 pure
  index_0-cons x xs t = refl

  module _ {s : MachineState} {n : ℕ} {c : Option ℕ} where
    pub unwrap-then :
        (f : Bytes → M Flow) (xs : Bytes)
        → Fits emits s n c (f xs)
        → Fits emits s n c (Ops.unwrap (some xs) >>= f)
    unwrap-then f xs h = known-Fits s n c (Ops.unwrap (some xs)) xs f (unwrap-some xs) h

    pub index_0-then :
        (f : ℕ → M Flow) (x : ℕ) (xs : Bytes)
        → Fits emits s n c (f x)
        → Fits emits s n c (Ops.index_0 (x ∷ xs) >>= f)
    index_0-then f x xs h = known-Fits s n c (Ops.index_0 (x ∷ xs)) x f (index_0-cons x xs) h
