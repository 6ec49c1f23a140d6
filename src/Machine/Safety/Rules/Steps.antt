-- ===== src/Machine/Safety/Rules/Steps.antt =====
-- What one operation of a round leaves, for the operations that read or report errors.
use mathlib.Core.Path.{subst}
use html5gum.Base.{
  ltb, sym, ℕ, suc, Bool, true, [], ◌∷◌, Option, none, some, ◌≡◌, ◌↔◌, ◌⊎◌, inl, inr, leb, leb→le,
  arith,
}
use html5gum.Base.Lists.{length}
use html5gum.Base.Bytes.{Bytes}
use html5gum.CharValidator.{CharValidator, reset, flush_character_error, set_character_error}
use html5gum.CharValidator.Room.{
  CleanAt, HasRoom, reset-HasRoom, set_character_error-HasRoom, Takes, flush-HasRoom,
}
use html5gum.Emitter.{Emitter}
use html5gum.Errors.{Error}
use html5gum.Machine.Ops.{first}
use html5gum.Machine.Safety.Ready.{Trusted, budget, IsReady, IsRunning, Ensures}
use html5gum.MachineHelper.{MachineState}
use html5gum.Outcome.{from_result, Outcome, ok, err, panic, out_of_fuel, array_full}
use html5gum.ReadHelper
use html5gum.ReadHelper.Room.{
  ReconsumeClean, ChunkClean, AfterRead, read_byte-AfterRead, read_until-AfterCall,
  try_text-AfterTry, try_read_string-askable, askable, AfterCall, AfterTry,
}
use html5gum.Reader.Trait.{Reader}
use html5gum.Tokenizer.{
  Tokenizer, M, followed_by, read_byte, read_until, try_read_string, error, flush_errors,
}

module _ ⦃R : Reader⦄ ⦃E : Emitter⦄ (emits : Bool) where
  pub bind-Ensures :
      {A B : Type 0} (P : A → Tokenizer → Type 0) (Q : B → Tokenizer → Type 0)
      (r : Outcome R.Error A × Tokenizer) (f : A → M B)
      → Ensures emits P r
      → ((a : A) (t : Tokenizer) → P a t → Ensures emits Q (f a t))
      → Ensures emits Q (followed_by r f)
  bind-Ensures P Q (ok a, t) f p k = k a t p
  bind-Ensures P Q (err x, t) f p k = p
  bind-Ensures P Q (panic x, t) f p k = p
  bind-Ensures P Q (out_of_fuel, t) f p k = p

  -- Room for more errors is room for fewer.
  pub HasRoom-le :
      (m n : ℕ) {v : CharValidator} → leb m n ≡ true → HasRoom emits n v → HasRoom emits m v
  HasRoom-le m n h r = record {
    cap_is = r.cap_is;
    room = omega (arith, leb→le m n h, r.room);
    silent = r.silent;
  }

  -- A running function may stop where it is and be called again.
  pub IsRunning-IsReady :
      (s : MachineState) (n : ℕ) (c : Option ℕ) {t : Tokenizer}
      → leb (budget s) n ≡ true
      → IsRunning emits s n c t
      → IsReady emits s t
  IsRunning-IsReady s n c enough r = record {
    room = HasRoom-le (budget s) n enough r.room;
    reconsume = r.reconsume;
    returns = r.returns;
  }

  pub stopped :
      (s : MachineState) (n : ℕ) (c : Option ℕ) {t : Tokenizer}
      → leb (budget s) n ≡ true
      → IsRunning emits s n c t
      → IsReady emits t.machine_helper.state t
  stopped s n c {t} enough r =
      subst (λ x. IsReady emits x t) (sym r.state_is) (IsRunning-IsReady s n c enough r)

kept :
    (emits : Bool) (n : ℕ) (c : Option ℕ) {v w : CharValidator}
    → ((w ≡ v) ⊎ (w ≡ reset v))
    → HasRoom emits n v
    → CleanAt c v
    → HasRoom emits n w × CleanAt c w
kept emits n c (inl e) r k = rw e (r, k)
kept emits n c {v} (inr e) r k = rw e (reset-HasRoom emits n c v r k)

module _ ⦃R : Reader⦄ ⦃E : Emitter⦄ (emits : Bool) (trusted : Trusted emits) where
  -- What a read gives to the tokenizer `t`.
  abbrev after_read :
      {A : Type 0}
      → Tokenizer
      → (R.Error ⊎ A) × ReadHelper.ReadHelper × CharValidator × E.Self
      → Outcome R.Error A × Tokenizer
  after_read t (c, h, v, e) = (from_result c, record t { reader = h; validator = v; emitter = e })

  after_read-Ensures :
      {A : Type 0} (P : A → CharValidator → Type 0) (last : A → Option ℕ)
      → ((a : A) (v : CharValidator) → P a v → CleanAt (last a) v)
      → (s : MachineState) (n : ℕ) (c : Option ℕ) (t : Tokenizer) → leb (budget s) n ≡ true
      → IsRunning emits s n c t
      → (r : (R.Error ⊎ A) × ReadHelper.ReadHelper × CharValidator × E.Self)
      → AfterRead emits trusted.steady P n r
      → Ensures emits (λ a. IsRunning emits s n (last a)) (after_read t r)
  after_read-Ensures P last imp s n c t enough running (inl x, h, v, e) after =
      rw running.state_is (record {
        room = HasRoom-le emits (budget s) n enough after.0;
        reconsume = rw after.1 tt;
        returns = running.returns;
      })
  after_read-Ensures P last imp s n c t enough running (inr a, h, v, e) after = record {
    state_is = running.state_is;
    room = after.0;
    last = imp a v after.2;
    reconsume = rw after.1 tt;
    returns = running.returns;
  }

  -- The same for a call that may panic.
  AfterCall-Ensures :
      {A : Type 0} (P : A → CharValidator → Type 0) (last : A → Option ℕ)
      → ((a : A) (v : CharValidator) → P a v → CleanAt (last a) v)
      → (s : MachineState) (n : ℕ) (c : Option ℕ) (t : Tokenizer) → leb (budget s) n ≡ true
      → IsRunning emits s n c t
      → (r : Outcome R.Error A × ReadHelper.ReadHelper × CharValidator × E.Self)
      → AfterCall emits trusted.steady P n r
      → Ensures emits
          (λ a. IsRunning emits s n (last a))
          (r.0, record t { reader = r.1; validator = r.2; emitter = r.3 })
  AfterCall-Ensures P last imp s n c t enough running (err x, h, v, e) after =
      after_read-Ensures P last imp s n c t enough running (inl x, h, v, e) after
  AfterCall-Ensures P last imp s n c t enough running (ok a, h, v, e) after =
      after_read-Ensures P last imp s n c t enough running (inr a, h, v, e) after
  AfterCall-Ensures P last imp s n c t enough running (panic p, h, v, e) after = after
  AfterCall-Ensures P last imp s n c t enough running (out_of_fuel, h, v, e) after = tt

  pub read_byte-Ensures :
      (s : MachineState) (n : ℕ) (c : Option ℕ) (t : Tokenizer)
      → leb (budget s) n ≡ true
      → IsRunning emits s n c t
      → Ensures emits (IsRunning emits s n) (read_byte t)
  unfolding read_byte
  read_byte-Ensures s n c t enough running =
      after_read-Ensures CleanAt (λ a. a) (λ a v p. p) s n c t enough running
        (ReadHelper.read_byte t.reader t.validator t.emitter)
        (read_byte-AfterRead emits trusted.steady t.reader n t.validator t.emitter running.room
          running.reconsume)

  ChunkClean-CleanAt :
      (xs : Option Bytes) (v : CharValidator) → ChunkClean xs v → CleanAt (first xs) v
  ChunkClean-CleanAt none v p = tt
  ChunkClean-CleanAt (some []) v p = tt
  ChunkClean-CleanAt (some (x ∷ [])) v p = p
  ChunkClean-CleanAt (some (x ∷ y ∷ xs)) v p = tt

  pub read_until-Ensures :
      (needle : Bytes) (s : MachineState) (n : ℕ) (c : Option ℕ) (t : Tokenizer)
      → ltb (length needle) 13 ≡ true
      → leb (budget s) n ≡ true
      → IsRunning emits s n c t
      → Ensures emits (λ xs. IsRunning emits s n (first xs)) (read_until needle t)
  unfolding read_until
  read_until-Ensures needle s n c t short enough running =
      AfterCall-Ensures ChunkClean first ChunkClean-CleanAt s n c t enough running
        (ReadHelper.read_until needle t.reader t.validator t.emitter)
        (read_until-AfterCall emits trusted.steady needle t.reader n t.validator t.emitter
          trusted.accepts short running.room running.reconsume)

  -- The character to be read again, for `CleanAt`.
  abbrev held : Option (Option ℕ) → Option ℕ
  held none = none
  held (some c) = c

  held_iff :
      (rc : Option (Option ℕ)) (v : CharValidator) → ReconsumeClean rc v ↔ CleanAt (held rc) v
  held_iff none v = (λ h. h, λ h. h)
  held_iff (some c) v = (λ h. h, λ h. h)

  pub error-Ensures :
      (x : Error) (s : MachineState) (n : ℕ) (c : Option ℕ) (t : Tokenizer)
      → IsRunning emits s (suc n) c t
      → Ensures emits (λ _. IsRunning emits s n c) (error x t)
  unfolding error
  error-Ensures x s n c t running =
      let again = (held_iff t.reader.to_reconsume t.validator).0 running.reconsume in
      go (set_character_error x t.validator t.emitter)
        (set_character_error-HasRoom emits trusted.steady x n c t.validator t.emitter running.room
          running.last)
        (set_character_error-HasRoom emits trusted.steady x n (held t.reader.to_reconsume)
          t.validator t.emitter running.room again)
    where
      go :
          (o : Option (CharValidator × E.Self))
          → Takes emits trusted.steady n c o
          → Takes emits trusted.steady n (held t.reader.to_reconsume) o
          → Ensures emits {A = Unit {0}}
              (λ _. IsRunning emits s n c)
              (elim o [
                | none ↦ (panic array_full, t)
                | some (v, e) ↦ (ok tt, record t { validator = v; emitter = e })
              ])
      go none p q = p
      go (some (w, e)) p q = record {
        state_is = running.state_is;
        room = p.0;
        last = p.1;
        reconsume = (held_iff t.reader.to_reconsume w).1 q.1;
        returns = running.returns;
      }

  pub flush_errors-Ensures :
      (s : MachineState) (n : ℕ) (c : Option ℕ) (t : Tokenizer)
      → IsRunning emits s n c t
      → Ensures emits (λ _. IsRunning emits s n c) (flush_errors t)
  unfolding flush_errors
  flush_errors-Ensures s n c t running =
      let v = (flush_character_error t.validator t.emitter).0 in
      let again = (held_iff t.reader.to_reconsume t.validator).0 running.reconsume in
      record {
        state_is = running.state_is;
        room =
            (flush-HasRoom emits trusted.steady n c t.validator t.emitter running.room
              running.last).0;
        last =
            (flush-HasRoom emits trusted.steady n c t.validator t.emitter running.room
              running.last).1;
        reconsume =
            (held_iff t.reader.to_reconsume v).1
              (flush-HasRoom emits trusted.steady n (held t.reader.to_reconsume) t.validator
                t.emitter running.room again).1;
        returns = running.returns;
      }

  pub try_read_string-Ensures :
      (x : Bytes) (cs : Bool) (s : MachineState) (n : ℕ) (c : Option ℕ) (t : Tokenizer)
      → askable x ≡ true
      → leb (budget s) n ≡ true
      → IsRunning emits s n c t
      → Ensures emits (λ _. IsRunning emits s n c) (try_read_string x cs t)
  unfolding try_read_string
  try_read_string-Ensures x cs s n c t fine enough running =
      rw (try_read_string-askable x cs t.reader t.validator fine) (
        go (ReadHelper.try_text x cs t.reader t.validator)
          (try_text-AfterTry x cs t.reader t.validator))
    where
      again : CleanAt (held t.reader.to_reconsume) t.validator
      again = (held_iff t.reader.to_reconsume t.validator).0 running.reconsume

      running_with :
          (h : ReadHelper.ReadHelper) (v : CharValidator)
          → ((v ≡ t.validator) ⊎ (v ≡ reset t.validator))
          → ((h.to_reconsume ≡ none) ⊎ (h.to_reconsume ≡ t.reader.to_reconsume))
          → IsRunning emits s n c (record t { reader = h; validator = v })
      running_with h v p q = record {
        state_is = running.state_is;
        room = (kept emits n c p running.room running.last).0;
        last = (kept emits n c p running.room running.last).1;
        reconsume = elim q [
          | inl e ↦ rw e tt
          | inr e ↦ rw e (
              (held_iff t.reader.to_reconsume v).1
                (kept emits n (held t.reader.to_reconsume) p running.room again).1)
        ];
        returns = running.returns;
      }

      go :
          (r : (R.Error ⊎ Bool) × ReadHelper.ReadHelper × CharValidator)
          → AfterTry t.reader.to_reconsume t.validator r
          → Ensures emits
              (λ _. IsRunning emits s n c)
              (from_result r.0, record t { reader = r.1; validator = r.2 })
      go (inl e, h, v) (p, q) = stopped emits s n c enough (running_with h v p q)
      go (inr b, h, v) (p, q) = running_with h v p q
