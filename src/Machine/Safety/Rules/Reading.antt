-- ===== src/Machine/Safety/Rules/Reading.antt =====
-- Rules for the operations that read or report an error.
use html5gum.ReadHelper.Room.{askable}
use html5gum.Base.{ltb, ℕ, suc, Bool, true, Option, ◌≡◌, leb}
use html5gum.Base.Lists.{length}
use html5gum.Base.Bytes.{Bytes}
use html5gum.Emitter.{Emitter}
use html5gum.Errors.{Error}
use html5gum.Machine.Ops.{Flow, first}
use html5gum.Machine.Safety.Ready.{Trusted, budget, IsRunning, Fits}
use html5gum.Machine.Safety.Rules.Steps.{
  bind-Ensures, read_byte-Ensures, read_until-Ensures, error-Ensures, flush_errors-Ensures,
  try_read_string-Ensures,
}
use html5gum.Machine.Safety.Rules.Neutral.{Fits-bind, Fits-then}
use html5gum.MachineHelper.{MachineState}
use html5gum.Reader.Trait.{Reader}
use html5gum.Tokenizer.{
  M, ◌>>=◌, ◌>>◌, read_byte, read_until, try_read_string, error, error_immediate, flush_errors,
}

module _ ⦃R : Reader⦄ ⦃E : Emitter⦄ (emits : Bool) (trusted : Trusted emits) where
  module _ {s : MachineState} {n : ℕ} {c : Option ℕ} where
    pub read_byte-then :
        {f : Option ℕ → M Flow}
        → leb (budget s) n ≡ true
        → ((c' : Option ℕ) → Fits emits s n c' (f c'))
        → Fits emits s n c (read_byte >>= f)
    read_byte-then {f} enough k =
        Fits-bind emits (IsRunning emits s n) s n c read_byte f
          (λ t r. read_byte-Ensures emits trusted s n c t enough r) (λ a. (k a).run)

    pub read_until-then :
        {f : Option Bytes → M Flow} (needle : Bytes)
        → ltb (length needle) 13 ≡ true
        → leb (budget s) n ≡ true
        → ((xs : Option Bytes) → Fits emits s n (first xs) (f xs))
        → Fits emits s n c (read_until needle >>= f)
    read_until-then {f} needle short enough k =
        Fits-bind emits (λ xs. IsRunning emits s n (first xs)) s n c (read_until needle) f
          (λ t r. read_until-Ensures emits trusted needle s n c t short enough r) (λ a. (k a).run)

    pub try_read_string-then :
        {f : Bool → M Flow} (x : Bytes) (cs : Bool)
        → askable x ≡ true
        → leb (budget s) n ≡ true
        → ((b : Bool) → Fits emits s n c (f b))
        → Fits emits s n c (try_read_string x cs >>= f)
    try_read_string-then {f} x cs fine enough k =
        Fits-bind emits (λ _. IsRunning emits s n c) s n c (try_read_string x cs) f
          (λ t r. try_read_string-Ensures emits trusted x cs s n c t fine enough r) (λ a. (k a).run)

    pub error-then :
        {k : M Flow} (x : Error) → Fits emits s n c k → Fits emits s (suc n) c (error x >> k)
    error-then {k} x h =
        Fits-then emits (IsRunning emits s n c) s (suc n) c (error x) k
          (error-Ensures emits trusted x s n c) h.run

    pub error_immediate-then :
        {k : M Flow} (x : Error)
        → Fits emits s n c k
        → Fits emits s (suc n) c (error_immediate x >> k)
    unfolding error_immediate ◌>>◌
    error_immediate-then {k} x h =
        Fits-then emits (IsRunning emits s n c) s (suc n) c (error_immediate x) k
          (λ t r.
            bind-Ensures emits (λ _. IsRunning emits s n c) (λ _. IsRunning emits s n c) (error x t)
              (λ _. flush_errors) (error-Ensures emits trusted x s n c t r)
              (λ _. flush_errors-Ensures emits trusted s n c))
          h.run
