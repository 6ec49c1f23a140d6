-- ===== src/Machine/Safety/Rules/Loops.antt =====
-- The loop of a state keeps what each of its rounds keeps.
use html5gum.Base.{ℕ, zero, suc, Bool, Option, none, ◌≡◌}
use html5gum.Emitter.{Emitter}
use html5gum.Machine.Ops.{Flow, again, stop, first}
use html5gum.Machine.Ops
use html5gum.Machine.Safety.Ready.{
  budget, IsReady, IsRunning, Ensures, AfterToken, AfterRound, Fits,
}
use html5gum.Machine.Safety.Rules.Steps.{bind-Ensures}
use html5gum.Machine.Safety.Rules.Neutral.{IsNeutral}
use html5gum.MachineHelper.{MachineState, ControlToken}
use html5gum.Reader.Trait.{Reader}
use html5gum.Tokenizer.{Tokenizer, M, ◌>>=◌, ◌>>◌, pure}

module _ ⦃R : Reader⦄ ⦃E : Emitter⦄ (emits : Bool) where
  pub IsReady-IsRunning :
      {s : MachineState} {t : Tokenizer}
      → IsReady emits s t
      → t.machine_helper.state ≡ s
      → IsRunning emits s (budget s) none t
  IsReady-IsRunning ready at = record {
    state_is = at;
    room = ready.room;
    last = tt;
    reconsume = ready.reconsume;
    returns = ready.returns;
  }

  after_round-Ensures :
      (s : MachineState) (more : M ControlToken)
      → ((t : Tokenizer)
          → IsReady emits s t
          → t.machine_helper.state ≡ s
          → Ensures emits (AfterToken emits) (more t))
      → (f : Flow) (t : Tokenizer) → AfterRound emits s f t
      → Ensures emits (AfterToken emits) (Ops.after_round more f t)
  unfolding Ops.after_round pure
  after_round-Ensures s more h again t (ready, at) = h t ready at
  after_round-Ensures s more h (stop token) t p = p

  pub loop-Ensures :
      (s : MachineState) (round : M Flow)
      → ((c : Option ℕ) → Fits emits s (budget s) c round)
      → (fuel : ℕ) (t : Tokenizer) → IsReady emits s t
      → t.machine_helper.state ≡ s
      → Ensures emits (AfterToken emits) (Ops.loop fuel round t)
  unfolding Ops.loop ◌>>=◌
  loop-Ensures s round fits zero t ready at = tt
  loop-Ensures s round fits (suc fuel) t ready at =
      bind-Ensures emits (AfterRound emits s) (AfterToken emits) (round t)
        (Ops.after_round (Ops.loop fuel round)) ((fits none).run t (IsReady-IsRunning ready at))
        (after_round-Ensures s (Ops.loop fuel round) (loop-Ensures s round fits fuel))

  -- A loop behind an operation that keeps all.
  pub then-Ensures :
      {A : Type 0} (m : M A) (k : M ControlToken) (s : MachineState)
      → IsNeutral emits m
      → ((t : Tokenizer)
          → IsReady emits s t
          → t.machine_helper.state ≡ s
          → Ensures emits (AfterToken emits) (k t))
      → (t : Tokenizer) → IsReady emits s t
      → t.machine_helper.state ≡ s
      → Ensures emits (AfterToken emits) ((m >> k) t)
  unfolding ◌>>◌
  then-Ensures m k s h g t ready at =
      bind-Ensures emits (λ _. IsRunning emits s (budget s) none) (AfterToken emits) (m t) (λ _. k)
        (h.keeps s (budget s) none t (IsReady-IsRunning ready at))
        (λ _ u r.
          g u (record { room = r.room; reconsume = r.reconsume; returns = r.returns }) r.state_is)
