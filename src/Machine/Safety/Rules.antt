-- ===== src/Machine/Safety/Rules.antt =====
-- Rules by which a round fits, one for each operation of `Machine.Ops`.
pub mod Steps
pub mod Neutral
pub mod Reading
pub mod Ascii
pub mod References
pub mod Loops
pub mod Entries
use html5gum.Base.{
  ℕ, zero, suc, ◌+◌, ◌-◌, ◌≤◌, ◌<◌, Bool, true, false, ◌&&◌, ◌||◌, List, [], ◌∷◌, ◌++◌, Option,
  none, some, ◌≡◌, refl, sym, ap, ◌⊎◌, inl, inr, leb, leb→le, arith, if◌then◌else◌, Bool-cases,
}
use mathlib.Core.Path.{subst}
use html5gum.Base.Bytes.{Bytes}
use html5gum.Base.Lists.{length}
use html5gum.CharValidator.{reset, flush_character_error}
use html5gum.CharValidator.Room.{IsClean, CleanAt, HasRoom}
use html5gum.Emitter.{Emitter, State}
use html5gum.Errors.{Error}
use html5gum.Machine.Ops.{Flow, again, stop, first}
use html5gum.Machine.Ops
use html5gum.Machine.Safety.Ready.{
  is_reference, is_base, budget, ReturnFits, IsReady, IsRunning, Ensures, AfterToken, AfterRound,
  Fits, KeepsReady,
}
use html5gum.Machine.Safety.Rules.Steps.{
  bind-Ensures, HasRoom-le, IsRunning-IsReady, stopped, read_byte-Ensures, read_until-Ensures,
  error-Ensures, flush_errors-Ensures, try_read_string-Ensures,
}
use html5gum.Machine.Safety.Rules.Neutral.{
  Fits-bind, Fits-then, IsNeutral, neutral-bind, neutral-then, moved,
}
use html5gum.MachineHelper
use html5gum.MachineHelper.{MachineState, ControlToken, into}
use html5gum.Outcome.{Outcome, ok, err, panic, out_of_fuel}
use html5gum.ReadHelper
use html5gum.ReadHelper.Room.{ReconsumeClean}
use html5gum.Reader.Trait.{Reader}
use html5gum.Tokenizer.{
  Tokenizer, M, ◌>>=◌, ◌>>◌, pure, followed_by, emit, ask, read_byte, read_until, try_read_string,
  unread_byte, error, error_immediate, flush_errors,
}

module _ ⦃R : Reader⦄ ⦃E : Emitter⦄ (emits : Bool) where
  module _ {s : MachineState} {n : ℕ} {c : Option ℕ} where
    pub goes_on : leb (budget s) n ≡ true → Fits emits s n c Ops.cont
    unfolding Ops.cont pure
    goes_on enough = record { run = λ t r. (IsRunning-IsReady emits s n c enough r, r.state_is) }

    pub eof-Fits : Fits emits s n c Ops.eof
    unfolding Ops.eof pure
    eof-Fits = record { run = λ t r. tt }

    -- What another state needs, from what is left for this one.
    pub hand_over :
        (s' : MachineState) {t : Tokenizer}
        → leb (budget s') n ≡ true
        → is_reference s' ≡ is_reference s
        → IsRunning emits s n c t
        → IsReady emits s' t
    hand_over s' enough same r = record {
      room = HasRoom-le emits (budget s') n enough r.room;
      reconsume = r.reconsume;
      returns = rw same r.returns;
    }

    pub switch_to-Fits :
        (s' : MachineState)
        → leb (budget s') n ≡ true
        → is_reference s' ≡ is_reference s
        → Fits emits s n c (Ops.switch_to s')
    unfolding Ops.switch_to pure
    switch_to-Fits s' enough same = record { run = λ t r. hand_over s' enough same r }

    pub continue-Fits : leb (budget s) n ≡ true → Fits emits s n c Ops.continue
    unfolding Ops.continue pure
    continue-Fits enough = record { run = λ t r. stopped emits s n c enough r }

    -- A byte that has been read may be read again.
    pub unread :
        {t : Tokenizer}
        → IsRunning emits s n c t
        → IsRunning emits s n c (record t { reader = ReadHelper.unread_byte c t.reader })
    unread r = record {
      state_is = r.state_is;
      room = r.room;
      last = r.last;
      reconsume = r.last;
      returns = r.returns;
    }

    pub unread-then : {k : M Flow} → Fits emits s n c k → Fits emits s n c (unread_byte c >> k)
    unfolding unread_byte
    unread-then {k} h =
        Fits-then emits (IsRunning emits s n c) s n c (unread_byte c) k (λ t. unread) h.run

    pub unread_eof-then :
        {k : M Flow} → Fits emits s n c k → Fits emits s n c (unread_byte none >> k)
    unfolding unread_byte
    unread_eof-then {k} h =
        Fits-then emits (IsRunning emits s n c) s n c (unread_byte none) k
          (λ t r. record {
            state_is = r.state_is;
            room = r.room;
            last = r.last;
            reconsume = tt;
            returns = r.returns;
          })
          h.run

    pub reconsume_in-Fits :
        (s' : MachineState)
        → leb (budget s') n ≡ true
        → is_reference s' ≡ is_reference s
        → Fits emits s n c (Ops.reconsume_in c s')
    unfolding Ops.reconsume_in
    reconsume_in-Fits s' enough same = unread-then (switch_to-Fits s' enough same)

    pub reconsume_eof-Fits :
        (s' : MachineState)
        → leb (budget s') n ≡ true
        → is_reference s' ≡ is_reference s
        → Fits emits s n c (Ops.reconsume_in none s')
    unfolding Ops.reconsume_in
    reconsume_eof-Fits s' enough same = unread_eof-then (switch_to-Fits s' enough same)

    pub inline-Fits :
        (call : MachineState → M ControlToken) (s' : MachineState)
        → KeepsReady emits call
        → leb (budget s') n ≡ true
        → is_reference s' ≡ is_reference s
        → Fits emits s n c (Ops.inline_next_state call (ControlToken.switch_to s'))
    unfolding Ops.inline_next_state Ops.set_state Ops.helper ◌>>◌ ◌>>=◌ pure
    inline-Fits call s' keeps enough same = record {
      run = λ t r.
          let u : Tokenizer = record t {
            machine_helper = record (t.machine_helper) { state = s' };
          } in
          let ready = hand_over s' enough same r in
          bind-Ensures emits (AfterToken emits) (AfterRound emits s) (call s' u)
            (λ token v. (ok (stop token), v))
            (keeps s' u
              (record { room = ready.room; reconsume = ready.reconsume; returns = ready.returns })
              refl)
            (λ token v p. p);
    }

    pub if-Fits :
        (b : Bool) {k l : M Flow}
        → Fits emits s n c k
        → Fits emits s n c l
        → Fits emits s n c (if b then k else l)
    if-Fits true h g = h
    if-Fits false h g = g
