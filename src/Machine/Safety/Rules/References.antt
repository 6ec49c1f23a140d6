-- ===== src/Machine/Safety/Rules/References.antt =====
-- Rules for the operations on the state to return to.
use html5gum.Base.{ℕ, Bool, true, false, Option, none, some, ◌≡◌, refl, sym, ◌∙◌, leb, arith}
use mathlib.Core.Path.{subst}
use html5gum.CharValidator.{CharValidator}
use html5gum.CharValidator.Room.{HasRoom}
use html5gum.Emitter.{Emitter, State}
use html5gum.Machine.Ops.{Flow, again, stop, first}
use html5gum.Machine.Ops
use html5gum.Machine.Safety.Ready.{is_reference, is_base, budget, ReturnFits, Fits}
use html5gum.Machine.Safety.Rules.Steps.{HasRoom-le}
use html5gum.MachineHelper.{MachineState, into}
use html5gum.Outcome.{ok}
use html5gum.Reader.Trait.{Reader}
use html5gum.Tokenizer.{Tokenizer, ◌>>=◌, ◌>>◌, pure, unread_byte}

module _ ⦃R : Reader⦄ ⦃E : Emitter⦄ where
  -- What `push_return_state` and `pop_return_state` do where they do not panic.
  abbrev entered : Bool → Tokenizer → Tokenizer
  entered attribute t = record t {
    machine_helper = record (t.machine_helper) {
      return_state = some (t.machine_helper.state, attribute);
    };
  }

  abbrev left : Tokenizer → Tokenizer
  left t = record t { machine_helper = record (t.machine_helper) { return_state = none } }

  push_return_state-none :
      (attribute : Bool) (t : Tokenizer)
      → t.machine_helper.return_state ≡ none
      → Ops.push_return_state attribute t ≡ (ok tt, entered attribute t)
  unfolding Ops.push_return_state
  push_return_state-none attribute t e = rw e refl

  pop_return_state-some :
      (s : MachineState) (attribute : Bool) (t : Tokenizer)
      → t.machine_helper.return_state ≡ some (s, attribute)
      → Ops.pop_return_state t ≡ (ok s, left t)
  unfolding Ops.pop_return_state
  pop_return_state-some s attribute t e = rw e refl

  -- A state inside a reference has a base state to return to.
  returns_to :
      (o : Option (MachineState × Bool))
      → ReturnFits true o
      → (r : MachineState) × (attribute : Bool) × (o ≡ some (r, attribute)) × (is_base r ≡ true)
  returns_to none h = absurd h
  returns_to (some (r, attribute)) h = (r, attribute, refl, h)

base_of :
    (r : MachineState) → is_base r ≡ true → (leb (budget r) 1 ≡ true) × (is_reference r ≡ false)
base_of MachineState.data_state b = (refl, refl)
base_of MachineState.rc_data b = (refl, refl)
base_of MachineState.attribute_value_double_quoted b = (refl, refl)
base_of MachineState.attribute_value_single_quoted b = (refl, refl)
base_of MachineState.attribute_value_unquoted b = (refl, refl)
base_of _ b = cc

-- The state after a tag: the one that the emitter asks for, or the one given.
requested-budget :
    (s' : MachineState) (n : ℕ) (asked : Option State)
    → leb 1 n ≡ true
    → leb (budget s') n ≡ true
    → leb (budget (Ops.requested_or s' asked)) n ≡ true
unfolding into
requested-budget s' n none one enough = enough
requested-budget s' n (some State.data_state) one enough = ground arith
requested-budget s' n (some State.plain_text) one enough = ground arith
requested-budget s' n (some State.rc_data) one enough = ground arith
requested-budget s' n (some State.raw_text) one enough = ground arith
requested-budget s' n (some State.script_data) one enough = ground arith
requested-budget s' n (some State.cdata_section) one enough = one

requested-is_reference :
    (s' : MachineState) (asked : Option State)
    → is_reference s' ≡ false
    → is_reference (Ops.requested_or s' asked) ≡ false
unfolding into
requested-is_reference s' none outside = outside
requested-is_reference s' (some State.data_state) outside = refl
requested-is_reference s' (some State.plain_text) outside = refl
requested-is_reference s' (some State.rc_data) outside = refl
requested-is_reference s' (some State.raw_text) outside = refl
requested-is_reference s' (some State.script_data) outside = refl
requested-is_reference s' (some State.cdata_section) outside = refl

module _ ⦃R : Reader⦄ ⦃E : Emitter⦄ (emits : Bool) where
  base_room :
      (n : ℕ) (r : MachineState) {v : CharValidator}
      → is_base r ≡ true
      → leb 1 n ≡ true
      → HasRoom emits n v
      → HasRoom emits (budget r) v
  base_room n r is enough room =
      HasRoom-le emits (budget r) 1 (base_of r is).0 (HasRoom-le emits 1 n enough room)

  module _ {s : MachineState} {n : ℕ} {c : Option ℕ} where
    pub enter_state-Fits :
        (s' : MachineState) (attribute : Bool)
        → leb (budget s') n ≡ true
        → is_reference s ≡ false
        → is_base s ≡ true
        → is_reference s' ≡ true
        → Fits emits s n c (Ops.enter_state s' attribute)
    unfolding Ops.enter_state Ops.set_state Ops.helper Ops.continue ◌>>◌ pure
    enter_state-Fits s' attribute enough outside base inside = record {
      run = λ t r.
          rw
            (push_return_state-none attribute t
              (subst (λ b. ReturnFits b t.machine_helper.return_state) outside r.returns))
            (record {
              room = HasRoom-le emits (budget s') n enough r.room;
              reconsume = r.reconsume;
              returns =
                  subst (λ b. ReturnFits b (some (t.machine_helper.state, attribute))) (sym inside)
                    (subst (λ x. is_base x ≡ true) (sym r.state_is) base);
            });
    }

    pub exit_state-Fits : leb 1 n ≡ true → is_reference s ≡ true → Fits emits s n c Ops.exit_state
    unfolding Ops.exit_state Ops.set_state Ops.helper Ops.continue ◌>>◌ ◌>>=◌ pure
    exit_state-Fits enough inside = record {
      run = λ t r.
          let (base, attribute, e, is) =
            returns_to t.machine_helper.return_state
              (subst (λ b. ReturnFits b t.machine_helper.return_state) inside r.returns) in
          rw (pop_return_state-some base attribute t e) (record {
            room = base_room n base is enough r.room;
            reconsume = r.reconsume;
            returns = subst (λ b. ReturnFits b none) (sym (base_of base is).1) refl;
          });
    }

    pub reconsume_in_return_state-Fits :
        leb 1 n ≡ true → is_reference s ≡ true → Fits emits s n c (Ops.reconsume_in_return_state c)
    unfolding Ops.reconsume_in_return_state Ops.switch_to unread_byte ◌>>◌ ◌>>=◌ pure
    reconsume_in_return_state-Fits enough inside = record {
      run = λ t r.
          let (base, attribute, e, is) =
            returns_to t.machine_helper.return_state
              (subst (λ b. ReturnFits b t.machine_helper.return_state) inside r.returns) in
          rw (pop_return_state-some base attribute t e) (record {
            room = base_room n base is enough r.room;
            reconsume = r.last;
            returns = subst (λ b. ReturnFits b none) (sym (base_of base is).1) refl;
          });
    }

    pub emit_current_tag_and_switch_to-Fits :
        (s' : MachineState)
        → leb 1 n ≡ true
        → leb (budget s') n ≡ true
        → is_reference s ≡ false
        → is_reference s' ≡ false
        → Fits emits s n c (Ops.emit_current_tag_and_switch_to s')
    unfolding Ops.emit_current_tag_and_switch_to Ops.emit_current_tag Ops.set_state Ops.helper
        Ops.continue ◌>>◌ ◌>>=◌ pure
    emit_current_tag_and_switch_to-Fits s' enough enough' outside outside' = record {
      run = λ t r.
          let asked = (E.emit_current_tag t.emitter).0 in
          let same = requested-is_reference s' asked outside' in
          record {
            room =
                HasRoom-le emits (budget (Ops.requested_or s' asked)) n
                  (requested-budget s' n asked enough enough') r.room;
            reconsume = r.reconsume;
            returns =
                subst (λ b. ReturnFits b t.machine_helper.return_state) (outside ∙ sym same)
                  r.returns;
          };
    }
