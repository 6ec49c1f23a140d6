-- ===== src/Iteration.antt =====
-- src/tokenizer.rs: the construction of a tokenizer, `set_state`, and its iterator.
pub mod Safety
use html5gum.Base.{ℕ, zero, suc, Bool, true, false, List, [], ◌∷◌, Option, none, some}
use html5gum.CharValidator
use html5gum.CharValidator.{flush_character_error}
use html5gum.Emitter.{Emitter, State}
use html5gum.Machine.{run_state}
use html5gum.MachineHelper
use html5gum.MachineHelper.{MachineState, ControlToken, into}
use html5gum.Outcome.{Outcome, ok, err, panic, out_of_fuel}
use html5gum.ReadHelper
use html5gum.Reader.Trait.{Reader}
use html5gum.Tokenizer.{Tokenizer, M, followed_by}

module _ ⦃R : Reader⦄ ⦃E : Emitter⦄ where
  unfoldable pub new_with_emitter : R.Self → E.Self → Tokenizer
  unfolding CharValidator.default ReadHelper.new MachineHelper.default
  new_with_emitter input emitter = record {
    eof = false;
    validator = CharValidator.default;
    emitter = emitter;
    reader = ReadHelper.new input;
    machine_helper = MachineHelper.default;
  }

  unfoldable pub switch_machine : MachineState → Tokenizer → Tokenizer
  switch_machine s t = record t { machine_helper = record (t.machine_helper) { state = s } }

  unfoldable pub set_state : State → Tokenizer → Tokenizer
  unfolding switch_machine into
  set_state s t = switch_machine (into s) t

  -- What `next` does at the end of the input.
  unfoldable pub reach_eof : Tokenizer → Tokenizer
  unfolding flush_character_error
  reach_eof t =
      let (v, e) = flush_character_error t.validator t.emitter in
      record t { validator = v; eof = true; emitter = E.emit_eof e }

  -- The arms of the `match` on what the state's function returned, but for an error.
  unfoldable pub apply_control : ControlToken → Tokenizer → Tokenizer
  unfolding switch_machine reach_eof
  apply_control ControlToken.continue t = t
  apply_control (ControlToken.switch_to s) t = switch_machine s t
  apply_control ControlToken.eof t = reach_eof t

  -- `Iterator::next`: a token, `none` at the end, or the reader's error.
  unfoldable pub next : ℕ → M (Option E.Token)
  unfolding run_state apply_control
  next zero t = (out_of_fuel, t)
  next (suc fuel) t =
      let (popped, e) = E.pop_token t.emitter in
      let u : Tokenizer = record t { emitter = e } in
      elim popped [
        | some token ↦ (ok (some token), u)
        | none ↦ elim u.eof [
          | true ↦ (ok none, u)
          | false ↦
              followed_by (run_state fuel u.machine_helper.state u)
                (λ control w. next fuel (apply_control control w))
        ]
      ]

  -- The tokens of a whole run, `for token in tokenizer`, up to the first error.
  unfoldable pub collect : ℕ → M (List E.Token)
  unfolding next
  collect zero t = (out_of_fuel, t)
  collect (suc fuel) t = followed_by (next fuel t) (λ item u. elim item [
    | none ↦ (ok [], u)
    | some token ↦ followed_by (collect fuel u) (λ tokens w. (ok (token ∷ tokens), w))
  ])
