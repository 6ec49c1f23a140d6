-- ===== src/Machine/Safety/Rounds/Text.antt =====
-- src/machine.rs: rounds of the states in Machine/Text.antt.
use html5gum.Base.{false, [], ◌∷◌, ℕ}
use html5gum.Tokenizer.{M}
use html5gum.Machine.Ops.{chunk, is_one_of, is_some, replacement_character}
use html5gum.MachineHelper.{
  MachineState, ControlToken, character_reference, raw_text_less_than_sign, rc_data_less_than_sign,
  script_data_less_than_sign, tag_open,
}
use html5gum.Errors.{unexpected_null_character}
use html5gum.Emitter.{Emitter}
use html5gum.Reader.Trait.{Reader}
use html5gum.Machine.Text.{
  round_data_state, run_data_state, round_rc_data, run_rc_data, round_raw_text, run_raw_text,
  round_script_data, run_script_data, round_plain_text, run_plain_text,
}
use html5gum.Base.{Bool, ◌≡◌, refl, Option}
use html5gum.Machine.Safety.Ready.{KeepsReady, Trusted, Fits, IsReady, Ensures, AfterToken, budget}
use html5gum.Machine.Safety.Rules.{goes_on, eof-Fits, switch_to-Fits, inline-Fits, if-Fits}
use html5gum.Machine.Safety.Rules.Neutral.{neutral-then, emit-IsNeutral}
use html5gum.Machine.Safety.Rules.Loops.{loop-Ensures}
use html5gum.Machine.Safety.Rules.Reading.{read_until-then, error-then}
use html5gum.Machine.Safety.Rules.Ascii.{is_one_of-Tells, if_ascii-Fits}
use html5gum.Machine.Safety.Rules.References.{enter_state-Fits}
use html5gum.Tokenizer.{Tokenizer}

module _ ⦃R : Reader⦄ ⦃E : Emitter⦄ (emits : Bool) (trusted : Trusted emits) (fuel : ℕ)
    (call : MachineState → M ControlToken) (keeps : KeepsReady emits call) where
  pub round_data_state-Fits :
      (c : Option ℕ)
      → Fits emits MachineState.data_state
          (budget MachineState.data_state)
          c
          (round_data_state fuel call)
  unfolding round_data_state
  round_data_state-Fits c = read_until-then emits trusted (b'&' ∷ b'<' ∷ 0x00 ∷ []) refl refl (λ xs.
      (if_ascii-Fits emits (is_one_of (b'&' ∷ []) xs) (is_one_of-Tells (b'&' ∷ []) xs refl)
        (enter_state-Fits emits character_reference false refl refl refl refl)
        (if_ascii-Fits emits (is_one_of (b'<' ∷ []) xs) (is_one_of-Tells (b'<' ∷ []) xs refl)
          (inline-Fits emits call tag_open keeps refl refl)
          (if_ascii-Fits emits (is_one_of (0x00 ∷ []) xs) (is_one_of-Tells (0x00 ∷ []) xs refl)
            (error-then emits trusted unexpected_null_character (
              neutral-then emits (emit-IsNeutral emits (E.emit_string (0x00 ∷ [])))
                (goes_on emits refl)))
            (if-Fits emits (is_some xs)
              (neutral-then emits (emit-IsNeutral emits (E.emit_string (chunk xs)))
                (goes_on emits refl))
              (eof-Fits emits))))))

  pub run_data_state-Ensures :
      (t : Tokenizer)
      → IsReady emits MachineState.data_state t
      → t.machine_helper.state ≡ MachineState.data_state
      → Ensures emits (AfterToken emits) (run_data_state fuel call t)
  unfolding run_data_state
  run_data_state-Ensures =
      loop-Ensures emits MachineState.data_state (round_data_state fuel call) round_data_state-Fits
        fuel

  pub round_rc_data-Fits :
      (c : Option ℕ)
      → Fits emits MachineState.rc_data (budget MachineState.rc_data) c (round_rc_data fuel call)
  unfolding round_rc_data
  round_rc_data-Fits c = read_until-then emits trusted (b'&' ∷ b'<' ∷ 0x00 ∷ []) refl refl (λ xs.
      (if_ascii-Fits emits (is_one_of (b'&' ∷ []) xs) (is_one_of-Tells (b'&' ∷ []) xs refl)
        (enter_state-Fits emits character_reference false refl refl refl refl)
        (if_ascii-Fits emits (is_one_of (b'<' ∷ []) xs) (is_one_of-Tells (b'<' ∷ []) xs refl)
          (switch_to-Fits emits rc_data_less_than_sign refl refl)
          (if_ascii-Fits emits (is_one_of (0x00 ∷ []) xs) (is_one_of-Tells (0x00 ∷ []) xs refl)
            (error-then emits trusted unexpected_null_character (
              neutral-then emits (emit-IsNeutral emits (E.emit_string replacement_character))
                (goes_on emits refl)))
            (if-Fits emits (is_some xs)
              (neutral-then emits (emit-IsNeutral emits (E.emit_string (chunk xs)))
                (goes_on emits refl))
              (eof-Fits emits))))))

  pub run_rc_data-Ensures :
      (t : Tokenizer)
      → IsReady emits MachineState.rc_data t
      → t.machine_helper.state ≡ MachineState.rc_data
      → Ensures emits (AfterToken emits) (run_rc_data fuel call t)
  unfolding run_rc_data
  run_rc_data-Ensures =
      loop-Ensures emits MachineState.rc_data (round_rc_data fuel call) round_rc_data-Fits fuel

  pub round_raw_text-Fits :
      (c : Option ℕ)
      → Fits emits MachineState.raw_text (budget MachineState.raw_text) c (round_raw_text fuel call)
  unfolding round_raw_text
  round_raw_text-Fits c = read_until-then emits trusted (b'<' ∷ 0x00 ∷ []) refl refl (λ xs.
      (if_ascii-Fits emits (is_one_of (b'<' ∷ []) xs) (is_one_of-Tells (b'<' ∷ []) xs refl)
        (switch_to-Fits emits raw_text_less_than_sign refl refl)
        (if_ascii-Fits emits (is_one_of (0x00 ∷ []) xs) (is_one_of-Tells (0x00 ∷ []) xs refl)
          (error-then emits trusted unexpected_null_character (
            neutral-then emits (emit-IsNeutral emits (E.emit_string replacement_character))
              (goes_on emits refl)))
          (if-Fits emits (is_some xs)
            (neutral-then emits (emit-IsNeutral emits (E.emit_string (chunk xs)))
              (goes_on emits refl))
            (eof-Fits emits)))))

  pub run_raw_text-Ensures :
      (t : Tokenizer)
      → IsReady emits MachineState.raw_text t
      → t.machine_helper.state ≡ MachineState.raw_text
      → Ensures emits (AfterToken emits) (run_raw_text fuel call t)
  unfolding run_raw_text
  run_raw_text-Ensures =
      loop-Ensures emits MachineState.raw_text (round_raw_text fuel call) round_raw_text-Fits fuel

  pub round_script_data-Fits :
      (c : Option ℕ)
      → Fits emits MachineState.script_data
          (budget MachineState.script_data)
          c
          (round_script_data fuel call)
  unfolding round_script_data
  round_script_data-Fits c = read_until-then emits trusted (b'<' ∷ 0x00 ∷ []) refl refl (λ xs.
      (if_ascii-Fits emits (is_one_of (b'<' ∷ []) xs) (is_one_of-Tells (b'<' ∷ []) xs refl)
        (switch_to-Fits emits script_data_less_than_sign refl refl)
        (if_ascii-Fits emits (is_one_of (0x00 ∷ []) xs) (is_one_of-Tells (0x00 ∷ []) xs refl)
          (error-then emits trusted unexpected_null_character (
            neutral-then emits (emit-IsNeutral emits (E.emit_string replacement_character))
              (goes_on emits refl)))
          (if-Fits emits (is_some xs)
            (neutral-then emits (emit-IsNeutral emits (E.emit_string (chunk xs)))
              (goes_on emits refl))
            (eof-Fits emits)))))

  pub run_script_data-Ensures :
      (t : Tokenizer)
      → IsReady emits MachineState.script_data t
      → t.machine_helper.state ≡ MachineState.script_data
      → Ensures emits (AfterToken emits) (run_script_data fuel call t)
  unfolding run_script_data
  run_script_data-Ensures =
      loop-Ensures emits MachineState.script_data (round_script_data fuel call)
        round_script_data-Fits fuel

  pub round_plain_text-Fits :
      (c : Option ℕ)
      → Fits emits MachineState.plain_text
          (budget MachineState.plain_text)
          c
          (round_plain_text fuel call)
  unfolding round_plain_text
  round_plain_text-Fits c = read_until-then emits trusted (0x00 ∷ []) refl refl (λ xs.
      (if_ascii-Fits emits (is_one_of (0x00 ∷ []) xs) (is_one_of-Tells (0x00 ∷ []) xs refl)
        (error-then emits trusted unexpected_null_character (
          neutral-then emits (emit-IsNeutral emits (E.emit_string replacement_character))
            (goes_on emits refl)))
        (if-Fits emits (is_some xs)
          (neutral-then emits (emit-IsNeutral emits (E.emit_string (chunk xs)))
            (goes_on emits refl))
          (eof-Fits emits))))

  pub run_plain_text-Ensures :
      (t : Tokenizer)
      → IsReady emits MachineState.plain_text t
      → t.machine_helper.state ≡ MachineState.plain_text
      → Ensures emits (AfterToken emits) (run_plain_text fuel call t)
  unfolding run_plain_text
  run_plain_text-Ensures =
      loop-Ensures emits MachineState.plain_text (round_plain_text fuel call) round_plain_text-Fits
        fuel
