-- ===== src/Machine/Safety/Rounds/Cdata.antt =====
-- src/machine.rs: rounds of the states in Machine/Cdata.antt.
use html5gum.Base.{[], ◌∷◌, ℕ}
use html5gum.Base.Bytes.{codes}
use html5gum.Tokenizer.{M}
use html5gum.Machine.Ops.{chunk, is_any, is_one_of, is_some}
use html5gum.MachineHelper.{
  MachineState, ControlToken, cdata_section, cdata_section_bracket, cdata_section_end, data_state,
}
use html5gum.Errors.{eof_in_cdata}
use html5gum.Emitter.{Emitter}
use html5gum.Reader.Trait.{Reader}
use html5gum.Machine.Cdata.{
  round_cdata_section, run_cdata_section, round_cdata_section_bracket, run_cdata_section_bracket,
  round_cdata_section_end, run_cdata_section_end,
}
use html5gum.Base.{Bool, ◌≡◌, refl, Option}
use html5gum.Machine.Safety.Ready.{KeepsReady, Trusted, Fits, IsReady, Ensures, AfterToken, budget}
use html5gum.Machine.Safety.Rules.{goes_on, eof-Fits, switch_to-Fits, reconsume_in-Fits, if-Fits}
use html5gum.Machine.Safety.Rules.Neutral.{neutral-then, emit-IsNeutral}
use html5gum.Machine.Safety.Rules.Loops.{loop-Ensures}
use html5gum.Machine.Safety.Rules.Reading.{read_byte-then, read_until-then, error-then}
use html5gum.Machine.Safety.Rules.Ascii.{is_any-Tells, is_one_of-Tells, if_ascii-Fits}
use html5gum.Tokenizer.{Tokenizer}

module _ ⦃R : Reader⦄ ⦃E : Emitter⦄ (emits : Bool) (trusted : Trusted emits) (fuel : ℕ)
    (call : MachineState → M ControlToken) (keeps : KeepsReady emits call) where
  pub round_cdata_section-Fits :
      (c : Option ℕ)
      → Fits emits MachineState.cdata_section
          (budget MachineState.cdata_section)
          c
          (round_cdata_section fuel call)
  unfolding round_cdata_section
  round_cdata_section-Fits c = read_until-then emits trusted (b']' ∷ []) refl refl (λ xs.
      (if_ascii-Fits emits (is_one_of (b']' ∷ []) xs) (is_one_of-Tells (b']' ∷ []) xs refl)
        (switch_to-Fits emits cdata_section_bracket refl refl)
        (if-Fits emits (is_some xs)
          (neutral-then emits (emit-IsNeutral emits (E.emit_string (chunk xs)))
            (goes_on emits refl))
          (error-then emits trusted eof_in_cdata (eof-Fits emits)))))

  pub run_cdata_section-Ensures :
      (t : Tokenizer)
      → IsReady emits MachineState.cdata_section t
      → t.machine_helper.state ≡ MachineState.cdata_section
      → Ensures emits (AfterToken emits) (run_cdata_section fuel call t)
  unfolding run_cdata_section
  run_cdata_section-Ensures =
      loop-Ensures emits MachineState.cdata_section (round_cdata_section fuel call)
        round_cdata_section-Fits fuel

  pub round_cdata_section_bracket-Fits :
      (c : Option ℕ)
      → Fits emits MachineState.cdata_section_bracket
          (budget MachineState.cdata_section_bracket)
          c
          (round_cdata_section_bracket fuel call)
  unfolding round_cdata_section_bracket
  round_cdata_section_bracket-Fits c = read_byte-then emits trusted refl (λ c.
      (if_ascii-Fits emits (is_any (b']' ∷ []) c) (is_any-Tells (b']' ∷ []) c refl)
        (switch_to-Fits emits cdata_section_end refl refl)
        (neutral-then emits (emit-IsNeutral emits (E.emit_string (codes "]")))
          (reconsume_in-Fits emits cdata_section refl refl))))

  pub run_cdata_section_bracket-Ensures :
      (t : Tokenizer)
      → IsReady emits MachineState.cdata_section_bracket t
      → t.machine_helper.state ≡ MachineState.cdata_section_bracket
      → Ensures emits (AfterToken emits) (run_cdata_section_bracket fuel call t)
  unfolding run_cdata_section_bracket
  run_cdata_section_bracket-Ensures =
      loop-Ensures emits MachineState.cdata_section_bracket (round_cdata_section_bracket fuel call)
        round_cdata_section_bracket-Fits fuel

  pub round_cdata_section_end-Fits :
      (c : Option ℕ)
      → Fits emits MachineState.cdata_section_end
          (budget MachineState.cdata_section_end)
          c
          (round_cdata_section_end fuel call)
  unfolding round_cdata_section_end
  round_cdata_section_end-Fits c = read_byte-then emits trusted refl (λ c.
      (if_ascii-Fits emits (is_any (b']' ∷ []) c) (is_any-Tells (b']' ∷ []) c refl)
        (neutral-then emits (emit-IsNeutral emits (E.emit_string (codes "]"))) (goes_on emits refl))
        (if_ascii-Fits emits (is_any (b'>' ∷ []) c) (is_any-Tells (b'>' ∷ []) c refl)
          (switch_to-Fits emits data_state refl refl)
          (neutral-then emits (emit-IsNeutral emits (E.emit_string (codes "]]")))
            (reconsume_in-Fits emits cdata_section refl refl)))))

  pub run_cdata_section_end-Ensures :
      (t : Tokenizer)
      → IsReady emits MachineState.cdata_section_end t
      → t.machine_helper.state ≡ MachineState.cdata_section_end
      → Ensures emits (AfterToken emits) (run_cdata_section_end fuel call t)
  unfolding run_cdata_section_end
  run_cdata_section_end-Ensures =
      loop-Ensures emits MachineState.cdata_section_end (round_cdata_section_end fuel call)
        round_cdata_section_end-Fits fuel
