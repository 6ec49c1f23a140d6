-- ===== src/Machine/Safety/Rounds/CharRefEnds.antt =====
-- src/machine.rs: rounds of the states in Machine/CharRefs.antt.
use html5gum.Base.{not, ◌||◌, none, ℕ, Option, some}
use html5gum.Tokenizer.{M, ◌>>◌}
use html5gum.Machine.Ops.{
  exit_state, flush_code_points_consumed_as_character_reference, holds, push_buffer,
}
use html5gum.Machine.Safety.Rules.Entries.{
  read_reference-then, report-then, choose_buffer-then, from_u32_unwrap-then,
}
use html5gum.MachineHelper.{MachineState, ControlToken, ambiguous_ampersand}
use html5gum.Emitter.{Emitter}
use html5gum.Reader.Trait.{Reader}
use html5gum.Entities.{CharRef}
use html5gum.Machine.Reference.{end_code, end_error, ends_with_semicolon, is_word_or_equals}
use html5gum.Utils.{encode_utf8}
use html5gum.Machine.CharRefs.{
  found_reference, no_reference, round_named_character_reference, run_named_character_reference,
  round_numeric_character_reference_end, run_numeric_character_reference_end,
}
use html5gum.Base.{Bool, ◌≡◌, refl}
use html5gum.Machine.Safety.Ready.{KeepsReady, Trusted, Fits, IsReady, Ensures, AfterToken}
use html5gum.Machine.Safety.Rules.{reconsume_in-Fits}
use html5gum.Machine.Safety.Rules.Neutral.{
  neutral-bind, neutral-then, clear_buffer-IsNeutral, push_buffer-IsNeutral, set_code-IsNeutral,
  get_code-IsNeutral, is_consumed_as_part_of_an_attribute-IsNeutral,
  flush_code_points_consumed_as_character_reference-IsNeutral,
}
use html5gum.Machine.Safety.Rules.Loops.{loop-Ensures}
use html5gum.Machine.Safety.Rules.Reading.{read_byte-then}
use html5gum.Machine.Safety.Rules.References.{exit_state-Fits, reconsume_in_return_state-Fits}
use html5gum.Tokenizer.{Tokenizer}

module _ ⦃R : Reader⦄ ⦃E : Emitter⦄ (emits : Bool) (trusted : Trusted emits) (fuel : ℕ)
    (call : MachineState → M ControlToken) (keeps : KeepsReady emits call) where
  found_reference-Fits :
      (x : Option ℕ) (char_ref : CharRef) (c : Option ℕ)
      → Fits emits MachineState.named_character_reference 2 c (found_reference fuel call x char_ref)
  unfolding found_reference
  found_reference-Fits x char_ref c = read_byte-then emits trusted refl (λ next_character.
      neutral-bind emits (is_consumed_as_part_of_an_attribute-IsNeutral emits) (λ attribute.
        choose_buffer-then emits trusted fuel call
          (not attribute
            || ends_with_semicolon char_ref.name
            || not (holds is_word_or_equals next_character))
          x char_ref
          (neutral-then emits (flush_code_points_consumed_as_character_reference-IsNeutral emits)
            (reconsume_in_return_state-Fits emits refl refl))))

  no_reference-Fits :
      (c : Option ℕ)
      → Fits emits MachineState.named_character_reference 2 c (no_reference fuel call c)
  unfolding no_reference
  no_reference-Fits c =
      neutral-then emits (flush_code_points_consumed_as_character_reference-IsNeutral emits)
        (reconsume_in-Fits emits ambiguous_ampersand refl refl)

  pub round_named_character_reference-Fits :
      (c : Option ℕ)
      → Fits emits MachineState.named_character_reference 2 c
          (round_named_character_reference fuel call)
  unfolding round_named_character_reference
  round_named_character_reference-Fits c =
      read_byte-then emits trusted refl
        (λ x. read_reference-then emits trusted fuel call x refl (go x))
    where
      go :
          (x : Option ℕ) (o : Option CharRef)
          → Fits emits MachineState.named_character_reference 2 x
              (elim o [ none ↦ no_reference fuel call x | some r ↦ found_reference fuel call x r ])
      go x none = no_reference-Fits x
      go x (some r) = found_reference-Fits x r x

  pub round_numeric_character_reference_end-Fits :
      (c : Option ℕ)
      → Fits emits MachineState.numeric_character_reference_end 2 c
          (round_numeric_character_reference_end fuel call)
  unfolding round_numeric_character_reference_end
  round_numeric_character_reference_end-Fits c =
      neutral-bind emits (get_code-IsNeutral emits) (λ code.
        report-then emits trusted fuel call (end_error code) (
          neutral-then emits (set_code-IsNeutral emits (end_code code)) (
            neutral-then emits (clear_buffer-IsNeutral emits) (
              from_u32_unwrap-then emits trusted fuel call
                (λ x. do
                  push_buffer (encode_utf8 x)
                  flush_code_points_consumed_as_character_reference
                  exit_state)
                code
                (neutral-then emits (push_buffer-IsNeutral emits (encode_utf8 (end_code code))) (
                  neutral-then emits
                    (flush_code_points_consumed_as_character_reference-IsNeutral emits)
                    (exit_state-Fits emits refl refl)))))))

  pub run_named_character_reference-Ensures :
      (t : Tokenizer)
      → IsReady emits MachineState.named_character_reference t
      → t.machine_helper.state ≡ MachineState.named_character_reference
      → Ensures emits (AfterToken emits) (run_named_character_reference fuel call t)
  unfolding run_named_character_reference
  run_named_character_reference-Ensures =
      loop-Ensures emits MachineState.named_character_reference
        (round_named_character_reference fuel call) round_named_character_reference-Fits fuel

  pub run_numeric_character_reference_end-Ensures :
      (t : Tokenizer)
      → IsReady emits MachineState.numeric_character_reference_end t
      → t.machine_helper.state ≡ MachineState.numeric_character_reference_end
      → Ensures emits (AfterToken emits) (run_numeric_character_reference_end fuel call t)
  unfolding run_numeric_character_reference_end
  run_numeric_character_reference_end-Ensures =
      loop-Ensures emits MachineState.numeric_character_reference_end
        (round_numeric_character_reference_end fuel call) round_numeric_character_reference_end-Fits
        fuel
