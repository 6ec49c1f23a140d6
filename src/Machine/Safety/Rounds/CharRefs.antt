-- ===== src/Machine/Safety/Rounds/CharRefs.antt =====
-- src/machine.rs: rounds of the states in Machine/CharRefs.antt.
use html5gum.Base.{◌||◌, [], ◌∷◌, ℕ, Option}
use html5gum.Base.Bytes.{is_ascii_alphanumeric}
use html5gum.Tokenizer.{M, ◌>>◌}
use html5gum.Machine.Ops.{bytes, clear_buffer, holds, is_any, is_in, loop, push_buffer, set_code}
use html5gum.MachineHelper.{
  MachineState, ControlToken, decimal_character_reference, hexadecimal_character_reference,
  hexadecimal_character_reference_start, named_character_reference, numeric_character_reference,
  numeric_character_reference_end,
}
use html5gum.Errors.{
  absence_of_digits_in_numeric_character_reference, missing_semicolon_after_character_reference,
  unknown_named_character_reference,
}
use html5gum.Emitter.{Emitter}
use html5gum.Reader.Trait.{Reader}
use html5gum.Machine.CharRefs.{
  round_character_reference, run_character_reference, round_ambiguous_ampersand,
  run_ambiguous_ampersand, round_numeric_character_reference, run_numeric_character_reference,
  round_hexadecimal_character_reference_start, run_hexadecimal_character_reference_start,
  round_hexadecimal_character_reference, run_hexadecimal_character_reference,
  round_decimal_character_reference, run_decimal_character_reference,
}
use html5gum.Base.{Bool, ◌≡◌, refl}
use html5gum.Machine.Safety.Ready.{KeepsReady, Trusted, Fits, IsReady, Ensures, AfterToken, budget}
use html5gum.Machine.Safety.Rules.{goes_on, switch_to-Fits, reconsume_in-Fits, if-Fits}
use html5gum.Machine.Safety.Rules.Neutral.{
  neutral-bind, neutral-then, emit-IsNeutral, clear_buffer-IsNeutral, push_buffer-IsNeutral,
  set_code-IsNeutral, is_consumed_as_part_of_an_attribute-IsNeutral,
  flush_code_points_consumed_as_character_reference-IsNeutral,
}
use html5gum.Machine.Safety.Rules.Loops.{loop-Ensures, then-Ensures}
use html5gum.Machine.Safety.Rules.Reading.{read_byte-then, error-then}
use html5gum.Machine.Safety.Rules.Ascii.{
  is_any-Tells, is_in-Tells, alphanumeric-Tells, or-Tells, if_ascii-Fits, digit-Fits,
}
use html5gum.Machine.Safety.Rules.References.{reconsume_in_return_state-Fits}
use html5gum.Tokenizer.{Tokenizer}

module _ ⦃R : Reader⦄ ⦃E : Emitter⦄ (emits : Bool) (trusted : Trusted emits) (fuel : ℕ)
    (call : MachineState → M ControlToken) (keeps : KeepsReady emits call) where
  pub round_character_reference-Fits :
      (c : Option ℕ)
      → Fits emits MachineState.character_reference
          (budget MachineState.character_reference)
          c
          (round_character_reference fuel call)
  unfolding round_character_reference
  round_character_reference-Fits c = read_byte-then emits trusted refl (λ c.
      (if_ascii-Fits emits (holds is_ascii_alphanumeric c) (alphanumeric-Tells c)
        (reconsume_in-Fits emits named_character_reference refl refl)
        (if_ascii-Fits emits (is_any (b'#' ∷ []) c) (is_any-Tells (b'#' ∷ []) c refl)
          (neutral-then emits (push_buffer-IsNeutral emits (b'#' ∷ []))
            (switch_to-Fits emits numeric_character_reference refl refl))
          (neutral-then emits (flush_code_points_consumed_as_character_reference-IsNeutral emits)
            (reconsume_in_return_state-Fits emits refl refl)))))

  pub run_character_reference-Ensures :
      (t : Tokenizer)
      → IsReady emits MachineState.character_reference t
      → t.machine_helper.state ≡ MachineState.character_reference
      → Ensures emits (AfterToken emits) (run_character_reference fuel call t)
  unfolding run_character_reference
  run_character_reference-Ensures =
      then-Ensures emits clear_buffer
        (push_buffer (b'&' ∷ []) >> loop fuel (round_character_reference fuel call))
        MachineState.character_reference (clear_buffer-IsNeutral emits)
        (then-Ensures emits (push_buffer (b'&' ∷ []))
          (loop fuel (round_character_reference fuel call)) MachineState.character_reference
          (push_buffer-IsNeutral emits (b'&' ∷ []))
          (loop-Ensures emits MachineState.character_reference (round_character_reference fuel call)
            round_character_reference-Fits fuel))

  pub round_ambiguous_ampersand-Fits :
      (c : Option ℕ)
      → Fits emits MachineState.ambiguous_ampersand
          (budget MachineState.ambiguous_ampersand)
          c
          (round_ambiguous_ampersand fuel call)
  unfolding round_ambiguous_ampersand
  round_ambiguous_ampersand-Fits c = read_byte-then emits trusted refl (λ c.
      (neutral-bind emits (is_consumed_as_part_of_an_attribute-IsNeutral emits) (λ attribute.
        (if_ascii-Fits emits (holds is_ascii_alphanumeric c) (alphanumeric-Tells c)
          (if-Fits emits (attribute)
            (neutral-then emits (emit-IsNeutral emits (E.push_attribute_value (bytes c)))
              (goes_on emits refl))
            (neutral-then emits (emit-IsNeutral emits (E.emit_string (bytes c)))
              (goes_on emits refl)))
          (if_ascii-Fits emits (is_any (b';' ∷ []) c) (is_any-Tells (b';' ∷ []) c refl)
            (error-then emits trusted unknown_named_character_reference
              (reconsume_in_return_state-Fits emits refl refl))
            (reconsume_in_return_state-Fits emits refl refl))))))

  pub run_ambiguous_ampersand-Ensures :
      (t : Tokenizer)
      → IsReady emits MachineState.ambiguous_ampersand t
      → t.machine_helper.state ≡ MachineState.ambiguous_ampersand
      → Ensures emits (AfterToken emits) (run_ambiguous_ampersand fuel call t)
  unfolding run_ambiguous_ampersand
  run_ambiguous_ampersand-Ensures =
      loop-Ensures emits MachineState.ambiguous_ampersand (round_ambiguous_ampersand fuel call)
        round_ambiguous_ampersand-Fits fuel

  pub round_numeric_character_reference-Fits :
      (c : Option ℕ)
      → Fits emits MachineState.numeric_character_reference
          (budget MachineState.numeric_character_reference)
          c
          (round_numeric_character_reference fuel call)
  unfolding round_numeric_character_reference
  round_numeric_character_reference-Fits c = read_byte-then emits trusted refl (λ c.
      (if_ascii-Fits emits (is_any (b'x' ∷ b'X' ∷ []) c) (is_any-Tells (b'x' ∷ b'X' ∷ []) c refl)
        (neutral-then emits (push_buffer-IsNeutral emits (bytes c))
          (switch_to-Fits emits hexadecimal_character_reference_start refl refl))
        (if_ascii-Fits emits (is_in b'0' b'9' c) (is_in-Tells b'0' b'9' c refl)
          (reconsume_in-Fits emits decimal_character_reference refl refl)
          (error-then emits trusted absence_of_digits_in_numeric_character_reference (
            neutral-then emits (flush_code_points_consumed_as_character_reference-IsNeutral emits)
              (reconsume_in_return_state-Fits emits refl refl))))))

  pub run_numeric_character_reference-Ensures :
      (t : Tokenizer)
      → IsReady emits MachineState.numeric_character_reference t
      → t.machine_helper.state ≡ MachineState.numeric_character_reference
      → Ensures emits (AfterToken emits) (run_numeric_character_reference fuel call t)
  unfolding run_numeric_character_reference
  run_numeric_character_reference-Ensures =
      then-Ensures emits (set_code 0) (loop fuel (round_numeric_character_reference fuel call))
        MachineState.numeric_character_reference (set_code-IsNeutral emits 0)
        (loop-Ensures emits MachineState.numeric_character_reference
          (round_numeric_character_reference fuel call) round_numeric_character_reference-Fits fuel)

  pub round_hexadecimal_character_reference_start-Fits :
      (c : Option ℕ)
      → Fits emits MachineState.hexadecimal_character_reference_start
          (budget MachineState.hexadecimal_character_reference_start)
          c
          (round_hexadecimal_character_reference_start fuel call)
  unfolding round_hexadecimal_character_reference_start
  round_hexadecimal_character_reference_start-Fits c = read_byte-then emits trusted refl (λ c.
      (if_ascii-Fits emits (is_in b'0' b'9' c || is_in b'A' b'F' c || is_in b'a' b'f' c)
        (or-Tells (is_in b'0' b'9' c || is_in b'A' b'F' c) (is_in b'a' b'f' c) c
          (or-Tells (is_in b'0' b'9' c) (is_in b'A' b'F' c) c (is_in-Tells b'0' b'9' c refl)
            (is_in-Tells b'A' b'F' c refl))
          (is_in-Tells b'a' b'f' c refl))
        (reconsume_in-Fits emits hexadecimal_character_reference refl refl)
        (error-then emits trusted absence_of_digits_in_numeric_character_reference (
          neutral-then emits (flush_code_points_consumed_as_character_reference-IsNeutral emits)
            (reconsume_in_return_state-Fits emits refl refl)))))

  pub run_hexadecimal_character_reference_start-Ensures :
      (t : Tokenizer)
      → IsReady emits MachineState.hexadecimal_character_reference_start t
      → t.machine_helper.state ≡ MachineState.hexadecimal_character_reference_start
      → Ensures emits (AfterToken emits) (run_hexadecimal_character_reference_start fuel call t)
  unfolding run_hexadecimal_character_reference_start
  run_hexadecimal_character_reference_start-Ensures =
      loop-Ensures emits MachineState.hexadecimal_character_reference_start
        (round_hexadecimal_character_reference_start fuel call)
        round_hexadecimal_character_reference_start-Fits fuel

  pub round_hexadecimal_character_reference-Fits :
      (c : Option ℕ)
      → Fits emits MachineState.hexadecimal_character_reference
          (budget MachineState.hexadecimal_character_reference)
          c
          (round_hexadecimal_character_reference fuel call)
  unfolding round_hexadecimal_character_reference
  round_hexadecimal_character_reference-Fits c = read_byte-then emits trusted refl (λ c.
      (digit-Fits emits b'0' b'9' 16 0x0030 refl refl (goes_on emits refl) (
        digit-Fits emits b'A' b'F' 16 0x0037 refl refl (goes_on emits refl) (
          digit-Fits emits b'a' b'f' 16 0x0057 refl refl (goes_on emits refl) (
            if_ascii-Fits emits (is_any (b';' ∷ []) c) (is_any-Tells (b';' ∷ []) c refl)
              (switch_to-Fits emits numeric_character_reference_end refl refl)
              (error-then emits trusted missing_semicolon_after_character_reference
                (reconsume_in-Fits emits numeric_character_reference_end refl refl)))))))

  pub run_hexadecimal_character_reference-Ensures :
      (t : Tokenizer)
      → IsReady emits MachineState.hexadecimal_character_reference t
      → t.machine_helper.state ≡ MachineState.hexadecimal_character_reference
      → Ensures emits (AfterToken emits) (run_hexadecimal_character_reference fuel call t)
  unfolding run_hexadecimal_character_reference
  run_hexadecimal_character_reference-Ensures =
      loop-Ensures emits MachineState.hexadecimal_character_reference
        (round_hexadecimal_character_reference fuel call) round_hexadecimal_character_reference-Fits
        fuel

  pub round_decimal_character_reference-Fits :
      (c : Option ℕ)
      → Fits emits MachineState.decimal_character_reference
          (budget MachineState.decimal_character_reference)
          c
          (round_decimal_character_reference fuel call)
  unfolding round_decimal_character_reference
  round_decimal_character_reference-Fits c = read_byte-then emits trusted refl (λ c.
      (digit-Fits emits b'0' b'9' 10 0x0030 refl refl (goes_on emits refl) (
        if_ascii-Fits emits (is_any (b';' ∷ []) c) (is_any-Tells (b';' ∷ []) c refl)
          (switch_to-Fits emits numeric_character_reference_end refl refl)
          (error-then emits trusted missing_semicolon_after_character_reference
            (reconsume_in-Fits emits numeric_character_reference_end refl refl)))))

  pub run_decimal_character_reference-Ensures :
      (t : Tokenizer)
      → IsReady emits MachineState.decimal_character_reference t
      → t.machine_helper.state ≡ MachineState.decimal_character_reference
      → Ensures emits (AfterToken emits) (run_decimal_character_reference fuel call t)
  unfolding run_decimal_character_reference
  run_decimal_character_reference-Ensures =
      loop-Ensures emits MachineState.decimal_character_reference
        (round_decimal_character_reference fuel call) round_decimal_character_reference-Fits fuel
