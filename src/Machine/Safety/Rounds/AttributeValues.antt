-- ===== src/Machine/Safety/Rounds/AttributeValues.antt =====
-- src/machine.rs: rounds of the states in Machine/Attributes.antt.
use html5gum.Base.{true, ◌||◌, [], ◌∷◌, ℕ}
use html5gum.Tokenizer.{M, ◌>>=◌, ◌>>◌, emit, error}
use html5gum.Machine.Ops.{
  chunk, cont, unwrap, is_any, is_none, is_one_of, is_some, replacement_character,
}
use html5gum.MachineHelper.{
  MachineState, ControlToken, after_attribute_value_quoted, before_attribute_name,
  character_reference, data_state,
}
use html5gum.Errors.{
  eof_in_tag, missing_whitespace_between_attributes,
  unexpected_character_in_unquoted_attribute_value, unexpected_null_character,
}
use html5gum.Emitter.{Emitter}
use html5gum.Reader.Trait.{Reader}
use html5gum.Machine.Attributes.{
  round_attribute_value_double_quoted, run_attribute_value_double_quoted,
  round_attribute_value_single_quoted, run_attribute_value_single_quoted,
  round_attribute_value_unquoted, run_attribute_value_unquoted, round_after_attribute_value_quoted,
  run_after_attribute_value_quoted,
}
use html5gum.Base.{Bool, ◌≡◌, refl, Option}
use html5gum.Machine.Safety.Ready.{KeepsReady, Trusted, Fits, IsReady, Ensures, AfterToken, budget}
use html5gum.Machine.Safety.Rules.{
  goes_on, eof-Fits, switch_to-Fits, unread-then, reconsume_in-Fits, inline-Fits, if-Fits,
}
use html5gum.Machine.Safety.Rules.Neutral.{neutral-then, emit-IsNeutral, unwrap-then}
use html5gum.Machine.Safety.Rules.Loops.{loop-Ensures}
use html5gum.Machine.Safety.Rules.Reading.{read_byte-then, read_until-then, error-then}
use html5gum.Machine.Safety.Rules.Ascii.{is_one_of-Tells, if_ascii-Fits, one_of-Fits}
use html5gum.Machine.Safety.Rules.References.{enter_state-Fits, emit_current_tag_and_switch_to-Fits}
use html5gum.Tokenizer.{Tokenizer}

module _ ⦃R : Reader⦄ ⦃E : Emitter⦄ (emits : Bool) (trusted : Trusted emits) (fuel : ℕ)
    (call : MachineState → M ControlToken) (keeps : KeepsReady emits call) where
  pub round_attribute_value_double_quoted-Fits :
      (c : Option ℕ)
      → Fits emits MachineState.attribute_value_double_quoted
          (budget MachineState.attribute_value_double_quoted)
          c
          (round_attribute_value_double_quoted fuel call)
  unfolding round_attribute_value_double_quoted
  round_attribute_value_double_quoted-Fits c =
      read_until-then emits trusted (0x22 ∷ b'&' ∷ 0x00 ∷ []) refl refl (λ xs.
        (if_ascii-Fits emits (is_one_of (0x22 ∷ []) xs) (is_one_of-Tells (0x22 ∷ []) xs refl)
          (inline-Fits emits call after_attribute_value_quoted keeps refl refl)
          (if_ascii-Fits emits (is_one_of (b'&' ∷ []) xs) (is_one_of-Tells (b'&' ∷ []) xs refl)
            (enter_state-Fits emits character_reference true refl refl refl refl)
            (if_ascii-Fits emits (is_one_of (0x00 ∷ []) xs) (is_one_of-Tells (0x00 ∷ []) xs refl)
              (error-then emits trusted unexpected_null_character (
                neutral-then emits
                  (emit-IsNeutral emits (E.push_attribute_value replacement_character))
                  (goes_on emits refl)))
              (if-Fits emits (is_some xs)
                (neutral-then emits (emit-IsNeutral emits (E.push_attribute_value (chunk xs)))
                  (goes_on emits refl))
                (error-then emits trusted eof_in_tag (eof-Fits emits)))))))

  pub run_attribute_value_double_quoted-Ensures :
      (t : Tokenizer)
      → IsReady emits MachineState.attribute_value_double_quoted t
      → t.machine_helper.state ≡ MachineState.attribute_value_double_quoted
      → Ensures emits (AfterToken emits) (run_attribute_value_double_quoted fuel call t)
  unfolding run_attribute_value_double_quoted
  run_attribute_value_double_quoted-Ensures =
      loop-Ensures emits MachineState.attribute_value_double_quoted
        (round_attribute_value_double_quoted fuel call) round_attribute_value_double_quoted-Fits
        fuel

  pub round_attribute_value_single_quoted-Fits :
      (c : Option ℕ)
      → Fits emits MachineState.attribute_value_single_quoted
          (budget MachineState.attribute_value_single_quoted)
          c
          (round_attribute_value_single_quoted fuel call)
  unfolding round_attribute_value_single_quoted
  round_attribute_value_single_quoted-Fits c =
      read_until-then emits trusted (0x27 ∷ b'&' ∷ 0x00 ∷ []) refl refl (λ xs.
        (if_ascii-Fits emits (is_one_of (0x27 ∷ []) xs) (is_one_of-Tells (0x27 ∷ []) xs refl)
          (switch_to-Fits emits after_attribute_value_quoted refl refl)
          (if_ascii-Fits emits (is_one_of (b'&' ∷ []) xs) (is_one_of-Tells (b'&' ∷ []) xs refl)
            (enter_state-Fits emits character_reference true refl refl refl refl)
            (if_ascii-Fits emits (is_one_of (0x00 ∷ []) xs) (is_one_of-Tells (0x00 ∷ []) xs refl)
              (error-then emits trusted unexpected_null_character (
                neutral-then emits
                  (emit-IsNeutral emits (E.push_attribute_value replacement_character))
                  (goes_on emits refl)))
              (if-Fits emits (is_some xs)
                (neutral-then emits (emit-IsNeutral emits (E.push_attribute_value (chunk xs)))
                  (goes_on emits refl))
                (error-then emits trusted eof_in_tag (eof-Fits emits)))))))

  pub run_attribute_value_single_quoted-Ensures :
      (t : Tokenizer)
      → IsReady emits MachineState.attribute_value_single_quoted t
      → t.machine_helper.state ≡ MachineState.attribute_value_single_quoted
      → Ensures emits (AfterToken emits) (run_attribute_value_single_quoted fuel call t)
  unfolding run_attribute_value_single_quoted
  run_attribute_value_single_quoted-Ensures =
      loop-Ensures emits MachineState.attribute_value_single_quoted
        (round_attribute_value_single_quoted fuel call) round_attribute_value_single_quoted-Fits
        fuel

  pub round_attribute_value_unquoted-Fits :
      (c : Option ℕ)
      → Fits emits MachineState.attribute_value_unquoted
          (budget MachineState.attribute_value_unquoted)
          c
          (round_attribute_value_unquoted fuel call)
  unfolding round_attribute_value_unquoted
  round_attribute_value_unquoted-Fits c =
      read_until-then emits trusted
        (0x09 ∷ 0x0a ∷ 0x0c ∷ b' ' ∷ b'&' ∷ b'>' ∷ 0x00 ∷ 0x22 ∷ 0x27 ∷ b'<' ∷ b'=' ∷ 0x60 ∷ [])
        refl refl
        (λ xs.
          (if_ascii-Fits emits (is_one_of (0x09 ∷ 0x0a ∷ 0x0c ∷ b' ' ∷ []) xs)
            (is_one_of-Tells (0x09 ∷ 0x0a ∷ 0x0c ∷ b' ' ∷ []) xs refl)
            (switch_to-Fits emits before_attribute_name refl refl)
            (if_ascii-Fits emits (is_one_of (b'&' ∷ []) xs) (is_one_of-Tells (b'&' ∷ []) xs refl)
              (enter_state-Fits emits character_reference true refl refl refl refl)
              (if_ascii-Fits emits (is_one_of (b'>' ∷ []) xs) (is_one_of-Tells (b'>' ∷ []) xs refl)
                (emit_current_tag_and_switch_to-Fits emits data_state refl refl refl refl)
                (if_ascii-Fits emits (is_one_of (0x00 ∷ []) xs)
                  (is_one_of-Tells (0x00 ∷ []) xs refl)
                  (error-then emits trusted unexpected_null_character (
                    neutral-then emits
                      (emit-IsNeutral emits (E.push_attribute_value replacement_character))
                      (goes_on emits refl)))
                  (one_of-Fits emits (0x22 ∷ 0x27 ∷ b'<' ∷ b'=' ∷ 0x60 ∷ []) xs
                    (λ xs. (do
                      error unexpected_character_in_unquoted_attribute_value
                      ys ← unwrap xs
                      emit (E.push_attribute_value ys)
                      cont))
                    refl
                    (λ x.
                      (error-then emits trusted unexpected_character_in_unquoted_attribute_value (
                        unwrap-then emits _ (x ∷ []) (
                          neutral-then emits
                            (emit-IsNeutral emits (E.push_attribute_value (x ∷ [])))
                            (goes_on emits refl)))))
                    (if-Fits emits (is_some xs)
                      (neutral-then emits (emit-IsNeutral emits (E.push_attribute_value (chunk xs)))
                        (goes_on emits refl))
                      (error-then emits trusted eof_in_tag (eof-Fits emits)))))))))

  pub run_attribute_value_unquoted-Ensures :
      (t : Tokenizer)
      → IsReady emits MachineState.attribute_value_unquoted t
      → t.machine_helper.state ≡ MachineState.attribute_value_unquoted
      → Ensures emits (AfterToken emits) (run_attribute_value_unquoted fuel call t)
  unfolding run_attribute_value_unquoted
  run_attribute_value_unquoted-Ensures =
      loop-Ensures emits MachineState.attribute_value_unquoted
        (round_attribute_value_unquoted fuel call) round_attribute_value_unquoted-Fits fuel

  pub round_after_attribute_value_quoted-Fits :
      (c : Option ℕ)
      → Fits emits MachineState.after_attribute_value_quoted
          (budget MachineState.after_attribute_value_quoted)
          c
          (round_after_attribute_value_quoted fuel call)
  unfolding round_after_attribute_value_quoted
  round_after_attribute_value_quoted-Fits c = read_byte-then emits trusted refl (λ c.
      (if-Fits emits (is_any (0x09 ∷ 0x0a ∷ 0x0c ∷ b' ' ∷ b'/' ∷ b'>' ∷ []) c || is_none c)
        (unread-then emits (inline-Fits emits call before_attribute_name keeps refl refl))
        (error-then emits trusted missing_whitespace_between_attributes
          (reconsume_in-Fits emits before_attribute_name refl refl))))

  pub run_after_attribute_value_quoted-Ensures :
      (t : Tokenizer)
      → IsReady emits MachineState.after_attribute_value_quoted t
      → t.machine_helper.state ≡ MachineState.after_attribute_value_quoted
      → Ensures emits (AfterToken emits) (run_after_attribute_value_quoted fuel call t)
  unfolding run_after_attribute_value_quoted
  run_after_attribute_value_quoted-Ensures =
      loop-Ensures emits MachineState.after_attribute_value_quoted
        (round_after_attribute_value_quoted fuel call) round_after_attribute_value_quoted-Fits fuel
