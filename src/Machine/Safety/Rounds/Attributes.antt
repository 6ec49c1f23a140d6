-- ===== src/Machine/Safety/Rounds/Attributes.antt =====
-- src/machine.rs: rounds of the states in Machine/Attributes.antt.
use html5gum.Base.{◌||◌, [], ◌∷◌, some, ℕ}
use html5gum.Base.Bytes.{codes}
use html5gum.Utils.{with_lowercase_str}
use html5gum.Tokenizer.{M, ◌>>=◌, ◌>>◌, emit, error}
use html5gum.Machine.Ops.{
  chunk, cont, unwrap, index_0, is_any, is_none, is_one_of, is_some, reconsume_in,
  replacement_character,
}
use html5gum.MachineHelper.{
  MachineState, ControlToken, after_attribute_name, attribute_name, attribute_value_double_quoted,
  attribute_value_single_quoted, attribute_value_unquoted, before_attribute_value, data_state,
  self_closing_start_tag,
}
use html5gum.Errors.{
  eof_in_tag, missing_attribute_value, unexpected_character_in_attribute_name,
  unexpected_equals_sign_before_attribute_name, unexpected_null_character,
}
use html5gum.Emitter.{Emitter}
use html5gum.Reader.Trait.{Reader}
use html5gum.Machine.Attributes.{
  round_before_attribute_name, run_before_attribute_name, round_attribute_name, run_attribute_name,
  round_after_attribute_name, run_after_attribute_name, round_before_attribute_value,
  run_before_attribute_value,
}
use html5gum.Base.{Bool, ◌≡◌, refl, Option}
use html5gum.Machine.Safety.Ready.{KeepsReady, Trusted, Fits, IsReady, Ensures, AfterToken, budget}
use html5gum.Machine.Safety.Rules.{
  goes_on, eof-Fits, switch_to-Fits, unread-then, reconsume_in-Fits, reconsume_eof-Fits,
  inline-Fits, if-Fits,
}
use html5gum.Machine.Safety.Rules.Neutral.{neutral-then, emit-IsNeutral, unwrap-then, index_0-then}
use html5gum.Machine.Safety.Rules.Loops.{loop-Ensures}
use html5gum.Machine.Safety.Rules.Reading.{read_byte-then, read_until-then, error-then}
use html5gum.Machine.Safety.Rules.Ascii.{is_any-Tells, is_one_of-Tells, if_ascii-Fits, one_of-Fits}
use html5gum.Machine.Safety.Rules.References.{emit_current_tag_and_switch_to-Fits}
use html5gum.Tokenizer.{Tokenizer}

module _ ⦃R : Reader⦄ ⦃E : Emitter⦄ (emits : Bool) (trusted : Trusted emits) (fuel : ℕ)
    (call : MachineState → M ControlToken) (keeps : KeepsReady emits call) where
  pub round_before_attribute_name-Fits :
      (c : Option ℕ)
      → Fits emits MachineState.before_attribute_name
          (budget MachineState.before_attribute_name)
          c
          (round_before_attribute_name fuel call)
  unfolding round_before_attribute_name
  round_before_attribute_name-Fits c = read_byte-then emits trusted refl (λ c.
      (if_ascii-Fits emits (is_any (0x09 ∷ 0x0a ∷ 0x0c ∷ b' ' ∷ []) c)
        (is_any-Tells (0x09 ∷ 0x0a ∷ 0x0c ∷ b' ' ∷ []) c refl) (goes_on emits refl)
        (if-Fits emits (is_any (b'/' ∷ b'>' ∷ []) c || is_none c)
          (unread-then emits (inline-Fits emits call after_attribute_name keeps refl refl))
          (if_ascii-Fits emits (is_any (b'=' ∷ []) c) (is_any-Tells (b'=' ∷ []) c refl)
            (error-then emits trusted unexpected_equals_sign_before_attribute_name (
              neutral-then emits (emit-IsNeutral emits E.init_attribute) (
                neutral-then emits (emit-IsNeutral emits (E.push_attribute_name (codes "=")))
                  (switch_to-Fits emits attribute_name refl refl))))
            (neutral-then emits (emit-IsNeutral emits E.init_attribute)
              (unread-then emits (inline-Fits emits call attribute_name keeps refl refl)))))))

  pub run_before_attribute_name-Ensures :
      (t : Tokenizer)
      → IsReady emits MachineState.before_attribute_name t
      → t.machine_helper.state ≡ MachineState.before_attribute_name
      → Ensures emits (AfterToken emits) (run_before_attribute_name fuel call t)
  unfolding run_before_attribute_name
  run_before_attribute_name-Ensures =
      loop-Ensures emits MachineState.before_attribute_name (round_before_attribute_name fuel call)
        round_before_attribute_name-Fits fuel

  pub round_attribute_name-Fits :
      (c : Option ℕ)
      → Fits emits MachineState.attribute_name
          (budget MachineState.attribute_name)
          c
          (round_attribute_name fuel call)
  unfolding round_attribute_name
  round_attribute_name-Fits c =
      read_until-then emits trusted
        (0x09 ∷ 0x0a ∷ 0x0c ∷ b' ' ∷ b'/' ∷ b'>' ∷ b'=' ∷ 0x00 ∷ 0x22 ∷ 0x27 ∷ b'<' ∷ []) refl refl
        (λ xs.
          (one_of-Fits emits (0x09 ∷ 0x0a ∷ 0x0c ∷ b' ' ∷ b'/' ∷ b'>' ∷ []) xs
            (λ xs. (do ys ← unwrap xs; x ← index_0 ys; reconsume_in (some x) after_attribute_name))
            refl
            (λ x.
              (unwrap-then emits _ (x ∷ []) (
                index_0-then emits _ x []
                  (reconsume_in-Fits emits after_attribute_name refl refl))))
            (if_ascii-Fits emits (is_one_of (b'=' ∷ []) xs) (is_one_of-Tells (b'=' ∷ []) xs refl)
              (inline-Fits emits call before_attribute_value keeps refl refl)
              (if_ascii-Fits emits (is_one_of (0x00 ∷ []) xs) (is_one_of-Tells (0x00 ∷ []) xs refl)
                (error-then emits trusted unexpected_null_character (
                  neutral-then emits
                    (emit-IsNeutral emits (E.push_attribute_name replacement_character))
                    (goes_on emits refl)))
                (one_of-Fits emits (0x22 ∷ 0x27 ∷ b'<' ∷ []) xs
                  (λ xs. (do
                    error unexpected_character_in_attribute_name
                    ys ← unwrap xs
                    emit (E.push_attribute_name ys)
                    cont))
                  refl
                  (λ x.
                    (error-then emits trusted unexpected_character_in_attribute_name (
                      unwrap-then emits _ (x ∷ []) (
                        neutral-then emits (emit-IsNeutral emits (E.push_attribute_name (x ∷ [])))
                          (goes_on emits refl)))))
                  (if-Fits emits (is_some xs)
                    (neutral-then emits
                      (emit-IsNeutral emits (with_lowercase_str (chunk xs) E.push_attribute_name))
                      (goes_on emits refl))
                    (reconsume_eof-Fits emits after_attribute_name refl refl)))))))

  pub run_attribute_name-Ensures :
      (t : Tokenizer)
      → IsReady emits MachineState.attribute_name t
      → t.machine_helper.state ≡ MachineState.attribute_name
      → Ensures emits (AfterToken emits) (run_attribute_name fuel call t)
  unfolding run_attribute_name
  run_attribute_name-Ensures =
      loop-Ensures emits MachineState.attribute_name (round_attribute_name fuel call)
        round_attribute_name-Fits fuel

  pub round_after_attribute_name-Fits :
      (c : Option ℕ)
      → Fits emits MachineState.after_attribute_name
          (budget MachineState.after_attribute_name)
          c
          (round_after_attribute_name fuel call)
  unfolding round_after_attribute_name
  round_after_attribute_name-Fits c = read_byte-then emits trusted refl (λ c.
      (if_ascii-Fits emits (is_any (0x09 ∷ 0x0a ∷ 0x0c ∷ b' ' ∷ []) c)
        (is_any-Tells (0x09 ∷ 0x0a ∷ 0x0c ∷ b' ' ∷ []) c refl) (goes_on emits refl)
        (if_ascii-Fits emits (is_any (b'/' ∷ []) c) (is_any-Tells (b'/' ∷ []) c refl)
          (switch_to-Fits emits self_closing_start_tag refl refl)
          (if_ascii-Fits emits (is_any (b'=' ∷ []) c) (is_any-Tells (b'=' ∷ []) c refl)
            (switch_to-Fits emits before_attribute_value refl refl)
            (if_ascii-Fits emits (is_any (b'>' ∷ []) c) (is_any-Tells (b'>' ∷ []) c refl)
              (emit_current_tag_and_switch_to-Fits emits data_state refl refl refl refl)
              (if-Fits emits (is_none c) (error-then emits trusted eof_in_tag (eof-Fits emits)) (
                neutral-then emits (emit-IsNeutral emits E.init_attribute)
                  (reconsume_in-Fits emits attribute_name refl refl))))))))

  pub run_after_attribute_name-Ensures :
      (t : Tokenizer)
      → IsReady emits MachineState.after_attribute_name t
      → t.machine_helper.state ≡ MachineState.after_attribute_name
      → Ensures emits (AfterToken emits) (run_after_attribute_name fuel call t)
  unfolding run_after_attribute_name
  run_after_attribute_name-Ensures =
      loop-Ensures emits MachineState.after_attribute_name (round_after_attribute_name fuel call)
        round_after_attribute_name-Fits fuel

  pub round_before_attribute_value-Fits :
      (c : Option ℕ)
      → Fits emits MachineState.before_attribute_value
          (budget MachineState.before_attribute_value)
          c
          (round_before_attribute_value fuel call)
  unfolding round_before_attribute_value
  round_before_attribute_value-Fits c = read_byte-then emits trusted refl (λ c.
      (if_ascii-Fits emits (is_any (0x09 ∷ 0x0a ∷ 0x0c ∷ b' ' ∷ []) c)
        (is_any-Tells (0x09 ∷ 0x0a ∷ 0x0c ∷ b' ' ∷ []) c refl) (goes_on emits refl)
        (if_ascii-Fits emits (is_any (0x22 ∷ []) c) (is_any-Tells (0x22 ∷ []) c refl)
          (inline-Fits emits call attribute_value_double_quoted keeps refl refl)
          (if_ascii-Fits emits (is_any (0x27 ∷ []) c) (is_any-Tells (0x27 ∷ []) c refl)
            (switch_to-Fits emits attribute_value_single_quoted refl refl)
            (if_ascii-Fits emits (is_any (b'>' ∷ []) c) (is_any-Tells (b'>' ∷ []) c refl)
              (error-then emits trusted missing_attribute_value
                (emit_current_tag_and_switch_to-Fits emits data_state refl refl refl refl))
              (reconsume_in-Fits emits attribute_value_unquoted refl refl))))))

  pub run_before_attribute_value-Ensures :
      (t : Tokenizer)
      → IsReady emits MachineState.before_attribute_value t
      → t.machine_helper.state ≡ MachineState.before_attribute_value
      → Ensures emits (AfterToken emits) (run_before_attribute_value fuel call t)
  unfolding run_before_attribute_value
  run_before_attribute_value-Ensures =
      loop-Ensures emits MachineState.before_attribute_value
        (round_before_attribute_value fuel call) round_before_attribute_value-Fits fuel
