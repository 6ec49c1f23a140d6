-- ===== src/Machine/Safety/Rounds/TagStarts.antt =====
-- src/machine.rs: rounds of the states in Machine/Text.antt.
use html5gum.Base.{[], ◌∷◌, ℕ}
use html5gum.Base.Bytes.{codes, is_ascii_alphabetic}
use html5gum.Utils.{with_lowercase_str}
use html5gum.Tokenizer.{M}
use html5gum.Machine.Ops.{chunk, holds, is_any, is_none, is_one_of, is_some, replacement_character}
use html5gum.MachineHelper.{
  MachineState, ControlToken, before_attribute_name, bogus_comment, data_state, end_tag_open,
  markup_declaration_open, self_closing_start_tag, tag_name,
}
use html5gum.Errors.{
  eof_before_tag_name, eof_in_tag, invalid_first_character_of_tag_name, missing_end_tag_name,
  unexpected_null_character, unexpected_question_mark_instead_of_tag_name,
  unexpected_solidus_in_tag,
}
use html5gum.Emitter.{Emitter}
use html5gum.Reader.Trait.{Reader}
use html5gum.Machine.Text.{
  round_tag_open, run_tag_open, round_end_tag_open, run_end_tag_open, round_tag_name, run_tag_name,
  round_self_closing_start_tag, run_self_closing_start_tag,
}
use html5gum.Base.{Bool, ◌≡◌, refl, Option}
use html5gum.Machine.Safety.Ready.{KeepsReady, Trusted, Fits, IsReady, Ensures, AfterToken, budget}
use html5gum.Machine.Safety.Rules.{
  goes_on, eof-Fits, switch_to-Fits, unread-then, reconsume_in-Fits, inline-Fits, if-Fits,
}
use html5gum.Machine.Safety.Rules.Neutral.{neutral-then, emit-IsNeutral}
use html5gum.Machine.Safety.Rules.Loops.{loop-Ensures}
use html5gum.Machine.Safety.Rules.Reading.{
  read_byte-then, read_until-then, error-then, error_immediate-then,
}
use html5gum.Machine.Safety.Rules.Ascii.{
  is_any-Tells, is_one_of-Tells, alphabetic-Tells, if_ascii-Fits,
}
use html5gum.Machine.Safety.Rules.References.{emit_current_tag_and_switch_to-Fits}
use html5gum.Tokenizer.{Tokenizer}

module _ ⦃R : Reader⦄ ⦃E : Emitter⦄ (emits : Bool) (trusted : Trusted emits) (fuel : ℕ)
    (call : MachineState → M ControlToken) (keeps : KeepsReady emits call) where
  pub round_tag_open-Fits :
      (c : Option ℕ)
      → Fits emits MachineState.tag_open (budget MachineState.tag_open) c (round_tag_open fuel call)
  unfolding round_tag_open
  round_tag_open-Fits c = read_byte-then emits trusted refl (λ c.
      (if_ascii-Fits emits (is_any (b'!' ∷ []) c) (is_any-Tells (b'!' ∷ []) c refl)
        (switch_to-Fits emits markup_declaration_open refl refl)
        (if_ascii-Fits emits (is_any (b'/' ∷ []) c) (is_any-Tells (b'/' ∷ []) c refl)
          (inline-Fits emits call end_tag_open keeps refl refl)
          (if_ascii-Fits emits (holds is_ascii_alphabetic c) (alphabetic-Tells c)
            (neutral-then emits (emit-IsNeutral emits E.init_start_tag)
              (unread-then emits (inline-Fits emits call tag_name keeps refl refl)))
            (if_ascii-Fits emits (is_any (b'?' ∷ []) c) (is_any-Tells (b'?' ∷ []) c refl)
              (error-then emits trusted unexpected_question_mark_instead_of_tag_name (
                neutral-then emits (emit-IsNeutral emits E.init_comment)
                  (reconsume_in-Fits emits bogus_comment refl refl)))
              (if-Fits emits (is_none c)
                (error-then emits trusted eof_before_tag_name (
                  neutral-then emits (emit-IsNeutral emits (E.emit_string (codes "<")))
                    (eof-Fits emits)))
                (error-then emits trusted invalid_first_character_of_tag_name (
                  neutral-then emits (emit-IsNeutral emits (E.emit_string (codes "<")))
                    (reconsume_in-Fits emits data_state refl refl)))))))))

  pub run_tag_open-Ensures :
      (t : Tokenizer)
      → IsReady emits MachineState.tag_open t
      → t.machine_helper.state ≡ MachineState.tag_open
      → Ensures emits (AfterToken emits) (run_tag_open fuel call t)
  unfolding run_tag_open
  run_tag_open-Ensures =
      loop-Ensures emits MachineState.tag_open (round_tag_open fuel call) round_tag_open-Fits fuel

  pub round_end_tag_open-Fits :
      (c : Option ℕ)
      → Fits emits MachineState.end_tag_open
          (budget MachineState.end_tag_open)
          c
          (round_end_tag_open fuel call)
  unfolding round_end_tag_open
  round_end_tag_open-Fits c = read_byte-then emits trusted refl (λ c.
      (if_ascii-Fits emits (holds is_ascii_alphabetic c) (alphabetic-Tells c)
        (neutral-then emits (emit-IsNeutral emits E.init_end_tag)
          (reconsume_in-Fits emits tag_name refl refl))
        (if_ascii-Fits emits (is_any (b'>' ∷ []) c) (is_any-Tells (b'>' ∷ []) c refl)
          (error-then emits trusted missing_end_tag_name
            (switch_to-Fits emits data_state refl refl))
          (if-Fits emits (is_none c)
            (error-then emits trusted eof_before_tag_name (
              neutral-then emits (emit-IsNeutral emits (E.emit_string (codes "</")))
                (eof-Fits emits)))
            (error-then emits trusted invalid_first_character_of_tag_name (
              neutral-then emits (emit-IsNeutral emits E.init_comment)
                (reconsume_in-Fits emits bogus_comment refl refl)))))))

  pub run_end_tag_open-Ensures :
      (t : Tokenizer)
      → IsReady emits MachineState.end_tag_open t
      → t.machine_helper.state ≡ MachineState.end_tag_open
      → Ensures emits (AfterToken emits) (run_end_tag_open fuel call t)
  unfolding run_end_tag_open
  run_end_tag_open-Ensures =
      loop-Ensures emits MachineState.end_tag_open (round_end_tag_open fuel call)
        round_end_tag_open-Fits fuel

  pub round_tag_name-Fits :
      (c : Option ℕ)
      → Fits emits MachineState.tag_name (budget MachineState.tag_name) c (round_tag_name fuel call)
  unfolding round_tag_name
  round_tag_name-Fits c =
      read_until-then emits trusted (0x09 ∷ 0x0a ∷ 0x0c ∷ b' ' ∷ b'/' ∷ b'>' ∷ 0x00 ∷ []) refl refl
        (λ xs.
          (if_ascii-Fits emits (is_one_of (0x09 ∷ 0x0a ∷ 0x0c ∷ b' ' ∷ []) xs)
            (is_one_of-Tells (0x09 ∷ 0x0a ∷ 0x0c ∷ b' ' ∷ []) xs refl)
            (switch_to-Fits emits before_attribute_name refl refl)
            (if_ascii-Fits emits (is_one_of (b'/' ∷ []) xs) (is_one_of-Tells (b'/' ∷ []) xs refl)
              (switch_to-Fits emits self_closing_start_tag refl refl)
              (if_ascii-Fits emits (is_one_of (b'>' ∷ []) xs) (is_one_of-Tells (b'>' ∷ []) xs refl)
                (emit_current_tag_and_switch_to-Fits emits data_state refl refl refl refl)
                (if_ascii-Fits emits (is_one_of (0x00 ∷ []) xs)
                  (is_one_of-Tells (0x00 ∷ []) xs refl)
                  (error-then emits trusted unexpected_null_character (
                    neutral-then emits
                      (emit-IsNeutral emits (E.push_tag_name replacement_character))
                      (goes_on emits refl)))
                  (if-Fits emits (is_some xs)
                    (neutral-then emits
                      (emit-IsNeutral emits (with_lowercase_str (chunk xs) E.push_tag_name))
                      (goes_on emits refl))
                    (error-then emits trusted eof_in_tag (eof-Fits emits))))))))

  pub run_tag_name-Ensures :
      (t : Tokenizer)
      → IsReady emits MachineState.tag_name t
      → t.machine_helper.state ≡ MachineState.tag_name
      → Ensures emits (AfterToken emits) (run_tag_name fuel call t)
  unfolding run_tag_name
  run_tag_name-Ensures =
      loop-Ensures emits MachineState.tag_name (round_tag_name fuel call) round_tag_name-Fits fuel

  pub round_self_closing_start_tag-Fits :
      (c : Option ℕ)
      → Fits emits MachineState.self_closing_start_tag
          (budget MachineState.self_closing_start_tag)
          c
          (round_self_closing_start_tag fuel call)
  unfolding round_self_closing_start_tag
  round_self_closing_start_tag-Fits c = read_byte-then emits trusted refl (λ c.
      (if_ascii-Fits emits (is_any (b'>' ∷ []) c) (is_any-Tells (b'>' ∷ []) c refl)
        (neutral-then emits (emit-IsNeutral emits E.set_self_closing)
          (emit_current_tag_and_switch_to-Fits emits data_state refl refl refl refl))
        (if-Fits emits (is_none c) (error-then emits trusted eof_in_tag (eof-Fits emits)) (
          error_immediate-then emits trusted unexpected_solidus_in_tag
            (reconsume_in-Fits emits before_attribute_name refl refl)))))

  pub run_self_closing_start_tag-Ensures :
      (t : Tokenizer)
      → IsReady emits MachineState.self_closing_start_tag t
      → t.machine_helper.state ≡ MachineState.self_closing_start_tag
      → Ensures emits (AfterToken emits) (run_self_closing_start_tag fuel call t)
  unfolding run_self_closing_start_tag
  run_self_closing_start_tag-Ensures =
      loop-Ensures emits MachineState.self_closing_start_tag
        (round_self_closing_start_tag fuel call) round_self_closing_start_tag-Fits fuel
