-- ===== src/Machine/Safety/Rounds/ScriptEscapedTags.antt =====
-- src/machine.rs: rounds of the states in Machine/ScriptEscaped.antt.
use html5gum.Base.{◌&&◌, [], ◌∷◌, map, ℕ}
use html5gum.Base.Bytes.{codes, is_ascii_alphabetic, to_ascii_lowercase}
use html5gum.Tokenizer.{M}
use html5gum.Machine.Ops.{bytes, holds, is_any}
use html5gum.MachineHelper.{
  MachineState, ControlToken, before_attribute_name, data_state, script_data_double_escape_start,
  script_data_escaped, script_data_escaped_end_tag_name, script_data_escaped_end_tag_open,
  self_closing_start_tag,
}
use html5gum.Emitter.{Emitter}
use html5gum.Reader.Trait.{Reader}
use html5gum.Machine.ScriptEscaped.{
  round_script_data_escaped_less_than_sign, run_script_data_escaped_less_than_sign,
  round_script_data_escaped_end_tag_open, run_script_data_escaped_end_tag_open,
  round_script_data_escaped_end_tag_name, run_script_data_escaped_end_tag_name,
}
use html5gum.Base.{Bool, ◌≡◌, refl, Option}
use html5gum.Machine.Safety.Ready.{KeepsReady, Trusted, Fits, IsReady, Ensures, AfterToken, budget}
use html5gum.Machine.Safety.Rules.{goes_on, switch_to-Fits, reconsume_in-Fits}
use html5gum.Machine.Safety.Rules.Neutral.{
  neutral-bind, neutral-then, emit-IsNeutral, ask-IsNeutral, clear_buffer-IsNeutral,
  push_buffer-IsNeutral, flush_buffer_characters-IsNeutral,
}
use html5gum.Machine.Safety.Rules.Loops.{loop-Ensures}
use html5gum.Machine.Safety.Rules.Reading.{read_byte-then}
use html5gum.Machine.Safety.Rules.Ascii.{
  is_any-Tells, alphabetic-Tells, and_left-Tells, if_ascii-Fits,
}
use html5gum.Machine.Safety.Rules.References.{emit_current_tag_and_switch_to-Fits}
use html5gum.Tokenizer.{Tokenizer}

module _ ⦃R : Reader⦄ ⦃E : Emitter⦄ (emits : Bool) (trusted : Trusted emits) (fuel : ℕ)
    (call : MachineState → M ControlToken) (keeps : KeepsReady emits call) where
  pub round_script_data_escaped_less_than_sign-Fits :
      (c : Option ℕ)
      → Fits emits MachineState.script_data_escaped_less_than_sign
          (budget MachineState.script_data_escaped_less_than_sign)
          c
          (round_script_data_escaped_less_than_sign fuel call)
  unfolding round_script_data_escaped_less_than_sign
  round_script_data_escaped_less_than_sign-Fits c = read_byte-then emits trusted refl (λ c.
      (if_ascii-Fits emits (is_any (b'/' ∷ []) c) (is_any-Tells (b'/' ∷ []) c refl)
        (neutral-then emits (clear_buffer-IsNeutral emits)
          (switch_to-Fits emits script_data_escaped_end_tag_open refl refl))
        (if_ascii-Fits emits (holds is_ascii_alphabetic c) (alphabetic-Tells c)
          (neutral-then emits (clear_buffer-IsNeutral emits) (
            neutral-then emits (emit-IsNeutral emits (E.emit_string (codes "<")))
              (reconsume_in-Fits emits script_data_double_escape_start refl refl)))
          (neutral-then emits (emit-IsNeutral emits (E.emit_string (codes "<")))
            (reconsume_in-Fits emits script_data_escaped refl refl)))))

  pub run_script_data_escaped_less_than_sign-Ensures :
      (t : Tokenizer)
      → IsReady emits MachineState.script_data_escaped_less_than_sign t
      → t.machine_helper.state ≡ MachineState.script_data_escaped_less_than_sign
      → Ensures emits (AfterToken emits) (run_script_data_escaped_less_than_sign fuel call t)
  unfolding run_script_data_escaped_less_than_sign
  run_script_data_escaped_less_than_sign-Ensures =
      loop-Ensures emits MachineState.script_data_escaped_less_than_sign
        (round_script_data_escaped_less_than_sign fuel call)
        round_script_data_escaped_less_than_sign-Fits fuel

  pub round_script_data_escaped_end_tag_open-Fits :
      (c : Option ℕ)
      → Fits emits MachineState.script_data_escaped_end_tag_open
          (budget MachineState.script_data_escaped_end_tag_open)
          c
          (round_script_data_escaped_end_tag_open fuel call)
  unfolding round_script_data_escaped_end_tag_open
  round_script_data_escaped_end_tag_open-Fits c = read_byte-then emits trusted refl (λ c.
      (if_ascii-Fits emits (holds is_ascii_alphabetic c) (alphabetic-Tells c)
        (neutral-then emits (emit-IsNeutral emits E.init_end_tag)
          (reconsume_in-Fits emits script_data_escaped_end_tag_name refl refl))
        (neutral-then emits (emit-IsNeutral emits (E.emit_string (codes "</")))
          (reconsume_in-Fits emits script_data_escaped refl refl))))

  pub run_script_data_escaped_end_tag_open-Ensures :
      (t : Tokenizer)
      → IsReady emits MachineState.script_data_escaped_end_tag_open t
      → t.machine_helper.state ≡ MachineState.script_data_escaped_end_tag_open
      → Ensures emits (AfterToken emits) (run_script_data_escaped_end_tag_open fuel call t)
  unfolding run_script_data_escaped_end_tag_open
  run_script_data_escaped_end_tag_open-Ensures =
      loop-Ensures emits MachineState.script_data_escaped_end_tag_open
        (round_script_data_escaped_end_tag_open fuel call)
        round_script_data_escaped_end_tag_open-Fits fuel

  pub round_script_data_escaped_end_tag_name-Fits :
      (c : Option ℕ)
      → Fits emits MachineState.script_data_escaped_end_tag_name
          (budget MachineState.script_data_escaped_end_tag_name)
          c
          (round_script_data_escaped_end_tag_name fuel call)
  unfolding round_script_data_escaped_end_tag_name
  round_script_data_escaped_end_tag_name-Fits c = read_byte-then emits trusted refl (λ c.
      (neutral-bind emits (ask-IsNeutral emits E.current_is_appropriate_end_tag_token)
        (λ appropriate.
          (if_ascii-Fits emits (is_any (0x09 ∷ 0x0a ∷ 0x0c ∷ b' ' ∷ []) c && appropriate)
            (and_left-Tells (is_any (0x09 ∷ 0x0a ∷ 0x0c ∷ b' ' ∷ []) c) (appropriate) c
              (is_any-Tells (0x09 ∷ 0x0a ∷ 0x0c ∷ b' ' ∷ []) c refl))
            (switch_to-Fits emits before_attribute_name refl refl)
            (if_ascii-Fits emits (is_any (b'/' ∷ []) c && appropriate)
              (and_left-Tells (is_any (b'/' ∷ []) c) (appropriate) c
                (is_any-Tells (b'/' ∷ []) c refl))
              (switch_to-Fits emits self_closing_start_tag refl refl)
              (if_ascii-Fits emits (is_any (b'>' ∷ []) c && appropriate)
                (and_left-Tells (is_any (b'>' ∷ []) c) (appropriate) c
                  (is_any-Tells (b'>' ∷ []) c refl))
                (emit_current_tag_and_switch_to-Fits emits data_state refl refl refl refl)
                (if_ascii-Fits emits (holds is_ascii_alphabetic c) (alphabetic-Tells c)
                  (neutral-then emits
                    (emit-IsNeutral emits (E.push_tag_name (map to_ascii_lowercase (bytes c))))
                    (neutral-then emits (push_buffer-IsNeutral emits (bytes c))
                      (goes_on emits refl)))
                  (neutral-then emits (emit-IsNeutral emits (E.emit_string (codes "</"))) (
                    neutral-then emits (flush_buffer_characters-IsNeutral emits)
                      (reconsume_in-Fits emits script_data_escaped refl refl))))))))))

  pub run_script_data_escaped_end_tag_name-Ensures :
      (t : Tokenizer)
      → IsReady emits MachineState.script_data_escaped_end_tag_name t
      → t.machine_helper.state ≡ MachineState.script_data_escaped_end_tag_name
      → Ensures emits (AfterToken emits) (run_script_data_escaped_end_tag_name fuel call t)
  unfolding run_script_data_escaped_end_tag_name
  run_script_data_escaped_end_tag_name-Ensures =
      loop-Ensures emits MachineState.script_data_escaped_end_tag_name
        (round_script_data_escaped_end_tag_name fuel call)
        round_script_data_escaped_end_tag_name-Fits fuel
