-- ===== src/Machine/Safety/Rounds/ScriptDouble.antt =====
-- src/machine.rs: rounds of the states in Machine/ScriptDouble.antt.
use html5gum.Base.{[], ◌∷◌, map, ℕ}
use html5gum.Base.Bytes.{codes, bytes_eq, is_ascii_alphabetic, to_ascii_lowercase}
use html5gum.Tokenizer.{M}
use html5gum.Machine.Ops.{bytes, chunk, holds, is_any, is_one_of, is_some, replacement_character}
use html5gum.MachineHelper.{
  MachineState, ControlToken, script_data_double_escaped, script_data_double_escaped_dash,
  script_data_double_escaped_dash_dash, script_data_double_escaped_less_than_sign,
  script_data_escaped,
}
use html5gum.Errors.{eof_in_script_html_comment_like_text, unexpected_null_character}
use html5gum.Emitter.{Emitter}
use html5gum.Reader.Trait.{Reader}
use html5gum.Machine.ScriptDouble.{
  round_script_data_double_escape_start, run_script_data_double_escape_start,
  round_script_data_double_escaped, run_script_data_double_escaped,
  round_script_data_double_escaped_dash, run_script_data_double_escaped_dash,
}
use html5gum.Base.{Bool, ◌≡◌, refl, Option}
use html5gum.Machine.Safety.Ready.{KeepsReady, Trusted, Fits, IsReady, Ensures, AfterToken, budget}
use html5gum.Machine.Safety.Rules.{goes_on, eof-Fits, switch_to-Fits, reconsume_in-Fits, if-Fits}
use html5gum.Machine.Safety.Rules.Neutral.{
  neutral-bind, neutral-then, emit-IsNeutral, push_buffer-IsNeutral, get_buffer-IsNeutral,
}
use html5gum.Machine.Safety.Rules.Loops.{loop-Ensures}
use html5gum.Machine.Safety.Rules.Reading.{read_byte-then, read_until-then, error-then}
use html5gum.Machine.Safety.Rules.Ascii.{
  is_any-Tells, is_one_of-Tells, alphabetic-Tells, if_ascii-Fits,
}
use html5gum.Tokenizer.{Tokenizer}

module _ ⦃R : Reader⦄ ⦃E : Emitter⦄ (emits : Bool) (trusted : Trusted emits) (fuel : ℕ)
    (call : MachineState → M ControlToken) (keeps : KeepsReady emits call) where
  pub round_script_data_double_escape_start-Fits :
      (c : Option ℕ)
      → Fits emits MachineState.script_data_double_escape_start
          (budget MachineState.script_data_double_escape_start)
          c
          (round_script_data_double_escape_start fuel call)
  unfolding round_script_data_double_escape_start
  round_script_data_double_escape_start-Fits c = read_byte-then emits trusted refl (λ c.
      (if_ascii-Fits emits (is_any (0x09 ∷ 0x0a ∷ 0x0c ∷ b' ' ∷ b'/' ∷ b'>' ∷ []) c)
        (is_any-Tells (0x09 ∷ 0x0a ∷ 0x0c ∷ b' ' ∷ b'/' ∷ b'>' ∷ []) c refl)
        (neutral-then emits (emit-IsNeutral emits (E.emit_string (bytes c))) (
          neutral-bind emits (get_buffer-IsNeutral emits) (λ buffer.
            (if-Fits emits (bytes_eq buffer (codes "script"))
              (switch_to-Fits emits script_data_double_escaped refl refl)
              (switch_to-Fits emits script_data_escaped refl refl)))))
        (if_ascii-Fits emits (holds is_ascii_alphabetic c) (alphabetic-Tells c)
          (neutral-then emits (push_buffer-IsNeutral emits (map to_ascii_lowercase (bytes c))) (
            neutral-then emits (emit-IsNeutral emits (E.emit_string (bytes c)))
              (goes_on emits refl)))
          (reconsume_in-Fits emits script_data_escaped refl refl))))

  pub run_script_data_double_escape_start-Ensures :
      (t : Tokenizer)
      → IsReady emits MachineState.script_data_double_escape_start t
      → t.machine_helper.state ≡ MachineState.script_data_double_escape_start
      → Ensures emits (AfterToken emits) (run_script_data_double_escape_start fuel call t)
  unfolding run_script_data_double_escape_start
  run_script_data_double_escape_start-Ensures =
      loop-Ensures emits MachineState.script_data_double_escape_start
        (round_script_data_double_escape_start fuel call) round_script_data_double_escape_start-Fits
        fuel

  pub round_script_data_double_escaped-Fits :
      (c : Option ℕ)
      → Fits emits MachineState.script_data_double_escaped
          (budget MachineState.script_data_double_escaped)
          c
          (round_script_data_double_escaped fuel call)
  unfolding round_script_data_double_escaped
  round_script_data_double_escaped-Fits c =
      read_until-then emits trusted (b'-' ∷ b'<' ∷ 0x00 ∷ []) refl refl (λ xs.
        (if_ascii-Fits emits (is_one_of (b'-' ∷ []) xs) (is_one_of-Tells (b'-' ∷ []) xs refl)
          (neutral-then emits (emit-IsNeutral emits (E.emit_string (codes "-")))
            (switch_to-Fits emits script_data_double_escaped_dash refl refl))
          (if_ascii-Fits emits (is_one_of (b'<' ∷ []) xs) (is_one_of-Tells (b'<' ∷ []) xs refl)
            (neutral-then emits (emit-IsNeutral emits (E.emit_string (codes "<")))
              (switch_to-Fits emits script_data_double_escaped_less_than_sign refl refl))
            (if_ascii-Fits emits (is_one_of (0x00 ∷ []) xs) (is_one_of-Tells (0x00 ∷ []) xs refl)
              (error-then emits trusted unexpected_null_character (
                neutral-then emits (emit-IsNeutral emits (E.emit_string replacement_character))
                  (goes_on emits refl)))
              (if-Fits emits (is_some xs)
                (neutral-then emits (emit-IsNeutral emits (E.emit_string (chunk xs)))
                  (goes_on emits refl))
                (error-then emits trusted eof_in_script_html_comment_like_text
                  (eof-Fits emits)))))))

  pub run_script_data_double_escaped-Ensures :
      (t : Tokenizer)
      → IsReady emits MachineState.script_data_double_escaped t
      → t.machine_helper.state ≡ MachineState.script_data_double_escaped
      → Ensures emits (AfterToken emits) (run_script_data_double_escaped fuel call t)
  unfolding run_script_data_double_escaped
  run_script_data_double_escaped-Ensures =
      loop-Ensures emits MachineState.script_data_double_escaped
        (round_script_data_double_escaped fuel call) round_script_data_double_escaped-Fits fuel

  pub round_script_data_double_escaped_dash-Fits :
      (c : Option ℕ)
      → Fits emits MachineState.script_data_double_escaped_dash
          (budget MachineState.script_data_double_escaped_dash)
          c
          (round_script_data_double_escaped_dash fuel call)
  unfolding round_script_data_double_escaped_dash
  round_script_data_double_escaped_dash-Fits c = read_byte-then emits trusted refl (λ c.
      (if_ascii-Fits emits (is_any (b'-' ∷ []) c) (is_any-Tells (b'-' ∷ []) c refl)
        (neutral-then emits (emit-IsNeutral emits (E.emit_string (codes "-")))
          (switch_to-Fits emits script_data_double_escaped_dash_dash refl refl))
        (if_ascii-Fits emits (is_any (b'<' ∷ []) c) (is_any-Tells (b'<' ∷ []) c refl)
          (neutral-then emits (emit-IsNeutral emits (E.emit_string (codes "<")))
            (switch_to-Fits emits script_data_double_escaped_less_than_sign refl refl))
          (if_ascii-Fits emits (is_any (0x00 ∷ []) c) (is_any-Tells (0x00 ∷ []) c refl)
            (error-then emits trusted unexpected_null_character (
              neutral-then emits (emit-IsNeutral emits (E.emit_string replacement_character))
                (switch_to-Fits emits script_data_double_escaped refl refl)))
            (if-Fits emits (is_some c)
              (neutral-then emits (emit-IsNeutral emits (E.emit_string (bytes c)))
                (switch_to-Fits emits script_data_double_escaped refl refl))
              (error-then emits trusted eof_in_script_html_comment_like_text (eof-Fits emits)))))))

  pub run_script_data_double_escaped_dash-Ensures :
      (t : Tokenizer)
      → IsReady emits MachineState.script_data_double_escaped_dash t
      → t.machine_helper.state ≡ MachineState.script_data_double_escaped_dash
      → Ensures emits (AfterToken emits) (run_script_data_double_escaped_dash fuel call t)
  unfolding run_script_data_double_escaped_dash
  run_script_data_double_escaped_dash-Ensures =
      loop-Ensures emits MachineState.script_data_double_escaped_dash
        (round_script_data_double_escaped_dash fuel call) round_script_data_double_escaped_dash-Fits
        fuel
