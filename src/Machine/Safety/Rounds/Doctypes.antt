-- ===== src/Machine/Safety/Rounds/Doctypes.antt =====
-- src/machine.rs: rounds of the states in Machine/Doctypes.antt.
use html5gum.Base.{Bool, not, false, ◌&&◌, [], ◌∷◌, map, ℕ}
use html5gum.Base.Bytes.{codes, to_ascii_lowercase}
use html5gum.Utils.{with_lowercase_str}
use html5gum.Tokenizer.{M}
use html5gum.Machine.Ops.{bytes, chunk, is_any, is_none, is_one_of, is_some, replacement_character}
use html5gum.MachineHelper.{
  MachineState, ControlToken, after_doctype_name, after_doctype_public_keyword,
  after_doctype_system_keyword, before_doctype_name, bogus_doctype, data_state, doctype_name,
}
use html5gum.Errors.{
  eof_in_doctype, invalid_character_sequence_after_doctype_name, missing_doctype_name,
  missing_whitespace_before_doctype_name, unexpected_null_character,
}
use html5gum.Emitter.{Emitter}
use html5gum.Reader.Trait.{Reader}
use html5gum.Machine.Doctypes.{
  round_doctype, run_doctype, round_before_doctype_name, run_before_doctype_name,
  round_doctype_name, run_doctype_name, guard_string, round_after_doctype_name,
  run_after_doctype_name, round_bogus_doctype, run_bogus_doctype,
}
use html5gum.Base.{◌≡◌, refl, Option}
use html5gum.Machine.Safety.Ready.{KeepsReady, Trusted, Fits, IsReady, Ensures, AfterToken, budget}
use html5gum.Machine.Safety.Rules.{goes_on, eof-Fits, switch_to-Fits, reconsume_in-Fits, if-Fits}
use html5gum.Machine.Safety.Rules.Neutral.{neutral-then, emit-IsNeutral}
use html5gum.Machine.Safety.Rules.Loops.{loop-Ensures}
use html5gum.Machine.Safety.Rules.Reading.{read_byte-then, read_until-then, error-then}
use html5gum.Machine.Safety.Rules.Ascii.{
  is_any-Tells, is_one_of-Tells, and-Tells, if_ascii-Fits, guard-then,
}
use html5gum.Tokenizer.{Tokenizer}
use html5gum.Base.Bytes.{contains}

module _ ⦃R : Reader⦄ ⦃E : Emitter⦄ (emits : Bool) (trusted : Trusted emits) (fuel : ℕ)
    (call : MachineState → M ControlToken) (keeps : KeepsReady emits call) where
  pub round_doctype-Fits :
      (c : Option ℕ)
      → Fits emits MachineState.doctype (budget MachineState.doctype) c (round_doctype fuel call)
  unfolding round_doctype
  round_doctype-Fits c = read_byte-then emits trusted refl (λ c.
      (if_ascii-Fits emits (is_any (0x09 ∷ 0x0a ∷ 0x0c ∷ b' ' ∷ []) c)
        (is_any-Tells (0x09 ∷ 0x0a ∷ 0x0c ∷ b' ' ∷ []) c refl)
        (switch_to-Fits emits before_doctype_name refl refl)
        (if_ascii-Fits emits (is_any (b'>' ∷ []) c) (is_any-Tells (b'>' ∷ []) c refl)
          (reconsume_in-Fits emits before_doctype_name refl refl)
          (if-Fits emits (is_none c)
            (error-then emits trusted eof_in_doctype (
              neutral-then emits (emit-IsNeutral emits E.init_doctype) (
                neutral-then emits (emit-IsNeutral emits E.set_force_quirks) (
                  neutral-then emits (emit-IsNeutral emits E.emit_current_doctype)
                    (eof-Fits emits)))))
            (error-then emits trusted missing_whitespace_before_doctype_name
              (reconsume_in-Fits emits before_doctype_name refl refl))))))

  pub run_doctype-Ensures :
      (t : Tokenizer)
      → IsReady emits MachineState.doctype t
      → t.machine_helper.state ≡ MachineState.doctype
      → Ensures emits (AfterToken emits) (run_doctype fuel call t)
  unfolding run_doctype
  run_doctype-Ensures =
      loop-Ensures emits MachineState.doctype (round_doctype fuel call) round_doctype-Fits fuel

  pub round_before_doctype_name-Fits :
      (c : Option ℕ)
      → Fits emits MachineState.before_doctype_name
          (budget MachineState.before_doctype_name)
          c
          (round_before_doctype_name fuel call)
  unfolding round_before_doctype_name
  round_before_doctype_name-Fits c = read_byte-then emits trusted refl (λ c.
      (if_ascii-Fits emits (is_any (0x09 ∷ 0x0a ∷ 0x0c ∷ b' ' ∷ []) c)
        (is_any-Tells (0x09 ∷ 0x0a ∷ 0x0c ∷ b' ' ∷ []) c refl) (goes_on emits refl)
        (if_ascii-Fits emits (is_any (0x00 ∷ []) c) (is_any-Tells (0x00 ∷ []) c refl)
          (error-then emits trusted unexpected_null_character (
            neutral-then emits (emit-IsNeutral emits E.init_doctype) (
              neutral-then emits (emit-IsNeutral emits (E.push_doctype_name replacement_character))
                (switch_to-Fits emits doctype_name refl refl))))
          (if_ascii-Fits emits (is_any (b'>' ∷ []) c) (is_any-Tells (b'>' ∷ []) c refl)
            (error-then emits trusted missing_doctype_name (
              neutral-then emits (emit-IsNeutral emits E.init_doctype) (
                neutral-then emits (emit-IsNeutral emits E.set_force_quirks) (
                  neutral-then emits (emit-IsNeutral emits E.emit_current_doctype)
                    (switch_to-Fits emits data_state refl refl)))))
            (if-Fits emits (is_none c)
              (error-then emits trusted eof_in_doctype (
                neutral-then emits (emit-IsNeutral emits E.init_doctype) (
                  neutral-then emits (emit-IsNeutral emits E.set_force_quirks) (
                    neutral-then emits (emit-IsNeutral emits E.emit_current_doctype)
                      (eof-Fits emits)))))
              (neutral-then emits (emit-IsNeutral emits E.init_doctype) (
                neutral-then emits
                  (emit-IsNeutral emits (E.push_doctype_name (map to_ascii_lowercase (bytes c))))
                  (switch_to-Fits emits doctype_name refl refl))))))))

  pub run_before_doctype_name-Ensures :
      (t : Tokenizer)
      → IsReady emits MachineState.before_doctype_name t
      → t.machine_helper.state ≡ MachineState.before_doctype_name
      → Ensures emits (AfterToken emits) (run_before_doctype_name fuel call t)
  unfolding run_before_doctype_name
  run_before_doctype_name-Ensures =
      loop-Ensures emits MachineState.before_doctype_name (round_before_doctype_name fuel call)
        round_before_doctype_name-Fits fuel

  pub round_doctype_name-Fits :
      (c : Option ℕ)
      → Fits emits MachineState.doctype_name
          (budget MachineState.doctype_name)
          c
          (round_doctype_name fuel call)
  unfolding round_doctype_name
  round_doctype_name-Fits c =
      read_until-then emits trusted (0x09 ∷ 0x0a ∷ 0x0c ∷ b' ' ∷ b'>' ∷ 0x00 ∷ []) refl refl (λ xs.
        (if_ascii-Fits emits (is_one_of (0x09 ∷ 0x0a ∷ 0x0c ∷ b' ' ∷ []) xs)
          (is_one_of-Tells (0x09 ∷ 0x0a ∷ 0x0c ∷ b' ' ∷ []) xs refl)
          (switch_to-Fits emits after_doctype_name refl refl)
          (if_ascii-Fits emits (is_one_of (b'>' ∷ []) xs) (is_one_of-Tells (b'>' ∷ []) xs refl)
            (neutral-then emits (emit-IsNeutral emits E.emit_current_doctype)
              (switch_to-Fits emits data_state refl refl))
            (if_ascii-Fits emits (is_one_of (0x00 ∷ []) xs) (is_one_of-Tells (0x00 ∷ []) xs refl)
              (error-then emits trusted unexpected_null_character (
                neutral-then emits
                  (emit-IsNeutral emits (E.push_doctype_name replacement_character))
                  (goes_on emits refl)))
              (if-Fits emits (is_some xs)
                (neutral-then emits
                  (emit-IsNeutral emits (with_lowercase_str (chunk xs) E.push_doctype_name))
                  (goes_on emits refl))
                (error-then emits trusted eof_in_doctype (
                  neutral-then emits (emit-IsNeutral emits E.set_force_quirks) (
                    neutral-then emits (emit-IsNeutral emits E.emit_current_doctype)
                      (eof-Fits emits)))))))))

  pub run_doctype_name-Ensures :
      (t : Tokenizer)
      → IsReady emits MachineState.doctype_name t
      → t.machine_helper.state ≡ MachineState.doctype_name
      → Ensures emits (AfterToken emits) (run_doctype_name fuel call t)
  unfolding run_doctype_name
  run_doctype_name-Ensures =
      loop-Ensures emits MachineState.doctype_name (round_doctype_name fuel call)
        round_doctype_name-Fits fuel

  pub round_after_doctype_name-Fits :
      (c : Option ℕ)
      → Fits emits MachineState.after_doctype_name
          (budget MachineState.after_doctype_name)
          c
          (round_after_doctype_name fuel call)
  unfolding round_after_doctype_name guard_string contains
  round_after_doctype_name-Fits c = read_byte-then emits trusted refl (λ c.
      (guard-then emits trusted (is_any (b'p' ∷ b'P' ∷ []) c) (codes "ublic") false refl refl
        (is_any-Tells (b'p' ∷ b'P' ∷ []) c refl)
        (λ public public_tells.
          (guard-then emits trusted (not public && is_any (b's' ∷ b'S' ∷ []) c) (codes "ystem")
            false refl refl
            (and-Tells (not public) (is_any (b's' ∷ b'S' ∷ []) c) c
              (is_any-Tells (b's' ∷ b'S' ∷ []) c refl))
            (λ system system_tells.
              (if_ascii-Fits emits (is_any (0x09 ∷ 0x0a ∷ 0x0c ∷ b' ' ∷ []) c)
                (is_any-Tells (0x09 ∷ 0x0a ∷ 0x0c ∷ b' ' ∷ []) c refl) (goes_on emits refl)
                (if_ascii-Fits emits (is_any (b'>' ∷ []) c) (is_any-Tells (b'>' ∷ []) c refl)
                  (neutral-then emits (emit-IsNeutral emits E.emit_current_doctype)
                    (switch_to-Fits emits data_state refl refl))
                  (if-Fits emits (is_none c)
                    (error-then emits trusted eof_in_doctype (
                      neutral-then emits (emit-IsNeutral emits E.set_force_quirks) (
                        neutral-then emits (emit-IsNeutral emits E.emit_current_doctype)
                          (eof-Fits emits))))
                    (if_ascii-Fits emits (public) public_tells
                      (switch_to-Fits emits after_doctype_public_keyword refl refl)
                      (if_ascii-Fits emits (system) system_tells
                        (switch_to-Fits emits after_doctype_system_keyword refl refl)
                        (error-then emits trusted invalid_character_sequence_after_doctype_name (
                          neutral-then emits (emit-IsNeutral emits E.set_force_quirks)
                            (reconsume_in-Fits emits bogus_doctype refl refl)))))))))))))

  pub run_after_doctype_name-Ensures :
      (t : Tokenizer)
      → IsReady emits MachineState.after_doctype_name t
      → t.machine_helper.state ≡ MachineState.after_doctype_name
      → Ensures emits (AfterToken emits) (run_after_doctype_name fuel call t)
  unfolding run_after_doctype_name
  run_after_doctype_name-Ensures =
      loop-Ensures emits MachineState.after_doctype_name (round_after_doctype_name fuel call)
        round_after_doctype_name-Fits fuel

  pub round_bogus_doctype-Fits :
      (c : Option ℕ)
      → Fits emits MachineState.bogus_doctype
          (budget MachineState.bogus_doctype)
          c
          (round_bogus_doctype fuel call)
  unfolding round_bogus_doctype
  round_bogus_doctype-Fits c = read_until-then emits trusted (b'>' ∷ 0x00 ∷ []) refl refl (λ xs.
      (if_ascii-Fits emits (is_one_of (b'>' ∷ []) xs) (is_one_of-Tells (b'>' ∷ []) xs refl)
        (neutral-then emits (emit-IsNeutral emits E.emit_current_doctype)
          (switch_to-Fits emits data_state refl refl))
        (if_ascii-Fits emits (is_one_of (0x00 ∷ []) xs) (is_one_of-Tells (0x00 ∷ []) xs refl)
          (error-then emits trusted unexpected_null_character (goes_on emits refl))
          (if-Fits emits (is_some xs) (goes_on emits refl)
            (neutral-then emits (emit-IsNeutral emits E.emit_current_doctype) (eof-Fits emits))))))

  pub run_bogus_doctype-Ensures :
      (t : Tokenizer)
      → IsReady emits MachineState.bogus_doctype t
      → t.machine_helper.state ≡ MachineState.bogus_doctype
      → Ensures emits (AfterToken emits) (run_bogus_doctype fuel call t)
  unfolding run_bogus_doctype
  run_bogus_doctype-Ensures =
      loop-Ensures emits MachineState.bogus_doctype (round_bogus_doctype fuel call)
        round_bogus_doctype-Fits fuel
