-- ===== src/Machine/Safety/Rounds/PublicIds.antt =====
-- src/machine.rs: rounds of the states in Machine/PublicIds.antt.
use html5gum.Base.{[], ◌∷◌, ℕ}
use html5gum.Tokenizer.{M}
use html5gum.Machine.Ops.{chunk, is_any, is_none, is_one_of, is_some, replacement_character}
use html5gum.MachineHelper.{
  MachineState, ControlToken, after_doctype_public_identifier, before_doctype_public_identifier,
  bogus_doctype, data_state, doctype_public_identifier_double_quoted,
  doctype_public_identifier_single_quoted,
}
use html5gum.Errors.{
  abrupt_doctype_public_identifier, eof_in_doctype, missing_doctype_public_identifier,
  missing_quote_before_doctype_public_identifier, missing_whitespace_after_doctype_public_keyword,
  unexpected_null_character,
}
use html5gum.Emitter.{Emitter}
use html5gum.Reader.Trait.{Reader}
use html5gum.Machine.PublicIds.{
  round_after_doctype_public_keyword, run_after_doctype_public_keyword,
  round_before_doctype_public_identifier, run_before_doctype_public_identifier,
  round_doctype_public_identifier_double_quoted, run_doctype_public_identifier_double_quoted,
}
use html5gum.Base.{Bool, ◌≡◌, refl, Option}
use html5gum.Machine.Safety.Ready.{KeepsReady, Trusted, Fits, IsReady, Ensures, AfterToken, budget}
use html5gum.Machine.Safety.Rules.{goes_on, eof-Fits, switch_to-Fits, reconsume_in-Fits, if-Fits}
use html5gum.Machine.Safety.Rules.Neutral.{neutral-then, emit-IsNeutral}
use html5gum.Machine.Safety.Rules.Loops.{loop-Ensures}
use html5gum.Machine.Safety.Rules.Reading.{read_byte-then, read_until-then, error-then}
use html5gum.Machine.Safety.Rules.Ascii.{is_any-Tells, is_one_of-Tells, if_ascii-Fits}
use html5gum.Tokenizer.{Tokenizer}

module _ ⦃R : Reader⦄ ⦃E : Emitter⦄ (emits : Bool) (trusted : Trusted emits) (fuel : ℕ)
    (call : MachineState → M ControlToken) (keeps : KeepsReady emits call) where
  pub round_after_doctype_public_keyword-Fits :
      (c : Option ℕ)
      → Fits emits MachineState.after_doctype_public_keyword
          (budget MachineState.after_doctype_public_keyword)
          c
          (round_after_doctype_public_keyword fuel call)
  unfolding round_after_doctype_public_keyword
  round_after_doctype_public_keyword-Fits c = read_byte-then emits trusted refl (λ c.
      (if_ascii-Fits emits (is_any (0x09 ∷ 0x0a ∷ 0x0c ∷ b' ' ∷ []) c)
        (is_any-Tells (0x09 ∷ 0x0a ∷ 0x0c ∷ b' ' ∷ []) c refl)
        (switch_to-Fits emits before_doctype_public_identifier refl refl)
        (if_ascii-Fits emits (is_any (0x22 ∷ []) c) (is_any-Tells (0x22 ∷ []) c refl)
          (error-then emits trusted missing_whitespace_after_doctype_public_keyword (
            neutral-then emits (emit-IsNeutral emits (E.set_doctype_public_identifier []))
              (switch_to-Fits emits doctype_public_identifier_double_quoted refl refl)))
          (if_ascii-Fits emits (is_any (0x27 ∷ []) c) (is_any-Tells (0x27 ∷ []) c refl)
            (error-then emits trusted missing_whitespace_after_doctype_public_keyword (
              neutral-then emits (emit-IsNeutral emits (E.set_doctype_public_identifier []))
                (switch_to-Fits emits doctype_public_identifier_single_quoted refl refl)))
            (if_ascii-Fits emits (is_any (b'>' ∷ []) c) (is_any-Tells (b'>' ∷ []) c refl)
              (error-then emits trusted missing_doctype_public_identifier (
                neutral-then emits (emit-IsNeutral emits E.set_force_quirks) (
                  neutral-then emits (emit-IsNeutral emits E.emit_current_doctype)
                    (switch_to-Fits emits data_state refl refl))))
              (if-Fits emits (is_none c)
                (error-then emits trusted eof_in_doctype (
                  neutral-then emits (emit-IsNeutral emits E.set_force_quirks) (
                    neutral-then emits (emit-IsNeutral emits E.emit_current_doctype)
                      (eof-Fits emits))))
                (error-then emits trusted missing_quote_before_doctype_public_identifier (
                  neutral-then emits (emit-IsNeutral emits E.set_force_quirks)
                    (reconsume_in-Fits emits bogus_doctype refl refl)))))))))

  pub run_after_doctype_public_keyword-Ensures :
      (t : Tokenizer)
      → IsReady emits MachineState.after_doctype_public_keyword t
      → t.machine_helper.state ≡ MachineState.after_doctype_public_keyword
      → Ensures emits (AfterToken emits) (run_after_doctype_public_keyword fuel call t)
  unfolding run_after_doctype_public_keyword
  run_after_doctype_public_keyword-Ensures =
      loop-Ensures emits MachineState.after_doctype_public_keyword
        (round_after_doctype_public_keyword fuel call) round_after_doctype_public_keyword-Fits fuel

  pub round_before_doctype_public_identifier-Fits :
      (c : Option ℕ)
      → Fits emits MachineState.before_doctype_public_identifier
          (budget MachineState.before_doctype_public_identifier)
          c
          (round_before_doctype_public_identifier fuel call)
  unfolding round_before_doctype_public_identifier
  round_before_doctype_public_identifier-Fits c = read_byte-then emits trusted refl (λ c.
      (if_ascii-Fits emits (is_any (0x09 ∷ 0x0a ∷ 0x0c ∷ b' ' ∷ []) c)
        (is_any-Tells (0x09 ∷ 0x0a ∷ 0x0c ∷ b' ' ∷ []) c refl) (goes_on emits refl)
        (if_ascii-Fits emits (is_any (0x22 ∷ []) c) (is_any-Tells (0x22 ∷ []) c refl)
          (neutral-then emits (emit-IsNeutral emits (E.set_doctype_public_identifier []))
            (switch_to-Fits emits doctype_public_identifier_double_quoted refl refl))
          (if_ascii-Fits emits (is_any (0x27 ∷ []) c) (is_any-Tells (0x27 ∷ []) c refl)
            (neutral-then emits (emit-IsNeutral emits (E.set_doctype_public_identifier []))
              (switch_to-Fits emits doctype_public_identifier_single_quoted refl refl))
            (if_ascii-Fits emits (is_any (b'>' ∷ []) c) (is_any-Tells (b'>' ∷ []) c refl)
              (error-then emits trusted missing_doctype_public_identifier (
                neutral-then emits (emit-IsNeutral emits E.set_force_quirks) (
                  neutral-then emits (emit-IsNeutral emits E.emit_current_doctype)
                    (switch_to-Fits emits data_state refl refl))))
              (if-Fits emits (is_none c)
                (error-then emits trusted eof_in_doctype (
                  neutral-then emits (emit-IsNeutral emits E.set_force_quirks) (
                    neutral-then emits (emit-IsNeutral emits E.emit_current_doctype)
                      (eof-Fits emits))))
                (error-then emits trusted missing_quote_before_doctype_public_identifier (
                  neutral-then emits (emit-IsNeutral emits E.set_force_quirks)
                    (reconsume_in-Fits emits bogus_doctype refl refl)))))))))

  pub run_before_doctype_public_identifier-Ensures :
      (t : Tokenizer)
      → IsReady emits MachineState.before_doctype_public_identifier t
      → t.machine_helper.state ≡ MachineState.before_doctype_public_identifier
      → Ensures emits (AfterToken emits) (run_before_doctype_public_identifier fuel call t)
  unfolding run_before_doctype_public_identifier
  run_before_doctype_public_identifier-Ensures =
      loop-Ensures emits MachineState.before_doctype_public_identifier
        (round_before_doctype_public_identifier fuel call)
        round_before_doctype_public_identifier-Fits fuel

  pub round_doctype_public_identifier_double_quoted-Fits :
      (c : Option ℕ)
      → Fits emits MachineState.doctype_public_identifier_double_quoted
          (budget MachineState.doctype_public_identifier_double_quoted)
          c
          (round_doctype_public_identifier_double_quoted fuel call)
  unfolding round_doctype_public_identifier_double_quoted
  round_doctype_public_identifier_double_quoted-Fits c =
      read_until-then emits trusted (0x22 ∷ 0x00 ∷ b'>' ∷ []) refl refl (λ xs.
        (if_ascii-Fits emits (is_one_of (0x22 ∷ []) xs) (is_one_of-Tells (0x22 ∷ []) xs refl)
          (switch_to-Fits emits after_doctype_public_identifier refl refl)
          (if_ascii-Fits emits (is_one_of (0x00 ∷ []) xs) (is_one_of-Tells (0x00 ∷ []) xs refl)
            (error-then emits trusted unexpected_null_character (
              neutral-then emits
                (emit-IsNeutral emits (E.push_doctype_public_identifier replacement_character))
                (goes_on emits refl)))
            (if_ascii-Fits emits (is_one_of (b'>' ∷ []) xs) (is_one_of-Tells (b'>' ∷ []) xs refl)
              (error-then emits trusted abrupt_doctype_public_identifier (
                neutral-then emits (emit-IsNeutral emits E.set_force_quirks) (
                  neutral-then emits (emit-IsNeutral emits E.emit_current_doctype)
                    (switch_to-Fits emits data_state refl refl))))
              (if-Fits emits (is_some xs)
                (neutral-then emits
                  (emit-IsNeutral emits (E.push_doctype_public_identifier (chunk xs)))
                  (goes_on emits refl))
                (error-then emits trusted eof_in_doctype (
                  neutral-then emits (emit-IsNeutral emits E.set_force_quirks) (
                    neutral-then emits (emit-IsNeutral emits E.emit_current_doctype)
                      (eof-Fits emits)))))))))

  pub run_doctype_public_identifier_double_quoted-Ensures :
      (t : Tokenizer)
      → IsReady emits MachineState.doctype_public_identifier_double_quoted t
      → t.machine_helper.state ≡ MachineState.doctype_public_identifier_double_quoted
      → Ensures emits (AfterToken emits) (run_doctype_public_identifier_double_quoted fuel call t)
  unfolding run_doctype_public_identifier_double_quoted
  run_doctype_public_identifier_double_quoted-Ensures =
      loop-Ensures emits MachineState.doctype_public_identifier_double_quoted
        (round_doctype_public_identifier_double_quoted fuel call)
        round_doctype_public_identifier_double_quoted-Fits fuel
