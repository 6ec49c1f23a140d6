-- ===== src/Machine/Safety/Rounds/CommentEnds.antt =====
-- src/machine.rs: rounds of the states in Machine/Comments.antt.
use html5gum.Base.{Bool, ◌||◌, [], ◌∷◌, ℕ}
use html5gum.Base.Bytes.{codes}
use html5gum.Tokenizer.{M}
use html5gum.Machine.Ops.{is_any, is_none}
use html5gum.MachineHelper.{
  MachineState, ControlToken, comment, comment_end, comment_end_bang, comment_end_dash,
  comment_less_than_sign_bang, comment_less_than_sign_bang_dash,
  comment_less_than_sign_bang_dash_dash, data_state,
}
use html5gum.Errors.{eof_in_comment, incorrectly_closed_comment, nested_comment}
use html5gum.Emitter.{Emitter}
use html5gum.Reader.Trait.{Reader}
use html5gum.Machine.Comments.{
  round_comment_less_than_sign, run_comment_less_than_sign, round_comment_less_than_sign_bang,
  run_comment_less_than_sign_bang, round_comment_less_than_sign_bang_dash,
  run_comment_less_than_sign_bang_dash, round_comment_less_than_sign_bang_dash_dash,
  run_comment_less_than_sign_bang_dash_dash, round_comment_end_dash, run_comment_end_dash,
  round_comment_end, run_comment_end, round_comment_end_bang, run_comment_end_bang,
}
use html5gum.Base.{◌≡◌, refl, Option}
use html5gum.Machine.Safety.Ready.{KeepsReady, Trusted, Fits, IsReady, Ensures, AfterToken, budget}
use html5gum.Machine.Safety.Rules.{goes_on, eof-Fits, switch_to-Fits, reconsume_in-Fits, if-Fits}
use html5gum.Machine.Safety.Rules.Neutral.{neutral-then, emit-IsNeutral}
use html5gum.Machine.Safety.Rules.Loops.{loop-Ensures}
use html5gum.Machine.Safety.Rules.Reading.{read_byte-then, error-then}
use html5gum.Machine.Safety.Rules.Ascii.{is_any-Tells, if_ascii-Fits}
use html5gum.Tokenizer.{Tokenizer}

module _ ⦃R : Reader⦄ ⦃E : Emitter⦄ (emits : Bool) (trusted : Trusted emits) (fuel : ℕ)
    (call : MachineState → M ControlToken) (keeps : KeepsReady emits call) where
  pub round_comment_less_than_sign-Fits :
      (c : Option ℕ)
      → Fits emits MachineState.comment_less_than_sign
          (budget MachineState.comment_less_than_sign)
          c
          (round_comment_less_than_sign fuel call)
  unfolding round_comment_less_than_sign
  round_comment_less_than_sign-Fits c = read_byte-then emits trusted refl (λ c.
      (if_ascii-Fits emits (is_any (b'!' ∷ []) c) (is_any-Tells (b'!' ∷ []) c refl)
        (neutral-then emits (emit-IsNeutral emits (E.push_comment (codes "!")))
          (switch_to-Fits emits comment_less_than_sign_bang refl refl))
        (if_ascii-Fits emits (is_any (b'<' ∷ []) c) (is_any-Tells (b'<' ∷ []) c refl)
          (neutral-then emits (emit-IsNeutral emits (E.push_comment (codes "<")))
            (goes_on emits refl))
          (reconsume_in-Fits emits comment refl refl))))

  pub run_comment_less_than_sign-Ensures :
      (t : Tokenizer)
      → IsReady emits MachineState.comment_less_than_sign t
      → t.machine_helper.state ≡ MachineState.comment_less_than_sign
      → Ensures emits (AfterToken emits) (run_comment_less_than_sign fuel call t)
  unfolding run_comment_less_than_sign
  run_comment_less_than_sign-Ensures =
      loop-Ensures emits MachineState.comment_less_than_sign
        (round_comment_less_than_sign fuel call) round_comment_less_than_sign-Fits fuel

  pub round_comment_less_than_sign_bang-Fits :
      (c : Option ℕ)
      → Fits emits MachineState.comment_less_than_sign_bang
          (budget MachineState.comment_less_than_sign_bang)
          c
          (round_comment_less_than_sign_bang fuel call)
  unfolding round_comment_less_than_sign_bang
  round_comment_less_than_sign_bang-Fits c = read_byte-then emits trusted refl (λ c.
      (if_ascii-Fits emits (is_any (b'-' ∷ []) c) (is_any-Tells (b'-' ∷ []) c refl)
        (switch_to-Fits emits comment_less_than_sign_bang_dash refl refl)
        (reconsume_in-Fits emits comment refl refl)))

  pub run_comment_less_than_sign_bang-Ensures :
      (t : Tokenizer)
      → IsReady emits MachineState.comment_less_than_sign_bang t
      → t.machine_helper.state ≡ MachineState.comment_less_than_sign_bang
      → Ensures emits (AfterToken emits) (run_comment_less_than_sign_bang fuel call t)
  unfolding run_comment_less_than_sign_bang
  run_comment_less_than_sign_bang-Ensures =
      loop-Ensures emits MachineState.comment_less_than_sign_bang
        (round_comment_less_than_sign_bang fuel call) round_comment_less_than_sign_bang-Fits fuel

  pub round_comment_less_than_sign_bang_dash-Fits :
      (c : Option ℕ)
      → Fits emits MachineState.comment_less_than_sign_bang_dash
          (budget MachineState.comment_less_than_sign_bang_dash)
          c
          (round_comment_less_than_sign_bang_dash fuel call)
  unfolding round_comment_less_than_sign_bang_dash
  round_comment_less_than_sign_bang_dash-Fits c = read_byte-then emits trusted refl (λ c.
      (if_ascii-Fits emits (is_any (b'-' ∷ []) c) (is_any-Tells (b'-' ∷ []) c refl)
        (switch_to-Fits emits comment_less_than_sign_bang_dash_dash refl refl)
        (reconsume_in-Fits emits comment_end_dash refl refl)))

  pub run_comment_less_than_sign_bang_dash-Ensures :
      (t : Tokenizer)
      → IsReady emits MachineState.comment_less_than_sign_bang_dash t
      → t.machine_helper.state ≡ MachineState.comment_less_than_sign_bang_dash
      → Ensures emits (AfterToken emits) (run_comment_less_than_sign_bang_dash fuel call t)
  unfolding run_comment_less_than_sign_bang_dash
  run_comment_less_than_sign_bang_dash-Ensures =
      loop-Ensures emits MachineState.comment_less_than_sign_bang_dash
        (round_comment_less_than_sign_bang_dash fuel call)
        round_comment_less_than_sign_bang_dash-Fits fuel

  pub round_comment_less_than_sign_bang_dash_dash-Fits :
      (c : Option ℕ)
      → Fits emits MachineState.comment_less_than_sign_bang_dash_dash
          (budget MachineState.comment_less_than_sign_bang_dash_dash)
          c
          (round_comment_less_than_sign_bang_dash_dash fuel call)
  unfolding round_comment_less_than_sign_bang_dash_dash
  round_comment_less_than_sign_bang_dash_dash-Fits c = read_byte-then emits trusted refl (λ c.
      (if-Fits emits (is_any (b'>' ∷ []) c || is_none c)
        (reconsume_in-Fits emits comment_end refl refl)
        (error-then emits trusted nested_comment (reconsume_in-Fits emits comment_end refl refl))))

  pub run_comment_less_than_sign_bang_dash_dash-Ensures :
      (t : Tokenizer)
      → IsReady emits MachineState.comment_less_than_sign_bang_dash_dash t
      → t.machine_helper.state ≡ MachineState.comment_less_than_sign_bang_dash_dash
      → Ensures emits (AfterToken emits) (run_comment_less_than_sign_bang_dash_dash fuel call t)
  unfolding run_comment_less_than_sign_bang_dash_dash
  run_comment_less_than_sign_bang_dash_dash-Ensures =
      loop-Ensures emits MachineState.comment_less_than_sign_bang_dash_dash
        (round_comment_less_than_sign_bang_dash_dash fuel call)
        round_comment_less_than_sign_bang_dash_dash-Fits fuel

  pub round_comment_end_dash-Fits :
      (c : Option ℕ)
      → Fits emits MachineState.comment_end_dash
          (budget MachineState.comment_end_dash)
          c
          (round_comment_end_dash fuel call)
  unfolding round_comment_end_dash
  round_comment_end_dash-Fits c = read_byte-then emits trusted refl (λ c.
      (if_ascii-Fits emits (is_any (b'-' ∷ []) c) (is_any-Tells (b'-' ∷ []) c refl)
        (switch_to-Fits emits comment_end refl refl)
        (if-Fits emits (is_none c)
          (error-then emits trusted eof_in_comment
            (neutral-then emits (emit-IsNeutral emits E.emit_current_comment) (eof-Fits emits)))
          (neutral-then emits (emit-IsNeutral emits (E.push_comment (codes "-")))
            (reconsume_in-Fits emits comment refl refl)))))

  pub run_comment_end_dash-Ensures :
      (t : Tokenizer)
      → IsReady emits MachineState.comment_end_dash t
      → t.machine_helper.state ≡ MachineState.comment_end_dash
      → Ensures emits (AfterToken emits) (run_comment_end_dash fuel call t)
  unfolding run_comment_end_dash
  run_comment_end_dash-Ensures =
      loop-Ensures emits MachineState.comment_end_dash (round_comment_end_dash fuel call)
        round_comment_end_dash-Fits fuel

  pub round_comment_end-Fits :
      (c : Option ℕ)
      → Fits emits MachineState.comment_end
          (budget MachineState.comment_end)
          c
          (round_comment_end fuel call)
  unfolding round_comment_end
  round_comment_end-Fits c = read_byte-then emits trusted refl (λ c.
      (if_ascii-Fits emits (is_any (b'>' ∷ []) c) (is_any-Tells (b'>' ∷ []) c refl)
        (neutral-then emits (emit-IsNeutral emits E.emit_current_comment)
          (switch_to-Fits emits data_state refl refl))
        (if_ascii-Fits emits (is_any (b'!' ∷ []) c) (is_any-Tells (b'!' ∷ []) c refl)
          (switch_to-Fits emits comment_end_bang refl refl)
          (if_ascii-Fits emits (is_any (b'-' ∷ []) c) (is_any-Tells (b'-' ∷ []) c refl)
            (neutral-then emits (emit-IsNeutral emits (E.push_comment (codes "-")))
              (goes_on emits refl))
            (if-Fits emits (is_none c)
              (error-then emits trusted eof_in_comment
                (neutral-then emits (emit-IsNeutral emits E.emit_current_comment) (eof-Fits emits)))
              (neutral-then emits (emit-IsNeutral emits (E.push_comment (codes "--")))
                (reconsume_in-Fits emits comment refl refl)))))))

  pub run_comment_end-Ensures :
      (t : Tokenizer)
      → IsReady emits MachineState.comment_end t
      → t.machine_helper.state ≡ MachineState.comment_end
      → Ensures emits (AfterToken emits) (run_comment_end fuel call t)
  unfolding run_comment_end
  run_comment_end-Ensures =
      loop-Ensures emits MachineState.comment_end (round_comment_end fuel call)
        round_comment_end-Fits fuel

  pub round_comment_end_bang-Fits :
      (c : Option ℕ)
      → Fits emits MachineState.comment_end_bang
          (budget MachineState.comment_end_bang)
          c
          (round_comment_end_bang fuel call)
  unfolding round_comment_end_bang
  round_comment_end_bang-Fits c = read_byte-then emits trusted refl (λ c.
      (if_ascii-Fits emits (is_any (b'-' ∷ []) c) (is_any-Tells (b'-' ∷ []) c refl)
        (neutral-then emits (emit-IsNeutral emits (E.push_comment (codes "--!")))
          (switch_to-Fits emits comment_end_dash refl refl))
        (if_ascii-Fits emits (is_any (b'>' ∷ []) c) (is_any-Tells (b'>' ∷ []) c refl)
          (error-then emits trusted incorrectly_closed_comment (
            neutral-then emits (emit-IsNeutral emits E.emit_current_comment)
              (switch_to-Fits emits data_state refl refl)))
          (if-Fits emits (is_none c)
            (error-then emits trusted eof_in_comment
              (neutral-then emits (emit-IsNeutral emits E.emit_current_comment) (eof-Fits emits)))
            (neutral-then emits (emit-IsNeutral emits (E.push_comment (codes "--!")))
              (reconsume_in-Fits emits comment refl refl))))))

  pub run_comment_end_bang-Ensures :
      (t : Tokenizer)
      → IsReady emits MachineState.comment_end_bang t
      → t.machine_helper.state ≡ MachineState.comment_end_bang
      → Ensures emits (AfterToken emits) (run_comment_end_bang fuel call t)
  unfolding run_comment_end_bang
  run_comment_end_bang-Ensures =
      loop-Ensures emits MachineState.comment_end_bang (round_comment_end_bang fuel call)
        round_comment_end_bang-Fits fuel
