-- ===== src/Machine/Safety/Rounds/Comments.antt =====
-- src/machine.rs: rounds of the states in Machine/Comments.antt.
use html5gum.Base.{Bool, not, true, false, ◌&&◌, [], ◌∷◌, ℕ}
use html5gum.Base.Bytes.{codes}
use html5gum.Tokenizer.{M}
use html5gum.Machine.Ops.{chunk, is_any, is_none, is_one_of, is_some, replacement_character}
use html5gum.MachineHelper.{
  MachineState, ControlToken, bogus_comment, cdata_section, comment, comment_end, comment_end_dash,
  comment_less_than_sign, comment_start, comment_start_dash, data_state, doctype,
}
use html5gum.Errors.{
  abrupt_closing_of_empty_comment, cdata_in_html_content, eof_in_comment,
  incorrectly_opened_comment, unexpected_null_character,
}
use html5gum.Emitter.{Emitter}
use html5gum.Reader.Trait.{Reader}
use html5gum.Machine.Comments.{
  round_bogus_comment, run_bogus_comment, guard_string, open_cdata, round_markup_declaration_open,
  run_markup_declaration_open, round_comment_start, run_comment_start, round_comment_start_dash,
  run_comment_start_dash, round_comment, run_comment,
}
use html5gum.Base.{◌≡◌, refl, Option}
use html5gum.Machine.Safety.Ready.{KeepsReady, Trusted, Fits, IsReady, Ensures, AfterToken, budget}
use html5gum.Machine.Safety.Rules.{goes_on, eof-Fits, switch_to-Fits, reconsume_in-Fits, if-Fits}
use html5gum.Machine.Safety.Rules.Neutral.{
  neutral-bind, neutral-then, emit-IsNeutral, ask-IsNeutral,
}
use html5gum.Machine.Safety.Rules.Loops.{loop-Ensures}
use html5gum.Machine.Safety.Rules.Reading.{read_byte-then, read_until-then, error-then}
use html5gum.Machine.Safety.Rules.Ascii.{
  is_any-Tells, is_one_of-Tells, and-Tells, if_ascii-Fits, guard-then,
}
use html5gum.Tokenizer.{Tokenizer}
use html5gum.Base.Bytes.{contains}

module _ ⦃R : Reader⦄ ⦃E : Emitter⦄ (emits : Bool) (trusted : Trusted emits) (fuel : ℕ)
    (call : MachineState → M ControlToken) (keeps : KeepsReady emits call) where
  pub round_bogus_comment-Fits :
      (c : Option ℕ)
      → Fits emits MachineState.bogus_comment
          (budget MachineState.bogus_comment)
          c
          (round_bogus_comment fuel call)
  unfolding round_bogus_comment
  round_bogus_comment-Fits c = read_until-then emits trusted (b'>' ∷ 0x00 ∷ []) refl refl (λ xs.
      (if_ascii-Fits emits (is_one_of (b'>' ∷ []) xs) (is_one_of-Tells (b'>' ∷ []) xs refl)
        (neutral-then emits (emit-IsNeutral emits E.emit_current_comment)
          (switch_to-Fits emits data_state refl refl))
        (if_ascii-Fits emits (is_one_of (0x00 ∷ []) xs) (is_one_of-Tells (0x00 ∷ []) xs refl)
          (error-then emits trusted unexpected_null_character (
            neutral-then emits (emit-IsNeutral emits (E.push_comment replacement_character))
              (goes_on emits refl)))
          (if-Fits emits (is_some xs)
            (neutral-then emits (emit-IsNeutral emits (E.push_comment (chunk xs)))
              (goes_on emits refl))
            (neutral-then emits (emit-IsNeutral emits E.emit_current_comment) (eof-Fits emits))))))

  pub run_bogus_comment-Ensures :
      (t : Tokenizer)
      → IsReady emits MachineState.bogus_comment t
      → t.machine_helper.state ≡ MachineState.bogus_comment
      → Ensures emits (AfterToken emits) (run_bogus_comment fuel call t)
  unfolding run_bogus_comment
  run_bogus_comment-Ensures =
      loop-Ensures emits MachineState.bogus_comment (round_bogus_comment fuel call)
        round_bogus_comment-Fits fuel

  pub round_markup_declaration_open-Fits :
      (c : Option ℕ)
      → Fits emits MachineState.markup_declaration_open
          (budget MachineState.markup_declaration_open)
          c
          (round_markup_declaration_open fuel call)
  unfolding round_markup_declaration_open open_cdata guard_string contains
  round_markup_declaration_open-Fits c = read_byte-then emits trusted refl (λ c.
      (guard-then emits trusted (is_any (b'-' ∷ []) c) (codes "-") true refl refl
        (is_any-Tells (b'-' ∷ []) c refl)
        (λ dashes dashes_tells.
          (guard-then emits trusted (not dashes && is_any (b'd' ∷ b'D' ∷ []) c) (codes "octype")
            false refl refl
            (and-Tells (not dashes) (is_any (b'd' ∷ b'D' ∷ []) c) c
              (is_any-Tells (b'd' ∷ b'D' ∷ []) c refl))
            (λ doctype_keyword doctype_keyword_tells.
              (guard-then emits trusted (not dashes && not doctype_keyword && is_any (b'[' ∷ []) c)
                (codes "CDATA[") true refl refl
                (and-Tells (not dashes && not doctype_keyword) (is_any (b'[' ∷ []) c) c
                  (is_any-Tells (b'[' ∷ []) c refl))
                (λ cdata cdata_tells.
                  (if_ascii-Fits emits (dashes) dashes_tells
                    (neutral-then emits (emit-IsNeutral emits E.init_comment)
                      (switch_to-Fits emits comment_start refl refl))
                    (if_ascii-Fits emits (doctype_keyword) doctype_keyword_tells
                      (switch_to-Fits emits doctype refl refl)
                      (if_ascii-Fits emits (cdata) cdata_tells
                        (neutral-bind emits
                          (ask-IsNeutral emits
                            E.adjusted_current_node_present_but_not_in_html_namespace)
                          (λ foreign.
                            (if-Fits emits (foreign) (switch_to-Fits emits cdata_section refl refl)
                              (error-then emits trusted cdata_in_html_content (
                                neutral-then emits (emit-IsNeutral emits E.init_comment) (
                                  neutral-then emits
                                    (emit-IsNeutral emits (E.push_comment (codes "[CDATA[")))
                                    (switch_to-Fits emits bogus_comment refl refl)))))))
                        (error-then emits trusted incorrectly_opened_comment (
                          neutral-then emits (emit-IsNeutral emits E.init_comment)
                            (reconsume_in-Fits emits bogus_comment refl refl)))))))))))))

  pub run_markup_declaration_open-Ensures :
      (t : Tokenizer)
      → IsReady emits MachineState.markup_declaration_open t
      → t.machine_helper.state ≡ MachineState.markup_declaration_open
      → Ensures emits (AfterToken emits) (run_markup_declaration_open fuel call t)
  unfolding run_markup_declaration_open
  run_markup_declaration_open-Ensures =
      loop-Ensures emits MachineState.markup_declaration_open
        (round_markup_declaration_open fuel call) round_markup_declaration_open-Fits fuel

  pub round_comment_start-Fits :
      (c : Option ℕ)
      → Fits emits MachineState.comment_start
          (budget MachineState.comment_start)
          c
          (round_comment_start fuel call)
  unfolding round_comment_start
  round_comment_start-Fits c = read_byte-then emits trusted refl (λ c.
      (if_ascii-Fits emits (is_any (b'-' ∷ []) c) (is_any-Tells (b'-' ∷ []) c refl)
        (switch_to-Fits emits comment_start_dash refl refl)
        (if_ascii-Fits emits (is_any (b'>' ∷ []) c) (is_any-Tells (b'>' ∷ []) c refl)
          (error-then emits trusted abrupt_closing_of_empty_comment (
            neutral-then emits (emit-IsNeutral emits E.emit_current_comment)
              (switch_to-Fits emits data_state refl refl)))
          (reconsume_in-Fits emits comment refl refl))))

  pub run_comment_start-Ensures :
      (t : Tokenizer)
      → IsReady emits MachineState.comment_start t
      → t.machine_helper.state ≡ MachineState.comment_start
      → Ensures emits (AfterToken emits) (run_comment_start fuel call t)
  unfolding run_comment_start
  run_comment_start-Ensures =
      loop-Ensures emits MachineState.comment_start (round_comment_start fuel call)
        round_comment_start-Fits fuel

  pub round_comment_start_dash-Fits :
      (c : Option ℕ)
      → Fits emits MachineState.comment_start_dash
          (budget MachineState.comment_start_dash)
          c
          (round_comment_start_dash fuel call)
  unfolding round_comment_start_dash
  round_comment_start_dash-Fits c = read_byte-then emits trusted refl (λ c.
      (if_ascii-Fits emits (is_any (b'-' ∷ []) c) (is_any-Tells (b'-' ∷ []) c refl)
        (switch_to-Fits emits comment_end refl refl)
        (if_ascii-Fits emits (is_any (b'>' ∷ []) c) (is_any-Tells (b'>' ∷ []) c refl)
          (error-then emits trusted abrupt_closing_of_empty_comment (
            neutral-then emits (emit-IsNeutral emits E.emit_current_comment)
              (switch_to-Fits emits data_state refl refl)))
          (if-Fits emits (is_none c)
            (error-then emits trusted eof_in_comment
              (neutral-then emits (emit-IsNeutral emits E.emit_current_comment) (eof-Fits emits)))
            (neutral-then emits (emit-IsNeutral emits (E.push_comment (codes "-")))
              (reconsume_in-Fits emits comment refl refl))))))

  pub run_comment_start_dash-Ensures :
      (t : Tokenizer)
      → IsReady emits MachineState.comment_start_dash t
      → t.machine_helper.state ≡ MachineState.comment_start_dash
      → Ensures emits (AfterToken emits) (run_comment_start_dash fuel call t)
  unfolding run_comment_start_dash
  run_comment_start_dash-Ensures =
      loop-Ensures emits MachineState.comment_start_dash (round_comment_start_dash fuel call)
        round_comment_start_dash-Fits fuel

  pub round_comment-Fits :
      (c : Option ℕ)
      → Fits emits MachineState.comment (budget MachineState.comment) c (round_comment fuel call)
  unfolding round_comment
  round_comment-Fits c = read_until-then emits trusted (b'<' ∷ b'-' ∷ 0x00 ∷ []) refl refl (λ xs.
      (if_ascii-Fits emits (is_one_of (b'<' ∷ []) xs) (is_one_of-Tells (b'<' ∷ []) xs refl)
        (neutral-then emits (emit-IsNeutral emits (E.push_comment (codes "<")))
          (switch_to-Fits emits comment_less_than_sign refl refl))
        (if_ascii-Fits emits (is_one_of (b'-' ∷ []) xs) (is_one_of-Tells (b'-' ∷ []) xs refl)
          (switch_to-Fits emits comment_end_dash refl refl)
          (if_ascii-Fits emits (is_one_of (0x00 ∷ []) xs) (is_one_of-Tells (0x00 ∷ []) xs refl)
            (error-then emits trusted unexpected_null_character (
              neutral-then emits (emit-IsNeutral emits (E.push_comment replacement_character))
                (goes_on emits refl)))
            (if-Fits emits (is_some xs)
              (neutral-then emits (emit-IsNeutral emits (E.push_comment (chunk xs)))
                (goes_on emits refl))
              (error-then emits trusted eof_in_comment (
                neutral-then emits (emit-IsNeutral emits E.emit_current_comment)
                  (eof-Fits emits))))))))

  pub run_comment-Ensures :
      (t : Tokenizer)
      → IsReady emits MachineState.comment t
      → t.machine_helper.state ≡ MachineState.comment
      → Ensures emits (AfterToken emits) (run_comment fuel call t)
  unfolding run_comment
  run_comment-Ensures =
      loop-Ensures emits MachineState.comment (round_comment fuel call) round_comment-Fits fuel
