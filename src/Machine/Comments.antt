-- ===== src/Machine/Comments.antt =====
-- src/machine.rs: the states of comments.
use html5gum.Base.{Bool, not, true, false, ◌&&◌, ◌||◌, [], ◌∷◌, if◌then◌else◌, ℕ}
use html5gum.Base.Bytes.{Bytes, codes}
use html5gum.Tokenizer.{
  M, ◌>>=◌, ◌>>◌, emit, ask, read_byte, read_until, error, try_read_string, pure,
}
use html5gum.Machine.Ops.{
  Flow, chunk, cont, eof, is_any, is_none, is_one_of, is_some, loop, reconsume_in,
  replacement_character, switch_to,
}
use html5gum.MachineHelper.{
  MachineState, ControlToken, bogus_comment, cdata_section, comment, comment_end, comment_end_bang,
  comment_end_dash, comment_less_than_sign, comment_less_than_sign_bang,
  comment_less_than_sign_bang_dash, comment_less_than_sign_bang_dash_dash, comment_start,
  comment_start_dash, data_state, doctype,
}
use html5gum.Errors.{
  abrupt_closing_of_empty_comment, cdata_in_html_content, eof_in_comment,
  incorrectly_closed_comment, incorrectly_opened_comment, nested_comment, unexpected_null_character,
}
use html5gum.Emitter.{Emitter}
use html5gum.Reader.Trait.{Reader}

module _ ⦃R : Reader⦄ ⦃E : Emitter⦄ (fuel : ℕ) (call : MachineState → M ControlToken) where
  -- One round of the loop of `states::BogusComment::run`.
  unfoldable pub round_bogus_comment : M Flow
  round_bogus_comment = do
    xs ← read_until (b'>' ∷ 0x00 ∷ [])
    if is_one_of (b'>' ∷ []) xs
        then (do emit E.emit_current_comment; switch_to data_state)
        else if is_one_of (0x00 ∷ []) xs
        then (do error unexpected_null_character; emit (E.push_comment replacement_character); cont)
        else if is_some xs
        then (do emit (E.push_comment (chunk xs)); cont)
        else (do emit E.emit_current_comment; eof)

  unfoldable pub run_bogus_comment : M ControlToken
  run_bogus_comment = loop fuel round_bogus_comment

  -- The answer of `try_read_string` in the guard of an arm: it is asked if the pattern matches.
  unfoldable pub guard_string : Bool → Bytes → Bool → M Bool
  guard_string matches s case_sensitive =
      if matches then try_read_string s case_sensitive else pure false

  -- The arm of `[CDATA[`.
  unfoldable pub open_cdata : M Flow
  open_cdata = do
    foreign ← ask E.adjusted_current_node_present_but_not_in_html_namespace
    if foreign then switch_to cdata_section else (do
      error cdata_in_html_content
      emit E.init_comment
      emit (E.push_comment (codes "[CDATA["))
      switch_to bogus_comment)

  -- One round of the loop of `states::MarkupDeclarationOpen::run`.
  unfoldable pub round_markup_declaration_open : M Flow
  unfolding guard_string
  round_markup_declaration_open = do
    c ← read_byte
    dashes ← guard_string (is_any (b'-' ∷ []) c) (codes "-") true
    doctype_keyword ←
        guard_string (not dashes && is_any (b'd' ∷ b'D' ∷ []) c) (codes "octype") false
    cdata ←
        guard_string (not dashes && not doctype_keyword && is_any (b'[' ∷ []) c) (codes "CDATA[")
          true
    if dashes
        then (do emit E.init_comment; switch_to comment_start)
        else if doctype_keyword
        then switch_to doctype
        else if cdata
        then open_cdata
        else (do
          error incorrectly_opened_comment
          emit E.init_comment
          reconsume_in c bogus_comment)

  unfoldable pub run_markup_declaration_open : M ControlToken
  run_markup_declaration_open = loop fuel round_markup_declaration_open

  -- One round of the loop of `states::CommentStart::run`.
  unfoldable pub round_comment_start : M Flow
  round_comment_start = do
    c ← read_byte
    if is_any (b'-' ∷ []) c
        then switch_to comment_start_dash
        else if is_any (b'>' ∷ []) c
        then (do
          error abrupt_closing_of_empty_comment
          emit E.emit_current_comment
          switch_to data_state)
        else reconsume_in c comment

  unfoldable pub run_comment_start : M ControlToken
  run_comment_start = loop fuel round_comment_start

  -- One round of the loop of `states::CommentStartDash::run`.
  unfoldable pub round_comment_start_dash : M Flow
  round_comment_start_dash = do
    c ← read_byte
    if is_any (b'-' ∷ []) c
        then switch_to comment_end
        else if is_any (b'>' ∷ []) c
        then (do
          error abrupt_closing_of_empty_comment
          emit E.emit_current_comment
          switch_to data_state)
        else if is_none c
        then (do error eof_in_comment; emit E.emit_current_comment; eof)
        else (do emit (E.push_comment (codes "-")); reconsume_in c comment)

  unfoldable pub run_comment_start_dash : M ControlToken
  run_comment_start_dash = loop fuel round_comment_start_dash

  -- One round of the loop of `states::Comment::run`.
  unfoldable pub round_comment : M Flow
  round_comment = do
    xs ← read_until (b'<' ∷ b'-' ∷ 0x00 ∷ [])
    if is_one_of (b'<' ∷ []) xs
        then (do emit (E.push_comment (codes "<")); switch_to comment_less_than_sign)
        else if is_one_of (b'-' ∷ []) xs
        then switch_to comment_end_dash
        else if is_one_of (0x00 ∷ []) xs
        then (do error unexpected_null_character; emit (E.push_comment replacement_character); cont)
        else if is_some xs
        then (do emit (E.push_comment (chunk xs)); cont)
        else (do error eof_in_comment; emit E.emit_current_comment; eof)

  unfoldable pub run_comment : M ControlToken
  run_comment = loop fuel round_comment

  -- One round of the loop of `states::CommentLessThanSign::run`.
  unfoldable pub round_comment_less_than_sign : M Flow
  round_comment_less_than_sign = do
    c ← read_byte
    if is_any (b'!' ∷ []) c
        then (do emit (E.push_comment (codes "!")); switch_to comment_less_than_sign_bang)
        else if is_any (b'<' ∷ []) c
        then (do emit (E.push_comment (codes "<")); cont)
        else reconsume_in c comment

  unfoldable pub run_comment_less_than_sign : M ControlToken
  run_comment_less_than_sign = loop fuel round_comment_less_than_sign

  -- One round of the loop of `states::CommentLessThanSignBang::run`.
  unfoldable pub round_comment_less_than_sign_bang : M Flow
  round_comment_less_than_sign_bang = do
    c ← read_byte
    if is_any (b'-' ∷ []) c
        then switch_to comment_less_than_sign_bang_dash
        else reconsume_in c comment

  unfoldable pub run_comment_less_than_sign_bang : M ControlToken
  run_comment_less_than_sign_bang = loop fuel round_comment_less_than_sign_bang

  -- One round of the loop of `states::CommentLessThanSignBangDash::run`.
  unfoldable pub round_comment_less_than_sign_bang_dash : M Flow
  round_comment_less_than_sign_bang_dash = do
    c ← read_byte
    if is_any (b'-' ∷ []) c
        then switch_to comment_less_than_sign_bang_dash_dash
        else reconsume_in c comment_end_dash

  unfoldable pub run_comment_less_than_sign_bang_dash : M ControlToken
  run_comment_less_than_sign_bang_dash = loop fuel round_comment_less_than_sign_bang_dash

  -- One round of the loop of `states::CommentLessThanSignBangDashDash::run`.
  unfoldable pub round_comment_less_than_sign_bang_dash_dash : M Flow
  round_comment_less_than_sign_bang_dash_dash = do
    c ← read_byte
    if is_any (b'>' ∷ []) c || is_none c
        then reconsume_in c comment_end
        else (do error nested_comment; reconsume_in c comment_end)

  unfoldable pub run_comment_less_than_sign_bang_dash_dash : M ControlToken
  run_comment_less_than_sign_bang_dash_dash = loop fuel round_comment_less_than_sign_bang_dash_dash

  -- One round of the loop of `states::CommentEndDash::run`.
  unfoldable pub round_comment_end_dash : M Flow
  round_comment_end_dash = do
    c ← read_byte
    if is_any (b'-' ∷ []) c
        then switch_to comment_end
        else if is_none c
        then (do error eof_in_comment; emit E.emit_current_comment; eof)
        else (do emit (E.push_comment (codes "-")); reconsume_in c comment)

  unfoldable pub run_comment_end_dash : M ControlToken
  run_comment_end_dash = loop fuel round_comment_end_dash

  -- One round of the loop of `states::CommentEnd::run`.
  unfoldable pub round_comment_end : M Flow
  round_comment_end = do
    c ← read_byte
    if is_any (b'>' ∷ []) c
        then (do emit E.emit_current_comment; switch_to data_state)
        else if is_any (b'!' ∷ []) c
        then switch_to comment_end_bang
        else if is_any (b'-' ∷ []) c
        then (do emit (E.push_comment (codes "-")); cont)
        else if is_none c
        then (do error eof_in_comment; emit E.emit_current_comment; eof)
        else (do emit (E.push_comment (codes "--")); reconsume_in c comment)

  unfoldable pub run_comment_end : M ControlToken
  run_comment_end = loop fuel round_comment_end

  -- One round of the loop of `states::CommentEndBang::run`.
  unfoldable pub round_comment_end_bang : M Flow
  round_comment_end_bang = do
    c ← read_byte
    if is_any (b'-' ∷ []) c
        then (do emit (E.push_comment (codes "--!")); switch_to comment_end_dash)
        else if is_any (b'>' ∷ []) c
        then (do
          error incorrectly_closed_comment
          emit E.emit_current_comment
          switch_to data_state)
        else if is_none c
        then (do error eof_in_comment; emit E.emit_current_comment; eof)
        else (do emit (E.push_comment (codes "--!")); reconsume_in c comment)

  unfoldable pub run_comment_end_bang : M ControlToken
  run_comment_end_bang = loop fuel round_comment_end_bang
