-- ===== src/Machine/Safety/Ready.antt =====
-- What holds of a tokenizer before the function of a state is called, and while it runs.
use html5gum.Base.{ℕ, Bool, true, false, Option, none, some, ◌≡◌}
use html5gum.CharValidator.Room.{CleanAt, HasRoom}
use html5gum.Emitter.{Emitter}
use html5gum.Machine.Ops.{Flow, again, stop}
use html5gum.MachineHelper.{MachineState, ControlToken}
use html5gum.Outcome.{Outcome, ok, err, panic, out_of_fuel}
use html5gum.ReadHelper.Room.{Accepts, ReconsumeClean}
use html5gum.Reader.Trait.{Reader}
use html5gum.Tokenizer.{Tokenizer, M}

-- The states inside a character reference, entered by `enter_state!`.
abbrev pub is_reference : MachineState → Bool
is_reference MachineState.character_reference = true
is_reference MachineState.named_character_reference = true
is_reference MachineState.ambiguous_ampersand = true
is_reference MachineState.numeric_character_reference = true
is_reference MachineState.hexadecimal_character_reference_start = true
is_reference MachineState.hexadecimal_character_reference = true
is_reference MachineState.decimal_character_reference = true
is_reference MachineState.numeric_character_reference_end = true
is_reference _ = false

-- The states that a character reference may return to.
abbrev pub is_base : MachineState → Bool
is_base MachineState.data_state = true
is_base MachineState.rc_data = true
is_base MachineState.attribute_value_double_quoted = true
is_base MachineState.attribute_value_single_quoted = true
is_base MachineState.attribute_value_unquoted = true
is_base _ = false

-- How many errors about the current character, if it is not ASCII, the machine may still produce
-- from a state on before it reads the start of another one.
abbrev pub budget : MachineState → ℕ
budget MachineState.data_state = 0
budget MachineState.rc_data = 0
budget MachineState.raw_text = 0
budget MachineState.script_data = 0
budget MachineState.plain_text = 0
budget MachineState.rc_data_less_than_sign = 0
budget MachineState.rc_data_end_tag_open = 0
budget MachineState.rc_data_end_tag_name = 0
budget MachineState.raw_text_less_than_sign = 0
budget MachineState.raw_text_end_tag_open = 0
budget MachineState.raw_text_end_tag_name = 0
budget MachineState.script_data_less_than_sign = 0
budget MachineState.script_data_end_tag_open = 0
budget MachineState.script_data_end_tag_name = 0
budget MachineState.script_data_escape_start = 0
budget MachineState.script_data_escape_start_dash = 0
budget MachineState.bogus_comment = 0
budget MachineState.bogus_doctype = 0
budget MachineState.after_attribute_value_quoted = 2
budget MachineState.self_closing_start_tag = 2
budget MachineState.comment_less_than_sign_bang_dash_dash = 2
budget MachineState.doctype = 2
budget MachineState.named_character_reference = 2
budget MachineState.numeric_character_reference = 2
budget MachineState.hexadecimal_character_reference_start = 2
budget MachineState.numeric_character_reference_end = 2
budget MachineState.hexadecimal_character_reference = 3
budget MachineState.decimal_character_reference = 3
budget _ = 1

-- `return_state` inside a reference and outside of one.
abbrev pub ReturnFits : Bool → Option (MachineState × Bool) → Type 0
ReturnFits false o = o ≡ none
ReturnFits true none = ⊥
ReturnFits true (some (r, _)) = is_base r ≡ true

module _ ⦃R : Reader⦄ ⦃E : Emitter⦄ (emits : Bool) where
  -- The function of the state `s` may be called.
  pub record IsReady (s : MachineState) (t : Tokenizer) : Type 0 where
    pub room : HasRoom emits (budget s) t.validator
    pub reconsume : ReconsumeClean t.reader.to_reconsume t.validator
    pub returns : ReturnFits (is_reference s) t.machine_helper.return_state

  -- The function of the state `s` is running; it has read `c` last, and has room for `n` errors.
  pub record IsRunning (s : MachineState) (n : ℕ) (c : Option ℕ) (t : Tokenizer) : Type 0 where
    pub state_is : t.machine_helper.state ≡ s
    pub room : HasRoom emits n t.validator
    pub last : CleanAt c t.validator
    pub reconsume : ReconsumeClean t.reader.to_reconsume t.validator
    pub returns : ReturnFits (is_reference s) t.machine_helper.return_state

  -- A call ends well: it does not panic, and an error of the reader leaves a tokenizer that can
  -- go on in its state.
  abbrev pub Ensures :
      {A : Type 0} → (A → Tokenizer → Type 0) → Outcome R.Error A × Tokenizer → Type 0
  Ensures P (ok a, t) = P a t
  Ensures P (err _, t) = IsReady t.machine_helper.state t
  Ensures P (panic _, t) = ⊥
  Ensures P (out_of_fuel, t) = Unit

  -- What a state's function leaves for the state that comes next.
  abbrev pub AfterToken : ControlToken → Tokenizer → Type 0
  AfterToken ControlToken.eof t = Unit
  AfterToken ControlToken.continue t = IsReady t.machine_helper.state t
  AfterToken (ControlToken.switch_to s) t = IsReady s t

  abbrev pub AfterRound : MachineState → Flow → Tokenizer → Type 0
  AfterRound s again t = IsReady s t × (t.machine_helper.state ≡ s)
  AfterRound s (stop token) t = AfterToken token t

  -- A part of a round of the state `s`.
  pub record Fits (s : MachineState) (n : ℕ) (c : Option ℕ) (m : M Flow) : Type 0 where
    pub run : (t : Tokenizer) → IsRunning s n c t → Ensures (AfterRound s) (m t)

  -- A function for the states that keeps all this.
  abbrev pub KeepsReady : (MachineState → M ControlToken) → Type 0
  KeepsReady call =
      (s : MachineState) (t : Tokenizer)
      → IsReady s t
      → t.machine_helper.state ≡ s
      → Ensures AfterToken (call s t)

  -- What the machine relies on: the emitter does not change its mind about errors, and the reader
  -- does not panic on a needle of at most 13 bytes.
  pub record Trusted : Type 0 where
    pub steady : (e : E.Self) → E.should_emit_errors e ≡ emits
    pub accepts : Accepts
