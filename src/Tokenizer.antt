-- ===== src/Tokenizer.antt =====
-- src/tokenizer.rs: the record `Tokenizer`, and the monad in which the machine's states are written:
-- a call takes the tokenizer and gives an outcome with the tokenizer that it leaves, also where it
-- ends in an error. The operations below are the method calls and macros of src/machine_helper.rs
-- on the parts of a tokenizer.
use html5gum.Base.{ℕ, Bool, Option, none, some}
use html5gum.Base.Bytes.{Bytes}
use html5gum.CharValidator.{CharValidator, set_character_error, flush_character_error}
use html5gum.Emitter.{Emitter}
use html5gum.Errors.{Error}
use html5gum.MachineHelper.{MachineHelper}
use html5gum.Outcome.{Outcome, ok, err, panic, out_of_fuel, from_result, Panic, array_full}
use html5gum.ReadHelper
use html5gum.ReadHelper.{ReadHelper}
use html5gum.Reader.Trait.{Reader}

pub record Tokenizer ⦃R : Reader⦄ ⦃E : Emitter⦄ : Type 0 where
  pub eof : Bool
  pub validator : CharValidator
  pub emitter : E.Self
  pub reader : ReadHelper
  pub machine_helper : MachineHelper

module _ ⦃R : Reader⦄ ⦃E : Emitter⦄ where
  abbrev pub M : Type 0 → Type 0
  M A = Tokenizer → Outcome R.Error A × Tokenizer

  -- What follows a call: an outcome that is no value ends the function.
  abbrev pub followed_by :
      {A B : Type 0} → Outcome R.Error A × Tokenizer → (A → M B) → Outcome R.Error B × Tokenizer
  followed_by (ok a, t) f = f a t
  followed_by (err x, t) f = (err x, t)
  followed_by (panic p, t) f = (panic p, t)
  followed_by (out_of_fuel, t) f = (out_of_fuel, t)

  infixl 5 ◌>>=◌ ◌>>◌
  unfoldable pub ◌>>=◌ : {A B : Type 0} → M A → (A → M B) → M B
  ◌>>=◌ m f t = followed_by (m t) f

  unfoldable pub ◌>>◌ : {A B : Type 0} → M A → M B → M B
  ◌>>◌ m k t = followed_by (m t) (λ _. k)

  unfoldable pub pure : {A : Type 0} → A → M A
  pure a t = (ok a, t)

  unfoldable pub fail : {A : Type 0} → Panic → M A
  fail p t = (panic p, t)

  -- A method of the emitter that returns nothing.
  unfoldable pub emit : (E.Self → E.Self) → M (Unit {0})
  emit f t = (ok tt, record t { emitter = f t.emitter })

  -- A question to the emitter.
  unfoldable pub ask : (E.Self → Bool) → M Bool
  ask f t = (ok (f t.emitter), t)

  unfoldable pub read_byte : M (Option ℕ)
  read_byte t =
      let (c, h, v, e) = ReadHelper.read_byte t.reader t.validator t.emitter in
      (from_result c, record t { reader = h; validator = v; emitter = e })

  unfoldable pub read_until : Bytes → M (Option Bytes)
  read_until needle t =
      let (c, h, v, e) = ReadHelper.read_until needle t.reader t.validator t.emitter in
      (c, record t { reader = h; validator = v; emitter = e })

  unfoldable pub try_read_string : Bytes → Bool → M Bool
  try_read_string s case_sensitive t =
      let (c, h, v) = ReadHelper.try_read_string s case_sensitive t.reader t.validator in
      (c, record t { reader = h; validator = v })

  unfoldable pub unread_byte : Option ℕ → M (Unit {0})
  unread_byte c t = (ok tt, record t { reader = ReadHelper.unread_byte c t.reader })

  -- `error!`.
  unfoldable pub error : Error → M (Unit {0})
  error x t = elim (set_character_error x t.validator t.emitter) [
    | none ↦ (panic array_full, t)
    | some (v, e) ↦ (ok tt, record t { validator = v; emitter = e })
  ]

  unfoldable pub flush_errors : M (Unit {0})
  flush_errors t =
      let (v, e) = flush_character_error t.validator t.emitter in
      (ok tt, record t { validator = v; emitter = e })

  -- `error_immediate!`.
  unfoldable pub error_immediate : Error → M (Unit {0})
  error_immediate x = do error x; flush_errors
