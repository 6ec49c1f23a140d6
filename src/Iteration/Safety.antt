-- ===== src/Iteration/Safety.antt =====
-- src/tokenizer.rs: the iterator never panics.
use html5gum.Base.{
  ℕ, zero, suc, Bool, true, false, List, [], ◌∷◌, Option, none, some, ◌≡◌, refl, ◌⊎◌, inl, inr,
  arith,
}
use html5gum.Emitter.{Emitter}
use html5gum.Iteration.{new_with_emitter, next, collect, apply_control}
use html5gum.Machine.{run_state}
use html5gum.Machine.Safety.Ready.{IsReady, Ensures, AfterToken}
use html5gum.Machine.Safety.Run.{run_state-KeepsReady}
use html5gum.MachineHelper.{MachineState, ControlToken}
use html5gum.Outcome.{Outcome, ok, err, panic, out_of_fuel}
use html5gum.ReadHelper.Room.{Accepts}
use html5gum.Reader.Trait.{Reader}
use html5gum.Tokenizer.{Tokenizer, M, followed_by}

module _ ⦃R : Reader⦄ ⦃E : Emitter⦄ (emits : Bool) where
  -- The iterator may be asked: the input is at its end, or the state's function may be called.
  abbrev pub IsWellFormed : Tokenizer → Type 0
  IsWellFormed t = (t.eof ≡ true) ⊎ IsReady emits t.machine_helper.state t

  -- A call does not panic, and if it ends, it leaves a tokenizer that may be asked again.
  abbrev pub EndsWell : {A : Type 0} → Outcome R.Error A × Tokenizer → Type 0
  EndsWell (ok _, t) = IsWellFormed t
  EndsWell (err _, t) = IsWellFormed t
  EndsWell (panic _, t) = ⊥
  EndsWell (out_of_fuel, t) = Unit

  -- The function of the first state may be called on a new tokenizer.
  pub new_with_emitter-IsReady :
      (input : R.Self) (e : E.Self)
      → IsReady emits MachineState.data_state (new_with_emitter input e)
  unfolding new_with_emitter
  new_with_emitter-IsReady input e = record {
    room = record { cap_is = refl; room = ground arith; silent = inr (refl, refl) };
    reconsume = tt;
    returns = refl;
  }

  new_with_emitter-IsWellFormed :
      (input : R.Self) (e : E.Self) → IsWellFormed (new_with_emitter input e)
  unfolding new_with_emitter
  new_with_emitter-IsWellFormed input e = inr (new_with_emitter-IsReady input e)

  apply_control-IsWellFormed :
      (control : ControlToken) (t : Tokenizer)
      → AfterToken emits control t
      → IsWellFormed (apply_control control t)
  unfolding apply_control
  apply_control-IsWellFormed ControlToken.eof t p = inl refl
  apply_control-IsWellFormed ControlToken.continue t p = inr p
  apply_control-IsWellFormed (ControlToken.switch_to s) t p =
      inr (record { room = p.room; reconsume = p.reconsume; returns = p.returns })

  -- The emitter may change.
  with_emitter-IsWellFormed :
      (e : E.Self) (t : Tokenizer) → IsWellFormed t → IsWellFormed (record t { emitter = e })
  with_emitter-IsWellFormed e t (inl ended) = inl ended
  with_emitter-IsWellFormed e t (inr p) =
      inr (record { room = p.room; reconsume = p.reconsume; returns = p.returns })

  IsReady-of_going :
      (t : Tokenizer) → t.eof ≡ false → IsWellFormed t → IsReady emits t.machine_helper.state t
  IsReady-of_going t going (inl ended) = cc
  IsReady-of_going t going (inr ready) = ready

  followed_by-EndsWell :
      {A B : Type 0} (P : A → Tokenizer → Type 0) (r : Outcome R.Error A × Tokenizer) (f : A → M B)
      → Ensures emits P r
      → ((a : A) (t : Tokenizer) → P a t → EndsWell (f a t))
      → EndsWell (followed_by r f)
  followed_by-EndsWell P (ok a, t) f p k = k a t p
  followed_by-EndsWell P (err x, t) f p k = inr p
  followed_by-EndsWell P (panic x, t) f p k = p
  followed_by-EndsWell P (out_of_fuel, t) f p k = p

  bind-EndsWell :
      {A B : Type 0} (r : Outcome R.Error A × Tokenizer) (f : A → M B)
      → EndsWell r
      → ((a : A) (t : Tokenizer) → IsWellFormed t → EndsWell (f a t))
      → EndsWell (followed_by r f)
  bind-EndsWell (ok a, t) f p k = k a t p
  bind-EndsWell (err x, t) f p k = p
  bind-EndsWell (panic x, t) f p k = p
  bind-EndsWell (out_of_fuel, t) f p k = p

  module _ (steady : (e : E.Self) → E.should_emit_errors e ≡ emits) (accepts : Accepts) where
    -- `Iterator::next` on a well-formed tokenizer comes to no panic of the machine, of the helpers
    -- it reads through or of the validator, for any emitter that does not change its mind about
    -- errors and any reader that does not panic on a needle of at most 13 bytes; with a token, at the
    -- end, and after an error of the reader, it leaves a well-formed tokenizer. A panic inside a
    -- method of the emitter is not spoken of.
    pub next-EndsWell : (fuel : ℕ) (t : Tokenizer) → IsWellFormed t → EndsWell (next fuel t)
    unfolding next
    next-EndsWell zero t w = tt
    next-EndsWell (suc fuel) t w =
        let u : Tokenizer = record t { emitter = (E.pop_token t.emitter).1 } in
        go (E.pop_token t.emitter).0 u u.eof refl (with_emitter-IsWellFormed u.emitter t w)
          (next-EndsWell fuel)
      where
        go :
            (popped : Option E.Token) (u : Tokenizer) (b : Bool)
            → u.eof ≡ b
            → IsWellFormed u
            → ((v : Tokenizer) → IsWellFormed v → EndsWell (next fuel v))
            → EndsWell {A = Option E.Token} (elim popped [
              | some token ↦ (ok (some token), u)
              | none ↦ elim b [
                | true ↦ (ok none, u)
                | false ↦
                    followed_by
                      (run_state fuel u.machine_helper.state u)
                      (λ control v. next fuel (apply_control control v))
              ]
            ])
        go (some token) u b e w' k = w'
        go none u true e w' k = w'
        go none u false e w' k =
            followed_by-EndsWell (AfterToken emits) (run_state fuel u.machine_helper.state u)
              (λ control v. next fuel (apply_control control v))
              (run_state-KeepsReady emits steady accepts fuel u.machine_helper.state u
                (IsReady-of_going u e w') refl)
              (λ control v p. k (apply_control control v) (apply_control-IsWellFormed control v p))

    collect-IsWellFormed : (fuel : ℕ) (t : Tokenizer) → IsWellFormed t → EndsWell (collect fuel t)
    unfolding collect
    collect-IsWellFormed zero t w = tt
    collect-IsWellFormed (suc fuel) t w =
        bind-EndsWell (next fuel t) _ (next-EndsWell fuel t w) (go (collect-IsWellFormed fuel))
      where
        go :
            ((v : Tokenizer) → IsWellFormed v → EndsWell (collect fuel v))
            → (item : Option E.Token) (u : Tokenizer) → IsWellFormed u
            → EndsWell {A = List E.Token} (elim item [
              | none ↦ (ok [], u)
              | some token ↦ followed_by (collect fuel u) (λ tokens v. (ok (token ∷ tokens), v))
            ])
        go k none u p = p
        go k (some token) u p =
            bind-EndsWell (collect fuel u) (λ tokens v. (ok (token ∷ tokens), v)) (k u p)
              (λ tokens v q. q)

    -- A whole run of a new tokenizer, of whatever length, comes to no panic of the machine, of the
    -- helpers it reads through or of the validator, for any input, any emitter that does not change
    -- its mind about errors, and any reader that does not panic on a needle of at most 13 bytes. So
    -- the buffer of three errors about one character is never too small, `return_state` is there
    -- where it is taken and free where it is set, every numeric character reference gives a `char`,
    -- no needle is too long for the buffer of 13 bytes, no text that is asked for is empty or holds a
    -- carriage return, and no chunk is missing where it is unwrapped. If the run ends, it leaves a
    -- well-formed tokenizer. A panic inside a method of the emitter is not spoken of.
    pub collect-EndsWell :
        (fuel : ℕ) (input : R.Self) (e : E.Self)
        → EndsWell (collect fuel (new_with_emitter input e))
    collect-EndsWell fuel input e =
        collect-IsWellFormed fuel (new_with_emitter input e) (new_with_emitter-IsWellFormed input e)
