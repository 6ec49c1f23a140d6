-- ===== src/Machine/Safety/Rules/Ascii.antt =====
-- Behind a test that only an ASCII byte passes there is room for three errors.
use html5gum.Base.Bytes.{contains, is_ascii_alphabetic, is_ascii_alphanumeric}
use html5gum.Machine.Safety.Rules.Neutral.{neutral-then, mutate_character_reference-IsNeutral}
use html5gum.Machine.Ops
use html5gum.Machine.Ops.{holds, is_any, is_in, is_one_of}
use html5gum.CharValidator.{CharValidator}
use html5gum.ReadHelper.Room.{askable}
use html5gum.Base.{
  ℕ, Bool, true, false, ◌&&◌, ◌||◌, [], ◌∷◌, Option, none, some, ◌≡◌, refl, inl, inr, leb, ltb,
  ltb→lt, arith, if◌then◌else◌,
}
use html5gum.Base.Bytes.{Bytes}
use html5gum.CharValidator.Room.{CleanAt, HasRoom}
use html5gum.Emitter.{Emitter}
use html5gum.Machine.Ops.{Flow, first}
use html5gum.Machine.Safety.Ready.{Trusted, budget, Fits}
use html5gum.Machine.Safety.Rules.Reading.{try_read_string-then}
use html5gum.MachineHelper.{MachineState}
use html5gum.Reader.Trait.{Reader}
use html5gum.Tokenizer.{◌>>◌, M, ◌>>=◌, pure, try_read_string}

abbrev pub is_ascii : ℕ → Bool
is_ascii x = ltb x 128

abbrev pub all_ascii : Bytes → Bool
all_ascii [] = true
all_ascii (x ∷ xs) = is_ascii x && all_ascii xs

-- The byte read last is an ASCII byte if the test holds.
pub record Tells (b : Bool) (c : Option ℕ) : Type 0 where
  pub tells : b ≡ true → holds is_ascii c ≡ true

contains-is_ascii :
    (bs : Bytes) (x : ℕ) → all_ascii bs ≡ true → contains bs x ≡ true → is_ascii x ≡ true
unfolding contains
contains-is_ascii [] x a h = cc
contains-is_ascii (y ∷ bs) x a h = ground (arith, contains-is_ascii bs x)

pub is_any-Tells : (bs : Bytes) (c : Option ℕ) → all_ascii bs ≡ true → Tells (is_any bs c) c
unfolding is_any holds
is_any-Tells bs none a = record { tells = λ h. h }
is_any-Tells bs (some x) a = record { tells = contains-is_ascii bs x a }

pub is_one_of-Tells :
    (bs : Bytes) (xs : Option Bytes) → all_ascii bs ≡ true → Tells (is_one_of bs xs) (first xs)
unfolding is_one_of holds
is_one_of-Tells bs none a = record { tells = λ h. h }
is_one_of-Tells bs (some []) a = record { tells = λ h. h }
is_one_of-Tells bs (some (x ∷ [])) a = record { tells = contains-is_ascii bs x a }
is_one_of-Tells bs (some (x ∷ y ∷ xs)) a = record { tells = λ h. cc }

pub is_in-Tells : (lo hi : ℕ) (c : Option ℕ) → is_ascii hi ≡ true → Tells (is_in lo hi c) c
unfolding is_in holds
is_in-Tells lo hi none a = record { tells = λ h. h }
is_in-Tells lo hi (some x) a = record { tells = λ h. ground arith }

pub alphabetic-Tells : (c : Option ℕ) → Tells (holds is_ascii_alphabetic c) c
unfolding holds is_ascii_alphabetic
alphabetic-Tells none = record { tells = λ h. h }
alphabetic-Tells (some x) = record { tells = λ h. ground arith }

pub alphanumeric-Tells : (c : Option ℕ) → Tells (holds is_ascii_alphanumeric c) c
unfolding holds is_ascii_alphanumeric is_ascii_alphabetic
alphanumeric-Tells none = record { tells = λ h. h }
alphanumeric-Tells (some x) = record { tells = λ h. ground arith }

pub or-Tells : (a b : Bool) (c : Option ℕ) → Tells a c → Tells b c → Tells (a || b) c
or-Tells true b c h g = record { tells = λ _. h.tells refl }
or-Tells false b c h g = g

pub and-Tells : (a b : Bool) (c : Option ℕ) → Tells b c → Tells (a && b) c
and-Tells true b c g = g
and-Tells false b c g = record { tells = λ h. cc }

pub and_left-Tells : (a b : Bool) (c : Option ℕ) → Tells a c → Tells (a && b) c
and_left-Tells true b c g = record { tells = λ h. g.tells refl }
and_left-Tells false b c g = record { tells = λ h. cc }

digit_above :
    (lo hi sub : ℕ) (c : Option ℕ)
    → leb sub lo ≡ true
    → is_in lo hi c ≡ true
    → holds (leb sub) c ≡ true
unfolding is_in holds
digit_above lo hi sub none b e = e
digit_above lo hi sub (some x) b e = ground arith

room_of_clean :
    (emits : Bool) (n : ℕ) (c : Option ℕ) (v : CharValidator)
    → holds is_ascii c ≡ true
    → CleanAt c v
    → HasRoom emits n v
    → HasRoom emits 3 v
unfolding holds
room_of_clean emits n none v h k r = cc
room_of_clean emits n (some x) v h (inl large) r = ground (arith, ltb→lt x 128 h)
room_of_clean emits n (some x) v h (inr clean) r = record {
  cap_is = r.cap_is;
  room = rw clean.1 (omega arith);
  silent = r.silent;
}

module _ ⦃R : Reader⦄ ⦃E : Emitter⦄ (emits : Bool) where
  module _ {s : MachineState} {n : ℕ} {c : Option ℕ} where
    pub ascii-Fits :
        {k : M Flow} → holds is_ascii c ≡ true → Fits emits s 3 c k → Fits emits s n c k
    ascii-Fits h g = record {
      run = λ t r. g.run t (record {
        state_is = r.state_is;
        room = room_of_clean emits n c t.validator h r.last r.room;
        last = r.last;
        reconsume = r.reconsume;
        returns = r.returns;
      });
    }

    pub if_ascii-Fits :
        (b : Bool) {k l : M Flow}
        → Tells b c
        → Fits emits s 3 c k
        → Fits emits s n c l
        → Fits emits s n c (if b then k else l)
    if_ascii-Fits true h g g' = ascii-Fits (h.tells refl) g
    if_ascii-Fits false h g g' = g'

    -- The arm of a digit, whose value is the byte less `sub`.
    pub digit-Fits :
        (lo hi mul sub : ℕ) {k l : M Flow}
        → is_ascii hi ≡ true
        → leb sub lo ≡ true
        → Fits emits s 3 c k
        → Fits emits s n c l
        → Fits emits s n c
            (if is_in lo hi c then Ops.mutate_character_reference mul sub c >> k else l)
    digit-Fits lo hi mul sub {k} {l} a b h g = go (is_in lo hi c) refl
      where
        go :
            (t : Bool)
            → is_in lo hi c ≡ t
            → Fits emits s n c (if t then Ops.mutate_character_reference mul sub c >> k else l)
        go false e = g
        go true e = ascii-Fits ((is_in-Tells lo hi c a).tells e) (
            neutral-then emits
              (mutate_character_reference-IsNeutral emits mul sub c (digit_above lo hi sub c b e))
              h)

  module _ {s : MachineState} {n : ℕ} where
    -- A test on the chunk, in whose arm the chunk is a single byte.
    pub one_of-Fits :
        (bs : Bytes) (xs : Option Bytes) (k : Option Bytes → M Flow) {l : M Flow}
        → all_ascii bs ≡ true
        → ((x : ℕ) → Fits emits s 3 (some x) (k (some (x ∷ []))))
        → Fits emits s n (first xs) l
        → Fits emits s n (first xs) (if is_one_of bs xs then k xs else l)
    unfolding is_one_of
    one_of-Fits bs none k a h g = g
    one_of-Fits bs (some []) k a h g = g
    one_of-Fits bs (some (x ∷ y ∷ xs)) k a h g = g
    one_of-Fits bs (some (x ∷ [])) k a h g =
        if_ascii-Fits (is_one_of bs (some (x ∷ []))) (is_one_of-Tells bs (some (x ∷ [])) a) (h x) g

module _ ⦃R : Reader⦄ ⦃E : Emitter⦄ (emits : Bool) (trusted : Trusted emits) where
  module _ {s : MachineState} {n : ℕ} {c : Option ℕ} where
    -- A guard that asks for a text if the pattern matches.
    pub guard-then :
        {f : Bool → M Flow} (b : Bool) (x : Bytes) (cs : Bool)
        → askable x ≡ true
        → leb (budget s) n ≡ true
        → Tells b c
        → ((b' : Bool) → Tells b' c → Fits emits s n c (f b'))
        → Fits emits s n c ((if b then try_read_string x cs else pure false) >>= f)
    unfolding ◌>>=◌ pure
    guard-then true x cs fine enough h k =
        try_read_string-then emits trusted x cs fine enough
          (λ b'. k b' (record { tells = λ _. h.tells refl }))
    guard-then {f} false x cs fine enough h k = k false h
