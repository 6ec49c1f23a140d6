-- ===== src/Reader/StringReader/Contract.antt =====
-- src/reader.rs: `StringReader` does what the documentation of the trait `Reader` asks.
use html5gum.Base.{
  ℕ, zero, suc, Bool, true, false, ◌&&◌, ◌||◌, not, [], ◌∷◌, ◌++◌, Option, none, some, inl, inr,
  ◌⊎◌, ◌≡◌, ◌≢◌, ◌↔◌, ◌≤◌, ◌<◌, leb, refl, arith, if◌then◌else◌, Bool-cases, Option-cases,
}
use html5gum.Base.Lists.{length, drop}
use html5gum.Base.Bytes.{Bytes, contains, bytes_eq, eq_ignore_ascii_case, to_ascii_lowercase}
use html5gum.Outcome.{Outcome, ok, panic, NoPanic, needle_too_long}
use html5gum.Reader.StringReader.{
  Build, without_jetscii, with_jetscii, position, split_found, read_until, try_read_string,
  get_prefix, Infallible,
}

-- No byte of the text is in the needle.
abbrev pub Avoids : Bytes → Bytes → Type 0
Avoids needle [] = Unit
Avoids needle (x ∷ xs) = (contains needle x ≡ false) × Avoids needle xs

-- The text is empty, or starts with a byte of the needle.
abbrev pub StartsIn : Bytes → Bytes → Type 0
StartsIn needle [] = Unit
StartsIn needle (x ∷ xs) = contains needle x ≡ true

-- The search of jetscii finds the first byte of the needle, for a needle of at most 16 bytes, as
-- its documentation says.
abbrev pub FindsFirst : Build → Type 0
FindsFirst without_jetscii = Unit
FindsFirst (with_jetscii find) =
    (needle haystack : Bytes) → length needle ≤ 16 → find needle haystack ≡ position needle haystack

abbrev pub uses_jetscii : Build → Bool
uses_jetscii without_jetscii = false
uses_jetscii (with_jetscii _) = true

-- What `read_until` may return for an input: the end, a single byte of the needle, or a chunk
-- that is not empty, holds no byte of the needle and is as long as it can be; or it panics, with
-- jetscii and a needle of more than 16 bytes.
pub data Chunk (build : Build) (needle : Bytes) (input : Bytes)
    : Outcome Infallible (Option Bytes) × Bytes → Type 0 where
  at_end : input ≡ [] → Chunk build needle input (ok none, [])
  found :
      (x : ℕ) (rest : Bytes)
      → contains needle x ≡ true
      → input ≡ x ∷ rest
      → Chunk build needle input (ok (some (x ∷ [])), rest)
  skipped :
      (xs rest : Bytes)
      → xs ≢ []
      → Avoids needle xs
      → StartsIn needle rest
      → input ≡ xs ++ rest
      → Chunk build needle input (ok (some xs), rest)
  too_long :
      uses_jetscii build ≡ true
      → 16 < length needle
      → input ≢ []
      → Chunk build needle input (panic needle_too_long, input)

split_found-NoPanic : (r : Option ℕ) (input : Bytes) → NoPanic (split_found (ok r) input).0
unfolding split_found
split_found-NoPanic none input = tt
split_found-NoPanic (some zero) input = tt
split_found-NoPanic (some (suc n)) input = tt

-- On a needle of at most 16 bytes it does not panic.
pub read_until-NoPanic :
    (build : Build) (needle input : Bytes)
    → length needle ≤ 16
    → NoPanic (read_until build needle input).0
unfolding read_until
read_until-NoPanic build needle [] h = tt
read_until-NoPanic without_jetscii needle (x ∷ rest) h =
    split_found-NoPanic (position needle (x ∷ rest)) (x ∷ rest)
read_until-NoPanic (with_jetscii find) needle (x ∷ rest) h =
    rw (short needle h) (split_found-NoPanic (find needle (x ∷ rest)) (x ∷ rest))
  where
    short : (ys : Bytes) → length ys ≤ 16 → leb (length ys) 16 ≡ true
    short ys q = ground arith

-- The input starts with the text, up to case unless the match is case-sensitive.
abbrev pub StartsWith : Bool → Bytes → Bytes → Type 0
StartsWith case_sensitive [] input = Unit
StartsWith case_sensitive (x ∷ s) [] = ⊥
StartsWith true (x ∷ s) (y ∷ input) = (x ≡ y) × StartsWith true s input
StartsWith false (x ∷ s) (y ∷ input) =
    (to_ascii_lowercase x ≡ to_ascii_lowercase y) × StartsWith false s input

-- The same as one test over both lists.
prefix_test : Bool → Bytes → Bytes → Bool
unfolding get_prefix
prefix_test cs s input = elim (get_prefix (length s) input) [
  | none ↦ false
  | some s2 ↦ bytes_eq s s2 || (not cs && eq_ignore_ascii_case s s2)
]

eq_ignore_of_eq :
    (s t : Bytes) → (bytes_eq s t || eq_ignore_ascii_case s t) ≡ eq_ignore_ascii_case s t
unfolding bytes_eq eq_ignore_ascii_case
eq_ignore_of_eq (x ∷ s) (y ∷ t) = ground (arith, eq_ignore_of_eq s t)
eq_ignore_of_eq _ _ = ground arith

-- The second test alone decides a match that ignores case.
ignoring_case : Bytes → Bytes → Bool
ignoring_case s input = elim (get_prefix (length s) input) [
  | none ↦ false
  | some s2 ↦ eq_ignore_ascii_case s s2
]

prefix_test-ignoring_case : (s input : Bytes) → prefix_test false s input ≡ ignoring_case s input
unfolding prefix_test ignoring_case
prefix_test-ignoring_case s input = elim (Option-cases (get_prefix (length s) input)) [
  | inl e ↦ rw (e, prefix_test, ignoring_case)
  | inr (s2, e) ↦ rw (e, prefix_test, ignoring_case) (eq_ignore_of_eq s s2)
]

ignoring_case_iff : (s input : Bytes) → (ignoring_case s input ≡ true) ↔ StartsWith false s input
unfolding ignoring_case get_prefix eq_ignore_ascii_case
ignoring_case_iff [] input = ground arith
ignoring_case_iff (x ∷ s) [] = ground arith
ignoring_case_iff (x ∷ s) (y ∷ input) = ground (arith, ignoring_case_iff s input)

prefix_test_iff :
    (cs : Bool) (s input : Bytes) → (prefix_test cs s input ≡ true) ↔ StartsWith cs s input
unfolding prefix_test bytes_eq
prefix_test_iff false s input = rw prefix_test-ignoring_case (ignoring_case_iff s input)
prefix_test_iff true [] input = ground arith
prefix_test_iff true (x ∷ s) [] = ground arith
prefix_test_iff true (x ∷ s) (y ∷ input) = ground (arith, prefix_test_iff true s input)

if_pair :
    (b : Bool) (u v : Bytes)
    → ◌≡◌ {A = (Infallible ⊎ Bool) × Bytes}
        (if b then (inr true, u) else (inr false, v))
        (inr b, if b then u else v)
if_pair true u v = refl
if_pair false u v = refl

try_read_string-prefix_test :
    (cs : Bool) (s input : Bytes)
    → try_read_string s cs input ≡ (
      inr (prefix_test cs s input),
      if prefix_test cs s input then drop (length s) input else input,
    )
unfolding try_read_string prefix_test
try_read_string-prefix_test cs s input = elim (Option-cases (get_prefix (length s) input)) [
  | inl e ↦ rw (e, try_read_string, prefix_test)
  | inr (s2, e) ↦
      rw (e, try_read_string, prefix_test)
        (if_pair (bytes_eq s s2 || not cs && eq_ignore_ascii_case s s2) (drop (length s) input)
          input)
]

-- `StringReader::try_read_string` has two outcomes: the input starts with the text, up to ASCII
-- case unless the match is case-sensitive, and the call returns `true` and takes it off the
-- input; or the input does not, and the call returns `false` and leaves the input alone.
pub try_read_string-StartsWith :
    (s : Bytes) (cs : Bool) (input : Bytes)
    → (StartsWith cs s input × (try_read_string s cs input ≡ (inr true, drop (length s) input)))
      ⊎ ((¬ StartsWith cs s input) × (try_read_string s cs input ≡ (inr false, input)))
try_read_string-StartsWith s cs input = elim (Bool-cases (prefix_test cs s input)) [
  | inl b ↦ inl ((prefix_test_iff cs s input).0 b, rw (try_read_string-prefix_test, b))
  | inr b ↦ inr (λ h. cc (b, (prefix_test_iff cs s input).1 h), rw (try_read_string-prefix_test, b))
]
