-- ===== src/Reader/StringReader.antt =====
-- src/reader.rs: `StringReader`, which reads from a byte string in memory, and `fast_find`. The
-- state is the input that is left. It has no error: its `Error` is `Infallible`.
pub mod Contract
use html5gum.Base.{
  ℕ, zero, suc, Bool, true, false, ◌&&◌, ◌||◌, not, List, [], ◌∷◌, Option, none, some, inr, ◌⊎◌,
  if◌then◌else◌, leb,
}
use html5gum.Base.Lists.{length, take, drop}
use html5gum.Base.Bytes.{Bytes, contains, bytes_eq, eq_ignore_ascii_case}
use html5gum.Outcome.{Outcome, ok, err, panic, out_of_fuel, needle_too_long}
use html5gum.Reader.Trait.{Reader}

-- `Infallible` has no value.
abbrev pub Infallible : Type 0
Infallible = ⊥

-- `haystack.iter().position(|b| needle.contains(b))`.
unfoldable pub position : Bytes → Bytes → Option ℕ
unfolding contains
position needle [] = none
position needle (x ∷ xs) =
    if contains needle x
    then some zero
    else elim (position needle xs) [ none ↦ none | some n ↦ some (suc n) ]

-- The feature `jetscii`. With it, the search is `jetscii::Bytes::new(..).find`, from another
-- package, so that it stands here as a function of the needle and the haystack.
pub data Build : Type 0 where
  without_jetscii : Build
  with_jetscii : (Bytes → Bytes → Option ℕ) → Build

-- `fast_find`, with both of its arms; the needle of the one with jetscii is copied to 16 bytes.
unfoldable pub fast_find : Build → Bytes → Bytes → Outcome Infallible (Option ℕ)
fast_find without_jetscii needle haystack = ok (position needle haystack)
fast_find (with_jetscii find) needle haystack =
    if leb (length needle) 16 then ok (find needle haystack) else panic needle_too_long

unfoldable pub read_byte : Bytes → (Infallible ⊎ Option ℕ) × Bytes
read_byte [] = (inr none, [])
read_byte (x ∷ rest) = (inr (some x), rest)

-- `self.input.split_at(n)`, with the chunk returned and the rest kept.
abbrev pub split_at : ℕ → Bytes → Outcome Infallible (Option Bytes) × Bytes
split_at n input = (ok (some (take n input)), drop n input)

-- The arms of `read_until` on what `fast_find` gave.
unfoldable pub split_found :
    Outcome Infallible (Option ℕ) → Bytes → Outcome Infallible (Option Bytes) × Bytes
split_found (ok none) input = (ok (some input), [])
split_found (ok (some zero)) input = split_at 1 input
split_found (ok (some (suc n))) input = split_at (suc n) input
split_found (err x) input = (err x, input)
split_found (panic p) input = (panic p, input)
split_found out_of_fuel input = (out_of_fuel, input)

unfoldable pub read_until : Build → Bytes → Bytes → Outcome Infallible (Option Bytes) × Bytes
unfolding fast_find split_found
read_until build needle [] = (ok none, [])
read_until build needle (x ∷ rest) = split_found (fast_find build needle (x ∷ rest)) (x ∷ rest)

-- `self.input.get(..n)`.
get_prefix : ℕ → Bytes → Option Bytes
get_prefix zero xs = some []
get_prefix (suc n) [] = none
get_prefix (suc n) (x ∷ xs) = elim (get_prefix n xs) [ none ↦ none | some p ↦ some (x ∷ p) ]

unfoldable pub try_read_string : Bytes → Bool → Bytes → (Infallible ⊎ Bool) × Bytes
unfolding get_prefix bytes_eq eq_ignore_ascii_case
try_read_string s1 case_sensitive input = elim (get_prefix (length s1) input) [
  | none ↦ (inr false, input)
  | some s2 ↦
      if bytes_eq s1 s2 || (not case_sensitive && eq_ignore_ascii_case s1 s2)
      then (inr true, drop (length s1) input)
      else (inr false, input)
]

abbrev pub string_reader : Build → Reader
string_reader build = record {
  Self = Bytes;
  Error = Infallible;
  read_byte = read_byte;
  try_read_string = try_read_string;
  read_until = read_until build;
}
