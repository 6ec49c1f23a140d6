-- ===== src/Tests.antt =====
-- The theorems at concrete inputs.
use mathlib.Core.List.{append_assoc, append-nil}
use html5gum.Base.{
  arith, ◌≤◌, suc, none, ℕ, List, true, false, [], ◌∷◌, ◌++◌, some, ◌≡◌, refl, ◌↔◌, ◌≢◌, map,
  if◌then◌else◌, ◌⊎◌, inr,
}
use html5gum.Outcome.{NoPanic}
use html5gum.Base.Bytes.{Bytes, codes, bytes_eq, to_ascii_lowercase}
use html5gum.Base.Lists.{length, drop}
use html5gum.Emitters.Default.{AttributeMap, Token, default_emitter, new_emitter}
use html5gum.Iteration.{collect, next, new_with_emitter}
use html5gum.Iteration.Safety.{EndsWell, new_with_emitter-IsReady, next-EndsWell, collect-EndsWell}
use html5gum.Emitters.Callback.{EmitterState, CurrentTag}
use html5gum.Emitters.Callback.Appropriate.{appropriate_iff}
use html5gum.Emitters.Callback.Methods.{current_is_appropriate_end_tag_token}
use html5gum.Emitters.Default.{get, new_callback}
use html5gum.Emitters.Default.Attributes.{attribute, attribute-first_wins}
use html5gum.Emitters.Callback
use html5gum.Machine.Reference.Digits.{code_after, value, code_after-value}
use html5gum.Machine.{run_state}
use html5gum.Machine.Safety.Ready.{AfterToken, Ensures}
use html5gum.Machine.Safety.Run.{run_state-KeepsReady}
use html5gum.MachineHelper.{MachineState}
use html5gum.Errors.{as_str, from_str, eof_in_tag, duplicate_attribute}
use html5gum.Errors.Codec.{from_str_iff}
use html5gum.Machine.Reference.{end_code, end_error}
use html5gum.Machine.Reference.Scalars.{end_code-is_scalar}
use html5gum.CharValidator
use html5gum.ReadHelper
use html5gum.ReadHelper.Newlines.{all_bytes, normalized, all_bytes-normalized}
use html5gum.Reader.StringReader.{
  with_jetscii, Build, position, string_reader, read_until, try_read_string,
}
use html5gum.Reader.StringReader.Contract.{
  read_until-NoPanic, StartsWith, try_read_string-StartsWith,
}
use html5gum.Tokenizer.{Tokenizer}
use html5gum.Utils.{is_scalar, with_lowercase_str}
use html5gum.Utils.Lowercase.{with_lowercase_str-map}

abbrev hello_link : Bytes
hello_link = codes "hello<a>"

try_read_string_example :
    (StartsWith false (codes "HEL") hello_link
      × (try_read_string (codes "HEL") false hello_link
          ≡ (inr true, drop (length (codes "HEL")) hello_link)))
    ⊎ ((¬ StartsWith false (codes "HEL") hello_link)
        × (try_read_string (codes "HEL") false hello_link ≡ (inr false, hello_link)))
try_read_string_example = try_read_string-StartsWith (codes "HEL") false hello_link

from_str_example : (from_str "eof-in-tag" ≡ some eof_in_tag) ↔ (as_str eof_in_tag ≡ "eof-in-tag")
from_str_example = from_str_iff "eof-in-tag" eof_in_tag

end_code_example : is_scalar (end_code 0x99) ≡ true
end_code_example = end_code-is_scalar 0x99

-- The build with jetscii, whose search is taken to be the one of the other build.
abbrev build : Build
build = with_jetscii position

-- A reader on a string keeps to what the machine relies on.
accepts : (needle r : Bytes) → length needle ≤ 13 → NoPanic (read_until build needle r).0
accepts needle r h = read_until-NoPanic build needle r (omega (arith, h))

-- The default emitter on a string, with errors.
abbrev start : Tokenizer ⦃R = string_reader build⦄ ⦃E = default_emitter⦄
start =
    new_with_emitter ⦃R = string_reader build⦄ ⦃E = default_emitter⦄
      (codes "<!DOCTYPE html PUBLIC 'a'><a b=&#1" ++ 0xc3 ∷ 0xa9 ∷ []) new_emitter

collect_example :
    EndsWell ⦃R = string_reader build⦄ ⦃E = default_emitter⦄ true
      (collect ⦃R = string_reader build⦄ ⦃E = default_emitter⦄ 100 start)
collect_example =
    collect-EndsWell ⦃R = string_reader build⦄ ⦃E = default_emitter⦄ true (λ e. refl) accepts 100
      (codes "<!DOCTYPE html PUBLIC 'a'><a b=&#1" ++ 0xc3 ∷ 0xa9 ∷ []) new_emitter

next_example :
    EndsWell ⦃R = string_reader build⦄ ⦃E = default_emitter⦄ true
      (next ⦃R = string_reader build⦄ ⦃E = default_emitter⦄ 100 start)
unfolding new_with_emitter
next_example =
    next-EndsWell ⦃R = string_reader build⦄ ⦃E = default_emitter⦄ true (λ e. refl) accepts 100 start
      (inr (
        new_with_emitter-IsReady ⦃R = string_reader build⦄ ⦃E = default_emitter⦄ true
          (codes "<!DOCTYPE html PUBLIC 'a'><a b=&#1" ++ 0xc3 ∷ 0xa9 ∷ []) new_emitter))

run_state_example :
    Ensures ⦃R = string_reader build⦄ ⦃E = default_emitter⦄ true
      (AfterToken ⦃R = string_reader build⦄ ⦃E = default_emitter⦄ true)
      (run_state ⦃R = string_reader build⦄ ⦃E = default_emitter⦄ 100 MachineState.data_state start)
unfolding new_with_emitter
run_state_example =
    run_state-KeepsReady ⦃R = string_reader build⦄ ⦃E = default_emitter⦄ true (λ e. refl) accepts
      100 MachineState.data_state start
      (new_with_emitter-IsReady ⦃R = string_reader build⦄ ⦃E = default_emitter⦄ true
        (codes "<!DOCTYPE html PUBLIC 'a'><a b=&#1" ++ 0xc3 ∷ 0xa9 ∷ []) new_emitter)
      refl

-- The digits of `&#4294967361;`, whose number is 2 ^ 32 + 65.
abbrev long_digits : List (ℕ × ℕ)
long_digits =
    (b'4', 0x30)
    ∷ (b'2', 0x30)
    ∷ (b'9', 0x30)
    ∷ (b'4', 0x30)
    ∷ (b'9', 0x30)
    ∷ (b'6', 0x30)
    ∷ (b'7', 0x30)
    ∷ (b'3', 0x30)
    ∷ (b'6', 0x30)
    ∷ (b'1', 0x30)
    ∷ []

code_after_example :
    (end_code (code_after 10 long_digits 0) ≡ end_code (value 10 long_digits 0))
    × (end_error (code_after 10 long_digits 0) ≡ end_error (value 10 long_digits 0))
code_after_example = code_after-value 9 long_digits

with_lowercase_str_example :
    with_lowercase_str (codes "aB") (λ xs ys. ys ++ xs) (codes "=")
    ≡ codes "=" ++ map to_ascii_lowercase (codes "aB")
with_lowercase_str_example =
    with_lowercase_str-map (λ xs ys. ys ++ xs) (λ xs ys s. append_assoc s xs ys) append-nil
      (codes "aB") (codes "=")

-- The state of the emitter behind `<title>` and at the end of `</title`.
abbrev in_title : EmitterState
in_title = record Callback.default {
  last_start_tag = codes "title";
  current_tag_type = some CurrentTag.end;
  current_tag_name = codes "title";
}

appropriate_example : (current_is_appropriate_end_tag_token in_title ≡ true) ↔ (
    (in_title.last_start_tag ≢ [])
    × (in_title.current_tag_type ≡ some CurrentTag.end)
    × (in_title.last_start_tag ≡ in_title.current_tag_name))
appropriate_example = appropriate_iff in_title

attribute_example :
    ((w : Bytes) × (get (codes "id") new_callback.attribute_map ≡ some w)
      × (attribute (codes "id") (codes "x") new_callback
          ≡ some
              (Token.error duplicate_attribute ∷ [], record new_callback { attribute_name = [] })))
    ⊎ ((m : AttributeMap) × (get (codes "id") new_callback.attribute_map ≡ none)
        × (attribute (codes "id") (codes "x") new_callback
            ≡ some ([], record new_callback { attribute_name = codes "id"; attribute_map = m }))
        × ((j : Bytes)
            → get j m ≡ (
                if bytes_eq j (codes "id")
                then some (codes "x")
                else get j new_callback.attribute_map)))
attribute_example = attribute-first_wins (codes "id") (codes "x") new_callback (λ e. cc)

abbrev three_lines : Bytes
three_lines = b'a' ∷ b'\r' ∷ b'\n' ∷ b'b' ∷ b'\r' ∷ b'c' ∷ b'\n' ∷ []

all_bytes_example :
    all_bytes ⦃E = default_emitter⦄ build
      (suc (length three_lines))
      (ReadHelper.new ⦃R = string_reader build⦄ three_lines)
      CharValidator.default
      new_emitter
    ≡ normalized false three_lines
all_bytes_example =
    all_bytes-normalized ⦃E = default_emitter⦄ build three_lines CharValidator.default new_emitter

-- What that text is read as.
normalized-three_lines : normalized false three_lines ≡ codes "a\nb\nc\n"
normalized-three_lines = refl
