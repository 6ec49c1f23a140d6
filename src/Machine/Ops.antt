-- ===== src/Machine/Ops.antt =====
-- src/machine_helper.rs and src/read_helper.rs: the methods of `MachineHelper`, and the macros in
-- which the states are written, over the monad of a tokenizer.
use html5gum.Base.{
  ◌&&◌, ℕ, zero, suc, ◌+◌, ◌-◌, ◌*◌, ◌^◌, Bool, true, false, [], ◌∷◌, ◌++◌, Option, none, some, ltb,
  if◌then◌else◌,
}
use html5gum.Base.Bytes.{Bytes, contains, within}
use html5gum.Emitter.{Emitter, State}
use html5gum.MachineHelper
use html5gum.MachineHelper.{MachineState, MachineHelper, ControlToken, into}
use html5gum.Outcome.{
  ok, panic, out_of_fuel, no_return_state, nested_return_state, no_chunk, empty_chunk,
  subtraction_underflow, invalid_inline,
}
use html5gum.Reader.Trait.{Reader}
use html5gum.Tokenizer.{M, ◌>>=◌, ◌>>◌, pure, emit, unread_byte, fail}

-- What a round of a state's loop ends in: `continue`, or the value that `break` gives.
pub data Flow : Type 0 where
  again : Flow
  stop : ControlToken → Flow

-- The tests that the patterns of a state make on the byte read, and the byte as a slice, `&[x]`.
unfoldable pub holds : (ℕ → Bool) → Option ℕ → Bool
holds p none = false
holds p (some x) = p x

unfoldable pub is_any : Bytes → Option ℕ → Bool
unfolding holds
is_any bs c = holds (contains bs) c

unfoldable pub is_in : ℕ → ℕ → Option ℕ → Bool
unfolding holds
is_in lo hi c = holds (within lo hi) c

abbrev pub is_none {ℓ} : {A : Type ℓ} → Option A → Bool
is_none none = true
is_none (some _) = false

abbrev pub is_some {ℓ} : {A : Type ℓ} → Option A → Bool
is_some none = false
is_some (some _) = true

abbrev pub bytes : Option ℕ → Bytes
bytes none = []
bytes (some x) = x ∷ []

-- The tests on a chunk: is it one of these bytes?
unfoldable pub is_one_of : Bytes → Option Bytes → Bool
unfolding contains
is_one_of bs none = false
is_one_of bs (some []) = false
is_one_of bs (some (x ∷ [])) = contains bs x
is_one_of bs (some (x ∷ y ∷ xs)) = false

abbrev pub chunk : Option Bytes → Bytes
chunk none = []
chunk (some xs) = xs

-- `xs[0]`, where the pattern has matched a chunk of one byte.
abbrev pub first : Option Bytes → Option ℕ
first (some (x ∷ [])) = some x
first _ = none

-- `"\u{fffd}".as_bytes()`.
abbrev pub replacement_character : Bytes
replacement_character = 0xef ∷ 0xbf ∷ 0xbd ∷ []

-- `state.map(Into::into).unwrap_or(..)`.
abbrev pub requested_or : MachineState → Option State → MachineState
requested_or s none = s
requested_or s (some asked) = into asked

-- `checked_mul(mul).and_then(|cr| cr.checked_add(x as u32 - sub))` on a `u32`.
abbrev pub next_code : ℕ → ℕ → ℕ → ℕ → ℕ
next_code mul sub x code =
    let cr = code * mul + (x - sub) in
    if ltb (code * mul) (2 ^ 32) then if ltb cr (2 ^ 32) then cr else 0x11_0000 else 0x11_0000

module _ ⦃R : Reader⦄ ⦃E : Emitter⦄ where
  -- An assignment to fields of the machine helper.
  unfoldable pub helper : (MachineHelper → MachineHelper) → M (Unit {0})
  helper f t = (ok tt, record t { machine_helper = f t.machine_helper })

  unfoldable pub clear_buffer : M (Unit {0})
  unfolding helper
  clear_buffer = helper (λ m. record m { temporary_buffer = [] })

  unfoldable pub push_buffer : Bytes → M (Unit {0})
  unfolding helper
  push_buffer xs = helper (λ m. record m { temporary_buffer = m.temporary_buffer ++ xs })

  unfoldable pub set_code : ℕ → M (Unit {0})
  unfolding helper
  set_code n = helper (λ m. record m { character_reference_code = n })

  unfoldable pub get_buffer : M Bytes
  get_buffer t = (ok t.machine_helper.temporary_buffer, t)

  unfoldable pub get_code : M ℕ
  get_code t = (ok t.machine_helper.character_reference_code, t)

  unfoldable pub is_consumed_as_part_of_an_attribute : M Bool
  is_consumed_as_part_of_an_attribute t =
      (ok (MachineHelper.is_consumed_as_part_of_an_attribute t.machine_helper), t)

  -- `MachineHelper::switch_to`.
  unfoldable pub set_state : MachineState → M (Unit {0})
  unfolding helper
  set_state s = helper (λ m. record m { state = s })

  unfoldable pub flush_buffer_characters : M (Unit {0})
  flush_buffer_characters = do buffer ← get_buffer; emit (E.emit_string buffer); clear_buffer

  unfoldable pub flush_code_points_consumed_as_character_reference : M (Unit {0})
  unfolding flush_buffer_characters
  flush_code_points_consumed_as_character_reference = do
    attribute ← is_consumed_as_part_of_an_attribute
    buffer ← get_buffer
    if attribute
        then emit (E.push_attribute_value buffer) >> clear_buffer
        else flush_buffer_characters

  -- `MachineHelper::pop_return_state`.
  unfoldable pub pop_return_state : M MachineState
  pop_return_state t = elim t.machine_helper.return_state [
    | none ↦ (panic no_return_state, t)
    | some (s, _) ↦
        (ok s, record t { machine_helper = record (t.machine_helper) { return_state = none } })
  ]

  -- `MachineHelper::enter_state`, with its debug assertion.
  unfoldable pub push_return_state : Bool → M (Unit {0})
  push_return_state attribute t = elim t.machine_helper.return_state [
    | some _ ↦ (panic nested_return_state, t)
    | none ↦ (
      ok tt,
      record t {
        machine_helper = record (t.machine_helper) {
          return_state = some (t.machine_helper.state, attribute);
        };
      },
    )
  ]

  -- The macros that end a round.
  unfoldable pub cont : M Flow
  cont = pure again

  unfoldable pub eof : M Flow
  eof = pure (stop ControlToken.eof)

  unfoldable pub continue : M Flow
  continue = pure (stop ControlToken.continue)

  unfoldable pub switch_to : MachineState → M Flow
  switch_to s = pure (stop (ControlToken.switch_to s))

  unfoldable pub enter_state : MachineState → Bool → M Flow
  enter_state s attribute = do push_return_state attribute; set_state s; continue

  unfoldable pub exit_state : M Flow
  exit_state = do s ← pop_return_state; set_state s; continue

  unfoldable pub reconsume_in : Option ℕ → MachineState → M Flow
  reconsume_in c s = do unread_byte c; switch_to s

  unfoldable pub reconsume_in_return_state : Option ℕ → M Flow
  reconsume_in_return_state c = do s ← pop_return_state; unread_byte c; switch_to s

  unfoldable pub emit_current_tag : M (Option State)
  emit_current_tag t = let (s, e) = E.emit_current_tag t.emitter in (ok s, record t { emitter = e })

  unfoldable pub emit_current_tag_and_switch_to : MachineState → M Flow
  emit_current_tag_and_switch_to s = do
    asked ← emit_current_tag
    set_state (requested_or s asked)
    continue

  -- `x as u32 - sub`, which is evaluated only if the multiplication did not overflow.
  unfoldable pub subtract : Bool → ℕ → ℕ → M (Unit {0})
  subtract evaluated x sub = if evaluated && ltb x sub then fail subtraction_underflow else pure tt

  unfoldable pub mutate_character_reference : ℕ → ℕ → Option ℕ → M (Unit {0})
  unfolding subtract
  mutate_character_reference mul sub none = pure tt
  mutate_character_reference mul sub (some x) = do
    code ← get_code
    subtract (ltb (code * mul) (2 ^ 32)) x sub
    set_code (next_code mul sub x code)

  -- `xs.unwrap()`, and the index in `xs.unwrap()[0]`.
  unfoldable pub unwrap : Option Bytes → M Bytes
  unwrap none = fail no_chunk
  unwrap (some xs) = pure xs

  unfoldable pub index_0 : Bytes → M ℕ
  index_0 [] = fail empty_chunk
  index_0 (x ∷ xs) = pure x

  -- `ControlToken::inline_next_state`: `call` is the function of a state. In release builds the
  -- second arm gives the token back.
  unfoldable pub inline_next_state : (MachineState → M ControlToken) → ControlToken → M Flow
  inline_next_state call (ControlToken.switch_to s) = do
    set_state s
    token ← call s
    pure (stop token)
  inline_next_state call _ = fail invalid_inline

  unfoldable pub after_round : M ControlToken → Flow → M ControlToken
  after_round more again = more
  after_round more (stop token) = pure token

  -- The loop of `slow_read_byte!` and `fast_read_char!`.
  unfoldable pub loop : ℕ → M Flow → M ControlToken
  unfolding after_round
  loop zero round t = (out_of_fuel, t)
  loop (suc fuel) round t = let more = loop fuel round in (round >>= after_round more) t
