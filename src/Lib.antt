-- ===== src/Lib.antt =====
-- html5gum: a model of the tokenizer of html5gum, the parts of src/ that turn bytes into tokens.
--
-- The program is a state machine. `Tokenizer::next` (src/tokenizer.rs) pops a token from the emitter
-- or runs the function of the machine's current state (src/machine.rs). A state reads through
-- `ReadHelper` (src/read_helper.rs), which normalises newlines, gives the bytes to `CharValidator`
-- (src/char_validator.rs) and asks the `Reader` (src/reader.rs) for more; it reports to an `Emitter`
-- (src/emitters/emitter.rs). `CallbackEmitter` (src/emitters/callback.rs) turns the machine's calls
-- into events, and `DefaultEmitter` (src/emitters/default.rs) turns the events into tokens.
--
-- Which file models which part:
--   Base, Base/*: the shared notation, bytes (`u8` as a number, byte strings as lists), lists.
--   Errors, Errors/Codec: src/error.rs, the enum `Error`, `as_str`, `from_str`.
--   Utils: src/utils.rs. ArrayVec: src/arrayvec.rs. CharValidator: src/char_validator.rs.
--   Reader/Trait: the trait `Reader` as a record. Reader/StringReader: src/reader.rs, `StringReader`.
--   ReadHelper: src/read_helper.rs. MachineHelper, Machine/Ops: src/machine_helper.rs, the enum of
--     states, the helper's record, its methods and the macros in which the states are written.
--   Tokenizer: the record `Tokenizer` and the monad of the states. Iteration: `new_with_emitter`,
--     `set_state` and `Iterator::next` of src/tokenizer.rs.
--   Machine and Machine/*: src/machine.rs, for the state `Foo` its function `run_foo`, whose loop
--     repeats `round_foo`; `Data` is `data_state`. Entities and Entities/*: src/entities.rs.
--   Machine/Reference: the tables and tests of the character references. Machine/Safety/Ready,
--     Machine/Safety/Rules/*, Machine/Safety/Rounds/*, Machine/Safety/Run and Iteration/Safety: the
--     invariant of the machine, a rule for each operation, and its use on every state.
--   Emitter, Emitters/Callback, Emitters/Default: src/emitters/.
--   Tests: concrete runs.
--
-- Readers and emitters are records of functions over a state of their own, as the traits are, and
-- the machine takes any of them as instance arguments. A call takes the tokenizer and gives an
-- outcome with the tokenizer that it leaves; the outcome is a value, the reader's error, a panic or
-- the end of the fuel. `Outcome.Panic` lists the places of src/machine.rs, src/machine_helper.rs,
-- src/read_helper.rs, src/char_validator.rs and src/arrayvec.rs that can panic in a debug build:
-- unwraps, indices, the arithmetic on digits and the debug assertions. The one assertion of these files
-- without a case there is the one of the macro `fast_read_char!` on the literals of a needle, which are
-- single bytes by their spelling. A reader's `read_until` may panic, as the one of `StringReader` does
-- on a needle of more than 16 bytes in the build with jetscii; the search of jetscii is a parameter.
-- A panic inside an emitter's method is not an outcome of the machine: in the model of
-- `CallbackEmitter` it makes the emitter's state `none`. Fuel counts the rounds of a state's loop and
-- the calls from state to state; the statements hold for every amount of fuel, and say so where a run
-- may end for lack of it. The last bytes that the validator keeps and the code of a character
-- reference are `u32`: their wrap-around and their checked arithmetic are written out.
--
-- Not modelled: `IoReader`, whose buffer depends on std::io::Read; src/emitters/html5ever.rs, which
-- drives the html5ever crate; src/htmlstring.rs, a newtype with comparisons; `finish` and
-- `set_last_start_tag` of the tokenizer, which only call methods that are modelled; tracing; tests,
-- benches, examples and the script that generates src/entities.rs.
pub mod Base
pub mod Errors
pub mod Utils
pub mod Emitter
pub mod Outcome
pub mod Reader
pub mod ArrayVec
pub mod CharValidator
pub mod ReadHelper
pub mod Entities
pub mod MachineHelper
pub mod Tokenizer
pub mod Machine
pub mod Iteration
pub mod Emitters
pub mod Tests
