-- ===== src/Reader/Trait.antt =====
-- src/reader.rs: the trait `Reader`, from which the tokenizer takes its input. `Self` is the state
-- of a reader, and `Result<_, Self::Error>` is a sum with the error on the left. The parameter
-- `char_buf` of `read_until`, where a reader may put one byte to borrow it, is not modelled: a
-- chunk is a value. `read_until` may panic: the one of `StringReader` does, on a needle that is too long.
use html5gum.Base.{ℕ, Bool, Option, ◌⊎◌}
use html5gum.Base.Bytes.{Bytes}
use html5gum.Outcome.{Outcome}

pub record Reader : Type 1 where
  pub Self : Type 0
  pub Error : Type 0
  pub read_byte : Self → (Error ⊎ Option ℕ) × Self
  pub try_read_string : Bytes → Bool → Self → (Error ⊎ Bool) × Self
  pub read_until : Bytes → Self → Outcome Error (Option Bytes) × Self
