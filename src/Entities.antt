-- ===== src/Entities.antt =====
-- src/entities.rs: `CharRef` and `try_read_character_reference`. The tables stand in the children.
pub mod Shape
pub mod UpperAToUpperE
pub mod UpperFToUpperL
pub mod UpperMToUpperQ
pub mod UpperRToUpperU
pub mod UpperVToLowerA
pub mod LowerB
pub mod LowerCToLowerD
pub mod LowerEToLowerG
pub mod LowerHToLowerK
pub mod LowerL
pub mod LowerM
pub mod LowerN
pub mod LowerOToLowerQ
pub mod LowerR
pub mod LowerS
pub mod LowerTToLowerW
pub mod LowerXToLowerZ
use html5gum.Base.{ℕ, Bool, List, [], ◌∷◌, ◌++◌, Option, none, some, ◌==◌, if◌then◌else◌}
use html5gum.Base.Bytes.{Bytes, codes}
use html5gum.Emitter.{Emitter}
use html5gum.Entities.Shape.{Entry}
use html5gum.Reader.Trait.{Reader}
use html5gum.Tokenizer.{M, ◌>>=◌, pure}
use html5gum.Utils.{encode_utf8}
use html5gum.Entities.UpperAToUpperE.{
  branch_upper_a, branch_upper_b, branch_upper_c, branch_upper_d, branch_upper_e,
}
use html5gum.Entities.UpperFToUpperL.{
  branch_upper_f, branch_upper_g, branch_upper_h, branch_upper_i, branch_upper_j, branch_upper_k,
  branch_upper_l,
}
use html5gum.Entities.UpperMToUpperQ.{
  branch_upper_m, branch_upper_n, branch_upper_o, branch_upper_p, branch_upper_q,
}
use html5gum.Entities.UpperRToUpperU.{
  branch_upper_r, branch_upper_s, branch_upper_t, branch_upper_u,
}
use html5gum.Entities.UpperVToLowerA.{
  branch_upper_v, branch_upper_w, branch_upper_x, branch_upper_y, branch_upper_z, branch_lower_a,
}
use html5gum.Entities.LowerB.{branch_lower_b}
use html5gum.Entities.LowerCToLowerD.{branch_lower_c, branch_lower_d}
use html5gum.Entities.LowerEToLowerG.{branch_lower_e, branch_lower_f, branch_lower_g}
use html5gum.Entities.LowerHToLowerK.{
  branch_lower_h, branch_lower_i, branch_lower_j, branch_lower_k,
}
use html5gum.Entities.LowerL.{branch_lower_l}
use html5gum.Entities.LowerM.{branch_lower_m}
use html5gum.Entities.LowerN.{branch_lower_n}
use html5gum.Entities.LowerOToLowerQ.{branch_lower_o, branch_lower_p, branch_lower_q}
use html5gum.Entities.LowerR.{branch_lower_r}
use html5gum.Entities.LowerS.{branch_lower_s}
use html5gum.Entities.LowerTToLowerW.{
  branch_lower_t, branch_lower_u, branch_lower_v, branch_lower_w,
}
use html5gum.Entities.LowerXToLowerZ.{branch_lower_x, branch_lower_y, branch_lower_z}

-- `name` and `characters`, as the bytes of the two strings.
pub record CharRef : Type 0 where
  pub name : Bytes
  pub characters : Bytes

-- `characters.as_bytes()`.
unfoldable pub as_bytes : List ℕ → Bytes
unfolding encode_utf8
as_bytes [] = []
as_bytes (c ∷ cs) = encode_utf8 c ++ as_bytes cs

-- The table that the `match` on the first character chooses; any other character has none.
abbrev pub branches : List (ℕ × List Entry)
branches =
    (b'A', branch_upper_a)
    ∷ (b'B', branch_upper_b)
    ∷ (b'C', branch_upper_c)
    ∷ (b'D', branch_upper_d)
    ∷ (b'E', branch_upper_e)
    ∷ (b'F', branch_upper_f)
    ∷ (b'G', branch_upper_g)
    ∷ (b'H', branch_upper_h)
    ∷ (b'I', branch_upper_i)
    ∷ (b'J', branch_upper_j)
    ∷ (b'K', branch_upper_k)
    ∷ (b'L', branch_upper_l)
    ∷ (b'M', branch_upper_m)
    ∷ (b'N', branch_upper_n)
    ∷ (b'O', branch_upper_o)
    ∷ (b'P', branch_upper_p)
    ∷ (b'Q', branch_upper_q)
    ∷ (b'R', branch_upper_r)
    ∷ (b'S', branch_upper_s)
    ∷ (b'T', branch_upper_t)
    ∷ (b'U', branch_upper_u)
    ∷ (b'V', branch_upper_v)
    ∷ (b'W', branch_upper_w)
    ∷ (b'X', branch_upper_x)
    ∷ (b'Y', branch_upper_y)
    ∷ (b'Z', branch_upper_z)
    ∷ (b'a', branch_lower_a)
    ∷ (b'b', branch_lower_b)
    ∷ (b'c', branch_lower_c)
    ∷ (b'd', branch_lower_d)
    ∷ (b'e', branch_lower_e)
    ∷ (b'f', branch_lower_f)
    ∷ (b'g', branch_lower_g)
    ∷ (b'h', branch_lower_h)
    ∷ (b'i', branch_lower_i)
    ∷ (b'j', branch_lower_j)
    ∷ (b'k', branch_lower_k)
    ∷ (b'l', branch_lower_l)
    ∷ (b'm', branch_lower_m)
    ∷ (b'n', branch_lower_n)
    ∷ (b'o', branch_lower_o)
    ∷ (b'p', branch_lower_p)
    ∷ (b'q', branch_lower_q)
    ∷ (b'r', branch_lower_r)
    ∷ (b's', branch_lower_s)
    ∷ (b't', branch_lower_t)
    ∷ (b'u', branch_lower_u)
    ∷ (b'v', branch_lower_v)
    ∷ (b'w', branch_lower_w)
    ∷ (b'x', branch_lower_x)
    ∷ (b'y', branch_lower_y)
    ∷ (b'z', branch_lower_z)
    ∷ []

unfoldable pub table_of : ℕ → List (ℕ × List Entry) → List Entry
table_of c [] = []
table_of c ((first, table) ∷ rest) = if c == first then table else table_of c rest

module _ ⦃R : Reader⦄ ⦃E : Emitter⦄ where
  -- The loop of a branch: the first entry that can be read.
  unfoldable pub try_entries : (Bytes → M Bool) → List Entry → M (Option CharRef)
  unfolding as_bytes
  try_entries try_read [] = pure none
  try_entries try_read ((name, characters) ∷ rest) = do
    let next = try_entries try_read rest
    hit ← try_read (codes name)
    if hit
        then pure (some (record { name = codes name; characters = as_bytes characters }))
        else next

  unfoldable pub try_read_character_reference : ℕ → (Bytes → M Bool) → M (Option CharRef)
  unfolding try_entries table_of
  try_read_character_reference first_char try_read =
      try_entries try_read (table_of first_char branches)
