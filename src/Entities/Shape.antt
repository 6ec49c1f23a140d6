-- ===== src/Entities/Shape.antt =====
-- src/entities.rs: an entry of the tables: the rest of a name behind its first letter, and the code
-- points that the name stands for.
use Prim.Native.String.{String}
use html5gum.Base.{ℕ, List}

abbrev pub Entry : Type 0
Entry = String × List ℕ
