-- ===== src/Entities/LowerXToLowerZ.antt =====
-- src/entities.rs: the tables of `try_read_character_reference` for a first letter from 'x' to 'z'.
-- An entry holds the rest of a name, and the code points that it stands for.
use html5gum.Base.{List, [], ◌∷◌}
use html5gum.Entities.Shape.{Entry}

abbrev pub branch_lower_x : List Entry
branch_lower_x =
    ("oplus;", 0x2a01 ∷ [])
    ∷ ("otime;", 0x2a02 ∷ [])
    ∷ ("sqcup;", 0x2a06 ∷ [])
    ∷ ("uplus;", 0x2a04 ∷ [])
    ∷ ("wedge;", 0x22c0 ∷ [])
    ∷ ("circ;", 0x25ef ∷ [])
    ∷ ("dtri;", 0x25bd ∷ [])
    ∷ ("hArr;", 0x27fa ∷ [])
    ∷ ("harr;", 0x27f7 ∷ [])
    ∷ ("lArr;", 0x27f8 ∷ [])
    ∷ ("larr;", 0x27f5 ∷ [])
    ∷ ("odot;", 0x2a00 ∷ [])
    ∷ ("rArr;", 0x27f9 ∷ [])
    ∷ ("rarr;", 0x27f6 ∷ [])
    ∷ ("utri;", 0x25b3 ∷ [])
    ∷ ("cap;", 0x22c2 ∷ [])
    ∷ ("cup;", 0x22c3 ∷ [])
    ∷ ("map;", 0x27fc ∷ [])
    ∷ ("nis;", 0x22fb ∷ [])
    ∷ ("opf;", 0x1d569 ∷ [])
    ∷ ("scr;", 0x1d4cd ∷ [])
    ∷ ("vee;", 0x22c1 ∷ [])
    ∷ ("fr;", 0x1d535 ∷ [])
    ∷ ("i;", 0x3be ∷ [])
    ∷ []

abbrev pub branch_lower_y : List Entry
branch_lower_y =
    ("acute;", 0xfd ∷ [])
    ∷ ("acute", 0xfd ∷ [])
    ∷ ("circ;", 0x177 ∷ [])
    ∷ ("acy;", 0x44f ∷ [])
    ∷ ("icy;", 0x457 ∷ [])
    ∷ ("opf;", 0x1d56a ∷ [])
    ∷ ("scr;", 0x1d4ce ∷ [])
    ∷ ("ucy;", 0x44e ∷ [])
    ∷ ("uml;", 0xff ∷ [])
    ∷ ("cy;", 0x44b ∷ [])
    ∷ ("en;", 0xa5 ∷ [])
    ∷ ("fr;", 0x1d536 ∷ [])
    ∷ ("uml", 0xff ∷ [])
    ∷ ("en", 0xa5 ∷ [])
    ∷ []

abbrev pub branch_lower_z : List Entry
branch_lower_z =
    ("igrarr;", 0x21dd ∷ [])
    ∷ ("acute;", 0x17a ∷ [])
    ∷ ("caron;", 0x17e ∷ [])
    ∷ ("eetrf;", 0x2128 ∷ [])
    ∷ ("dot;", 0x17c ∷ [])
    ∷ ("eta;", 0x3b6 ∷ [])
    ∷ ("hcy;", 0x436 ∷ [])
    ∷ ("opf;", 0x1d56b ∷ [])
    ∷ ("scr;", 0x1d4cf ∷ [])
    ∷ ("wnj;", 0x200c ∷ [])
    ∷ ("cy;", 0x437 ∷ [])
    ∷ ("fr;", 0x1d537 ∷ [])
    ∷ ("wj;", 0x200d ∷ [])
    ∷ []
