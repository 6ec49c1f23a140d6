-- ===== src/Entities/UpperVToLowerA.antt =====
-- src/entities.rs: the tables of `try_read_character_reference` for a first letter from 'V' to 'a'.
-- An entry holds the rest of a name, and the code points that it stands for.
use html5gum.Base.{List, [], ◌∷◌}
use html5gum.Entities.Shape.{Entry}

abbrev pub branch_upper_v : List Entry
branch_upper_v =
    ("erticalSeparator;", 0x2758 ∷ [])
    ∷ ("erticalTilde;", 0x2240 ∷ [])
    ∷ ("eryThinSpace;", 0x200a ∷ [])
    ∷ ("erticalLine;", 0x7c ∷ [])
    ∷ ("erticalBar;", 0x2223 ∷ [])
    ∷ ("dashl;", 0x2ae6 ∷ [])
    ∷ ("erbar;", 0x2016 ∷ [])
    ∷ ("vdash;", 0x22aa ∷ [])
    ∷ ("Dash;", 0x22ab ∷ [])
    ∷ ("dash;", 0x22a9 ∷ [])
    ∷ ("bar;", 0x2aeb ∷ [])
    ∷ ("ert;", 0x2016 ∷ [])
    ∷ ("opf;", 0x1d54d ∷ [])
    ∷ ("scr;", 0x1d4b1 ∷ [])
    ∷ ("cy;", 0x412 ∷ [])
    ∷ ("ee;", 0x22c1 ∷ [])
    ∷ ("fr;", 0x1d519 ∷ [])
    ∷ []

abbrev pub branch_upper_w : List Entry
branch_upper_w =
    ("circ;", 0x174 ∷ [])
    ∷ ("edge;", 0x22c0 ∷ [])
    ∷ ("opf;", 0x1d54e ∷ [])
    ∷ ("scr;", 0x1d4b2 ∷ [])
    ∷ ("fr;", 0x1d51a ∷ [])
    ∷ []

abbrev pub branch_upper_x : List Entry
branch_upper_x =
    ("opf;", 0x1d54f ∷ [])
    ∷ ("scr;", 0x1d4b3 ∷ [])
    ∷ ("fr;", 0x1d51b ∷ [])
    ∷ ("i;", 0x39e ∷ [])
    ∷ []

abbrev pub branch_upper_y : List Entry
branch_upper_y =
    ("acute;", 0xdd ∷ [])
    ∷ ("acute", 0xdd ∷ [])
    ∷ ("circ;", 0x176 ∷ [])
    ∷ ("Acy;", 0x42f ∷ [])
    ∷ ("Icy;", 0x407 ∷ [])
    ∷ ("Ucy;", 0x42e ∷ [])
    ∷ ("opf;", 0x1d550 ∷ [])
    ∷ ("scr;", 0x1d4b4 ∷ [])
    ∷ ("uml;", 0x178 ∷ [])
    ∷ ("cy;", 0x42b ∷ [])
    ∷ ("fr;", 0x1d51c ∷ [])
    ∷ []

abbrev pub branch_upper_z : List Entry
branch_upper_z =
    ("eroWidthSpace;", 0x200b ∷ [])
    ∷ ("acute;", 0x179 ∷ [])
    ∷ ("caron;", 0x17d ∷ [])
    ∷ ("Hcy;", 0x416 ∷ [])
    ∷ ("dot;", 0x17b ∷ [])
    ∷ ("eta;", 0x396 ∷ [])
    ∷ ("opf;", 0x2124 ∷ [])
    ∷ ("scr;", 0x1d4b5 ∷ [])
    ∷ ("cy;", 0x417 ∷ [])
    ∷ ("fr;", 0x2128 ∷ [])
    ∷ []

abbrev pub branch_lower_a : List Entry
branch_lower_a =
    ("ndslope;", 0x2a58 ∷ [])
    ∷ ("ngmsdaa;", 0x29a8 ∷ [])
    ∷ ("ngmsdab;", 0x29a9 ∷ [])
    ∷ ("ngmsdac;", 0x29aa ∷ [])
    ∷ ("ngmsdad;", 0x29ab ∷ [])
    ∷ ("ngmsdae;", 0x29ac ∷ [])
    ∷ ("ngmsdaf;", 0x29ad ∷ [])
    ∷ ("ngmsdag;", 0x29ae ∷ [])
    ∷ ("ngmsdah;", 0x29af ∷ [])
    ∷ ("ngrtvbd;", 0x299d ∷ [])
    ∷ ("pproxeq;", 0x224a ∷ [])
    ∷ ("wconint;", 0x2233 ∷ [])
    ∷ ("lefsym;", 0x2135 ∷ [])
    ∷ ("ngrtvb;", 0x22be ∷ [])
    ∷ ("ngzarr;", 0x237c ∷ [])
    ∷ ("sympeq;", 0x224d ∷ [])
    ∷ ("acute;", 0xe1 ∷ [])
    ∷ ("breve;", 0x103 ∷ [])
    ∷ ("grave;", 0xe0 ∷ [])
    ∷ ("ndand;", 0x2a55 ∷ [])
    ∷ ("ngmsd;", 0x2221 ∷ [])
    ∷ ("ngsph;", 0x2222 ∷ [])
    ∷ ("pacir;", 0x2a6f ∷ [])
    ∷ ("pprox;", 0x2248 ∷ [])
    ∷ ("tilde;", 0xe3 ∷ [])
    ∷ ("acute", 0xe1 ∷ [])
    ∷ ("circ;", 0xe2 ∷ [])
    ∷ ("cute;", 0xb4 ∷ [])
    ∷ ("elig;", 0xe6 ∷ [])
    ∷ ("grave", 0xe0 ∷ [])
    ∷ ("leph;", 0x2135 ∷ [])
    ∷ ("lpha;", 0x3b1 ∷ [])
    ∷ ("macr;", 0x101 ∷ [])
    ∷ ("malg;", 0x2a3f ∷ [])
    ∷ ("ngle;", 0x2220 ∷ [])
    ∷ ("ngrt;", 0x221f ∷ [])
    ∷ ("ngst;", 0xc5 ∷ [])
    ∷ ("ogon;", 0x105 ∷ [])
    ∷ ("ring;", 0xe5 ∷ [])
    ∷ ("symp;", 0x2248 ∷ [])
    ∷ ("tilde", 0xe3 ∷ [])
    ∷ ("wint;", 0x2a11 ∷ [])
    ∷ ("circ", 0xe2 ∷ [])
    ∷ ("cute", 0xb4 ∷ [])
    ∷ ("elig", 0xe6 ∷ [])
    ∷ ("ndd;", 0x2a5c ∷ [])
    ∷ ("ndv;", 0x2a5a ∷ [])
    ∷ ("nge;", 0x29a4 ∷ [])
    ∷ ("opf;", 0x1d552 ∷ [])
    ∷ ("pid;", 0x224b ∷ [])
    ∷ ("pos;", 0x27 ∷ [])
    ∷ ("ring", 0xe5 ∷ [])
    ∷ ("scr;", 0x1d4b6 ∷ [])
    ∷ ("uml;", 0xe4 ∷ [])
    ∷ ("cE;", 0x223e ∷ 0x333 ∷ [])
    ∷ ("cd;", 0x223f ∷ [])
    ∷ ("cy;", 0x430 ∷ [])
    ∷ ("fr;", 0x1d51e ∷ [])
    ∷ ("mp;", 0x26 ∷ [])
    ∷ ("nd;", 0x2227 ∷ [])
    ∷ ("ng;", 0x2220 ∷ [])
    ∷ ("pE;", 0x2a70 ∷ [])
    ∷ ("pe;", 0x224a ∷ [])
    ∷ ("st;", 0x2a ∷ [])
    ∷ ("uml", 0xe4 ∷ [])
    ∷ ("c;", 0x223e ∷ [])
    ∷ ("f;", 0x2061 ∷ [])
    ∷ ("mp", 0x26 ∷ [])
    ∷ ("p;", 0x2248 ∷ [])
    ∷ []
