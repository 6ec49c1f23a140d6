-- ===== src/Entities/UpperFToUpperL.antt =====
-- src/entities.rs: the tables of `try_read_character_reference` for a first letter from 'F' to 'L'.
-- An entry holds the rest of a name, and the code points that it stands for.
use html5gum.Base.{List, [], ◌∷◌}
use html5gum.Entities.Shape.{Entry}

abbrev pub branch_upper_f : List Entry
branch_upper_f =
    ("illedVerySmallSquare;", 0x25aa ∷ [])
    ∷ ("illedSmallSquare;", 0x25fc ∷ [])
    ∷ ("ouriertrf;", 0x2131 ∷ [])
    ∷ ("orAll;", 0x2200 ∷ [])
    ∷ ("opf;", 0x1d53d ∷ [])
    ∷ ("scr;", 0x2131 ∷ [])
    ∷ ("cy;", 0x424 ∷ [])
    ∷ ("fr;", 0x1d509 ∷ [])
    ∷ []

abbrev pub branch_upper_g : List Entry
branch_upper_g =
    ("reaterSlantEqual;", 0x2a7e ∷ [])
    ∷ ("reaterEqualLess;", 0x22db ∷ [])
    ∷ ("reaterFullEqual;", 0x2267 ∷ [])
    ∷ ("reaterGreater;", 0x2aa2 ∷ [])
    ∷ ("reaterEqual;", 0x2265 ∷ [])
    ∷ ("reaterTilde;", 0x2273 ∷ [])
    ∷ ("reaterLess;", 0x2277 ∷ [])
    ∷ ("ammad;", 0x3dc ∷ [])
    ∷ ("breve;", 0x11e ∷ [])
    ∷ ("cedil;", 0x122 ∷ [])
    ∷ ("amma;", 0x393 ∷ [])
    ∷ ("circ;", 0x11c ∷ [])
    ∷ ("Jcy;", 0x403 ∷ [])
    ∷ ("dot;", 0x120 ∷ [])
    ∷ ("opf;", 0x1d53e ∷ [])
    ∷ ("scr;", 0x1d4a2 ∷ [])
    ∷ ("cy;", 0x413 ∷ [])
    ∷ ("fr;", 0x1d50a ∷ [])
    ∷ ("T;", 0x3e ∷ [])
    ∷ ("g;", 0x22d9 ∷ [])
    ∷ ("t;", 0x226b ∷ [])
    ∷ ("T", 0x3e ∷ [])
    ∷ []

abbrev pub branch_upper_h : List Entry
branch_upper_h =
    ("orizontalLine;", 0x2500 ∷ [])
    ∷ ("ilbertSpace;", 0x210b ∷ [])
    ∷ ("umpDownHump;", 0x224e ∷ [])
    ∷ ("umpEqual;", 0x224f ∷ [])
    ∷ ("ARDcy;", 0x42a ∷ [])
    ∷ ("strok;", 0x126 ∷ [])
    ∷ ("acek;", 0x2c7 ∷ [])
    ∷ ("circ;", 0x124 ∷ [])
    ∷ ("opf;", 0x210d ∷ [])
    ∷ ("scr;", 0x210b ∷ [])
    ∷ ("at;", 0x5e ∷ [])
    ∷ ("fr;", 0x210c ∷ [])
    ∷ []

abbrev pub branch_upper_i : List Entry
branch_upper_i =
    ("nvisibleComma;", 0x2063 ∷ [])
    ∷ ("nvisibleTimes;", 0x2062 ∷ [])
    ∷ ("ntersection;", 0x22c2 ∷ [])
    ∷ ("maginaryI;", 0x2148 ∷ [])
    ∷ ("ntegral;", 0x222b ∷ [])
    ∷ ("mplies;", 0x21d2 ∷ [])
    ∷ ("acute;", 0xcd ∷ [])
    ∷ ("grave;", 0xcc ∷ [])
    ∷ ("tilde;", 0x128 ∷ [])
    ∷ ("Jlig;", 0x132 ∷ [])
    ∷ ("acute", 0xcd ∷ [])
    ∷ ("circ;", 0xce ∷ [])
    ∷ ("grave", 0xcc ∷ [])
    ∷ ("macr;", 0x12a ∷ [])
    ∷ ("ogon;", 0x12e ∷ [])
    ∷ ("ukcy;", 0x406 ∷ [])
    ∷ ("Ecy;", 0x415 ∷ [])
    ∷ ("Ocy;", 0x401 ∷ [])
    ∷ ("circ", 0xce ∷ [])
    ∷ ("dot;", 0x130 ∷ [])
    ∷ ("opf;", 0x1d540 ∷ [])
    ∷ ("ota;", 0x399 ∷ [])
    ∷ ("scr;", 0x2110 ∷ [])
    ∷ ("uml;", 0xcf ∷ [])
    ∷ ("cy;", 0x418 ∷ [])
    ∷ ("fr;", 0x2111 ∷ [])
    ∷ ("nt;", 0x222c ∷ [])
    ∷ ("uml", 0xcf ∷ [])
    ∷ ("m;", 0x2111 ∷ [])
    ∷ []

abbrev pub branch_upper_j : List Entry
branch_upper_j =
    ("sercy;", 0x408 ∷ [])
    ∷ ("circ;", 0x134 ∷ [])
    ∷ ("ukcy;", 0x404 ∷ [])
    ∷ ("opf;", 0x1d541 ∷ [])
    ∷ ("scr;", 0x1d4a5 ∷ [])
    ∷ ("cy;", 0x419 ∷ [])
    ∷ ("fr;", 0x1d50d ∷ [])
    ∷ []

abbrev pub branch_upper_k : List Entry
branch_upper_k =
    ("cedil;", 0x136 ∷ [])
    ∷ ("appa;", 0x39a ∷ [])
    ∷ ("Hcy;", 0x425 ∷ [])
    ∷ ("Jcy;", 0x40c ∷ [])
    ∷ ("opf;", 0x1d542 ∷ [])
    ∷ ("scr;", 0x1d4a6 ∷ [])
    ∷ ("cy;", 0x41a ∷ [])
    ∷ ("fr;", 0x1d50e ∷ [])
    ∷ []

abbrev pub branch_upper_l : List Entry
branch_upper_l =
    ("eftArrowRightArrow;", 0x21c6 ∷ [])
    ∷ ("ongLeftRightArrow;", 0x27f7 ∷ [])
    ∷ ("ongleftrightarrow;", 0x27fa ∷ [])
    ∷ ("eftDoubleBracket;", 0x27e6 ∷ [])
    ∷ ("eftDownTeeVector;", 0x2961 ∷ [])
    ∷ ("eftDownVectorBar;", 0x2959 ∷ [])
    ∷ ("eftTriangleEqual;", 0x22b4 ∷ [])
    ∷ ("eftAngleBracket;", 0x27e8 ∷ [])
    ∷ ("eftUpDownVector;", 0x2951 ∷ [])
    ∷ ("essEqualGreater;", 0x22da ∷ [])
    ∷ ("eftRightVector;", 0x294e ∷ [])
    ∷ ("eftTriangleBar;", 0x29cf ∷ [])
    ∷ ("eftUpTeeVector;", 0x2960 ∷ [])
    ∷ ("eftUpVectorBar;", 0x2958 ∷ [])
    ∷ ("owerRightArrow;", 0x2198 ∷ [])
    ∷ ("eftDownVector;", 0x21c3 ∷ [])
    ∷ ("eftRightArrow;", 0x2194 ∷ [])
    ∷ ("eftrightarrow;", 0x21d4 ∷ [])
    ∷ ("essSlantEqual;", 0x2a7d ∷ [])
    ∷ ("ongRightArrow;", 0x27f6 ∷ [])
    ∷ ("ongrightarrow;", 0x27f9 ∷ [])
    ∷ ("owerLeftArrow;", 0x2199 ∷ [])
    ∷ ("eftTeeVector;", 0x295a ∷ [])
    ∷ ("eftVectorBar;", 0x2952 ∷ [])
    ∷ ("essFullEqual;", 0x2266 ∷ [])
    ∷ ("ongLeftArrow;", 0x27f5 ∷ [])
    ∷ ("ongleftarrow;", 0x27f8 ∷ [])
    ∷ ("eftArrowBar;", 0x21e4 ∷ [])
    ∷ ("eftTeeArrow;", 0x21a4 ∷ [])
    ∷ ("eftTriangle;", 0x22b2 ∷ [])
    ∷ ("eftUpVector;", 0x21bf ∷ [])
    ∷ ("eftCeiling;", 0x2308 ∷ [])
    ∷ ("essGreater;", 0x2276 ∷ [])
    ∷ ("aplacetrf;", 0x2112 ∷ [])
    ∷ ("eftVector;", 0x21bc ∷ [])
    ∷ ("leftarrow;", 0x21da ∷ [])
    ∷ ("eftArrow;", 0x2190 ∷ [])
    ∷ ("eftFloor;", 0x230a ∷ [])
    ∷ ("eftarrow;", 0x21d0 ∷ [])
    ∷ ("essTilde;", 0x2272 ∷ [])
    ∷ ("essLess;", 0x2aa1 ∷ [])
    ∷ ("eftTee;", 0x22a3 ∷ [])
    ∷ ("acute;", 0x139 ∷ [])
    ∷ ("ambda;", 0x39b ∷ [])
    ∷ ("caron;", 0x13d ∷ [])
    ∷ ("cedil;", 0x13b ∷ [])
    ∷ ("midot;", 0x13f ∷ [])
    ∷ ("strok;", 0x141 ∷ [])
    ∷ ("Jcy;", 0x409 ∷ [])
    ∷ ("ang;", 0x27ea ∷ [])
    ∷ ("arr;", 0x219e ∷ [])
    ∷ ("opf;", 0x1d543 ∷ [])
    ∷ ("scr;", 0x2112 ∷ [])
    ∷ ("cy;", 0x41b ∷ [])
    ∷ ("fr;", 0x1d50f ∷ [])
    ∷ ("sh;", 0x21b0 ∷ [])
    ∷ ("T;", 0x3c ∷ [])
    ∷ ("l;", 0x22d8 ∷ [])
    ∷ ("t;", 0x226a ∷ [])
    ∷ ("T", 0x3c ∷ [])
    ∷ []
