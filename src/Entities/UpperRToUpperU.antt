-- ===== src/Entities/UpperRToUpperU.antt =====
-- src/entities.rs: the tables of `try_read_character_reference` for a first letter from 'R' to 'U'.
-- An entry holds the rest of a name, and the code points that it stands for.
use html5gum.Base.{List, [], ◌∷◌}
use html5gum.Entities.Shape.{Entry}

abbrev pub branch_upper_r : List Entry
branch_upper_r =
    ("everseUpEquilibrium;", 0x296f ∷ [])
    ∷ ("ightArrowLeftArrow;", 0x21c4 ∷ [])
    ∷ ("everseEquilibrium;", 0x21cb ∷ [])
    ∷ ("ightDoubleBracket;", 0x27e7 ∷ [])
    ∷ ("ightDownTeeVector;", 0x295d ∷ [])
    ∷ ("ightDownVectorBar;", 0x2955 ∷ [])
    ∷ ("ightTriangleEqual;", 0x22b5 ∷ [])
    ∷ ("ightAngleBracket;", 0x27e9 ∷ [])
    ∷ ("ightUpDownVector;", 0x294f ∷ [])
    ∷ ("ightTriangleBar;", 0x29d0 ∷ [])
    ∷ ("ightUpTeeVector;", 0x295c ∷ [])
    ∷ ("ightUpVectorBar;", 0x2954 ∷ [])
    ∷ ("ightDownVector;", 0x21c2 ∷ [])
    ∷ ("everseElement;", 0x220b ∷ [])
    ∷ ("ightTeeVector;", 0x295b ∷ [])
    ∷ ("ightVectorBar;", 0x2953 ∷ [])
    ∷ ("ightArrowBar;", 0x21e5 ∷ [])
    ∷ ("ightTeeArrow;", 0x21a6 ∷ [])
    ∷ ("ightTriangle;", 0x22b3 ∷ [])
    ∷ ("ightUpVector;", 0x21be ∷ [])
    ∷ ("ightCeiling;", 0x2309 ∷ [])
    ∷ ("oundImplies;", 0x2970 ∷ [])
    ∷ ("ightVector;", 0x21c0 ∷ [])
    ∷ ("rightarrow;", 0x21db ∷ [])
    ∷ ("uleDelayed;", 0x29f4 ∷ [])
    ∷ ("ightArrow;", 0x2192 ∷ [])
    ∷ ("ightFloor;", 0x230b ∷ [])
    ∷ ("ightarrow;", 0x21d2 ∷ [])
    ∷ ("ightTee;", 0x22a2 ∷ [])
    ∷ ("acute;", 0x154 ∷ [])
    ∷ ("arrtl;", 0x2916 ∷ [])
    ∷ ("caron;", 0x158 ∷ [])
    ∷ ("cedil;", 0x156 ∷ [])
    ∷ ("Barr;", 0x2910 ∷ [])
    ∷ ("ang;", 0x27eb ∷ [])
    ∷ ("arr;", 0x21a0 ∷ [])
    ∷ ("opf;", 0x211d ∷ [])
    ∷ ("scr;", 0x211b ∷ [])
    ∷ ("EG;", 0xae ∷ [])
    ∷ ("cy;", 0x420 ∷ [])
    ∷ ("fr;", 0x211c ∷ [])
    ∷ ("ho;", 0x3a1 ∷ [])
    ∷ ("sh;", 0x21b1 ∷ [])
    ∷ ("EG", 0xae ∷ [])
    ∷ ("e;", 0x211c ∷ [])
    ∷ []

abbrev pub branch_upper_s : List Entry
branch_upper_s =
    ("quareSupersetEqual;", 0x2292 ∷ [])
    ∷ ("quareIntersection;", 0x2293 ∷ [])
    ∷ ("ucceedsSlantEqual;", 0x227d ∷ [])
    ∷ ("quareSubsetEqual;", 0x2291 ∷ [])
    ∷ ("hortRightArrow;", 0x2192 ∷ [])
    ∷ ("hortDownArrow;", 0x2193 ∷ [])
    ∷ ("hortLeftArrow;", 0x2190 ∷ [])
    ∷ ("quareSuperset;", 0x2290 ∷ [])
    ∷ ("ucceedsEqual;", 0x2ab0 ∷ [])
    ∷ ("ucceedsTilde;", 0x227f ∷ [])
    ∷ ("upersetEqual;", 0x2287 ∷ [])
    ∷ ("hortUpArrow;", 0x2191 ∷ [])
    ∷ ("quareSubset;", 0x228f ∷ [])
    ∷ ("mallCircle;", 0x2218 ∷ [])
    ∷ ("quareUnion;", 0x2294 ∷ [])
    ∷ ("ubsetEqual;", 0x2286 ∷ [])
    ∷ ("ucceeds;", 0x227b ∷ [])
    ∷ ("uchThat;", 0x220b ∷ [])
    ∷ ("uperset;", 0x2283 ∷ [])
    ∷ ("HCHcy;", 0x429 ∷ [])
    ∷ ("OFTcy;", 0x42c ∷ [])
    ∷ ("acute;", 0x15a ∷ [])
    ∷ ("caron;", 0x160 ∷ [])
    ∷ ("cedil;", 0x15e ∷ [])
    ∷ ("quare;", 0x25a1 ∷ [])
    ∷ ("ubset;", 0x22d0 ∷ [])
    ∷ ("upset;", 0x22d1 ∷ [])
    ∷ ("circ;", 0x15c ∷ [])
    ∷ ("igma;", 0x3a3 ∷ [])
    ∷ ("Hcy;", 0x428 ∷ [])
    ∷ ("opf;", 0x1d54a ∷ [])
    ∷ ("qrt;", 0x221a ∷ [])
    ∷ ("scr;", 0x1d4ae ∷ [])
    ∷ ("tar;", 0x22c6 ∷ [])
    ∷ ("cy;", 0x421 ∷ [])
    ∷ ("fr;", 0x1d516 ∷ [])
    ∷ ("ub;", 0x22d0 ∷ [])
    ∷ ("um;", 0x2211 ∷ [])
    ∷ ("up;", 0x22d1 ∷ [])
    ∷ ("c;", 0x2abc ∷ [])
    ∷ []

abbrev pub branch_upper_t : List Entry
branch_upper_t =
    ("ildeFullEqual;", 0x2245 ∷ [])
    ∷ ("hickSpace;", 0x205f ∷ 0x200a ∷ [])
    ∷ ("ildeEqual;", 0x2243 ∷ [])
    ∷ ("ildeTilde;", 0x2248 ∷ [])
    ∷ ("herefore;", 0x2234 ∷ [])
    ∷ ("hinSpace;", 0x2009 ∷ [])
    ∷ ("ripleDot;", 0x20db ∷ [])
    ∷ ("caron;", 0x164 ∷ [])
    ∷ ("cedil;", 0x162 ∷ [])
    ∷ ("strok;", 0x166 ∷ [])
    ∷ ("HORN;", 0xde ∷ [])
    ∷ ("RADE;", 0x2122 ∷ [])
    ∷ ("SHcy;", 0x40b ∷ [])
    ∷ ("heta;", 0x398 ∷ [])
    ∷ ("ilde;", 0x223c ∷ [])
    ∷ ("HORN", 0xde ∷ [])
    ∷ ("Scy;", 0x426 ∷ [])
    ∷ ("opf;", 0x1d54b ∷ [])
    ∷ ("scr;", 0x1d4af ∷ [])
    ∷ ("ab;", 0x9 ∷ [])
    ∷ ("au;", 0x3a4 ∷ [])
    ∷ ("cy;", 0x422 ∷ [])
    ∷ ("fr;", 0x1d517 ∷ [])
    ∷ []

abbrev pub branch_upper_u : List Entry
branch_upper_u =
    ("nderParenthesis;", 0x23dd ∷ [])
    ∷ ("pArrowDownArrow;", 0x21c5 ∷ [])
    ∷ ("pperRightArrow;", 0x2197 ∷ [])
    ∷ ("pperLeftArrow;", 0x2196 ∷ [])
    ∷ ("pEquilibrium;", 0x296e ∷ [])
    ∷ ("nderBracket;", 0x23b5 ∷ [])
    ∷ ("pDownArrow;", 0x2195 ∷ [])
    ∷ ("pdownarrow;", 0x21d5 ∷ [])
    ∷ ("nderBrace;", 0x23df ∷ [])
    ∷ ("pArrowBar;", 0x2912 ∷ [])
    ∷ ("pTeeArrow;", 0x21a5 ∷ [])
    ∷ ("nionPlus;", 0x228e ∷ [])
    ∷ ("arrocir;", 0x2949 ∷ [])
    ∷ ("nderBar;", 0x5f ∷ [])
    ∷ ("pArrow;", 0x2191 ∷ [])
    ∷ ("parrow;", 0x21d1 ∷ [])
    ∷ ("psilon;", 0x3a5 ∷ [])
    ∷ ("acute;", 0xda ∷ [])
    ∷ ("breve;", 0x16c ∷ [])
    ∷ ("dblac;", 0x170 ∷ [])
    ∷ ("grave;", 0xd9 ∷ [])
    ∷ ("tilde;", 0x168 ∷ [])
    ∷ ("acute", 0xda ∷ [])
    ∷ ("brcy;", 0x40e ∷ [])
    ∷ ("circ;", 0xdb ∷ [])
    ∷ ("grave", 0xd9 ∷ [])
    ∷ ("macr;", 0x16a ∷ [])
    ∷ ("nion;", 0x22c3 ∷ [])
    ∷ ("ogon;", 0x172 ∷ [])
    ∷ ("pTee;", 0x22a5 ∷ [])
    ∷ ("ring;", 0x16e ∷ [])
    ∷ ("arr;", 0x219f ∷ [])
    ∷ ("circ", 0xdb ∷ [])
    ∷ ("opf;", 0x1d54c ∷ [])
    ∷ ("psi;", 0x3d2 ∷ [])
    ∷ ("scr;", 0x1d4b0 ∷ [])
    ∷ ("uml;", 0xdc ∷ [])
    ∷ ("cy;", 0x423 ∷ [])
    ∷ ("fr;", 0x1d518 ∷ [])
    ∷ ("uml", 0xdc ∷ [])
    ∷ []
