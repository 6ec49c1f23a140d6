-- ===== src/Entities/LowerHToLowerK.antt =====
-- src/entities.rs: the tables of `try_read_character_reference` for a first letter from 'h' to 'k'.
-- An entry holds the rest of a name, and the code points that it stands for.
use html5gum.Base.{List, [], ◌∷◌}
use html5gum.Entities.Shape.{Entry}

abbrev pub branch_lower_h : List Entry
branch_lower_h =
    ("ookrightarrow;", 0x21aa ∷ [])
    ∷ ("ookleftarrow;", 0x21a9 ∷ [])
    ∷ ("eartsuit;", 0x2665 ∷ [])
    ∷ ("ksearow;", 0x2925 ∷ [])
    ∷ ("kswarow;", 0x2926 ∷ [])
    ∷ ("arrcir;", 0x2948 ∷ [])
    ∷ ("airsp;", 0x200a ∷ [])
    ∷ ("amilt;", 0x210b ∷ [])
    ∷ ("ardcy;", 0x44a ∷ [])
    ∷ ("earts;", 0x2665 ∷ [])
    ∷ ("ellip;", 0x2026 ∷ [])
    ∷ ("ercon;", 0x22b9 ∷ [])
    ∷ ("omtht;", 0x223b ∷ [])
    ∷ ("orbar;", 0x2015 ∷ [])
    ∷ ("slash;", 0x210f ∷ [])
    ∷ ("strok;", 0x127 ∷ [])
    ∷ ("ybull;", 0x2043 ∷ [])
    ∷ ("yphen;", 0x2010 ∷ [])
    ∷ ("arrw;", 0x21ad ∷ [])
    ∷ ("circ;", 0x125 ∷ [])
    ∷ ("oarr;", 0x21ff ∷ [])
    ∷ ("Arr;", 0x21d4 ∷ [])
    ∷ ("alf;", 0xbd ∷ [])
    ∷ ("arr;", 0x2194 ∷ [])
    ∷ ("bar;", 0x210f ∷ [])
    ∷ ("opf;", 0x1d559 ∷ [])
    ∷ ("scr;", 0x1d4bd ∷ [])
    ∷ ("fr;", 0x1d525 ∷ [])
    ∷ []

abbrev pub branch_lower_i : List Entry
branch_lower_i =
    ("magline;", 0x2110 ∷ [])
    ∷ ("magpart;", 0x2111 ∷ [])
    ∷ ("nfintie;", 0x29dd ∷ [])
    ∷ ("ntegers;", 0x2124 ∷ [])
    ∷ ("ntercal;", 0x22ba ∷ [])
    ∷ ("ntlarhk;", 0x2a17 ∷ [])
    ∷ ("ntprod;", 0x2a3c ∷ [])
    ∷ ("sindot;", 0x22f5 ∷ [])
    ∷ ("acute;", 0xed ∷ [])
    ∷ ("grave;", 0xec ∷ [])
    ∷ ("iiint;", 0x2a0c ∷ [])
    ∷ ("infin;", 0x29dc ∷ [])
    ∷ ("ncare;", 0x2105 ∷ [])
    ∷ ("nodot;", 0x131 ∷ [])
    ∷ ("ntcal;", 0x22ba ∷ [])
    ∷ ("quest;", 0xbf ∷ [])
    ∷ ("sinsv;", 0x22f3 ∷ [])
    ∷ ("tilde;", 0x129 ∷ [])
    ∷ ("acute", 0xed ∷ [])
    ∷ ("circ;", 0xee ∷ [])
    ∷ ("excl;", 0xa1 ∷ [])
    ∷ ("grave", 0xec ∷ [])
    ∷ ("iint;", 0x222d ∷ [])
    ∷ ("iota;", 0x2129 ∷ [])
    ∷ ("jlig;", 0x133 ∷ [])
    ∷ ("macr;", 0x12b ∷ [])
    ∷ ("mage;", 0x2111 ∷ [])
    ∷ ("math;", 0x131 ∷ [])
    ∷ ("mped;", 0x1b5 ∷ [])
    ∷ ("nfin;", 0x221e ∷ [])
    ∷ ("ogon;", 0x12f ∷ [])
    ∷ ("prod;", 0x2a3c ∷ [])
    ∷ ("quest", 0xbf ∷ [])
    ∷ ("sinE;", 0x22f9 ∷ [])
    ∷ ("sins;", 0x22f4 ∷ [])
    ∷ ("sinv;", 0x2208 ∷ [])
    ∷ ("ukcy;", 0x456 ∷ [])
    ∷ ("circ", 0xee ∷ [])
    ∷ ("ecy;", 0x435 ∷ [])
    ∷ ("excl", 0xa1 ∷ [])
    ∷ ("mof;", 0x22b7 ∷ [])
    ∷ ("ocy;", 0x451 ∷ [])
    ∷ ("opf;", 0x1d55a ∷ [])
    ∷ ("ota;", 0x3b9 ∷ [])
    ∷ ("scr;", 0x1d4be ∷ [])
    ∷ ("sin;", 0x2208 ∷ [])
    ∷ ("uml;", 0xef ∷ [])
    ∷ ("cy;", 0x438 ∷ [])
    ∷ ("ff;", 0x21d4 ∷ [])
    ∷ ("fr;", 0x1d526 ∷ [])
    ∷ ("nt;", 0x222b ∷ [])
    ∷ ("uml", 0xef ∷ [])
    ∷ ("c;", 0x2063 ∷ [])
    ∷ ("i;", 0x2148 ∷ [])
    ∷ ("n;", 0x2208 ∷ [])
    ∷ ("t;", 0x2062 ∷ [])
    ∷ []

abbrev pub branch_lower_j : List Entry
branch_lower_j =
    ("sercy;", 0x458 ∷ [])
    ∷ ("circ;", 0x135 ∷ [])
    ∷ ("math;", 0x237 ∷ [])
    ∷ ("ukcy;", 0x454 ∷ [])
    ∷ ("opf;", 0x1d55b ∷ [])
    ∷ ("scr;", 0x1d4bf ∷ [])
    ∷ ("cy;", 0x439 ∷ [])
    ∷ ("fr;", 0x1d527 ∷ [])
    ∷ []

abbrev pub branch_lower_k : List Entry
branch_lower_k =
    ("appav;", 0x3f0 ∷ [])
    ∷ ("cedil;", 0x137 ∷ [])
    ∷ ("green;", 0x138 ∷ [])
    ∷ ("appa;", 0x3ba ∷ [])
    ∷ ("hcy;", 0x445 ∷ [])
    ∷ ("jcy;", 0x45c ∷ [])
    ∷ ("opf;", 0x1d55c ∷ [])
    ∷ ("scr;", 0x1d4c0 ∷ [])
    ∷ ("cy;", 0x43a ∷ [])
    ∷ ("fr;", 0x1d528 ∷ [])
    ∷ []
