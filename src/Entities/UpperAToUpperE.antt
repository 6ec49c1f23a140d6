-- ===== src/Entities/UpperAToUpperE.antt =====
-- src/entities.rs: the tables of `try_read_character_reference` for a first letter from 'A' to 'E'.
-- An entry holds the rest of a name, and the code points that it stands for.
use html5gum.Base.{List, [], ◌∷◌}
use html5gum.Entities.Shape.{Entry}

abbrev pub branch_upper_a : List Entry
branch_upper_a =
    ("pplyFunction;", 0x2061 ∷ [])
    ∷ ("acute;", 0xc1 ∷ [])
    ∷ ("breve;", 0x102 ∷ [])
    ∷ ("grave;", 0xc0 ∷ [])
    ∷ ("ssign;", 0x2254 ∷ [])
    ∷ ("tilde;", 0xc3 ∷ [])
    ∷ ("Elig;", 0xc6 ∷ [])
    ∷ ("acute", 0xc1 ∷ [])
    ∷ ("circ;", 0xc2 ∷ [])
    ∷ ("grave", 0xc0 ∷ [])
    ∷ ("lpha;", 0x391 ∷ [])
    ∷ ("macr;", 0x100 ∷ [])
    ∷ ("ogon;", 0x104 ∷ [])
    ∷ ("ring;", 0xc5 ∷ [])
    ∷ ("tilde", 0xc3 ∷ [])
    ∷ ("Elig", 0xc6 ∷ [])
    ∷ ("circ", 0xc2 ∷ [])
    ∷ ("opf;", 0x1d538 ∷ [])
    ∷ ("ring", 0xc5 ∷ [])
    ∷ ("scr;", 0x1d49c ∷ [])
    ∷ ("uml;", 0xc4 ∷ [])
    ∷ ("MP;", 0x26 ∷ [])
    ∷ ("cy;", 0x410 ∷ [])
    ∷ ("fr;", 0x1d504 ∷ [])
    ∷ ("nd;", 0x2a53 ∷ [])
    ∷ ("uml", 0xc4 ∷ [])
    ∷ ("MP", 0x26 ∷ [])
    ∷ []

abbrev pub branch_upper_b : List Entry
branch_upper_b =
    ("ernoullis;", 0x212c ∷ [])
    ∷ ("ackslash;", 0x2216 ∷ [])
    ∷ ("ecause;", 0x2235 ∷ [])
    ∷ ("arwed;", 0x2306 ∷ [])
    ∷ ("umpeq;", 0x224e ∷ [])
    ∷ ("reve;", 0x2d8 ∷ [])
    ∷ ("arv;", 0x2ae7 ∷ [])
    ∷ ("eta;", 0x392 ∷ [])
    ∷ ("opf;", 0x1d539 ∷ [])
    ∷ ("scr;", 0x212c ∷ [])
    ∷ ("cy;", 0x411 ∷ [])
    ∷ ("fr;", 0x1d505 ∷ [])
    ∷ []

abbrev pub branch_upper_c : List Entry
branch_upper_c =
    ("ounterClockwiseContourIntegral;", 0x2233 ∷ [])
    ∷ ("lockwiseContourIntegral;", 0x2232 ∷ [])
    ∷ ("loseCurlyDoubleQuote;", 0x201d ∷ [])
    ∷ ("apitalDifferentialD;", 0x2145 ∷ [])
    ∷ ("loseCurlyQuote;", 0x2019 ∷ [])
    ∷ ("ontourIntegral;", 0x222e ∷ [])
    ∷ ("ircleMinus;", 0x2296 ∷ [])
    ∷ ("ircleTimes;", 0x2297 ∷ [])
    ∷ ("irclePlus;", 0x2295 ∷ [])
    ∷ ("enterDot;", 0xb7 ∷ [])
    ∷ ("ircleDot;", 0x2299 ∷ [])
    ∷ ("ongruent;", 0x2261 ∷ [])
    ∷ ("oproduct;", 0x2210 ∷ [])
    ∷ ("ayleys;", 0x212d ∷ [])
    ∷ ("conint;", 0x2230 ∷ [])
    ∷ ("edilla;", 0xb8 ∷ [])
    ∷ ("acute;", 0x106 ∷ [])
    ∷ ("caron;", 0x10c ∷ [])
    ∷ ("cedil;", 0xc7 ∷ [])
    ∷ ("olone;", 0x2a74 ∷ [])
    ∷ ("onint;", 0x222f ∷ [])
    ∷ ("upCap;", 0x224d ∷ [])
    ∷ ("cedil", 0xc7 ∷ [])
    ∷ ("circ;", 0x108 ∷ [])
    ∷ ("olon;", 0x2237 ∷ [])
    ∷ ("ross;", 0x2a2f ∷ [])
    ∷ ("Hcy;", 0x427 ∷ [])
    ∷ ("OPY;", 0xa9 ∷ [])
    ∷ ("dot;", 0x10a ∷ [])
    ∷ ("opf;", 0x2102 ∷ [])
    ∷ ("scr;", 0x1d49e ∷ [])
    ∷ ("OPY", 0xa9 ∷ [])
    ∷ ("ap;", 0x22d2 ∷ [])
    ∷ ("fr;", 0x212d ∷ [])
    ∷ ("hi;", 0x3a7 ∷ [])
    ∷ ("up;", 0x22d3 ∷ [])
    ∷ []

abbrev pub branch_upper_d : List Entry
branch_upper_d =
    ("oubleLongLeftRightArrow;", 0x27fa ∷ [])
    ∷ ("iacriticalDoubleAcute;", 0x2dd ∷ [])
    ∷ ("oubleContourIntegral;", 0x222f ∷ [])
    ∷ ("oubleLeftRightArrow;", 0x21d4 ∷ [])
    ∷ ("oubleLongRightArrow;", 0x27f9 ∷ [])
    ∷ ("oubleLongLeftArrow;", 0x27f8 ∷ [])
    ∷ ("ownLeftRightVector;", 0x2950 ∷ [])
    ∷ ("ownRightTeeVector;", 0x295f ∷ [])
    ∷ ("ownRightVectorBar;", 0x2957 ∷ [])
    ∷ ("oubleUpDownArrow;", 0x21d5 ∷ [])
    ∷ ("oubleVerticalBar;", 0x2225 ∷ [])
    ∷ ("ownLeftTeeVector;", 0x295e ∷ [])
    ∷ ("ownLeftVectorBar;", 0x2956 ∷ [])
    ∷ ("iacriticalAcute;", 0xb4 ∷ [])
    ∷ ("iacriticalGrave;", 0x60 ∷ [])
    ∷ ("iacriticalTilde;", 0x2dc ∷ [])
    ∷ ("oubleRightArrow;", 0x21d2 ∷ [])
    ∷ ("ownArrowUpArrow;", 0x21f5 ∷ [])
    ∷ ("oubleDownArrow;", 0x21d3 ∷ [])
    ∷ ("oubleLeftArrow;", 0x21d0 ∷ [])
    ∷ ("ownRightVector;", 0x21c1 ∷ [])
    ∷ ("iacriticalDot;", 0x2d9 ∷ [])
    ∷ ("oubleRightTee;", 0x22a8 ∷ [])
    ∷ ("ownLeftVector;", 0x21bd ∷ [])
    ∷ ("ifferentialD;", 0x2146 ∷ [])
    ∷ ("oubleLeftTee;", 0x2ae4 ∷ [])
    ∷ ("oubleUpArrow;", 0x21d1 ∷ [])
    ∷ ("ownArrowBar;", 0x2913 ∷ [])
    ∷ ("ownTeeArrow;", 0x21a7 ∷ [])
    ∷ ("oubleDot;", 0xa8 ∷ [])
    ∷ ("ownArrow;", 0x2193 ∷ [])
    ∷ ("ownBreve;", 0x311 ∷ [])
    ∷ ("ownarrow;", 0x21d3 ∷ [])
    ∷ ("Dotrahd;", 0x2911 ∷ [])
    ∷ ("otEqual;", 0x2250 ∷ [])
    ∷ ("iamond;", 0x22c4 ∷ [])
    ∷ ("ownTee;", 0x22a4 ∷ [])
    ∷ ("agger;", 0x2021 ∷ [])
    ∷ ("caron;", 0x10e ∷ [])
    ∷ ("otDot;", 0x20dc ∷ [])
    ∷ ("strok;", 0x110 ∷ [])
    ∷ ("ashv;", 0x2ae4 ∷ [])
    ∷ ("elta;", 0x394 ∷ [])
    ∷ ("Jcy;", 0x402 ∷ [])
    ∷ ("Scy;", 0x405 ∷ [])
    ∷ ("Zcy;", 0x40f ∷ [])
    ∷ ("arr;", 0x21a1 ∷ [])
    ∷ ("opf;", 0x1d53b ∷ [])
    ∷ ("scr;", 0x1d49f ∷ [])
    ∷ ("cy;", 0x414 ∷ [])
    ∷ ("el;", 0x2207 ∷ [])
    ∷ ("fr;", 0x1d507 ∷ [])
    ∷ ("ot;", 0xa8 ∷ [])
    ∷ ("D;", 0x2145 ∷ [])
    ∷ []

abbrev pub branch_upper_e : List Entry
branch_upper_e =
    ("mptyVerySmallSquare;", 0x25ab ∷ [])
    ∷ ("mptySmallSquare;", 0x25fb ∷ [])
    ∷ ("xponentialE;", 0x2147 ∷ [])
    ∷ ("quilibrium;", 0x21cc ∷ [])
    ∷ ("qualTilde;", 0x2242 ∷ [])
    ∷ ("lement;", 0x2208 ∷ [])
    ∷ ("psilon;", 0x395 ∷ [])
    ∷ ("acute;", 0xc9 ∷ [])
    ∷ ("caron;", 0x11a ∷ [])
    ∷ ("grave;", 0xc8 ∷ [])
    ∷ ("xists;", 0x2203 ∷ [])
    ∷ ("acute", 0xc9 ∷ [])
    ∷ ("circ;", 0xca ∷ [])
    ∷ ("grave", 0xc8 ∷ [])
    ∷ ("macr;", 0x112 ∷ [])
    ∷ ("ogon;", 0x118 ∷ [])
    ∷ ("qual;", 0x2a75 ∷ [])
    ∷ ("circ", 0xca ∷ [])
    ∷ ("dot;", 0x116 ∷ [])
    ∷ ("opf;", 0x1d53c ∷ [])
    ∷ ("scr;", 0x2130 ∷ [])
    ∷ ("sim;", 0x2a73 ∷ [])
    ∷ ("uml;", 0xcb ∷ [])
    ∷ ("NG;", 0x14a ∷ [])
    ∷ ("TH;", 0xd0 ∷ [])
    ∷ ("cy;", 0x42d ∷ [])
    ∷ ("fr;", 0x1d508 ∷ [])
    ∷ ("ta;", 0x397 ∷ [])
    ∷ ("uml", 0xcb ∷ [])
    ∷ ("TH", 0xd0 ∷ [])
    ∷ []
