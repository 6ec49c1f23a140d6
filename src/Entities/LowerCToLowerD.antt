-- ===== src/Entities/LowerCToLowerD.antt =====
-- src/entities.rs: the tables of `try_read_character_reference` for a first letter from 'c' to 'd'.
-- An entry holds the rest of a name, and the code points that it stands for.
use html5gum.Base.{List, [], ◌∷◌}
use html5gum.Entities.Shape.{Entry}

abbrev pub branch_lower_c : List Entry
branch_lower_c =
    ("irclearrowright;", 0x21bb ∷ [])
    ∷ ("irclearrowleft;", 0x21ba ∷ [])
    ∷ ("urvearrowright;", 0x21b7 ∷ [])
    ∷ ("urvearrowleft;", 0x21b6 ∷ [])
    ∷ ("ircledcirc;", 0x229a ∷ [])
    ∷ ("ircleddash;", 0x229d ∷ [])
    ∷ ("urlyeqprec;", 0x22de ∷ [])
    ∷ ("urlyeqsucc;", 0x22df ∷ [])
    ∷ ("ircledast;", 0x229b ∷ [])
    ∷ ("omplement;", 0x2201 ∷ [])
    ∷ ("urlywedge;", 0x22cf ∷ [])
    ∷ ("enterdot;", 0xb7 ∷ [])
    ∷ ("heckmark;", 0x2713 ∷ [])
    ∷ ("omplexes;", 0x2102 ∷ [])
    ∷ ("apbrcup;", 0x2a49 ∷ [])
    ∷ ("ircledR;", 0xae ∷ [])
    ∷ ("ircledS;", 0x24c8 ∷ [])
    ∷ ("irfnint;", 0x2a10 ∷ [])
    ∷ ("lubsuit;", 0x2663 ∷ [])
    ∷ ("upbrcap;", 0x2a48 ∷ [])
    ∷ ("urlyvee;", 0x22ce ∷ [])
    ∷ ("wconint;", 0x2232 ∷ [])
    ∷ ("cupssm;", 0x2a50 ∷ [])
    ∷ ("emptyv;", 0x29b2 ∷ [])
    ∷ ("irscir;", 0x29c2 ∷ [])
    ∷ ("oloneq;", 0x2254 ∷ [])
    ∷ ("ongdot;", 0x2a6d ∷ [])
    ∷ ("udarrl;", 0x2938 ∷ [])
    ∷ ("udarrr;", 0x2935 ∷ [])
    ∷ ("ularrp;", 0x293d ∷ [])
    ∷ ("urarrm;", 0x293c ∷ [])
    ∷ ("acute;", 0x107 ∷ [])
    ∷ ("apand;", 0x2a44 ∷ [])
    ∷ ("apcap;", 0x2a4b ∷ [])
    ∷ ("apcup;", 0x2a47 ∷ [])
    ∷ ("apdot;", 0x2a40 ∷ [])
    ∷ ("caron;", 0x10d ∷ [])
    ∷ ("cedil;", 0xe7 ∷ [])
    ∷ ("irceq;", 0x2257 ∷ [])
    ∷ ("irmid;", 0x2aef ∷ [])
    ∷ ("olone;", 0x2254 ∷ [])
    ∷ ("ommat;", 0x40 ∷ [])
    ∷ ("ompfn;", 0x2218 ∷ [])
    ∷ ("onint;", 0x222e ∷ [])
    ∷ ("oprod;", 0x2210 ∷ [])
    ∷ ("opysr;", 0x2117 ∷ [])
    ∷ ("ularr;", 0x21b6 ∷ [])
    ∷ ("upcap;", 0x2a46 ∷ [])
    ∷ ("upcup;", 0x2a4a ∷ [])
    ∷ ("updot;", 0x228d ∷ [])
    ∷ ("urarr;", 0x21b7 ∷ [])
    ∷ ("urren;", 0xa4 ∷ [])
    ∷ ("ylcty;", 0x232d ∷ [])
    ∷ ("aret;", 0x2041 ∷ [])
    ∷ ("aron;", 0x2c7 ∷ [])
    ∷ ("caps;", 0x2a4d ∷ [])
    ∷ ("cedil", 0xe7 ∷ [])
    ∷ ("circ;", 0x109 ∷ [])
    ∷ ("cups;", 0x2a4c ∷ [])
    ∷ ("edil;", 0xb8 ∷ [])
    ∷ ("heck;", 0x2713 ∷ [])
    ∷ ("lubs;", 0x2663 ∷ [])
    ∷ ("olon;", 0x3a ∷ [])
    ∷ ("omma;", 0x2c ∷ [])
    ∷ ("rarr;", 0x21b5 ∷ [])
    ∷ ("ross;", 0x2717 ∷ [])
    ∷ ("sube;", 0x2ad1 ∷ [])
    ∷ ("supe;", 0x2ad2 ∷ [])
    ∷ ("tdot;", 0x22ef ∷ [])
    ∷ ("uepr;", 0x22de ∷ [])
    ∷ ("uesc;", 0x22df ∷ [])
    ∷ ("upor;", 0x2a45 ∷ [])
    ∷ ("urren", 0xa4 ∷ [])
    ∷ ("uvee;", 0x22ce ∷ [])
    ∷ ("uwed;", 0x22cf ∷ [])
    ∷ ("wint;", 0x2231 ∷ [])
    ∷ ("aps;", 0x2229 ∷ 0xfe00 ∷ [])
    ∷ ("dot;", 0x10b ∷ [])
    ∷ ("edil", 0xb8 ∷ [])
    ∷ ("ent;", 0xa2 ∷ [])
    ∷ ("hcy;", 0x447 ∷ [])
    ∷ ("irE;", 0x29c3 ∷ [])
    ∷ ("irc;", 0x2c6 ∷ [])
    ∷ ("ire;", 0x2257 ∷ [])
    ∷ ("omp;", 0x2201 ∷ [])
    ∷ ("ong;", 0x2245 ∷ [])
    ∷ ("opf;", 0x1d554 ∷ [])
    ∷ ("opy;", 0xa9 ∷ [])
    ∷ ("scr;", 0x1d4b8 ∷ [])
    ∷ ("sub;", 0x2acf ∷ [])
    ∷ ("sup;", 0x2ad0 ∷ [])
    ∷ ("ups;", 0x222a ∷ 0xfe00 ∷ [])
    ∷ ("ap;", 0x2229 ∷ [])
    ∷ ("ent", 0xa2 ∷ [])
    ∷ ("fr;", 0x1d520 ∷ [])
    ∷ ("hi;", 0x3c7 ∷ [])
    ∷ ("ir;", 0x25cb ∷ [])
    ∷ ("opy", 0xa9 ∷ [])
    ∷ ("up;", 0x222a ∷ [])
    ∷ []

abbrev pub branch_lower_d : List Entry
branch_lower_d =
    ("ownharpoonright;", 0x21c2 ∷ [])
    ∷ ("ownharpoonleft;", 0x21c3 ∷ [])
    ∷ ("oublebarwedge;", 0x2306 ∷ [])
    ∷ ("owndownarrows;", 0x21ca ∷ [])
    ∷ ("ivideontimes;", 0x22c7 ∷ [])
    ∷ ("iamondsuit;", 0x2666 ∷ [])
    ∷ ("otsquare;", 0x22a1 ∷ [])
    ∷ ("ownarrow;", 0x2193 ∷ [])
    ∷ ("oteqdot;", 0x2251 ∷ [])
    ∷ ("otminus;", 0x2238 ∷ [])
    ∷ ("rbkarow;", 0x2910 ∷ [])
    ∷ ("zigrarr;", 0x27ff ∷ [])
    ∷ ("bkarow;", 0x290f ∷ [])
    ∷ ("dagger;", 0x2021 ∷ [])
    ∷ ("dotseq;", 0x2a77 ∷ [])
    ∷ ("emptyv;", 0x29b1 ∷ [])
    ∷ ("iamond;", 0x22c4 ∷ [])
    ∷ ("igamma;", 0x3dd ∷ [])
    ∷ ("otplus;", 0x2214 ∷ [])
    ∷ ("wangle;", 0x29a6 ∷ [])
    ∷ ("agger;", 0x2020 ∷ [])
    ∷ ("aleth;", 0x2138 ∷ [])
    ∷ ("caron;", 0x10f ∷ [])
    ∷ ("fisht;", 0x297f ∷ [])
    ∷ ("ivide;", 0xf7 ∷ [])
    ∷ ("ivonx;", 0x22c7 ∷ [])
    ∷ ("lcorn;", 0x231e ∷ [])
    ∷ ("lcrop;", 0x230d ∷ [])
    ∷ ("ollar;", 0x24 ∷ [])
    ∷ ("rcorn;", 0x231f ∷ [])
    ∷ ("rcrop;", 0x230c ∷ [])
    ∷ ("strok;", 0x111 ∷ [])
    ∷ ("ashv;", 0x22a3 ∷ [])
    ∷ ("blac;", 0x2dd ∷ [])
    ∷ ("darr;", 0x21ca ∷ [])
    ∷ ("elta;", 0x3b4 ∷ [])
    ∷ ("harl;", 0x21c3 ∷ [])
    ∷ ("harr;", 0x21c2 ∷ [])
    ∷ ("iams;", 0x2666 ∷ [])
    ∷ ("isin;", 0x22f2 ∷ [])
    ∷ ("ivide", 0xf7 ∷ [])
    ∷ ("oteq;", 0x2250 ∷ [])
    ∷ ("tdot;", 0x22f1 ∷ [])
    ∷ ("trif;", 0x25be ∷ [])
    ∷ ("uarr;", 0x21f5 ∷ [])
    ∷ ("uhar;", 0x296f ∷ [])
    ∷ ("Arr;", 0x21d3 ∷ [])
    ∷ ("Har;", 0x2965 ∷ [])
    ∷ ("arr;", 0x2193 ∷ [])
    ∷ ("ash;", 0x2010 ∷ [])
    ∷ ("iam;", 0x22c4 ∷ [])
    ∷ ("jcy;", 0x452 ∷ [])
    ∷ ("opf;", 0x1d555 ∷ [])
    ∷ ("scr;", 0x1d4b9 ∷ [])
    ∷ ("scy;", 0x455 ∷ [])
    ∷ ("sol;", 0x29f6 ∷ [])
    ∷ ("tri;", 0x25bf ∷ [])
    ∷ ("zcy;", 0x45f ∷ [])
    ∷ ("cy;", 0x434 ∷ [])
    ∷ ("eg;", 0xb0 ∷ [])
    ∷ ("fr;", 0x1d521 ∷ [])
    ∷ ("ie;", 0xa8 ∷ [])
    ∷ ("iv;", 0xf7 ∷ [])
    ∷ ("ot;", 0x2d9 ∷ [])
    ∷ ("d;", 0x2146 ∷ [])
    ∷ ("eg", 0xb0 ∷ [])
    ∷ []
