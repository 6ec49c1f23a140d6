-- ===== src/Entities/LowerB.antt =====
-- src/entities.rs: the tables of `try_read_character_reference` for a first letter from 'b' to 'b'.
-- An entry holds the rest of a name, and the code points that it stands for.
use html5gum.Base.{List, [], ◌∷◌}
use html5gum.Entities.Shape.{Entry}

abbrev pub branch_lower_b : List Entry
branch_lower_b =
    ("lacktriangleright;", 0x25b8 ∷ [])
    ∷ ("lacktriangledown;", 0x25be ∷ [])
    ∷ ("lacktriangleleft;", 0x25c2 ∷ [])
    ∷ ("igtriangledown;", 0x25bd ∷ [])
    ∷ ("igtriangleup;", 0x25b3 ∷ [])
    ∷ ("lacktriangle;", 0x25b4 ∷ [])
    ∷ ("lacklozenge;", 0x29eb ∷ [])
    ∷ ("ackepsilon;", 0x3f6 ∷ [])
    ∷ ("lacksquare;", 0x25aa ∷ [])
    ∷ ("ackprime;", 0x2035 ∷ [])
    ∷ ("acksimeq;", 0x22cd ∷ [])
    ∷ ("igotimes;", 0x2a02 ∷ [])
    ∷ ("ackcong;", 0x224c ∷ [])
    ∷ ("arwedge;", 0x2305 ∷ [])
    ∷ ("brktbrk;", 0x23b6 ∷ [])
    ∷ ("igoplus;", 0x2a01 ∷ [])
    ∷ ("igsqcup;", 0x2a06 ∷ [])
    ∷ ("iguplus;", 0x2a04 ∷ [])
    ∷ ("igwedge;", 0x22c0 ∷ [])
    ∷ ("oxminus;", 0x229f ∷ [])
    ∷ ("oxtimes;", 0x22a0 ∷ [])
    ∷ ("solhsub;", 0x27c8 ∷ [])
    ∷ ("acksim;", 0x223d ∷ [])
    ∷ ("ecause;", 0x2235 ∷ [])
    ∷ ("emptyv;", 0x29b0 ∷ [])
    ∷ ("etween;", 0x226c ∷ [])
    ∷ ("igcirc;", 0x25ef ∷ [])
    ∷ ("igodot;", 0x2a00 ∷ [])
    ∷ ("igstar;", 0x2605 ∷ [])
    ∷ ("nequiv;", 0x2261 ∷ 0x20e5 ∷ [])
    ∷ ("oxplus;", 0x229e ∷ [])
    ∷ ("arvee;", 0x22bd ∷ [])
    ∷ ("arwed;", 0x2305 ∷ [])
    ∷ ("ecaus;", 0x2235 ∷ [])
    ∷ ("ernou;", 0x212c ∷ [])
    ∷ ("igcap;", 0x22c2 ∷ [])
    ∷ ("igcup;", 0x22c3 ∷ [])
    ∷ ("igvee;", 0x22c1 ∷ [])
    ∷ ("karow;", 0x290d ∷ [])
    ∷ ("ottom;", 0x22a5 ∷ [])
    ∷ ("owtie;", 0x22c8 ∷ [])
    ∷ ("oxbox;", 0x29c9 ∷ [])
    ∷ ("prime;", 0x2035 ∷ [])
    ∷ ("rvbar;", 0xa6 ∷ [])
    ∷ ("ullet;", 0x2022 ∷ [])
    ∷ ("umpeq;", 0x224f ∷ [])
    ∷ ("cong;", 0x224c ∷ [])
    ∷ ("dquo;", 0x201e ∷ [])
    ∷ ("epsi;", 0x3f6 ∷ [])
    ∷ ("lank;", 0x2423 ∷ [])
    ∷ ("lk12;", 0x2592 ∷ [])
    ∷ ("lk14;", 0x2591 ∷ [])
    ∷ ("lk34;", 0x2593 ∷ [])
    ∷ ("lock;", 0x2588 ∷ [])
    ∷ ("oxDL;", 0x2557 ∷ [])
    ∷ ("oxDR;", 0x2554 ∷ [])
    ∷ ("oxDl;", 0x2556 ∷ [])
    ∷ ("oxDr;", 0x2553 ∷ [])
    ∷ ("oxHD;", 0x2566 ∷ [])
    ∷ ("oxHU;", 0x2569 ∷ [])
    ∷ ("oxHd;", 0x2564 ∷ [])
    ∷ ("oxHu;", 0x2567 ∷ [])
    ∷ ("oxUL;", 0x255d ∷ [])
    ∷ ("oxUR;", 0x255a ∷ [])
    ∷ ("oxUl;", 0x255c ∷ [])
    ∷ ("oxUr;", 0x2559 ∷ [])
    ∷ ("oxVH;", 0x256c ∷ [])
    ∷ ("oxVL;", 0x2563 ∷ [])
    ∷ ("oxVR;", 0x2560 ∷ [])
    ∷ ("oxVh;", 0x256b ∷ [])
    ∷ ("oxVl;", 0x2562 ∷ [])
    ∷ ("oxVr;", 0x255f ∷ [])
    ∷ ("oxdL;", 0x2555 ∷ [])
    ∷ ("oxdR;", 0x2552 ∷ [])
    ∷ ("oxdl;", 0x2510 ∷ [])
    ∷ ("oxdr;", 0x250c ∷ [])
    ∷ ("oxhD;", 0x2565 ∷ [])
    ∷ ("oxhU;", 0x2568 ∷ [])
    ∷ ("oxhd;", 0x252c ∷ [])
    ∷ ("oxhu;", 0x2534 ∷ [])
    ∷ ("oxuL;", 0x255b ∷ [])
    ∷ ("oxuR;", 0x2558 ∷ [])
    ∷ ("oxul;", 0x2518 ∷ [])
    ∷ ("oxur;", 0x2514 ∷ [])
    ∷ ("oxvH;", 0x256a ∷ [])
    ∷ ("oxvL;", 0x2561 ∷ [])
    ∷ ("oxvR;", 0x255e ∷ [])
    ∷ ("oxvh;", 0x253c ∷ [])
    ∷ ("oxvl;", 0x2524 ∷ [])
    ∷ ("oxvr;", 0x251c ∷ [])
    ∷ ("reve;", 0x2d8 ∷ [])
    ∷ ("rvbar", 0xa6 ∷ [])
    ∷ ("semi;", 0x204f ∷ [])
    ∷ ("sime;", 0x22cd ∷ [])
    ∷ ("solb;", 0x29c5 ∷ [])
    ∷ ("umpE;", 0x2aae ∷ [])
    ∷ ("umpe;", 0x224f ∷ [])
    ∷ ("Not;", 0x2aed ∷ [])
    ∷ ("brk;", 0x23b5 ∷ [])
    ∷ ("eta;", 0x3b2 ∷ [])
    ∷ ("eth;", 0x2136 ∷ [])
    ∷ ("not;", 0x2310 ∷ [])
    ∷ ("opf;", 0x1d553 ∷ [])
    ∷ ("oxH;", 0x2550 ∷ [])
    ∷ ("oxV;", 0x2551 ∷ [])
    ∷ ("oxh;", 0x2500 ∷ [])
    ∷ ("oxv;", 0x2502 ∷ [])
    ∷ ("scr;", 0x1d4b7 ∷ [])
    ∷ ("sim;", 0x223d ∷ [])
    ∷ ("sol;", 0x5c ∷ [])
    ∷ ("ull;", 0x2022 ∷ [])
    ∷ ("ump;", 0x224e ∷ [])
    ∷ ("cy;", 0x431 ∷ [])
    ∷ ("fr;", 0x1d51f ∷ [])
    ∷ ("ne;", 0x3d ∷ 0x20e5 ∷ [])
    ∷ ("ot;", 0x22a5 ∷ [])
    ∷ []
