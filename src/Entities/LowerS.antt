-- ===== src/Entities/LowerS.antt =====
-- src/entities.rs: the tables of `try_read_character_reference` for a first letter from 's' to 's'.
-- An entry holds the rest of a name, and the code points that it stands for.
use html5gum.Base.{List, [], ◌∷◌}
use html5gum.Entities.Shape.{Entry}

abbrev pub branch_lower_s : List Entry
branch_lower_s =
    ("traightepsilon;", 0x3f5 ∷ [])
    ∷ ("hortparallel;", 0x2225 ∷ [])
    ∷ ("mallsetminus;", 0x2216 ∷ [])
    ∷ ("traightphi;", 0x3d5 ∷ [])
    ∷ ("ucccurlyeq;", 0x227d ∷ [])
    ∷ ("uccnapprox;", 0x2aba ∷ [])
    ∷ ("qsubseteq;", 0x2291 ∷ [])
    ∷ ("qsupseteq;", 0x2292 ∷ [])
    ∷ ("ubsetneqq;", 0x2acb ∷ [])
    ∷ ("uccapprox;", 0x2ab8 ∷ [])
    ∷ ("upsetneqq;", 0x2acc ∷ [])
    ∷ ("padesuit;", 0x2660 ∷ [])
    ∷ ("ubseteqq;", 0x2ac5 ∷ [])
    ∷ ("ubsetneq;", 0x228a ∷ [])
    ∷ ("upseteqq;", 0x2ac6 ∷ [])
    ∷ ("upsetneq;", 0x228b ∷ [])
    ∷ ("cpolint;", 0x2a13 ∷ [])
    ∷ ("etminus;", 0x2216 ∷ [])
    ∷ ("hortmid;", 0x2223 ∷ [])
    ∷ ("meparsl;", 0x29e4 ∷ [])
    ∷ ("qsubset;", 0x228f ∷ [])
    ∷ ("qsupset;", 0x2290 ∷ [])
    ∷ ("ubseteq;", 0x2286 ∷ [])
    ∷ ("uccneqq;", 0x2ab6 ∷ [])
    ∷ ("uccnsim;", 0x22e9 ∷ [])
    ∷ ("upseteq;", 0x2287 ∷ [])
    ∷ ("earrow;", 0x2198 ∷ [])
    ∷ ("implus;", 0x2a24 ∷ [])
    ∷ ("imrarr;", 0x2972 ∷ [])
    ∷ ("ubedot;", 0x2ac3 ∷ [])
    ∷ ("ubmult;", 0x2ac1 ∷ [])
    ∷ ("ubplus;", 0x2abf ∷ [])
    ∷ ("ubrarr;", 0x2979 ∷ [])
    ∷ ("uccsim;", 0x227f ∷ [])
    ∷ ("updsub;", 0x2ad8 ∷ [])
    ∷ ("upedot;", 0x2ac4 ∷ [])
    ∷ ("uphsol;", 0x27c9 ∷ [])
    ∷ ("uphsub;", 0x2ad7 ∷ [])
    ∷ ("uplarr;", 0x297b ∷ [])
    ∷ ("upmult;", 0x2ac2 ∷ [])
    ∷ ("upplus;", 0x2ac0 ∷ [])
    ∷ ("warrow;", 0x2199 ∷ [])
    ∷ ("acute;", 0x15b ∷ [])
    ∷ ("caron;", 0x161 ∷ [])
    ∷ ("cedil;", 0x15f ∷ [])
    ∷ ("cnsim;", 0x22e9 ∷ [])
    ∷ ("earhk;", 0x2925 ∷ [])
    ∷ ("eswar;", 0x2929 ∷ [])
    ∷ ("frown;", 0x2322 ∷ [])
    ∷ ("hchcy;", 0x449 ∷ [])
    ∷ ("igmaf;", 0x3c2 ∷ [])
    ∷ ("igmav;", 0x3c2 ∷ [])
    ∷ ("imdot;", 0x2a6a ∷ [])
    ∷ ("mashp;", 0x2a33 ∷ [])
    ∷ ("oftcy;", 0x44c ∷ [])
    ∷ ("olbar;", 0x233f ∷ [])
    ∷ ("pades;", 0x2660 ∷ [])
    ∷ ("qcaps;", 0x2293 ∷ 0xfe00 ∷ [])
    ∷ ("qcups;", 0x2294 ∷ 0xfe00 ∷ [])
    ∷ ("qsube;", 0x2291 ∷ [])
    ∷ ("qsupe;", 0x2292 ∷ [])
    ∷ ("quare;", 0x25a1 ∷ [])
    ∷ ("quarf;", 0x25aa ∷ [])
    ∷ ("setmn;", 0x2216 ∷ [])
    ∷ ("smile;", 0x2323 ∷ [])
    ∷ ("starf;", 0x22c6 ∷ [])
    ∷ ("ubdot;", 0x2abd ∷ [])
    ∷ ("ubset;", 0x2282 ∷ [])
    ∷ ("ubsim;", 0x2ac7 ∷ [])
    ∷ ("ubsub;", 0x2ad5 ∷ [])
    ∷ ("ubsup;", 0x2ad3 ∷ [])
    ∷ ("ucceq;", 0x2ab0 ∷ [])
    ∷ ("updot;", 0x2abe ∷ [])
    ∷ ("upset;", 0x2283 ∷ [])
    ∷ ("upsim;", 0x2ac8 ∷ [])
    ∷ ("upsub;", 0x2ad4 ∷ [])
    ∷ ("upsup;", 0x2ad6 ∷ [])
    ∷ ("warhk;", 0x2926 ∷ [])
    ∷ ("wnwar;", 0x292a ∷ [])
    ∷ ("bquo;", 0x201a ∷ [])
    ∷ ("ccue;", 0x227d ∷ [])
    ∷ ("circ;", 0x15d ∷ [])
    ∷ ("cnap;", 0x2aba ∷ [])
    ∷ ("csim;", 0x227f ∷ [])
    ∷ ("dotb;", 0x22a1 ∷ [])
    ∷ ("dote;", 0x2a66 ∷ [])
    ∷ ("eArr;", 0x21d8 ∷ [])
    ∷ ("earr;", 0x2198 ∷ [])
    ∷ ("etmn;", 0x2216 ∷ [])
    ∷ ("harp;", 0x266f ∷ [])
    ∷ ("igma;", 0x3c3 ∷ [])
    ∷ ("imeq;", 0x2243 ∷ [])
    ∷ ("imgE;", 0x2aa0 ∷ [])
    ∷ ("imlE;", 0x2a9f ∷ [])
    ∷ ("imne;", 0x2246 ∷ [])
    ∷ ("larr;", 0x2190 ∷ [])
    ∷ ("mile;", 0x2323 ∷ [])
    ∷ ("mtes;", 0x2aac ∷ 0xfe00 ∷ [])
    ∷ ("qcap;", 0x2293 ∷ [])
    ∷ ("qcup;", 0x2294 ∷ [])
    ∷ ("qsub;", 0x228f ∷ [])
    ∷ ("qsup;", 0x2290 ∷ [])
    ∷ ("rarr;", 0x2192 ∷ [])
    ∷ ("tarf;", 0x2605 ∷ [])
    ∷ ("trns;", 0xaf ∷ [])
    ∷ ("ubnE;", 0x2acb ∷ [])
    ∷ ("ubne;", 0x228a ∷ [])
    ∷ ("upnE;", 0x2acc ∷ [])
    ∷ ("upne;", 0x228b ∷ [])
    ∷ ("wArr;", 0x21d9 ∷ [])
    ∷ ("warr;", 0x2199 ∷ [])
    ∷ ("zlig;", 0xdf ∷ [])
    ∷ ("cap;", 0x2ab8 ∷ [])
    ∷ ("cnE;", 0x2ab6 ∷ [])
    ∷ ("dot;", 0x22c5 ∷ [])
    ∷ ("ect;", 0xa7 ∷ [])
    ∷ ("emi;", 0x3b ∷ [])
    ∷ ("ext;", 0x2736 ∷ [])
    ∷ ("hcy;", 0x448 ∷ [])
    ∷ ("ime;", 0x2243 ∷ [])
    ∷ ("img;", 0x2a9e ∷ [])
    ∷ ("iml;", 0x2a9d ∷ [])
    ∷ ("mid;", 0x2223 ∷ [])
    ∷ ("mte;", 0x2aac ∷ [])
    ∷ ("olb;", 0x29c4 ∷ [])
    ∷ ("opf;", 0x1d564 ∷ [])
    ∷ ("par;", 0x2225 ∷ [])
    ∷ ("quf;", 0x25aa ∷ [])
    ∷ ("scr;", 0x1d4c8 ∷ [])
    ∷ ("tar;", 0x2606 ∷ [])
    ∷ ("ubE;", 0x2ac5 ∷ [])
    ∷ ("ube;", 0x2286 ∷ [])
    ∷ ("ucc;", 0x227b ∷ [])
    ∷ ("ung;", 0x266a ∷ [])
    ∷ ("up1;", 0xb9 ∷ [])
    ∷ ("up2;", 0xb2 ∷ [])
    ∷ ("up3;", 0xb3 ∷ [])
    ∷ ("upE;", 0x2ac6 ∷ [])
    ∷ ("upe;", 0x2287 ∷ [])
    ∷ ("zlig", 0xdf ∷ [])
    ∷ ("cE;", 0x2ab4 ∷ [])
    ∷ ("ce;", 0x2ab0 ∷ [])
    ∷ ("cy;", 0x441 ∷ [])
    ∷ ("ect", 0xa7 ∷ [])
    ∷ ("fr;", 0x1d530 ∷ [])
    ∷ ("hy;", 0xad ∷ [])
    ∷ ("im;", 0x223c ∷ [])
    ∷ ("mt;", 0x2aaa ∷ [])
    ∷ ("ol;", 0x2f ∷ [])
    ∷ ("qu;", 0x25a1 ∷ [])
    ∷ ("ub;", 0x2282 ∷ [])
    ∷ ("um;", 0x2211 ∷ [])
    ∷ ("up1", 0xb9 ∷ [])
    ∷ ("up2", 0xb2 ∷ [])
    ∷ ("up3", 0xb3 ∷ [])
    ∷ ("up;", 0x2283 ∷ [])
    ∷ ("c;", 0x227b ∷ [])
    ∷ ("hy", 0xad ∷ [])
    ∷ []
