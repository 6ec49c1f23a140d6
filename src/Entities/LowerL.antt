-- ===== src/Entities/LowerL.antt =====
-- src/entities.rs: the tables of `try_read_character_reference` for a first letter from 'l' to 'l'.
-- An entry holds the rest of a name, and the code points that it stands for.
use html5gum.Base.{List, [], ◌∷◌}
use html5gum.Entities.Shape.{Entry}

abbrev pub branch_lower_l : List Entry
branch_lower_l =
    ("eftrightsquigarrow;", 0x21ad ∷ [])
    ∷ ("ongleftrightarrow;", 0x27f7 ∷ [])
    ∷ ("eftrightharpoons;", 0x21cb ∷ [])
    ∷ ("eftharpoondown;", 0x21bd ∷ [])
    ∷ ("eftrightarrows;", 0x21c6 ∷ [])
    ∷ ("eftleftarrows;", 0x21c7 ∷ [])
    ∷ ("eftrightarrow;", 0x2194 ∷ [])
    ∷ ("eftthreetimes;", 0x22cb ∷ [])
    ∷ ("ongrightarrow;", 0x27f6 ∷ [])
    ∷ ("ooparrowright;", 0x21ac ∷ [])
    ∷ ("eftarrowtail;", 0x21a2 ∷ [])
    ∷ ("eftharpoonup;", 0x21bc ∷ [])
    ∷ ("ongleftarrow;", 0x27f5 ∷ [])
    ∷ ("ooparrowleft;", 0x21ab ∷ [])
    ∷ ("essapprox;", 0x2a85 ∷ [])
    ∷ ("esseqqgtr;", 0x2a8b ∷ [])
    ∷ ("moustache;", 0x23b0 ∷ [])
    ∷ ("ongmapsto;", 0x27fc ∷ [])
    ∷ ("eftarrow;", 0x2190 ∷ [])
    ∷ ("esseqgtr;", 0x22da ∷ [])
    ∷ ("vertneqq;", 0x2268 ∷ 0xfe00 ∷ [])
    ∷ ("aemptyv;", 0x29b4 ∷ [])
    ∷ ("drushar;", 0x294b ∷ [])
    ∷ ("eqslant;", 0x2a7d ∷ [])
    ∷ ("esdotor;", 0x2a83 ∷ [])
    ∷ ("lcorner;", 0x231e ∷ [])
    ∷ ("napprox;", 0x2a89 ∷ [])
    ∷ ("rcorner;", 0x231f ∷ [])
    ∷ ("urdshar;", 0x294a ∷ [])
    ∷ ("arrbfs;", 0x291f ∷ [])
    ∷ ("arrsim;", 0x2973 ∷ [])
    ∷ ("brksld;", 0x298f ∷ [])
    ∷ ("brkslu;", 0x298d ∷ [])
    ∷ ("drdhar;", 0x2967 ∷ [])
    ∷ ("esdoto;", 0x2a81 ∷ [])
    ∷ ("essdot;", 0x22d6 ∷ [])
    ∷ ("essgtr;", 0x2276 ∷ [])
    ∷ ("esssim;", 0x2272 ∷ [])
    ∷ ("otimes;", 0x2a34 ∷ [])
    ∷ ("ozenge;", 0x25ca ∷ [])
    ∷ ("tquest;", 0x2a7b ∷ [])
    ∷ ("uruhar;", 0x2966 ∷ [])
    ∷ ("Atail;", 0x291b ∷ [])
    ∷ ("acute;", 0x13a ∷ [])
    ∷ ("agran;", 0x2112 ∷ [])
    ∷ ("ambda;", 0x3bb ∷ [])
    ∷ ("angle;", 0x27e8 ∷ [])
    ∷ ("arrfs;", 0x291d ∷ [])
    ∷ ("arrhk;", 0x21a9 ∷ [])
    ∷ ("arrlp;", 0x21ab ∷ [])
    ∷ ("arrpl;", 0x2939 ∷ [])
    ∷ ("arrtl;", 0x21a2 ∷ [])
    ∷ ("atail;", 0x2919 ∷ [])
    ∷ ("brace;", 0x7b ∷ [])
    ∷ ("brack;", 0x5b ∷ [])
    ∷ ("caron;", 0x13e ∷ [])
    ∷ ("cedil;", 0x13c ∷ [])
    ∷ ("dquor;", 0x201e ∷ [])
    ∷ ("esdot;", 0x2a7f ∷ [])
    ∷ ("esges;", 0x2a93 ∷ [])
    ∷ ("fisht;", 0x297c ∷ [])
    ∷ ("floor;", 0x230a ∷ [])
    ∷ ("harul;", 0x296a ∷ [])
    ∷ ("lhard;", 0x296b ∷ [])
    ∷ ("midot;", 0x140 ∷ [])
    ∷ ("moust;", 0x23b0 ∷ [])
    ∷ ("oplus;", 0x2a2d ∷ [])
    ∷ ("owast;", 0x2217 ∷ [])
    ∷ ("owbar;", 0x5f ∷ [])
    ∷ ("parlt;", 0x2993 ∷ [])
    ∷ ("rhard;", 0x296d ∷ [])
    ∷ ("saquo;", 0x2039 ∷ [])
    ∷ ("squor;", 0x201a ∷ [])
    ∷ ("strok;", 0x142 ∷ [])
    ∷ ("three;", 0x22cb ∷ [])
    ∷ ("times;", 0x22c9 ∷ [])
    ∷ ("tlarr;", 0x2976 ∷ [])
    ∷ ("trPar;", 0x2996 ∷ [])
    ∷ ("Aarr;", 0x21da ∷ [])
    ∷ ("Barr;", 0x290e ∷ [])
    ∷ ("angd;", 0x2991 ∷ [])
    ∷ ("aquo;", 0xab ∷ [])
    ∷ ("arrb;", 0x21e4 ∷ [])
    ∷ ("ates;", 0x2aad ∷ 0xfe00 ∷ [])
    ∷ ("barr;", 0x290c ∷ [])
    ∷ ("bbrk;", 0x2772 ∷ [])
    ∷ ("brke;", 0x298b ∷ [])
    ∷ ("ceil;", 0x2308 ∷ [])
    ∷ ("dquo;", 0x201c ∷ [])
    ∷ ("escc;", 0x2aa8 ∷ [])
    ∷ ("hard;", 0x21bd ∷ [])
    ∷ ("haru;", 0x21bc ∷ [])
    ∷ ("hblk;", 0x2584 ∷ [])
    ∷ ("larr;", 0x21c7 ∷ [])
    ∷ ("ltri;", 0x25fa ∷ [])
    ∷ ("neqq;", 0x2268 ∷ [])
    ∷ ("nsim;", 0x22e6 ∷ [])
    ∷ ("oang;", 0x27ec ∷ [])
    ∷ ("oarr;", 0x21fd ∷ [])
    ∷ ("obrk;", 0x27e6 ∷ [])
    ∷ ("opar;", 0x2985 ∷ [])
    ∷ ("rarr;", 0x21c6 ∷ [])
    ∷ ("rhar;", 0x21cb ∷ [])
    ∷ ("rtri;", 0x22bf ∷ [])
    ∷ ("sime;", 0x2a8d ∷ [])
    ∷ ("simg;", 0x2a8f ∷ [])
    ∷ ("squo;", 0x2018 ∷ [])
    ∷ ("tcir;", 0x2a79 ∷ [])
    ∷ ("tdot;", 0x22d6 ∷ [])
    ∷ ("trie;", 0x22b4 ∷ [])
    ∷ ("trif;", 0x25c2 ∷ [])
    ∷ ("Arr;", 0x21d0 ∷ [])
    ∷ ("Har;", 0x2962 ∷ [])
    ∷ ("ang;", 0x27e8 ∷ [])
    ∷ ("aquo", 0xab ∷ [])
    ∷ ("arr;", 0x2190 ∷ [])
    ∷ ("ate;", 0x2aad ∷ [])
    ∷ ("cub;", 0x7b ∷ [])
    ∷ ("dca;", 0x2936 ∷ [])
    ∷ ("dsh;", 0x21b2 ∷ [])
    ∷ ("eqq;", 0x2266 ∷ [])
    ∷ ("esg;", 0x22da ∷ 0xfe00 ∷ [])
    ∷ ("jcy;", 0x459 ∷ [])
    ∷ ("nap;", 0x2a89 ∷ [])
    ∷ ("neq;", 0x2a87 ∷ [])
    ∷ ("opf;", 0x1d55d ∷ [])
    ∷ ("ozf;", 0x29eb ∷ [])
    ∷ ("par;", 0x28 ∷ [])
    ∷ ("scr;", 0x1d4c1 ∷ [])
    ∷ ("sim;", 0x2272 ∷ [])
    ∷ ("sqb;", 0x5b ∷ [])
    ∷ ("tcc;", 0x2aa6 ∷ [])
    ∷ ("tri;", 0x25c3 ∷ [])
    ∷ ("vnE;", 0x2268 ∷ 0xfe00 ∷ [])
    ∷ ("Eg;", 0x2a8b ∷ [])
    ∷ ("ap;", 0x2a85 ∷ [])
    ∷ ("at;", 0x2aab ∷ [])
    ∷ ("cy;", 0x43b ∷ [])
    ∷ ("eg;", 0x22da ∷ [])
    ∷ ("eq;", 0x2264 ∷ [])
    ∷ ("es;", 0x2a7d ∷ [])
    ∷ ("fr;", 0x1d529 ∷ [])
    ∷ ("gE;", 0x2a91 ∷ [])
    ∷ ("nE;", 0x2268 ∷ [])
    ∷ ("ne;", 0x2a87 ∷ [])
    ∷ ("oz;", 0x25ca ∷ [])
    ∷ ("rm;", 0x200e ∷ [])
    ∷ ("sh;", 0x21b0 ∷ [])
    ∷ ("E;", 0x2266 ∷ [])
    ∷ ("e;", 0x2264 ∷ [])
    ∷ ("g;", 0x2276 ∷ [])
    ∷ ("l;", 0x226a ∷ [])
    ∷ ("t;", 0x3c ∷ [])
    ∷ ("t", 0x3c ∷ [])
    ∷ []
