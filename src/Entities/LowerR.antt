-- ===== src/Entities/LowerR.antt =====
-- src/entities.rs: the tables of `try_read_character_reference` for a first letter from 'r' to 'r'.
-- An entry holds the rest of a name, and the code points that it stands for.
use html5gum.Base.{List, [], ◌∷◌}
use html5gum.Entities.Shape.{Entry}

abbrev pub branch_lower_r : List Entry
branch_lower_r =
    ("ightleftharpoons;", 0x21cc ∷ [])
    ∷ ("ightharpoondown;", 0x21c1 ∷ [])
    ∷ ("ightrightarrows;", 0x21c9 ∷ [])
    ∷ ("ightleftarrows;", 0x21c4 ∷ [])
    ∷ ("ightsquigarrow;", 0x219d ∷ [])
    ∷ ("ightthreetimes;", 0x22cc ∷ [])
    ∷ ("ightarrowtail;", 0x21a3 ∷ [])
    ∷ ("ightharpoonup;", 0x21c0 ∷ [])
    ∷ ("isingdotseq;", 0x2253 ∷ [])
    ∷ ("ightarrow;", 0x2192 ∷ [])
    ∷ ("moustache;", 0x23b1 ∷ [])
    ∷ ("ationals;", 0x211a ∷ [])
    ∷ ("aemptyv;", 0x29b3 ∷ [])
    ∷ ("ealpart;", 0x211c ∷ [])
    ∷ ("ppolint;", 0x2a12 ∷ [])
    ∷ ("triltri;", 0x29ce ∷ [])
    ∷ ("arrbfs;", 0x2920 ∷ [])
    ∷ ("arrsim;", 0x2974 ∷ [])
    ∷ ("brksld;", 0x298e ∷ [])
    ∷ ("brkslu;", 0x2990 ∷ [])
    ∷ ("dldhar;", 0x2969 ∷ [])
    ∷ ("ealine;", 0x211b ∷ [])
    ∷ ("otimes;", 0x2a35 ∷ [])
    ∷ ("uluhar;", 0x2968 ∷ [])
    ∷ ("Atail;", 0x291c ∷ [])
    ∷ ("acute;", 0x155 ∷ [])
    ∷ ("angle;", 0x27e9 ∷ [])
    ∷ ("arrap;", 0x2975 ∷ [])
    ∷ ("arrfs;", 0x291e ∷ [])
    ∷ ("arrhk;", 0x21aa ∷ [])
    ∷ ("arrlp;", 0x21ac ∷ [])
    ∷ ("arrpl;", 0x2945 ∷ [])
    ∷ ("arrtl;", 0x21a3 ∷ [])
    ∷ ("atail;", 0x291a ∷ [])
    ∷ ("brace;", 0x7d ∷ [])
    ∷ ("brack;", 0x5d ∷ [])
    ∷ ("caron;", 0x159 ∷ [])
    ∷ ("cedil;", 0x157 ∷ [])
    ∷ ("dquor;", 0x201d ∷ [])
    ∷ ("fisht;", 0x297d ∷ [])
    ∷ ("floor;", 0x230b ∷ [])
    ∷ ("harul;", 0x296c ∷ [])
    ∷ ("moust;", 0x23b1 ∷ [])
    ∷ ("oplus;", 0x2a2e ∷ [])
    ∷ ("pargt;", 0x2994 ∷ [])
    ∷ ("saquo;", 0x203a ∷ [])
    ∷ ("squor;", 0x2019 ∷ [])
    ∷ ("three;", 0x22cc ∷ [])
    ∷ ("times;", 0x22ca ∷ [])
    ∷ ("Aarr;", 0x21db ∷ [])
    ∷ ("Barr;", 0x290f ∷ [])
    ∷ ("adic;", 0x221a ∷ [])
    ∷ ("angd;", 0x2992 ∷ [])
    ∷ ("ange;", 0x29a5 ∷ [])
    ∷ ("aquo;", 0xbb ∷ [])
    ∷ ("arrb;", 0x21e5 ∷ [])
    ∷ ("arrc;", 0x2933 ∷ [])
    ∷ ("arrw;", 0x219d ∷ [])
    ∷ ("atio;", 0x2236 ∷ [])
    ∷ ("barr;", 0x290d ∷ [])
    ∷ ("bbrk;", 0x2773 ∷ [])
    ∷ ("brke;", 0x298c ∷ [])
    ∷ ("ceil;", 0x2309 ∷ [])
    ∷ ("dquo;", 0x201d ∷ [])
    ∷ ("eals;", 0x211d ∷ [])
    ∷ ("hard;", 0x21c1 ∷ [])
    ∷ ("haru;", 0x21c0 ∷ [])
    ∷ ("larr;", 0x21c4 ∷ [])
    ∷ ("lhar;", 0x21cc ∷ [])
    ∷ ("nmid;", 0x2aee ∷ [])
    ∷ ("oang;", 0x27ed ∷ [])
    ∷ ("oarr;", 0x21fe ∷ [])
    ∷ ("obrk;", 0x27e7 ∷ [])
    ∷ ("opar;", 0x2986 ∷ [])
    ∷ ("rarr;", 0x21c9 ∷ [])
    ∷ ("squo;", 0x2019 ∷ [])
    ∷ ("trie;", 0x22b5 ∷ [])
    ∷ ("trif;", 0x25b8 ∷ [])
    ∷ ("Arr;", 0x21d2 ∷ [])
    ∷ ("Har;", 0x2964 ∷ [])
    ∷ ("ace;", 0x223d ∷ 0x331 ∷ [])
    ∷ ("ang;", 0x27e9 ∷ [])
    ∷ ("aquo", 0xbb ∷ [])
    ∷ ("arr;", 0x2192 ∷ [])
    ∷ ("cub;", 0x7d ∷ [])
    ∷ ("dca;", 0x2937 ∷ [])
    ∷ ("dsh;", 0x21b3 ∷ [])
    ∷ ("eal;", 0x211c ∷ [])
    ∷ ("ect;", 0x25ad ∷ [])
    ∷ ("hov;", 0x3f1 ∷ [])
    ∷ ("ing;", 0x2da ∷ [])
    ∷ ("opf;", 0x1d563 ∷ [])
    ∷ ("par;", 0x29 ∷ [])
    ∷ ("scr;", 0x1d4c7 ∷ [])
    ∷ ("sqb;", 0x5d ∷ [])
    ∷ ("tri;", 0x25b9 ∷ [])
    ∷ ("cy;", 0x440 ∷ [])
    ∷ ("eg;", 0xae ∷ [])
    ∷ ("fr;", 0x1d52f ∷ [])
    ∷ ("ho;", 0x3c1 ∷ [])
    ∷ ("lm;", 0x200f ∷ [])
    ∷ ("sh;", 0x21b1 ∷ [])
    ∷ ("eg", 0xae ∷ [])
    ∷ ("x;", 0x211e ∷ [])
    ∷ []
