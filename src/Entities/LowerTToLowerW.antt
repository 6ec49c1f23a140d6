-- ===== src/Entities/LowerTToLowerW.antt =====
-- src/entities.rs: the tables of `try_read_character_reference` for a first letter from 't' to 'w'.
-- An entry holds the rest of a name, and the code points that it stands for.
use html5gum.Base.{List, [], ◌∷◌}
use html5gum.Entities.Shape.{Entry}

abbrev pub branch_lower_t : List Entry
branch_lower_t =
    ("woheadrightarrow;", 0x21a0 ∷ [])
    ∷ ("woheadleftarrow;", 0x219e ∷ [])
    ∷ ("rianglerighteq;", 0x22b5 ∷ [])
    ∷ ("rianglelefteq;", 0x22b4 ∷ [])
    ∷ ("riangleright;", 0x25b9 ∷ [])
    ∷ ("riangledown;", 0x25bf ∷ [])
    ∷ ("riangleleft;", 0x25c3 ∷ [])
    ∷ ("hickapprox;", 0x2248 ∷ [])
    ∷ ("herefore;", 0x2234 ∷ [])
    ∷ ("riangleq;", 0x225c ∷ [])
    ∷ ("hetasym;", 0x3d1 ∷ [])
    ∷ ("hicksim;", 0x223c ∷ [])
    ∷ ("imesbar;", 0x2a31 ∷ [])
    ∷ ("riangle;", 0x25b5 ∷ [])
    ∷ ("riminus;", 0x2a3a ∷ [])
    ∷ ("rpezium;", 0x23e2 ∷ [])
    ∷ ("opfork;", 0x2ada ∷ [])
    ∷ ("riplus;", 0x2a39 ∷ [])
    ∷ ("ritime;", 0x2a3b ∷ [])
    ∷ ("arget;", 0x2316 ∷ [])
    ∷ ("caron;", 0x165 ∷ [])
    ∷ ("cedil;", 0x163 ∷ [])
    ∷ ("elrec;", 0x2315 ∷ [])
    ∷ ("here4;", 0x2234 ∷ [])
    ∷ ("hetav;", 0x3d1 ∷ [])
    ∷ ("hinsp;", 0x2009 ∷ [])
    ∷ ("hksim;", 0x223c ∷ [])
    ∷ ("imesb;", 0x22a0 ∷ [])
    ∷ ("imesd;", 0x2a30 ∷ [])
    ∷ ("opbot;", 0x2336 ∷ [])
    ∷ ("opcir;", 0x2af1 ∷ [])
    ∷ ("prime;", 0x2034 ∷ [])
    ∷ ("ridot;", 0x25ec ∷ [])
    ∷ ("strok;", 0x167 ∷ [])
    ∷ ("heta;", 0x3b8 ∷ [])
    ∷ ("hkap;", 0x2248 ∷ [])
    ∷ ("horn;", 0xfe ∷ [])
    ∷ ("ilde;", 0x2dc ∷ [])
    ∷ ("imes;", 0xd7 ∷ [])
    ∷ ("rade;", 0x2122 ∷ [])
    ∷ ("risb;", 0x29cd ∷ [])
    ∷ ("shcy;", 0x45b ∷ [])
    ∷ ("wixt;", 0x226c ∷ [])
    ∷ ("brk;", 0x23b4 ∷ [])
    ∷ ("dot;", 0x20db ∷ [])
    ∷ ("horn", 0xfe ∷ [])
    ∷ ("imes", 0xd7 ∷ [])
    ∷ ("int;", 0x222d ∷ [])
    ∷ ("oea;", 0x2928 ∷ [])
    ∷ ("opf;", 0x1d565 ∷ [])
    ∷ ("osa;", 0x2929 ∷ [])
    ∷ ("rie;", 0x225c ∷ [])
    ∷ ("scr;", 0x1d4c9 ∷ [])
    ∷ ("scy;", 0x446 ∷ [])
    ∷ ("au;", 0x3c4 ∷ [])
    ∷ ("cy;", 0x442 ∷ [])
    ∷ ("fr;", 0x1d531 ∷ [])
    ∷ ("op;", 0x22a4 ∷ [])
    ∷ []

abbrev pub branch_lower_u : List Entry
branch_lower_u =
    ("pharpoonright;", 0x21be ∷ [])
    ∷ ("pharpoonleft;", 0x21bf ∷ [])
    ∷ ("pdownarrow;", 0x2195 ∷ [])
    ∷ ("puparrows;", 0x21c8 ∷ [])
    ∷ ("lcorner;", 0x231c ∷ [])
    ∷ ("rcorner;", 0x231d ∷ [])
    ∷ ("parrow;", 0x2191 ∷ [])
    ∷ ("psilon;", 0x3c5 ∷ [])
    ∷ ("wangle;", 0x29a7 ∷ [])
    ∷ ("acute;", 0xfa ∷ [])
    ∷ ("breve;", 0x16d ∷ [])
    ∷ ("dblac;", 0x171 ∷ [])
    ∷ ("fisht;", 0x297e ∷ [])
    ∷ ("grave;", 0xf9 ∷ [])
    ∷ ("lcorn;", 0x231c ∷ [])
    ∷ ("lcrop;", 0x230f ∷ [])
    ∷ ("rcorn;", 0x231d ∷ [])
    ∷ ("rcrop;", 0x230e ∷ [])
    ∷ ("tilde;", 0x169 ∷ [])
    ∷ ("acute", 0xfa ∷ [])
    ∷ ("brcy;", 0x45e ∷ [])
    ∷ ("circ;", 0xfb ∷ [])
    ∷ ("darr;", 0x21c5 ∷ [])
    ∷ ("dhar;", 0x296e ∷ [])
    ∷ ("grave", 0xf9 ∷ [])
    ∷ ("harl;", 0x21bf ∷ [])
    ∷ ("harr;", 0x21be ∷ [])
    ∷ ("hblk;", 0x2580 ∷ [])
    ∷ ("ltri;", 0x25f8 ∷ [])
    ∷ ("macr;", 0x16b ∷ [])
    ∷ ("ogon;", 0x173 ∷ [])
    ∷ ("plus;", 0x228e ∷ [])
    ∷ ("psih;", 0x3d2 ∷ [])
    ∷ ("ring;", 0x16f ∷ [])
    ∷ ("rtri;", 0x25f9 ∷ [])
    ∷ ("tdot;", 0x22f0 ∷ [])
    ∷ ("trif;", 0x25b4 ∷ [])
    ∷ ("uarr;", 0x21c8 ∷ [])
    ∷ ("Arr;", 0x21d1 ∷ [])
    ∷ ("Har;", 0x2963 ∷ [])
    ∷ ("arr;", 0x2191 ∷ [])
    ∷ ("circ", 0xfb ∷ [])
    ∷ ("opf;", 0x1d566 ∷ [])
    ∷ ("psi;", 0x3c5 ∷ [])
    ∷ ("scr;", 0x1d4ca ∷ [])
    ∷ ("tri;", 0x25b5 ∷ [])
    ∷ ("uml;", 0xfc ∷ [])
    ∷ ("cy;", 0x443 ∷ [])
    ∷ ("fr;", 0x1d532 ∷ [])
    ∷ ("ml;", 0xa8 ∷ [])
    ∷ ("uml", 0xfc ∷ [])
    ∷ ("ml", 0xa8 ∷ [])
    ∷ []

abbrev pub branch_lower_v : List Entry
branch_lower_v =
    ("artriangleright;", 0x22b3 ∷ [])
    ∷ ("artriangleleft;", 0x22b2 ∷ [])
    ∷ ("arsubsetneqq;", 0x2acb ∷ 0xfe00 ∷ [])
    ∷ ("arsupsetneqq;", 0x2acc ∷ 0xfe00 ∷ [])
    ∷ ("arsubsetneq;", 0x228a ∷ 0xfe00 ∷ [])
    ∷ ("arsupsetneq;", 0x228b ∷ 0xfe00 ∷ [])
    ∷ ("arepsilon;", 0x3f5 ∷ [])
    ∷ ("arnothing;", 0x2205 ∷ [])
    ∷ ("arpropto;", 0x221d ∷ [])
    ∷ ("arkappa;", 0x3f0 ∷ [])
    ∷ ("arsigma;", 0x3c2 ∷ [])
    ∷ ("artheta;", 0x3d1 ∷ [])
    ∷ ("zigzag;", 0x299a ∷ [])
    ∷ ("angrt;", 0x299c ∷ [])
    ∷ ("arphi;", 0x3d5 ∷ [])
    ∷ ("arrho;", 0x3f1 ∷ [])
    ∷ ("eebar;", 0x22bb ∷ [])
    ∷ ("ellip;", 0x22ee ∷ [])
    ∷ ("erbar;", 0x7c ∷ [])
    ∷ ("subnE;", 0x2acb ∷ 0xfe00 ∷ [])
    ∷ ("subne;", 0x228a ∷ 0xfe00 ∷ [])
    ∷ ("supnE;", 0x2acc ∷ 0xfe00 ∷ [])
    ∷ ("supne;", 0x228b ∷ 0xfe00 ∷ [])
    ∷ ("Barv;", 0x2ae9 ∷ [])
    ∷ ("Dash;", 0x22a8 ∷ [])
    ∷ ("arpi;", 0x3d6 ∷ [])
    ∷ ("dash;", 0x22a2 ∷ [])
    ∷ ("eeeq;", 0x225a ∷ [])
    ∷ ("ltri;", 0x22b2 ∷ [])
    ∷ ("nsub;", 0x2282 ∷ 0x20d2 ∷ [])
    ∷ ("nsup;", 0x2283 ∷ 0x20d2 ∷ [])
    ∷ ("prop;", 0x221d ∷ [])
    ∷ ("rtri;", 0x22b3 ∷ [])
    ∷ ("Arr;", 0x21d5 ∷ [])
    ∷ ("Bar;", 0x2ae8 ∷ [])
    ∷ ("arr;", 0x2195 ∷ [])
    ∷ ("ert;", 0x7c ∷ [])
    ∷ ("opf;", 0x1d567 ∷ [])
    ∷ ("scr;", 0x1d4cb ∷ [])
    ∷ ("cy;", 0x432 ∷ [])
    ∷ ("ee;", 0x2228 ∷ [])
    ∷ ("fr;", 0x1d533 ∷ [])
    ∷ []

abbrev pub branch_lower_w : List Entry
branch_lower_w =
    ("edbar;", 0x2a5f ∷ [])
    ∷ ("edgeq;", 0x2259 ∷ [])
    ∷ ("eierp;", 0x2118 ∷ [])
    ∷ ("reath;", 0x2240 ∷ [])
    ∷ ("circ;", 0x175 ∷ [])
    ∷ ("edge;", 0x2227 ∷ [])
    ∷ ("opf;", 0x1d568 ∷ [])
    ∷ ("scr;", 0x1d4cc ∷ [])
    ∷ ("fr;", 0x1d534 ∷ [])
    ∷ ("p;", 0x2118 ∷ [])
    ∷ ("r;", 0x2240 ∷ [])
    ∷ []
