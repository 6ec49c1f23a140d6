-- ===== src/Entities/LowerEToLowerG.antt =====
-- src/entities.rs: the tables of `try_read_character_reference` for a first letter from 'e' to 'g'.
-- An entry holds the rest of a name, and the code points that it stands for.
use html5gum.Base.{List, [], ◌∷◌}
use html5gum.Entities.Shape.{Entry}

abbrev pub branch_lower_e : List Entry
branch_lower_e =
    ("xponentiale;", 0x2147 ∷ [])
    ∷ ("qslantless;", 0x2a95 ∷ [])
    ∷ ("xpectation;", 0x2130 ∷ [])
    ∷ ("qslantgtr;", 0x2a96 ∷ [])
    ∷ ("linters;", 0x23e7 ∷ [])
    ∷ ("mptyset;", 0x2205 ∷ [])
    ∷ ("qvparsl;", 0x29e5 ∷ [])
    ∷ ("psilon;", 0x3b5 ∷ [])
    ∷ ("qcolon;", 0x2255 ∷ [])
    ∷ ("quivDD;", 0x2a78 ∷ [])
    ∷ ("acute;", 0xe9 ∷ [])
    ∷ ("aster;", 0x2a6e ∷ [])
    ∷ ("caron;", 0x11b ∷ [])
    ∷ ("colon;", 0x2255 ∷ [])
    ∷ ("grave;", 0xe8 ∷ [])
    ∷ ("gsdot;", 0x2a98 ∷ [])
    ∷ ("lsdot;", 0x2a97 ∷ [])
    ∷ ("mptyv;", 0x2205 ∷ [])
    ∷ ("msp13;", 0x2004 ∷ [])
    ∷ ("msp14;", 0x2005 ∷ [])
    ∷ ("parsl;", 0x29e3 ∷ [])
    ∷ ("qcirc;", 0x2256 ∷ [])
    ∷ ("quals;", 0x3d ∷ [])
    ∷ ("quest;", 0x225f ∷ [])
    ∷ ("DDot;", 0x2a77 ∷ [])
    ∷ ("acute", 0xe9 ∷ [])
    ∷ ("circ;", 0xea ∷ [])
    ∷ ("fDot;", 0x2252 ∷ [])
    ∷ ("grave", 0xe8 ∷ [])
    ∷ ("macr;", 0x113 ∷ [])
    ∷ ("mpty;", 0x2205 ∷ [])
    ∷ ("ogon;", 0x119 ∷ [])
    ∷ ("plus;", 0x2a71 ∷ [])
    ∷ ("psiv;", 0x3f5 ∷ [])
    ∷ ("qsim;", 0x2242 ∷ [])
    ∷ ("quiv;", 0x2261 ∷ [])
    ∷ ("rDot;", 0x2253 ∷ [])
    ∷ ("rarr;", 0x2971 ∷ [])
    ∷ ("sdot;", 0x2250 ∷ [])
    ∷ ("xist;", 0x2203 ∷ [])
    ∷ ("Dot;", 0x2251 ∷ [])
    ∷ ("cir;", 0x2256 ∷ [])
    ∷ ("circ", 0xea ∷ [])
    ∷ ("dot;", 0x117 ∷ [])
    ∷ ("msp;", 0x2003 ∷ [])
    ∷ ("nsp;", 0x2002 ∷ [])
    ∷ ("opf;", 0x1d556 ∷ [])
    ∷ ("par;", 0x22d5 ∷ [])
    ∷ ("psi;", 0x3b5 ∷ [])
    ∷ ("scr;", 0x212f ∷ [])
    ∷ ("sim;", 0x2242 ∷ [])
    ∷ ("uml;", 0xeb ∷ [])
    ∷ ("uro;", 0x20ac ∷ [])
    ∷ ("xcl;", 0x21 ∷ [])
    ∷ ("cy;", 0x44d ∷ [])
    ∷ ("fr;", 0x1d522 ∷ [])
    ∷ ("gs;", 0x2a96 ∷ [])
    ∷ ("ll;", 0x2113 ∷ [])
    ∷ ("ls;", 0x2a95 ∷ [])
    ∷ ("ng;", 0x14b ∷ [])
    ∷ ("ta;", 0x3b7 ∷ [])
    ∷ ("th;", 0xf0 ∷ [])
    ∷ ("uml", 0xeb ∷ [])
    ∷ ("e;", 0x2147 ∷ [])
    ∷ ("g;", 0x2a9a ∷ [])
    ∷ ("l;", 0x2a99 ∷ [])
    ∷ ("th", 0xf0 ∷ [])
    ∷ []

abbrev pub branch_lower_f : List Entry
branch_lower_f =
    ("allingdotseq;", 0x2252 ∷ [])
    ∷ ("partint;", 0x2a0d ∷ [])
    ∷ ("emale;", 0x2640 ∷ [])
    ∷ ("filig;", 0xfb03 ∷ [])
    ∷ ("fllig;", 0xfb04 ∷ [])
    ∷ ("orall;", 0x2200 ∷ [])
    ∷ ("rac12;", 0xbd ∷ [])
    ∷ ("rac13;", 0x2153 ∷ [])
    ∷ ("rac14;", 0xbc ∷ [])
    ∷ ("rac15;", 0x2155 ∷ [])
    ∷ ("rac16;", 0x2159 ∷ [])
    ∷ ("rac18;", 0x215b ∷ [])
    ∷ ("rac23;", 0x2154 ∷ [])
    ∷ ("rac25;", 0x2156 ∷ [])
    ∷ ("rac34;", 0xbe ∷ [])
    ∷ ("rac35;", 0x2157 ∷ [])
    ∷ ("rac38;", 0x215c ∷ [])
    ∷ ("rac45;", 0x2158 ∷ [])
    ∷ ("rac56;", 0x215a ∷ [])
    ∷ ("rac58;", 0x215d ∷ [])
    ∷ ("rac78;", 0x215e ∷ [])
    ∷ ("flig;", 0xfb00 ∷ [])
    ∷ ("ilig;", 0xfb01 ∷ [])
    ∷ ("jlig;", 0x66 ∷ 0x6a ∷ [])
    ∷ ("llig;", 0xfb02 ∷ [])
    ∷ ("ltns;", 0x25b1 ∷ [])
    ∷ ("orkv;", 0x2ad9 ∷ [])
    ∷ ("rac12", 0xbd ∷ [])
    ∷ ("rac14", 0xbc ∷ [])
    ∷ ("rac34", 0xbe ∷ [])
    ∷ ("rasl;", 0x2044 ∷ [])
    ∷ ("rown;", 0x2322 ∷ [])
    ∷ ("lat;", 0x266d ∷ [])
    ∷ ("nof;", 0x192 ∷ [])
    ∷ ("opf;", 0x1d557 ∷ [])
    ∷ ("ork;", 0x22d4 ∷ [])
    ∷ ("scr;", 0x1d4bb ∷ [])
    ∷ ("cy;", 0x444 ∷ [])
    ∷ ("fr;", 0x1d523 ∷ [])
    ∷ []

abbrev pub branch_lower_g : List Entry
branch_lower_g =
    ("treqqless;", 0x2a8c ∷ [])
    ∷ ("trapprox;", 0x2a86 ∷ [])
    ∷ ("treqless;", 0x22db ∷ [])
    ∷ ("vertneqq;", 0x2269 ∷ 0xfe00 ∷ [])
    ∷ ("eqslant;", 0x2a7e ∷ [])
    ∷ ("esdotol;", 0x2a84 ∷ [])
    ∷ ("napprox;", 0x2a8a ∷ [])
    ∷ ("esdoto;", 0x2a82 ∷ [])
    ∷ ("tquest;", 0x2a7c ∷ [])
    ∷ ("trless;", 0x2277 ∷ [])
    ∷ ("acute;", 0x1f5 ∷ [])
    ∷ ("ammad;", 0x3dd ∷ [])
    ∷ ("breve;", 0x11f ∷ [])
    ∷ ("esdot;", 0x2a80 ∷ [])
    ∷ ("esles;", 0x2a94 ∷ [])
    ∷ ("tlPar;", 0x2995 ∷ [])
    ∷ ("trarr;", 0x2978 ∷ [])
    ∷ ("trdot;", 0x22d7 ∷ [])
    ∷ ("trsim;", 0x2273 ∷ [])
    ∷ ("amma;", 0x3b3 ∷ [])
    ∷ ("circ;", 0x11d ∷ [])
    ∷ ("escc;", 0x2aa9 ∷ [])
    ∷ ("imel;", 0x2137 ∷ [])
    ∷ ("neqq;", 0x2269 ∷ [])
    ∷ ("nsim;", 0x22e7 ∷ [])
    ∷ ("rave;", 0x60 ∷ [])
    ∷ ("sime;", 0x2a8e ∷ [])
    ∷ ("siml;", 0x2a90 ∷ [])
    ∷ ("tcir;", 0x2a7a ∷ [])
    ∷ ("tdot;", 0x22d7 ∷ [])
    ∷ ("dot;", 0x121 ∷ [])
    ∷ ("eqq;", 0x2267 ∷ [])
    ∷ ("esl;", 0x22db ∷ 0xfe00 ∷ [])
    ∷ ("jcy;", 0x453 ∷ [])
    ∷ ("nap;", 0x2a8a ∷ [])
    ∷ ("neq;", 0x2a88 ∷ [])
    ∷ ("opf;", 0x1d558 ∷ [])
    ∷ ("scr;", 0x210a ∷ [])
    ∷ ("sim;", 0x2273 ∷ [])
    ∷ ("tcc;", 0x2aa7 ∷ [])
    ∷ ("vnE;", 0x2269 ∷ 0xfe00 ∷ [])
    ∷ ("El;", 0x2a8c ∷ [])
    ∷ ("ap;", 0x2a86 ∷ [])
    ∷ ("cy;", 0x433 ∷ [])
    ∷ ("el;", 0x22db ∷ [])
    ∷ ("eq;", 0x2265 ∷ [])
    ∷ ("es;", 0x2a7e ∷ [])
    ∷ ("fr;", 0x1d524 ∷ [])
    ∷ ("gg;", 0x22d9 ∷ [])
    ∷ ("lE;", 0x2a92 ∷ [])
    ∷ ("la;", 0x2aa5 ∷ [])
    ∷ ("lj;", 0x2aa4 ∷ [])
    ∷ ("nE;", 0x2269 ∷ [])
    ∷ ("ne;", 0x2a88 ∷ [])
    ∷ ("E;", 0x2267 ∷ [])
    ∷ ("e;", 0x2265 ∷ [])
    ∷ ("g;", 0x226b ∷ [])
    ∷ ("l;", 0x2277 ∷ [])
    ∷ ("t;", 0x3e ∷ [])
    ∷ ("t", 0x3e ∷ [])
    ∷ []
