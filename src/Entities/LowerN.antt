-- ===== src/Entities/LowerN.antt =====
-- src/entities.rs: the tables of `try_read_character_reference` for a first letter from 'n' to 'n'.
-- An entry holds the rest of a name, and the code points that it stands for.
use html5gum.Base.{List, [], ◌∷◌}
use html5gum.Entities.Shape.{Entry}

abbrev pub branch_lower_n : List Entry
branch_lower_n =
    ("trianglerighteq;", 0x22ed ∷ [])
    ∷ ("Leftrightarrow;", 0x21ce ∷ [])
    ∷ ("leftrightarrow;", 0x21ae ∷ [])
    ∷ ("trianglelefteq;", 0x22ec ∷ [])
    ∷ ("shortparallel;", 0x2226 ∷ [])
    ∷ ("triangleright;", 0x22eb ∷ [])
    ∷ ("triangleleft;", 0x22ea ∷ [])
    ∷ ("Rightarrow;", 0x21cf ∷ [])
    ∷ ("rightarrow;", 0x219b ∷ [])
    ∷ ("Leftarrow;", 0x21cd ∷ [])
    ∷ ("leftarrow;", 0x219a ∷ [])
    ∷ ("subseteqq;", 0x2ac5 ∷ 0x338 ∷ [])
    ∷ ("supseteqq;", 0x2ac6 ∷ 0x338 ∷ [])
    ∷ ("geqslant;", 0x2a7e ∷ 0x338 ∷ [])
    ∷ ("leqslant;", 0x2a7d ∷ 0x338 ∷ [])
    ∷ ("parallel;", 0x2226 ∷ [])
    ∷ ("shortmid;", 0x2224 ∷ [])
    ∷ ("subseteq;", 0x2288 ∷ [])
    ∷ ("supseteq;", 0x2289 ∷ [])
    ∷ ("aturals;", 0x2115 ∷ [])
    ∷ ("congdot;", 0x2a6d ∷ 0x338 ∷ [])
    ∷ ("otindot;", 0x22f5 ∷ 0x338 ∷ [])
    ∷ ("approx;", 0x2249 ∷ [])
    ∷ ("atural;", 0x266e ∷ [])
    ∷ ("earrow;", 0x2197 ∷ [])
    ∷ ("exists;", 0x2204 ∷ [])
    ∷ ("otinva;", 0x2209 ∷ [])
    ∷ ("otinvb;", 0x22f7 ∷ [])
    ∷ ("otinvc;", 0x22f6 ∷ [])
    ∷ ("otniva;", 0x220c ∷ [])
    ∷ ("otnivb;", 0x22fe ∷ [])
    ∷ ("otnivc;", 0x22fd ∷ [])
    ∷ ("polint;", 0x2a14 ∷ [])
    ∷ ("preceq;", 0x2aaf ∷ 0x338 ∷ [])
    ∷ ("sqsube;", 0x22e2 ∷ [])
    ∷ ("sqsupe;", 0x22e3 ∷ [])
    ∷ ("subset;", 0x2282 ∷ 0x20d2 ∷ [])
    ∷ ("succeq;", 0x2ab0 ∷ 0x338 ∷ [])
    ∷ ("supset;", 0x2283 ∷ 0x20d2 ∷ [])
    ∷ ("vinfin;", 0x29de ∷ [])
    ∷ ("vltrie;", 0x22b4 ∷ 0x20d2 ∷ [])
    ∷ ("vrtrie;", 0x22b5 ∷ 0x20d2 ∷ [])
    ∷ ("warrow;", 0x2196 ∷ [])
    ∷ ("VDash;", 0x22af ∷ [])
    ∷ ("Vdash;", 0x22ae ∷ [])
    ∷ ("acute;", 0x144 ∷ [])
    ∷ ("bumpe;", 0x224f ∷ 0x338 ∷ [])
    ∷ ("caron;", 0x148 ∷ [])
    ∷ ("cedil;", 0x146 ∷ [])
    ∷ ("earhk;", 0x2924 ∷ [])
    ∷ ("equiv;", 0x2262 ∷ [])
    ∷ ("esear;", 0x2928 ∷ [])
    ∷ ("exist;", 0x2204 ∷ [])
    ∷ ("ltrie;", 0x22ec ∷ [])
    ∷ ("otinE;", 0x22f9 ∷ 0x338 ∷ [])
    ∷ ("parsl;", 0x2afd ∷ 0x20e5 ∷ [])
    ∷ ("prcue;", 0x22e0 ∷ [])
    ∷ ("rarrc;", 0x2933 ∷ 0x338 ∷ [])
    ∷ ("rarrw;", 0x219d ∷ 0x338 ∷ [])
    ∷ ("rtrie;", 0x22ed ∷ [])
    ∷ ("sccue;", 0x22e1 ∷ [])
    ∷ ("simeq;", 0x2244 ∷ [])
    ∷ ("tilde;", 0xf1 ∷ [])
    ∷ ("umero;", 0x2116 ∷ [])
    ∷ ("vDash;", 0x22ad ∷ [])
    ∷ ("vHarr;", 0x2904 ∷ [])
    ∷ ("vdash;", 0x22ac ∷ [])
    ∷ ("vlArr;", 0x2902 ∷ [])
    ∷ ("vrArr;", 0x2903 ∷ [])
    ∷ ("warhk;", 0x2923 ∷ [])
    ∷ ("wnear;", 0x2927 ∷ [])
    ∷ ("abla;", 0x2207 ∷ [])
    ∷ ("apid;", 0x224b ∷ 0x338 ∷ [])
    ∷ ("apos;", 0x149 ∷ [])
    ∷ ("atur;", 0x266e ∷ [])
    ∷ ("bump;", 0x224e ∷ 0x338 ∷ [])
    ∷ ("cong;", 0x2247 ∷ [])
    ∷ ("dash;", 0x2013 ∷ [])
    ∷ ("eArr;", 0x21d7 ∷ [])
    ∷ ("earr;", 0x2197 ∷ [])
    ∷ ("edot;", 0x2250 ∷ 0x338 ∷ [])
    ∷ ("esim;", 0x2242 ∷ 0x338 ∷ [])
    ∷ ("geqq;", 0x2267 ∷ 0x338 ∷ [])
    ∷ ("gsim;", 0x2275 ∷ [])
    ∷ ("hArr;", 0x21ce ∷ [])
    ∷ ("harr;", 0x21ae ∷ [])
    ∷ ("hpar;", 0x2af2 ∷ [])
    ∷ ("lArr;", 0x21cd ∷ [])
    ∷ ("larr;", 0x219a ∷ [])
    ∷ ("leqq;", 0x2266 ∷ 0x338 ∷ [])
    ∷ ("less;", 0x226e ∷ [])
    ∷ ("lsim;", 0x2274 ∷ [])
    ∷ ("ltri;", 0x22ea ∷ [])
    ∷ ("otin;", 0x2209 ∷ [])
    ∷ ("otni;", 0x220c ∷ [])
    ∷ ("part;", 0x2202 ∷ 0x338 ∷ [])
    ∷ ("prec;", 0x2280 ∷ [])
    ∷ ("rArr;", 0x21cf ∷ [])
    ∷ ("rarr;", 0x219b ∷ [])
    ∷ ("rtri;", 0x22eb ∷ [])
    ∷ ("sime;", 0x2244 ∷ [])
    ∷ ("smid;", 0x2224 ∷ [])
    ∷ ("spar;", 0x2226 ∷ [])
    ∷ ("subE;", 0x2ac5 ∷ 0x338 ∷ [])
    ∷ ("sube;", 0x2288 ∷ [])
    ∷ ("succ;", 0x2281 ∷ [])
    ∷ ("supE;", 0x2ac6 ∷ 0x338 ∷ [])
    ∷ ("supe;", 0x2289 ∷ [])
    ∷ ("tilde", 0xf1 ∷ [])
    ∷ ("umsp;", 0x2007 ∷ [])
    ∷ ("vsim;", 0x223c ∷ 0x20d2 ∷ [])
    ∷ ("wArr;", 0x21d6 ∷ [])
    ∷ ("warr;", 0x2196 ∷ [])
    ∷ ("Gtv;", 0x226b ∷ 0x338 ∷ [])
    ∷ ("Ltv;", 0x226a ∷ 0x338 ∷ [])
    ∷ ("ang;", 0x2220 ∷ 0x20d2 ∷ [])
    ∷ ("apE;", 0x2a70 ∷ 0x338 ∷ [])
    ∷ ("bsp;", 0xa0 ∷ [])
    ∷ ("cap;", 0x2a43 ∷ [])
    ∷ ("cup;", 0x2a42 ∷ [])
    ∷ ("geq;", 0x2271 ∷ [])
    ∷ ("ges;", 0x2a7e ∷ 0x338 ∷ [])
    ∷ ("gtr;", 0x226f ∷ [])
    ∷ ("isd;", 0x22fa ∷ [])
    ∷ ("jcy;", 0x45a ∷ [])
    ∷ ("ldr;", 0x2025 ∷ [])
    ∷ ("leq;", 0x2270 ∷ [])
    ∷ ("les;", 0x2a7d ∷ 0x338 ∷ [])
    ∷ ("mid;", 0x2224 ∷ [])
    ∷ ("opf;", 0x1d55f ∷ [])
    ∷ ("par;", 0x2226 ∷ [])
    ∷ ("pre;", 0x2aaf ∷ 0x338 ∷ [])
    ∷ ("sce;", 0x2ab0 ∷ 0x338 ∷ [])
    ∷ ("scr;", 0x1d4c3 ∷ [])
    ∷ ("sim;", 0x2241 ∷ [])
    ∷ ("sub;", 0x2284 ∷ [])
    ∷ ("sup;", 0x2285 ∷ [])
    ∷ ("tgl;", 0x2279 ∷ [])
    ∷ ("tlg;", 0x2278 ∷ [])
    ∷ ("vap;", 0x224d ∷ 0x20d2 ∷ [])
    ∷ ("vge;", 0x2265 ∷ 0x20d2 ∷ [])
    ∷ ("vgt;", 0x3e ∷ 0x20d2 ∷ [])
    ∷ ("vle;", 0x2264 ∷ 0x20d2 ∷ [])
    ∷ ("vlt;", 0x3c ∷ 0x20d2 ∷ [])
    ∷ ("Gg;", 0x22d9 ∷ 0x338 ∷ [])
    ∷ ("Gt;", 0x226b ∷ 0x20d2 ∷ [])
    ∷ ("Ll;", 0x22d8 ∷ 0x338 ∷ [])
    ∷ ("Lt;", 0x226a ∷ 0x20d2 ∷ [])
    ∷ ("ap;", 0x2249 ∷ [])
    ∷ ("bsp", 0xa0 ∷ [])
    ∷ ("cy;", 0x43d ∷ [])
    ∷ ("fr;", 0x1d52b ∷ [])
    ∷ ("gE;", 0x2267 ∷ 0x338 ∷ [])
    ∷ ("ge;", 0x2271 ∷ [])
    ∷ ("gt;", 0x226f ∷ [])
    ∷ ("is;", 0x22fc ∷ [])
    ∷ ("iv;", 0x220b ∷ [])
    ∷ ("lE;", 0x2266 ∷ 0x338 ∷ [])
    ∷ ("le;", 0x2270 ∷ [])
    ∷ ("lt;", 0x226e ∷ [])
    ∷ ("ot;", 0xac ∷ [])
    ∷ ("pr;", 0x2280 ∷ [])
    ∷ ("sc;", 0x2281 ∷ [])
    ∷ ("um;", 0x23 ∷ [])
    ∷ ("e;", 0x2260 ∷ [])
    ∷ ("i;", 0x220b ∷ [])
    ∷ ("ot", 0xac ∷ [])
    ∷ ("u;", 0x3bd ∷ [])
    ∷ []
