-- ===== src/Entities/LowerOToLowerQ.antt =====
-- src/entities.rs: the tables of `try_read_character_reference` for a first letter from 'o' to 'q'.
-- An entry holds the rest of a name, and the code points that it stands for.
use html5gum.Base.{List, [], ◌∷◌}
use html5gum.Entities.Shape.{Entry}

abbrev pub branch_lower_o : List Entry
branch_lower_o =
    ("timesas;", 0x2a36 ∷ [])
    ∷ ("lcross;", 0x29bb ∷ [])
    ∷ ("micron;", 0x3bf ∷ [])
    ∷ ("rderof;", 0x2134 ∷ [])
    ∷ ("rslope;", 0x2a57 ∷ [])
    ∷ ("acute;", 0xf3 ∷ [])
    ∷ ("dblac;", 0x151 ∷ [])
    ∷ ("dsold;", 0x29bc ∷ [])
    ∷ ("grave;", 0xf2 ∷ [])
    ∷ ("minus;", 0x2296 ∷ [])
    ∷ ("rigof;", 0x22b6 ∷ [])
    ∷ ("slash;", 0xf8 ∷ [])
    ∷ ("tilde;", 0xf5 ∷ [])
    ∷ ("times;", 0x2297 ∷ [])
    ∷ ("acute", 0xf3 ∷ [])
    ∷ ("circ;", 0xf4 ∷ [])
    ∷ ("dash;", 0x229d ∷ [])
    ∷ ("elig;", 0x153 ∷ [])
    ∷ ("fcir;", 0x29bf ∷ [])
    ∷ ("grave", 0xf2 ∷ [])
    ∷ ("hbar;", 0x29b5 ∷ [])
    ∷ ("larr;", 0x21ba ∷ [])
    ∷ ("lcir;", 0x29be ∷ [])
    ∷ ("line;", 0x203e ∷ [])
    ∷ ("macr;", 0x14d ∷ [])
    ∷ ("mega;", 0x3c9 ∷ [])
    ∷ ("perp;", 0x29b9 ∷ [])
    ∷ ("plus;", 0x2295 ∷ [])
    ∷ ("rarr;", 0x21bb ∷ [])
    ∷ ("rder;", 0x2134 ∷ [])
    ∷ ("slash", 0xf8 ∷ [])
    ∷ ("tilde", 0xf5 ∷ [])
    ∷ ("vbar;", 0x233d ∷ [])
    ∷ ("ast;", 0x229b ∷ [])
    ∷ ("cir;", 0x229a ∷ [])
    ∷ ("circ", 0xf4 ∷ [])
    ∷ ("div;", 0x2a38 ∷ [])
    ∷ ("dot;", 0x2299 ∷ [])
    ∷ ("gon;", 0x2db ∷ [])
    ∷ ("int;", 0x222e ∷ [])
    ∷ ("mid;", 0x29b6 ∷ [])
    ∷ ("opf;", 0x1d560 ∷ [])
    ∷ ("par;", 0x29b7 ∷ [])
    ∷ ("rdf;", 0xaa ∷ [])
    ∷ ("rdm;", 0xba ∷ [])
    ∷ ("ror;", 0x2a56 ∷ [])
    ∷ ("scr;", 0x2134 ∷ [])
    ∷ ("sol;", 0x2298 ∷ [])
    ∷ ("uml;", 0xf6 ∷ [])
    ∷ ("cy;", 0x43e ∷ [])
    ∷ ("fr;", 0x1d52c ∷ [])
    ∷ ("gt;", 0x29c1 ∷ [])
    ∷ ("hm;", 0x3a9 ∷ [])
    ∷ ("lt;", 0x29c0 ∷ [])
    ∷ ("rd;", 0x2a5d ∷ [])
    ∷ ("rdf", 0xaa ∷ [])
    ∷ ("rdm", 0xba ∷ [])
    ∷ ("rv;", 0x2a5b ∷ [])
    ∷ ("uml", 0xf6 ∷ [])
    ∷ ("S;", 0x24c8 ∷ [])
    ∷ ("r;", 0x2228 ∷ [])
    ∷ []

abbrev pub branch_lower_p : List Entry
branch_lower_p =
    ("reccurlyeq;", 0x227c ∷ [])
    ∷ ("recnapprox;", 0x2ab9 ∷ [])
    ∷ ("recapprox;", 0x2ab7 ∷ [])
    ∷ ("itchfork;", 0x22d4 ∷ [])
    ∷ ("arallel;", 0x2225 ∷ [])
    ∷ ("lusacir;", 0x2a23 ∷ [])
    ∷ ("ointint;", 0x2a15 ∷ [])
    ∷ ("recneqq;", 0x2ab5 ∷ [])
    ∷ ("recnsim;", 0x22e8 ∷ [])
    ∷ ("rofalar;", 0x232e ∷ [])
    ∷ ("rofline;", 0x2312 ∷ [])
    ∷ ("rofsurf;", 0x2313 ∷ [])
    ∷ ("ertenk;", 0x2031 ∷ [])
    ∷ ("lanckh;", 0x210e ∷ [])
    ∷ ("luscir;", 0x2a22 ∷ [])
    ∷ ("lussim;", 0x2a26 ∷ [])
    ∷ ("lustwo;", 0x2a27 ∷ [])
    ∷ ("recsim;", 0x227e ∷ [])
    ∷ ("arsim;", 0x2af3 ∷ [])
    ∷ ("ercnt;", 0x25 ∷ [])
    ∷ ("eriod;", 0x2e ∷ [])
    ∷ ("ermil;", 0x2030 ∷ [])
    ∷ ("hmmat;", 0x2133 ∷ [])
    ∷ ("lanck;", 0x210f ∷ [])
    ∷ ("lankv;", 0x210f ∷ [])
    ∷ ("lusdo;", 0x2214 ∷ [])
    ∷ ("lusdu;", 0x2a25 ∷ [])
    ∷ ("lusmn;", 0xb1 ∷ [])
    ∷ ("receq;", 0x2aaf ∷ [])
    ∷ ("rimes;", 0x2119 ∷ [])
    ∷ ("rnsim;", 0x22e8 ∷ [])
    ∷ ("ropto;", 0x221d ∷ [])
    ∷ ("rurel;", 0x22b0 ∷ [])
    ∷ ("uncsp;", 0x2008 ∷ [])
    ∷ ("arsl;", 0x2afd ∷ [])
    ∷ ("hone;", 0x260e ∷ [])
    ∷ ("lusb;", 0x229e ∷ [])
    ∷ ("luse;", 0x2a72 ∷ [])
    ∷ ("lusmn", 0xb1 ∷ [])
    ∷ ("ound;", 0xa3 ∷ [])
    ∷ ("rcue;", 0x227c ∷ [])
    ∷ ("rime;", 0x2032 ∷ [])
    ∷ ("rnap;", 0x2ab9 ∷ [])
    ∷ ("rsim;", 0x227e ∷ [])
    ∷ ("ara;", 0xb6 ∷ [])
    ∷ ("art;", 0x2202 ∷ [])
    ∷ ("erp;", 0x22a5 ∷ [])
    ∷ ("hiv;", 0x3d5 ∷ [])
    ∷ ("lus;", 0x2b ∷ [])
    ∷ ("opf;", 0x1d561 ∷ [])
    ∷ ("ound", 0xa3 ∷ [])
    ∷ ("rap;", 0x2ab7 ∷ [])
    ∷ ("rec;", 0x227a ∷ [])
    ∷ ("rnE;", 0x2ab5 ∷ [])
    ∷ ("rod;", 0x220f ∷ [])
    ∷ ("rop;", 0x221d ∷ [])
    ∷ ("scr;", 0x1d4c5 ∷ [])
    ∷ ("ar;", 0x2225 ∷ [])
    ∷ ("ara", 0xb6 ∷ [])
    ∷ ("cy;", 0x43f ∷ [])
    ∷ ("fr;", 0x1d52d ∷ [])
    ∷ ("hi;", 0x3c6 ∷ [])
    ∷ ("iv;", 0x3d6 ∷ [])
    ∷ ("rE;", 0x2ab3 ∷ [])
    ∷ ("re;", 0x2aaf ∷ [])
    ∷ ("si;", 0x3c8 ∷ [])
    ∷ ("i;", 0x3c0 ∷ [])
    ∷ ("m;", 0xb1 ∷ [])
    ∷ ("r;", 0x227a ∷ [])
    ∷ []

abbrev pub branch_lower_q : List Entry
branch_lower_q =
    ("uaternions;", 0x210d ∷ [])
    ∷ ("uatint;", 0x2a16 ∷ [])
    ∷ ("uesteq;", 0x225f ∷ [])
    ∷ ("prime;", 0x2057 ∷ [])
    ∷ ("uest;", 0x3f ∷ [])
    ∷ ("int;", 0x2a0c ∷ [])
    ∷ ("opf;", 0x1d562 ∷ [])
    ∷ ("scr;", 0x1d4c6 ∷ [])
    ∷ ("uot;", 0x22 ∷ [])
    ∷ ("fr;", 0x1d52e ∷ [])
    ∷ ("uot", 0x22 ∷ [])
    ∷ []
