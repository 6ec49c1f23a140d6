-- ===== src/Entities/LowerM.antt =====
-- src/entities.rs: the tables of `try_read_character_reference` for a first letter from 'm' to 'm'.
-- An entry holds the rest of a name, and the code points that it stands for.
use html5gum.Base.{List, [], ◌∷◌}
use html5gum.Entities.Shape.{Entry}

abbrev pub branch_lower_m : List Entry
branch_lower_m =
    ("easuredangle;", 0x2221 ∷ [])
    ∷ ("apstodown;", 0x21a7 ∷ [])
    ∷ ("apstoleft;", 0x21a4 ∷ [])
    ∷ ("apstoup;", 0x21a5 ∷ [])
    ∷ ("ultimap;", 0x22b8 ∷ [])
    ∷ ("altese;", 0x2720 ∷ [])
    ∷ ("inusdu;", 0x2a2a ∷ [])
    ∷ ("apsto;", 0x21a6 ∷ [])
    ∷ ("arker;", 0x25ae ∷ [])
    ∷ ("comma;", 0x2a29 ∷ [])
    ∷ ("idast;", 0x2a ∷ [])
    ∷ ("idcir;", 0x2af0 ∷ [])
    ∷ ("iddot;", 0xb7 ∷ [])
    ∷ ("inusb;", 0x229f ∷ [])
    ∷ ("inusd;", 0x2238 ∷ [])
    ∷ ("nplus;", 0x2213 ∷ [])
    ∷ ("odels;", 0x22a7 ∷ [])
    ∷ ("stpos;", 0x223e ∷ [])
    ∷ ("DDot;", 0x223a ∷ [])
    ∷ ("dash;", 0x2014 ∷ [])
    ∷ ("icro;", 0xb5 ∷ [])
    ∷ ("iddot", 0xb7 ∷ [])
    ∷ ("inus;", 0x2212 ∷ [])
    ∷ ("umap;", 0x22b8 ∷ [])
    ∷ ("acr;", 0xaf ∷ [])
    ∷ ("ale;", 0x2642 ∷ [])
    ∷ ("alt;", 0x2720 ∷ [])
    ∷ ("icro", 0xb5 ∷ [])
    ∷ ("lcp;", 0x2adb ∷ [])
    ∷ ("ldr;", 0x2026 ∷ [])
    ∷ ("opf;", 0x1d55e ∷ [])
    ∷ ("scr;", 0x1d4c2 ∷ [])
    ∷ ("acr", 0xaf ∷ [])
    ∷ ("ap;", 0x21a6 ∷ [])
    ∷ ("cy;", 0x43c ∷ [])
    ∷ ("fr;", 0x1d52a ∷ [])
    ∷ ("ho;", 0x2127 ∷ [])
    ∷ ("id;", 0x2223 ∷ [])
    ∷ ("p;", 0x2213 ∷ [])
    ∷ ("u;", 0x3bc ∷ [])
    ∷ []
