-- ===== src/Entities/UpperMToUpperQ.antt =====
-- src/entities.rs: the tables of `try_read_character_reference` for a first letter from 'M' to 'Q'.
-- An entry holds the rest of a name, and the code points that it stands for.
use html5gum.Base.{List, [], ◌∷◌}
use html5gum.Entities.Shape.{Entry}

abbrev pub branch_upper_m : List Entry
branch_upper_m =
    ("ediumSpace;", 0x205f ∷ [])
    ∷ ("ellintrf;", 0x2133 ∷ [])
    ∷ ("inusPlus;", 0x2213 ∷ [])
    ∷ ("opf;", 0x1d544 ∷ [])
    ∷ ("scr;", 0x2133 ∷ [])
    ∷ ("ap;", 0x2905 ∷ [])
    ∷ ("cy;", 0x41c ∷ [])
    ∷ ("fr;", 0x1d510 ∷ [])
    ∷ ("u;", 0x39c ∷ [])
    ∷ []

abbrev pub branch_upper_n : List Entry
branch_upper_n =
    ("otNestedGreaterGreater;", 0x2aa2 ∷ 0x338 ∷ [])
    ∷ ("otSquareSupersetEqual;", 0x22e3 ∷ [])
    ∷ ("egativeVeryThinSpace;", 0x200b ∷ [])
    ∷ ("otPrecedesSlantEqual;", 0x22e0 ∷ [])
    ∷ ("otRightTriangleEqual;", 0x22ed ∷ [])
    ∷ ("otSucceedsSlantEqual;", 0x22e1 ∷ [])
    ∷ ("estedGreaterGreater;", 0x226b ∷ [])
    ∷ ("otDoubleVerticalBar;", 0x2226 ∷ [])
    ∷ ("otGreaterSlantEqual;", 0x2a7e ∷ 0x338 ∷ [])
    ∷ ("otLeftTriangleEqual;", 0x22ec ∷ [])
    ∷ ("otSquareSubsetEqual;", 0x22e2 ∷ [])
    ∷ ("egativeMediumSpace;", 0x200b ∷ [])
    ∷ ("otGreaterFullEqual;", 0x2267 ∷ 0x338 ∷ [])
    ∷ ("otRightTriangleBar;", 0x29d0 ∷ 0x338 ∷ [])
    ∷ ("egativeThickSpace;", 0x200b ∷ [])
    ∷ ("otLeftTriangleBar;", 0x29cf ∷ 0x338 ∷ [])
    ∷ ("egativeThinSpace;", 0x200b ∷ [])
    ∷ ("otGreaterGreater;", 0x226b ∷ 0x338 ∷ [])
    ∷ ("otLessSlantEqual;", 0x2a7d ∷ 0x338 ∷ [])
    ∷ ("otNestedLessLess;", 0x2aa1 ∷ 0x338 ∷ [])
    ∷ ("otReverseElement;", 0x220c ∷ [])
    ∷ ("otSquareSuperset;", 0x2290 ∷ 0x338 ∷ [])
    ∷ ("otTildeFullEqual;", 0x2247 ∷ [])
    ∷ ("onBreakingSpace;", 0xa0 ∷ [])
    ∷ ("otPrecedesEqual;", 0x2aaf ∷ 0x338 ∷ [])
    ∷ ("otRightTriangle;", 0x22eb ∷ [])
    ∷ ("otSucceedsEqual;", 0x2ab0 ∷ 0x338 ∷ [])
    ∷ ("otSucceedsTilde;", 0x227f ∷ 0x338 ∷ [])
    ∷ ("otSupersetEqual;", 0x2289 ∷ [])
    ∷ ("otGreaterEqual;", 0x2271 ∷ [])
    ∷ ("otGreaterTilde;", 0x2275 ∷ [])
    ∷ ("otHumpDownHump;", 0x224e ∷ 0x338 ∷ [])
    ∷ ("otLeftTriangle;", 0x22ea ∷ [])
    ∷ ("otSquareSubset;", 0x228f ∷ 0x338 ∷ [])
    ∷ ("estedLessLess;", 0x226a ∷ [])
    ∷ ("otGreaterLess;", 0x2279 ∷ [])
    ∷ ("otLessGreater;", 0x2278 ∷ [])
    ∷ ("otSubsetEqual;", 0x2288 ∷ [])
    ∷ ("otVerticalBar;", 0x2224 ∷ [])
    ∷ ("otEqualTilde;", 0x2242 ∷ 0x338 ∷ [])
    ∷ ("otTildeEqual;", 0x2244 ∷ [])
    ∷ ("otTildeTilde;", 0x2249 ∷ [])
    ∷ ("otCongruent;", 0x2262 ∷ [])
    ∷ ("otHumpEqual;", 0x224f ∷ 0x338 ∷ [])
    ∷ ("otLessEqual;", 0x2270 ∷ [])
    ∷ ("otLessTilde;", 0x2274 ∷ [])
    ∷ ("otLessLess;", 0x226a ∷ 0x338 ∷ [])
    ∷ ("otPrecedes;", 0x2280 ∷ [])
    ∷ ("otSucceeds;", 0x2281 ∷ [])
    ∷ ("otSuperset;", 0x2283 ∷ 0x20d2 ∷ [])
    ∷ ("otElement;", 0x2209 ∷ [])
    ∷ ("otGreater;", 0x226f ∷ [])
    ∷ ("otCupCap;", 0x226d ∷ [])
    ∷ ("otExists;", 0x2204 ∷ [])
    ∷ ("otSubset;", 0x2282 ∷ 0x20d2 ∷ [])
    ∷ ("otEqual;", 0x2260 ∷ [])
    ∷ ("otTilde;", 0x2241 ∷ [])
    ∷ ("ewLine;", 0xa ∷ [])
    ∷ ("oBreak;", 0x2060 ∷ [])
    ∷ ("otLess;", 0x226e ∷ [])
    ∷ ("acute;", 0x143 ∷ [])
    ∷ ("caron;", 0x147 ∷ [])
    ∷ ("cedil;", 0x145 ∷ [])
    ∷ ("tilde;", 0xd1 ∷ [])
    ∷ ("tilde", 0xd1 ∷ [])
    ∷ ("Jcy;", 0x40a ∷ [])
    ∷ ("opf;", 0x2115 ∷ [])
    ∷ ("scr;", 0x1d4a9 ∷ [])
    ∷ ("cy;", 0x41d ∷ [])
    ∷ ("fr;", 0x1d511 ∷ [])
    ∷ ("ot;", 0x2aec ∷ [])
    ∷ ("u;", 0x39d ∷ [])
    ∷ []

abbrev pub branch_upper_o : List Entry
branch_upper_o =
    ("penCurlyDoubleQuote;", 0x201c ∷ [])
    ∷ ("verParenthesis;", 0x23dc ∷ [])
    ∷ ("penCurlyQuote;", 0x2018 ∷ [])
    ∷ ("verBracket;", 0x23b4 ∷ [])
    ∷ ("verBrace;", 0x23de ∷ [])
    ∷ ("micron;", 0x39f ∷ [])
    ∷ ("verBar;", 0x203e ∷ [])
    ∷ ("acute;", 0xd3 ∷ [])
    ∷ ("dblac;", 0x150 ∷ [])
    ∷ ("grave;", 0xd2 ∷ [])
    ∷ ("slash;", 0xd8 ∷ [])
    ∷ ("tilde;", 0xd5 ∷ [])
    ∷ ("times;", 0x2a37 ∷ [])
    ∷ ("Elig;", 0x152 ∷ [])
    ∷ ("acute", 0xd3 ∷ [])
    ∷ ("circ;", 0xd4 ∷ [])
    ∷ ("grave", 0xd2 ∷ [])
    ∷ ("macr;", 0x14c ∷ [])
    ∷ ("mega;", 0x3a9 ∷ [])
    ∷ ("slash", 0xd8 ∷ [])
    ∷ ("tilde", 0xd5 ∷ [])
    ∷ ("circ", 0xd4 ∷ [])
    ∷ ("opf;", 0x1d546 ∷ [])
    ∷ ("scr;", 0x1d4aa ∷ [])
    ∷ ("uml;", 0xd6 ∷ [])
    ∷ ("cy;", 0x41e ∷ [])
    ∷ ("fr;", 0x1d512 ∷ [])
    ∷ ("uml", 0xd6 ∷ [])
    ∷ ("r;", 0x2a54 ∷ [])
    ∷ []

abbrev pub branch_upper_p : List Entry
branch_upper_p =
    ("recedesSlantEqual;", 0x227c ∷ [])
    ∷ ("oincareplane;", 0x210c ∷ [])
    ∷ ("recedesEqual;", 0x2aaf ∷ [])
    ∷ ("recedesTilde;", 0x227e ∷ [])
    ∷ ("roportional;", 0x221d ∷ [])
    ∷ ("roportion;", 0x2237 ∷ [])
    ∷ ("lusMinus;", 0xb1 ∷ [])
    ∷ ("artialD;", 0x2202 ∷ [])
    ∷ ("recedes;", 0x227a ∷ [])
    ∷ ("roduct;", 0x220f ∷ [])
    ∷ ("rime;", 0x2033 ∷ [])
    ∷ ("opf;", 0x2119 ∷ [])
    ∷ ("scr;", 0x1d4ab ∷ [])
    ∷ ("cy;", 0x41f ∷ [])
    ∷ ("fr;", 0x1d513 ∷ [])
    ∷ ("hi;", 0x3a6 ∷ [])
    ∷ ("si;", 0x3a8 ∷ [])
    ∷ ("i;", 0x3a0 ∷ [])
    ∷ ("r;", 0x2abb ∷ [])
    ∷ []

abbrev pub branch_upper_q : List Entry
branch_upper_q =
    ("UOT;", 0x22 ∷ [])
    ∷ ("opf;", 0x211a ∷ [])
    ∷ ("scr;", 0x1d4ac ∷ [])
    ∷ ("UOT", 0x22 ∷ [])
    ∷ ("fr;", 0x1d514 ∷ [])
    ∷ []
