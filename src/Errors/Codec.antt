-- ===== src/Errors/Codec.antt =====
-- src/error.rs: `Error::from_str` undoes `Error::as_str`, and reads nothing else.
use Prim.Native.String.{String}
use text.Mathlib.TextEquality.{eq_iff}
use html5gum.Base.{◌≡◌, refl, ◌↔◌, some, List, [], ◌∷◌, arith}
use html5gum.Errors.{
  Error, as_str, from_str, find_variant, impl_error_table, abrupt_closing_of_empty_comment,
}

-- Every entry of the table agrees with `as_str`.
abbrev Agrees : List (String × Error) → Type 0
Agrees [] = Unit
Agrees ((name, e) ∷ rest) = (as_str e ≡ name) × Agrees rest

impl_error_table-Agrees : Agrees impl_error_table
unfolding as_str
impl_error_table-Agrees = (
  refl,
  (
    refl,
    (
      refl,
      (
        refl,
        (
          refl,
          (
            refl,
            (
              refl,
              (
                refl,
                (
                  refl,
                  (
                    refl,
                    (
                      refl,
                      (
                        refl,
                        (
                          refl,
                          (
                            refl,
                            (
                              refl,
                              (
                                refl,
                                (
                                  refl,
                                  (
                                    refl,
                                    (
                                      refl,
                                      (
                                        refl,
                                        (
                                          refl,
                                          (
                                            refl,
                                            (
                                              refl,
                                              (
                                                refl,
                                                (
                                                  refl,
                                                  (
                                                    refl,
                                                    (
                                                      refl,
                                                      (
                                                        refl,
                                                        (
                                                          refl,
                                                          (
                                                            refl,
                                                            (
                                                            refl,
                                                            (
                                                            refl,
                                                            (
                                                            refl,
                                                            (
                                                            refl,
                                                            (
                                                            refl,
                                                            (
                                                            refl,
                                                            (
                                                            refl,
                                                            (
                                                            refl,
                                                            (
                                                            refl,
                                                            (
                                                            refl,
                                                            (
                                                            refl,
                                                            (
                                                            refl,
                                                            (
                                                            refl,
                                                            (
                                                            refl,
                                                            (refl, (refl, (refl, (refl, tt)))),
                                                            ),
                                                            ),
                                                            ),
                                                            ),
                                                            ),
                                                            ),
                                                            ),
                                                            ),
                                                            ),
                                                            ),
                                                            ),
                                                            ),
                                                            ),
                                                            ),
                                                          ),
                                                        ),
                                                      ),
                                                    ),
                                                  ),
                                                ),
                                              ),
                                            ),
                                          ),
                                        ),
                                      ),
                                    ),
                                  ),
                                ),
                              ),
                            ),
                          ),
                        ),
                      ),
                    ),
                  ),
                ),
              ),
            ),
          ),
        ),
      ),
    ),
  ),
)

find_variant-as_str :
    (s : String) (table : List (String × Error)) (e : Error)
    → Agrees table
    → find_variant s table ≡ some e
    → as_str e ≡ s
unfolding find_variant
find_variant-as_str s [] e a h = cc
find_variant-as_str s ((name, e') ∷ rest) e (a, agree) h =
    ground (arith, eq_iff s name, find_variant-as_str s rest e agree)

-- Reading the printed name of an error gives the error back.
pub from_str-as_str : (e : Error) → from_str (as_str e) ≡ some e
unfolding from_str as_str
from_str-as_str abrupt_closing_of_empty_comment = refl
from_str-as_str _ = refl

-- A text is read as an error exactly when it is the printed name of that error.
pub from_str_iff : (s : String) (e : Error) → (from_str s ≡ some e) ↔ (as_str e ≡ s)
unfolding from_str
from_str_iff s e = (
  find_variant-as_str s impl_error_table e impl_error_table-Agrees,
  λ p. rw (← p) (from_str-as_str e),
)
