-- ===== src/Machine/Reference/Scalars.antt =====
-- src/machine.rs: the code points that NumericCharacterReferenceEnd leaves.
use html5gum.Base.{
  ℕ, Bool, true, false, ◌&&◌, List, [], ◌∷◌, leb, ◌==◌, ◌≡◌, refl, arith, if◌then◌else◌,
}
use html5gum.Machine.Reference.{end_code, control_in, control_table, is_control_reference}
use html5gum.Utils.{is_surrogate, is_noncharacter, is_scalar}

abbrev all_scalar : List (ℕ × ℕ) → Bool
all_scalar [] = true
all_scalar ((_, to) ∷ rest) = is_scalar to && all_scalar rest

control_in-is_scalar :
    (x : ℕ) (table : List (ℕ × ℕ))
    → all_scalar table ≡ true
    → is_scalar x ≡ true
    → is_scalar (control_in x table) ≡ true
unfolding control_in
control_in-is_scalar x [] a h = h
control_in-is_scalar x ((from, to) ∷ rest) a h = ground (arith, control_in-is_scalar x rest)

control_table-all_scalar : all_scalar control_table ≡ true
unfolding is_scalar
control_table-all_scalar = refl

is_scalar_cases : (x : ℕ) → leb 0x11_0000 x ≡ false → is_surrogate x ≡ false → is_scalar x ≡ true
unfolding is_scalar is_surrogate
is_scalar_cases x a b = ground arith

if-is_scalar :
    (b : Bool) (y z : ℕ)
    → (b ≡ true → is_scalar y ≡ true)
    → (b ≡ false → is_scalar z ≡ true)
    → is_scalar (if b then y else z) ≡ true
if-is_scalar true y z f g = f refl
if-is_scalar false y z f g = g refl

replacement-is_scalar : is_scalar 0xfffd ≡ true
unfolding is_scalar
replacement-is_scalar = refl

-- The code that the end of a numeric character reference leaves is a Unicode scalar value, so
-- `char::from_u32` accepts it.
pub end_code-is_scalar : (x : ℕ) → is_scalar (end_code x) ≡ true
unfolding end_code
end_code-is_scalar x =
    if-is_scalar (x == 0) _ _ (λ _. replacement-is_scalar)
      (λ _.
        if-is_scalar (leb 0x11_0000 x) _ _ (λ _. replacement-is_scalar)
          (λ low.
            if-is_scalar (is_surrogate x) _ _ (λ _. replacement-is_scalar)
              (λ no.
                let fine = is_scalar_cases x low no in
                if-is_scalar (is_noncharacter x) _ _ (λ _. fine)
                  (λ _.
                    if-is_scalar (is_control_reference x) _ _
                      (λ _. control_in-is_scalar x control_table control_table-all_scalar fine)
                      (λ _. fine)))))
