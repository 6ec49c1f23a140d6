-- ===== src/Machine/Reference/Digits.antt =====
-- src/machine.rs: the digits of a numeric character reference, whose code is kept in a `u32`.
use html5gum.Base.{
  ℕ, suc, ◌+◌, ◌-◌, ◌*◌, ◌≤◌, true, false, List, [], ◌∷◌, ◌≡◌, refl, ◌∙◌, sym, some, ◌⊎◌, inl, inr,
  leb, ◌==◌, arith,
}
use html5gum.Errors.{character_reference_outside_unicode_range}
use html5gum.Machine.Ops.{next_code}
use html5gum.Machine.Reference.{end_code, end_error}

-- The code that the digits leave in `character_reference_code`; with each byte stands the number
-- that its arm subtracts.
abbrev pub code_after : ℕ → List (ℕ × ℕ) → ℕ → ℕ
code_after mul [] code = code
code_after mul ((x, sub) ∷ digits) code = code_after mul digits (next_code mul sub x code)

-- The number that the digits write.
abbrev pub value : ℕ → List (ℕ × ℕ) → ℕ → ℕ
value mul [] n = n
value mul ((x, sub) ∷ digits) n = value mul digits (n * mul + (x - sub))

-- The code is the number, or both are beyond the last code point.
abbrev Agree : ℕ → ℕ → Type 0
Agree a b = (a ≡ b) ⊎ ((0x11_0000 ≤ a) × (0x11_0000 ≤ b))

le_mul : (m a : ℕ) → a ≤ a * suc m
le_mul m a = omega arith

next_code-Agree :
    (m sub x a b : ℕ) → Agree a b → Agree (next_code (suc m) sub x a) (b * suc m + (x - sub))
next_code-Agree m sub x a b (inl e) = rw e (ground arith)
next_code-Agree m sub x a b (inr (p, q)) =
    inr (ground (arith, le_mul m a), omega (arith, le_mul m b))

code_after-Agree :
    (m : ℕ) (digits : List (ℕ × ℕ)) (a b : ℕ)
    → Agree a b
    → Agree (code_after (suc m) digits a) (value (suc m) digits b)
code_after-Agree m [] a b h = h
code_after-Agree m ((x, sub) ∷ digits) a b h =
    code_after-Agree m digits (next_code (suc m) sub x a) (b * suc m + (x - sub))
      (next_code-Agree m sub x a b h)

tests_beyond : (c : ℕ) → 0x11_0000 ≤ c → ((c == 0) ≡ false) × (leb 0x11_0000 c ≡ true)
tests_beyond c h = (ground arith, ground arith)

end_code-beyond : (c : ℕ) → 0x11_0000 ≤ c → end_code c ≡ 0xfffd
unfolding end_code
end_code-beyond c h = rw ((tests_beyond c h).0, (tests_beyond c h).1) refl

end_error-beyond :
    (c : ℕ) → 0x11_0000 ≤ c → end_error c ≡ some character_reference_outside_unicode_range
unfolding end_error
end_error-beyond c h = rw ((tests_beyond c h).0, (tests_beyond c h).1) refl

end-Agree : (a b : ℕ) → Agree a b → (end_code a ≡ end_code b) × (end_error a ≡ end_error b)
end-Agree a b (inl e) = rw e (refl, refl)
end-Agree a b (inr (p, q)) = (
  end_code-beyond a p ∙ sym (end_code-beyond b q),
  end_error-beyond a p ∙ sym (end_error-beyond b q),
)

-- A numeric character reference whose number does not fit in a `u32` ends as that number would:
-- after any digits, in any base, the code kept in the `u32` gives the same code point and the same
-- error as the number that the digits write.
pub code_after-value :
    (m : ℕ) (digits : List (ℕ × ℕ))
    → (end_code (code_after (suc m) digits 0) ≡ end_code (value (suc m) digits 0))
      × (end_error (code_after (suc m) digits 0) ≡ end_error (value (suc m) digits 0))
code_after-value m digits =
    end-Agree (code_after (suc m) digits 0) (value (suc m) digits 0)
      (code_after-Agree m digits 0 0 (inl refl))
