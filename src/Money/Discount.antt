-- ===== src/Money/Discount.antt =====
-- Discounts (`applyDiscount` of src/common/utils/money.util.ts).
use vpn_saas.Base.{ℕ, ◌*◌, ◌/◌, ◌-◌, ◌≤◌, ◌≡◌, arith}
use vpn_saas.Base.Int.{pos, ◌≤ℤ◌, div_ℤ, pos-*, pos-sub}
use vpn_saas.Money.{apply_discount}

-- The discounted amount, on natural numbers.
abbrev reduced : ℕ → ℕ → ℕ
reduced a p = a * (100000 - p * 10) / 100000

apply_discount-reduced : (a p : ℕ) → p ≤ 10000 → apply_discount (pos a) (pos p) ≡ pos (reduced a p)
unfolding apply_discount div_ℤ
apply_discount-reduced a p h =
    rw (pos-* p 10)
      (rw (pos-sub 100000 (p * 10) (omega arith)) (rw (pos-* a (100000 - p * 10)) (ground arith)))

reduced_mono : (a p q : ℕ) → p ≤ q → reduced a q ≤ reduced a p
reduced_mono a p q h =
    let left : a * (100000 - q * 10) ≤ a * (100000 - p * 10) = grind arith in omega arith

-- For an amount that is not negative and a percentage between 0 and 100, the discounted amount is
-- never negative and never above the amount, nothing is taken off at 0, nothing is left at 100, and a higher percentage never leaves
-- a higher amount.
pub apply_discount_bounds :
    (a p q : ℕ)
    → p ≤ q
    → q ≤ 10000
    → (pos 0 ≤ℤ apply_discount (pos a) (pos q))
      × (apply_discount (pos a) (pos q) ≤ℤ apply_discount (pos a) (pos p))
      × (apply_discount (pos a) (pos p) ≤ℤ pos a)
      × (apply_discount (pos a) (pos 0) ≡ pos a)
      × (apply_discount (pos a) (pos 10000) ≡ pos 0)
apply_discount_bounds a p q h k =
    rw (apply_discount-reduced a q k, apply_discount-reduced a p (omega arith))
      (rw (apply_discount-reduced a 0 (omega arith), apply_discount-reduced a 10000 (omega arith))
        (
          omega arith,
          omega (arith, reduced_mono a p q h),
          omega (arith, reduced_mono a 0 p (omega arith)),
          ground arith,
          ground arith,
        ))
