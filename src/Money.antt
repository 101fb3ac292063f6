-- ===== src/Money.antt =====
-- Money (src/common/utils/money.util.ts) at two decimals, which is what every caller uses, and the
-- texts that go with it. A text is the list of its UTF-16 code units.
mod Decimal
pub mod RoundTrip
pub mod Discount
unfoldable pub use Decimal.*
use vpn_saas.Base.{
  ℕ, ◌+◌, ◌-◌, ◌*◌, ◌/◌, ◌%◌, Bool, true, false, ◌&&◌, ◌||◌, not, List, [], ◌∷◌, ◌++◌, Option, none,
  some, leb, ltb, ◌==◌, if◌then◌else◌, take, drop, length, ◌≡◌,
}
use vpn_saas.Base.Int.{
  ℤ, pos, negsuc, ◌+ℤ◌, ◌-ℤ◌, ◌*ℤ◌, div_ℤ, pos_part, neg_part, ltb_ℤ, leb_ℤ, int_laws,
}

unfoldable pub from_minor : ℤ → List ℕ
from_minor minor =
    let negative = ltb_ℤ minor (pos 0) in
    let abs = pos_part minor + neg_part minor in
    (if negative then b'-' ∷ [] else [])
    ++ (to_text (abs / 100) ++ (b'.' ∷ pad_start 2 (to_text (abs % 100))))

-- `split('.')`: what stands before the first point, and between it and the next.
unfoldable pub before_point : List ℕ → List ℕ
before_point [] = []
before_point (c ∷ cs) = if c == b'.' then [] else c ∷ before_point cs

unfoldable pub after_point : List ℕ → List ℕ
after_point [] = []
after_point (c ∷ cs) = if c == b'.' then cs else after_point cs

-- `-value`
abbrev negate : ℤ → ℤ
negate a = pos 0 -ℤ a

-- The value of the whole part and of the fraction, once `BigInt` has read the fraction; `none` is
-- its `SyntaxError`.
unfoldable pub minor_value : List ℕ → Option ℤ → Option ℤ
minor_value whole none = none
minor_value whole (some frac) =
    let value = pos (value_of (digits_only whole) * 100) +ℤ frac in
    some (if starts_with_minus (trim_start whole) then negate value else value)

unfoldable pub to_minor : List ℕ → Option ℤ
unfolding minor_value
to_minor decimal =
    minor_value (before_point decimal)
      (big_int (take 2 (before_point (after_point decimal) ++ (b'0' ∷ b'0' ∷ []))))

sum_from : ℤ → List ℤ → ℤ
sum_from acc [] = acc
sum_from acc (a ∷ rest) = sum_from (acc +ℤ a) rest

-- `reduce` from zero.
unfoldable pub add_money : List ℤ → ℤ
unfolding sum_from
add_money = sum_from (pos 0)

pub add_money_two : (a b : ℤ) → add_money (a ∷ b ∷ []) ≡ a +ℤ b
unfolding add_money
add_money_two a b = omega int_laws

-- The percentage counts hundredths, so that `Math.round(percent * 1000)` is ten times it.
unfoldable pub apply_discount : ℤ → ℤ → ℤ
apply_discount amount percent =
    if leb_ℤ percent (pos 0)
    then amount
    else if leb_ℤ (pos 10000) percent
    then pos 0
    else div_ℤ (amount *ℤ (pos 100000 -ℤ percent *ℤ pos 10)) 100000
