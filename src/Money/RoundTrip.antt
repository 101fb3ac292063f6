-- ===== src/Money/RoundTrip.antt =====
-- An amount that is printed by `fromMinor` and read back, by `toMinor` and by the removal of all
-- but digits, which is how `initiate` of src/modules/payments/payments.service.ts reads a total.
use vpn_saas.Base.{
  ℕ, ◌+◌, ◌*◌, ◌/◌, ◌%◌, ◌<◌, ◌≡◌, refl, ap, Bool, true, false, List, [], ◌∷◌, ◌++◌, some, arith,
  if◌then◌else◌, ◌==◌, take,
}
use vpn_saas.Base.Int.{ℤ, pos, ◌+ℤ◌, ◌-ℤ◌, pos_part, neg_part, ltb_ℤ}
use vpn_saas.Money.{
  from_minor, to_minor, before_point, after_point, negate, to_text, value_of, digits_only,
  AreDigits, trim_start, starts_with_minus, value_of-to_text, digits_only-append, to_text-AreDigits,
  digits_only_lem, pad_start-to_text, big_int_cents, value_of-append_two, starts_with_minus-digits,
  trim_start-minus,
}

abbrev sign_of : Bool → List ℕ
sign_of negative = if negative then b'-' ∷ [] else []

-- The two digits after the point.
abbrev cents : ℕ → List ℕ
cents k = (b'0' + k / 10) ∷ (b'0' + k % 10) ∷ []

abbrev printed : Bool → ℕ → List ℕ
printed negative abs = sign_of negative ++ (to_text (abs / 100) ++ (b'.' ∷ cents (abs % 100)))

abbrev magnitude : ℤ → ℕ
magnitude m = pos_part m + neg_part m

from_minor-printed : (m : ℤ) → from_minor m ≡ printed (ltb_ℤ m (pos 0)) (magnitude m)
unfolding from_minor
from_minor-printed m =
    let small : magnitude m % 100 < 100 = omega arith in rw (pad_start-to_text _ small)

before_point-digits : (xs ys : List ℕ) → AreDigits xs → before_point (xs ++ (b'.' ∷ ys)) ≡ xs
unfolding before_point
before_point-digits [] ys h = refl
before_point-digits (x ∷ xs) ys (d, h) =
    let differs : (x == b'.') ≡ false = ground arith in
    rw differs (ap (λ zs. x ∷ zs) (before_point-digits xs ys h))

after_point-digits : (xs ys : List ℕ) → AreDigits xs → after_point (xs ++ (b'.' ∷ ys)) ≡ ys
unfolding after_point
after_point-digits [] ys h = refl
after_point-digits (x ∷ xs) ys (d, h) =
    let differs : (x == b'.') ≡ false = ground arith in rw differs (after_point-digits xs ys h)

digits_only-cents : (k : ℕ) → k < 100 → digits_only (cents k) ≡ cents k
digits_only-cents k h = digits_only_lem (cents k) (ground arith, (ground arith, tt))

digits_only-unsigned :
    (w k : ℕ) → k < 100 → digits_only (to_text w ++ (b'.' ∷ cents k)) ≡ to_text w ++ cents k
unfolding digits_only
digits_only-unsigned w k h = rw (digits_only-append (to_text w) (b'.' ∷ cents k)) (
    rw (digits_only_lem (to_text w) (to_text-AreDigits w))
      (ap (λ cs. to_text w ++ cs) (digits_only-cents k h)))

digits_only-printed :
    (negative : Bool) (abs : ℕ)
    → digits_only (printed negative abs) ≡ to_text (abs / 100) ++ cents (abs % 100)
unfolding digits_only
digits_only-printed true abs = digits_only-unsigned (abs / 100) (abs % 100) (omega arith)
digits_only-printed false abs = digits_only-unsigned (abs / 100) (abs % 100) (omega arith)

-- The digits of a printed amount are its magnitude in minor units: reading them back returns the
-- amount, with its sign lost.
pub value_of-digits_only-from_minor :
    (m : ℤ) → value_of (digits_only (from_minor m)) ≡ pos_part m + neg_part m
value_of-digits_only-from_minor m =
    rw (from_minor-printed m, digits_only-printed (ltb_ℤ m (pos 0)) (magnitude m))
      (rw (value_of-append_two (to_text (magnitude m / 100)) _ _)
        (omega (arith, value_of-to_text (magnitude m / 100))))

abbrev with_sign : Bool → ℤ → ℤ
with_sign negative a = if negative then negate a else a

frac_cents : (k : ℕ) → take 2 (before_point (cents k) ++ (b'0' ∷ b'0' ∷ [])) ≡ cents k
unfolding before_point
frac_cents k = ground arith

-- What `to_minor` does once the text is cut at its point.
to_minor-parts :
    (whole : List ℕ) (w k : ℕ) (negative : Bool)
    → k < 100
    → digits_only whole ≡ to_text w
    → starts_with_minus (trim_start whole) ≡ negative
    → before_point (whole ++ (b'.' ∷ cents k)) ≡ whole
    → after_point (whole ++ (b'.' ∷ cents k)) ≡ cents k
    → to_minor (whole ++ (b'.' ∷ cents k)) ≡ some (with_sign negative (pos (w * 100) +ℤ pos k))
unfolding to_minor
to_minor-parts whole w k negative h digits minus before after =
    rw (before, after, to_minor)
      (rw (frac_cents k) (rw (big_int_cents k h) (rw (digits, minus) (rw value_of-to_text))))

to_minor-printed :
    (negative : Bool) (abs : ℕ)
    → to_minor (printed negative abs)
      ≡ some (with_sign negative (pos (abs / 100 * 100) +ℤ pos (abs % 100)))
unfolding before_point after_point digits_only
to_minor-printed true abs =
    let t = to_text (abs / 100) in
    let d = to_text-AreDigits (abs / 100) in
    to_minor-parts (b'-' ∷ t) (abs / 100) (abs % 100) true (omega arith) (digits_only_lem t d)
      (rw trim_start-minus) (ap (λ cs. b'-' ∷ cs) (before_point-digits t _ d))
      (after_point-digits t _ d)
to_minor-printed false abs =
    let t = to_text (abs / 100) in
    let d = to_text-AreDigits (abs / 100) in
    to_minor-parts t (abs / 100) (abs % 100) false (omega arith) (digits_only_lem t d)
      (starts_with_minus-digits t d) (before_point-digits t _ d) (after_point-digits t _ d)

restored :
    (m : ℤ)
    → with_sign (ltb_ℤ m (pos 0)) (pos (magnitude m / 100 * 100) +ℤ pos (magnitude m % 100)) ≡ m
unfolding ◌+ℤ◌ ◌-ℤ◌
restored m = ground arith

-- `toMinor` reads back what `fromMinor` prints, for every amount, negative ones included.
pub to_minor-from_minor : (m : ℤ) → to_minor (from_minor m) ≡ some m
to_minor-from_minor m =
    rw (from_minor-printed m, to_minor-printed (ltb_ℤ m (pos 0)) (magnitude m))
      (ap some (restored m))
