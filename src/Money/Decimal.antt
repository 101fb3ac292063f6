-- ===== src/Money/Decimal.antt =====
-- Decimal texts: `toString` and `BigInt` of JavaScript on the digits that the program handles,
-- `padStart`, the removal of all but digits, and their laws.
use vpn_saas.Base.{
  ℕ, zero, suc, ◌+◌, ◌-◌, ◌*◌, ◌/◌, ◌%◌, ◌<◌, ◌≡◌, refl, ap, Bool, true, false, ◌&&◌, List, [], ◌∷◌,
  ◌++◌, Option, none, some, All, leb, ltb, ◌==◌, if◌then◌else◌, arith, length, inl, inr, Bool-cases,
}
use vpn_saas.Base.Texts.{is_space}
use vpn_saas.Base.Int.{ℤ, pos, ◌-ℤ◌}

abbrev pub is_digit : ℕ → Bool
is_digit c = leb b'0' c && leb c b'9'

-- The digits of a number, most significant first. Each round divides by ten, so that a fuel above
-- the number is enough.
decimal : ℕ → ℕ → List ℕ
decimal zero n = []
decimal (suc fuel) n =
    let rest = decimal fuel (n / 10) in
    if ltb n 10 then (b'0' + n) ∷ [] else rest ++ ((b'0' + n % 10) ∷ [])

-- `n.toString()`
unfoldable pub to_text : ℕ → List ℕ
unfolding decimal
to_text n = decimal (suc n) n

pub value_from : ℕ → List ℕ → ℕ
value_from acc [] = acc
value_from acc (c ∷ cs) = value_from (acc * 10 + (c - b'0')) cs

-- `BigInt` of a text of digits; of the empty text it is 0.
unfoldable pub value_of : List ℕ → ℕ
unfolding value_from
value_of = value_from 0

-- `replace(/[^0-9]/g, '')`
unfoldable pub digits_only : List ℕ → List ℕ
digits_only [] = []
digits_only (c ∷ cs) = if is_digit c then c ∷ digits_only cs else digits_only cs

zeros : ℕ → List ℕ
zeros zero = []
zeros (suc n) = b'0' ∷ zeros n

-- `padStart(width, '0')`
unfoldable pub pad_start : ℕ → List ℕ → List ℕ
unfolding zeros
pad_start width cs = zeros (width - length cs) ++ cs

pub trim_start : List ℕ → List ℕ
trim_start [] = []
trim_start (c ∷ cs) = if is_space c then trim_start cs else c ∷ cs

abbrev pub starts_with_minus : List ℕ → Bool
starts_with_minus [] = false
starts_with_minus (c ∷ cs) = c == b'-'

all_digits : List ℕ → Bool
all_digits [] = true
all_digits (c ∷ cs) = is_digit c && all_digits cs

-- `trimEnd`, by reversal into an accumulator.
reversed : List ℕ → List ℕ → List ℕ
reversed [] acc = acc
reversed (c ∷ cs) acc = reversed cs (c ∷ acc)

signed : List ℕ → Option ℤ
unfolding all_digits value_of
signed [] = some (pos 0)
signed (c ∷ cs) =
    if c == b'-' && (all_digits cs && leb 1 (length cs))
    then some (pos 0 -ℤ pos (value_of cs))
    else if c == b'+' && (all_digits cs && leb 1 (length cs))
    then some (pos (value_of cs))
    else if all_digits (c ∷ cs)
    then some (pos (value_of (c ∷ cs)))
    else none

-- `BigInt(text)` of a text of at most two units: blanks around it, a sign, and digits.
unfoldable pub big_int : List ℕ → Option ℤ
unfolding signed trim_start reversed
big_int cs = signed (trim_start (reversed (trim_start (reversed cs [])) []))

value_from-append :
    (acc : ℕ) (xs : List ℕ) (c : ℕ)
    → value_from acc (xs ++ (c ∷ [])) ≡ value_from acc xs * 10 + (c - b'0')
unfolding value_from
value_from-append acc [] c = refl
value_from-append acc (x ∷ xs) c = value_from-append (acc * 10 + (x - b'0')) xs c

value_from-decimal : (fuel n : ℕ) → n < fuel → value_from 0 (decimal fuel n) ≡ n
unfolding decimal
value_from-decimal zero n h = absurd (omega arith)
value_from-decimal (suc fuel) n h = elim (Bool-cases (ltb n 10)) [
  | inl small ↦ rw small (unfold value_from in ground arith)
  | inr large ↦
      rw (large, value_from-append 0 (decimal fuel (n / 10)) (b'0' + n % 10))
        (omega (arith, value_from-decimal fuel (n / 10) (ground arith)))
]

-- The digits of a number are read back as the number.
pub value_of-to_text : (n : ℕ) → value_of (to_text n) ≡ n
unfolding value_of to_text
value_of-to_text n = value_from-decimal (suc n) n (omega arith)

pub digits_only-append :
    (xs ys : List ℕ) → digits_only (xs ++ ys) ≡ digits_only xs ++ digits_only ys
unfolding digits_only
digits_only-append [] ys = refl
digits_only-append (x ∷ xs) ys = ground (arith, digits_only-append xs ys)

-- Texts of digits.
abbrev pub AreDigits : List ℕ → Type 0
AreDigits = All (λ c. is_digit c ≡ true)

AreDigits-append : (xs ys : List ℕ) → AreDigits xs → AreDigits ys → AreDigits (xs ++ ys)
AreDigits-append [] ys h k = k
AreDigits-append (x ∷ xs) ys (d, h) k = (d, AreDigits-append xs ys h k)

decimal-AreDigits : (fuel n : ℕ) → AreDigits (decimal fuel n)
unfolding decimal
decimal-AreDigits zero n = tt
decimal-AreDigits (suc fuel) n = elim (Bool-cases (ltb n 10)) [
  | inl small ↦ rw small (ground arith, tt)
  | inr large ↦ rw large (
      AreDigits-append (decimal fuel (n / 10)) _ (decimal-AreDigits fuel (n / 10))
        (ground arith, tt))
]

pub to_text-AreDigits : (n : ℕ) → AreDigits (to_text n)
unfolding to_text
to_text-AreDigits n = decimal-AreDigits (suc n) n

pub digits_only_lem : (xs : List ℕ) → AreDigits xs → digits_only xs ≡ xs
unfolding digits_only
digits_only_lem [] h = refl
digits_only_lem (x ∷ xs) (d, h) = rw d (ap (λ ys. x ∷ ys) (digits_only_lem xs h))

-- Two places of cents.
pub pad_start-to_text :
    (k : ℕ) → k < 100 → pad_start 2 (to_text k) ≡ (b'0' + k / 10) ∷ (b'0' + k % 10) ∷ []
unfolding pad_start to_text
pad_start-to_text zero h = refl
pad_start-to_text (suc k) h = ground arith

pub big_int_cents :
    (k : ℕ) → k < 100 → big_int ((b'0' + k / 10) ∷ (b'0' + k % 10) ∷ []) ≡ some (pos k)
unfolding big_int value_from
big_int_cents k h = ground arith

pub value_of-append_two :
    (xs : List ℕ) (a b : ℕ)
    → value_of (xs ++ (a ∷ b ∷ [])) ≡ value_of xs * 100 + (a - b'0') * 10 + (b - b'0')
unfolding value_of
value_of-append_two xs a b = from 0 xs
  where
    from :
        (acc : ℕ) (ys : List ℕ)
        → value_from acc (ys ++ (a ∷ b ∷ []))
          ≡ value_from acc ys * 100 + (a - b'0') * 10 + (b - b'0')
    from acc [] = omega arith
    from acc (y ∷ ys) = from (acc * 10 + (y - b'0')) ys

pub starts_with_minus-digits :
    (xs : List ℕ) → AreDigits xs → starts_with_minus (trim_start xs) ≡ false
unfolding trim_start
starts_with_minus-digits [] h = refl
starts_with_minus-digits (x ∷ xs) h = ground arith

pub trim_start-minus : (xs : List ℕ) → trim_start (b'-' ∷ xs) ≡ b'-' ∷ xs
unfolding trim_start
trim_start-minus xs = refl
