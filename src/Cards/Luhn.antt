-- ===== src/Cards/Luhn.antt =====
-- The check digit of a card number (`isValidCardNumber` of
-- src/modules/payments/bank-cards.service.ts).
use vpn_saas.Base.{
  ==_iff, ◌≢◌, ℕ, ◌+◌, ◌%◌, ◌≡◌, refl, ap, Bool, true, false, ◌&&◌, ◌||◌, not, List, [], ◌∷◌, ◌++◌,
  ◌==◌, arith, inl, inr, Bool-cases, length,
}
use vpn_saas.Base.Texts.{all_digits, is_digit, is_space, without_separators, reversed}
use vpn_saas.Cards.{share, luhn_sum, is_valid_card_number, normalize_card_number, all_zeros}

-- The parity after as many places.
abbrev parity : Bool → List ℕ → Bool
parity doubled [] = doubled
parity doubled (c ∷ cs) = parity (not doubled) cs

luhn_sum-append :
    (doubled : Bool) (xs ys : List ℕ)
    → luhn_sum doubled (xs ++ ys) ≡ luhn_sum doubled xs + luhn_sum (parity doubled xs) ys
luhn_sum-append doubled [] ys = omega arith
luhn_sum-append doubled (c ∷ cs) ys =
    let rest = luhn_sum-append (not doubled) cs ys in omega (arith, rest)

-- Different digits have different shares below ten.
share-injective :
    (doubled : Bool) (a b : ℕ)
    → is_digit a ≡ true
    → is_digit b ≡ true
    → (n m : ℕ) → (n + (share doubled a + m)) % 10 ≡ 0
    → (n + (share doubled b + m)) % 10 ≡ 0
    → a ≡ b
share-injective false a b ha hb n m h k = ground arith
share-injective true a b ha hb n m h k = ground arith

append_assoc : (xs ys zs : List ℕ) → (xs ++ ys) ++ zs ≡ xs ++ (ys ++ zs)
append_assoc [] ys zs = refl
append_assoc (x ∷ xs) ys zs = ap (λ r. x ∷ r) (append_assoc xs ys zs)

reversed-append :
    (xs : List ℕ) (c : ℕ) (ys : List ℕ) → reversed (xs ++ c ∷ ys) ≡ reversed ys ++ c ∷ reversed xs
reversed-append [] c ys = refl
reversed-append (x ∷ xs) c ys =
    rw (reversed-append xs c ys) (append_assoc (reversed ys) (c ∷ reversed xs) (x ∷ []))

separator_free : (c : ℕ) → is_digit c ≡ true → not (is_space c || c == b'-') ≡ true
separator_free c h = ground arith

without_separators-append :
    (xs : List ℕ) (c : ℕ) (ys : List ℕ)
    → is_digit c ≡ true
    → without_separators (xs ++ c ∷ ys) ≡ without_separators xs ++ c ∷ without_separators ys
without_separators-append [] c ys h = rw (separator_free c h) refl
without_separators-append (x ∷ xs) c ys h = elim (Bool-cases (not (is_space x || x == b'-'))) [
  | inl kept ↦ rw kept (ap (λ r. x ∷ r) (without_separators-append xs c ys h))
  | inr dropped ↦ rw dropped (without_separators-append xs c ys h)
]

last_of_and : (a b : Bool) → (a && b) ≡ true → b ≡ true
last_of_and true b h = h
last_of_and false b h = cc

-- The sum of a valid number, with the share of one of its digits apart.
valid-sum :
    (xs : List ℕ) (c : ℕ) (ys : List ℕ)
    → is_digit c ≡ true
    → is_valid_card_number (xs ++ c ∷ ys) ≡ true
    → (luhn_sum false (reversed (without_separators ys))
          + (share (parity false (reversed (without_separators ys))) c
              + luhn_sum
                  (not (parity false (reversed (without_separators ys))))
                  (reversed (without_separators xs))))
        % 10
      ≡ 0
unfolding is_valid_card_number
valid-sum xs c ys digit valid =
    let card = normalize_card_number (xs ++ c ∷ ys) in
    let whole =
      last_of_and (not (all_zeros card)) _
        (last_of_and (all_digits card) _ (last_of_and (length card == 16) _ valid)) in
    let zero' =
      (==_iff (luhn_sum false (reversed (without_separators (xs ++ c ∷ ys))) % 10) 0).0 whole in
    rw
      (
        without_separators-append xs c ys digit,
        reversed-append (without_separators xs) c (without_separators ys),
        luhn_sum-append false (reversed (without_separators ys))
            (c ∷ reversed (without_separators xs)),
      )
      at zero'

-- One digit of a valid card number, wherever it stands and however the number is set apart by
-- spaces and dashes, is replaced by another digit: the number is no longer valid.
pub digit_changed :
    (xs : List ℕ) (a b : ℕ) (ys : List ℕ)
    → is_digit a ≡ true
    → is_digit b ≡ true
    → a ≢ b
    → is_valid_card_number (xs ++ a ∷ ys) ≡ true
    → is_valid_card_number (xs ++ b ∷ ys) ≡ false
digit_changed xs a b ys da db differ valid =
    elim (Bool-cases (is_valid_card_number (xs ++ b ∷ ys))) [
      | inr invalid ↦ invalid
      | inl also ↦ absurd (
          differ (
            share-injective (parity false (reversed (without_separators ys))) a b da db
              (luhn_sum false (reversed (without_separators ys))) _ (valid-sum xs a ys da valid)
              (valid-sum xs b ys db also)))
    ]
