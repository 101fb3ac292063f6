-- ===== src/Base/Table/Laws/Others.antt =====
-- The rows that a write leaves alone.
use mathlib.Core.Path.{◌≡◌, refl, ◌∙◌}
use mathlib.Core.Bool.{Bool, true, ◌&&◌}
use mathlib.Core.Option.{some}
use mathlib.Core.List.{List, [], ◌∷◌}
use mathlib.Core.Logic.{inl, inr}
use vpn_saas.Base.Tests.{Bool-cases}
use vpn_saas.Base.Table.Query.{find, update, others, find_many, create, count}

module _ {A : Type 0} where
  -- A write of one row that passes, and passes when it is written, leaves the others.
  pub others-update :
      (p q : A → Bool) (f : A → A) (xs : List A)
      → ((x : A) → q x ≡ true → (p x ≡ true) × (p (f x) ≡ true))
      → others p (update q f xs) ≡ others p xs
  others-update p q f [] own = refl
  others-update p q f (x ∷ xs) own = elim (Bool-cases (q x)) [
    | inl hit ↦ let (was, is) = own x hit in rw hit (rw (was, is) refl)
    | inr miss ↦ elim (Bool-cases (p x)) [
      | inl mine ↦ rw miss (rw mine (others-update p q f xs own))
      | inr other ↦ rw miss (rw other (rw (others-update p q f xs own) refl))
    ]
  ]

  pub find_many-cong :
      (p q : A → Bool) (xs : List A) → ((x : A) → p x ≡ q x) → find_many p xs ≡ find_many q xs
  find_many-cong p q [] same = refl
  find_many-cong p q (x ∷ xs) same = rw (same x, find_many-cong p q xs same) refl

  pub count-cong : (p q : A → Bool) (xs : List A) → ((x : A) → p x ≡ q x) → count p xs ≡ count q xs
  count-cong p q [] same = refl
  count-cong p q (x ∷ xs) same = rw (same x, count-cong p q xs same) refl

  -- The rows of a query that pass a further test.
  pub count-find_many_also :
      (p q : A → Bool) (xs : List A) → count p (find_many q xs) ≡ count (λ x. q x && p x) xs
  count-find_many_also p q [] = refl
  count-find_many_also p q (x ∷ xs) = elim (Bool-cases (q x)) [
    | inl hit ↦ rw hit (rw (count-find_many_also p q xs) refl)
    | inr miss ↦ rw miss (count-find_many_also p q xs)
  ]

  others-others : (p : A → Bool) (xs : List A) → others p (others p xs) ≡ others p xs
  others-others p [] = refl
  others-others p (x ∷ xs) = elim (Bool-cases (p x)) [
    | inl hit ↦ rw hit (others-others p xs)
    | inr miss ↦ rw miss (rw miss (rw (others-others p xs) refl))
  ]

  -- A new row that passes is none of the others.
  pub others-create :
      (p : A → Bool) (x : A) (xs : List A) → p x ≡ true → others p (create x xs) ≡ others p xs
  others-create p x [] own = rw own refl
  others-create p x (y ∷ ys) own = elim (Bool-cases (p y)) [
    | inl hit ↦ rw hit (others-create p x ys own)
    | inr miss ↦ rw miss (rw (others-create p x ys own) refl)
  ]

  -- The one row that passes is put in place of those that did.
  pub others-replace :
      (p : A → Bool) (x : A) (xs : List A)
      → p x ≡ true
      → others p (create x (others p xs)) ≡ others p xs
  others-replace p x xs own = others-create p x (others p xs) own ∙ others-others p xs

  -- Where a row is found there are rows to list.
  pub find_many-found :
      (p : A → Bool) (xs : List A) {a : A}
      → find p xs ≡ some a
      → (y : A) × (ys : List A) × (find_many p xs ≡ y ∷ ys)
  find_many-found p [] e = absurd cc
  find_many-found p (x ∷ xs) {a} e = elim (Bool-cases (p x)) [
    | inl hit ↦ (x, find_many p xs, rw hit refl)
    | inr miss ↦ rw miss (find_many-found p xs {a = a} (rw miss at e))
  ]
