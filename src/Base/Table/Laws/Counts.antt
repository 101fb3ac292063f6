-- ===== src/Base/Table/Laws/Counts.antt =====
-- How many rows pass a test after a write.
use Prim.Native.Nat.{suc, ◌+◌, ◌≤◌}
use mathlib.Core.Path.{◌≡◌, refl, ap}
use mathlib.Core.Bool.{Bool, true, false}
use mathlib.Core.List.{List, [], ◌∷◌}
use mathlib.Core.Logic.{inl, inr}
use native.Mathlib.Omega.{arith}
use vpn_saas.Base.Tests.{if◌then◌else◌, Bool-cases}
use mathlib.Core.Option.{some}
use vpn_saas.Base.Table.Query.{find, find_many, update, update_many, count, create}

module _ {A : Type 0} where
  -- Once every row that passes has been written to one that does not, none passes.
  pub count-update_many :
      (p : A → Bool) (f : A → A) (xs : List A)
      → ((x : A) → p (f x) ≡ false)
      → count p (update_many p f xs) ≡ 0
  count-update_many p f [] h = refl
  count-update_many p f (x ∷ xs) h = elim (Bool-cases (p x)) [
    | inl hit ↦ rw (hit, h x) (count-update_many p f xs h)
    | inr miss ↦ rw miss (rw miss (count-update_many p f xs h))
  ]

  -- A write of many rows changes nothing where none passes.
  pub update_many-none :
      (p : A → Bool) (f : A → A) (xs : List A) → count p xs ≡ 0 → update_many p f xs ≡ xs
  update_many-none p f [] h = refl
  update_many-none p f (x ∷ xs) h = elim (Bool-cases (p x)) [
    | inl hit ↦ absurd (ground arith)
    | inr miss ↦ rw miss (ap (λ ys. x ∷ ys) (update_many-none p f xs (rw miss at h)))
  ]

  pub count-create :
      (p : A → Bool) (x : A) (xs : List A)
      → count p (create x xs) ≡ count p xs + (if p x then 1 else 0)
  count-create p x [] = ground arith
  count-create p x (y ∷ ys) = ground (arith, count-create p x ys)

  -- A write that no test of the count notices.
  pub count-update_many_other :
      (p q : A → Bool) (f : A → A) (xs : List A)
      → ((x : A) → q (f x) ≡ q x)
      → count q (update_many p f xs) ≡ count q xs
  count-update_many_other p q f [] keep = refl
  count-update_many_other p q f (x ∷ xs) keep =
      let same : q (if p x then f x else x) ≡ q x = elim (Bool-cases (p x)) [
        | inl hit ↦ rw hit (keep x)
        | inr miss ↦ rw miss refl
      ] in
      rw (same, count-update_many_other p q f xs keep) refl

  -- One write adds at most one row that passes, and none where the written row passed before.
  pub count-update_le :
      (q p : A → Bool) (f : A → A) (xs : List A) → count q (update p f xs) ≤ suc (count q xs)
  count-update_le q p f [] = ground arith
  count-update_le q p f (x ∷ xs) = ground (arith, count-update_le q p f xs)

  pub count-update_kept :
      (q p : A → Bool) (f : A → A) (xs : List A)
      → ((x : A) → q (f x) ≡ true → q x ≡ true)
      → count q (update p f xs) ≤ count q xs
  count-update_kept q p f [] kept = ground arith
  count-update_kept q p f (x ∷ xs) kept = ground (arith, count-update_kept q p f xs kept, kept x)

  -- A write of the row that is found, which makes it pass only where it has passed before.
  pub count-update_found :
      (q p : A → Bool) (f : A → A) (xs : List A) {a : A}
      → find p xs ≡ some a
      → (q (f a) ≡ true → q a ≡ true)
      → count q (update p f xs) ≤ count q xs
  count-update_found q p f [] found kept = ground arith
  count-update_found q p f (x ∷ xs) {a} found kept = elim (Bool-cases (p x)) [
    | inl hit ↦
        let same : x ≡ a = some_inj (rw hit at found) in
        let kept' : q (f x) ≡ true → q x ≡ true = rw same kept in rw hit (ground (arith, kept'))
    | inr miss ↦
        let rest = count-update_found q p f xs {a = a} (rw miss at found) kept in
        rw miss (ground (arith, rest))
  ]
    where
      some_inj : {b c : A} → some b ≡ some c → b ≡ c
      some_inj e = cc

  -- Writes on many rows that make none pass.
  pub count-update_many_fewer :
      (q p : A → Bool) (f : A → A) (xs : List A)
      → ((x : A) → q (f x) ≡ true → q x ≡ true)
      → count q (update_many p f xs) ≤ count q xs
  count-update_many_fewer q p f [] kept = ground arith
  count-update_many_fewer q p f (x ∷ xs) kept =
      ground (arith, count-update_many_fewer q p f xs kept, kept x)

  pub count-find_many : (q p : A → Bool) (xs : List A) → count q (find_many p xs) ≤ count q xs
  count-find_many q p [] = ground arith
  count-find_many q p (x ∷ xs) = ground (arith, count-find_many q p xs)
