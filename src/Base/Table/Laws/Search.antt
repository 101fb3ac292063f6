-- ===== src/Base/Table/Laws/Search.antt =====
-- How a search reads what the writes on a table have left.
use mathlib.Core.Path.{◌≡◌, refl, sym, subst}
use mathlib.Core.Bool.{Bool, true, false}
use mathlib.Core.Option.{Option, none, some}
use mathlib.Core.List.{List, [], ◌∷◌}
use mathlib.Core.Logic.{inl, inr}
use native.Mathlib.Omega.{arith}
use vpn_saas.Base.Tests.{if◌then◌else◌, Bool-cases}
use vpn_saas.Base.Lists.{All}
use vpn_saas.Base.Table.Query.{find, update, update_many, find_many, create}

module _ {A : Type 0} where
  pub some_unique : {o : Option A} {a b : A} → o ≡ some a → o ≡ some b → a ≡ b
  some_unique h k = cc

  pub find_sound : (p : A → Bool) (xs : List A) {a : A} → find p xs ≡ some a → p a ≡ true
  find_sound p [] h = cc
  find_sound p (x ∷ xs) {a} h = ground (arith, find_sound p xs {a = a})

  -- The search ends at a row that passes the test.
  pub find-cons :
      (p : A → Bool) (x : A) (xs : List A) {a : A} → p x ≡ true → find p (x ∷ xs) ≡ some a → x ≡ a
  find-cons p x xs here e = ground arith

  pub find-create_old :
      (p : A → Bool) (x : A) (xs : List A) {a : A}
      → find p xs ≡ some a
      → find p (create x xs) ≡ some a
  find-create_old p x [] h = cc
  find-create_old p x (y ∷ ys) {a} h = ground (arith, find-create_old p x ys {a = a})

  pub find-create_new :
      (p : A → Bool) (x : A) (xs : List A)
      → find p xs ≡ none
      → find p (create x xs) ≡ (if p x then some x else none)
  find-create_new p x [] h = refl
  find-create_new p x (y ∷ ys) h = ground (arith, find-create_new p x ys)

  -- A new row that is not looked for.
  pub find-create_other :
      (p : A → Bool) (x : A) (xs : List A) → p x ≡ false → find p (create x xs) ≡ find p xs
  find-create_other p x [] h = rw h refl
  find-create_other p x (y ∷ ys) h = ground (arith, find-create_other p x ys h)

  abbrev pub written : (A → Bool) → (A → A) → Option A → Option A
  written p f none = none
  written p f (some a) = some (if p a then f a else a)

  -- A write on many rows that keeps what is looked for.
  pub find-update_many-written :
      (p q : A → Bool) (f : A → A) (xs : List A)
      → ((x : A) → q (f x) ≡ q x)
      → find q (update_many p f xs) ≡ written p f (find q xs)
  find-update_many-written p q f [] h = refl
  find-update_many-written p q f (x ∷ xs) h = elim (Bool-cases (p x)) [
    | inl hit ↦ elim (Bool-cases (q x)) [
      | inl here ↦ rw hit (rw (h x) (rw here (rw hit refl)))
      | inr there ↦ rw hit (rw (h x) (rw there (find-update_many-written p q f xs h)))
    ]
    | inr miss ↦ elim (Bool-cases (q x)) [
      | inl here ↦ rw miss (rw here (rw miss refl))
      | inr there ↦ rw miss (rw there (find-update_many-written p q f xs h))
    ]
  ]

  -- The row that is written is the row that is looked for.
  pub find-update_same :
      (p q : A → Bool) (f : A → A) (xs : List A) {a : A}
      → find p xs ≡ some a
      → find q xs ≡ some a
      → q (f a) ≡ true
      → find q (update p f xs) ≡ some (f a)
  find-update_same p q f [] h k t = cc
  find-update_same p q f (x ∷ xs) {a} h k t =
      ground
        (arith, find-update_same p q f xs {a = a}, find_sound p (x ∷ xs) h, find_sound q (x ∷ xs) k)

  -- The row that is written is none that is looked for, before and after.
  pub find-update_other :
      (p q : A → Bool) (f : A → A) (xs : List A)
      → ((x : A) → p x ≡ true → (q x ≡ false) × (q (f x) ≡ false))
      → find q (update p f xs) ≡ find q xs
  find-update_other p q f [] h = refl
  find-update_other p q f (x ∷ xs) h = ground (arith, find-update_other p q f xs h, h x)

  module _ {ℓ} (P : A → Type ℓ) where
    pub All-create : (x : A) (xs : List A) → All P xs → P x → All P (create x xs)
    All-create x [] h px = (px, tt)
    All-create x (y ∷ ys) (py, h) px = (py, All-create x ys h px)

    pub All-find : (p : A → Bool) (xs : List A) {a : A} → All P xs → find p xs ≡ some a → P a
    All-find p [] h e = cc
    All-find p (x ∷ xs) {a} (px, h) e = elim (Bool-cases (p x)) [
      | inl found ↦ subst P (ground arith) px
      | inr other ↦ All-find p xs h (rw (other, find) at e)
    ]

    pub All-update :
        (p : A → Bool) (f : A → A) (xs : List A)
        → ((x : A) → P x → p x ≡ true → P (f x))
        → All P xs
        → All P (update p f xs)
    All-update p f [] keep h = tt
    All-update p f (x ∷ xs) keep (px, h) = elim (Bool-cases (p x)) [
      | inl found ↦ rw found (keep x px found, h)
      | inr other ↦ rw other (px, All-update p f xs keep h)
    ]

  -- A row that is found fails every test that no row passes.
  pub find-none_apart :
      (p q : A → Bool) (xs : List A) {a : A} → find p xs ≡ some a → find q xs ≡ none → q a ≡ false
  find-none_apart p q [] h k = cc
  find-none_apart p q (x ∷ xs) {a} h k = elim (Bool-cases (q x)) [
    | inl hit ↦ absurd (ground arith)
    | inr miss ↦ elim (Bool-cases (p x)) [
      | inl here ↦ rw (sym (find-cons p x xs here h)) miss
      | inr other ↦ find-none_apart p q xs (rw other at h) (rw miss at k)
    ]
  ]

  -- A row that is found and not written is found again.
  pub find-update_apart :
      (p q : A → Bool) (f : A → A) (xs : List A) {a : A}
      → find q xs ≡ some a
      → p a ≡ false
      → ((x : A) → q (f x) ≡ q x)
      → find q (update p f xs) ≡ some a
  find-update_apart p q f [] e apart keep = e
  find-update_apart p q f (x ∷ xs) {a} e apart keep = elim (Bool-cases (q x)) [
    | inl here ↦
        let same : x ≡ a = find-cons q x xs here e in
        let miss : p x ≡ false = rw same apart in rw miss (rw (here, same) refl)
    | inr other ↦ elim (Bool-cases (p x)) [
      | inl hit ↦ rw hit (rw (keep x, other) (rw other at e))
      | inr miss ↦ rw miss (rw other (find-update_apart p q f xs (rw other at e) apart keep))
    ]
  ]

  -- What has been left out is not found.
  pub find-find_many :
      (p q : A → Bool) (xs : List A)
      → ((x : A) → q x ≡ true → p x ≡ false)
      → find q (find_many p xs) ≡ none
  find-find_many p q [] apart = refl
  find-find_many p q (x ∷ xs) apart = elim (Bool-cases (p x)) [
    | inr left_out ↦ rw left_out (find-find_many p q xs apart)
    | inl kept ↦ elim (Bool-cases (q x)) [
      | inl hit ↦ absurd (let miss = apart x hit in cc)
      | inr miss ↦ rw kept (rw miss (find-find_many p q xs apart))
    ]
  ]
