-- ===== src/Base/Table/Laws/Keys.antt =====
-- Rows that are alone under their key: claims of them, and writes to them.
use mathlib.Core.Path.{◌≡◌, refl, sym, ◌∙◌}
use mathlib.Core.Bool.{Bool, true, false, ◌&&◌}
use mathlib.Core.Option.{none, some}
use mathlib.Core.List.{List, [], ◌∷◌}
use mathlib.Core.Logic.{inl, inr}
use native.Mathlib.Omega.{arith}
use vpn_saas.Base.Tests.{if◌then◌else◌, Bool-cases}
use vpn_saas.Base.Lists.{All}
use vpn_saas.Base.Table.Query.{find, update, update_many, count}
use vpn_saas.Base.Table.Laws.Search.{find-cons, find_sound}

module _ {A : Type 0} where
  count-narrow : (p q : A → Bool) (xs : List A) → count p xs ≡ 0 → count (λ x. p x && q x) xs ≡ 0
  count-narrow p q [] h = refl
  count-narrow p q (x ∷ xs) h = elim (Bool-cases (p x)) [
    | inl hit ↦ absurd (ground arith)
    | inr miss ↦ rw miss (count-narrow p q xs (rw miss at h))
  ]

  -- The claim of the one row with a key, under a further condition that it meets or not.
  pub count-claim :
      (p q : A → Bool) (xs : List A) {a : A}
      → find p xs ≡ some a
      → count p xs ≡ 1
      → count (λ x. p x && q x) xs ≡ (if q a then 1 else 0)
  count-claim p q [] e one = cc
  count-claim p q (x ∷ xs) {a} e one = elim (Bool-cases (p x)) [
    | inl hit ↦
        let same : x ≡ a = find-cons p x xs hit e in
        let rest : count p xs ≡ 0 = ground arith in rw (hit, same, count-narrow p q xs rest) refl
    | inr miss ↦ rw miss (count-claim p q xs (rw miss at e) (rw miss at one))
  ]

  -- The one row with a key, after the claim that it meets.
  pub find-claim :
      (p q : A → Bool) (f : A → A) (xs : List A) {a : A}
      → find p xs ≡ some a
      → q a ≡ true
      → p (f a) ≡ true
      → find p (update_many (λ x. p x && q x) f xs) ≡ some (f a)
  find-claim p q f [] e hit t = cc
  find-claim p q f (x ∷ xs) {a} e hit t = elim (Bool-cases (p x)) [
    | inl here ↦
        let same : x ≡ a = find-cons p x xs here e in
        let pa : p a ≡ true = find_sound p (x ∷ xs) e in rw (same, pa, hit, t) refl
    | inr miss ↦ rw (miss) (rw miss (find-claim p q f xs (rw miss at e) hit t))
  ]

  -- No key is lost or won by a write that keeps the keys.
  pub count-update_many_key :
      (p q : A → Bool) (f : A → A) (xs : List A)
      → ((x : A) → p x ≡ true → p (f x) ≡ true)
      → count p (update_many (λ x. p x && q x) f xs) ≡ count p xs
  count-update_many_key p q f [] h = refl
  count-update_many_key p q f (x ∷ xs) h = elim (Bool-cases (p x)) [
    | inl hit ↦ elim (Bool-cases (q x)) [
      | inl also ↦ rw (hit, also, h x hit, count-update_many_key p q f xs h) refl
      | inr but ↦ rw (hit, but, hit, count-update_many_key p q f xs h) refl
    ]
    | inr miss ↦ rw miss (rw miss (count-update_many_key p q f xs h))
  ]

  -- The row that is looked for is among the many that are written.
  pub find-update_many :
      (p q : A → Bool) (f : A → A) (xs : List A) {a : A}
      → find q xs ≡ some a
      → p a ≡ true
      → ((x : A) → q (f x) ≡ q x)
      → find q (update_many p f xs) ≡ some (f a)
  find-update_many p q f [] e t h = cc
  find-update_many p q f (x ∷ xs) {a} e t h = elim (Bool-cases (q x)) [
    | inl hit ↦
        let same : x ≡ a = find-cons q x xs hit e in
        let qa : q a ≡ true = find_sound q (x ∷ xs) e in rw (same, t, h a, qa) refl
    | inr miss ↦
        let kept : q (if p x then f x else x) ≡ false = elim (Bool-cases (p x)) [
          | inl hit ↦ rw hit (h x ∙ miss)
          | inr other ↦ rw other miss
        ] in
        rw kept (find-update_many p q f xs (rw miss at e) t h)
  ]

  none-count : (p q : A → Bool) (xs : List A) → count p xs ≡ 0 → find (λ x. p x && q x) xs ≡ none
  none-count p q [] h = refl
  none-count p q (x ∷ xs) h = elim (Bool-cases (p x)) [
    | inl hit ↦ absurd (ground arith)
    | inr miss ↦ rw miss (none-count p q xs (rw miss at h))
  ]

  -- The one row with a key, once it is written so that it meets the further condition no more.
  pub find-update_spent :
      (p q r : A → Bool) (f : A → A) (xs : List A) {a : A}
      → find (λ x. p x && q x) xs ≡ some a
      → count p xs ≡ 1
      → find r xs ≡ some a
      → q (f a) ≡ false
      → find (λ x. p x && q x) (update r f xs) ≡ none
  find-update_spent p q r f [] e one by_key spent = cc
  find-update_spent p q r f (x ∷ xs) {a} e one by_key spent = elim (Bool-cases (p x)) [
    | inl hit ↦
        let rest : count p xs ≡ 0 = ground arith in
        elim (Bool-cases (q x)) [
          | inl live ↦
              let same : x ≡ a = find-cons (λ y. p y && q y) x xs (rw (hit, live) refl) e in
              let ra : r a ≡ true = find_sound r (x ∷ xs) by_key in
              elim (Bool-cases (p (f a))) [
                | inl still ↦ rw (same, ra) (rw (still, spent) (none-count p q xs rest))
                | inr gone ↦ rw (same, ra) (rw gone (none-count p q xs rest))
              ]
          | inr dead ↦ absurd (
              let e' : find (λ y. p y && q y) xs ≡ some a = rw (hit, dead) at e in
              let none' = none-count p q xs rest in cc)
        ]
    | inr miss ↦ elim (Bool-cases (r x)) [
      | inl key ↦ absurd (
          let same : x ≡ a = find-cons r x xs key by_key in
          let both = find_sound (λ y. p y && q y) (x ∷ xs) e in
          let clash : (p a && q a) ≡ false = rw (sym same) (rw miss refl) in cc)
      | inr other ↦ rw other (
          rw miss (
            find-update_spent p q r f xs (rw miss at e) (rw miss at one) (rw other at by_key)
              spent))
    ]
  ]

  All-missed {ℓ} :
      (p : A → Bool) (Q : A → Type ℓ) (xs : List A)
      → count p xs ≡ 0
      → All (λ x. p x ≡ true → Q x) xs
  All-missed p Q [] h = tt
  All-missed p Q (x ∷ xs) h = elim (Bool-cases (p x)) [
    | inl hit ↦ absurd (ground arith)
    | inr miss ↦ ((λ hit. absurd (cc)), All-missed p Q xs (rw miss at h))
  ]

  -- No row that is found passes a test that none passes.
  pub find-uncounted :
      (p r : A → Bool) (xs : List A) {a : A} → find r xs ≡ some a → count p xs ≡ 0 → p a ≡ false
  find-uncounted p r [] e h = cc
  find-uncounted p r (x ∷ xs) {a} e h = elim (Bool-cases (p x)) [
    | inl hit ↦ absurd (ground arith)
    | inr miss ↦ elim (Bool-cases (r x)) [
      | inl key ↦ rw (sym (find-cons r x xs key e)) miss
      | inr other ↦ find-uncounted p r xs (rw other at e) (rw miss at h)
    ]
  ]

  -- The only row that passes is written so that it has the property.
  pub All-update_one {ℓ} :
      (p r : A → Bool) (f : A → A) (Q : A → Type ℓ) (xs : List A) {a : A}
      → find r xs ≡ some a
      → p a ≡ true
      → count p xs ≡ 1
      → Q (f a)
      → All (λ x. p x ≡ true → Q x) (update r f xs)
  All-update_one p r f Q [] e hit one q = cc
  All-update_one p r f Q (x ∷ xs) {a} e hit one q = elim (Bool-cases (r x)) [
    | inl key ↦
        let same : x ≡ a = find-cons r x xs key e in
        let here : p x ≡ true = rw same hit in
        let rest : count p xs ≡ 0 = ground arith in
        rw key (rw same ((λ h. q), All-missed p Q xs rest))
    | inr other ↦ elim (Bool-cases (p x)) [
      | inl also ↦ absurd (
          let rest : count p xs ≡ 0 = ground arith in
          let clash = find-uncounted p r xs (rw other at e) rest in cc)
      | inr miss ↦
          rw other
            ((λ h. absurd (cc)), All-update_one p r f Q xs (rw other at e) hit (rw miss at one) q)
    ]
  ]
