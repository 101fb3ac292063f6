-- ===== src/Base/Table/Query.antt =====
-- The queries on one table, after the calls of `prisma.<table>` in the services.
use Prim.Native.Nat.{ℕ, suc}
use mathlib.Core.Bool.{Bool, not}
use mathlib.Core.Option.{Option, none, some}
use mathlib.Core.List.{List, [], ◌∷◌, ◌++◌}
use vpn_saas.Base.Tests.{if◌then◌else◌}

module _ {A : Type 0} where
  -- `findFirst` and `findUnique`
  abbrev pub find : (A → Bool) → List A → Option A
  find p [] = none
  find p (x ∷ xs) = if p x then some x else find p xs

  -- `update` on a unique column
  abbrev pub update : (A → Bool) → (A → A) → List A → List A
  update p f [] = []
  update p f (x ∷ xs) = if p x then f x ∷ xs else x ∷ update p f xs

  -- `updateMany`
  abbrev pub update_many : (A → Bool) → (A → A) → List A → List A
  update_many p f [] = []
  update_many p f (x ∷ xs) = (if p x then f x else x) ∷ update_many p f xs

  -- `count`, and the count that `updateMany` returns
  abbrev pub count : (A → Bool) → List A → ℕ
  count p [] = 0
  count p (x ∷ xs) = if p x then suc (count p xs) else count p xs

  -- `findMany`
  abbrev pub find_many : (A → Bool) → List A → List A
  find_many p [] = []
  find_many p (x ∷ xs) = if p x then x ∷ find_many p xs else find_many p xs

  -- The rows that do not pass.
  abbrev pub others : (A → Bool) → List A → List A
  others p xs = find_many (λ x. not (p x)) xs

  -- `create`
  abbrev pub create : A → List A → List A
  create x xs = xs ++ (x ∷ [])
