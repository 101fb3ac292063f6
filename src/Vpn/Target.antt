-- ===== src/Vpn/Target.antt =====
-- The inbounds that are chosen for a plan (`selectProvisioningTarget` of
-- src/modules/vpn/vpn.service.ts).
use vpn_saas.Base.{
  ℕ, ◌<◌, ◌≡◌, ◌≢◌, sym, Bool, true, false, ◌||◌, not, List, [], ◌∷◌, map, ltb, ltb→lt, ◌==◌, arith,
  inl, inr, Bool-cases, Option-cases, All,
}
use mathlib.Core.Path.{subst}
use vpn_saas.Base.Table.{find, find_many}
use vpn_saas.Store.{ok, ok-ne-err, ok-injective, truthy, same_id}
use vpn_saas.Store.Rows.{Plan, VpnPanel, InboundConfig, Db}
use vpn_saas.Vpn.{
  ProvisioningTarget, distinct, sorted, insert_sorted, inbound_ids_for, eligible_inbounds,
  is_active_xui, is_eligible, select_provisioning_target, panel_for, is_empty, is_selected,
}

module _ {A : Type 0} (P : A → Type 0) (p : A → Bool) where
  All-find_many : (xs : List A) → All P xs → All P (find_many p xs)
  All-find_many [] h = tt
  All-find_many (x ∷ xs) (px, h) = elim (Bool-cases (p x)) [
    | inl hit ↦ rw hit (px, All-find_many xs h)
    | inr miss ↦ rw miss (All-find_many xs h)
  ]

find_many-All : {A : Type 0} (p : A → Bool) (xs : List A) → All (λ x. p x ≡ true) (find_many p xs)
find_many-All p [] = tt
find_many-All p (x ∷ xs) = elim (Bool-cases (p x)) [
  | inl hit ↦ rw hit (hit, find_many-All p xs)
  | inr miss ↦ rw miss (find_many-All p xs)
]

All-weaken :
    {A : Type 0} (P Q : A → Type 0) (xs : List A) → ((x : A) → P x → Q x) → All P xs → All Q xs
All-weaken P Q [] f h = tt
All-weaken P Q (x ∷ xs) f (px, h) = (f x px, All-weaken P Q xs f h)

All-map :
    {A B : Type 0} (P : B → Type 0) (f : A → B) (xs : List A)
    → All (λ x. P (f x)) xs
    → All P (map f xs)
All-map P f [] h = tt
All-map P f (x ∷ xs) (px, h) = (px, All-map P f xs h)

-- No number stands in the list twice; each is less than those after it.
abbrev Unrepeated : List ℕ → Type 0
Unrepeated [] = Unit {0}
Unrepeated (n ∷ ns) = All (λ m. m ≢ n) ns × Unrepeated ns

abbrev pub IsAscending : List ℕ → Type 0
IsAscending [] = Unit {0}
IsAscending (n ∷ ns) = All (λ m. n < m) ns × IsAscending ns

Unrepeated-find_many : (p : ℕ → Bool) (ns : List ℕ) → Unrepeated ns → Unrepeated (find_many p ns)
Unrepeated-find_many p [] h = tt
Unrepeated-find_many p (n ∷ ns) (apart, h) = elim (Bool-cases (p n)) [
  | inl hit ↦ rw hit (All-find_many _ p ns apart, Unrepeated-find_many p ns h)
  | inr miss ↦ rw miss (Unrepeated-find_many p ns h)
]

distinct-Unrepeated : (ns : List ℕ) → Unrepeated (distinct ns)
unfolding distinct
distinct-Unrepeated [] = tt
distinct-Unrepeated (n ∷ ns) = (
  All-weaken (λ m. not (m == n) ≡ true) (λ m. m ≢ n) (find_many (λ m. not (m == n)) (distinct ns))
      (λ m e. ground arith) (find_many-All (λ m. not (m == n)) (distinct ns)),
  Unrepeated-find_many (λ m. not (m == n)) (distinct ns) (distinct-Unrepeated ns),
)

module _ (P : ℕ → Type 0) where
  distinct-All : (ns : List ℕ) → All P ns → All P (distinct ns)
  unfolding distinct
  distinct-All [] h = tt
  distinct-All (n ∷ ns) (pn, h) = (pn, All-find_many P _ (distinct ns) (distinct-All ns h))

  insert-All : (n : ℕ) (ns : List ℕ) → P n → All P ns → All P (insert_sorted n ns)
  unfolding insert_sorted
  insert-All n [] pn h = (pn, tt)
  insert-All n (m ∷ ms) pn (pm, h) = elim (Bool-cases (ltb m n)) [
    | inl less ↦ rw less (pm, insert-All n ms pn h)
    | inr more ↦ rw more (pn, (pm, h))
  ]

  sorted-All : (ns : List ℕ) → All P ns → All P (sorted ns)
  unfolding sorted
  sorted-All [] h = tt
  sorted-All (n ∷ ns) (pn, h) = insert-All n (sorted ns) pn (sorted-All ns h)

insert-IsAscending :
    (n : ℕ) (ns : List ℕ) → IsAscending ns → All (λ m. m ≢ n) ns → IsAscending (insert_sorted n ns)
unfolding insert_sorted
insert-IsAscending n [] h k = (tt, tt)
insert-IsAscending n (m ∷ ms) (least, h) (apart, k) = elim (Bool-cases (ltb m n)) [
  | inl less ↦
      let under : m < n = ltb→lt m n less in
      rw less (insert-All (λ l. m < l) n ms under least, insert-IsAscending n ms h k)
  | inr more ↦
      let above : n < m = ground arith in
      rw more
        ((above, All-weaken (λ l. m < l) (λ l. n < l) ms (λ l e. omega arith) least), (least, h))
]

sorted-IsAscending : (ns : List ℕ) → Unrepeated ns → IsAscending (sorted ns)
unfolding sorted
sorted-IsAscending [] h = tt
sorted-IsAscending (n ∷ ns) (apart, h) =
    insert-IsAscending n (sorted ns) (sorted-IsAscending ns h) (sorted-All (λ m. m ≢ n) ns apart)

All-passed :
    {A : Type 0} (P : A → Type 0) (p : A → Bool) (xs : List A)
    → All (λ x. p x ≡ true → P x) xs
    → All P (find_many p xs)
All-passed P p [] h = tt
All-passed P p (x ∷ xs) (px, h) = elim (Bool-cases (p x)) [
  | inl hit ↦ rw hit (px hit, All-passed P p xs h)
  | inr miss ↦ rw miss (All-passed P p xs h)
]

-- What is asked of the ids of the eligible inbounds of a panel.
abbrev pub HoldsOn : (ℕ → Type 0) → ℕ → InboundConfig → Type 0
HoldsOn P panel_id i = (i.panel_id == panel_id) ≡ true → is_eligible i ≡ true → P i.inbound_id

module _ (P : ℕ → Type 0) (plan : Plan) (db : Db) where
  eligible-All :
      (panel_id : ℕ)
      → All (HoldsOn P panel_id) db.inbounds
      → All (λ (i : InboundConfig). P i.inbound_id) (eligible_inbounds panel_id db)
  unfolding eligible_inbounds
  eligible-All panel_id h =
      elim (Option-cases (find (λ (p : VpnPanel). p.id == panel_id) db.panels)) [
        | inl missing ↦ rw missing tt
        | inr (panel, found) ↦ rw found (elim (Bool-cases (is_active_xui panel)) [
          | inr idle ↦ rw idle tt
          | inl serving ↦ rw serving (
              All-passed (λ (i : InboundConfig). P i.inbound_id) is_eligible _
                (All-passed (λ (i : InboundConfig). is_eligible i ≡ true → P i.inbound_id)
                  (λ (i : InboundConfig). i.panel_id == panel_id) db.inbounds h))
        ])
      ]

  ids-All :
      (panel_id : ℕ)
      → All (HoldsOn P panel_id) db.inbounds
      → All P (inbound_ids_for plan panel_id db) × IsAscending (inbound_ids_for plan panel_id db)
  unfolding inbound_ids_for
  ids-All panel_id h =
      let wanted : InboundConfig → Bool =
        λ i. not (is_selected plan.inbound_policy) || same_id plan.inbound_config_id i.id in
      let ids =
        map (λ (i : InboundConfig). i.inbound_id)
          (find_many wanted (eligible_inbounds panel_id db)) in
      (
        sorted-All P (distinct ids) (
            distinct-All P ids (
              All-map P (λ (i : InboundConfig). i.inbound_id)
                (find_many wanted (eligible_inbounds panel_id db))
                (All-find_many (λ (i : InboundConfig). P i.inbound_id) wanted
                  (eligible_inbounds panel_id db) (eligible-All panel_id h)))),
        sorted-IsAscending (distinct ids) (distinct-Unrepeated ids),
      )

  -- A target that has been chosen names at least one inbound and lists their ids in ascending order,
  -- none twice; nothing is written; and whatever holds of the id of every eligible inbound of the
  -- chosen panel holds of each chosen id, so that no other inbound is ever chosen.
  pub select_provisioning_target-IsAscending :
      {t : ProvisioningTarget} {after : Db}
      → select_provisioning_target plan db ≡ (ok t, after)
      → All (HoldsOn P t.panel_id) db.inbounds
      → (after ≡ db)
        × IsAscending t.inbound_ids
        × (is_empty t.inbound_ids ≡ false)
        × All P t.inbound_ids
  unfolding select_provisioning_target
  select_provisioning_target-IsAscending {t} {after} run h =
      elim (Option-cases (panel_for (truthy plan.panel_id) db)) [
        | inl missing ↦ absurd (ok-ne-err (rw missing at run))
        | inr (panel, found) ↦ elim (Bool-cases (is_empty (inbound_ids_for plan panel.id db))) [
          | inl none_left ↦ absurd (ok-ne-err (rw none_left at (rw found at run)))
          | inr some_left ↦
              let (same_t, same_db) = ok-injective (rw some_left at (rw found at run)) in
              let (all, ascending) = ids-All panel.id (
                subst (λ (x : ProvisioningTarget). All (HoldsOn P x.panel_id) db.inbounds)
                  (sym same_t) h) in
              let (rising, served, held) =
                subst
                  (λ (x : ProvisioningTarget).
                    IsAscending x.inbound_ids
                    × (is_empty x.inbound_ids ≡ false)
                    × All P x.inbound_ids)
                  same_t (ascending, some_left, all) in
              (sym same_db, rising, served, held)
        ]
      ]
