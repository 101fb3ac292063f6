-- ===== src/Orders/Complete.antt =====
-- The completion of an order (`completeOrderInTransaction` of src/modules/orders/orders.service.ts).
use vpn_saas.Base.{
  ℕ, ◌≡◌, refl, sym, ◌∙◌, true, false, ◌&&◌, some, List, String, ◌==◌, ==_iff, arith, inl, inr,
  Bool-cases, Option-cases,
}
use mathlib.Core.Path.{subst}
use vpn_saas.Base.Int.{ℤ, pos, ltb_ℤ, leb_ℤ}
use vpn_saas.Base.Table.{find, update}
use vpn_saas.Base.Table.Laws.{find_sound, find-update_same, find-update_other}
use vpn_saas.Store.{resume, Result-cases, pure, ◌>>=◌, get_or, truthy, same_id}
use vpn_saas.Store.Rows.{
  Plan, User, Order, Wallet, WalletTransaction, ReferralLog, Subscription, Db,
}
use vpn_saas.Vpn.{select_provisioning_target, panel_for, is_empty, inbound_ids_for}
use vpn_saas.Subscriptions.{provision_in_transaction}
use vpn_saas.Subscriptions.Frame.{provision-keeps}
use vpn_saas.Orders.{
  has_id, is_completed, fulfil, deliver, dto_of, plan_by_id, with_subscription, params_of,
}
use vpn_saas.Orders.Commission.{
  Conversions, setting, earned, commission_for, pay_commission, commission_step,
  credit_referral_commission, referrer_of, is_text,
}

-- A commission touches wallets, transactions and referrals only.
module _ (P : Db → Type 0)
    (frame : (db : Db) (ws : List Wallet) (ts : List WalletTransaction) (rs : List ReferralLog)
      → P db
      → P (record db { wallets = ws; transactions = ts; referrals = rs }))
    (js : Conversions) (uuid : String) (now : ℕ) (o : Order) where
  pay-keeps :
      (commission : ℤ) (referrer : ℕ) (db : Db)
      → P db
      → P (pay_commission uuid now commission o referrer db).1
  unfolding pay_commission
  pay-keeps commission referrer db h = frame db _ _ _ h

  step-keeps : (referrer : ℕ) (db : Db) → P db → P (commission_step js uuid now o referrer db).1
  unfolding commission_step
  step-keeps referrer db h =
      elim (Option-cases (js.trunc_number (get_or (setting "referral.commissionPercent" db) "0"))) [
        | inl e ↦ rw e h
        | inr (percent, e) ↦
            rw e (elim (Bool-cases (ltb_ℤ (pos 0) percent && leb_ℤ percent (pos 100))) [
              | inr e' ↦ rw e' h
              | inl e' ↦
                  rw e'
                    (elim (Option-cases
                      (js.big_int (get_or (setting "referral.maxBonus" db) "0"))) [
                        | inl k ↦ rw k h
                        | inr (most, k) ↦
                            rw k
                              (elim (Bool-cases (
                                ltb_ℤ (pos 0) (
                                  commission_for o.total_amount percent most
                                    (earned referrer db)))) [
                                      | inr k' ↦ rw k' h
                                      | inl k' ↦ rw k' (pay-keeps _ referrer db h)
                                    ])
                      ])
            ])
      ]

  pub commission-keeps : (db : Db) → P db → P (credit_referral_commission js uuid now o db).1
  unfolding credit_referral_commission
  commission-keeps db h = elim (Bool-cases (ltb_ℤ (pos 0) o.total_amount)) [
    | inr e ↦ rw e h
    | inl e ↦
        rw e (elim (Option-cases (referrer_of (find (λ (u : User). u.id == o.user_id) db.users))) [
          | inl k ↦ rw k h
          | inr (referrer, k) ↦
              rw k (elim (Bool-cases (is_text (setting "referral.enabled" db) "false")) [
                | inl off ↦ rw off h
                | inr on ↦ rw on (step-keeps referrer db h)
              ])
        ])
  ]

-- The order with the id is COMPLETED.
pub record HasCompleted (id : ℕ) (db : Db) : Type 0 where
  pub order : Order
  pub found : find (has_id id) db.orders ≡ some order
  pub done : is_completed order.status ≡ true

-- The choice of a target only reads.
select-keeps : (plan : Plan) (db : Db) → (select_provisioning_target plan db).1 ≡ db
unfolding select_provisioning_target
select-keeps plan db = elim (Option-cases (panel_for (truthy plan.panel_id) db)) [
  | inl e ↦ rw e refl
  | inr (panel, e) ↦ rw e (elim (Bool-cases (is_empty (inbound_ids_for plan panel.id db))) [
    | inl k ↦ rw k refl
    | inr k ↦ rw k refl
  ])
]

link-keeps :
    (id target subscription : ℕ) (db : Db)
    → HasCompleted id db
    → HasCompleted id
        (record db { orders = update (has_id target) (with_subscription subscription) db.orders })
link-keeps id target subscription db h = elim (Bool-cases (target == id)) [
  | inl same ↦
      let e : target ≡ id = (==_iff target id).0 same in
      record {
        order = with_subscription subscription h.order;
        found = rw e (
            find-update_same (has_id id) (has_id id) _ db.orders h.found h.found
              (find_sound (has_id id) db.orders h.found));
        done = h.done;
      }
  | inr other ↦ record {
    order = h.order;
    found =
        find-update_other (has_id target) (has_id id) (with_subscription subscription) db.orders
          (λ x e. let differs : has_id id x ≡ false = ground arith in (differs, differs))
        ∙ h.found;
    done = h.done;
  }
]

module _ (js : Conversions) (uuid uuid' : String) (now : ℕ) where
  deliver-keeps :
      (updated : Order) (s : Subscription) (id : ℕ) (db : Db)
      → HasCompleted id db
      → HasCompleted id (deliver js uuid' now updated s db).1
  unfolding deliver
  deliver-keeps updated s id db h =
      let frame : (db : Db) (ws : List Wallet) (ts : List WalletTransaction) (rs : List ReferralLog)
          → HasCompleted id db
          → HasCompleted id (record db { wallets = ws; transactions = ts; referrals = rs }) =
        λ d ws ts rs k. record { order = k.order; found = k.found; done = k.done } in
      let credited : (d : Db)
          → HasCompleted id d
          → HasCompleted id
              (resume (credit_referral_commission js uuid' now updated d) λ _. do
                dto ← dto_of updated
                pure (record {
                  order = dto;
                  subscription = some s;
                  provisioning_required = true;
                })).1 =
        λ d k. elim (Result-cases (credit_referral_commission js uuid' now updated d)) [
          | inl (a, t, e) ↦
              rw e (rw e at (commission-keeps (HasCompleted id) frame js uuid' now updated d k))
          | inr (a, t, e) ↦
              rw e (rw e at (commission-keeps (HasCompleted id) frame js uuid' now updated d k))
        ] in
      elim (Bool-cases (same_id updated.subscription_id s.id)) [
        | inl linked ↦ rw linked (credited db h)
        | inr unlinked ↦ rw unlinked (credited _ (link-keeps id updated.id s.id db h))
      ]

  -- Whatever follows the claim leaves the order completed.
  pub fulfil-keeps :
      (order : Order) (id user : ℕ) (db : Db)
      → HasCompleted id db
      → HasCompleted id (fulfil js uuid uuid' now order id user db).1
  unfolding fulfil
  fulfil-keeps order id user db h = elim (Option-cases (plan_by_id h.order.plan_id db)) [
    | inl none_there ↦ rw h.found (rw none_there h)
    | inr (plan, there) ↦ rw h.found (
        rw there (elim (Result-cases (select_provisioning_target plan db)) [
          | inr (e, t, run) ↦
              rw run (subst (HasCompleted id) (sym (rw run at (select-keeps plan db))) h)
          | inl (target, t, run) ↦
              let k : HasCompleted id t =
                subst (HasCompleted id) (sym (rw run at (select-keeps plan db))) h in
              let params = params_of user order plan target h.order in
              let kept =
                provision-keeps (HasCompleted id)
                  (λ d ss es k. record { order = k.order; found = k.found; done = k.done }) uuid now
                  params t k in
              rw run (elim (Result-cases (provision_in_transaction uuid now params t)) [
                | inr (e, t', run') ↦ rw run' (rw run' at kept)
                | inl (s, t', run') ↦ rw run' (deliver-keeps h.order s id t' (rw run' at kept))
              ])
        ]))
  ]
