-- ===== src/Subscriptions/Frame.antt =====
-- The tables that the provisioning of a subscription writes (`provisionInTransaction` of
-- src/modules/subscriptions/subscriptions.service.ts).
use vpn_saas.Base.{ℕ, List, String, Option, none, some, ◌==◌, inl, inr, Bool-cases, Option-cases}
use vpn_saas.Base.Table.{find}
use vpn_saas.Store.Rows.{Plan, Subscription, SubscriptionEvent, Db}
use vpn_saas.Subscriptions.{
  ProvisionParams, provision_in_transaction, renew_subscription, create_subscription, is_renewal,
  taken,
}

-- A property that does not look at the two tables is kept.
module _ (P : Db → Type 0)
    (frame : (db : Db) (ss : List Subscription) (es : List SubscriptionEvent)
      → P db
      → P (record db { subscriptions = ss; events = es })) where
  renew-keeps :
      (now : ℕ) (params : ProvisionParams) (plan : Plan) (existing : Option Subscription) (db : Db)
      → P db
      → P (renew_subscription now params plan existing db).1
  unfolding renew_subscription
  renew-keeps now params plan none db h = h
  renew-keeps now params plan (some s) db h = elim (Bool-cases (s.user_id == params.user_id)) [
    | inr other ↦ rw other h
    | inl own ↦ rw own (elim (Bool-cases (s.plan_id == plan.id)) [
      | inr other ↦ rw other h
      | inl same ↦ rw same (frame db _ _ h)
    ])
  ]

  create-keeps :
      (uuid : String) (now : ℕ) (params : ProvisionParams) (plan : Plan) (db : Db)
      → P db
      → P (create_subscription uuid now params plan db).1
  unfolding create_subscription
  create-keeps uuid now params plan db h =
      elim (Bool-cases (taken params.order_id db.subscriptions)) [
        | inl twice ↦ rw twice h
        | inr once ↦ rw once (frame db _ _ h)
      ]

  pub provision-keeps :
      (uuid : String) (now : ℕ) (params : ProvisionParams) (db : Db)
      → P db
      → P (provision_in_transaction uuid now params db).1
  unfolding provision_in_transaction
  provision-keeps uuid now params db h =
      elim (Option-cases (find (λ (p : Plan). p.id == params.plan_id) db.plans)) [
        | inl missing ↦ rw missing h
        | inr (plan, found) ↦ rw found (elim (Bool-cases (is_renewal params.type)) [
          | inl again ↦ rw again (renew-keeps now params plan _ db h)
          | inr first ↦ rw first (create-keeps uuid now params plan db h)
        ])
      ]
