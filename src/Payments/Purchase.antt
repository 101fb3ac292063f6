-- ===== src/Payments/Purchase.antt =====
-- An order that the wallet cannot pay for (`payOrderWithWallet` of
-- src/modules/payments/payments.service.ts).
use vpn_saas.Base.{
  ℕ, ◌≡◌, refl, ap, ◌∙◌, Bool, true, false, not, Option, none, some, List, String, ◌==◌,
  if◌then◌else◌, inl, inr, Bool-cases, arith, ==-refl,
}
use vpn_saas.Base.Int.{◌<ℤ◌}
use vpn_saas.Base.Table.{find}
use vpn_saas.Store.{err, fresh_id}
use vpn_saas.Store.Rows.{Payment, Order, Plan, WalletTransaction, Db}
use vpn_saas.Orders
use vpn_saas.Orders.{plan_by_id}
use vpn_saas.Orders.Commission.{Conversions}
use vpn_saas.Wallet.{recorded, has_payment, wallet_of, insufficient}
use vpn_saas.Wallet.Mutation.{mutate-short, moved-short}
use vpn_saas.Payments.{
  Services, Uuids, wallet_payment, purchase_of, charge_order, pay_in_transaction,
  pay_order_with_wallet,
}

recorded-none :
    (n : ℕ) (ts : List WalletTransaction)
    → find (has_payment n) ts ≡ none
    → recorded (some n) ts ≡ none
recorded-none n ts h = elim (Bool-cases (n == 0)) [
  | inl nought ↦ rw nought refl
  | inr other ↦ rw other h
]

-- A pending order of the user, whose plan exists, that costs more than the user's main balance:
-- `payOrderWithWallet` throws `WALLET_INSUFFICIENT_FUNDS` and leaves the whole database as it was,
-- without the payment that it had created, as long as no transaction names the payment's new id.
pub pay_order_with_wallet-insufficient :
    (svc : Services) (is_uuid : String → Bool) (js : Conversions) (u : Uuids) (now : ℕ)
    (public_id : String) (db : Db) {o : Order} {plan : Plan}
    → is_uuid public_id ≡ true
    → find (Orders.has_public_id public_id) db.orders ≡ some o
    → Orders.is_pending o.status ≡ true
    → plan_by_id o.plan_id db ≡ some plan
    → find (has_payment (fresh_id (λ (p : Payment). p.id) db.payments)) db.transactions ≡ none
    → (wallet_of o.user_id db.wallets).balance <ℤ o.total_amount
    → pay_order_with_wallet svc is_uuid js u now public_id o.user_id db ≡ (err insufficient, db)
unfolding pay_order_with_wallet pay_in_transaction charge_order
pay_order_with_wallet-insufficient svc is_uuid js u now public_id db {o} {plan} valid found due
      plan_found new short =
    let p = wallet_payment u.payment o.user_id o db.payments in
    let m = purchase_of o.user_id o plan p in
    let d1 : Db = record db { payments = vpn_saas.Base.Table.create p db.payments } in
    rw valid (
      rw found (
        rw (==-refl o.user_id, due)
          (rw plan_found (
            rw
              (mutate-short u.movement m d1 (recorded-none p.id db.transactions new)
                (moved-short m (wallet_of o.user_id db.wallets) refl short))
              refl))))
