-- ===== src/Payments/Settle.antt =====
-- The settlement of a top-up (`confirmPayment` of src/modules/payments/payments.service.ts).
mod TopUp
unfoldable pub use TopUp.*
use vpn_saas.Base.{
  ℕ, ◌≡◌, refl, ◌∙◌, Bool, true, false, Option, none, some, String, if◌then◌else◌, inl, arith, ◌≤◌,
  ==-refl,
}
use vpn_saas.Base.Table.{find, count, update_many}
use vpn_saas.Base.Table.Laws.{
  count-claim, update_many-none, find-claim, find_sound, find-create_new,
}
use vpn_saas.Store.{ok, err, business, ErrorCode, truthy, audit}
use vpn_saas.Store.Rows.{
  Payment, PaymentStatus, initiated, awaiting_verify, confirmed, rejected, expired, cancelled,
  refunded, WalletTransaction, Db,
}
use vpn_saas.Wallet.{recorded, has_payment, opened, txn_of}
use vpn_saas.Wallet.Mutation.{posted, mutate-recorded, mutate-posted, moved-covered}
use vpn_saas.Wallet.Moves.{HasMoved, posted-HasMoved, covered_move, posted-opened, before}
use vpn_saas.Payments.{
  Services, Uuids, GatewayResult, SettlementResult, has_id, is_open, is_confirmed, claimable,
  claim_payment, settle_payment_in_transaction, confirm_payment, top_up, top_up_of, confirmed_with,
  finish_settlement,
}
use vpn_saas.Orders.Commission.{Conversions}

-- A payment that is neither open nor confirmed (rejected, cancelled, expired or refunded), the only
-- one with its id, cannot be confirmed: the call throws `Payment is not confirmable`, no money
-- moves, no order completes and no service is called, so the whole database is as it was.
pub confirm_payment_refused :
    (svc : Services) (js : Conversions) (u : Uuids) (now id : ℕ) (result : Option GatewayResult)
    (db : Db) {p : Payment}
    → find (has_id id) db.payments ≡ some p
    → count (has_id id) db.payments ≡ 1
    → is_open p.status ≡ false
    → is_confirmed p.status ≡ false
    → confirm_payment svc js u now id result db
      ≡ (err (business ErrorCode.conflict "Payment is not confirmable"), db)
unfolding confirm_payment settle_payment_in_transaction claim_payment
confirm_payment_refused svc js u now id result db {p} found one closed unpaid =
    let none_left : count (claimable id) db.payments ≡ 0 =
      count-claim (has_id id) (λ (p : Payment). is_open p.status) db.payments found one
      ∙ rw closed refl in
    rw found (
      rw unpaid (
        rw
          (
            none_left,
            update_many-none (claimable id) (confirmed_with now result) db.payments none_left,
          )
          (rw found (rw unpaid refl))))

module _ (svc : Services) (js : Conversions) (u : Uuids) (now id : ℕ)
    (result : Option GatewayResult) (db : Db) where
  confirm-first :
      {p : Payment}
      → claim_payment now result id db ≡ (ok p, with_claim now result id db)
      → truthy p.order_id ≡ none
      → find (has_payment p.id) db.transactions ≡ none
      → 1 ≤ p.id
      → confirm_payment svc js u now id result db
        ≡ (ok tt, logged p (with_top_up u.movement p (with_claim now result id db)))
  unfolding confirm_payment settle_payment_in_transaction
  confirm-first {p} run topup new real = rw run (
      rw topup (
        rw (top_up_first u.movement p (with_claim now result id db) new real) (
          finish-topped_up svc p true (with_top_up u.movement p (with_claim now result id db))
            topup)))

  confirm-again :
      {p : Payment} {t : WalletTransaction}
      → find (has_id id) db.payments ≡ some p
      → is_confirmed p.status ≡ true
      → truthy p.order_id ≡ none
      → find (has_payment p.id) db.transactions ≡ some t
      → 1 ≤ p.id
      → opened p.user_id db.wallets ≡ db.wallets
      → confirm_payment svc js u now id none db ≡ (ok tt, db)
  unfolding confirm_payment settle_payment_in_transaction claim_payment
  confirm-again {p} found done topup known real there = rw found (
      rw done (
        rw topup (
          rw (top_up_again u.movement p db known real there)
            (finish-topped_up svc p false db topup))))

-- A top-up by an open payment, the only one with its id, which is not 0, and of which no transaction
-- is recorded yet: `confirmPayment` returns, the main balance of the payment's user grows by exactly
-- its amount, with one transaction appended, the other balance and the wallets of other users stay,
-- the payment is confirmed at the time of the call, and no order or subscription changes.
-- Confirming the payment again without a gateway's result, at any time, returns and changes nothing
-- at all.
pub confirm_payment_top_up :
    (svc svc' : Services) (js js' : Conversions) (u u' : Uuids) (now now' id : ℕ)
    (result : Option GatewayResult) (db : Db) {p : Payment}
    → find (has_id id) db.payments ≡ some p
    → count (has_id id) db.payments ≡ 1
    → is_open p.status ≡ true
    → truthy p.order_id ≡ none
    → find (has_payment p.id) db.transactions ≡ none
    → 1 ≤ p.id
    → (after : Db) × (confirm_payment svc js u now id result db ≡ (ok tt, after))
      × HasMoved (top_up_of p) p.amount db after
      × (find (has_id id) after.payments ≡ some (confirmed_with now result p))
      × (after.orders ≡ db.orders)
      × (after.subscriptions ≡ db.subscriptions)
      × (confirm_payment svc' js' u' now' id none after ≡ (ok tt, after))
confirm_payment_top_up svc svc' js js' u u' now now' id result db {p} found one unsettled topup new
      real =
    let claim = claim_run now id result db found one unsettled in
    let d1 = with_claim now result id db in
    let d2 = with_top_up u.movement p d1 in
    let h : HasMoved (top_up_of p) p.amount d1 d2 = posted-HasMoved u.movement (top_up_of p) d1 in
    let q = confirmed_with now result p in
    let (q_confirmed, q_id, q_order, q_user) = claimed_fields now result p in
    let reads : find (has_id id) d2.payments ≡ some q =
      claim-found now id result db found one unsettled in
    let t =
      txn_of u.movement (top_up_of p) (before (top_up_of p) d1).id (covered_move (top_up_of p) d1)
        d1.transactions in
    let paid : has_payment p.id t ≡ true = ==-refl p.id in
    let known : find (has_payment p.id) d2.transactions ≡ some t =
      find-create_new (has_payment p.id) t db.transactions new ∙ rw paid refl in
    let there : opened p.user_id d2.wallets ≡ d2.wallets =
      posted-opened u.movement (top_up_of p) (covered_move (top_up_of p) d1) d1 in
    (
      logged p d2,
      confirm-first svc js u now id result db claim topup new real,
      record {
        moved_purse = h.moved_purse;
        kept_purse = h.kept_purse;
        others = h.others;
        txn = h.txn;
        appended = h.appended;
        of_wallet = h.of_wallet;
        amount = h.amount;
        starts_from = h.starts_from;
        ends_at = h.ends_at;
      },
      reads,
      refl,
      refl,
      confirm-again svc' js' u' now' id none (logged p d2) {p = q} {t = t} reads q_confirmed
          (rw q_order topup) (rw q_id known) (rw q_id real) (rw q_user there),
    )
