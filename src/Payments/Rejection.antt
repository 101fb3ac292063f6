-- ===== src/Payments/Rejection.antt =====
-- Rejected receipts (`verifyReceipt` of src/modules/payments/payments.service.ts).
use vpn_saas.Base.{ℕ, ◌≡◌, refl, ◌∙◌, true, Option, none, some}
use vpn_saas.Base.Table.{find, count, update_many}
use vpn_saas.Base.Table.Laws.{
  count-claim, find-claim, find_sound, find-update_many, count-update_many_key,
}
use vpn_saas.Store.{ok, err, business, ErrorCode}
use vpn_saas.Store.Rows.{Payment, PaymentStatus, Receipt, rejected, Db}
use vpn_saas.Orders.Commission.{Conversions}
use vpn_saas.Payments
use vpn_saas.Payments.{
  Services, Uuids, GatewayResult, is_open, is_confirmed, claimable, confirm_payment,
}
use vpn_saas.Payments.Receipts.{
  approve, reject, VerifyInput, Decision, decide, apply_decision, repeat_decision, carry_out,
  decided, undecided, is_pending, has_id, has_public_id, with_status,
}
use vpn_saas.Payments.Settle.{confirm_payment_refused}

-- The database after a rejection.
abbrev with_rejection : ℕ → VerifyInput → Receipt → Db → Db
with_rejection now input r db = record db {
  receipts = update_many (undecided r.id) (decided now input reject) db.receipts;
  payments = update_many (claimable r.payment_id) (with_status PaymentStatus.rejected) db.payments;
}

module _ (js : Conversions) (u : Uuids) (now : ℕ) (input : VerifyInput) (db : Db) {r : Receipt}
    {p : Payment} (asks : input.verdict ≡ reject)
    (found : find (has_public_id input.receipt_public_id) db.receipts ≡ some r)
    (own : find (has_id r.id) db.receipts ≡ some r) (one : count (has_id r.id) db.receipts ≡ 1)
    (waits : is_pending r.status ≡ true)
    (paid : find (Payments.has_id r.payment_id) db.payments ≡ some p)
    (one_paid : count (Payments.has_id r.payment_id) db.payments ≡ 1)
    (unsettled : is_open p.status ≡ true) where
  rejected_payment :
      find (Payments.has_id r.payment_id) (with_rejection now input r db).payments
      ≡ some (with_status PaymentStatus.rejected p)
  rejected_payment =
      find-claim (Payments.has_id r.payment_id) (λ (p : Payment). is_open p.status)
        (with_status PaymentStatus.rejected) db.payments paid unsettled
        (find_sound (Payments.has_id r.payment_id) db.payments paid)

  reject_run : decide js u now input db ≡ (
    ok (record {
      receipt = decided now input reject r;
      payment = with_status PaymentStatus.rejected p;
      applied = true;
      settlement = none;
    }),
    with_rejection now input r db,
  )
  unfolding decide apply_decision carry_out
  reject_run =
      let claims : count (undecided r.id) db.receipts ≡ 1 =
        count-claim (has_id r.id) (λ (r : Receipt). is_pending r.status) db.receipts own one
        ∙ rw waits refl in
      let claims_payment : count (claimable r.payment_id) db.payments ≡ 1 =
        count-claim (Payments.has_id r.payment_id) (λ (p : Payment). is_open p.status) db.payments
          paid one_paid
        ∙ rw unsettled refl in
      let receipt : find (has_id r.id) (with_rejection now input r db).receipts
          ≡ some (decided now input reject r) =
        find-claim (has_id r.id) (λ (r : Receipt). is_pending r.status) (decided now input reject)
          db.receipts own waits (find_sound (has_id r.id) db.receipts own) in
      rw found (
        rw (paid, waits)
          (rw (claims, asks) (rw claims_payment (rw receipt (rw rejected_payment refl)))))

  -- The public id is kept, and the receipt is no longer pending.
  reject_again :
      (js' : Conversions) (u' : Uuids) (now' : ℕ) (input' : VerifyInput)
      → input'.receipt_public_id ≡ input.receipt_public_id
      → input'.verdict ≡ approve
      → decide js' u' now' input' (with_rejection now input r db) ≡ (
        err (business ErrorCode.conflict "Receipt already has a different decision"),
        with_rejection now input r db,
      )
  unfolding decide repeat_decision
  reject_again js' u' now' input' same asks' =
      let receipt : find (has_public_id input.receipt_public_id)
            (with_rejection now input r db).receipts
          ≡ some (decided now input reject r) =
        find-update_many (undecided r.id) (has_public_id input.receipt_public_id)
          (decided now input reject) db.receipts found
          (rw (find_sound (has_id r.id) db.receipts own, waits) refl) (λ x. refl) in
      rw same (rw receipt (rw rejected_payment (rw asks' refl)))

  -- An admin rejects a pending receipt whose payment is open (receipt and payment being the only ones
  -- with their ids). The decision is carried out: the receipt and the payment are REJECTED, and no
  -- wallet, transaction, order or subscription changes. It is final: approving the receipt
  -- afterwards is refused, and so is confirming the payment by whatever way, both without any effect.
  pub decide_reject_final :
      (svc : Services) (js' : Conversions) (u' : Uuids) (now' : ℕ) (input' : VerifyInput)
      (result : Option GatewayResult)
      → input'.receipt_public_id ≡ input.receipt_public_id
      → input'.verdict ≡ approve
      → (d : Decision) × (after : Db) × (decide js u now input db ≡ (ok d, after))
        × (d.receipt.status ≡ rejected)
        × (d.payment.status ≡ PaymentStatus.rejected)
        × (after ≡ (record db { receipts = after.receipts; payments = after.payments }))
        × (decide js' u' now' input' after
            ≡ (err (business ErrorCode.conflict "Receipt already has a different decision"), after))
        × (confirm_payment svc js' u' now' r.payment_id result after
            ≡ (err (business ErrorCode.conflict "Payment is not confirmable"), after))
  decide_reject_final svc js' u' now' input' result same asks' =
      let kept =
        count-update_many_key (Payments.has_id r.payment_id) (λ (p : Payment). is_open p.status)
          (with_status PaymentStatus.rejected) db.payments (λ x h. h) in
      (
        record {
          receipt = decided now input reject r;
          payment = with_status PaymentStatus.rejected p;
          applied = true;
          settlement = none;
        },
        with_rejection now input r db,
        reject_run,
        refl,
        refl,
        refl,
        reject_again js' u' now' input' same asks',
        confirm_payment_refused svc js' u' now' r.payment_id result (with_rejection now input r db)
            rejected_payment (kept ∙ one_paid) refl refl,
      )
