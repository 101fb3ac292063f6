-- ===== src/Payments/Receipts.antt =====
-- Receipts of card-to-card payments (`submitReceipt` and `verifyReceipt` of
-- src/modules/payments/payments.service.ts).
use vpn_saas.Base.{
  ℕ, Bool, true, false, ◌&&◌, ◌||◌, not, Option, none, some, List, String, ◌==◌, str_eq,
}
use vpn_saas.Base.Int.{ℤ}
use vpn_saas.Base.Table.{find, update, update_many, count, create}
use vpn_saas.Store.{
  Action, pure, gets, or_throw, throw_if, modify, if_action, when, when_some, ◌>>=◌, ◌>>◌, Failure,
  business, ErrorCode, fresh_id, is_none, is_some, unique_violation, with_transaction, on_error,
  audit,
}
use vpn_saas.Store.Rows.{
  Payment, PaymentStatus, PaymentMethod, Receipt, ReceiptStatus, approved, rejected,
}
use vpn_saas.Orders.Commission.{Conversions}
use vpn_saas.Payments
use vpn_saas.Payments.{
  Services, Uuids, SettlementResult, settle_payment_in_transaction, finish_settlement,
  payment_by_id, claimable,
}

unfoldable pub get_owned_payment : String → ℕ → Action Payment
get_owned_payment public_id user = do
  p ←
      or_throw (← gets (λ db. find (Payments.has_public_id public_id) db.payments))
        (business ErrorCode.not_found "Payment not found")
  throw_if (not (p.user_id == user)) (business ErrorCode.forbidden "Not your payment")
  pure p

abbrev is_card_to_card : PaymentMethod → Bool
is_card_to_card PaymentMethod.card_to_card = true
is_card_to_card _ = false

pub record ReceiptInput : Type 0 where
  pub user_id : ℕ
  pub payment_public_id : String
  pub payer_name : String
  pub card_number : Option String
  pub amount : Option ℤ
  pub file_key : String

abbrev pub new_receipt : String → ReceiptInput → Payment → List Receipt → Receipt
new_receipt uuid input p rs = record {
  id = fresh_id (λ (r : Receipt). r.id) rs;
  public_id = uuid;
  payment_id = p.id;
  order_id = p.order_id;
  user_id = p.user_id;
  status = ReceiptStatus.pending;
  payer_name = input.payer_name;
  card_number = input.card_number;
  amount = input.amount;
  file_key = input.file_key;
  verified_by_id = none;
  verified_at = none;
  rejection_reason = none;
}

abbrev pub with_status : PaymentStatus → Payment → Payment
with_status s p = record p { status = s }

abbrev of_payment : ℕ → Receipt → Bool
of_payment payment r = r.payment_id == payment

-- A payment has one receipt at most.
unfoldable pub submit_receipt : String → ReceiptInput → Action Receipt
submit_receipt uuid input = do
  p ← get_owned_payment input.payment_public_id input.user_id
  throw_if (not (is_card_to_card p.method))
      (business ErrorCode.conflict "Receipts only apply to card-to-card payments")
  throw_if (← gets (λ db. is_some (find (of_payment p.id) db.receipts))) unique_violation
  r ← gets (λ db. new_receipt uuid input p db.receipts)
  modify (λ db. record db { receipts = create r db.receipts })
  modify (λ db. record db {
    payments =
        update (Payments.has_id p.id) (with_status PaymentStatus.awaiting_verify) db.payments;
  })
  pure r

-- The decision of the admin.
pub data Verdict : Type 0 where
  approve reject : Verdict

pub record VerifyInput : Type 0 where
  pub admin_id : ℕ
  pub receipt_public_id : String
  pub verdict : Verdict
  pub admin_note : Option String

pub record Decision : Type 0 where
  pub receipt : Receipt
  pub payment : Payment
  pub applied : Bool
  pub settlement : Option SettlementResult

abbrev pub has_id : ℕ → Receipt → Bool
has_id id r = r.id == id

abbrev pub has_public_id : String → Receipt → Bool
has_public_id public_id r = str_eq r.public_id public_id

abbrev pub is_pending : ReceiptStatus → Bool
is_pending ReceiptStatus.pending = true
is_pending _ = false

-- The receipt's status is the one that the decision asks for.
abbrev pub agrees : Verdict → ReceiptStatus → Bool
agrees approve approved = true
agrees reject rejected = true
agrees _ _ = false

abbrev pub undecided : ℕ → Receipt → Bool
undecided id r = has_id id r && is_pending r.status

abbrev pub decided : ℕ → VerifyInput → Verdict → Receipt → Receipt
decided now input approve r = record r {
  status = approved;
  verified_by_id = some input.admin_id;
  verified_at = some now;
  rejection_reason = none;
}
decided now input reject r = record r {
  status = rejected;
  verified_by_id = some input.admin_id;
  verified_at = some now;
  rejection_reason = input.admin_note;
}

module _ (js : Conversions) (u : Uuids) (now : ℕ) where
  abbrev pub settle_if : Verdict → ℕ → Action (Option SettlementResult)
  settle_if approve id = do s ← settle_payment_in_transaction js u now none id; pure (some s)
  settle_if reject id = pure none

  -- The payment is settled, or it is rejected where it is still open.
  unfoldable pub carry_out : Verdict → ℕ → Action (Option SettlementResult)
  carry_out approve id = settle_if approve id
  carry_out reject id = do
    n ← gets (λ db. count (claimable id) db.payments)
    modify (λ db. record db {
      payments = update_many (claimable id) (with_status PaymentStatus.rejected) db.payments;
    })
    throw_if (not (n == 1)) (business ErrorCode.conflict "Payment is no longer rejectable")
    pure none

  abbrev pub other_decision : Failure
  other_decision = business ErrorCode.conflict "Receipt already has a different decision"

  -- A receipt that has a decision: the same one settles again, another one is refused.
  unfoldable pub repeat_decision : Verdict → Receipt → Payment → Action Decision
  repeat_decision verdict r p = do
    throw_if (not (agrees verdict r.status)) other_decision
    s ← settle_if verdict r.payment_id
    pure (record { receipt = r; payment = p; applied = false; settlement = s })

  unfoldable pub apply_decision : VerifyInput → Receipt → Action Decision
  apply_decision input r = do
    n ← gets (λ db. count (undecided r.id) db.receipts)
    modify (λ db. record db {
      receipts = update_many (undecided r.id) (decided now input input.verdict) db.receipts;
    })
    throw_if (not (n == 1)) (business ErrorCode.conflict "Receipt decision is in progress")
    s ← carry_out input.verdict r.payment_id
    found ← gets (λ db. find (has_id r.id) db.receipts)
    updated ← or_throw found Failure.record_not_found
    p ← payment_by_id r.payment_id
    pure (record { receipt = updated; payment = p; applied = true; settlement = s })

  unfoldable pub decide : VerifyInput → Action Decision
  decide input = do
    r ←
        or_throw (← gets (λ db. find (has_public_id input.receipt_public_id) db.receipts))
          (business ErrorCode.not_found "Receipt not found")
    p ← payment_by_id r.payment_id
    if_action (is_pending r.status) (apply_decision input r) (repeat_decision input.verdict r p)

  abbrev audit_action : Verdict → String
  audit_action approve = "APPROVE"
  audit_action reject = "REJECT"

  abbrev user_event : Verdict → String
  user_event approve = "PAYMENT_APPROVED"
  user_event reject = "PAYMENT_REJECTED"

  abbrev is_reject : Verdict → Bool
  is_reject reject = true
  is_reject approve = false

  -- The log of an applied decision, and the user's notification, whose failure is only logged.
  abbrev tell : Services → VerifyInput → Decision → Action (Unit {0})
  tell svc input d = do
    audit (some input.admin_id) (audit_action input.verdict) "receipts" d.receipt.public_id
    when (is_reject input.verdict || is_none d.payment.order_id)
        (on_error (svc.notify_user d.payment.user_id (user_event input.verdict)) (λ e. pure tt))

  unfoldable pub verify_receipt : Services → VerifyInput → Action (Receipt × Payment)
  verify_receipt svc input = do
    d ← with_transaction (decide input)
    when_some d.settlement (finish_settlement svc)
    when d.applied (tell svc input d)
    pure (d.receipt, d.payment)
