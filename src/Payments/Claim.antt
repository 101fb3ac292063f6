-- ===== src/Payments/Claim.antt =====
-- The results of the payments and the claim of a payment (`claimPayment` of
-- src/modules/payments/payments.service.ts).
use vpn_saas.Base.{ℕ, Bool, true, false, ◌&&◌, not, Option, none, some, String, ◌==◌, str_eq}
use vpn_saas.Base.Table.{find, update, update_many, count}
use vpn_saas.Store.{
  Action, pure, gets, or_throw, throw_if, modify, if_action, ◌>>=◌, ◌>>◌, Failure, business,
  ErrorCode,
}
use vpn_saas.Store.Rows.{
  Payment, PaymentStatus, initiated, awaiting_verify, confirmed, Subscription, Db,
}
use vpn_saas.Orders.{OrderDto}

-- What the other services do for a settlement, and the link that a subscription's VPN user has.
pub record Services : Type 0 where
  pub create_vpn_user : ℕ → Action (Unit {0})
  pub notify_settlement : Payment → String → Action (Unit {0})
  pub notify_user : ℕ → String → Action (Unit {0})
  pub vpn_link : ℕ → Db → Option String

-- The identifiers that one settlement draws.
pub record Uuids : Type 0 where
  pub payment : String
  pub movement : String
  pub subscription : String
  pub commission : String

pub record GatewayResult : Type 0 where
  pub verification_code : Option ℕ
  pub reference : Option String

pub record OrderResult : Type 0 where
  pub order : OrderDto
  pub subscription : Option Subscription

pub record SettlementResult : Type 0 where
  pub payment : Payment
  pub order_result : Option OrderResult
  pub provisioning_subscription_id : Option ℕ
  pub settled : Bool

abbrev pub has_id : ℕ → Payment → Bool
has_id id p = p.id == id

abbrev pub has_public_id : String → Payment → Bool
has_public_id public_id p = str_eq p.public_id public_id

-- INITIATED, PENDING and AWAITING_VERIFY
abbrev pub is_open : PaymentStatus → Bool
is_open initiated = true
is_open PaymentStatus.pending = true
is_open awaiting_verify = true
is_open _ = false

abbrev pub is_confirmed : PaymentStatus → Bool
is_confirmed confirmed = true
is_confirmed _ = false

abbrev pub claimable : ℕ → Payment → Bool
claimable id p = has_id id p && is_open p.status

-- `undefined` leaves a column as it is.
abbrev pub kept {ℓ} : {A : Type ℓ} → Option A → Option A → Option A
kept none old = old
kept (some a) old = some a

abbrev pub verified : GatewayResult → Payment → Payment
verified r p = record p {
  gateway_status = some "VERIFIED";
  gateway_verify_code = kept r.verification_code p.gateway_verify_code;
  gateway_ref_id = kept r.reference p.gateway_ref_id;
}

abbrev pub confirmed_with : ℕ → Option GatewayResult → Payment → Payment
confirmed_with now none p = record p { status = confirmed; confirmed_at = some now }
confirmed_with now (some r) p =
    let q = verified r p in record q { status = confirmed; confirmed_at = some now }

abbrev pub payment_by_id : ℕ → Action Payment
payment_by_id id = do
  found ← gets (λ db. find (has_id id) db.payments)
  or_throw found Failure.record_not_found

-- A gateway's result for a payment that is confirmed already.
abbrev pub note_result : Option GatewayResult → Payment → Action Payment
note_result none p = pure p
note_result (some r) p = do
  modify (λ db. record db { payments = update (has_id p.id) (verified r) db.payments })
  pure (verified r p)

-- The payment as the rest of the settlement sees it: the row as it was read before the claim.
unfoldable pub claim_payment : ℕ → Option GatewayResult → ℕ → Action Payment
claim_payment now result id = do
  p ← payment_by_id id
  if_action (is_confirmed p.status) (note_result result p) do
    n ← gets (λ db. count (claimable id) db.payments)
    modify (λ db. record db {
      payments = update_many (claimable id) (confirmed_with now result) db.payments;
    })
    if_action (n == 1) (pure p) do
      again ← payment_by_id id
      throw_if (not (is_confirmed again.status))
          (business ErrorCode.conflict "Payment is not confirmable")
      pure again
