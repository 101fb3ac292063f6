-- ===== src/Payments.antt =====
-- PaymentsService (src/modules/payments/payments.service.ts): the settlement of a payment, which
-- completes its order or tops up the wallet, what follows it after the commit, and the payment of
-- an order from the wallet. The creation of the VPN user and the notifications are operations of
-- other services and are taken as they are.
pub mod Receipts
pub mod Online
pub mod Callback
pub mod Initiate
pub mod Amounts
pub mod Settle
pub mod Rejection
pub mod Purchase
mod Claim
unfoldable pub use Claim.*
use vpn_saas.Base.{
  ℕ, Bool, true, false, ◌&&◌, ◌||◌, not, Option, none, some, List, String, ◌==◌, str_eq,
}
use Prim.Native.String.{◌++◌ as text_append}
use vpn_saas.Base.Int.{ℤ}
use vpn_saas.Base.Table.{find, update, update_many, count, create}
use vpn_saas.Store.{
  Action, pure, throw, gets, or_throw, throw_if, modify, if_action, when, ◌>>=◌, ◌>>◌, Failure,
  business, ErrorCode, truthy, fresh_id, is_none, is_some, with_transaction, on_error, audit,
}
use vpn_saas.Store.Rows.{
  Plan, Order, Payment, PaymentStatus, initiated, awaiting_verify, confirmed, PaymentMethod,
  Subscription, WalletTransaction, WalletTxnType, Db,
}
use vpn_saas.Orders
use vpn_saas.Orders.{Completion, OrderDto, complete_order_in_transaction, plan_by_id}
use vpn_saas.Orders.Commission.{Conversions}
use vpn_saas.Subscriptions
use vpn_saas.Wallet.{
  WalletMutation, mutate_balance_in_transaction, mutation, Options, credit, debit, has_payment,
}

abbrev method_name : PaymentMethod → String
method_name PaymentMethod.online = "ONLINE"
method_name PaymentMethod.card_to_card = "CARD_TO_CARD"
method_name PaymentMethod.crypto = "CRYPTO"
method_name PaymentMethod.wallet = "WALLET"
method_name PaymentMethod.gift_balance = "GIFT_BALANCE"
method_name PaymentMethod.voucher = "VOUCHER"
method_name PaymentMethod.referral_reward = "REFERRAL_REWARD"

abbrev pub top_up_of : Payment → WalletMutation
top_up_of p = mutation credit p.user_id p.amount WalletTxnType.deposit (record {
  description = some (text_append "Wallet top-up (" (text_append (method_name p.method) ")"));
  reference = some p.public_id;
  payment_id = some p.id;
  order_id = none;
  use_gift_balance = false;
})

unfoldable pub top_up : String → Payment → Action SettlementResult
top_up uuid p = do
  existing ← gets (λ db. find (has_payment p.id) db.transactions)
  mutate_balance_in_transaction uuid (top_up_of p)
  pure (record {
    payment = p;
    order_result = none;
    provisioning_subscription_id = none;
    settled = is_none existing;
  })

abbrev id_of : Option Subscription → Option ℕ
id_of none = none
id_of (some s) = some s.id

abbrev pub settlement_of : Payment → Completion → SettlementResult
settlement_of p c = record {
  payment = p;
  order_result = some (record { order = c.order; subscription = c.subscription });
  provisioning_subscription_id = id_of c.subscription;
  settled = c.provisioning_required;
}

abbrev pub settle_claimed : Conversions → Uuids → ℕ → Payment → Option ℕ → Action SettlementResult
settle_claimed js u now p none = top_up u.movement p
settle_claimed js u now p (some order) = do
  c ← complete_order_in_transaction js u.subscription u.commission now order p.user_id
  pure (settlement_of p c)

unfoldable pub settle_payment_in_transaction :
    Conversions → Uuids → ℕ → Option GatewayResult → ℕ → Action SettlementResult
settle_payment_in_transaction js u now result id = do
  p ← claim_payment now result id
  settle_claimed js u now p (truthy p.order_id)

abbrev is_wallet : PaymentMethod → Bool
is_wallet PaymentMethod.wallet = true
is_wallet _ = false

-- A payment for an order by another method than the wallet.
abbrev is_announced : Payment → Bool
is_announced p = is_some (truthy p.order_id) && not (is_wallet p.method)

abbrev provision_after_settlement : Services → SettlementResult → Option ℕ → Action (Unit {0})
provision_after_settlement svc s none = pure tt
provision_after_settlement svc s (some id) = svc.create_vpn_user id

abbrev pub is_text : Option String → Bool
is_text none = false
is_text (some t) = not (str_eq t "")

-- `subscription.subscriptionLink ?? subscription.vpnUser.subLink`
abbrev link_of : Services → Subscription → Db → Option String
link_of svc s db = kept s.subscription_link (svc.vpn_link s.id db)

abbrev is_ready : Services → Option Subscription → Db → Bool
is_ready svc none db = false
is_ready svc (some s) db = is_text (link_of svc s db)

abbrev provisioned : Option ℕ → Db → Option Subscription
provisioned none db = none
provisioned (some id) db = find (Subscriptions.has_id id) db.subscriptions

abbrev pub incomplete : Failure
incomplete = business ErrorCode.conflict "Subscription provisioning is not complete"

abbrev announce : Services → SettlementResult → Action (Unit {0})
announce svc s = do
  ready ← gets (λ db. is_ready svc (provisioned s.provisioning_subscription_id db) db)
  if_action ready (svc.notify_settlement s.payment "PURCHASE_COMPLETED")
      do svc.notify_settlement s.payment "PROVISIONING_PENDING"; throw incomplete

-- What follows the commit; a notification that fails here does not hide why provisioning failed.
unfoldable pub finish_settlement : Services → SettlementResult → Action (Unit {0})
finish_settlement svc s = do
  when s.settled (audit none "ACTIVATE" "payments" s.payment.public_id)
  on_error (provision_after_settlement svc s (truthy s.provisioning_subscription_id)) λ e. do
    when (is_announced s.payment)
        (on_error (svc.notify_settlement s.payment "PROVISIONING_PENDING") (λ e'. pure tt))
    throw e
  when (is_announced s.payment) (announce svc s)

unfoldable pub confirm_payment :
    Services → Conversions → Uuids → ℕ → ℕ → Option GatewayResult → Action (Unit {0})
confirm_payment svc js u now id result = do
  s ← with_transaction (settle_payment_in_transaction js u now result id)
  finish_settlement svc s

-- The row of `payment.create` for an order that the wallet pays.
abbrev pub wallet_payment : String → ℕ → Order → List Payment → Payment
wallet_payment uuid user o ps = record {
  id = fresh_id (λ (p : Payment). p.id) ps;
  public_id = uuid;
  order_id = some o.id;
  user_id = user;
  method = PaymentMethod.wallet;
  status = PaymentStatus.pending;
  amount = o.total_amount;
  currency = o.currency;
  gateway = none;
  gateway_ref = none;
  gateway_status = none;
  gateway_verify_code = none;
  gateway_ref_id = none;
  confirmed_at = none;
}

abbrev pub purchase_of : ℕ → Order → Plan → Payment → WalletMutation
purchase_of user o plan p = mutation debit user o.total_amount WalletTxnType.purchase (record {
  description = some (text_append "Purchase: " plan.name);
  reference = some o.public_id;
  payment_id = some p.id;
  order_id = some o.id;
  use_gift_balance = false;
})

-- The writes that pay for an order which the checks have let through.
unfoldable pub charge_order : Conversions → Uuids → ℕ → ℕ → Order → Action SettlementResult
charge_order js u now user o = do
  p ← gets (λ db. wallet_payment u.payment user o db.payments)
  modify (λ db. record db { payments = create p db.payments })
  plan ← or_throw (← gets (plan_by_id o.plan_id)) Failure.type_error
  mutate_balance_in_transaction u.movement (purchase_of user o plan p)
  settle_payment_in_transaction js u now none p.id

unfoldable pub pay_in_transaction : Conversions → Uuids → ℕ → String → ℕ → Action SettlementResult
pay_in_transaction js u now public_id user = do
  o ←
      or_throw (← gets (λ db. find (Orders.has_public_id public_id) db.orders))
        (business ErrorCode.not_found "Order not found")
  throw_if (not (o.user_id == user)) (business ErrorCode.forbidden "Not your order")
  throw_if (not (Orders.is_pending o.status)) (business ErrorCode.conflict "Order is not payable")
  charge_order js u now user o

-- The result with the subscription as it is after provisioning.
abbrev reloaded : Services → Option ℕ → Option OrderResult → Action (Option OrderResult)
reloaded svc (some id) (some r) = do
  found ← gets (λ db. find (Subscriptions.has_id id) db.subscriptions)
  s ← or_throw found Failure.record_not_found
  link ← gets (λ db. is_text s.subscription_link || is_text (svc.vpn_link s.id db))
  throw_if (not link) incomplete
  pure (some (record { order = r.order; subscription = some s }))
reloaded svc _ r = pure r

-- `is_uuid` is `validate` of the package uuid.
unfoldable pub pay_order_with_wallet :
    Services → (String → Bool) → Conversions → Uuids → ℕ → String → ℕ → Action (Option OrderResult)
pay_order_with_wallet svc is_uuid js u now public_id user = do
  throw_if (not (is_uuid public_id)) (business ErrorCode.not_found "Order not found")
  s ← with_transaction (pay_in_transaction js u now public_id user)
  finish_settlement svc s
  reloaded svc (truthy s.provisioning_subscription_id) s.order_result
