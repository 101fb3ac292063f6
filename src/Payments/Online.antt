-- ===== src/Payments/Online.antt =====
-- Online payments (`handleOnlineCallback` and `verifyOnlinePayment` of
-- src/modules/payments/payments.service.ts). A gateway is what its server answers.
use vpn_saas.Base.{ℕ, Bool, false, ◌&&◌, Option, none, some, String, str_eq}
use vpn_saas.Base.Int.{ℤ}
use vpn_saas.Base.Table.{find, update_many}
use vpn_saas.Store.{
  Action, pure, gets, or_throw, modify, if_action, ◌>>=◌, ◌>>◌, business, ErrorCode,
}
use vpn_saas.Store.Rows.{Payment, PaymentStatus}
use vpn_saas.Orders.Commission.{Conversions}
use vpn_saas.Payments.{Services, Uuids, GatewayResult, confirm_payment, payment_by_id, claimable}
use vpn_saas.Payments.Receipts.{with_status}

pub data VerifyResult : Type 0 where
  confirmed : GatewayResult → VerifyResult
  pending failed : VerifyResult

-- `verify` of a gateway: the reference, the payment's id and its amount.
abbrev pub Gateway : Type 0
Gateway = String → ℕ → ℤ → VerifyResult

abbrev pub default_online_gateway_code : String
default_online_gateway_code = "zarinpal"

abbrev is_just : Option String → String → Bool
is_just none t = false
is_just (some s) t = str_eq s t

abbrev pub referred_by : String → String → Payment → Bool
referred_by reference code p = is_just p.gateway_ref reference && is_just p.gateway code

abbrev by_reference : String → String → Action Payment
by_reference reference code = do
  found ← gets (λ db. find (referred_by reference code) db.payments)
  or_throw found (business ErrorCode.not_found "Payment not found")

abbrev pub abandoned : String → Payment → Payment
abandoned status p = record p { status = PaymentStatus.cancelled; gateway_status = some status }

module _ (svc : Services) (js : Conversions) (u : Uuids) (now : ℕ) where
  unfoldable pub act_on : VerifyResult → ℕ → Action (Unit {0})
  act_on (confirmed r) id = confirm_payment svc js u now id (some r)
  act_on pending id = pure tt
  act_on failed id = modify (λ db. record db {
    payments = update_many (claimable id) (with_status PaymentStatus.rejected) db.payments;
  })

  unfoldable pub verify_online_payment :
      (String → Option Gateway) → String → String → Action Payment
  verify_online_payment gateways reference code = do
    p ← by_reference reference code
    gateway ← or_throw (gateways code) (business ErrorCode.conflict "Unknown gateway")
    act_on (gateway reference p.id p.amount) p.id
    payment_by_id p.id

  unfoldable pub handle_online_callback :
      (String → Option Gateway) → String → String → Action Payment
  handle_online_callback gateways authority status = do
    p ← by_reference authority default_online_gateway_code
    if_action (str_eq status "OK")
        (verify_online_payment gateways authority default_online_gateway_code)
        do
          modify (λ db. record db {
            payments = update_many (claimable p.id) (abandoned status) db.payments;
          })
          payment_by_id p.id
