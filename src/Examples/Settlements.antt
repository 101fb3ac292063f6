-- ===== src/Examples/Settlements.antt =====
-- Payments and receipts.
use vpn_saas.Base.{[], ◌∷◌, ◌≡◌, refl, true, none, some, arith}
use vpn_saas.Base.Int.{pos}
use vpn_saas.Base.Table.{create, find}
use vpn_saas.Store.{ok, err, business, ErrorCode}
use vpn_saas.Store.Rows.{PaymentMethod, Payment, PaymentStatus, ReceiptStatus, Db}
use vpn_saas.Wallet.{insufficient}
use vpn_saas.Wallet.Moves.{HasMoved}
use vpn_saas.Payments.{has_id, confirm_payment, confirmed_with, top_up_of, pay_order_with_wallet}
use vpn_saas.Payments.Online.{handle_online_callback}
use vpn_saas.Payments.Callback.{handle_online_callback-abandoned}
use vpn_saas.Store.Rows.Cards.{BankCard}
use vpn_saas.Payments.Initiate.{PaymentDto, InitiateInput, initiate, row}
use vpn_saas.Payments.Amounts.{initiate-payment_for}
use vpn_saas.Payments.Receipts.{Decision, decide}
use vpn_saas.Payments.Settle.{confirm_payment_top_up}
use vpn_saas.Payments.Rejection.{decide_reject_final}
use vpn_saas.Payments.Purchase.{pay_order_with_wallet-insufficient}
use vpn_saas.Examples.{
  shop, shop_with, monthly, order_of, card_payment, card_receipt, numbers, services, draws,
  rejecting, approving,
}

confirm_payment_top_up_example :
    (after : Db) × (confirm_payment services numbers draws 5 4 none shop ≡ (ok tt, after))
    × HasMoved (top_up_of card_payment) (pos 200) shop after
    × (find (has_id 4) after.payments ≡ some (confirmed_with 5 none card_payment))
    × (after.orders ≡ shop.orders)
    × (after.subscriptions ≡ shop.subscriptions)
    × (confirm_payment services numbers draws 6 4 none after ≡ (ok tt, after))
confirm_payment_top_up_example =
    confirm_payment_top_up services services numbers numbers draws draws 5 6 4 none shop
      {p = card_payment} refl refl refl refl refl (omega arith)

abbrev cancelled_payment : Payment
cancelled_payment = record card_payment { status = PaymentStatus.cancelled }

abbrev cancelled_shop : Db
cancelled_shop = shop_with (order_of (pos 270)) cancelled_payment

decide_reject_final_example :
    (d : Decision) × (after : Db) × (decide numbers draws 5 rejecting shop ≡ (ok d, after))
    × (d.receipt.status ≡ ReceiptStatus.rejected)
    × (d.payment.status ≡ PaymentStatus.rejected)
    × (after ≡ (record shop { receipts = after.receipts; payments = after.payments }))
    × (decide numbers draws 6 approving after
        ≡ (err (business ErrorCode.conflict "Receipt already has a different decision"), after))
    × (confirm_payment services numbers draws 6 4 none after
        ≡ (err (business ErrorCode.conflict "Payment is not confirmable"), after))
decide_reject_final_example =
    decide_reject_final numbers draws 5 rejecting shop {r = card_receipt} {p = card_payment} refl
      refl refl refl refl refl refl refl services numbers draws 6 approving none refl refl

-- An order of 900, which the wallet's 500 do not cover.
abbrev dear_shop : Db
dear_shop = shop_with (order_of (pos 900)) card_payment

pay_order_with_wallet-insufficient_example :
    pay_order_with_wallet services (λ id. true) numbers draws 5 "order-1" 7 dear_shop
    ≡ (err insufficient, dear_shop)
pay_order_with_wallet-insufficient_example =
    pay_order_with_wallet-insufficient services (λ id. true) numbers draws 5 "order-1" dear_shop
      {o = order_of (pos 900)} {plan = monthly} refl refl refl refl refl (omega arith)

abbrev by_card : InitiateInput
by_card = record {
  user_id = 7;
  order_public_id = "order-1";
  method = PaymentMethod.card_to_card;
  crypto_currency = none;
}

abbrev shop_card : BankCard
shop_card = record {
  id = 1;
  public_id = "card-1";
  card_number = [];
  card_holder = [];
  bank_name = [];
  sheba_number = none;
  label = none;
  is_active = true;
  is_default = true;
  sort_order = 0;
  created_by_id = none;
}

abbrev card_shop : Db
card_shop = record shop { bank_cards = shop_card ∷ [] }

initiate-payment_for_example :
    (dto : PaymentDto) × (after : Db) × (initiate none "p" 5 by_card card_shop ≡ (ok dto, after))
    × (dto.amount ≡ pos 270)
    × (after ≡ (record card_shop {
      payments =
          create
            (row "p" 7 (some 1) PaymentMethod.card_to_card (pos 270) "IRT" shop.payments)
            shop.payments;
    }))
initiate-payment_for_example =
    initiate-payment_for none "p" 5 by_card card_shop {o = order_of (pos 270)} 270 refl refl refl
      refl refl refl

abbrev paid_online : Payment
paid_online = record card_payment {
  status = PaymentStatus.confirmed;
  gateway = some "zarinpal";
  gateway_ref = some "A1";
}

abbrev online_shop : Db
online_shop = shop_with (order_of (pos 270)) paid_online

handle_online_callback-abandoned_example :
    handle_online_callback services numbers draws 5 (λ code. none) "A1" "NOK" online_shop
    ≡ (ok paid_online, online_shop)
handle_online_callback-abandoned_example =
    handle_online_callback-abandoned services numbers draws 5 (λ code. none) "A1" "NOK" online_shop
      {p = paid_online} refl refl refl refl refl
