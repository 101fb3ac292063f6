-- ===== src/Payments/Amounts.antt =====
-- The amount that a payment by card asks for (`initiate` of
-- src/modules/payments/payments.service.ts).
use vpn_saas.Base.{ℕ, ◌≡◌, refl, ap, true, Option, none, some, String, ==-refl, arith}
use vpn_saas.Base.Int.{pos}
use vpn_saas.Base.Table.{find, create}
use vpn_saas.Money.{from_minor}
use vpn_saas.Money.RoundTrip.{value_of-digits_only-from_minor}
use vpn_saas.Store.{ok, fresh_id}
use vpn_saas.Store.Rows.{PaymentMethod, PaymentStatus, Payment, Order, Db}
use vpn_saas.Store.Rows.Cards.{BankCard}
use vpn_saas.Cards.Deposit.{is_active, get_deposit_card-found}
use vpn_saas.Orders
use vpn_saas.Orders.{get_owned_order}
use vpn_saas.Payments.Initiate.{
  PaymentDto, OnlineGateway, InitiateInput, initiate, request_card, request_plain, row, to_dto,
  amount_of,
}

-- The total comes back through the text of the order's DTO.
amount_of-from_minor : (total : ℕ) → amount_of (from_minor (pos total)) ≡ pos total
amount_of-from_minor total = rw (value_of-digits_only-from_minor (pos total)) (ap pos (omega arith))

-- The owner of a pending order whose total is not negative starts to pay it by card, where a card is
-- active: the call
-- returns, and all it writes is one PENDING payment for the order, in the order's currency and for
-- exactly the order's total in minor units, although the amount goes through the decimal text of
-- the order's DTO.
pub initiate-payment_for :
    (gateway : Option OnlineGateway) (uuid : String) (now : ℕ) (input : InitiateInput) (db : Db)
    {o : Order} {card : BankCard} (total : ℕ)
    → find (Orders.has_public_id input.order_public_id) db.orders ≡ some o
    → o.user_id ≡ input.user_id
    → Orders.is_pending o.status ≡ true
    → input.method ≡ PaymentMethod.card_to_card
    → find is_active db.bank_cards ≡ some card
    → o.total_amount ≡ pos total
    → (dto : PaymentDto) × (after : Db) × (initiate gateway uuid now input db ≡ (ok dto, after))
      × (dto.amount ≡ o.total_amount)
      × (after ≡ (record db {
        payments =
            create
              (record {
                id = fresh_id (λ (p : Payment). p.id) db.payments;
                public_id = uuid;
                order_id = some o.id;
                user_id = input.user_id;
                method = PaymentMethod.card_to_card;
                status = PaymentStatus.pending;
                amount = o.total_amount;
                currency = o.currency;
                gateway = none;
                gateway_ref = none;
                gateway_status = none;
                gateway_verify_code = none;
                gateway_ref_id = none;
                confirmed_at = none;
              })
              db.payments;
      }))
unfolding initiate get_owned_order request_card request_plain
initiate-payment_for gateway uuid now input db {o} total found own due by_card active costs =
    let p =
      row uuid input.user_id (some o.id) PaymentMethod.card_to_card o.total_amount o.currency
        db.payments in
    let (chosen, there) = get_deposit_card-found db active in
    let amount : amount_of (from_minor o.total_amount) ≡ o.total_amount =
      rw costs (amount_of-from_minor total) in
    (
      to_dto p none,
      record db { payments = create p db.payments },
      rw found (rw (own, ==-refl input.user_id, due) (rw by_card (rw there (rw amount refl)))),
      refl,
      refl,
    )
