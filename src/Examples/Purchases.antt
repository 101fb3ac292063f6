-- ===== src/Examples/Purchases.antt =====
-- Orders, subscriptions and vouchers.
use vpn_saas.Base.{
  List, length, All, ℕ, ◌*◌, ◌⊎◌, ◌+◌, ◌≤◌, ◌≡◌, refl, true, false, none, some, [], ◌∷◌, arith,
}
use vpn_saas.Base.Int.{pos, ◌≤ℤ◌, ◌+ℤ◌, ◌-ℤ◌, ◌*ℤ◌, div_ℤ}
use vpn_saas.Base.Table.{find, others}
use vpn_saas.Money.{apply_discount}
use vpn_saas.Store.{ok, err, Failure, business, ErrorCode, fresh_id}
use vpn_saas.Store.Rows.{active, OrderType, OrderStatus, Subscription, Db}
use vpn_saas.Vpn.Target.{IsAscending, select_provisioning_target-IsAscending}
use vpn_saas.Vpn.{is_empty, select_provisioning_target}
use vpn_saas.Subscriptions.{
  renewed, day_ms, provision_in_transaction, mark_expired, is_due, created, ProvisionParams,
}
use vpn_saas.Subscriptions
use vpn_saas.Subscriptions.Renewal.{provision-renewed}
use vpn_saas.Subscriptions.Expiry.{RowByRow, Swept, mark_expired_once}
use vpn_saas.Orders.{
  price_minor, new_order, CreateInput, OrderDto, complete_order_in_transaction, fulfil, deliver,
  Completion, cancel, has_id, to_dto,
}
use vpn_saas.Orders.Commission.{commission_for, credit_referral_commission}
use vpn_saas.Orders.Pricing.{price_minor-apply_discount, new_order-amounts, commission_for_bounds}
use vpn_saas.Orders.Complete.{HasCompleted}
use vpn_saas.Orders.Final.{complete_order_once, cancel_final}
use vpn_saas.Vouchers.Minting.{mint_lem, IsFree, Unrepeated}
use vpn_saas.Vouchers.{mint, codes_eq, redeem_in_transaction}
use vpn_saas.Vouchers.Redeem.{HasRedeemed, redeem_limits}
use vpn_saas.Examples.{shop, monthly, order_of, numbers, redeemer, value_or}

price_minor-apply_discount_example : price_minor monthly ≡ apply_discount (pos 300) (pos 1000)
price_minor-apply_discount_example = price_minor-apply_discount monthly (omega arith)

abbrev three_months : CreateInput
three_months = record {
  user_id = 7;
  plan_public_id = "plan-2";
  type = none;
  target_subscription_public_id = none;
  quantity = some 3;
  gift_for_user_id = none;
  payment_method = none;
}

new_order-amounts_example :
    let o = new_order "o" three_months monthly none [] in
    (pos 0 ≤ℤ o.unit_price)
    × (pos 0 ≤ℤ o.discount_amount)
    × (o.unit_price +ℤ o.discount_amount ≡ pos 300)
    × (o.total_amount ≡ o.unit_price *ℤ pos 3)
new_order-amounts_example =
    new_order-amounts "o" three_months monthly none [] 300 refl (omega arith)

abbrev trial_of_order : ProvisionParams
trial_of_order = record {
  user_id = 7;
  plan_id = 2;
  order_id = none;
  type = OrderType.new;
  is_trial = some true;
  provisioning_target = none;
  target_subscription_id = none;
}

abbrev with_trial : Db
with_trial = record shop { subscriptions = created "s" 5 trial_of_order monthly [] ∷ [] }

mark_expired_once_example :
    let after = (mark_expired 3000000000 with_trial).1 in
    RowByRow (Swept 3000000000) with_trial.subscriptions after.subscriptions
    × (after ≡ (record with_trial { subscriptions = after.subscriptions }))
    × (mark_expired 3000000000 after ≡ (ok 0, after))
mark_expired_once_example = mark_expired_once 3000000000 with_trial

cancel_final_example :
    (dto : OrderDto) × (after : Db) × (cancel 5 "order-1" 7 shop ≡ (ok dto, after))
    × (after ≡ (record shop { orders = after.orders }))
    × (others (has_id 1) after.orders ≡ others (has_id 1) shop.orders)
    × (find (has_id 1) after.orders
        ≡ some
            (record (order_of (pos 270)) { status = OrderStatus.cancelled; cancelled_at = some 5 }))
    × (cancel 6 "order-1" 7 after ≡ (ok dto, after))
    × (complete_order_in_transaction numbers "s" "c" 6 1 7 after
        ≡ (err (business ErrorCode.conflict "Order is not payable"), after))
cancel_final_example =
    cancel_final numbers "s" "c" 5 6 "order-1" shop {o = order_of (pos 270)} refl refl refl refl

-- The order of 270 is completed, which also credits its buyer's referrer.
abbrev completed_shop : Db
completed_shop = (complete_order_in_transaction numbers "s" "c" 5 1 7 shop).1

abbrev nothing : Completion
nothing = record {
  order = to_dto (order_of (pos 270)) none;
  subscription = none;
  provisioning_required = true;
}

abbrev completion : Completion
completion = value_or nothing (complete_order_in_transaction numbers "s" "c" 5 1 7 shop).0

completion_run :
    complete_order_in_transaction numbers "s" "c" 5 1 7 shop ≡ (ok completion, completed_shop)
unfolding complete_order_in_transaction fulfil deliver select_provisioning_target
    provision_in_transaction credit_referral_commission commission_for ◌*ℤ◌ ◌+ℤ◌ ◌-ℤ◌ div_ℤ fresh_id
completion_run = refl

complete_order_once_example :
    HasCompleted 1 completed_shop
    × ((c : Completion) × (complete_order_in_transaction numbers "t" "d" 9 1 7 completed_shop
          ≡ (ok c, completed_shop))
        × (c.provisioning_required ≡ false))
complete_order_once_example =
    complete_order_once numbers numbers "s" "c" "t" "d" 5 9 1 7 7 shop completed_shop refl
      completion_run

abbrev redeemed_shop : Db
redeemed_shop = (redeem_in_transaction "s" 5 5 2 redeemer shop).1

abbrev activated : Subscription
activated =
    value_or (created "none" 0 trial_of_order monthly [])
      (redeem_in_transaction "s" 5 5 2 redeemer shop).0

redemption_run : redeem_in_transaction "s" 5 5 2 redeemer shop ≡ (ok activated, redeemed_shop)
unfolding redeem_in_transaction
redemption_run = refl

redeem_limits_example :
    (h : HasRedeemed 5 5 activated.id redeemer shop redeemed_shop) × (h.row.redemptions
      ≤ h.voucher.max_redemptions)
    × ((e : Failure) × (redeem_in_transaction "t" 9 5 2 redeemer redeemed_shop
          ≡ (err e, redeemed_shop)))
redeem_limits_example =
    redeem_limits "s" "t" 5 9 5 2 2 redeemer redeemer shop redeemed_shop redemption_run refl

-- The trial's subscription, which ends on day 30, renewed at instant 100.
abbrev renewing : ProvisionParams
renewing = record trial_of_order { type = OrderType.renew; target_subscription_id = some 1 }

abbrev on_trial : Subscription
on_trial = record (created "s" 5 trial_of_order monthly []) { id = 1; expires_at = some 2592000005 }

abbrev trial_shop : Db
trial_shop = record shop { subscriptions = on_trial ∷ [] }

provision-renewed_example :
    (after : Db) × (provision_in_transaction "t" 100 renewing trial_shop
      ≡ (ok (renewed 100 monthly on_trial), after))
    × (find (Subscriptions.has_id 1) after.subscriptions ≡ some (renewed 100 monthly on_trial))
    × ((renewed 100 monthly on_trial).status ≡ active)
    × ((end : ℕ) × ((renewed 100 monthly on_trial).expires_at ≡ some end)
        × (100 + 30 * day_ms ≤ end)
        × (2592000005 + 30 * day_ms ≤ end)
        × ((end ≡ 100 + 30 * day_ms) ⊎ (end ≡ 2592000005 + 30 * day_ms)))
    × (after ≡ (record trial_shop { subscriptions = after.subscriptions; events = after.events }))
provision-renewed_example =
    provision-renewed "t" 100 renewing trial_shop {plan = monthly} {s = on_trial} 2592000005 29 refl
      refl refl refl refl refl refl refl

-- The first candidate of the second voucher is the code of the first.
abbrev two_draws : List (List (List ℕ))
two_draws = ((b'B' ∷ []) ∷ []) ∷ ((b'B' ∷ []) ∷ (b'C' ∷ []) ∷ []) ∷ []

two_draws_run : mint shop.vouchers two_draws [] ≡ some ((b'B' ∷ []) ∷ (b'C' ∷ []) ∷ [])
unfolding mint codes_eq
two_draws_run = refl

mint_lem_example :
    let codes : List (List ℕ) = (b'B' ∷ []) ∷ (b'C' ∷ []) ∷ [] in
    (length codes ≡ 2) × All (IsFree shop.vouchers) codes × Unrepeated codes
mint_lem_example = mint_lem shop.vouchers two_draws two_draws_run

target_run :
    select_provisioning_target monthly shop
    ≡ (ok (record { panel_id = 1; inbound_ids = 12 ∷ [] }), shop)
unfolding select_provisioning_target
target_run = refl

select_provisioning_target-IsAscending_example :
    (shop ≡ shop)
    × IsAscending (12 ∷ [])
    × (is_empty (12 ∷ []) ≡ false)
    × All (λ (n : ℕ). n ≡ 12) (12 ∷ [])
select_provisioning_target-IsAscending_example =
    select_provisioning_target-IsAscending (λ n. n ≡ 12) monthly shop target_run
      ((λ here fits. refl), tt)

commission_for_bounds_example :
    let commission = commission_for (pos 270) (pos 10) (pos 40) (pos 25) in
    (commission ≤ℤ pos 270) × (commission +ℤ pos 25 ≤ℤ pos 40)
commission_for_bounds_example =
    commission_for_bounds 270 10 (pos 40) (pos 25) (omega arith) (omega arith)
