-- ===== src/Orders/Pricing.antt =====
-- The price of an order and the commission on it (`priceMinor` of
-- src/modules/plans/plans.service.ts, `create` and `creditReferralCommission` of
-- src/modules/orders/orders.service.ts).
use vpn_saas.Base.{
  ℕ, ◌*◌, ◌/◌, ◌∙◌, ◌≤◌, ◌≡◌, refl, true, Option, List, String, arith, ◌==◌, leb, if◌then◌else◌,
  Bool-cases, inl, inr,
}
use vpn_saas.Base.Int.{
  ℤ, pos, ◌+ℤ◌, ◌-ℤ◌, ◌*ℤ◌, div_ℤ, ◌≤ℤ◌, ◌<ℤ◌, ltb_ℤ, int_laws, ltb_ℤ→lt, pos-*, pos-sub,
}
use vpn_saas.Money.{apply_discount}
use vpn_saas.Money.Discount.{apply_discount_bounds}
use vpn_saas.Store.{get_or}
use vpn_saas.Store.Rows.{Plan, Order}
use vpn_saas.Orders.{price_minor, new_order, CreateInput}
use vpn_saas.Orders.Commission.{commission_for}

*ℤ-zero : (a : ℤ) → a *ℤ pos 0 ≡ pos 0
unfolding ◌*ℤ◌
*ℤ-zero a = ground arith

priced :
    (price : ℤ) (pct : ℕ)
    → pct ≤ 10000
    → (if pct == 0 then price else div_ℤ (price *ℤ (pos 100000 -ℤ pos (pct * 10))) 100000)
      ≡ apply_discount price (pos pct)
unfolding apply_discount div_ℤ
priced price pct h = elim (Bool-cases (leb 10000 pct)) [
  | inl full ↦
      let all : pct ≡ 10000 = ground arith in
      rw all (rw (pos-sub 100000 100000 (omega arith), *ℤ-zero price) (ground arith))
  | inr part ↦ rw (pos-* pct 10) (ground arith)
]

-- For a discount of at most 100 percent, the price of a plan is what `applyDiscount` makes of it.
pub price_minor-apply_discount :
    (plan : Plan)
    → get_or plan.discount_percent 0 ≤ 10000
    → price_minor plan ≡ apply_discount plan.price (pos (get_or plan.discount_percent 0))
unfolding price_minor
price_minor-apply_discount plan h = priced plan.price (get_or plan.discount_percent 0) h

share_bound : (total percent : ℕ) → percent ≤ 100 → total * percent / 100 ≤ total
share_bound total percent h = let most : total * percent ≤ total * 100 = grind arith in omega arith

commission_share :
    (total percent : ℕ) (max_bonus so_far : ℤ)
    → commission_for (pos total) (pos percent) max_bonus so_far ≡ (
        let share = pos (total * percent / 100) in
        if ltb_ℤ (pos 0) max_bonus
        then (if ltb_ℤ share (max_bonus -ℤ so_far) then share else max_bonus -ℤ so_far)
        else share)
unfolding commission_for div_ℤ
commission_share total percent max_bonus so_far = rw (pos-* total percent) refl

room_filled : (max_bonus so_far : ℤ) → max_bonus -ℤ so_far +ℤ so_far ≤ℤ max_bonus
room_filled max_bonus so_far = omega int_laws

room_left :
    (share room so_far max_bonus : ℤ)
    → share <ℤ room
    → room +ℤ so_far ≤ℤ max_bonus
    → share +ℤ so_far ≤ℤ max_bonus
room_left share room so_far max_bonus h k = omega int_laws

limited :
    (share max_bonus so_far : ℤ)
    → let room = max_bonus -ℤ so_far in
      (if ltb_ℤ share room then share else room) +ℤ so_far ≤ℤ max_bonus
limited share max_bonus so_far =
    let room = max_bonus -ℤ so_far in
    let filled = room_filled max_bonus so_far in
    elim (Bool-cases (ltb_ℤ share room)) [
      | inl less ↦ rw less (room_left share room so_far max_bonus (ltb_ℤ→lt share room less) filled)
      | inr more ↦ rw more filled
    ]

-- For a total that is not negative, a percentage between 0 and 100 and a positive limit on the
-- bonus, a referrer's commission is never more than the order's total, and with what the referrer
-- has earned before it comes to at most the limit.
pub commission_for_bounds :
    (total percent : ℕ) (max_bonus so_far : ℤ)
    → percent ≤ 100
    → pos 0 <ℤ max_bonus
    → let commission = commission_for (pos total) (pos percent) max_bonus so_far in
      (commission ≤ℤ pos total) × (commission +ℤ so_far ≤ℤ max_bonus)
commission_for_bounds total percent max_bonus so_far h some_limit =
    let part = share_bound total percent h in
    let test : ltb_ℤ (pos 0) max_bonus ≡ true = ground arith in
    rw (commission_share total percent max_bonus so_far)
      (rw test (ground arith, limited (pos (total * percent / 100)) max_bonus so_far))

-- For a plan that costs nothing negative, with a discount of at most 100 percent, the order that
-- `create` writes has a unit price between zero and the plan's price, a discount that makes up the
-- difference, and a total of the unit price times the quantity.
pub new_order-amounts :
    (uuid : String) (input : CreateInput) (plan : Plan) (target : Option ℕ) (os : List Order)
    (a : ℕ)
    → plan.price ≡ pos a
    → get_or plan.discount_percent 0 ≤ 10000
    → let o = new_order uuid input plan target os in
      (pos 0 ≤ℤ o.unit_price)
      × (pos 0 ≤ℤ o.discount_amount)
      × (o.unit_price +ℤ o.discount_amount ≡ plan.price)
      × (o.total_amount ≡ o.unit_price *ℤ pos (get_or input.quantity 1))
new_order-amounts uuid input plan target os a price h =
    let q = get_or plan.discount_percent 0 in
    let (low, _, high, _, _) = apply_discount_bounds a q q (omega arith) h in
    let unit : price_minor plan ≡ apply_discount (pos a) (pos q) =
      price_minor-apply_discount plan h ∙ rw price refl in
    rw (unit, price) (low, omega int_laws, omega int_laws, refl)
