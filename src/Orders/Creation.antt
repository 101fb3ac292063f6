-- ===== src/Orders/Creation.antt =====
-- Prices, the results and the creation of an order (`create` of
-- src/modules/orders/orders.service.ts).
use vpn_saas.Base.{
  ℕ, zero, suc, ◌*◌, Bool, true, false, ◌&&◌, ◌||◌, not, Option, none, some, List, String, ◌==◌,
  str_eq, if◌then◌else◌,
}
use vpn_saas.Base.Int.{ℤ, pos, ◌-ℤ◌, ◌*ℤ◌, div_ℤ}
use vpn_saas.Base.Table.{find, create}
use vpn_saas.Money.{from_minor}
use vpn_saas.Store.{
  Action, pure, gets, or_throw, throw_if, modify, if_action, ◌>>=◌, ◌>>◌, business, ErrorCode,
  get_or, fresh_id,
}
use vpn_saas.Store.Rows.{
  Plan, PlanType, Order, OrderStatus, pending, OrderType, PaymentMethod, Subscription, Db,
}
use vpn_saas.Subscriptions.{is_renewal}

-- `Math.round(pct * 1000)` of a percentage in hundredths is ten times it.
unfoldable pub price_minor : Plan → ℤ
price_minor plan =
    let pct = get_or plan.discount_percent 0 in
    if pct == 0 then plan.price else div_ℤ (plan.price *ℤ (pos 100000 -ℤ pos (pct * 10))) 100000

pub record CreateInput : Type 0 where
  pub user_id : ℕ
  pub plan_public_id : String
  pub type : Option OrderType
  pub target_subscription_public_id : Option String
  pub quantity : Option ℕ
  pub gift_for_user_id : Option ℕ
  pub payment_method : Option PaymentMethod

pub record OrderDto : Type 0 where
  pub id : ℕ
  pub public_id : String
  pub status : OrderStatus
  pub type : OrderType
  pub plan_id : ℕ
  pub plan_name : String
  pub unit_price : List ℕ
  pub quantity : ℕ
  pub discount_amount : List ℕ
  pub tax_amount : List ℕ
  pub total_amount : List ℕ
  pub currency : String
  pub payment_method : Option PaymentMethod
  pub completed_at : Option ℕ

abbrev plan_name_of : Option Plan → String
plan_name_of none = ""
plan_name_of (some plan) = plan.name

abbrev pub plan_by_id : ℕ → Db → Option Plan
plan_by_id id db = find (λ (p : Plan). p.id == id) db.plans

abbrev pub to_dto : Order → Option Plan → OrderDto
to_dto o plan = record {
  id = o.id;
  public_id = o.public_id;
  status = o.status;
  type = o.type;
  plan_id = o.plan_id;
  plan_name = plan_name_of plan;
  unit_price = from_minor o.unit_price;
  quantity = o.quantity;
  discount_amount = from_minor o.discount_amount;
  tax_amount = from_minor o.tax_amount;
  total_amount = from_minor o.total_amount;
  currency = o.currency;
  payment_method = o.payment_method;
  completed_at = o.completed_at;
}

-- The row with its plan, as `include: { plan: true }` reads it.
abbrev pub dto_of : Order → Action OrderDto
dto_of o = do plan ← gets (plan_by_id o.plan_id); pure (to_dto o plan)

abbrev is_trial_type : PlanType → Bool
is_trial_type PlanType.trial = true
is_trial_type _ = false

-- A quantity that is given and is neither 0 nor 1.
abbrev is_several : Option ℕ → Bool
is_several none = false
is_several (some zero) = false
is_several (some (suc n)) = not (n == 0)

-- A renewal names a subscription of the user, on the same plan, that can be renewed.
abbrev renewal_target : CreateInput → Plan → Action (Option ℕ)
renewal_target input plan = do
  public_id ←
      or_throw input.target_subscription_public_id
        (business ErrorCode.conflict "A subscription is required for renewal")
  target ←
      or_throw
        (← gets (λ db. find (λ (s : Subscription). str_eq s.public_id public_id) db.subscriptions))
        (business ErrorCode.not_found "Subscription not found")
  throw_if (not (target.user_id == input.user_id))
      (business ErrorCode.forbidden "Not your subscription")
  throw_if (not (target.plan_id == plan.id))
      (business ErrorCode.conflict "Renewal plan does not match")
  throw_if (not plan.is_renewable) (business ErrorCode.conflict "Plan is not renewable")
  pure (some target.id)

-- The row of `order.create`.
abbrev pub new_order : String → CreateInput → Plan → Option ℕ → List Order → Order
new_order uuid input plan target os =
    let unit_price = price_minor plan in
    let quantity : ℕ = get_or input.quantity 1 in
    record {
      id = fresh_id (λ (o : Order). o.id) os;
      public_id = uuid;
      user_id = input.user_id;
      plan_id = plan.id;
      type = get_or input.type OrderType.new;
      status = pending;
      unit_price = unit_price;
      quantity = quantity;
      discount_amount = plan.price -ℤ unit_price;
      tax_amount = pos 0;
      total_amount = unit_price *ℤ pos quantity;
      currency = plan.currency;
      payment_method = input.payment_method;
      subscription_id = target;
      gift_for_user_id = input.gift_for_user_id;
      completed_at = none;
      cancelled_at = none;
    }

unfoldable pub create_order : String → CreateInput → Action OrderDto
create_order uuid input = do
  plan ←
      or_throw
        (← gets (λ db. find (λ (p : Plan). str_eq p.public_id input.plan_public_id) db.plans))
        (business ErrorCode.not_found "Plan not found")
  throw_if (not (str_eq plan.status "ACTIVE") || not plan.is_enabled)
      (business ErrorCode.conflict "Plan is not available")
  throw_if (is_trial_type plan.type)
      (business ErrorCode.conflict "Trial plans are created via /trials endpoint")
  let type : OrderType = get_or input.type OrderType.new
  throw_if (is_renewal type && is_several input.quantity)
      (business ErrorCode.conflict "Renewal orders must have quantity one")
  target ← if_action (is_renewal type) (renewal_target input plan) (pure none)
  order ← gets (λ db. new_order uuid input plan target db.orders)
  modify (λ db. record db { orders = create order db.orders })
  dto_of order
