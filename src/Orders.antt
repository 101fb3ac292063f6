-- ===== src/Orders.antt =====
-- OrdersService (src/modules/orders/orders.service.ts): an order is created, completed by the
-- transaction that settles its payment, or cancelled; and `priceMinor` of
-- src/modules/plans/plans.service.ts, which prices it.
pub mod Commission
pub mod Pricing
pub mod Complete
pub mod Final
mod Creation
unfoldable pub use Creation.*
use vpn_saas.Base.{
  ℕ, zero, suc, ◌+◌, ◌*◌, Bool, true, false, ◌&&◌, ◌||◌, not, Option, none, some, List, [], ◌∷◌,
  String, ltb, ◌==◌, str_eq, if◌then◌else◌,
}
use vpn_saas.Base.Int.{ℤ, pos, ◌-ℤ◌, ◌*ℤ◌, div_ℤ, leb_ℤ, ltb_ℤ}
use vpn_saas.Base.Table.{find, update, update_many, count, create}
use vpn_saas.Money.{from_minor}
use vpn_saas.Store.{
  Action, pure, throw, gets, or_throw, throw_if, modify, if_action, when, ◌>>=◌, ◌>>◌, Failure,
  business, ErrorCode, get_or, truthy, same_id, fresh_id, is_none,
}
use vpn_saas.Store.Rows.{
  Plan, PlanType, Order, OrderStatus, pending, completed, cancelled, OrderType, PaymentMethod,
  Subscription, Db,
}
use vpn_saas.Subscriptions
use vpn_saas.Subscriptions.{is_renewal, provision_in_transaction}
use vpn_saas.Vpn.{select_provisioning_target, ProvisioningTarget}
use vpn_saas.Orders.Commission.{Conversions, credit_referral_commission}

abbrev pub has_id : ℕ → Order → Bool
has_id id o = o.id == id

abbrev pub is_pending : OrderStatus → Bool
is_pending pending = true
is_pending _ = false

abbrev pub is_completed : OrderStatus → Bool
is_completed completed = true
is_completed _ = false

abbrev pub is_cancelled : OrderStatus → Bool
is_cancelled cancelled = true
is_cancelled _ = false

pub record Completion : Type 0 where
  pub order : OrderDto
  pub subscription : Option Subscription
  pub provisioning_required : Bool

-- The subscription of a completed order: the one that it names, or the one that names it.
abbrev subscription_for : Option ℕ → ℕ → Db → Option Subscription
subscription_for none order db = find (Subscriptions.of_order order) db.subscriptions
subscription_for (some id) order db = find (Subscriptions.has_id id) db.subscriptions

abbrev pub earlier_completion : Order → Action Completion
earlier_completion o = do
  s ← gets (subscription_for (truthy o.subscription_id) o.id)
  dto ← dto_of o
  pure (record { order = dto; subscription = s; provisioning_required = false })

-- The claim matches the order while it is pending.
abbrev pub claimable : ℕ → Order → Bool
claimable id o = has_id id o && is_pending o.status

abbrev pub claimed : ℕ → Order → Order
claimed now o = record o { status = completed; completed_at = some now }

abbrev pub with_subscription : ℕ → Order → Order
with_subscription id o = record o { subscription_id = some id }

-- The parameters of the subscription that an order asks for.
abbrev pub params_of : ℕ → Order → Plan → ProvisioningTarget → Order → Subscriptions.ProvisionParams
params_of user order plan target updated = record {
  user_id = user;
  plan_id = order.plan_id;
  order_id = some order.id;
  type = order.type;
  is_trial = some plan.is_trial;
  provisioning_target = some target;
  target_subscription_id = updated.subscription_id;
}

-- What follows the provisioning of the subscription.
unfoldable pub deliver : Conversions → String → ℕ → Order → Subscription → Action Completion
deliver js uuid now updated s = do
  when (not (same_id updated.subscription_id s.id)) (
      modify (λ db. record db {
        orders = update (has_id updated.id) (with_subscription s.id) db.orders;
      }))
  credit_referral_commission js uuid now updated
  dto ← dto_of updated
  pure (record { order = dto; subscription = some s; provisioning_required = true })

-- What follows a claim that matched.
unfoldable pub fulfil : Conversions → String → String → ℕ → Order → ℕ → ℕ → Action Completion
fulfil js uuid uuid' now order order_id user = do
  updated ←
      or_throw (← gets (λ db. find (has_id order_id) db.orders))
        (business ErrorCode.not_found "Order not found")
  plan ← or_throw (← gets (plan_by_id updated.plan_id)) Failure.type_error
  target ← select_provisioning_target plan
  s ← provision_in_transaction uuid now (params_of user order plan target updated)
  deliver js uuid' now updated s

-- What follows a claim that did not: another transaction has completed the order, or it is not
-- payable.
abbrev pub unclaimed : ℕ → Action Completion
unclaimed order_id = do
  o ←
      or_throw (← gets (λ db. find (has_id order_id) db.orders))
        (business ErrorCode.not_found "Order not found")
  throw_if (not (is_completed o.status)) (business ErrorCode.conflict "Order is not payable")
  earlier_completion o

unfoldable pub complete_order_in_transaction :
    Conversions → String → String → ℕ → ℕ → ℕ → Action Completion
complete_order_in_transaction js uuid uuid' now order_id user = do
  order ←
      or_throw (← gets (λ db. find (has_id order_id) db.orders))
        (business ErrorCode.not_found "Order not found")
  if_action (is_completed order.status) (earlier_completion order) do
    n ← gets (λ db. count (claimable order_id) db.orders)
    modify (λ db. record db { orders = update_many (claimable order_id) (claimed now) db.orders })
    if_action (n == 0) (unclaimed order_id) (fulfil js uuid uuid' now order order_id user)

abbrev pub has_public_id : String → Order → Bool
has_public_id public_id o = str_eq o.public_id public_id

unfoldable pub get_owned_order : String → ℕ → Action Order
get_owned_order public_id user = do
  o ←
      or_throw (← gets (λ db. find (has_public_id public_id) db.orders))
        (business ErrorCode.not_found "Order not found")
  throw_if (not (o.user_id == user)) (business ErrorCode.forbidden "Not your order")
  pure o

unfoldable pub find_one : String → ℕ → Action OrderDto
unfolding get_owned_order
find_one public_id user = do o ← get_owned_order public_id user; dto_of o

abbrev pub cancel_at : ℕ → Order → Order
cancel_at now o = record o { status = cancelled; cancelled_at = some now }

unfoldable pub cancel : ℕ → String → ℕ → Action OrderDto
unfolding get_owned_order
cancel now public_id user = do
  o ← get_owned_order public_id user
  throw_if (is_completed o.status) (business ErrorCode.conflict "Cannot cancel completed order")
  if_action (is_cancelled o.status) (dto_of o) do
    modify (λ db. record db { orders = update (has_id o.id) (cancel_at now) db.orders })
    dto_of (cancel_at now o)
