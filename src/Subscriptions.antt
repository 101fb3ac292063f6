-- ===== src/Subscriptions.antt =====
-- SubscriptionsService (src/modules/subscriptions/subscriptions.service.ts): the creation and the
-- renewal of a subscription, its transfer, and the expiry that a scheduler runs. `now` is the
-- reading of the clock, `uuid` the call of `randomUUID`.
pub mod Expiry
pub mod Frame
pub mod Pauses
pub mod Renewal
use vpn_saas.Base.{
  ℕ, ◌+◌, ◌*◌, max, Bool, true, false, ◌&&◌, ◌||◌, not, Option, none, some, List, [], ◌∷◌, String,
  ltb, ◌==◌, str_eq, if◌then◌else◌,
}
use vpn_saas.Base.Table.{find, update, update_many, count, create}
use vpn_saas.Store.{
  Action, pure, throw, gets, or_throw, throw_if, modify, if_action, ◌>>=◌, ◌>>◌, Failure, business,
  ErrorCode, get_or, truthy, same_id, fresh_id, is_some,
}
use vpn_saas.Store.Rows.{
  Plan, Subscription, SubscriptionEvent, SubscriptionStatus, active, trial, expired, OrderType,
  renew, extend, User, Db,
}
use vpn_saas.Vpn.{ProvisioningTarget}

pub record ProvisionParams : Type 0 where
  pub user_id : ℕ
  pub plan_id : ℕ
  pub order_id : Option ℕ
  pub type : OrderType
  pub is_trial : Option Bool
  pub provisioning_target : Option ProvisioningTarget
  pub target_subscription_id : Option ℕ

abbrev pub day_ms : ℕ
day_ms = 86400000

abbrev pub has_id : ℕ → Subscription → Bool
has_id id s = s.id == id

abbrev pub of_order : ℕ → Subscription → Bool
of_order order s = same_id s.order_id order

abbrev pub is_renewal : OrderType → Bool
is_renewal renew = true
is_renewal extend = true
is_renewal _ = false

abbrev pub event_name : OrderType → String
event_name renew = "RENEW"
event_name _ = "EXTEND"

abbrev after_days : ℕ → Option ℕ → Option ℕ
after_days start none = none
after_days start (some days) = some (start + days * day_ms)

-- The end of a period that starts at `start`; a plan of no days never ends.
abbrev pub expiry_from : ℕ → Plan → Option ℕ
expiry_from start plan = after_days start (truthy plan.duration_days)

abbrev gb_bytes : Option ℕ → Option ℕ
gb_bytes none = none
gb_bytes (some gb) = some (gb * 1024 * 1024 * 1024)

abbrev or_else : Option ℕ → Option ℕ → Option ℕ
or_else none b = b
or_else (some a) b = some a

abbrev pub traffic_limit : Plan → Option ℕ
traffic_limit plan = or_else plan.traffic_limit_bytes (gb_bytes (truthy plan.traffic_limit_gb))

abbrev pub by_optional_id : Option ℕ → List Subscription → Option Subscription
by_optional_id none ss = none
by_optional_id (some id) ss = find (has_id id) ss

-- The data of the update of a renewal.
abbrev pub renewed : ℕ → Plan → Subscription → Subscription
renewed now plan s = record s {
  expires_at = expiry_from (max (get_or s.expires_at 0) now) plan;
  traffic_limit_bytes = traffic_limit plan;
  duration_days = plan.duration_days;
  device_limit = plan.device_limit;
  status = active;
}

abbrev panel_of : Option ProvisioningTarget → Option ℕ
panel_of none = none
panel_of (some target) = some target.panel_id

abbrev inbounds_of : Option ProvisioningTarget → List ℕ
inbounds_of none = []
inbounds_of (some target) = target.inbound_ids

-- The row of `subscription.create`.
abbrev pub created : String → ℕ → ProvisionParams → Plan → List Subscription → Subscription
created uuid now params plan ss = record {
  id = fresh_id (λ (s : Subscription). s.id) ss;
  public_id = uuid;
  user_id = params.user_id;
  plan_id = plan.id;
  order_id = params.order_id;
  status = if get_or params.is_trial false then trial else active;
  type = plan.type;
  traffic_limit_bytes = traffic_limit plan;
  used_traffic_bytes = 0;
  duration_days = plan.duration_days;
  starts_at = now;
  expires_at = expiry_from now plan;
  paused_at = none;
  device_limit = plan.device_limit;
  subscription_link = none;
  provisioning_panel_id = panel_of params.provisioning_target;
  provisioning_inbound_ids = inbounds_of params.provisioning_target;
  is_trial = get_or params.is_trial plan.is_trial;
}

abbrev pub log_event : ℕ → String → Option ℕ → Action (Unit {0})
log_event subscription event order = modify (λ db. record db {
  events =
      create (record { subscription_id = subscription; event = event; order_id = order }) db.events;
})

-- The column `orderId` is unique.
abbrev pub taken : Option ℕ → List Subscription → Bool
taken none ss = false
taken (some order) ss = is_some (find (of_order order) ss)

unfoldable pub renew_subscription :
    ℕ → ProvisionParams → Plan → Option Subscription → Action Subscription
renew_subscription now params plan existing = do
  s ← or_throw existing (business ErrorCode.not_found "Renewal subscription not found")
  throw_if (not (s.user_id == params.user_id))
      (business ErrorCode.forbidden "Not your subscription")
  throw_if (not (s.plan_id == plan.id)) (business ErrorCode.conflict "Renewal plan does not match")
  modify
      (λ db. record db { subscriptions = update (has_id s.id) (renewed now plan) db.subscriptions })
  log_event s.id (event_name params.type) params.order_id
  pure (renewed now plan s)

unfoldable pub create_subscription : String → ℕ → ProvisionParams → Plan → Action Subscription
create_subscription uuid now params plan = do
  throw_if (← gets (λ db. taken params.order_id db.subscriptions)) Failure.unique_violation
  s ← gets (λ db. created uuid now params plan db.subscriptions)
  modify (λ db. record db { subscriptions = create s db.subscriptions })
  log_event s.id "CREATED" params.order_id
  pure s

unfoldable pub provision_in_transaction : String → ℕ → ProvisionParams → Action Subscription
unfolding renew_subscription create_subscription
provision_in_transaction uuid now params = do
  plan ←
      or_throw (← gets (λ db. find (λ (p : Plan). p.id == params.plan_id) db.plans))
        (business ErrorCode.not_found "Plan not found")
  existing ← gets (λ db. by_optional_id (truthy params.target_subscription_id) db.subscriptions)
  if_action (is_renewal params.type) (renew_subscription now params plan existing)
      (create_subscription uuid now params plan)

abbrev has_public_id : String → Subscription → Bool
has_public_id public_id s = str_eq s.public_id public_id

unfoldable pub get_owned : String → ℕ → Action Subscription
get_owned public_id user = do
  s ←
      or_throw (← gets (λ db. find (has_public_id public_id) db.subscriptions))
        (business ErrorCode.not_found "Subscription not found")
  throw_if (not (s.user_id == user)) (business ErrorCode.forbidden "Not your subscription")
  pure s

abbrev pub given_to : ℕ → Subscription → Subscription
given_to user s = record s { user_id = user }

unfoldable pub transfer : String → ℕ → ℕ → Action Subscription
unfolding get_owned
transfer public_id from to = do
  s ← get_owned public_id from
  plan ←
      or_throw (← gets (λ db. find (λ (p : Plan). p.id == s.plan_id) db.plans)) Failure.type_error
  throw_if (not plan.is_transferable) (business ErrorCode.conflict "Plan is not transferable")
  or_throw (← gets (λ db. find (λ (u : User). u.id == to) db.users))
      (business ErrorCode.not_found "Target user not found")
  modify (λ db. record db { subscriptions = update (has_id s.id) (given_to to) db.subscriptions })
  log_event s.id "TRANSFER" none
  pure (given_to to s)

abbrev pub is_live : SubscriptionStatus → Bool
is_live active = true
is_live trial = true
is_live _ = false

-- A period that never ends is before no instant.
abbrev pub is_past : Option ℕ → ℕ → Bool
is_past none now = false
is_past (some at) now = ltb at now

abbrev pub is_due : ℕ → Subscription → Bool
is_due now s = is_live s.status && is_past s.expires_at now

abbrev pub expire : Subscription → Subscription
expire s = record s { status = expired }

unfoldable pub mark_expired : ℕ → Action ℕ
mark_expired now = do
  n ← gets (λ db. count (is_due now) db.subscriptions)
  modify (λ db. record db { subscriptions = update_many (is_due now) expire db.subscriptions })
  pure n
