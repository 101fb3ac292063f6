-- ===== src/Affiliate/SignUp.antt =====
-- The reward of a sign-up through Telegram (`fulfillTelegramSignupReferral` of
-- src/modules/affiliate/affiliate.service.ts). `create_vpn_user` stands for
-- `VpnService.createVpnUserForSubscription`, `uuid` for the public id that the database draws for a
-- user's subscription, `now` for the clock. The names of the two users are left out of the result.
pub mod Once
use vpn_saas.Base.{
  ℕ, ◌+◌, Bool, true, false, ◌&&◌, ◌||◌, not, Option, none, some, String, List, [], ◌∷◌, ltb, ◌==◌,
  str_eq, if◌then◌else◌, length,
}
use vpn_saas.Base.Int.{ℤ, pos, pos_part, leb_ℤ, ltb_ℤ}
use vpn_saas.Base.Table.{find, find_many, update, update_many, count, create}
use vpn_saas.Store.{
  Action, Result, ok, err, pure, gets, or_throw, throw, throw_if, modify, with_transaction,
  if_action, ◌>>=◌, ◌>>◌, business, ErrorCode, Failure, unique_violation, fresh_id,
}
use vpn_saas.Store.Rows.{
  ReferralLog, ReferralStatus, Plan, Subscription, SubscriptionStatus, User, Db,
}
use vpn_saas.Subscriptions.{expiry_from, log_event}
use vpn_saas.Subscriptions

pub record Reward : Type 0 where
  pub referrer_telegram_id : Option String
  pub referred_telegram_id : Option String
  pub reward_bytes : ℤ
  pub referrer_link : Option String
  pub referred_link : Option String

abbrev pub by_sign_up : ℕ → ReferralLog → Bool
by_sign_up user r = r.referred_id == user && str_eq r.reward_type "TRAFFIC"

abbrev pub is_over : ReferralStatus → Bool
is_over ReferralStatus.rewarded = true
is_over ReferralStatus.cancelled = true
is_over _ = false

abbrev pub is_pending : ReferralStatus → Bool
is_pending ReferralStatus.pending = true
is_pending _ = false

abbrev pub is_completed : ReferralStatus → Bool
is_completed ReferralStatus.completed = true
is_completed _ = false

abbrev pub trial_plan : Plan → Bool
trial_plan p = p.is_trial && p.is_enabled && not (str_eq p.status "ARCHIVED")

abbrev pub trial_of : ℕ → Subscription → Bool
trial_of user s = s.user_id == user && s.is_trial

abbrev pub raised_limit : ℕ → Option ℕ → ℕ
raised_limit bytes none = bytes
raised_limit bytes (some limit) = limit + bytes

abbrev pub later_expiry : ℕ → Option ℕ → Option ℕ → Option ℕ
later_expiry now none expiry = expiry
later_expiry now (some at) expiry = if ltb now at then some at else expiry

abbrev pub extended : ℕ → Plan → ℕ → Subscription → Subscription
extended now plan bytes s = record s {
  traffic_limit_bytes = some (raised_limit bytes s.traffic_limit_bytes);
  status = SubscriptionStatus.trial;
  expires_at = later_expiry now s.expires_at (expiry_from now plan);
}

abbrev pub trial_row : String → ℕ → Plan → ℕ → ℕ → List Subscription → Subscription
trial_row uuid now plan bytes user ss = record {
  id = fresh_id (λ (s : Subscription). s.id) ss;
  public_id = uuid;
  user_id = user;
  plan_id = plan.id;
  order_id = none;
  status = SubscriptionStatus.trial;
  type = plan.type;
  traffic_limit_bytes = some bytes;
  used_traffic_bytes = 0;
  duration_days = plan.duration_days;
  starts_at = now;
  expires_at = expiry_from now plan;
  paused_at = none;
  device_limit = plan.device_limit;
  subscription_link = none;
  provisioning_panel_id = none;
  provisioning_inbound_ids = [];
  is_trial = true;
}

-- One user's share: more traffic for the trial, or a trial with it.
abbrev pub extend_or_create : String → ℕ → Plan → ℕ → ℕ → Option Subscription → Action ℕ
extend_or_create uuid now plan bytes user (some s) = do
  modify (λ db. record db {
    subscriptions = update (Subscriptions.has_id s.id) (extended now plan bytes) db.subscriptions;
  })
  pure s.id
extend_or_create uuid now plan bytes user none = do
  s ← gets (λ db. trial_row uuid now plan bytes user db.subscriptions)
  modify (λ db. record db { subscriptions = create s db.subscriptions })
  log_event s.id "CREATED" none
  pure s.id

abbrev pub give : (ℕ → String) → ℕ → Plan → ℕ → ℕ → Action ℕ
give uuid now plan bytes user = do
  existing ← gets (λ db. find (trial_of user) db.subscriptions)
  extend_or_create (uuid user) now plan bytes user existing

abbrev pub claimable : ℕ → ReferralLog → Bool
claimable id r = r.id == id && is_pending r.status

abbrev pub completed_at : ℕ → ReferralLog → ReferralLog
completed_at now r = record r { status = ReferralStatus.completed; completed_at = some now }

abbrev pub claimed_db : ℕ → ℕ → Db → Db
claimed_db now id db = record db {
  referrals = update_many (claimable id) (completed_at now) db.referrals;
}

-- The shares of both users, unless the claim has hit no row.
abbrev pub shares : (ℕ → String) → ℕ → Plan → ReferralLog → ℕ → Action (List ℕ)
shares uuid now plan r hits = if_action (hits == 0) (pure []) (do
  modify (claimed_db now r.id)
  first ← give uuid now plan (pos_part r.referrer_reward) r.referrer_id
  second ← give uuid now plan (pos_part r.referrer_reward) r.referred_id
  pure (first ∷ second ∷ []))

unfoldable pub claim_reward : (ℕ → String) → ℕ → Plan → ReferralLog → Action (List ℕ)
claim_reward uuid now plan r =
    with_transaction
      (do hits ← gets (λ db. count (claimable r.id) db.referrals); shares uuid now plan r hits)

abbrev listed_id : Option Subscription → List ℕ → List ℕ
listed_id none ids = ids
listed_id (some s) ids = s.id ∷ ids

abbrev pub trials : ReferralLog → List Subscription → List ℕ
trials r ss =
    listed_id (find (trial_of r.referrer_id) ss) (listed_id (find (trial_of r.referred_id) ss) [])

abbrev pub or_trials : ReferralLog → List ℕ → Db → List ℕ
or_trials r [] db = trials r db.subscriptions
or_trials r ids db = ids

abbrev pub provision_each : (ℕ → Action (Unit {0})) → List ℕ → Action (Unit {0})
provision_each create_vpn_user [] = pure tt
provision_each create_vpn_user (id ∷ ids) = create_vpn_user id >> provision_each create_vpn_user ids

abbrev pub to_reward : ℕ → ReferralLog → Bool
to_reward id r = r.id == id && is_completed r.status

abbrev pub rewarded : ReferralLog → ReferralLog
rewarded r = record r { status = ReferralStatus.rewarded }

abbrev is_listed : List ℕ → Subscription → Bool
is_listed [] s = false
is_listed (id ∷ ids) s = s.id == id || is_listed ids s

abbrev link_of : Option Subscription → Option String
link_of none = none
link_of (some s) = s.subscription_link

abbrev link_for : List ℕ → ℕ → Db → Option String
link_for ids user db =
    link_of (find (λ s. s.user_id == user) (find_many (is_listed ids) db.subscriptions))

abbrev telegram_of : Option User → Option String
telegram_of none = none
telegram_of (some u) = u.telegram_id

abbrev pub telegram_at : ℕ → Db → Option String
telegram_at user db = telegram_of (find (λ (u : User). u.id == user) db.users)

abbrev pub differ : ℤ → ℤ → Bool
differ a b = ltb_ℤ a b || ltb_ℤ b a

abbrev pub conflict : String → Failure
conflict message = business ErrorCode.conflict message

-- Prisma's P2002; one method at a time meets no P2034.
abbrev pub is_conflict : Failure → Bool
is_conflict unique_violation = true
is_conflict _ = false

module _ (create_vpn_user : ℕ → Action (Unit {0})) where
  unfoldable pub hand_out :
      Option String × Option String → ReferralLog → List ℕ → Action (Option Reward)
  hand_out parties r claimed = do
    ids ← gets (or_trials r claimed)
    throw_if (not (length ids == 2)) (conflict "Referral trial subscription is incomplete")
    provision_each create_vpn_user ids
    modify (λ db. record db { referrals = update_many (to_reward r.id) rewarded db.referrals })
    gets (λ db. some (record {
      referrer_telegram_id = parties.0;
      referred_telegram_id = parties.1;
      reward_bytes = r.referrer_reward;
      referrer_link = link_for ids r.referrer_id db;
      referred_link = link_for ids r.referred_id db;
    }))

module _ (create_vpn_user : ℕ → Action (Unit {0})) (uuid : ℕ → String) (now : ℕ) where
  -- What follows the transaction: the delivery, or `again` on a failure.
  abbrev pub carried :
      (Failure → Action (Option Reward))
      → Option String × Option String
      → ReferralLog
      → Result (List ℕ) × Db
      → Result (Option Reward) × Db
  carried again parties r (ok ids, db) = hand_out create_vpn_user parties r ids db
  carried again parties r (err e, db) = again e db

  abbrev pub first_time :
      (Failure → Action (Option Reward))
      → Option String × Option String
      → ReferralLog
      → Action (Option Reward)
  first_time again parties r = do
    plan ←
        or_throw (← gets (λ db. find trial_plan db.plans))
          (conflict "Free Trial plan is not available")
    λ db. carried again parties r (claim_reward uuid now plan r db)

  abbrev pub reward_for :
      (Failure → Action (Option Reward)) → Option ReferralLog → Action (Option Reward)
  reward_for again none = pure none
  reward_for again (some r) = if_action (is_over r.status) (pure none) (do
    parties ← gets (λ db. (telegram_at r.referrer_id db, telegram_at r.referred_id db))
    throw_if (leb_ℤ r.referrer_reward (pos 0) || differ r.referred_reward r.referrer_reward)
        (conflict "Invalid referral traffic reward")
    if_action (is_pending r.status) (first_time again parties r)
        (hand_out create_vpn_user parties r []))

  unfoldable pub try_reward : (Failure → Action (Option Reward)) → ℕ → Action (Option Reward)
  try_reward again user = do
    found ← gets (λ db. find (by_sign_up user) db.referrals)
    reward_for again found

  -- A conflict is tried again once.
  unfoldable pub fulfill_telegram_signup_referral : ℕ → Action (Option Reward)
  unfolding try_reward
  fulfill_telegram_signup_referral user =
      try_reward (λ e. if_action (is_conflict e) (try_reward throw user) (throw e)) user
