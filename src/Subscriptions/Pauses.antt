-- ===== src/Subscriptions/Pauses.antt =====
-- `suspend`, `resume`, `resetTraffic` and `getById` of
-- src/modules/subscriptions/subscriptions.service.ts, over the clients of Vpn.Runtime.
use vpn_saas.Base.{ℕ, true, false, Option, String}
use vpn_saas.Base.Table.{find}
use vpn_saas.Store.{Action, gets, or_throw, ◌>>=◌, ◌>>◌, business, ErrorCode}
use vpn_saas.Store.Rows.{Subscription}
use vpn_saas.Subscriptions.{get_owned, has_id}
use vpn_saas.Vpn.Runtime.{Answer, set_remote_status, reset_traffic}

unfoldable pub get_by_id : ℕ → Action Subscription
get_by_id id = do
  found ← gets (λ db. find (has_id id) db.subscriptions)
  or_throw found (business ErrorCode.not_found "Subscription not found")

module _ (decrypt : String → Option String) (now : ℕ) (answer : Answer (Unit {0})) where
  unfoldable pub suspend : String → ℕ → Action Subscription
  unfolding get_owned set_remote_status get_by_id
  suspend public_id user = do
    s ← get_owned public_id user
    set_remote_status decrypt now answer s.id false
    get_by_id s.id

  unfoldable pub resume_subscription : String → ℕ → Action Subscription
  unfolding get_owned set_remote_status get_by_id
  resume_subscription public_id user = do
    s ← get_owned public_id user
    set_remote_status decrypt now answer s.id true
    get_by_id s.id

  unfoldable pub reset_subscription_traffic : String → ℕ → Action Subscription
  unfolding get_owned reset_traffic get_by_id
  reset_subscription_traffic public_id user = do
    s ← get_owned public_id user
    reset_traffic decrypt now answer s.id
    get_by_id s.id
