-- ===== src/Vpn/Provision.antt =====
-- The creation of a subscription's client on its panel: `createVpnUserForSubscription` and
-- `provisionFirstClassClient` of src/modules/vpn/vpn.service.ts.
-- The panel's answers stand in `Answers`, in the order of the requests. `email` stands for the name
-- that `generateClientEmail` makes, `url` for `buildSubscriptionUrl`, `is_ambiguous` for the
-- regular expression of `isAmbiguousCreateError`. The links that the panel lists are only returned.
use vpn_saas.Base.{ℕ, Bool, ◌&&◌, Option, none, some, String, ◌==◌}
use vpn_saas.Base.Table.{find}
use vpn_saas.Store.{
  Action, pure, gets, or_throw, throw, if_action, on_error, ◌>>=◌, ◌>>◌, business, ErrorCode,
  Failure, type_error, get_or,
}
use vpn_saas.Store.Rows.{Subscription, Plan, User, VpnPanel}
use vpn_saas.Panels.{PanelConnection, get_connection, get_client}
use vpn_saas.Vpn.{ProvisioningTarget, is_active_xui, select_provisioning_target, snapshot_target}
use vpn_saas.Vpn.Clients.{
  Claim, ClientName, Mapping, claim_vpn_user_mapping, record_vpn_user_mapping, waiting,
}
use vpn_saas.Vpn.Runtime.{Answer, ask, is_subscription, write_subscription}

pub record Answers : Type 0 where
  pub has_client : Answer Bool
  pub updates : Answer (Unit {0})
  pub attaches : Answer (Unit {0})
  pub creates : Answer (Unit {0})
  pub has_client_after : Answer Bool
  pub creates_again : Answer (Unit {0})
  pub lists_links : Answer (Unit {0})

pub record Remote : Type 0 where
  pub decrypt : String → Option String
  pub email : User → String
  pub url : PanelConnection → String → String
  pub is_ambiguous : Failure → Bool
  pub show : ℕ → String

-- The client on the panel is updated, or created with one more try after an ambiguous failure.
abbrev pub ensure_remote : (Failure → Bool) → Answers → Action (Unit {0})
ensure_remote is_ambiguous a = do
  there ← ask a.has_client
  if_action there (do ask a.updates; ask a.attaches)
      (on_error (ask a.creates) (λ e. do
        created ← ask a.has_client_after
        if_action created (pure tt) (if_action (is_ambiguous e) (ask a.creates_again) (throw e))))

abbrev pub with_target : ProvisioningTarget → Subscription → Subscription
with_target t s = record s {
  provisioning_panel_id = some t.panel_id;
  provisioning_inbound_ids = t.inbound_ids;
}

abbrev pub with_link : String → Subscription → Subscription
with_link url s = record s { subscription_link = some url }

abbrev pub pending_message : String
pending_message = "XUI provisioning failed; retry is safe"

abbrev pub claim_for : Remote → User → ℕ → Subscription → Claim
claim_for remote u panel s = record {
  subscription_id = s.id;
  user_id = s.user_id;
  panel_id = panel;
  proposed_username = remote.email u;
  traffic_limit_bytes = s.traffic_limit_bytes;
  expiry_at = s.expires_at;
}

abbrev pub mapping_for : Subscription → ℕ → ClientName → Option String → Option String → Mapping
mapping_for s panel name link error = record {
  subscription_id = s.id;
  user_id = s.user_id;
  panel_id = panel;
  panel_user_id = name.panel_user_id;
  sub_link = link;
  sub_token = name.sub_token;
  traffic_limit_bytes = s.traffic_limit_bytes;
  expiry_at = s.expires_at;
  sync_error = error;
}

abbrev pub target_for : Option ProvisioningTarget → Plan → Action ProvisioningTarget
target_for (some t) plan = pure t
target_for none plan = select_provisioning_target plan

-- What is done with the panel, once the mapping is recorded as pending.
unfoldable pub deliver_client :
    Remote → ℕ → Answers → PanelConnection → Subscription → ClientName → Action String
deliver_client remote now a connection s name = do
  ensure_remote remote.is_ambiguous a
  let url = remote.url connection (get_or name.sub_token "")
  ask a.lists_links
  write_subscription s.id (with_link url)
  record_vpn_user_mapping now (mapping_for s connection.id name (some url) none)
  pure url

-- A failure is noted on the mapping, and the call may be made again.
unfoldable pub give_up : ℕ → Subscription → ℕ → ClientName → Action String
give_up now s panel name = do
  record_vpn_user_mapping now (mapping_for s panel name none (some pending_message))
  throw (business ErrorCode.conflict "VPN provisioning is pending and can be retried")

-- `try` and `catch` around the work with the panel.
unfoldable pub attempt :
    Remote → ℕ → Answers → PanelConnection → Subscription → ClientName → Action String
unfolding deliver_client give_up
attempt remote now a connection s name =
    on_error (deliver_client remote now a connection s name) (λ e. give_up now s connection.id name)

unfoldable pub provision_first_class_client :
    Remote → String → ℕ → Answers → User → Plan → Subscription → Action String
unfolding attempt
provision_first_class_client remote token now a u plan s = do
  t ← target_for (snapshot_target s) plan
  write_subscription s.id (with_target t)
  panel ←
      or_throw
        (← gets (λ db. find (λ (p : VpnPanel). (p.id == t.panel_id) && is_active_xui p) db.panels))
        (business ErrorCode.conflict "Configured XUI panel is not active")
  connection ← get_connection remote.decrypt panel.id
  get_client panel.type
  name ← claim_vpn_user_mapping remote.show token (claim_for remote u panel.id s)
  record_vpn_user_mapping now (mapping_for s panel.id name none (some waiting))
  attempt remote now a connection s name

-- The rows that the query joins; a subscription always has its plan and its user.
abbrev provision_found :
    Remote → String → ℕ → Answers → Option Subscription → Action (Option String)
provision_found remote token now a none = pure none
provision_found remote token now a (some s) = do
  plan ← or_throw (← gets (λ db. find (λ (p : Plan). p.id == s.plan_id) db.plans)) type_error
  u ← or_throw (← gets (λ db. find (λ (u : User). u.id == s.user_id) db.users)) type_error
  url ← provision_first_class_client remote token now a u plan s
  pure (some url)

unfoldable pub create_vpn_user_for_subscription :
    Remote → String → ℕ → Answers → ℕ → Action (Option String)
unfolding provision_first_class_client
create_vpn_user_for_subscription remote token now a id = do
  found ← gets (λ db. find (is_subscription id) db.subscriptions)
  provision_found remote token now a found
