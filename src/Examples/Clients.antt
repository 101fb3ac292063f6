-- ===== src/Examples/Clients.antt =====
-- Runs of the operations on the clients of a panel.
use vpn_saas.Base.{ℕ, ◌≡◌, refl, false, true, Option, none, some, String, [], ◌∷◌}
use vpn_saas.Examples.{online_panel, shop}
use vpn_saas.Store.{ok, fresh_id}
use vpn_saas.Store.Rows.{Subscription, SubscriptionStatus, PlanType, PanelType, Db}
use vpn_saas.Store.Rows.Clients.{VpnUser, PanelUserStatus}
use vpn_saas.Vpn.Clients.{ClientName, Claim, claim_vpn_user_mapping, claim_name}
use vpn_saas.Vpn.Claims.{claim-again}
use vpn_saas.Panels.{PanelConnection}
use vpn_saas.Vpn.Pending
use vpn_saas.Vpn.Pending.{attempt-Outcome}
use vpn_saas.Vpn.Provision.{Remote, Answers, attempt}
use vpn_saas.Vpn.Runtime.{returned, failed, set_remote_status}
use vpn_saas.Vpn.Status.{IsReachable, Outcome, set_remote_status-Outcome}

abbrev running : Subscription
running = record {
  id = 1;
  public_id = "s-1";
  user_id = 7;
  plan_id = 2;
  order_id = none;
  status = SubscriptionStatus.active;
  type = PlanType.time;
  traffic_limit_bytes = none;
  used_traffic_bytes = 0;
  duration_days = some 30;
  starts_at = 0;
  expires_at = none;
  paused_at = none;
  device_limit = 2;
  subscription_link = none;
  provisioning_panel_id = some 1;
  provisioning_inbound_ids = 12 ∷ [];
  is_trial = false;
}

abbrev first_client : VpnUser
first_client = record {
  id = 1;
  panel_id = 1;
  panel_user_id = "tg_7";
  user_id = 7;
  subscription_id = some 1;
  status = PanelUserStatus.active;
  used_traffic_bytes = 0;
  total_traffic_bytes = none;
  expiry_at = none;
  sub_link = none;
  sub_token = some "token";
  last_sync_at = none;
  sync_error = none;
}

abbrev connected : Db
connected = record shop { subscriptions = running ∷ []; vpn_users = first_client ∷ [] }

abbrev plain : String → Option String
plain text = some text

reachable : IsReachable plain 1 first_client running connected
reachable = record {
  mapping = refl;
  client = refl;
  subscription = refl;
  panel = online_panel;
  at_panel = refl;
  is_active = refl;
  is_xui = refl;
  key = "key";
  decrypts = refl;
}

set_remote_status-Outcome_example :
    Outcome 10 1 false first_client running connected
      (failed "timeout")
      (set_remote_status plain 10 (failed "timeout") 1 false connected)
set_remote_status-Outcome_example =
    set_remote_status-Outcome plain 10 1 false (failed "timeout") connected reachable

-- A second subscription of the same user, whose first name is taken.
abbrev second_claim : String → Claim
second_claim name = record {
  subscription_id = 2;
  user_id = 7;
  panel_id = 1;
  proposed_username = name;
  traffic_limit_bytes = none;
  expiry_at = none;
}

abbrev decimal : ℕ → String
decimal n = "2"

unfoldable claimed_once : Db
unfolding claim_vpn_user_mapping claim_name
claimed_once = (claim_vpn_user_mapping decimal "t-1" (second_claim "tg_7") connected).1

claim-again_example :
    claim_vpn_user_mapping decimal "t-2" (second_claim "tg_other") claimed_once
    ≡ (ok (record { panel_user_id = "tg_7_s2"; sub_token = some "t-1" }), claimed_once)
unfolding claimed_once claim_vpn_user_mapping claim_name fresh_id
claim-again_example =
    claim-again decimal "t-1" "t-2" (second_claim "tg_7") (second_claim "tg_other") connected
      claimed_once (refl, tt) refl refl refl refl refl

abbrev remote_panel : Remote
remote_panel = record {
  decrypt = plain;
  email = λ u. "tg_7";
  url = λ connection token. "https://panel/sub/token";
  is_ambiguous = λ e. true;
  show = decimal;
}

-- The first try to create the client times out, the second one succeeds.
abbrev slow_panel : Answers
slow_panel = record {
  has_client = returned false;
  updates = returned tt;
  attaches = returned tt;
  creates = failed "timeout";
  has_client_after = returned false;
  creates_again = returned tt;
  lists_links = returned tt;
}

abbrev at_panel : PanelConnection
at_panel = record { id = 1; type = PanelType.xui; api_key = "key" }

abbrev first_name : ClientName
first_name = record { panel_user_id = "tg_7"; sub_token = some "token" }

attempt-Outcome_example :
    Pending.Outcome 10 running first_name first_client connected
      (attempt remote_panel 10 slow_panel at_panel running first_name connected)
attempt-Outcome_example =
    attempt-Outcome remote_panel 10 slow_panel at_panel running first_name connected
      {v = first_client} refl refl (λ link error. refl)
