-- ===== src/Examples/Panels.antt =====
-- Runs of the client of a panel.
use vpn_saas.Base.{
  ℕ, ◌≤◌, ◌≡◌, refl, true, none, some, String, [], ◌∷◌, str_eq, arith, if◌then◌else◌,
}
use vpn_saas.Base.Texts.{codes}
use vpn_saas.Xui.Wire.{get, empty, Reply, Network, envelope, Wire, returned, continue}
use vpn_saas.Xui.Session.{XuiPanel, passes, request, login}
use vpn_saas.Xui.Retry.{request_ends}
use vpn_saas.Xui.Sends.{times, request-times}
use vpn_saas.Base.{length, Option, List, ◌+◌}
use vpn_saas.Store.{fresh_id}
use vpn_saas.Store.Rows.{Db}
use vpn_saas.Panels.{PanelConnection}
use vpn_saas.Xui.Clients.{XuiInbound}
use vpn_saas.Inbounds.{InboundSyncResult, perform_sync}
use vpn_saas.Inbounds.Sync.{IsConnected, Mirrors, perform_sync-Mirrors}
use vpn_saas.Examples.{shop}

abbrev first_panel : XuiPanel
first_panel = record {
  id = 1;
  base_url = "https://panel";
  api_key = codes "root:secret";
  extra_username = none;
  extra_password = none;
  extra_inbound_id = none;
  config_username = [];
  config_password = [];
}

abbrev answer_of : ℕ → Reply String
answer_of status = record {
  status = status;
  text = "";
  reading = envelope (record { success = true; msg = ""; obj = "token" });
  set_cookie = codes "3x-ui=abc; Path=/" ∷ [];
}

-- A panel that lets the client log in, and answers all else with 401.
abbrev denying : Network String
denying before r = some (
    answer_of
      (if str_eq r.path "/csrf-token" then 200 else if str_eq r.path "/login" then 200 else 401))

abbrev silent : Wire
silent = record { sessions = []; sent = [] }

abbrev list_path : String
list_path = "/panel/api/inbounds/list"

request_ends_example :
    passes denying (λ t. some t) 5 9 first_panel list_path get empty 1 silent
    ≡ continue
        (request denying (λ t. some t) 5 first_panel list_path get empty silent)
        (λ r. returned (some r))
request_ends_example =
    request_ends denying (λ t. some t) 5 first_panel list_path get empty 9 silent (omega arith)

request-times_example :
    times get list_path (request denying (λ t. some t) 5 first_panel list_path get empty silent).1
    ≤ 2
request-times_example =
    request-times denying (λ t. some t) 5 first_panel list_path get empty silent refl refl

-- The panel sees the request twice, between two logins.
denied_twice :
    times get list_path (request denying (λ t. some t) 5 first_panel list_path get empty silent).1
    ≡ 2
unfolding request login
denied_twice = refl

-- The panel lists one inbound that is known and one that is new.
abbrev vless : ℕ → XuiInbound
vless id = record {
  id = id;
  remark = "";
  tag = some "in";
  protocol = codes "vless";
  port = 8443;
  enabled = true;
  expiry_time = none;
  client_compatible = true;
}

abbrev two_inbounds : PanelConnection → Option (List XuiInbound)
two_inbounds c = some (vless 12 ∷ vless 13 ∷ [])

abbrev both : InboundSyncResult
both = record {
  discovered = 2;
  created = 1;
  updated = 1;
  unavailable = 0;
  excluded = 0;
  eligible = 2;
}

abbrev synced : Db
synced = (perform_sync (λ t. some t) (λ t. codes "VLESS") two_inbounds 7 1 shop).1

perform_sync-Mirrors_example :
    (remote : List XuiInbound) × ((c : PanelConnection) × IsConnected (λ t. some t) 1 shop c
      × (two_inbounds c ≡ some remote))
    × Mirrors 1 remote shop.inbounds synced.inbounds
    × (both.created + both.updated ≡ length remote)
unfolding perform_sync fresh_id
perform_sync-Mirrors_example =
    perform_sync-Mirrors (λ t. some t) (λ t. codes "VLESS") two_inbounds 7 1 shop {result = both}
      {after = synced} refl
