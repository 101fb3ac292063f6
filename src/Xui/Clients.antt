-- ===== src/Xui/Clients.antt =====
-- The clients of a panel, one by one (src/modules/panels/xui-panel.client.ts).
-- `show` writes a number in decimal.
use Prim.Native.String.{◌++◌ as text_append}
use vpn_saas.Base.{ℕ, Bool, false, ◌&&◌, ◌||◌, not, Option, String, List, [], ◌∷◌, ltb, leb, map}
use vpn_saas.Base.Texts.{codes, same_codes, lower}
use vpn_saas.Store.{schema_error, get_or}
use vpn_saas.Xui.Wire.{
  get, post, empty, new_client, client_state, inbound_ids, total_bytes, Network, XuiClientState,
  Call, returned, fail_if, ◌>>=◌, ◌>>◌,
}
use vpn_saas.Xui.Session.{XuiPanel, conflict}
use vpn_saas.Xui.Api.{
  Schemas, InboundRow, XuiPagedClients, parse_email, parse_sub_id, parse_some, parse_inbound_ids,
  parse_client_state, parse_safe, api, client_action,
}

pub record XuiInbound : Type 0 where
  pub id : ℕ
  pub remark : String
  pub tag : Option String
  pub protocol : List ℕ
  pub port : ℕ
  pub enabled : Bool
  pub expiry_time : Option ℕ
  pub client_compatible : Bool

abbrev is_one_of : List (List ℕ) → List ℕ → Bool
is_one_of [] text = false
is_one_of (w ∷ ws) text = same_codes w text || is_one_of ws text

unfoldable pub is_first_class_xui_protocol : List ℕ → Bool
is_first_class_xui_protocol protocol =
    is_one_of (codes "vmess" ∷ codes "vless" ∷ codes "trojan" ∷ codes "shadowsocks" ∷ [])
      (map lower protocol)

unfoldable pub to_inbound : InboundRow → XuiInbound
to_inbound row = record {
  id = row.id;
  remark = get_or row.remark "";
  tag = row.tag;
  protocol = row.protocol;
  port = row.port;
  enabled = row.enable;
  expiry_time = row.expiry_time;
  client_compatible = is_first_class_xui_protocol row.protocol;
}

module _ {Obj : Type 0} (net : Network Obj) (schemas : Schemas Obj) (encode : List ℕ → String)
    (now : ℕ) (panel : XuiPanel) where
  unfoldable pub list_inbounds : Call (List XuiInbound)
  unfolding api
  list_inbounds = do
    rows ← api net schemas encode now panel "/panel/api/inbounds/list" get empty schemas.inbounds
    returned (map to_inbound rows)

  unfoldable pub list_clients : Call (List XuiClientState)
  unfolding api
  list_clients =
      api net schemas encode now panel "/panel/api/clients/list" get empty schemas.clients

  unfoldable pub list_clients_paged : (ℕ → String) → ℕ → ℕ → Call XuiPagedClients
  unfolding api
  list_clients_paged show page limit = do
    fail_if (not (ltb 0 page)) schema_error
    fail_if (not (ltb 0 limit && leb limit 100)) schema_error
    api net schemas encode now panel
        (text_append "/panel/api/clients/list/paged?page="
          (text_append (show page) (text_append "&limit=" (show limit))))
        get empty schemas.page

  unfoldable pub get_client_state : List ℕ → Call (Option XuiClientState)
  unfolding api
  get_client_state email = do
    safe ← parse_email email
    api net schemas encode now panel (text_append "/panel/api/clients/get/" (encode safe)) get empty
        schemas.client

  unfoldable pub add_client : XuiClientState → Option (List ℕ) → Call (Unit {0})
  unfolding api
  add_client client ids = do
    state ← parse_client_state client
    checked ← parse_some parse_inbound_ids ids
    api net schemas encode now panel "/panel/api/clients/add" post (new_client state checked)
        schemas.any

  unfoldable pub replace_client : List ℕ → XuiClientState → Call (Unit {0})
  unfolding api
  replace_client email client = do
    safe ← parse_email email
    state ← parse_client_state client
    fail_if (not (same_codes state.email safe))
        (conflict "Client email cannot change during replacement")
    api net schemas encode now panel (text_append "/panel/api/clients/update/" (encode safe)) post
        (client_state state) schemas.any

  unfoldable pub delete_client : List ℕ → Call (Unit {0})
  unfolding api
  delete_client email = do
    safe ← parse_email email
    api net schemas encode now panel (text_append "/panel/api/clients/del/" (encode safe)) post
        empty schemas.any

  unfoldable pub attach_client : List ℕ → List ℕ → Call (Unit {0})
  unfolding client_action
  attach_client email ids = do
    checked ← parse_inbound_ids ids
    client_action net schemas encode now panel email "attach" (inbound_ids checked) schemas.any

  unfoldable pub detach_client : List ℕ → List ℕ → Call (Unit {0})
  unfolding client_action
  detach_client email ids = do
    checked ← parse_inbound_ids ids
    client_action net schemas encode now panel email "detach" (inbound_ids checked) schemas.any

  unfoldable pub external_links : List ℕ → Call Obj
  unfolding client_action
  external_links email =
      client_action net schemas encode now panel email "externalLinks" empty schemas.fields

  unfoldable pub update_traffic : List ℕ → ℕ → Call (Unit {0})
  unfolding client_action
  update_traffic email bytes = do
    checked ← parse_safe bytes
    client_action net schemas encode now panel email "updateTraffic" (total_bytes checked)
        schemas.any

  unfoldable pub client_ips : List ℕ → Call Obj
  unfolding client_action
  client_ips email = client_action net schemas encode now panel email "ips" empty schemas.fields

  unfoldable pub clear_client_ips : List ℕ → Call (Unit {0})
  unfolding client_action
  clear_client_ips email =
      client_action net schemas encode now panel email "clearIps" empty schemas.any

  unfoldable pub subscription_links : List ℕ → Call (List String)
  unfolding api
  subscription_links sub_id = do
    safe ← parse_sub_id sub_id
    api net schemas encode now panel (text_append "/panel/api/clients/subLinks/" (encode safe)) get
        empty schemas.links

  unfoldable pub client_links : List ℕ → Call (List String)
  unfolding api
  client_links email = do
    safe ← parse_email email
    api net schemas encode now panel (text_append "/panel/api/clients/links/" (encode safe)) get
        empty schemas.links
