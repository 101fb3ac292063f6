-- ===== src/Xui/Bulk.antt =====
-- The clients of a panel in bulk, its groups and what it reports of all clients
-- (src/modules/panels/xui-panel.client.ts).
use Prim.Native.String.{◌++◌ as text_append}
use vpn_saas.Base.{ℕ, Option, String, List, ◌==◌, length}
use vpn_saas.Store.{schema_error}
use vpn_saas.Xui.Wire.{
  get, post, empty, client_list, email_list, adjustment, emails_at, group_name, renaming, deletion,
  members, Network, XuiClientState, Call, fail_if, ◌>>=◌, ◌>>◌,
}
use vpn_saas.Xui.Session.{XuiPanel}
use vpn_saas.Xui.Api.{
  Schemas, XuiBulkResult, parse_sub_id, parse_some, parse_inbound_ids, parse_client_states,
  parse_safe, checked_emails, api, bulk,
}

module _ {Obj : Type 0} (net : Network Obj) (schemas : Schemas Obj) (encode : List ℕ → String)
    (now : ℕ) (panel : XuiPanel) where
  unfoldable pub bulk_create : List XuiClientState → Call XuiBulkResult
  unfolding bulk
  bulk_create clients = do
    fail_if (length clients == 0) schema_error
    checked ← parse_client_states clients
    bulk net schemas encode now panel "bulkCreate" (client_list checked)

  unfoldable pub bulk_adjust : List (List ℕ) → Option ℕ → Option ℕ → Call XuiBulkResult
  unfolding bulk
  bulk_adjust emails traffic expiry = do
    checked ← checked_emails emails
    bytes ← parse_some parse_safe traffic
    until ← parse_some parse_safe expiry
    bulk net schemas encode now panel "bulkAdjust" (adjustment checked bytes until)

  unfoldable pub bulk_enable : List (List ℕ) → Call XuiBulkResult
  unfolding bulk
  bulk_enable emails = do
    checked ← checked_emails emails
    bulk net schemas encode now panel "bulkEnable" (email_list checked)

  unfoldable pub bulk_disable : List (List ℕ) → Call XuiBulkResult
  unfolding bulk
  bulk_disable emails = do
    checked ← checked_emails emails
    bulk net schemas encode now panel "bulkDisable" (email_list checked)

  unfoldable pub bulk_delete : List (List ℕ) → Call XuiBulkResult
  unfolding bulk
  bulk_delete emails = do
    checked ← checked_emails emails
    bulk net schemas encode now panel "bulkDel" (email_list checked)

  unfoldable pub bulk_reset_traffic : List (List ℕ) → Call XuiBulkResult
  unfolding bulk
  bulk_reset_traffic emails = do
    checked ← checked_emails emails
    bulk net schemas encode now panel "bulkResetTraffic" (email_list checked)

  unfoldable pub bulk_attach : List (List ℕ) → List ℕ → Call XuiBulkResult
  unfolding bulk
  bulk_attach emails ids = do
    checked ← checked_emails emails
    inbounds ← parse_inbound_ids ids
    bulk net schemas encode now panel "bulkAttach" (emails_at checked inbounds)

  unfoldable pub bulk_detach : List (List ℕ) → List ℕ → Call XuiBulkResult
  unfolding bulk
  bulk_detach emails ids = do
    checked ← checked_emails emails
    inbounds ← parse_inbound_ids ids
    bulk net schemas encode now panel "bulkDetach" (emails_at checked inbounds)

  unfoldable pub list_groups : Call (List String)
  unfolding api
  list_groups = api net schemas encode now panel "/panel/api/groups/list" get empty schemas.names

  unfoldable pub group_emails : List ℕ → Call (List (List ℕ))
  unfolding api
  group_emails group = do
    safe ← parse_sub_id group
    api net schemas encode now panel (text_append "/panel/api/groups/emails/" (encode safe)) get
        empty schemas.emails

  unfoldable pub create_group : List ℕ → Call (Unit {0})
  unfolding api
  create_group group = do
    name ← parse_sub_id group
    api net schemas encode now panel "/panel/api/groups/create" post (group_name name) schemas.any

  unfoldable pub rename_group : List ℕ → List ℕ → Call (Unit {0})
  unfolding api
  rename_group group name = do
    old ← parse_sub_id group
    new ← parse_sub_id name
    api net schemas encode now panel "/panel/api/groups/rename" post (renaming old new) schemas.any

  unfoldable pub delete_group : List ℕ → Call (Unit {0})
  unfolding api
  delete_group group = do
    safe ← parse_sub_id group
    api net schemas encode now panel "/panel/api/groups/del" post (deletion safe) schemas.any

  unfoldable pub bulk_add_group : List ℕ → List (List ℕ) → Call (Unit {0})
  unfolding api
  bulk_add_group group emails = do
    safe ← parse_sub_id group
    checked ← checked_emails emails
    api net schemas encode now panel "/panel/api/groups/bulkAdd" post (members safe checked)
        schemas.any

  unfoldable pub bulk_remove_group : List ℕ → List (List ℕ) → Call (Unit {0})
  unfolding api
  bulk_remove_group group emails = do
    safe ← parse_sub_id group
    checked ← checked_emails emails
    api net schemas encode now panel "/panel/api/groups/bulkRemove" post (members safe checked)
        schemas.any

  unfoldable pub onlines : Call Obj
  unfolding api
  onlines = api net schemas encode now panel "/panel/api/clients/onlines" get empty schemas.fields

  unfoldable pub onlines_by_guid : Call Obj
  unfolding api
  onlines_by_guid =
      api net schemas encode now panel "/panel/api/clients/onlinesByGuid" get empty schemas.fields

  unfoldable pub client_ips_by_guid : Call Obj
  unfolding api
  client_ips_by_guid =
      api net schemas encode now panel "/panel/api/clients/clientIpsByGuid" get empty schemas.fields

  unfoldable pub active_inbounds : Call Obj
  unfolding api
  active_inbounds =
      api net schemas encode now panel "/panel/api/clients/activeInbounds" get empty schemas.fields

  unfoldable pub last_online : Call Obj
  unfolding api
  last_online =
      api net schemas encode now panel "/panel/api/clients/lastOnline" get empty schemas.fields

  unfoldable pub export_clients : Call Obj
  unfolding api
  export_clients =
      api net schemas encode now panel "/panel/api/clients/export" get empty schemas.fields

  unfoldable pub reset_all_traffics : Call (Unit {0})
  unfolding api
  reset_all_traffics =
      api net schemas encode now panel "/panel/api/clients/resetAllTraffics" post empty schemas.any

  unfoldable pub delete_depleted : Call (Unit {0})
  unfolding api
  delete_depleted =
      api net schemas encode now panel "/panel/api/clients/delDepleted" post empty schemas.any

  unfoldable pub delete_orphans : Call (Unit {0})
  unfolding api
  delete_orphans =
      api net schemas encode now panel "/panel/api/clients/delOrphans" post empty schemas.any
