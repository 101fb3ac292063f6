-- ===== src/Inbounds.antt =====
-- PanelInboundsService (src/modules/panels/panel-inbounds.service.ts): the rows of a panel's inbounds
-- are brought in line with what the panel lists. `listed` stands for the listing of the panel's
-- client (Xui.Clients), none where it throws; `upper` for `toUpperCase`. One synchronization of a
-- panel runs at a time, as the map of the active ones makes it; the eligible inbounds are in Vpn.
pub mod Mirror
pub mod Sync
use vpn_saas.Base.{
  ℕ, ◌+◌, Bool, true, false, ◌&&◌, ◌||◌, not, Option, none, some, String, List, [], ◌∷◌, ◌==◌,
  str_eq, if◌then◌else◌, length,
}
use vpn_saas.Base.Table.{find, find_many, update, update_many, count, create}
use vpn_saas.Base.Texts.{all_digits, number_from, codes, same_codes}
use vpn_saas.Store.{
  Action, pure, gets, or_throw, throw, throw_if, modify, with_transaction, on_error, if_action,
  ◌>>=◌, ◌>>◌, business, ErrorCode, Failure, client_error, get_or, is_some, fresh_id,
}
use vpn_saas.Store.Rows.{VpnPanel, PanelType, InboundConfig, Db}
use vpn_saas.Store.Rows.Sites.{Server}
use vpn_saas.Panels.{PanelConnection, get_connection, get_client}
use vpn_saas.Vpn.{is_active_xui, is_eligible}
use vpn_saas.Xui.Clients.{XuiInbound}

pub record InboundSyncResult : Type 0 where
  pub discovered : ℕ
  pub created : ℕ
  pub updated : ℕ
  pub unavailable : ℕ
  pub excluded : ℕ
  pub eligible : ℕ

abbrev pub conflict : String → Failure
conflict message = business ErrorCode.conflict message

abbrev pub is_inbound : ℕ → ℕ → InboundConfig → Bool
is_inbound panel n i = i.panel_id == panel && i.inbound_id == n

abbrev among : List String → List ℕ → String
among [] text = "ANY"
among (p ∷ ps) text = if same_codes (codes p) text then p else among ps text

abbrev pub protocol : (List ℕ → List ℕ) → List ℕ → String
protocol upper text =
    among ("VMESS" ∷ "VLESS" ∷ "TROJAN" ∷ "SHADOWSOCKS" ∷ "WIREGUARD" ∷ "REALITY" ∷ []) (upper text)

abbrev filled : String → Option String
filled text = if str_eq text "" then none else some text

abbrev or_tag : Option String → Option String → Option String
or_tag none none = none
or_tag none (some tag) = filled tag
or_tag (some remark) tag = some remark

abbrev pub remark_of : XuiInbound → Option String
remark_of r = or_tag (filled r.remark) r.tag

abbrev pub created_row : (List ℕ → List ℕ) → ℕ → ℕ → XuiInbound → List InboundConfig → InboundConfig
created_row upper panel server r rows = record {
  id = fresh_id (λ (i : InboundConfig). i.id) rows;
  panel_id = panel;
  server_id = server;
  inbound_id = r.id;
  protocol = protocol upper r.protocol;
  remark = remark_of r;
  port = r.port;
  is_active = r.enabled;
  is_remote_present = true;
  is_provisionable = true;
  is_excluded = false;
  is_client_compatible = r.client_compatible;
}

abbrev pub updated_row : (List ℕ → List ℕ) → XuiInbound → InboundConfig → InboundConfig
updated_row upper r i = record i {
  protocol = protocol upper r.protocol;
  remark = remark_of r;
  port = r.port;
  is_active = r.enabled;
  is_remote_present = true;
  is_client_compatible = r.client_compatible;
}

abbrev pub is_remote : List XuiInbound → ℕ → Bool
is_remote [] n = false
is_remote (r ∷ rs) n = r.id == n || is_remote rs n

abbrev pub is_gone : ℕ → List XuiInbound → InboundConfig → Bool
is_gone panel remote i =
    i.panel_id == panel && not (is_remote remote i.inbound_id) && i.is_remote_present

abbrev pub withdrawn : InboundConfig → InboundConfig
withdrawn i = record i {
  is_remote_present = false;
  is_active = false;
  is_client_compatible = false;
}

abbrev pub with_sync : String → Option ℕ → Option String → VpnPanel → VpnPanel
with_sync status at error p = record p {
  sync_status = status;
  last_sync_at = at;
  last_sync_error = error;
}

abbrev failed : VpnPanel → VpnPanel
failed p = with_sync "FAILED" p.last_sync_at (some "Inbound synchronization failed") p

abbrev pub is_panel : ℕ → VpnPanel → Bool
is_panel id p = p.id == id

abbrev excluded_of : Option InboundConfig → Bool
excluded_of none = false
excluded_of (some i) = i.is_excluded

module _ (upper : List ℕ → List ℕ) (panel : ℕ) where
  abbrev pub put : ℕ → XuiInbound → Option InboundConfig → List InboundConfig → List InboundConfig
  put server r none rows = create (created_row upper panel server r rows) rows
  put server r (some i) rows = update (is_inbound panel r.id) (updated_row upper r) rows

  abbrev pub upsert : ℕ → XuiInbound → List InboundConfig → List InboundConfig
  upsert server r rows = put server r (find (is_inbound panel r.id) rows) rows

  abbrev pub upsert_all : ℕ → List XuiInbound → List InboundConfig → List InboundConfig
  upsert_all server [] rows = rows
  upsert_all server (r ∷ rs) rows = upsert_all server rs (upsert server r rows)

  abbrev pub as_seen : ℕ → List InboundConfig → XuiInbound → InboundConfig
  as_seen server existing r =
      updated_row upper r
        (get_or (find (is_inbound panel r.id) existing) (created_row upper panel server r []))

  abbrev pub sync_result : ℕ → List InboundConfig → List XuiInbound → ℕ → InboundSyncResult
  sync_result server existing remote unavailable = record {
    discovered = length remote;
    created =
        count (λ (r : XuiInbound). not (is_some (find (is_inbound panel r.id) existing))) remote;
    updated = count (λ (r : XuiInbound). is_some (find (is_inbound panel r.id) existing)) remote;
    unavailable = unavailable;
    excluded =
        count (λ (r : XuiInbound). excluded_of (find (is_inbound panel r.id) existing)) remote;
    eligible = count (λ (r : XuiInbound). is_eligible (as_seen server existing r)) remote;
  }

module _ (decrypt : String → Option String) (upper : List ℕ → List ℕ)
    (listed : PanelConnection → Option (List XuiInbound)) (now panel : ℕ) where
  unfoldable pub store_inbounds : ℕ → List XuiInbound → Action InboundSyncResult
  store_inbounds server remote = with_transaction (do
    existing ← gets (λ db. db.inbounds)
    modify (λ db. record db { inbounds = upsert_all upper panel server remote db.inbounds })
    unavailable ← gets (λ db. count (is_gone panel remote) db.inbounds)
    modify (λ db. record db {
      inbounds = update_many (is_gone panel remote) withdrawn db.inbounds;
      panels = update (is_panel panel) (with_sync "SYNCED" (some now) none) db.panels;
    })
    pure (sync_result upper panel server existing remote unavailable))

  abbrev pub listing : Action (List XuiInbound)
  listing = do
    connection ← get_connection decrypt panel
    get_client PanelType.xui
    or_throw (listed connection) (client_error "")

  -- A listing that fails is noted on the panel.
  abbrev pub note_failure : Failure → Action (List XuiInbound)
  note_failure e = do
    modify (λ db. record db { panels = update (is_panel panel) failed db.panels })
    throw (conflict "XUI inbound synchronization failed")

  unfoldable pub perform_sync : Action InboundSyncResult
  unfolding store_inbounds get_connection get_client
  perform_sync = do
    p ←
        or_throw (← gets (λ db. find (is_panel panel) db.panels))
          (business ErrorCode.not_found "Panel not found")
    throw_if (not (is_active_xui p)) (conflict "Panel is not an enabled XUI panel")
    server ←
        or_throw (← gets (λ db. find (λ (s : Server). s.panel_id == panel) db.servers))
          (conflict "Panel has no server for inbound synchronization")
    remote ← on_error listing note_failure
    store_inbounds server.id remote

-- The id of the panel in decimal.
unfoldable pub sync_panel_inbounds :
    (String → Option String)
    → (List ℕ → List ℕ)
    → (PanelConnection → Option (List XuiInbound))
    → ℕ
    → List ℕ
    → Action InboundSyncResult
unfolding perform_sync
sync_panel_inbounds decrypt upper listed now text =
    if_action (all_digits text && not (length text == 0))
      (perform_sync decrypt upper listed now (number_from 0 text))
      (throw (business ErrorCode.not_found "Panel not found"))
