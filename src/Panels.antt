-- ===== src/Panels.antt =====
-- How a panel is reached: `getClient` and `getConnection` of src/modules/panels/panels.service.ts.
-- The map of clients has one for XUI alone (panels.module.ts). `decrypt` stands for the decryption
-- of the stored key, none where it throws. The addresses of the connection are left out.
use vpn_saas.Base.{ℕ, Option, String, ◌==◌, str_eq, not}
use vpn_saas.Base.Table.{find}
use vpn_saas.Store.{
  Action, pure, gets, or_throw, throw, throw_if, ◌>>=◌, ◌>>◌, business, ErrorCode, Failure,
}
use vpn_saas.Store.Rows.{VpnPanel, PanelType, xui, marzban, custom}

pub record PanelConnection : Type 0 where
  pub id : ℕ
  pub type : PanelType
  pub api_key : String

abbrev pub no_client : String → Failure
no_client message = business ErrorCode.conflict message

-- It returns where there is a client for the type.
unfoldable pub get_client : PanelType → Action (Unit {0})
get_client xui = pure tt
get_client marzban = throw (no_client "No panel client for type 'MARZBAN'")
get_client custom = throw (no_client "No panel client for type 'CUSTOM'")

unfoldable pub get_connection : (String → Option String) → ℕ → Action PanelConnection
get_connection decrypt panel_id = do
  panel ←
      or_throw (← gets (λ db. find (λ (p : VpnPanel). p.id == panel_id) db.panels))
        (business ErrorCode.not_found "Panel not found")
  throw_if (not (str_eq panel.status "ACTIVE")) (business ErrorCode.conflict "Panel is inactive")
  key ← or_throw (decrypt panel.api_key) Failure.decryption_error
  pure (record { id = panel.id; type = panel.type; api_key = key })
