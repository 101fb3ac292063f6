-- ===== src/Store/Rows/Clients.antt =====
-- The rows that map subscriptions to the clients of a panel, after `VpnUser` of
-- prisma/schema.prisma.
use vpn_saas.Base.{ℕ, Option, String}

pub data PanelUserStatus : Type 0 where
  active disabled expired limited : PanelUserStatus

pub record VpnUser : Type 0 where
  pub id : ℕ
  pub panel_id : ℕ
  pub panel_user_id : String
  pub user_id : ℕ
  pub subscription_id : Option ℕ
  pub status : PanelUserStatus
  pub used_traffic_bytes : ℕ
  pub total_traffic_bytes : Option ℕ
  pub expiry_at : Option ℕ
  pub sub_link : Option String
  pub sub_token : Option String
  pub last_sync_at : Option ℕ
  pub sync_error : Option String
