-- ===== src/Xui/Users/Shapes.antt =====
-- The users and the clients of a panel as the services and older builds of the panel see them
-- (src/modules/panels/panel-client.interface.ts and xui-panel.client.ts).
use vpn_saas.Base.{ℕ, Bool, Option, String, List}

pub data PanelUserStatus : Type 0 where
  active disabled limited expired : PanelUserStatus

-- Counts of bytes stand for their decimal texts.
pub record PanelUser : Type 0 where
  pub uuid : String
  pub username : List ℕ
  pub status : PanelUserStatus
  pub used_bytes : ℕ
  pub data_limit_bytes : Option ℕ
  pub expiry_ms : Option ℕ
  pub sub_link : String

pub record CreatePanelUserInput : Type 0 where
  pub username : List ℕ
  pub data_limit_bytes : Option ℕ
  pub expire_ms : Option ℕ
  pub device_limit : ℕ
  pub inbound_ids : Option (List ℕ)
  pub sub_id : Option (List ℕ)
  pub telegram_id : Option (List ℕ)

-- A field that is absent stays; one that is null lifts the limit.
pub record UpdatePanelUserInput : Type 0 where
  pub status : Option PanelUserStatus
  pub data_limit_bytes : Option (Option ℕ)
  pub expire_ms : Option (Option ℕ)
  pub device_limit : Option ℕ
  pub sub_id : Option (List ℕ)
  pub telegram_id : Option (List ℕ)
  pub reset_usage : Bool

-- A client as older builds report it.
pub record RawClient : Type 0 where
  pub email : List ℕ
  pub enable : Bool
  pub expiry_time : ℕ
  pub total_gb : ℕ
  pub reset : Option ℕ
  pub up : Option ℕ
  pub down : Option ℕ
  pub sub_id : List ℕ
  pub uuid : Option String
  pub id : Option String

pub record Traffic : Type 0 where
  pub up : ℕ
  pub down : ℕ
  pub total : ℕ
  pub expiry_time : ℕ
  pub sub_id : List ℕ
  pub uuid : String
  pub enable : Bool

pub record ClientTraffic : Type 0 where
  pub used_bytes : ℕ
  pub total_bytes : ℕ
  pub traffic : Traffic

pub record ThreeXuiInbound : Type 0 where
  pub id : ℕ
  pub protocol : List ℕ
  pub enable : Bool

pub record Answers (Obj : Type 0) : Type 0 where
  pub raw_client : Obj → Option RawClient
  pub traffic : Obj → Option Traffic
  pub rows : Obj → Option (List ThreeXuiInbound)
