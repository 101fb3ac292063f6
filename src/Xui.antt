-- ===== src/Xui.antt =====
-- The client of 3x-ui panels (src/modules/panels/xui-panel.client.ts).
pub mod Wire
pub mod Session
pub mod Retry
pub mod Api
pub mod Clients
pub mod Bulk
pub mod Users
pub mod Sends
