-- ===== src/Store/Rows/Sales.antt =====
-- Subscriptions and vouchers, after prisma/schema.prisma.
use vpn_saas.Base.{ℕ, Bool, Option, String, List}
use vpn_saas.Base.Int.{ℤ}
use vpn_saas.Store.Rows.Kinds.{SubscriptionStatus, PlanType, VoucherType}

pub record Subscription : Type 0 where
  pub id : ℕ
  pub public_id : String
  pub user_id : ℕ
  pub plan_id : ℕ
  pub order_id : Option ℕ
  pub status : SubscriptionStatus
  pub type : PlanType
  pub traffic_limit_bytes : Option ℕ
  pub used_traffic_bytes : ℕ
  pub duration_days : Option ℕ
  pub starts_at : ℕ
  pub expires_at : Option ℕ
  pub paused_at : Option ℕ
  pub device_limit : ℕ
  pub subscription_link : Option String
  pub provisioning_panel_id : Option ℕ
  pub provisioning_inbound_ids : List ℕ
  pub is_trial : Bool

pub record SubscriptionEvent : Type 0 where
  pub subscription_id : ℕ
  pub event : String
  pub order_id : Option ℕ

pub record Voucher : Type 0 where
  pub id : ℕ
  pub public_id : String
  pub code : List ℕ
  pub type : VoucherType
  pub amount : Option ℤ
  pub plan_id : Option ℕ
  pub traffic_limit_gb : Option ℕ
  pub duration_days : Option ℕ
  pub device_limit : Option ℕ
  pub max_redemptions : ℕ
  pub redemptions : ℕ
  pub expires_at : Option ℕ
  pub redeemed_by_id : Option ℕ
  pub used_by_telegram_id : Option String
  pub used_by_ip : Option String
  pub redeemed_at : Option ℕ
  pub is_active : Bool
  pub created_by_id : Option ℕ
  pub batch_id : Option String
  pub note : Option String

pub record VoucherRedemption : Type 0 where
  pub id : ℕ
  pub voucher_id : ℕ
  pub user_id : ℕ
  pub subscription_id : ℕ
  pub telegram_id : String
  pub ip_address : Option String
