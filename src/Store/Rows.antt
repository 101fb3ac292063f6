-- ===== src/Store/Rows.antt =====
-- The rows of the tables, after prisma/schema.prisma. Ids are autoincremented from 1; money and
-- traffic are `bigint`s; instants are milliseconds since the epoch. JSON columns are left out.
pub mod Support
pub mod Access
pub mod Clients
pub mod Cards
pub mod Partners
pub mod Sites
mod Kinds
mod Sales
unfoldable pub use Kinds.*
unfoldable pub use Sales.*
use Support.{Ticket, TicketMessage}
use Access.{UserRole, UserStatus, UserSession, ApiKey}
use Clients.{VpnUser}
use Cards.{BankCard, CryptoWallet, CryptoCurrency}
use Sites.{Server, Broadcast}
use Partners.{AffiliateAccount, AffiliateCommission}
use vpn_saas.Base.{ℕ, Bool, Option, String, List}
use vpn_saas.Base.Int.{ℤ}

pub record User : Type 0 where
  pub id : ℕ
  pub public_id : String
  pub telegram_id : Option String
  pub email : Option String
  pub password_hash : Option String
  pub role : UserRole
  pub status : UserStatus
  pub referral_code : String
  pub referred_by_id : Option ℕ

pub record Wallet : Type 0 where
  pub id : ℕ
  pub user_id : ℕ
  pub balance : ℤ
  pub gift_balance : ℤ
  pub total_deposited : ℤ
  pub total_spent : ℤ

pub record WalletTransaction : Type 0 where
  pub id : ℕ
  pub public_id : String
  pub wallet_id : ℕ
  pub type : WalletTxnType
  pub status : WalletTxnStatus
  pub amount : ℤ
  pub fee : ℤ
  pub balance_before : ℤ
  pub balance_after : ℤ
  pub description : Option String
  pub reference : Option String
  pub payment_id : Option ℕ
  pub order_id : Option ℕ

-- `discount_percent` counts hundredths of a percent, as the column `Decimal(5, 2)` does.
pub record Plan : Type 0 where
  pub id : ℕ
  pub public_id : String
  pub name : String
  pub status : String
  pub type : PlanType
  pub is_enabled : Bool
  pub is_trial : Bool
  pub is_renewable : Bool
  pub is_transferable : Bool
  pub price : ℤ
  pub discount_percent : Option ℕ
  pub currency : String
  pub duration_days : Option ℕ
  pub traffic_limit_gb : Option ℕ
  pub traffic_limit_bytes : Option ℕ
  pub device_limit : ℕ
  pub panel_id : Option ℕ
  pub inbound_config_id : Option ℕ
  pub inbound_policy : InboundPolicy

pub record Order : Type 0 where
  pub id : ℕ
  pub public_id : String
  pub user_id : ℕ
  pub plan_id : ℕ
  pub type : OrderType
  pub status : OrderStatus
  pub unit_price : ℤ
  pub quantity : ℕ
  pub discount_amount : ℤ
  pub tax_amount : ℤ
  pub total_amount : ℤ
  pub currency : String
  pub payment_method : Option PaymentMethod
  pub subscription_id : Option ℕ
  pub gift_for_user_id : Option ℕ
  pub completed_at : Option ℕ
  pub cancelled_at : Option ℕ

pub record Payment : Type 0 where
  pub id : ℕ
  pub public_id : String
  pub order_id : Option ℕ
  pub user_id : ℕ
  pub method : PaymentMethod
  pub status : PaymentStatus
  pub amount : ℤ
  pub currency : String
  pub gateway : Option String
  pub gateway_ref : Option String
  pub gateway_status : Option String
  pub gateway_verify_code : Option ℕ
  pub gateway_ref_id : Option String
  pub confirmed_at : Option ℕ

pub record CryptoPayment : Type 0 where
  pub payment_id : ℕ
  pub currency : CryptoCurrency
  pub address : List ℕ
  pub expected_amount : ℤ
  pub expires_at : ℕ

pub record Receipt : Type 0 where
  pub id : ℕ
  pub public_id : String
  pub payment_id : ℕ
  pub order_id : Option ℕ
  pub user_id : ℕ
  pub status : ReceiptStatus
  pub payer_name : String
  pub card_number : Option String
  pub amount : Option ℤ
  pub file_key : String
  pub verified_by_id : Option ℕ
  pub verified_at : Option ℕ
  pub rejection_reason : Option String

pub record SystemSetting : Type 0 where
  pub key : String
  pub value : String

pub record ReferralLog : Type 0 where
  pub id : ℕ
  pub referrer_id : ℕ
  pub referred_id : ℕ
  pub status : ReferralStatus
  pub reward_type : String
  pub referrer_reward : ℤ
  pub referred_reward : ℤ
  pub completed_at : Option ℕ

pub data PanelType : Type 0 where
  xui marzban custom : PanelType

pub record VpnPanel : Type 0 where
  pub id : ℕ
  pub type : PanelType
  pub status : String
  pub api_key : String
  pub sync_status : String
  pub last_sync_at : Option ℕ
  pub last_sync_error : Option String

pub record InboundConfig : Type 0 where
  pub id : ℕ
  pub panel_id : ℕ
  pub server_id : ℕ
  pub inbound_id : ℕ
  pub protocol : String
  pub remark : Option String
  pub port : ℕ
  pub is_active : Bool
  pub is_remote_present : Bool
  pub is_provisionable : Bool
  pub is_excluded : Bool
  pub is_client_compatible : Bool

pub record AuditEntry : Type 0 where
  pub user_id : Option ℕ
  pub action : String
  pub resource : String
  pub resource_id : String

-- A counter of the cache, with the instant at which it is dropped.
pub record Counter : Type 0 where
  pub key : String
  pub value : ℕ
  pub expires_at : Option ℕ

-- The tables, and the counters of the cache.
pub record Db : Type 0 where
  pub users : List User
  pub wallets : List Wallet
  pub transactions : List WalletTransaction
  pub plans : List Plan
  pub orders : List Order
  pub payments : List Payment
  pub crypto_payments : List CryptoPayment
  pub receipts : List Receipt
  pub subscriptions : List Subscription
  pub events : List SubscriptionEvent
  pub vouchers : List Voucher
  pub redemptions : List VoucherRedemption
  pub settings : List SystemSetting
  pub referrals : List ReferralLog
  pub panels : List VpnPanel
  pub servers : List Server
  pub inbounds : List InboundConfig
  pub audits : List AuditEntry
  pub tickets : List Ticket
  pub ticket_messages : List TicketMessage
  pub sessions : List UserSession
  pub api_keys : List ApiKey
  pub vpn_users : List VpnUser
  pub bank_cards : List BankCard
  pub crypto_wallets : List CryptoWallet
  pub broadcasts : List Broadcast
  pub affiliates : List AffiliateAccount
  pub commissions : List AffiliateCommission
  pub counters : List Counter
