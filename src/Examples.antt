-- ===== src/Examples.antt =====
-- Test data, and runs of the theorems on it in the children.
mod Numbers
mod Wallets
mod Purchases
mod Settlements
mod Support
mod Access
mod Clients
mod Payees
mod Partners
mod Panels
mod Deposits
mod Messages
use vpn_saas.Base.{
  ℕ, Bool, true, false, Option, none, some, List, [], ◌∷◌, String, str_eq, ◌==◌, if◌then◌else◌,
}
use vpn_saas.Base.Int.{ℤ, pos}
use vpn_saas.Store.{Result, ok, err, pure}
use vpn_saas.Store.Rows.{
  User, Wallet, WalletTransaction, WalletTxnType, WalletTxnStatus, Plan, PlanType, InboundPolicy,
  Order, OrderType, OrderStatus, Payment, PaymentMethod, PaymentStatus, Receipt, ReceiptStatus,
  Voucher, VoucherType, SystemSetting, VpnPanel, PanelType, InboundConfig, Db,
}
use vpn_saas.Store.Rows.Access.{UserRole, UserStatus}
use vpn_saas.Wallet.{WalletMutation, Direction, credit, debit}
use vpn_saas.Orders.Commission.{Conversions}
use vpn_saas.Payments.{Services, Uuids}
use vpn_saas.Payments.Receipts.{VerifyInput, Verdict}
use vpn_saas.Vouchers.{Redeemer}

abbrev pub value_or : {A : Type 0} → A → Result A → A
value_or d (ok a) = a
value_or d (err e) = d

-- The buyer's wallet holds 500; the buyer was referred by user 3.
abbrev pub buyer_wallet : Wallet
buyer_wallet = record {
  id = 1;
  user_id = 7;
  balance = pos 500;
  gift_balance = pos 0;
  total_deposited = pos 0;
  total_spent = pos 0;
}

abbrev pub monthly : Plan
monthly = record {
  id = 2;
  public_id = "plan-2";
  name = "Monthly";
  status = "ACTIVE";
  type = PlanType.time;
  is_enabled = true;
  is_trial = false;
  is_renewable = true;
  is_transferable = true;
  price = pos 300;
  discount_percent = some 1000;
  currency = "IRT";
  duration_days = some 30;
  traffic_limit_gb = some 10;
  traffic_limit_bytes = none;
  device_limit = 2;
  panel_id = none;
  inbound_config_id = none;
  inbound_policy = InboundPolicy.all_active;
}

abbrev pub order_of : ℤ → Order
order_of total = record {
  id = 1;
  public_id = "order-1";
  user_id = 7;
  plan_id = 2;
  type = OrderType.new;
  status = OrderStatus.pending;
  unit_price = total;
  quantity = 1;
  discount_amount = pos 30;
  tax_amount = pos 0;
  total_amount = total;
  currency = "IRT";
  payment_method = none;
  subscription_id = none;
  gift_for_user_id = none;
  completed_at = none;
  cancelled_at = none;
}

-- A top-up of 200 by card, whose receipt waits.
abbrev pub card_payment : Payment
card_payment = record {
  id = 4;
  public_id = "payment-4";
  order_id = none;
  user_id = 7;
  method = PaymentMethod.card_to_card;
  status = PaymentStatus.awaiting_verify;
  amount = pos 200;
  currency = "IRR";
  gateway = none;
  gateway_ref = none;
  gateway_status = none;
  gateway_verify_code = none;
  gateway_ref_id = none;
  confirmed_at = none;
}

abbrev pub card_receipt : Receipt
card_receipt = record {
  id = 6;
  public_id = "receipt-6";
  payment_id = 4;
  order_id = none;
  user_id = 7;
  status = ReceiptStatus.pending;
  payer_name = "Payer";
  card_number = none;
  amount = some (pos 200);
  file_key = "receipt.png";
  verified_by_id = none;
  verified_at = none;
  rejection_reason = none;
}

abbrev pub two_uses : Voucher
two_uses = record {
  id = 5;
  public_id = "voucher-5";
  code = b'A' ∷ b'1' ∷ [];
  type = VoucherType.plan;
  amount = none;
  plan_id = some 2;
  traffic_limit_gb = none;
  duration_days = none;
  device_limit = none;
  max_redemptions = 2;
  redemptions = 1;
  expires_at = some 1000;
  redeemed_by_id = none;
  used_by_telegram_id = none;
  used_by_ip = none;
  redeemed_at = none;
  is_active = true;
  created_by_id = none;
  batch_id = none;
  note = none;
}

-- A user who signs in as "3@mail" or "7@mail" with the password whose hash is "hash".
abbrev pub user_of : ℕ → Option ℕ → User
user_of id referrer = record {
  id = id;
  public_id = "user";
  telegram_id = none;
  email = some (if id == 3 then "3@mail" else "7@mail");
  password_hash = some "hash";
  role = UserRole.user;
  status = UserStatus.active;
  referral_code = "CODE";
  referred_by_id = referrer;
}

abbrev pub online_panel : VpnPanel
online_panel = record {
  id = 1;
  type = PanelType.xui;
  status = "ACTIVE";
  api_key = "key";
  sync_status = "IDLE";
  last_sync_at = none;
  last_sync_error = none;
}

abbrev pub shop_with : Order → Payment → Db
shop_with order payment = record {
  users = user_of 3 none ∷ user_of 7 (some 3) ∷ [];
  wallets = buyer_wallet ∷ [];
  transactions = [];
  plans = monthly ∷ [];
  orders = order ∷ [];
  payments = payment ∷ [];
  crypto_payments = [];
  receipts = card_receipt ∷ [];
  subscriptions = [];
  events = [];
  vouchers = two_uses ∷ [];
  redemptions = [];
  settings = record { key = "referral.commissionPercent"; value = "10" } ∷ [];
  referrals = [];
  panels = online_panel ∷ [];
  servers = record { id = 1; panel_id = 1 } ∷ [];
  inbounds =
      record {
        id = 8;
        panel_id = 1;
        server_id = 1;
        inbound_id = 12;
        protocol = "VLESS";
        remark = none;
        port = 443;
        is_active = true;
        is_remote_present = true;
        is_provisionable = true;
        is_excluded = false;
        is_client_compatible = true;
      }
      ∷ [];
  audits = [];
  tickets = [];
  ticket_messages = [];
  sessions = [];
  api_keys = [];
  vpn_users = [];
  bank_cards = [];
  crypto_wallets = [];
  broadcasts = [];
  affiliates = [];
  commissions = [];
  counters = [];
}

abbrev pub shop : Db
shop = shop_with (order_of (pos 270)) card_payment

abbrev pub numbers : Conversions
numbers = record {
  trunc_number = λ text. if str_eq text "10" then some (pos 10) else none;
  big_int = λ text. if str_eq text "0" then some (pos 0) else none;
}

abbrev pub services : Services
services = record {
  create_vpn_user = λ id. pure tt;
  notify_settlement = λ payment event. pure tt;
  notify_user = λ user event. pure tt;
  vpn_link = λ id db. some "link";
}

abbrev pub draws : Uuids
draws = record { payment = "p"; movement = "m"; subscription = "s"; commission = "c" }

abbrev pub rejecting : VerifyInput
rejecting = record {
  admin_id = 1;
  receipt_public_id = "receipt-6";
  verdict = Verdict.reject;
  admin_note = some "unreadable";
}

abbrev pub approving : VerifyInput
approving = record {
  admin_id = 1;
  receipt_public_id = "receipt-6";
  verdict = Verdict.approve;
  admin_note = none;
}

abbrev pub redeemer : Redeemer
redeemer = record { user_id = 7; telegram_id = "700"; ip = none }

abbrev pub move_of : Direction → ℤ → WalletMutation
move_of direction amount = record {
  user_id = 7;
  type = WalletTxnType.adjustment;
  amount = amount;
  direction = direction;
  description = none;
  reference = none;
  payment_id = some 9;
  order_id = none;
  status = none;
  use_gift_balance = false;
}
