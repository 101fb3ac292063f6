-- ===== src/Store/Rows/Kinds.antt =====
-- The enumerations of prisma/schema.prisma that the rows use.

pub data WalletTxnType : Type 0 where
  deposit withdraw purchase refund bonus cashback referral_reward gift adjustment voucher_redeem :
      WalletTxnType

pub data WalletTxnStatus : Type 0 where
  pending confirmed failed reversed : WalletTxnStatus

pub data OrderStatus : Type 0 where
  pending paid processing completed failed cancelled refunded : OrderStatus

pub data OrderType : Type 0 where
  new renew upgrade extend gift trial transfer : OrderType

pub data PaymentMethod : Type 0 where
  online card_to_card crypto wallet gift_balance voucher referral_reward : PaymentMethod

pub data PaymentStatus : Type 0 where
  initiated pending awaiting_verify confirmed rejected expired cancelled refunded : PaymentStatus

pub data ReceiptStatus : Type 0 where
  pending approved rejected correction_requested : ReceiptStatus

pub data SubscriptionStatus : Type 0 where
  active expired suspended pending paused cancelled trial : SubscriptionStatus

pub data PlanType : Type 0 where
  traffic time unlimited combination manual automatic trial gift family business multi_device :
      PlanType

-- `Voucher.type`: a text column that the code fills with PLAN or BALANCE.
pub data VoucherType : Type 0 where
  plan balance : VoucherType

pub data ReferralStatus : Type 0 where
  pending completed rewarded cancelled : ReferralStatus

pub data InboundPolicy : Type 0 where
  all_active selected : InboundPolicy
