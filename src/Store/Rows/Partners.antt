-- ===== src/Store/Rows/Partners.antt =====
-- The rows of the affiliate program, after `AffiliateAccount` and `AffiliateCommission` of
-- prisma/schema.prisma. The rate counts hundredths of a percent.
use vpn_saas.Base.{ℕ, Option, String}
use vpn_saas.Base.Int.{ℤ}

-- `AffiliateCommission.status`: a text column that the code fills with PENDING and PAID.
pub data CommissionStatus : Type 0 where
  pending paid : CommissionStatus

pub record AffiliateAccount : Type 0 where
  pub id : ℕ
  pub user_id : ℕ
  pub code : String
  pub status : String
  pub commission_rate : ℕ
  pub total_earnings : ℤ
  pub available_balance : ℤ
  pub withdrawn_amount : ℤ
  pub payout_method : Option String

pub record AffiliateCommission : Type 0 where
  pub id : ℕ
  pub affiliate_id : ℕ
  pub order_id : ℕ
  pub amount : ℤ
  pub rate : ℕ
  pub status : CommissionStatus
  pub paid_at : Option ℕ
