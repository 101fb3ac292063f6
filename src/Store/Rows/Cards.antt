-- ===== src/Store/Rows/Cards.antt =====
-- The rows of the cards and the wallets that users pay to, after `BankCard` and `CryptoWallet` of
-- prisma/schema.prisma. The texts that the code takes apart are lists of code points.
use vpn_saas.Base.{ℕ, Bool, Option, String, List}

pub record BankCard : Type 0 where
  pub id : ℕ
  pub public_id : String
  pub card_number : List ℕ
  pub card_holder : List ℕ
  pub bank_name : List ℕ
  pub sheba_number : Option (List ℕ)
  pub label : Option String
  pub is_active : Bool
  pub is_default : Bool
  pub sort_order : ℕ
  pub created_by_id : Option ℕ

pub data CryptoCurrency : Type 0 where
  usdt_trc20 usdt_erc20 ton btc eth : CryptoCurrency

pub record CryptoWallet : Type 0 where
  pub id : ℕ
  pub public_id : String
  pub currency : CryptoCurrency
  pub label : Option String
  pub address : List ℕ
  pub network : Option String
  pub instructions : Option String
  pub qr_code_url : Option String
  pub is_active : Bool
  pub is_default : Bool
  pub sort_order : ℕ
  pub created_by_id : Option ℕ
