-- ===== src/Store/Rows/Access.antt =====
-- The rows of sign-in and of programs' access, after `UserSession` and `ApiKey` of
-- prisma/schema.prisma.
use vpn_saas.Base.{ℕ, Bool, Option, String, List}

pub data UserRole : Type 0 where
  super_admin admin operator support user : UserRole

pub data UserStatus : Type 0 where
  active suspended banned pending deleted : UserStatus

pub record UserSession : Type 0 where
  pub id : ℕ
  pub user_id : ℕ
  pub refresh_token_hash : String
  pub user_agent : String
  pub ip_address : String
  pub expires_at : ℕ
  pub revoked_at : Option ℕ

pub record ApiKey : Type 0 where
  pub id : ℕ
  pub public_id : String
  pub name : String
  pub key_hash : String
  pub key_prefix : String
  pub user_id : Option ℕ
  pub scopes : List String
  pub last_used_at : Option ℕ
  pub expires_at : Option ℕ
  pub is_active : Bool
  pub created_at : ℕ
