-- ===== src/Store/Rows/Sites.antt =====
-- The servers behind the panels and the messages to all users, after `Server` and `Broadcast` of
-- prisma/schema.prisma. `target_role` is the field of a broadcast's metadata, none where there is no
-- text in it.
use vpn_saas.Base.{ℕ, Option, String}

pub record Server : Type 0 where
  pub id : ℕ
  pub panel_id : ℕ

pub record Broadcast : Type 0 where
  pub id : ℕ
  pub message : String
  pub target_role : Option String
  pub total_count : ℕ
  pub sent_count : ℕ
  pub failed_count : ℕ
  pub status : String
  pub started_at : Option ℕ
  pub completed_at : Option ℕ
