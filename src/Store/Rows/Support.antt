-- ===== src/Store/Rows/Support.antt =====
-- The rows of the support desk, after `Ticket` and `TicketMessage` of prisma/schema.prisma.
use vpn_saas.Base.{ℕ, Option, String}

pub data TicketStatus : Type 0 where
  opened pending_user pending_agent resolved closed reopened : TicketStatus

-- `TicketMessage.senderType`: a text column that the code fills with USER or AGENT.
pub data SenderType : Type 0 where
  user agent : SenderType

pub record Ticket : Type 0 where
  pub id : ℕ
  pub public_id : String
  pub user_id : ℕ
  pub assignee_id : Option ℕ
  pub category : String
  pub subject : String
  pub status : TicketStatus
  pub priority : String
  pub created_at : ℕ
  pub updated_at : ℕ

pub record TicketMessage : Type 0 where
  pub id : ℕ
  pub ticket_id : ℕ
  pub user_id : ℕ
  pub sender_type : SenderType
  pub body : String
  pub read_at : Option ℕ
  pub created_at : ℕ
