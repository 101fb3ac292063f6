-- ===== src/Tickets.antt =====
-- TicketsService (src/modules/tickets/tickets.service.ts): the support desk.
-- The messages of a ticket stand in the order in which they were created, which is the order that
-- `getMessages` asks for. `uuid` stands for the public id that the database draws, and `now` for
-- the clock. The lists with filters are left to Pagination; `notifyAgents` only logs.
pub mod Reply
pub mod Closed
use vpn_saas.Base.{
  ℕ, Bool, true, false, ◌&&◌, not, Option, none, some, String, List, map, ◌==◌, str_eq,
}
use vpn_saas.Base.Table.{find, find_many, update, update_many, count, create}
use vpn_saas.Store.{
  Action, pure, gets, or_throw, throw_if, modify, when, ◌>>=◌, ◌>>◌, business, ErrorCode, truthy,
  fresh_id, is_some, is_none,
}
use vpn_saas.Store.Rows.{Db}
use vpn_saas.Store.Rows.Support.{
  Ticket, TicketMessage, TicketStatus, opened, pending_user, pending_agent, resolved, closed,
  reopened, SenderType, user, agent,
}

-- The ids of a dto are left as numbers.
pub record TicketDto : Type 0 where
  pub id : ℕ
  pub public_id : String
  pub subject : String
  pub category : String
  pub priority : String
  pub status : TicketStatus
  pub user_id : ℕ
  pub assignee_id : Option ℕ
  pub message_count : ℕ
  pub last_reply_at : ℕ
  pub created_at : ℕ
  pub updated_at : ℕ

pub record TicketMessageDto : Type 0 where
  pub id : ℕ
  pub public_id : ℕ
  pub ticket_id : ℕ
  pub sender_id : ℕ
  pub sender_role : SenderType
  pub body : String
  pub is_read : Bool
  pub created_at : ℕ

pub record TicketInput : Type 0 where
  pub user_id : ℕ
  pub subject : String
  pub category : String
  pub priority : String
  pub message : String

pub record ReplyInput : Type 0 where
  pub ticket_public_id : String
  pub sender_id : ℕ
  pub sender_role : SenderType
  pub message : String

abbrev pub has_id : ℕ → Ticket → Bool
has_id id t = t.id == id

abbrev pub has_public_id : String → Ticket → Bool
has_public_id public_id t = str_eq t.public_id public_id

-- The messages of a ticket.
abbrev pub of_ticket : ℕ → TicketMessage → Bool
of_ticket id m = m.ticket_id == id

-- `toDto`, with the count that the query includes.
abbrev pub to_dto : Db → Ticket → TicketDto
to_dto db t = record {
  id = t.id;
  public_id = t.public_id;
  subject = t.subject;
  category = t.category;
  priority = t.priority;
  status = t.status;
  user_id = t.user_id;
  assignee_id = t.assignee_id;
  message_count = count (of_ticket t.id) db.ticket_messages;
  last_reply_at = t.updated_at;
  created_at = t.created_at;
  updated_at = t.updated_at;
}

abbrev pub to_message_dto : TicketMessage → TicketMessageDto
to_message_dto m = record {
  id = m.id;
  public_id = m.id;
  ticket_id = m.ticket_id;
  sender_id = m.user_id;
  sender_role = m.sender_type;
  body = m.body;
  is_read = is_some m.read_at;
  created_at = m.created_at;
}

abbrev pub new_ticket : String → ℕ → TicketInput → List Ticket → Ticket
new_ticket uuid now input ts = record {
  id = fresh_id (λ (t : Ticket). t.id) ts;
  public_id = uuid;
  user_id = input.user_id;
  assignee_id = none;
  category = input.category;
  subject = input.subject;
  status = opened;
  priority = input.priority;
  created_at = now;
  updated_at = now;
}

abbrev pub new_message : ℕ → ℕ → ℕ → SenderType → String → List TicketMessage → TicketMessage
new_message now ticket sender type body ms = record {
  id = fresh_id (λ (m : TicketMessage). m.id) ms;
  ticket_id = ticket;
  user_id = sender;
  sender_type = type;
  body = body;
  read_at = none;
  created_at = now;
}

unfoldable pub create_ticket : String → ℕ → TicketInput → Action TicketDto
create_ticket uuid now input = do
  t ← gets (λ db. new_ticket uuid now input db.tickets)
  modify (λ db. record db { tickets = create t db.tickets })
  modify (λ db. record db {
    ticket_messages =
        create (new_message now t.id input.user_id user input.message db.ticket_messages)
          db.ticket_messages;
  })
  gets (λ db. to_dto db t)

abbrev pub is_stranger : SenderType → ℕ → Ticket → Bool
is_stranger user sender t = not (t.user_id == sender)
is_stranger agent sender t = false

unfoldable pub get_ticket : String → ℕ → SenderType → Action Ticket
get_ticket public_id sender role = do
  t ←
      or_throw (← gets (λ db. find (has_public_id public_id) db.tickets))
        (business ErrorCode.not_found "Ticket not found")
  throw_if (is_stranger role sender t) (business ErrorCode.forbidden "Not your ticket")
  pure t

abbrev pub is_closed : TicketStatus → Bool
is_closed closed = true
is_closed _ = false

-- A reply leaves the ticket to the other side.
abbrev pub waits_for : SenderType → TicketStatus
waits_for user = pending_agent
waits_for agent = pending_user

abbrev pub answered : ℕ → SenderType → Ticket → Ticket
answered now role t = record t { status = waits_for role; updated_at = now }

unfoldable pub reply : ℕ → ReplyInput → Action TicketMessageDto
unfolding get_ticket
reply now input = do
  t ← get_ticket input.ticket_public_id input.sender_id input.sender_role
  throw_if (is_closed t.status) (business ErrorCode.conflict "Ticket is closed")
  m ← gets (λ db.
      let ms = db.ticket_messages in
      new_message now t.id input.sender_id input.sender_role input.message ms)
  modify (λ db. record db { ticket_messages = create m db.ticket_messages })
  modify (λ db. record db {
    tickets = update (has_id t.id) (answered now input.sender_role) db.tickets;
  })
  pure (to_message_dto m)

abbrev pub is_agent : SenderType → Bool
is_agent user = false
is_agent agent = true

abbrev pub is_unread : ℕ → TicketMessage → Bool
is_unread ticket m = of_ticket ticket m && (not (is_agent m.sender_type) && is_none m.read_at)

abbrev pub read : ℕ → TicketMessage → TicketMessage
read now m = record m { read_at = some now }

-- The messages are returned as they were before the agent's visit marks them.
unfoldable pub get_messages : ℕ → String → ℕ → SenderType → Action (List TicketMessageDto)
unfolding get_ticket
get_messages now public_id reader role = do
  t ← get_ticket public_id reader role
  ms ← gets (λ db. find_many (of_ticket t.id) db.ticket_messages)
  when (is_agent role) (
      modify (λ db. record db {
        ticket_messages = update_many (is_unread t.id) (read now) db.ticket_messages;
      }))
  pure (map to_message_dto ms)

abbrev pub assigned : ℕ → TicketStatus → Option ℕ → Ticket → Ticket
assigned now status none t = record t { status = status; updated_at = now }
assigned now status (some a) t = record t {
  status = status;
  assignee_id = some a;
  updated_at = now;
}

unfoldable pub update_status : ℕ → String → TicketStatus → Option ℕ → Action TicketDto
update_status now public_id status assignee = do
  t ←
      or_throw (← gets (λ db. find (has_public_id public_id) db.tickets))
        (business ErrorCode.not_found "Ticket not found")
  modify (λ db. record db {
    tickets = update (has_id t.id) (assigned now status (truthy assignee)) db.tickets;
  })
  gets (λ db. to_dto db (assigned now status (truthy assignee) t))
