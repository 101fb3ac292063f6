-- ===== src/Tickets/Closed/Calls.antt =====
-- The calls of the service of tickets, and their effects one after the other
-- (src/modules/tickets/tickets.service.ts).
use vpn_saas.Base.{
  ℕ, ◌≡◌, refl, Bool, true, false, Option, none, some, String, List, [], ◌∷◌, str_eq, All,
}
use vpn_saas.Store.Rows.{Db}
use vpn_saas.Store.Rows.Support.{Ticket, TicketStatus, SenderType}
use vpn_saas.Tickets.{
  TicketInput, ReplyInput, has_id, has_public_id, assigned, create_ticket, get_ticket, reply,
  get_messages, update_status,
}

-- The calls that change tickets or their messages, with the clock at each.
pub data Call : Type 0 where
  to_create : String → ℕ → TicketInput → Call
  to_reply : ℕ → ReplyInput → Call
  to_read : ℕ → String → ℕ → SenderType → Call
  to_update : ℕ → String → TicketStatus → Option ℕ → Call

-- The database after a call, whether it has returned or thrown.
unfoldable pub perform : Call → Db → Db
unfolding create_ticket reply get_messages update_status get_ticket
perform (to_create uuid now input) db = (create_ticket uuid now input db).1
perform (to_reply now input) db = (reply now input db).1
perform (to_read now ticket reader role) db = (get_messages now ticket reader role db).1
perform (to_update now ticket status assignee) db = (update_status now ticket status assignee db).1

unfoldable pub history : List Call → Db → Db
unfolding perform
history [] db = db
history (c ∷ cs) db = history cs (perform c db)

-- Whether a call sets the status of a ticket.
abbrev pub sets_status : String → Call → Bool
sets_status public_id (to_update now ticket status assignee) = str_eq ticket public_id
sets_status public_id _ = false

-- The only row with its id.
abbrev pub IsAlone : Ticket → List Ticket → Type 0
IsAlone t ts = All (λ u. has_id t.id u ≡ true → u ≡ t) ts

-- The keys of a ticket stay.
pub assigned-has_id :
    (now : ℕ) (status : TicketStatus) (assignee : Option ℕ) (id : ℕ) (x : Ticket)
    → has_id id (assigned now status assignee x) ≡ has_id id x
assigned-has_id now status none id x = refl
assigned-has_id now status (some a) id x = refl

pub assigned-has_public_id :
    (now : ℕ) (status : TicketStatus) (assignee : Option ℕ) (name : String) (x : Ticket)
    → has_public_id name (assigned now status assignee x) ≡ has_public_id name x
assigned-has_public_id now status none name x = refl
assigned-has_public_id now status (some a) name x = refl
