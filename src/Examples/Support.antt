-- ===== src/Examples/Support.antt =====
-- Runs of the support desk.
use vpn_saas.Base.{ℕ, ◌≡◌, refl, none, some, List, [], ◌∷◌}
use vpn_saas.Base.Table.{find, count}
use vpn_saas.Examples.{shop}
use vpn_saas.Store.{fresh_id}
use vpn_saas.Store.Rows.{Db}
use vpn_saas.Store.Rows.Support.{Ticket, TicketStatus, closed, pending_agent, reopened, user, agent}
use vpn_saas.Tickets.{
  ReplyInput, TicketInput, has_public_id, of_ticket, is_unread, create_ticket, reply, get_messages,
  update_status, get_ticket,
}
use vpn_saas.Tickets.Reply.{Outcome, reply-Outcome}
use vpn_saas.Tickets.Closed.{
  Call, to_create, to_reply, to_read, to_update, perform, history, history-closed,
}

abbrev asking : TicketInput
asking = record {
  user_id = 7;
  subject = "No access";
  category = "vpn";
  priority = "HIGH";
  message = "It does not connect";
}

abbrev saying : ReplyInput
saying = record { ticket_public_id = "t-1"; sender_id = 7; sender_role = user; message = "Still" }

abbrev ticket_with : TicketStatus → ℕ → Ticket
ticket_with status at = record {
  id = 1;
  public_id = "t-1";
  user_id = 7;
  assignee_id = none;
  category = "vpn";
  subject = "No access";
  status = status;
  priority = "HIGH";
  created_at = 100;
  updated_at = at;
}

unfoldable desk : TicketStatus → Db
unfolding history perform create_ticket update_status
desk status = history (to_create "t-1" 100 asking ∷ to_update 200 "t-1" status none ∷ []) shop

reply-Outcome_example :
    Outcome 300 saying (ticket_with reopened 200) (desk reopened) (reply 300 saying (desk reopened))
unfolding desk fresh_id
reply-Outcome_example =
    reply-Outcome 300 saying (ticket_with reopened 200) (desk reopened) refl refl

abbrev calls : List Call
calls = to_reply 300 saying ∷ to_create "t-2" 310 asking ∷ to_read 320 "t-1" 1 agent ∷ []

history-closed_example :
    (find (has_public_id "t-1") (history calls (desk closed)).tickets
      ≡ some (ticket_with closed 200))
    × (count (of_ticket 1) (history calls (desk closed)).ticket_messages
        ≡ count (of_ticket 1) (desk closed).ticket_messages)
unfolding desk fresh_id
history-closed_example =
    history-closed calls "t-1" (ticket_with closed 200) (desk closed) refl refl ((λ h. refl), tt)
      (refl, (refl, (refl, tt)))

-- An agent reads, and the second reading has no unread message left.
reading :
    count
      (is_unread 1)
      (history (to_read 300 "t-1" 1 agent ∷ []) (desk pending_agent)).ticket_messages
    ≡ 0
unfolding desk history perform get_messages get_ticket create_ticket update_status fresh_id
reading = refl
