-- ===== src/Tickets/Reply.antt =====
-- What a reply does, and who may (`reply` of src/modules/tickets/tickets.service.ts).
use vpn_saas.Base.{
  ℕ, ◌≡◌, ◌≢◌, ◌⊎◌, refl, true, false, some, none, ◌==◌, arith, inl, inr, Bool-cases,
}
use mathlib.Core.Path.{subst}
use vpn_saas.Base.Table.{find, update, create, others}
use vpn_saas.Base.Table.Laws.{find-update_same, find_sound, others-update}
use vpn_saas.Store.{Result, ok, err, business, ErrorCode, fresh_id}
use vpn_saas.Store.Rows.{Db}
use vpn_saas.Store.Rows.Support.{
  Ticket, TicketStatus, TicketMessage, SenderType, user, agent, opened, pending_user, pending_agent,
  resolved, closed, reopened,
}
use vpn_saas.Tickets.{
  ReplyInput, TicketMessageDto, has_id, has_public_id, is_closed, is_stranger, answered, waits_for,
  get_ticket, reply, new_message, to_message_dto,
}

-- A reply that has been sent: its message and the ticket's row, which waits as `status` says.
pub record IsSent (now : ℕ) (input : ReplyInput) (t : Ticket) (status : TicketStatus)
    (dto : TicketMessageDto) (db after : Db) : Type 0 where
  pub answer : (dto.body ≡ input.message) × (dto.sender_role ≡ input.sender_role)
  pub row :
      find (has_public_id input.ticket_public_id) after.tickets
      ≡ some (record t { status = status; updated_at = now })
  pub others_kept : others (has_id t.id) after.tickets ≡ others (has_id t.id) db.tickets
  pub message :
      after.ticket_messages
      ≡ create
          (record {
            id = fresh_id (λ (m : TicketMessage). m.id) db.ticket_messages;
            ticket_id = t.id;
            user_id = input.sender_id;
            sender_type = input.sender_role;
            body = input.message;
            read_at = none;
            created_at = now;
          })
          db.ticket_messages
  pub frame :
      after ≡ (record db { tickets = after.tickets; ticket_messages = after.ticket_messages })

-- The ways a reply to a ticket ends.
pub data Outcome (now : ℕ) (input : ReplyInput) (t : Ticket) (db : Db)
    : Result TicketMessageDto × Db → Type 0 where
  not_yours :
      input.sender_role ≡ user
      → t.user_id ≢ input.sender_id
      → Outcome now input t db (err (business ErrorCode.forbidden "Not your ticket"), db)
  shut :
      (input.sender_role ≡ agent) ⊎ (t.user_id ≡ input.sender_id)
      → t.status ≡ closed
      → Outcome now input t db (err (business ErrorCode.conflict "Ticket is closed"), db)
  to_agents :
      (dto : TicketMessageDto) (after : Db)
      → input.sender_role ≡ user
      → t.user_id ≡ input.sender_id
      → t.status ≢ closed
      → IsSent now input t pending_agent dto db after
      → Outcome now input t db (ok dto, after)
  to_user :
      (dto : TicketMessageDto) (after : Db)
      → input.sender_role ≡ agent
      → t.status ≢ closed
      → IsSent now input t pending_user dto db after
      → Outcome now input t db (ok dto, after)

role_of : (r : SenderType) → (r ≡ user) ⊎ (r ≡ agent)
role_of user = inl refl
role_of agent = inr refl

is_closed-eq : (s : TicketStatus) → is_closed s ≡ true → s ≡ closed
is_closed-eq closed h = refl
is_closed-eq opened h = cc
is_closed-eq pending_user h = cc
is_closed-eq pending_agent h = cc
is_closed-eq resolved h = cc
is_closed-eq reopened h = cc

is_closed-ne : (s : TicketStatus) → is_closed s ≡ false → s ≢ closed
is_closed-ne s live e = cc

module _ (now : ℕ) (input : ReplyInput) (t : Ticket) (db : Db)
    (found : find (has_public_id input.ticket_public_id) db.tickets ≡ some t)
    (by_id : find (has_id t.id) db.tickets ≡ some t) where
  sent_message : TicketMessage
  sent_message =
      new_message now t.id input.sender_id input.sender_role input.message db.ticket_messages

  sent_db : Db
  sent_db = record db {
    tickets = update (has_id t.id) (answered now input.sender_role) db.tickets;
    ticket_messages = create sent_message db.ticket_messages;
  }

  sent_db-IsSent :
      IsSent now input t (waits_for input.sender_role) (to_message_dto sent_message) db sent_db
  unfolding sent_message sent_db
  sent_db-IsSent = record {
    answer = (refl, refl);
    row =
        find-update_same (has_id t.id) (has_public_id input.ticket_public_id)
          (answered now input.sender_role) db.tickets by_id found
          (find_sound (has_public_id input.ticket_public_id) db.tickets found);
    others_kept =
        others-update (has_id t.id) (has_id t.id) (answered now input.sender_role) db.tickets
          (λ x h. (h, h));
    message = refl;
    frame = refl;
  }

  -- One who may see the ticket replies to it.
  reply_admitted :
      is_stranger input.sender_role input.sender_id t ≡ false
      → is_closed t.status ≡ false
      → reply now input db ≡ (ok (to_message_dto sent_message), sent_db)
  unfolding reply get_ticket sent_message sent_db
  reply_admitted mine live = rw found (rw mine (rw live refl))

  reply_shut :
      is_stranger input.sender_role input.sender_id t ≡ false
      → is_closed t.status ≡ true
      → reply now input db ≡ (err (business ErrorCode.conflict "Ticket is closed"), db)
  unfolding reply get_ticket
  reply_shut mine done = rw found (rw mine (rw done refl))

  reply_refused :
      is_stranger input.sender_role input.sender_id t ≡ true
      → reply now input db ≡ (err (business ErrorCode.forbidden "Not your ticket"), db)
  unfolding reply get_ticket
  reply_refused stranger = rw found (rw stranger refl)

-- A reply to a ticket that exists, whose public id and id each find it. A user who does not own the
-- ticket is refused, and so is every reply to a closed ticket; both change nothing. Every other
-- reply, which an agent's or the owner's is, adds one message to the ticket, of its sender and with
-- its text, leaves the ticket to the other side (PENDING_AGENT after a user's reply, PENDING_USER
-- after an agent's) at the time of the reply, and changes no other ticket and no other table.
pub reply-Outcome :
    (now : ℕ) (input : ReplyInput) (t : Ticket) (db : Db)
    → find (has_public_id input.ticket_public_id) db.tickets ≡ some t
    → find (has_id t.id) db.tickets ≡ some t
    → Outcome now input t db (reply now input db)
reply-Outcome now input t db found by_id = elim (Bool-cases (is_closed t.status)) [
  | inl done ↦
      let is_shut = is_closed-eq t.status done in
      elim (role_of input.sender_role) [
        | inr theirs ↦
            rw (reply_shut now input t db found by_id (rw theirs refl) done)
              (shut (inl theirs) is_shut)
        | inl users ↦ elim (Bool-cases (t.user_id == input.sender_id)) [
          | inl own ↦
              rw (reply_shut now input t db found by_id (rw (users, own) refl) done)
                (shut (inr (ground arith)) is_shut)
          | inr other ↦
              rw (reply_refused now input t db found by_id (rw (users, other) refl))
                (not_yours users (λ same. ground arith))
        ]
      ]
  | inr live ↦
      let still_open = is_closed-ne t.status live in
      let dto = to_message_dto (sent_message now input t db found by_id) in
      let after = sent_db now input t db found by_id in
      let done = sent_db-IsSent now input t db found by_id in
      elim (role_of input.sender_role) [
        | inr theirs ↦ rw (reply_admitted now input t db found by_id (rw theirs refl) live) (
            to_user dto after theirs still_open
              (subst (λ r. IsSent now input t (waits_for r) dto db after) theirs done))
        | inl users ↦ elim (Bool-cases (t.user_id == input.sender_id)) [
          | inl own ↦ rw (reply_admitted now input t db found by_id (rw (users, own) refl) live) (
              to_agents dto after users (ground arith) still_open
                (subst (λ r. IsSent now input t (waits_for r) dto db after) users done))
          | inr other ↦
              rw (reply_refused now input t db found by_id (rw (users, other) refl))
                (not_yours users (λ same. ground arith))
        ]
      ]
]
