-- ===== src/Tickets/Closed.antt =====
-- Closed tickets over the calls of the service (src/modules/tickets/tickets.service.ts).
mod Calls
unfoldable pub use Calls.*
use vpn_saas.Base.{
  ℕ, ◌≡◌, refl, sym, ◌∙◌, Bool, true, false, Option, none, some, String, List, [], ◌∷◌, ◌==◌,
  str_eq, ap, str_eq_iff, arith, inl, inr, Bool-cases, Option-cases, All,
}
use vpn_saas.Base.Table.{find, update, count, create}
use vpn_saas.Base.Table.Laws.{
  find_sound, find-create_old, find-none_apart, find-update_apart, count-create,
  count-update_many_other, All-create, All-find, All-update,
}
use vpn_saas.Store.{find-fresh_id, fresh_id, truthy}
use vpn_saas.Store.Rows.{Db}
use vpn_saas.Store.Rows.Support.{
  Ticket, TicketMessage, TicketStatus, closed, SenderType, user, agent,
}
use vpn_saas.Tickets.{
  TicketInput, ReplyInput, has_id, has_public_id, of_ticket, is_unread, read, is_closed,
  is_stranger, answered, assigned, create_ticket, get_ticket, reply, get_messages, update_status,
  new_ticket, new_message,
}

module _ (public_id : String) (t : Ticket) where
  record IsKept (n : ℕ) (db : Db) : Type 0 where
    found : find (has_public_id public_id) db.tickets ≡ some t
    alone : IsAlone t db.tickets
    messages : count (of_ticket t.id) db.ticket_messages ≡ n

  create-IsKept :
      (uuid : String) (now : ℕ) (input : TicketInput) (db : Db) {n : ℕ}
      → IsKept n db
      → IsKept n (create_ticket uuid now input db).1
  unfolding create_ticket
  create-IsKept uuid now input db {n} k =
      let fresh = fresh_id (λ (u : Ticket). u.id) db.tickets in
      let apart : (t.id == fresh) ≡ false =
        find-none_apart (has_public_id public_id) (has_id fresh) db.tickets k.found
          (find-fresh_id (λ (u : Ticket). u.id) db.tickets) in
      let apart' : (fresh == t.id) ≡ false = ground arith in
      record {
        found = find-create_old (has_public_id public_id) _ db.tickets k.found;
        alone =
            All-create (λ u. has_id t.id u ≡ true → u ≡ t) (new_ticket uuid now input db.tickets)
              db.tickets k.alone (λ same. absurd (cc));
        messages =
            count-create (of_ticket t.id)
              (new_message now fresh input.user_id user input.message db.ticket_messages)
              db.ticket_messages
            ∙ rw apart' (rw k.messages (omega arith));
      }

  -- A write on another ticket keeps this one.
  write-IsKept :
      (f : Ticket → Ticket) (ms : List TicketMessage) (db : Db) {n : ℕ} (u : Ticket)
      → IsKept n db
      → has_id t.id u ≡ false
      → ((x : Ticket) → has_id t.id (f x) ≡ has_id t.id x)
      → ((x : Ticket) → has_public_id public_id (f x) ≡ has_public_id public_id x)
      → count (of_ticket t.id) ms ≡ n
      → IsKept n (record db { tickets = update (has_id u.id) f db.tickets; ticket_messages = ms })
  write-IsKept f ms db u k apart keeps_id keeps_name same =
      let apart' : has_id u.id t ≡ false = ground arith in
      record {
        found =
            find-update_apart (has_id u.id) (has_public_id public_id) f db.tickets k.found apart'
              keeps_name;
        alone =
            All-update (λ x. has_id t.id x ≡ true → x ≡ t) (has_id u.id) f db.tickets
              (λ x h hit mine.
                absurd (let mine' : has_id t.id x ≡ true = sym (keeps_id x) ∙ mine in ground arith))
              k.alone;
        messages = same;
      }

  -- A ticket that is not this one has another id.
  other_id :
      (db : Db) (name : String) {n : ℕ} {u : Ticket}
      → IsKept n db
      → find (has_public_id name) db.tickets ≡ some u
      → (u ≡ t → ⊥)
      → has_id t.id u ≡ false
  other_id db name {n} {u} k found differs = elim (Bool-cases (has_id t.id u)) [
    | inr apart ↦ apart
    | inl same ↦ absurd (
        differs (
          All-find (λ x. has_id t.id x ≡ true → x ≡ t) (has_public_id name) db.tickets k.alone found
            same))
  ]

  reply-IsKept :
      (now : ℕ) (input : ReplyInput) (db : Db) {n : ℕ}
      → t.status ≡ closed
      → IsKept n db
      → IsKept n (reply now input db).1
  unfolding reply get_ticket
  reply-IsKept now input db {n} shut k =
      elim (Option-cases (find (has_public_id input.ticket_public_id) db.tickets)) [
        | inl missing ↦ rw missing k
        | inr (u, found) ↦ elim (Bool-cases (is_stranger input.sender_role input.sender_id u)) [
          | inl stranger ↦ rw found (rw stranger k)
          | inr mine ↦ elim (Bool-cases (is_closed u.status)) [
            | inl done ↦ rw found (rw mine (rw done k))
            | inr live ↦
                let apart = other_id db input.ticket_public_id k found (λ same.
                  absurd (let c : is_closed u.status ≡ true = rw (same, shut) refl in cc)) in
                let m =
                  new_message now u.id input.sender_id input.sender_role input.message
                    db.ticket_messages in
                let more : count (of_ticket t.id) (create m db.ticket_messages) ≡ n =
                  count-create (of_ticket t.id) m db.ticket_messages
                  ∙ rw apart (rw k.messages (omega arith)) in
                rw found (
                  rw mine (
                    rw live (
                      write-IsKept (answered now input.sender_role) (create m db.ticket_messages) db
                        u k apart (λ x. refl) (λ x. refl) more)))
          ]
        ]
      ]

  read-IsKept :
      (now : ℕ) (name : String) (reader : ℕ) (role : SenderType) (db : Db) {n : ℕ}
      → IsKept n db
      → IsKept n (get_messages now name reader role db).1
  unfolding get_messages get_ticket
  read-IsKept now name reader user db k =
      elim (Option-cases (find (has_public_id name) db.tickets)) [
        | inl missing ↦ rw missing k
        | inr (u, found) ↦ elim (Bool-cases (is_stranger user reader u)) [
          | inl stranger ↦ rw found (rw stranger k)
          | inr mine ↦ rw found (rw mine k)
        ]
      ]
  read-IsKept now name reader agent db k =
      elim (Option-cases (find (has_public_id name) db.tickets)) [
        | inl missing ↦ rw missing k
        | inr (u, found) ↦ rw found (record {
          found = k.found;
          alone = k.alone;
          messages =
              count-update_many_other (is_unread u.id) (of_ticket t.id) (read now)
                db.ticket_messages (λ x. refl)
              ∙ k.messages;
        })
      ]

  -- A ticket that another name finds is another ticket.
  named_apart :
      (db : Db) (name : String) {n : ℕ} {u : Ticket}
      → IsKept n db
      → str_eq name public_id ≡ false
      → find (has_public_id name) db.tickets ≡ some u
      → u ≡ t
      → ⊥
  named_apart db name {n} {u} k other found same =
      let at_u : str_eq u.public_id name ≡ true =
        find_sound (has_public_id name) db.tickets found in
      let at_t : str_eq t.public_id public_id ≡ true =
        find_sound (has_public_id public_id) db.tickets k.found in
      let here : name ≡ public_id =
        sym ((str_eq_iff u.public_id name).0 at_u)
        ∙ ap (λ (x : Ticket). x.public_id) same
        ∙ (str_eq_iff t.public_id public_id).0 at_t in
      let hit = (str_eq_iff name public_id).1 here in cc

  update-IsKept :
      (now : ℕ) (name : String) (status : TicketStatus) (assignee : Option ℕ) (db : Db) {n : ℕ}
      → str_eq name public_id ≡ false
      → IsKept n db
      → IsKept n (update_status now name status assignee db).1
  unfolding update_status
  update-IsKept now name status assignee db other k =
      elim (Option-cases (find (has_public_id name) db.tickets)) [
        | inl missing ↦ rw missing k
        | inr (u, found) ↦
            let apart = other_id db name k found (λ same. named_apart db name k other found same) in
            rw found (
              write-IsKept (assigned now status (truthy assignee)) db.ticket_messages db u k apart
                (assigned-has_id now status (truthy assignee) t.id)
                (assigned-has_public_id now status (truthy assignee) public_id) k.messages)
      ]

  history-IsKept :
      (calls : List Call) (db : Db) {n : ℕ}
      → t.status ≡ closed
      → All (λ c. sets_status public_id c ≡ false) calls
      → IsKept n db
      → IsKept n (history calls db)
  unfolding history perform
  history-IsKept [] db shut others k = k
  history-IsKept (to_create uuid now input ∷ cs) db shut (_, others) k =
      history-IsKept cs _ shut others (create-IsKept uuid now input db k)
  history-IsKept (to_reply now input ∷ cs) db shut (_, others) k =
      history-IsKept cs _ shut others (reply-IsKept now input db shut k)
  history-IsKept (to_read now name reader role ∷ cs) db shut (_, others) k =
      history-IsKept cs _ shut others (read-IsKept now name reader role db k)
  history-IsKept (to_update now name status assignee ∷ cs) db shut (other, others) k =
      history-IsKept cs _ shut others (update-IsKept now name status assignee db other k)

-- Whatever calls are made of the service, none of which sets the status of a closed ticket: the row
-- of the ticket is as it was, so that it is still closed, and it has as many messages as it had.
-- Its public id is the one looked for, and its id is no other ticket's.
pub history-closed :
    (calls : List Call) (public_id : String) (t : Ticket) (db : Db)
    → t.status ≡ closed
    → find (has_public_id public_id) db.tickets ≡ some t
    → IsAlone t db.tickets
    → All (λ c. sets_status public_id c ≡ false) calls
    → (find (has_public_id public_id) (history calls db).tickets ≡ some t)
      × (count (of_ticket t.id) (history calls db).ticket_messages
          ≡ count (of_ticket t.id) db.ticket_messages)
history-closed calls public_id t db shut found alone others =
    let k =
      history-IsKept public_id t calls db shut others
        (record { found = found; alone = alone; messages = refl }) in
    (k.found, k.messages)
