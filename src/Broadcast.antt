-- ===== src/Broadcast.antt =====
-- BroadcastService (src/modules/notifications/broadcast.service.ts): a message to all users. `bot` is
-- the shared bot, none where it is not set and cannot be made; a bot takes the recipient and the
-- message and tells whether the message has been sent. The log and the pauses between the messages
-- are left out, and so are the names of the records.
pub mod Counts
use vpn_saas.Base.{
  ℕ, zero, suc, ◌+◌, ◌%◌, Bool, true, false, ◌&&◌, not, Option, none, some, String, List, [], ◌∷◌,
  ◌==◌, str_eq, if◌then◌else◌, length,
}
use vpn_saas.Base.Table.{find, find_many, update, count, create}
use vpn_saas.Store.{
  Action, pure, gets, or_throw, throw_if, modify, when, if_action, ◌>>=◌, ◌>>◌, business, ErrorCode,
  Failure, type_error, record_not_found, fresh_id, get_or, is_some, is_none,
}
use vpn_saas.Store.Rows.{User, Db}
use vpn_saas.Store.Rows.Access.{UserRole, UserStatus, active, super_admin, admin, operator, support}
use vpn_saas.Store.Rows.Sites.{Broadcast}

abbrev pub Bot : Type 0
Bot = String → String → Bool

abbrev pub role_name : UserRole → String
role_name super_admin = "SUPER_ADMIN"
role_name admin = "ADMIN"
role_name operator = "OPERATOR"
role_name support = "SUPPORT"
role_name UserRole.user = "USER"

abbrev pub is_active : UserStatus → Bool
is_active active = true
is_active _ = false

-- The target is a role or ALL, as the call that creates a broadcast writes it.
abbrev pub is_target : String → User → Bool
is_target role u =
    is_active u.status && (if str_eq role "ALL" then true else str_eq (role_name u.role) role)

abbrev pub is_recipient : String → User → Bool
is_recipient role u = is_target role u && is_some u.telegram_id

abbrev pub target_role : Option String → String
target_role role = get_or role "ALL"

abbrev pub has_id : ℕ → Broadcast → Bool
has_id id b = b.id == id

abbrev pub new_broadcast : String → String → ℕ → List Broadcast → Broadcast
new_broadcast message role total bs = record {
  id = fresh_id (λ (b : Broadcast). b.id) bs;
  message = message;
  target_role = some role;
  total_count = total;
  sent_count = 0;
  failed_count = 0;
  status = "SCHEDULED";
  started_at = none;
  completed_at = none;
}

-- The record that the call answers with; `processBroadcast` runs on its own afterwards.
unfoldable pub create_and_enqueue : String → Option String → Action (ℕ × ℕ)
create_and_enqueue message role = do
  total ← gets (λ db. count (is_target (target_role role)) db.users)
  b ← gets (λ db. new_broadcast message (target_role role) total db.broadcasts)
  modify (λ db. record db { broadcasts = create b db.broadcasts })
  pure (b.id, total)

-- How many messages have been sent, and how many have failed.
pub record Tally : Type 0 where
  pub sent : ℕ
  pub failed : ℕ

abbrev pub counted : Tally → Broadcast → Broadcast
counted t b = record b { sent_count = t.sent; failed_count = t.failed }

abbrev pub note : ℕ → Tally → Action (Unit {0})
note id t = modify (λ db. record db { broadcasts = update (has_id id) (counted t) db.broadcasts })

abbrev pub address : User → String
address u = get_or u.telegram_id ""

abbrev pub after_message : Bool → Tally → Tally
after_message true t = record t { sent = suc t.sent }
after_message false t = record t { failed = suc t.failed }

-- Progress is noted after every tenth message that has been sent.
abbrev pub is_milestone : Bool → Tally → Bool
is_milestone ok t = ok && (t.sent % 10 == 0)

abbrev pub send_all : Bot → ℕ → String → List User → Tally → Action Tally
send_all bot id message [] t = pure t
send_all bot id message (u ∷ us) t =
    let ok = bot (address u) message in
    let next = after_message ok t in
    when (is_milestone ok next) (note id next) >> send_all bot id message us next

abbrev pub with_status : String → Broadcast → Broadcast
with_status status b = record b { status = status }

abbrev pub started : ℕ → Broadcast → Broadcast
started now b = record b { status = "RUNNING"; started_at = some now }

abbrev pub completed : ℕ → Tally → Broadcast → Broadcast
completed now t b = record b {
  sent_count = t.sent;
  failed_count = t.failed;
  status = "COMPLETED";
  completed_at = some now;
}

abbrev pub run_with : ℕ → ℕ → Broadcast → Option Bot → Action (Unit {0})
run_with later id b none =
    modify
      (λ db. record db { broadcasts = update (has_id id) (with_status "FAILED") db.broadcasts })
run_with later id b (some bot) = do
  users ← gets (λ db. find_many (is_recipient (target_role b.target_role)) db.users)
  t ← send_all bot id b.message users (record { sent = 0; failed = 0 })
  modify (λ db. record db { broadcasts = update (has_id id) (completed later t) db.broadcasts })

abbrev pub process_found : Option Bot → ℕ → ℕ → ℕ → Option Broadcast → Action (Unit {0})
process_found bot now later id none = pure tt
process_found bot now later id (some b) = do
  modify (λ db. record db { broadcasts = update (has_id id) (started now) db.broadcasts })
  run_with later id b bot

unfoldable pub process_broadcast : Option Bot → ℕ → ℕ → ℕ → Action (Unit {0})
process_broadcast bot now later id = do
  found ← gets (λ db. find (has_id id) db.broadcasts)
  process_found bot now later id found

pub record BroadcastStats : Type 0 where
  pub id : ℕ
  pub message : String
  pub target : String
  pub total_recipients : ℕ
  pub sent_count : ℕ
  pub failed_count : ℕ
  pub status : String

abbrev stats_of : Broadcast → BroadcastStats
stats_of b = record {
  id = b.id;
  message = b.message;
  target = target_role b.target_role;
  total_recipients = b.total_count;
  sent_count = b.sent_count;
  failed_count = b.failed_count;
  status = b.status;
}

unfoldable pub get_stats : ℕ → Action BroadcastStats
get_stats id = do
  b ←
      or_throw (← gets (λ db. find (has_id id) db.broadcasts))
        (business ErrorCode.not_found "Broadcast not found")
  pure (stats_of b)

-- The messages of a direct broadcast, counted.
abbrev pub deliver_all : Bot → String → List User → Tally → Tally
deliver_all bot message [] t = t
deliver_all bot message (u ∷ us) t =
    deliver_all bot message us (after_message (bot (address u) message) t)

pub record DirectResult : Type 0 where
  pub sent : ℕ
  pub failed : ℕ
  pub total : ℕ

abbrev pub direct_record : String → ℕ → ℕ → Tally → List Broadcast → Broadcast
direct_record message now total t bs = record {
  id = fresh_id (λ (b : Broadcast). b.id) bs;
  message = message;
  target_role = none;
  total_count = total;
  sent_count = t.sent;
  failed_count = t.failed;
  status = "COMPLETED";
  started_at = none;
  completed_at = some now;
}

abbrev pub direct_with : String → ℕ → List User → Option Bot → Action DirectResult
direct_with message now users none =
    pure (record { sent = 0; failed = length users; total = length users })
direct_with message now users (some bot) = do
  let t = deliver_all bot message users (record { sent = 0; failed = 0 })
  modify (λ db. record db {
    broadcasts = create (direct_record message now (length users) t db.broadcasts) db.broadcasts;
  })
  pure (record { sent = t.sent; failed = t.failed; total = length users })

unfoldable pub send_to_all_active_users : Option Bot → ℕ → String → Action DirectResult
send_to_all_active_users bot now message = do
  users ← gets (λ db. find_many (is_recipient "ALL") db.users)
  direct_with message now users bot

abbrev telegram_of : Option User → Option String
telegram_of none = none
telegram_of (some u) = u.telegram_id

abbrev filled : Option String → Option String
filled none = none
filled (some t) = if str_eq t "" then none else some t

-- A failure of the bot is thrown on.
unfoldable pub send_to_user : Option Bot → ℕ → String → Action (Unit {0})
send_to_user bot user message = do
  telegram ←
      or_throw (← gets (λ db. filled (telegram_of (find (λ (u : User). u.id == user) db.users))))
        (Failure.client_error "User has no Telegram account")
  ready ← or_throw bot (Failure.client_error "Telegram bot is not ready")
  throw_if (not (ready telegram message)) (Failure.client_error "sendMessage")
