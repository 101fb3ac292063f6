-- ===== src/Broadcast/Counts.antt =====
-- What a broadcast counts (src/modules/notifications/broadcast.service.ts).
use vpn_saas.Base.{
  ℕ, ◌+◌, ◌≡◌, refl, ◌∙◌, ap, Bool, true, false, ◌&&◌, ◌||◌, not, Option, none, some, String, List,
  [], ◌∷◌, arith, inl, inr, Bool-cases, str_eq,
}
use mathlib.Core.Path.{ap₂}
use vpn_saas.Base.Table.{find, find_many, update, count, others}
use vpn_saas.Base.Table.Laws.{
  find_sound, find-update_same, others-update, find_many-cong, count-find_many_also,
}
use vpn_saas.Store.{ok, get_or, is_some}
use vpn_saas.Store.Rows.{User, Db}
use vpn_saas.Store.Rows.Access.{UserStatus, active, suspended, banned, pending, deleted}
use vpn_saas.Store.Rows.Sites.{Broadcast}
use vpn_saas.Broadcast.{
  Bot, Tally, address, after_message, is_milestone, note, counted, send_all, deliver_all, has_id,
  is_active, is_recipient, role_name, target_role, process_broadcast, started, completed,
}

abbrev is_in_use : UserStatus → Bool
is_in_use active = true
is_in_use _ = false

abbrev is_meant : Option String → User → Bool
is_meant none u = true
is_meant (some role) u = str_eq role "ALL" || str_eq (role_name u.role) role

-- The users that a broadcast is sent to: they have a Telegram account, are active and are of the
-- target role, where one is named.
abbrev pub hears : Option String → User → Bool
hears role u = is_some u.telegram_id && (is_in_use u.status && is_meant role u)

-- The users that a message is sent to with success, and without.
abbrev pub reached : Bot → String → User → Bool
reached bot message u = bot (get_or u.telegram_id "") message

is_in_use-active : (s : UserStatus) → is_in_use s ≡ is_active s
is_in_use-active active = refl
is_in_use-active suspended = refl
is_in_use-active banned = refl
is_in_use-active pending = refl
is_in_use-active deleted = refl

test_order : (a b c : Bool) → (a && c) && b ≡ b && (a && c)
test_order true true c = ground arith
test_order true false c = ground arith
test_order false true c = ground arith
test_order false false c = ground arith

hears-is_recipient :
    (role : Option String) (u : User) → is_recipient (target_role role) u ≡ hears role u
hears-is_recipient none u =
    rw (is_in_use-active u.status) (test_order (is_active u.status) (is_some u.telegram_id) true)
hears-is_recipient (some role) u = elim (Bool-cases (str_eq role "ALL")) [
  | inl all ↦
      rw (is_in_use-active u.status, all)
        (test_order (is_active u.status) (is_some u.telegram_id) true)
  | inr named ↦
      rw (is_in_use-active u.status, named)
        (test_order (is_active u.status) (is_some u.telegram_id) (str_eq (role_name u.role) role))
]

abbrev tally_of : ℕ → ℕ → Tally
tally_of s f = record { sent = s; failed = f }

-- The tally counts the messages that were sent and those that failed.
tally-eq :
    (bot : Bot) (message : String) (us : List User) (t : Tally)
    → deliver_all bot message us t ≡ (record {
      sent = t.sent + count (reached bot message) us;
      failed = t.failed + count (λ u. not (reached bot message u)) us;
    })
tally-eq bot message [] t = ap₂ tally_of (omega arith) (omega arith)
tally-eq bot message (u ∷ us) t = elim (Bool-cases (reached bot message u)) [
  | inl sent ↦
      rw sent (tally-eq bot message us (after_message true t) ∙ ap₂ tally_of (omega arith) refl)
  | inr lost ↦
      rw lost (tally-eq bot message us (after_message false t) ∙ ap₂ tally_of refl (omega arith))
]

-- Those of a test that pass a second one and those that do not are all of them.
count-split :
    {A : Type 0} (p q : A → Bool) (xs : List A)
    → count (λ x. p x && q x) xs + count (λ x. p x && not (q x)) xs ≡ count p xs
count-split p q [] = refl
count-split p q (x ∷ xs) = ground (arith, count-split p q xs)

-- What `send_all` leaves of the broadcasts: the rows but for the counts of this broadcast.
send_all-run :
    (bot : Bot) (id : ℕ) (message : String) (us : List User) (t : Tally) (db : Db) {b : Broadcast}
    → find (has_id id) db.broadcasts ≡ some b
    → (after : Db) × (s : ℕ) × (f : ℕ) × (send_all bot id message us t db
        ≡ (ok (deliver_all bot message us t), after))
      × (find (has_id id) after.broadcasts ≡ some (record b { sent_count = s; failed_count = f }))
      × (others (has_id id) after.broadcasts ≡ others (has_id id) db.broadcasts)
      × (after ≡ (record db { broadcasts = after.broadcasts }))
send_all-run bot id message [] t db {b} found =
    (db, b.sent_count, b.failed_count, refl, found, refl, refl)
send_all-run bot id message (u ∷ us) t db {b} found =
    let ok_sent = bot (address u) message in
    let next = after_message ok_sent t in
    elim (Bool-cases (is_milestone ok_sent next)) [
      | inl tenth ↦
          let marked : find (has_id id) (update (has_id id) (counted next) db.broadcasts)
              ≡ some (counted next b) =
            find-update_same (has_id id) (has_id id) (counted next) db.broadcasts found found
              (find_sound (has_id id) db.broadcasts found) in
          let (after, s, f, run, there, apart, frame) =
            send_all-run bot id message us next (note id next db).1 marked in
          let kept =
            others-update (has_id id) (has_id id) (counted next) db.broadcasts (λ x h. (h, h)) in
          (after, s, f, rw tenth run, there, apart ∙ kept, frame)
      | inr between ↦
          let (after, s, f, run, there, apart, frame) =
            send_all-run bot id message us next db found in
          (after, s, f, rw between run, there, apart, frame)
    ]

from_zero : (n : ℕ) → 0 + n ≡ n
from_zero n = omega arith

-- A broadcast that exists, with a bot that is ready, is processed to its end whatever messages
-- fail: its record is COMPLETED, started at the time of the start and completed at the time of the
-- end, and counts as sent the users of its audience (active, with a Telegram account, of the target
-- role if there is one) whose message the bot has sent and as failed those whose message it has not,
-- which together are the audience; other broadcasts and every other table are as they were.
pub process_broadcast-completed :
    (bot : Bot) (now later id : ℕ) (db : Db) {b : Broadcast}
    → find (has_id id) db.broadcasts ≡ some b
    → let sent = count (λ u. hears b.target_role u && reached bot b.message u) db.users in
      let failed = count (λ u. hears b.target_role u && not (reached bot b.message u)) db.users in
      (after : Db) × (process_broadcast (some bot) now later id db ≡ (ok tt, after))
      × (find (has_id id) after.broadcasts
          ≡ some (record b {
            status = "COMPLETED";
            started_at = some now;
            completed_at = some later;
            sent_count = sent;
            failed_count = failed;
          }))
      × (sent + failed ≡ count (hears b.target_role) db.users)
      × (others (has_id id) after.broadcasts ≡ others (has_id id) db.broadcasts)
      × (after ≡ (record db { broadcasts = after.broadcasts }))
unfolding process_broadcast
process_broadcast-completed bot now later id db {b} found =
    let opened = update (has_id id) (started now) db.broadcasts in
    let db1 : Db = record db { broadcasts = opened } in
    let running : find (has_id id) opened ≡ some (started now b) =
      find-update_same (has_id id) (has_id id) (started now) db.broadcasts found found
        (find_sound (has_id id) db.broadcasts found) in
    let users = find_many (is_recipient (target_role b.target_role)) db.users in
    let audience : users ≡ find_many (hears b.target_role) db.users =
      find_many-cong (is_recipient (target_role b.target_role)) (hears b.target_role) db.users
        (hears-is_recipient b.target_role) in
    let zero_tally = tally_of 0 0 in
    let t = deliver_all bot b.message users zero_tally in
    let sum : t
        ≡ tally_of (count (λ u. hears b.target_role u && reached bot b.message u) db.users)
            (count (λ u. hears b.target_role u && not (reached bot b.message u)) db.users) =
      tally-eq bot b.message users zero_tally
      ∙ ap₂ tally_of
          (from_zero _
            ∙ ap (count (reached bot b.message)) audience
            ∙ count-find_many_also (reached bot b.message) (hears b.target_role) db.users)
          (from_zero _
            ∙ ap (count (λ u. not (reached bot b.message u))) audience
            ∙ count-find_many_also (λ u. not (reached bot b.message u)) (hears b.target_role)
                db.users) in
    let (s2, s, f, run, there, apart, frame) =
      send_all-run bot id b.message users zero_tally db1 running in
    let done = update (has_id id) (completed later t) s2.broadcasts in
    (
      record s2 { broadcasts = done },
      rw found (rw run refl),
      find-update_same (has_id id) (has_id id) (completed later t) s2.broadcasts there there
            (find_sound (has_id id) s2.broadcasts there)
          ∙ ap (λ (r : Tally). some (completed later r (started now b))) sum,
      count-split (hears b.target_role) (reached bot b.message) db.users,
      others-update (has_id id) (has_id id) (completed later t) s2.broadcasts (λ x h. (h, h))
          ∙ apart
          ∙ others-update (has_id id) (has_id id) (started now) db.broadcasts (λ x h. (h, h)),
      ap (λ (d : Db). record d { broadcasts = done }) frame,
    )
