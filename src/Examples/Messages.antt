-- ===== src/Examples/Messages.antt =====
-- Runs of broadcasts.
use vpn_saas.Base.{◌&&◌, not, ◌+◌, ◌≡◌, refl, none, some, List, [], ◌∷◌, str_eq}
use vpn_saas.Base.Table.{find, count, others}
use vpn_saas.Store.{ok, fresh_id}
use vpn_saas.Store.Rows.{User, Db}
use vpn_saas.Store.Rows.Sites.{Broadcast}
use vpn_saas.Examples.{shop, user_of}
use vpn_saas.Broadcast.{Bot, has_id, process_broadcast, new_broadcast}
use vpn_saas.Broadcast.Counts.{hears, reached, process_broadcast-completed}

abbrev greeting : Broadcast
greeting = new_broadcast "hello" "ALL" 2 []

abbrev two_readers : List User
two_readers =
    record (user_of 3 none) { telegram_id = some "100" }
    ∷ record (user_of 7 none) { telegram_id = some "200" }
    ∷ []

abbrev greeted : Db
greeted = record shop { users = two_readers; broadcasts = greeting ∷ [] }

-- Only the first user can be reached.
abbrev half : Bot
half telegram message = str_eq telegram "100"

process_broadcast-completed_example :
    (after : Db) × (process_broadcast (some half) 5 9 1 greeted ≡ (ok tt, after))
    × (find (has_id 1) after.broadcasts
        ≡ some (record greeting {
          status = "COMPLETED";
          started_at = some 5;
          completed_at = some 9;
          sent_count = count (λ u. hears (some "ALL") u && reached half "hello" u) two_readers;
          failed_count =
              count (λ u. hears (some "ALL") u && not (reached half "hello" u)) two_readers;
        }))
    × (count (λ u. hears (some "ALL") u && reached half "hello" u) two_readers
          + count (λ u. hears (some "ALL") u && not (reached half "hello" u)) two_readers
        ≡ count (hears (some "ALL")) two_readers)
    × (others (has_id 1) after.broadcasts ≡ others (has_id 1) greeted.broadcasts)
    × (after ≡ (record greeted { broadcasts = after.broadcasts }))
unfolding fresh_id
process_broadcast-completed_example =
    process_broadcast-completed half 5 9 1 greeted {b = greeting} refl

-- One message is sent and one fails.
half_sent : count (λ u. hears (some "ALL") u && reached half "hello" u) two_readers ≡ 1
half_sent = refl
