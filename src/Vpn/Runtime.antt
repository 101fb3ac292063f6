-- ===== src/Vpn/Runtime.antt =====
-- The operations on a client that a panel has (src/modules/vpn/vpn.service.ts): suspension,
-- resumption, reset of the traffic, deletion, and the traffic that the sync worker reports.
-- A panel's answer to a request is an argument: what it returned, or the message of its error.
-- `decrypt` is that of Panels, and `now` stands for the clock.
use vpn_saas.Base.{ℕ, Bool, true, false, Option, none, some, String, ◌==◌, if◌then◌else◌}
use Prim.Native.String.{◌++◌ as text_append}
use vpn_saas.Base.Table.{find, find_many, update, create}
use vpn_saas.Store.{
  Action, pure, gets, or_throw, throw, throw_if, modify, when_some, if_action, on_error,
  with_transaction, ◌>>=◌, ◌>>◌, business, ErrorCode, client_error, record_not_found, truthy,
  is_none,
}
use vpn_saas.Store.Rows.{Subscription, SubscriptionStatus, suspended, cancelled, Db}
use vpn_saas.Store.Rows.Clients.{VpnUser, PanelUserStatus, disabled}
use vpn_saas.Panels.{get_connection, get_client}
use vpn_saas.Vpn.Clients.{has_id, of_subscription}

pub data Answer (A : Type 0) : Type 0 where
  returned : A → Answer A
  failed : String → Answer A

abbrev pub ask : {A : Type 0} → Answer A → Action A
ask (returned a) = pure a
ask (failed message) = throw (client_error message)

abbrev pub is_subscription : ℕ → Subscription → Bool
is_subscription id s = s.id == id

-- `update` on the id, which throws where no row has it.
abbrev pub write_client : ℕ → (VpnUser → VpnUser) → Action (Unit {0})
write_client id f = do
  throw_if (← gets (λ db. is_none (find (has_id id) db.vpn_users))) record_not_found
  modify (λ db. record db { vpn_users = update (has_id id) f db.vpn_users })

abbrev pub write_subscription : ℕ → (Subscription → Subscription) → Action (Unit {0})
write_subscription id f = do
  throw_if (← gets (λ db. is_none (find (is_subscription id) db.subscriptions))) record_not_found
  modify (λ db. record db { subscriptions = update (is_subscription id) f db.subscriptions })

abbrev pub note_event : ℕ → String → Action (Unit {0})
note_event id event = modify (λ db. record db {
  events = create (record { subscription_id = id; event = event; order_id = none }) db.events;
})

unfoldable pub get_vpn_user_for_subscription : ℕ → Action VpnUser
get_vpn_user_for_subscription id = do
  mine ← gets (λ db. find (of_subscription id) db.vpn_users)
  or_throw mine (business ErrorCode.not_found "VPN user not provisioned yet")

-- The client, once its panel can be reached.
unfoldable pub runtime_target : (String → Option String) → ℕ → Action VpnUser
unfolding get_vpn_user_for_subscription get_connection get_client
runtime_target decrypt id = do
  v ← get_vpn_user_for_subscription id
  connection ← get_connection decrypt v.panel_id
  get_client connection.type
  pure v

abbrev pub retry_message : String → String
retry_message operation = text_append "XUI " (text_append operation " failed; retry is safe")

abbrev pub noted : String → VpnUser → VpnUser
noted message v = record v { sync_error = some message }

abbrev pub conflict_message : String → String
conflict_message operation = text_append "VPN " (text_append operation " failed and can be retried")

-- A row that has gone is not written.
abbrev pub fail_runtime_operation : {A : Type 0} → ℕ → String → Action A
fail_runtime_operation id operation = do
  modify (λ db. record db {
    vpn_users = update (has_id id) (noted (retry_message operation)) db.vpn_users;
  })
  throw (business ErrorCode.conflict (conflict_message operation))

abbrev pub switched : Bool → ℕ → VpnUser → VpnUser
switched enabled now v = record v {
  status = if enabled then PanelUserStatus.active else disabled;
  last_sync_at = some now;
  sync_error = none;
}

abbrev pub put_status : SubscriptionStatus → Subscription → Subscription
put_status status s = record s { status = status; paused_at = none }

abbrev pub status_for : Bool → SubscriptionStatus
status_for enabled = if enabled then SubscriptionStatus.active else suspended

unfoldable pub set_remote_status :
    (String → Option String) → ℕ → Answer (Unit {0}) → ℕ → Bool → Action (Unit {0})
unfolding runtime_target
set_remote_status decrypt now answer id enabled = do
  v ← runtime_target decrypt id
  on_error
      (do
        ask answer
        with_transaction (do
          write_client v.id (switched enabled now)
          write_subscription id (put_status (status_for enabled))
          note_event id (if enabled then "RESUMED" else "SUSPENDED")))
      (λ e. fail_runtime_operation v.id (if enabled then "resume" else "suspend"))

abbrev pub emptied : ℕ → VpnUser → VpnUser
emptied now v = record v { used_traffic_bytes = 0; last_sync_at = some now; sync_error = none }

abbrev pub unused : Subscription → Subscription
unused s = record s { used_traffic_bytes = 0 }

unfoldable pub reset_traffic :
    (String → Option String) → ℕ → Answer (Unit {0}) → ℕ → Action (Unit {0})
unfolding runtime_target
reset_traffic decrypt now answer id = do
  v ← runtime_target decrypt id
  on_error
      (do
        ask answer
        with_transaction (do
          write_client v.id (emptied now)
          write_subscription id unused
          note_event id "RESET"))
      (λ e. fail_runtime_operation v.id "traffic reset")

abbrev pub call_off : Subscription → Subscription
call_off s = record s { status = cancelled; paused_at = none; subscription_link = none }

-- What the panel answers while a client is deleted: whether it has the client, the deletion, and
-- whether it has the client after a deletion that failed.
pub record Deletion : Type 0 where
  pub has_client : Answer Bool
  pub deletes : Answer (Unit {0})
  pub still_has_client : Answer Bool

abbrev pub delete_remote : Deletion → Action (Unit {0})
delete_remote d = do
  there ← ask d.has_client
  if_action there
      (on_error (ask d.deletes)
        (λ e. do still ← ask d.still_has_client; if_action still (throw e) (pure tt)))
      (pure tt)

abbrev pub delete_rows : VpnUser → Action (Unit {0})
delete_rows v = do
  when_some (truthy v.subscription_id)
      (λ id. do write_subscription id call_off; note_event id "CANCELLED")
  throw_if (← gets (λ db. is_none (find (has_id v.id) db.vpn_users))) record_not_found
  modify (λ db. record db {
    vpn_users = find_many (λ u. if has_id v.id u then false else true) db.vpn_users;
  })

abbrev pub delete_known : (String → Option String) → Deletion → Option VpnUser → Action (Unit {0})
delete_known decrypt d none = pure tt
delete_known decrypt d (some v) = do
  connection ← get_connection decrypt v.panel_id
  get_client connection.type
  on_error (do delete_remote d; with_transaction (delete_rows v))
      (λ e. fail_runtime_operation v.id "client deletion")

unfoldable pub delete_vpn_user : (String → Option String) → Deletion → ℕ → Action (Unit {0})
unfolding get_connection get_client
delete_vpn_user decrypt d id = do
  mine ← gets (λ db. find (has_id id) db.vpn_users)
  delete_known decrypt d mine

abbrev pub synced : ℕ → ℕ → VpnUser → VpnUser
synced now bytes v = record v { used_traffic_bytes = bytes; last_sync_at = some now }

abbrev pub used : ℕ → Subscription → Subscription
used bytes s = record s { used_traffic_bytes = bytes }

-- The client and its subscription, where it has both.
abbrev pub with_row : VpnUser → Option Subscription → Option (VpnUser × Subscription)
with_row v none = none
with_row v (some s) = some (v, s)

abbrev pub with_subscription : Option VpnUser → Db → Option (VpnUser × Subscription)
with_subscription none db = none
with_subscription (some v) db = with_row v (find (λ s. of_subscription s.id v) db.subscriptions)

-- `syncUsage`; the alert on low traffic only logs.
unfoldable pub sync_usage : ℕ → ℕ → ℕ → Action (Unit {0})
sync_usage now id bytes = do
  both ← gets (λ db. with_subscription (find (has_id id) db.vpn_users) db)
  when_some both
      (λ p. do write_client id (synced now bytes); write_subscription p.1.id (used bytes))
