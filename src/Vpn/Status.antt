-- ===== src/Vpn/Status.antt =====
-- The ends of a suspension and of a resumption (`setRemoteStatus` of src/modules/vpn/vpn.service.ts).
use vpn_saas.Base.{
  ℕ, ◌≡◌, refl, ◌∙◌, ap, Bool, true, false, Option, none, some, String, ◌==◌, str_eq, if◌then◌else◌,
}
use vpn_saas.Base.Table.{find, update, create, others}
use vpn_saas.Base.Table.Laws.{find_sound, find-update_same, others-update}
use vpn_saas.Store.{Result, ok, err, business, ErrorCode}
use vpn_saas.Store.Rows.{Subscription, SubscriptionStatus, suspended, VpnPanel, xui, Db}
use vpn_saas.Store.Rows.Clients.{VpnUser, PanelUserStatus, disabled}
use vpn_saas.Panels.{get_connection, get_client}
use vpn_saas.Vpn.Clients.{has_id, of_subscription}
use vpn_saas.Vpn.Runtime.{
  Answer, returned, failed, is_subscription, switched, put_status, status_for, noted, retry_message,
  conflict_message, get_vpn_user_for_subscription, runtime_target, set_remote_status,
}

-- A subscription whose client stands on a panel that can be reached.
pub record IsReachable (decrypt : String → Option String) (id : ℕ) (v : VpnUser) (s : Subscription)
    (db : Db) : Type 0 where
  pub mapping : find (of_subscription id) db.vpn_users ≡ some v
  pub client : find (has_id v.id) db.vpn_users ≡ some v
  pub subscription : find (is_subscription id) db.subscriptions ≡ some s
  pub panel : VpnPanel
  pub at_panel : find (λ (p : VpnPanel). p.id == v.panel_id) db.panels ≡ some panel
  pub is_active : str_eq panel.status "ACTIVE" ≡ true
  pub is_xui : panel.type ≡ xui
  pub key : String
  pub decrypts : decrypt panel.api_key ≡ some key

runtime_target-IsReachable :
    (decrypt : String → Option String) (id : ℕ) (db : Db) {v : VpnUser} {s : Subscription}
    → IsReachable decrypt id v s db
    → runtime_target decrypt id db ≡ (ok v, db)
unfolding runtime_target get_vpn_user_for_subscription get_connection get_client
runtime_target-IsReachable decrypt id db r =
    rw (r.mapping) (rw (r.at_panel) (rw (r.is_active) (rw (r.decrypts) (rw (r.is_xui) refl))))

retry_text :
    (enabled : Bool)
    → retry_message (if enabled then "resume" else "suspend") ≡ (
        if enabled then "XUI resume failed; retry is safe" else "XUI suspend failed; retry is safe")
retry_text true = refl
retry_text false = refl

-- How a suspension (`enabled` false) or a resumption ends, for each answer of the panel.
pub data Outcome (now id : ℕ) (enabled : Bool) (v : VpnUser) (s : Subscription) (db : Db)
    : Answer (Unit {0}) → Result (Unit {0}) × Db → Type 0 where
  done :
      (after : Db)
      → find (of_subscription id) after.vpn_users
        ≡ some (record v {
          status = if enabled then PanelUserStatus.active else disabled;
          last_sync_at = some now;
          sync_error = none;
        })
      → find (is_subscription id) after.subscriptions
        ≡ some (record s {
          status = if enabled then SubscriptionStatus.active else suspended;
          paused_at = none;
        })
      → others (has_id v.id) after.vpn_users ≡ others (has_id v.id) db.vpn_users
      → others (is_subscription id) after.subscriptions
        ≡ others (is_subscription id) db.subscriptions
      → after.events
        ≡ create
            (record {
              subscription_id = id;
              event = if enabled then "RESUMED" else "SUSPENDED";
              order_id = none;
            })
            db.events
      → after ≡ (record db {
        vpn_users = after.vpn_users;
        subscriptions = after.subscriptions;
        events = after.events;
      })
      → Outcome now id enabled v s db (returned tt) (ok tt, after)
  undone :
      (message : String) (after : Db)
      → find (of_subscription id) after.vpn_users
        ≡ some (record v {
          sync_error = some (
              if enabled
              then "XUI resume failed; retry is safe"
              else "XUI suspend failed; retry is safe");
        })
      → others (has_id v.id) after.vpn_users ≡ others (has_id v.id) db.vpn_users
      → after ≡ (record db { vpn_users = after.vpn_users })
      → Outcome now id enabled v s db (failed message) (
        err (
            business ErrorCode.conflict
              (conflict_message (if enabled then "resume" else "suspend"))),
        after,
      )

-- A subscription whose client stands on an active XUI panel is suspended or resumed. Where the
-- panel has done so, the client and the subscription have the new state (DISABLED and SUSPENDED, or
-- ACTIVE and ACTIVE), the client has no error left, the event is recorded and nothing else changes,
-- the rows of other clients and of other subscriptions included.
-- Where the panel fails, the call throws a conflict that allows a retry, the client has its error
-- noted with the text that tells so, and the rows of other clients, the subscription and every other
-- table are as they were.
pub set_remote_status-Outcome :
    (decrypt : String → Option String) (now id : ℕ) (enabled : Bool) (answer : Answer (Unit {0}))
    (db : Db) {v : VpnUser} {s : Subscription}
    → IsReachable decrypt id v s db
    → Outcome now id enabled v s db answer (set_remote_status decrypt now answer id enabled db)
unfolding set_remote_status
set_remote_status-Outcome decrypt now id enabled (returned tt) db {v} {s} r =
    let mine = find_sound (of_subscription id) db.vpn_users r.mapping in
    rw (runtime_target-IsReachable decrypt id db r) (
      rw (r.client) (
        rw (r.subscription) (
          done
            (record db {
              vpn_users = update (has_id v.id) (switched enabled now) db.vpn_users;
              subscriptions =
                  update (is_subscription id) (put_status (status_for enabled)) db.subscriptions;
              events =
                  create
                    (record {
                      subscription_id = id;
                      event = if enabled then "RESUMED" else "SUSPENDED";
                      order_id = none;
                    })
                    db.events;
            })
            (find-update_same (has_id v.id) (of_subscription id) (switched enabled now) db.vpn_users
              r.client r.mapping mine)
            (find-update_same (is_subscription id) (is_subscription id)
              (put_status (status_for enabled)) db.subscriptions r.subscription r.subscription
              (find_sound (is_subscription id) db.subscriptions r.subscription))
            (others-update (has_id v.id) (has_id v.id) (switched enabled now) db.vpn_users
              (λ x h. (h, h)))
            (others-update (is_subscription id) (is_subscription id)
              (put_status (status_for enabled)) db.subscriptions (λ x h. (h, h)))
            refl refl)))
set_remote_status-Outcome decrypt now id enabled (failed message) db {v} {s} r =
    let operation = if enabled then "resume" else "suspend" in
    let mine = find_sound (of_subscription id) db.vpn_users r.mapping in
    rw (runtime_target-IsReachable decrypt id db r) (
      undone message
        (record db {
          vpn_users = update (has_id v.id) (noted (retry_message operation)) db.vpn_users;
        })
        (find-update_same (has_id v.id) (of_subscription id) (noted (retry_message operation))
            db.vpn_users r.client r.mapping mine
          ∙ ap (λ text. some (noted text v)) (retry_text enabled))
        (others-update (has_id v.id) (has_id v.id) (noted (retry_message operation)) db.vpn_users
          (λ x h. (h, h)))
        refl)
