-- ===== src/Vpn/Pending.antt =====
-- How the work with the panel ends for a mapping that is recorded, delivered or left pending
-- (`provisionFirstClassClient` of src/modules/vpn/vpn.service.ts).
use vpn_saas.Base.{
  ap, ◌⊎◌, ℕ, ◌≡◌, refl, sym, ◌∙◌, Bool, true, false, Option, none, some, String, inl, inr,
  Bool-cases,
}
use vpn_saas.Base.Table.{find, update}
use vpn_saas.Base.Table.Laws.{find-update_same, find_sound}
use vpn_saas.Store.{
  ◌>>◌, ◌>>=◌, Result, ok, err, Failure, business, ErrorCode, if_action, on_error, throw, pure,
  resume_leads, rescued_leads, Result-cases, get_or,
}
use vpn_saas.Store.Rows.{Subscription, Db}
use vpn_saas.Store.Rows.Clients.{VpnUser, active, disabled}
use vpn_saas.Panels.{PanelConnection}
use vpn_saas.Vpn.Clients.{
  ClientName, Mapping, of_subscription, is_rival, remapped, record_vpn_user_mapping,
}
use vpn_saas.Vpn.Runtime.{Answer, returned, failed, ask, is_subscription}
use vpn_saas.Vpn.Provision.{
  Answers, Remote, ensure_remote, mapping_for, pending_message, with_link, deliver_client, give_up,
  attempt,
}

ask_same : {A : Type 0} (x : Answer A) (db : Db) → (ask x db).1 ≡ db
ask_same (returned a) db = refl
ask_same (failed message) db = refl

module _ (is_ambiguous : Failure → Bool) (a : Answers) (db : Db) where
  ask_keeps : {A : Type 0} (x : Answer A) (s : Db) → s ≡ db → (ask x s).1 ≡ db
  ask_keeps x s e = ask_same x s ∙ e

  retry_keeps :
      (created : Bool) (e : Failure) (s : Db)
      → s ≡ db
      → (if_action created
          (pure tt)
          (if_action (is_ambiguous e) (ask a.creates_again) (throw e))
          s).1
        ≡ db
  retry_keeps true e s same = same
  retry_keeps false e s same = elim (Bool-cases (is_ambiguous e)) [
    | inl again ↦ rw again (ask_keeps a.creates_again s same)
    | inr final ↦ rw final same
  ]

  branch_keeps :
      (there : Bool) (s : Db)
      → s ≡ db
      → (if_action there
          (do ask a.updates; ask a.attaches)
          (on_error (ask a.creates) (λ e. do
            created ← ask a.has_client_after
            if_action created
                (pure tt)
                (if_action (is_ambiguous e) (ask a.creates_again) (throw e))))
          s).1
        ≡ db
  branch_keeps true s same =
      resume_leads (λ t. t ≡ db) (λ t. t ≡ db) (ask a.updates s) (λ u. ask a.attaches)
        (ask_keeps a.updates s same) (λ t e. e) (λ u t e. ask_keeps a.attaches t e)
  branch_keeps false s same =
      rescued_leads (λ t. t ≡ db) (ask a.creates s) _ (ask_keeps a.creates s same)
        (λ e t same'.
          resume_leads (λ t. t ≡ db) (λ t. t ≡ db) (ask a.has_client_after t) _
            (ask_keeps a.has_client_after t same') (λ t e. e)
            (λ created t' same''. retry_keeps created e t' same''))

  -- The requests to the panel write no row.
  ensure_remote_same : (ensure_remote is_ambiguous a db).1 ≡ db
  ensure_remote_same =
      resume_leads (λ t. t ≡ db) (λ t. t ≡ db) (ask a.has_client db) _ (ask_same a.has_client db)
        (λ t e. e) (λ there s e. branch_keeps there s e)

-- How the work with the panel ends.
pub data Outcome (now : ℕ) (s : Subscription) (name : ClientName) (v : VpnUser) (db : Db)
    : Result String × Db → Type 0 where
  delivered :
      (url : String) (after : Db)
      → find (is_subscription s.id) after.subscriptions
        ≡ some (record s { subscription_link = some url })
      → (u : VpnUser) × (find (of_subscription s.id) after.vpn_users ≡ some u)
        × (u.panel_user_id ≡ name.panel_user_id)
        × (u.sub_link ≡ some url)
        × (u.status ≡ active)
        × (u.sync_error ≡ none)
      → after ≡ (record db { subscriptions = after.subscriptions; vpn_users = after.vpn_users })
      → Outcome now s name v db (ok url, after)
  postponed :
      (after : Db)
      → (u : VpnUser) × (find (of_subscription s.id) after.vpn_users ≡ some u)
        × (u.panel_user_id ≡ name.panel_user_id)
        × (u.sub_link ≡ v.sub_link)
        × (u.status ≡ disabled)
        × (u.sync_error ≡ some pending_message)
      → after ≡ (record db { vpn_users = after.vpn_users })
      → Outcome now s name v db (
        err (business ErrorCode.conflict "VPN provisioning is pending and can be retried"),
        after,
      )

module _ (remote : Remote) (now : ℕ) (a : Answers) (connection : PanelConnection) (s : Subscription)
    (name : ClientName) (db : Db) {v : VpnUser}
    (mapping : find (of_subscription s.id) db.vpn_users ≡ some v)
    (subscription : find (is_subscription s.id) db.subscriptions ≡ some s)
    (alone : (link error : Option String)
      → find (is_rival (mapping_for s connection.id name link error)) db.vpn_users ≡ none) where
  remapped_finds :
      (m : Mapping)
      → m.subscription_id ≡ s.id
      → find (of_subscription s.id) (update (of_subscription s.id) (remapped now m) db.vpn_users)
        ≡ some (remapped now m v)
  remapped_finds m same =
      find-update_same (of_subscription s.id) (of_subscription s.id) (remapped now m) db.vpn_users
        mapping mapping (find_sound (of_subscription s.id) db.vpn_users mapping)

  give_up-Outcome : Outcome now s name v db (give_up now s connection.id name db)
  unfolding give_up record_vpn_user_mapping
  give_up-Outcome =
      let m = mapping_for s connection.id name none (some pending_message) in
      rw (alone none (some pending_message)) (
        rw mapping (
          postponed
            (record db { vpn_users = update (of_subscription s.id) (remapped now m) db.vpn_users })
            (remapped now m v, remapped_finds m refl, refl, refl, refl, refl) refl))

  attempt-returned :
      {u : Unit {0}}
      → ensure_remote remote.is_ambiguous a db ≡ (ok u, db)
      → a.lists_links ≡ returned tt
      → Outcome now s name v db (attempt remote now a connection s name db)
  unfolding attempt deliver_client record_vpn_user_mapping
  attempt-returned there links =
      let url = remote.url connection (get_or name.sub_token "") in
      let m = mapping_for s connection.id name (some url) none in
      rw there (
        rw links (
          rw subscription (
            rw (alone (some url) none) (
              rw mapping (
                delivered url
                  (record db {
                    subscriptions = update (is_subscription s.id) (with_link url) db.subscriptions;
                    vpn_users = update (of_subscription s.id) (remapped now m) db.vpn_users;
                  })
                  (find-update_same (is_subscription s.id) (is_subscription s.id) (with_link url)
                    db.subscriptions subscription subscription
                    (find_sound (is_subscription s.id) db.subscriptions subscription))
                  (remapped now m v, remapped_finds m refl, refl, refl, refl, refl) refl)))))

  attempt-failed :
      {u : Unit {0}} {message : String}
      → ensure_remote remote.is_ambiguous a db ≡ (ok u, db)
      → a.lists_links ≡ failed message
      → Outcome now s name v db (attempt remote now a connection s name db)
  unfolding attempt deliver_client
  attempt-failed there stop = rw there (rw stop give_up-Outcome)

  attempt-refused :
      {e : Failure}
      → ensure_remote remote.is_ambiguous a db ≡ (err e, db)
      → Outcome now s name v db (attempt remote now a connection s name db)
  unfolding attempt deliver_client
  attempt-refused stop = rw stop give_up-Outcome

Answer-cases :
    (x : Answer (Unit {0})) → (x ≡ returned tt) ⊎ ((message : String) × (x ≡ failed message))
Answer-cases (returned tt) = inl refl
Answer-cases (failed message) = inr (message, refl)

-- The work with the panel for a subscription whose mapping is recorded under a name and a token that
-- no other client has. Whatever the panel answers to each request, and however the tries go, the
-- work ends in one of two ways. It returns the link: the subscription has it, and so has the
-- mapping, which is ACTIVE without an error. Or it throws a conflict that allows a retry: the
-- mapping is DISABLED with the error noted and its link as before, and the subscription is as it
-- was. The name of the client stays, and no other table changes.
pub attempt-Outcome :
    (remote : Remote) (now : ℕ) (a : Answers) (connection : PanelConnection) (s : Subscription)
    (name : ClientName) (db : Db) {v : VpnUser}
    → find (of_subscription s.id) db.vpn_users ≡ some v
    → find (is_subscription s.id) db.subscriptions ≡ some s
    → ((link error : Option String)
        → find (is_rival (mapping_for s connection.id name link error)) db.vpn_users ≡ none)
    → Outcome now s name v db (attempt remote now a connection s name db)
attempt-Outcome remote now a connection s name db mapping subscription alone =
    let same = ensure_remote_same remote.is_ambiguous a db in
    elim (Result-cases (ensure_remote remote.is_ambiguous a db)) [
      | inr (e, t, stop) ↦
          let here : t ≡ db = sym (ap (λ (r : Result (Unit {0}) × Db). r.1) stop) ∙ same in
          attempt-refused remote now a connection s name db mapping subscription alone
            (rw here at stop)
      | inl (u, t, done) ↦
          let here : t ≡ db = sym (ap (λ (r : Result (Unit {0}) × Db). r.1) done) ∙ same in
          let there : ensure_remote remote.is_ambiguous a db ≡ (ok u, db) = rw here at done in
          elim (Answer-cases a.lists_links) [
            | inl links ↦
                attempt-returned remote now a connection s name db mapping subscription alone there
                  links
            | inr (message, fails) ↦
                attempt-failed remote now a connection s name db mapping subscription alone there
                  fails
          ]
    ]
