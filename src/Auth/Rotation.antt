-- ===== src/Auth/Rotation.antt =====
-- The rotation of refresh tokens (`refresh` of src/modules/auth/auth.service.ts).
use vpn_saas.Base.{
  ℕ, ◌≡◌, refl, sym, ◌∙◌, true, false, ◌&&◌, Option, none, some, String, ltb, ◌==◌, str_eq, inl,
  inr, Bool-cases, Option-cases,
}
use mathlib.Core.Path.{subst}
use vpn_saas.Base.Table.{find, update, update_many, count, create}
use vpn_saas.Base.Table.Laws.{some_unique, find-update_spent, find-create_new, count-update_many}
use vpn_saas.Store.{ok, err, ok-injective, ok-ne-err, get_or, is_some, is_none}
use vpn_saas.Store.Rows.{User, Db}
use vpn_saas.Store.Rows.Access.{UserSession}
use vpn_saas.Auth.{
  Services, JwtPayload, LoginResult, Client, unauthorized, has_hash, has_session_id, is_unrevoked,
  live_of, revoked, matches, payload_of, new_session, issue_session, refresh, active_user, is_user,
}

-- A session that has been revoked is not live.
revoked-live_of : (user now : ℕ) (s : UserSession) → live_of user (revoked now s) ≡ false
revoked-live_of user now s = elim (Bool-cases (s.user_id == user)) [
  | inl mine ↦ rw mine refl
  | inr other ↦ rw other refl
]

module _ (svc : Services) (now : ℕ) where
  -- A session that has been issued is the last of the table.
  issue_session-sessions :
      (raw : String) (u : User) (client : Client) (db : Db) {r : LoginResult} {after : Db}
      → issue_session svc now raw u client db ≡ (ok r, after)
      → after.sessions ≡ create (new_session now svc raw u.id client db.sessions) db.sessions
  unfolding issue_session
  issue_session-sessions raw u client db run =
      elim (Bool-cases
        (is_none (svc.verify_signature now (svc.sign_access now (payload_of "access" none u))))) [
          | inl broken ↦ absurd (ok-ne-err (rw broken at run))
          | inr sound ↦
              elim (Bool-cases (is_some (find (has_hash (svc.hash_token raw)) db.sessions))) [
                | inl used ↦ absurd (ok-ne-err (rw used at (rw sound at run)))
                | inr free ↦
                    let same = ok-injective (rw free at (rw sound at run)) in rw (sym same.1) refl
              ]
        ]

  -- A token whose session is gone is refused, and the user has no live session left.
  refresh-reused :
      (raw token : String) (agent ip : Option String) (db : Db) {p : JwtPayload}
      → svc.verify_refresh now token ≡ some p
      → str_eq p.type "refresh" ≡ true
      → find (λ s. matches p.jti s && is_unrevoked s) db.sessions ≡ none
      → (after : Db) × (refresh svc now raw token agent ip db
          ≡ (err (unauthorized "Session invalidated (token reuse detected)"), after))
        × (count (live_of p.sub) after.sessions ≡ 0)
  unfolding refresh
  refresh-reused raw token agent ip db {p} valid kind gone = (
    record db { sessions = update_many (live_of p.sub) (revoked now) db.sessions },
    rw valid (rw kind (rw gone refl)),
    count-update_many (live_of p.sub) (revoked now) db.sessions (λ s. revoked-live_of p.sub now s),
  )

  -- A refresh that has returned has revoked the live session of its token and issued another.
  refresh-rotated :
      (raw token : String) (agent ip : Option String) (db : Db) {p : JwtPayload} {r : LoginResult}
      {after : Db}
      → svc.verify_refresh now token ≡ some p
      → str_eq p.type "refresh" ≡ true
      → refresh svc now raw token agent ip db ≡ (ok r, after)
      → (s : UserSession) × (user : ℕ) × (find (λ x. matches p.jti x && is_unrevoked x) db.sessions
          ≡ some s)
        × (after.sessions
            ≡ create
                (new_session now svc raw user
                  (record { user_agent = get_or agent ""; ip = get_or ip "" })
                  (update (has_session_id s.id) (revoked now) db.sessions))
                (update (has_session_id s.id) (revoked now) db.sessions))
  unfolding refresh
  refresh-rotated raw token agent ip db {p} {r} {after} valid kind run =
      let run' = rw kind at (rw valid at run) in
      elim (Option-cases (find (λ x. matches p.jti x && is_unrevoked x) db.sessions)) [
        | inl gone ↦ absurd (ok-ne-err (rw gone at run'))
        | inr (s, live) ↦ elim (Bool-cases (ltb s.expires_at now)) [
          | inl late ↦ absurd (ok-ne-err (rw late at (rw live at run')))
          | inr in_time ↦ elim (Option-cases (active_user (find (is_user p.sub) db.users))) [
            | inl inactive ↦ absurd (ok-ne-err (rw inactive at (rw in_time at (rw live at run'))))
            | inr (u, is_in) ↦ (
              s,
              u.id,
              live,
              issue_session-sessions raw u
                  (record { user_agent = get_or agent ""; ip = get_or ip "" })
                  (record db { sessions = update (has_session_id s.id) (revoked now) db.sessions })
                  (rw is_in at (rw in_time at (rw live at run'))),
            )
          ]
        ]
      ]

-- A refresh token whose identifier is that of one session, which its own id finds, is used and
-- gives a new pair, whose identifier is another. Whenever it is presented again, the call throws
-- (the reuse is detected), and afterwards no session of the token's user is live.
pub refresh_once :
    (svc : Services) (now now' : ℕ) (raw raw' token : String) (agent ip agent' ip' : Option String)
    (db after : Db) {p : JwtPayload} {jti : String} {r : LoginResult} {s : UserSession}
    → svc.verify_refresh now token ≡ some p
    → svc.verify_refresh now' token ≡ some p
    → str_eq p.type "refresh" ≡ true
    → p.jti ≡ some jti
    → find (λ x. has_hash jti x && is_unrevoked x) db.sessions ≡ some s
    → find (has_session_id s.id) db.sessions ≡ some s
    → count (has_hash jti) db.sessions ≡ 1
    → str_eq (svc.hash_token raw) jti ≡ false
    → refresh svc now raw token agent ip db ≡ (ok r, after)
    → (later : Db) × (refresh svc now' raw' token agent' ip' after
        ≡ (err (unauthorized "Session invalidated (token reuse detected)"), later))
      × (count (live_of p.sub) later.sessions ≡ 0)
refresh_once svc now now' raw raw' token agent ip agent' ip' db after {p} {jti} {r} {s} valid valid'
      kind named live by_id one fresh run =
    let (s', user, live', sessions) =
      refresh-rotated svc now raw token agent ip db valid kind run in
    let same : s' ≡ s =
      some_unique
        (subst (λ o. find (λ x. matches o x && is_unrevoked x) db.sessions ≡ some s') named live')
        live in
    let rest = update (has_session_id s.id) (revoked now) db.sessions in
    let gone : find (λ x. has_hash jti x && is_unrevoked x) after.sessions ≡ none = rw sessions (
      rw same (
        find-create_new (λ x. has_hash jti x && is_unrevoked x) _ rest
          (find-update_spent (has_hash jti) is_unrevoked (has_session_id s.id) (revoked now)
            db.sessions live one by_id refl)
        ∙ rw fresh refl)) in
    refresh-reused svc now' raw' token agent' ip' after valid' kind (
      subst (λ o. find (λ x. matches o x && is_unrevoked x) after.sessions ≡ none) (sym named) gone)
