-- ===== src/Auth/Lockout.antt =====
-- The limit on failed attempts (`login` of src/modules/auth/auth.service.ts).
use vpn_saas.Base.{
  ℕ, suc, ◌*◌, ◌≤◌, ◌<◌, ◌≡◌, refl, ◌∙◌, true, false, none, some, String, ltb, ltb→lt, inl, inr,
  Bool-cases, Option-cases, ap, arith,
}
use vpn_saas.Base.Table.{find, others}
use vpn_saas.Redis.{
  counter_at, value_of, incr, del, value_of-incr, counter_at-del, counter_at-incr, others-incr,
  expiry, has_key,
}
use vpn_saas.Store.{Result, err, Failure, business, ErrorCode, audit, get_or, is_none, is_some}
use vpn_saas.Store.Rows.{User, Db}
use vpn_saas.Auth.{
  Services, LoginInput, LoginResult, Client, brute_key, user_for, with_password, is_shut_out,
  payload_of, has_hash, issue_session, login,
}

-- The attempts that have been made with the name of an input.
abbrev pub attempts : LoginInput → ℕ → Db → ℕ
attempts input now db = value_of (counter_at (brute_key input) now db)

-- An attempt that has been counted: one more for the name, in the window of fifteen minutes that the
-- first attempt counted in it has opened, and nothing else.
pub record IsCounted (now : ℕ) (input : LoginInput) (db after : Db) : Type 0 where
  pub once :
      counter_at (brute_key input) now after
      ≡ some (record {
        key = brute_key input;
        value = suc (attempts input now db);
        expires_at = expiry now (15 * 60) (counter_at (brute_key input) now db);
      })
  pub others_kept :
      others (has_key (brute_key input)) after.counters
      ≡ others (has_key (brute_key input)) db.counters
  pub frame : after ≡ (record db { counters = after.counters })

-- How an attempt ends.
pub data Outcome (svc : Services) (now : ℕ) (input : LoginInput) (db : Db)
    : Result LoginResult × Db → Type 0 where
  locked :
      (after : Db)
      → 5 ≤ attempts input now db
      → IsCounted now input db after
      → Outcome svc now input db
          (err (business ErrorCode.forbidden "Too many failed attempts. Try again later."), after)
  refused :
      (e : Failure) (after : Db)
      → attempts input now db < 5
      → IsCounted now input db after
      → Outcome svc now input db (err e, after)
  admitted :
      (u : User) (hash : String) (result : Result LoginResult × Db)
      → attempts input now db < 5
      → with_password (user_for input db.users) ≡ some (u, hash)
      → svc.compare (get_or input.password "") hash ≡ true
      → is_shut_out u.status ≡ false
      → attempts input now result.1 ≡ 0
      → Outcome svc now input db result

issue_session-counters :
    (svc : Services) (now : ℕ) (raw : String) (u : User) (client : Client) (db : Db)
    → (issue_session svc now raw u client db).1.counters ≡ db.counters
unfolding issue_session
issue_session-counters svc now raw u client db =
    elim (Bool-cases
      (is_none (svc.verify_signature now (svc.sign_access now (payload_of "access" none u))))) [
        | inl broken ↦ rw broken refl
        | inr sound ↦
            elim (Bool-cases (is_some (find (has_hash (svc.hash_token raw)) db.sessions))) [
              | inl used ↦ rw (sound, used) refl
              | inr free ↦ rw (sound, free) refl
            ]
      ]

counter_at-cong :
    (key : String) (now : ℕ) (s t : Db)
    → s.counters ≡ t.counters
    → counter_at key now s ≡ counter_at key now t
unfolding counter_at
counter_at-cong key now s t same = rw same refl

-- A session is issued on counters that have been cleared.
issue_session-cleared :
    (svc : Services) (now : ℕ) (raw : String) (u : User) (client : Client) (key : String)
    (db s : Db)
    → s.counters ≡ (del key db).counters
    → value_of (counter_at key now (issue_session svc now raw u client s).1) ≡ 0
issue_session-cleared svc now raw u client key db s same =
    ap value_of (
      counter_at-cong key now (issue_session svc now raw u client s).1 (del key db)
        (issue_session-counters svc now raw u client s ∙ same))
    ∙ counter_at-del key now db

incr-users : (key : String) (now ttl : ℕ) (db : Db) → (incr key now ttl db).users ≡ db.users
unfolding incr
incr-users key now ttl db = refl

incr-only :
    (key : String) (now ttl : ℕ) (db : Db)
    → incr key now ttl db ≡ (record db { counters = (incr key now ttl db).counters })
unfolding incr
incr-only key now ttl db = refl

-- An attempt to sign in, by the count that its name has in the current window, which the first
-- attempt counted opens, which ends fifteen minutes later and which no later attempt moves. After
-- five it is refused, whatever its password, and counted; a refusal of an earlier attempt is counted
-- too. Neither writes anything else, the counts of other names included. An attempt goes through only with the password of a user who is
-- neither banned nor deleted, and its name's count is then cleared.
pub login-Outcome :
    (svc : Services) (now : ℕ) (raw : String) (input : LoginInput) (db : Db)
    → Outcome svc now input db (login svc now raw input db)
unfolding login
login-Outcome svc now raw input db =
    let key = brute_key input in
    let counted = incr key now 900 db in
    let once : attempts input now counted ≡ suc (attempts input now db) =
      value_of-incr key now 900 db (omega arith) in
    let seen : IsCounted now input db counted = record {
      once = counter_at-incr key now 900 db (omega arith);
      others_kept = others-incr key now 900 db;
      frame = incr-only key now 900 db;
    } in
    elim (Bool-cases (ltb 5 (attempts input now counted))) [
      | inl many ↦
          let over = ltb→lt 5 (attempts input now counted) many in
          rw many (locked counted (omega arith) seen)
      | inr few ↦
          let under : attempts input now db < 5 = ground arith in
          elim (Option-cases (with_password (user_for input counted.users))) [
            | inl unknown ↦ rw few (rw unknown (refused _ counted under seen))
            | inr ((u, hash), known) ↦
                elim (Bool-cases (svc.compare (get_or input.password "") hash)) [
                  | inr wrong ↦ rw few (rw known (rw wrong (refused _ counted under seen)))
                  | inl right ↦ elim (Bool-cases (is_shut_out u.status)) [
                    | inl out ↦ rw few (rw known (rw right (rw out (refused _ counted under seen))))
                    | inr in_force ↦ rw few (
                        rw known (
                          rw right (
                            rw in_force (
                              admitted u hash _ under known right in_force (
                                issue_session-cleared svc now raw u
                                  (record {
                                    user_agent = get_or input.user_agent "";
                                    ip = get_or input.ip "";
                                  })
                                  key counted
                                  (audit (some u.id) "LOGIN" "auth" "" (del key counted)).1
                                  refl)))))
                  ]
                ]
          ]
    ]
