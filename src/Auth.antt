-- ===== src/Auth.antt =====
-- AuthService (src/modules/auth/auth.service.ts), with the pairs of tokens that
-- src/modules/auth/jwt-token.service.ts makes and the passwords of password.service.ts.
-- The libraries for tokens and passwords, and the configured times to live, are the fields of
-- `Services`; `raw` stands for `randomBytes`, `now` for the clock. The methods are those of an
-- input that the schemas accept; a user is kept without names, language and last visit.
pub mod Lockout
pub mod Rotation
mod Issue
mod SignUp
unfoldable pub use Issue.*
unfoldable pub use SignUp.*
use vpn_saas.Base.{
  ℕ, zero, suc, ◌+◌, ◌*◌, Bool, true, false, ◌&&◌, not, Option, none, some, String, List, [], ◌∷◌,
  ltb, ◌==◌, str_eq, if◌then◌else◌,
}
use Prim.Native.String.{◌++◌ as text_append}
use vpn_saas.Base.Int.{pos}
use vpn_saas.Base.Texts.{trim, is_digit, all_digits, number_from, reversed}
use vpn_saas.Base.Table.{find, update, update_many, create}
use vpn_saas.Redis.{incr, del, counter_at, value_of}
use vpn_saas.Store.{
  Action, pure, gets, or_throw, throw, throw_if, modify, if_action, ◌>>=◌, ◌>>◌, business,
  ErrorCode, Failure, unique_violation, record_not_found, token_error, audit, fresh_id, get_or,
  is_some, is_none,
}
use vpn_saas.Store.Rows.{User, Wallet, Db}
use vpn_saas.Store.Rows.Access.{UserRole, UserStatus, active, banned, deleted, UserSession}

pub record LoginInput : Type 0 where
  pub email : Option String
  pub telegram_id : Option String
  pub password : Option String
  pub user_agent : Option String
  pub ip : Option String

abbrev pub some_text : Option String → Option String
some_text none = none
some_text (some t) = if str_eq t "" then none else some t

abbrev or_else : Option String → Option String → Option String
or_else none o = o
or_else (some t) o = some t

abbrev pub brute_key : LoginInput → String
brute_key input = text_append "auth:brute:" (get_or (or_else input.email input.telegram_id) "anon")

abbrev with_telegram : Option String → List User → Option User
with_telegram none us = none
with_telegram (some id) us = find (has_telegram id) us

abbrev with_email : Option String → Option String → List User → Option User
with_email none telegram us = with_telegram telegram us
with_email (some email) telegram us = find (has_email email) us

abbrev pub user_for : LoginInput → List User → Option User
user_for input us = with_email (some_text input.email) (some_text input.telegram_id) us

-- The user, if the user has a password.
abbrev pub with_password : Option User → Option (User × String)
with_password none = none
with_password (some u) = paired u (some_text u.password_hash)
  where
    paired : User → Option String → Option (User × String)
    paired u none = none
    paired u (some hash) = some (u, hash)

abbrev pub is_shut_out : UserStatus → Bool
is_shut_out banned = true
is_shut_out deleted = true
is_shut_out _ = false

abbrev pub unauthorized : String → Failure
unauthorized message = business ErrorCode.unauthorized message

unfoldable pub login : Services → ℕ → String → LoginInput → Action LoginResult
unfolding issue_session incr del counter_at
login svc now raw input = do
  modify (incr (brute_key input) now 900)
  attempts ← gets (λ db. value_of (counter_at (brute_key input) now db))
  throw_if (ltb 5 attempts)
      (business ErrorCode.forbidden "Too many failed attempts. Try again later.")
  found ←
      or_throw (← gets (λ db. with_password (user_for input db.users)))
        (unauthorized "Invalid credentials")
  throw_if (not (svc.compare (get_or input.password "") found.1))
      (unauthorized "Invalid credentials")
  throw_if (is_shut_out found.0.status) (business ErrorCode.forbidden "Account is not active")
  modify (del (brute_key input))
  audit (some found.0.id) "LOGIN" "auth" ""
  issue_session svc now raw found.0
      (record { user_agent = get_or input.user_agent ""; ip = get_or input.ip "" })

-- The live session of a token. A token without an identifier puts no condition on it.
abbrev pub matches : Option String → UserSession → Bool
matches none s = true
matches (some jti) s = has_hash jti s

abbrev pub has_session_id : ℕ → UserSession → Bool
has_session_id id s = s.id == id

abbrev pub live_of : ℕ → UserSession → Bool
live_of user s = s.user_id == user && is_unrevoked s

abbrev pub revoked : ℕ → UserSession → UserSession
revoked now s = record s { revoked_at = some now }

abbrev pub revoke_all : ℕ → ℕ → Action (Unit {0})
revoke_all now user =
    modify (λ db. record db { sessions = update_many (live_of user) (revoked now) db.sessions })

-- A token whose session is gone has been used before: every session of its user is revoked.
abbrev pub session_or_alarm : ℕ → ℕ → Option UserSession → Action UserSession
session_or_alarm now user (some s) = pure s
session_or_alarm now user none = do
  revoke_all now user
  throw (unauthorized "Session invalidated (token reuse detected)")

abbrev pub is_in_force : UserStatus → Bool
is_in_force active = true
is_in_force _ = false

abbrev pub active_user : Option User → Option User
active_user none = none
active_user (some u) = if is_in_force u.status then some u else none

unfoldable pub refresh :
    Services → ℕ → String → String → Option String → Option String → Action LoginResult
unfolding issue_session
refresh svc now raw token user_agent ip = do
  payload ←
      or_throw (svc.verify_refresh now token) (unauthorized "Invalid or expired refresh token")
  throw_if (not (str_eq payload.type "refresh")) (unauthorized "Invalid token type")
  live ← gets (λ db. find (λ s. matches payload.jti s && is_unrevoked s) db.sessions)
  session ← session_or_alarm now payload.sub live
  throw_if (ltb session.expires_at now) (unauthorized "Session expired")
  modify
      (λ db. record db { sessions = update (has_session_id session.id) (revoked now) db.sessions })
  u ←
      or_throw (← gets (λ db. active_user (find (is_user payload.sub) db.users)))
        (unauthorized "Account is not active")
  issue_session svc now raw u (record { user_agent = get_or user_agent ""; ip = get_or ip "" })

abbrev revoke_for : ℕ → Option JwtPayload → Action (Unit {0})
revoke_for now none = pure tt
revoke_for now (some payload) = revoke_all now payload.sub

unfoldable pub logout : Services → ℕ → String → Action (Unit {0})
logout svc now token = revoke_for now (svc.verify_access now token)

abbrev pub status_of : Option User → Option UserStatus
status_of none = none
status_of (some u) = some u.status

unfoldable pub get_status : ℕ → Action (Option UserStatus)
get_status id = gets (λ db. status_of (find (is_user id) db.users))
