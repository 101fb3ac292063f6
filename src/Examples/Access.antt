-- ===== src/Examples/Access.antt =====
-- Runs of sign-in and of the rotation of tokens.
use vpn_saas.Base.{◌≡◌, refl, none, some, String, [], ◌∷◌, str_eq, if◌then◌else◌, true, List}
use vpn_saas.Base.Table.{count}
use vpn_saas.Examples.{shop, user_of}
use vpn_saas.ApiKeys.{Texts, KeyInput, new_key, create_key, revoke, validate}
use vpn_saas.ApiKeys.Revoked.{Call, to_create, to_validate, to_delete, history, revoke-validate}
use vpn_saas.Store.{ok, Result, err, fresh_id}
use vpn_saas.Store.Rows.{Db}
use vpn_saas.Store.Rows.Access.{UserSession}
use vpn_saas.Auth.{
  Services, JwtPayload, LoginInput, LoginResult, payload_of, new_session, live_of, unauthorized,
  refresh, login, issue_session,
}
use vpn_saas.Auth.Lockout.{Outcome, login-Outcome}
use vpn_saas.Auth.Rotation.{refresh_once}

abbrev first_payload : JwtPayload
first_payload = payload_of "refresh" (some "first") (user_of 7 (some 3))

-- Tokens are texts; "R1" is the first refresh token of user 7.
abbrev tokens : Services
tokens = record {
  sign_access = λ now p. "A";
  sign_refresh = λ now p. "R2";
  verify_signature = λ now t. some first_payload;
  verify_access = λ now t. none;
  verify_refresh = λ now t. if str_eq t "R1" then some first_payload else none;
  hash_token = λ raw. raw;
  hash_password = λ text. "hash";
  compare = λ text hash. str_eq text "secret";
  access_ttl = b'1' ∷ b'5' ∷ b'm' ∷ [];
  refresh_ttl = b'7' ∷ b'd' ∷ [];
}

abbrev first_session : UserSession
first_session = new_session 0 tokens "first" 7 (record { user_agent = "a"; ip = "i" }) []

abbrev signed_in : Db
signed_in = record shop { sessions = first_session ∷ [] }

abbrev result_or : LoginResult → Result LoginResult → LoginResult
result_or d (Result.ok r) = r
result_or d (err e) = d

unfoldable used_once : Db
unfolding refresh issue_session
used_once = (refresh tokens 10 "second" "R1" none none signed_in).1

refresh_once_example :
    (later : Db) × (refresh tokens 20 "third" "R1" none none used_once
      ≡ (err (unauthorized "Session invalidated (token reuse detected)"), later))
    × (count (live_of 7) later.sessions ≡ 0)
unfolding used_once refresh issue_session fresh_id
refresh_once_example =
    refresh_once tokens 10 20 "second" "third" "R1" none none none none signed_in used_once refl
      refl refl refl refl refl refl refl refl

abbrev signing_in : String → LoginInput
signing_in password = record {
  email = some "7@mail";
  telegram_id = none;
  password = some password;
  user_agent = none;
  ip = none;
}

login-Outcome_example :
    Outcome tokens 10 (signing_in "secret") shop (login tokens 10 "raw" (signing_in "secret") shop)
login-Outcome_example = login-Outcome tokens 10 "raw" (signing_in "secret") shop

abbrev texts : Texts
texts = record { hash = λ raw. raw; starts = λ raw. true; prefix = λ raw. raw }

abbrev key_input : KeyInput
key_input = record { name = "script"; scopes = "read" ∷ []; expires_at = none }

unfoldable with_key : Db
unfolding create_key fresh_id
with_key = (create_key texts 5 "k-1" "raw-1" 7 key_input shop).1

abbrev later_calls : List Call
later_calls = to_create 6 "k-2" "raw-2" 7 key_input ∷ to_validate 7 "raw-1" ∷ to_delete "k-2" ∷ []

revoke-validate_example :
    let after = history texts later_calls (revoke "k-1" with_key).1 in
    validate texts 9 "raw-1" after ≡ (ok none, after)
unfolding with_key
revoke-validate_example =
    revoke-validate texts "k-1" "raw-1" later_calls 9 with_key
      {k = new_key texts 5 "k-1" "raw-1" 7 key_input []} refl refl refl (refl, (refl, (refl, tt)))
