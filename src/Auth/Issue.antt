-- ===== src/Auth/Issue.antt =====
-- The pairs of tokens (src/modules/auth/jwt-token.service.ts) and the sessions issued for them
-- (`issueSession` and the times to live of src/modules/auth/auth.service.ts).
use vpn_saas.Base.{
  ℕ, ◌+◌, ◌*◌, Bool, Option, none, some, String, List, [], ◌∷◌, ◌==◌, str_eq, if◌then◌else◌,
}
use vpn_saas.Base.Texts.{trim, all_digits, number_from, reversed}
use vpn_saas.Base.Table.{find, create}
use vpn_saas.Store.{
  Action, pure, gets, throw_if, modify, ◌>>=◌, ◌>>◌, unique_violation, token_error, fresh_id,
  get_or, is_some, is_none,
}
use vpn_saas.Store.Rows.{User}
use vpn_saas.Store.Rows.Access.{UserRole, UserSession}

-- The ids in a token are left as numbers.
pub record JwtPayload : Type 0 where
  pub sub : ℕ
  pub public_id : String
  pub role : UserRole
  pub email : Option String
  pub telegram_id : Option String
  pub jti : Option String
  pub type : String

pub record TokenPair : Type 0 where
  pub access_token : String
  pub refresh_token : String
  pub expires_in : ℕ

-- A verification gives none where the library throws.
pub record Services : Type 0 where
  pub sign_access : ℕ → JwtPayload → String
  pub sign_refresh : ℕ → JwtPayload → String
  pub verify_signature : ℕ → String → Option JwtPayload
  pub verify_access : ℕ → String → Option JwtPayload
  pub verify_refresh : ℕ → String → Option JwtPayload
  pub hash_token : String → String
  pub hash_password : String → String
  pub compare : String → String → Bool
  pub access_ttl : List ℕ
  pub refresh_ttl : List ℕ

-- `/^(\d+)([smhd])$/` on a trimmed text: the digits and the unit.
abbrev split_ttl : List ℕ → Option (ℕ × ℕ)
split_ttl [] = none
split_ttl (unit ∷ []) = none
split_ttl (unit ∷ c ∷ cs) =
    if all_digits (c ∷ cs) then some (number_from 0 (reversed (c ∷ cs)), unit) else none

abbrev in_unit : ℕ → ℕ → ℕ → Option ℕ
in_unit unit second value =
    if unit == b's'
    then some (value * second)
    else if unit == b'm'
    then some (value * (60 * second))
    else if unit == b'h'
    then some (value * (3600 * second))
    else if unit == b'd'
    then some (value * (86400 * second))
    else none

abbrev scaled : ℕ → Option (ℕ × ℕ) → Option ℕ
scaled second none = none
scaled second (some p) = in_unit p.1 second p.0

-- `ttlToMs` and `ttlToSeconds`
abbrev pub ttl_to_ms : List ℕ → ℕ
ttl_to_ms ttl = get_or (scaled 1000 (split_ttl (reversed (trim ttl)))) (7 * 24 * 3600 * 1000)

abbrev pub ttl_to_seconds : List ℕ → ℕ
ttl_to_seconds ttl = get_or (scaled 1 (split_ttl (reversed (trim ttl)))) 900

abbrev pub payload_of : String → Option String → User → JwtPayload
payload_of type jti u = record {
  sub = u.id;
  public_id = u.public_id;
  role = u.role;
  email = u.email;
  telegram_id = u.telegram_id;
  jti = jti;
  type = type;
}

abbrev pub generate_pair : Services → ℕ → String → User → Action TokenPair
generate_pair svc now raw u = do
  let access = svc.sign_access now (payload_of "access" none u)
  throw_if (is_none (svc.verify_signature now access)) token_error
  pure (record {
    access_token = access;
    refresh_token = svc.sign_refresh now (payload_of "refresh" (some (svc.hash_token raw)) u);
    expires_in = ttl_to_seconds svc.access_ttl;
  })

pub record Client : Type 0 where
  pub user_agent : String
  pub ip : String

pub record LoginResult : Type 0 where
  pub user_id : ℕ
  pub public_id : String
  pub email : Option String
  pub role : UserRole
  pub tokens : TokenPair

abbrev pub has_hash : String → UserSession → Bool
has_hash hash s = str_eq s.refresh_token_hash hash

abbrev pub is_unrevoked : UserSession → Bool
is_unrevoked s = is_none s.revoked_at

abbrev pub new_session : ℕ → Services → String → ℕ → Client → List UserSession → UserSession
new_session now svc raw user client ss = record {
  id = fresh_id (λ (s : UserSession). s.id) ss;
  user_id = user;
  refresh_token_hash = svc.hash_token raw;
  user_agent = client.user_agent;
  ip_address = client.ip;
  expires_at = now + ttl_to_ms svc.refresh_ttl;
  revoked_at = none;
}

unfoldable pub issue_session : Services → ℕ → String → User → Client → Action LoginResult
issue_session svc now raw u client = do
  tokens ← generate_pair svc now raw u
  throw_if (← gets (λ db. is_some (find (has_hash (svc.hash_token raw)) db.sessions)))
      unique_violation
  modify (λ db. record db {
    sessions = create (new_session now svc raw u.id client db.sessions) db.sessions;
  })
  pure (record {
    user_id = u.id;
    public_id = u.public_id;
    email = u.email;
    role = u.role;
    tokens = tokens;
  })
