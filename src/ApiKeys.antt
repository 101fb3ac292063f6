-- ===== src/ApiKeys.antt =====
-- ApiKeyService (src/modules/api/api.service.ts): the keys of external programs.
-- `hash` stands for SHA-256, `starts` for `startsWith('vpn_live_')`, `prefix` for the first twelve
-- characters of a key; the raw key stands for `generateKey`. The lists only read.
pub mod Revoked
use vpn_saas.Base.{
  ℕ, Bool, true, false, ◌||◌, not, Option, none, some, String, List, ltb, ◌==◌, str_eq,
  if◌then◌else◌,
}
use vpn_saas.Base.Table.{find, find_many, update, create}
use vpn_saas.Store.{
  Action, pure, gets, or_throw, throw_if, modify, ◌>>=◌, ◌>>◌, business, ErrorCode,
  unique_violation, fresh_id, get_or, is_some,
}
use vpn_saas.Store.Rows.{Db}
use vpn_saas.Store.Rows.Access.{ApiKey}

pub record Texts : Type 0 where
  pub hash : String → String
  pub starts : String → Bool
  pub prefix : String → String

pub record ApiKeyDto : Type 0 where
  pub id : ℕ
  pub public_id : String
  pub name : String
  pub key_prefix : String
  pub scopes : List String
  pub is_active : Bool
  pub last_used_at : Option ℕ
  pub expires_at : Option ℕ
  pub created_at : ℕ

pub record KeyInput : Type 0 where
  pub name : String
  pub scopes : List String
  pub expires_at : Option ℕ

-- A field that is absent stays as it was.
pub record KeyUpdate : Type 0 where
  pub name : Option String
  pub scopes : Option (List String)
  pub is_active : Option Bool
  pub expires_at : Option (Option ℕ)

abbrev pub to_dto : ApiKey → ApiKeyDto
to_dto k = record {
  id = k.id;
  public_id = k.public_id;
  name = k.name;
  key_prefix = k.key_prefix;
  scopes = k.scopes;
  is_active = k.is_active;
  last_used_at = k.last_used_at;
  expires_at = k.expires_at;
  created_at = k.created_at;
}

abbrev pub has_hash : String → ApiKey → Bool
has_hash h k = str_eq k.key_hash h

abbrev pub has_public_id : String → ApiKey → Bool
has_public_id public_id k = str_eq k.public_id public_id

abbrev pub has_id : ℕ → ApiKey → Bool
has_id id k = k.id == id

abbrev pub new_key : Texts → ℕ → String → String → ℕ → KeyInput → List ApiKey → ApiKey
new_key texts now uuid raw user input ks = record {
  id = fresh_id (λ (k : ApiKey). k.id) ks;
  public_id = uuid;
  name = input.name;
  key_hash = texts.hash raw;
  key_prefix = texts.prefix raw;
  user_id = some user;
  scopes = input.scopes;
  last_used_at = none;
  expires_at = input.expires_at;
  is_active = true;
  created_at = now;
}

-- The row and the plain key, which is shown this once.
unfoldable pub create_key : Texts → ℕ → String → String → ℕ → KeyInput → Action (ApiKeyDto × String)
create_key texts now uuid raw user input = do
  throw_if (← gets (λ db. is_some (find (has_hash (texts.hash raw)) db.api_keys))) unique_violation
  k ← gets (λ db. new_key texts now uuid raw user input db.api_keys)
  modify (λ db. record db { api_keys = create k db.api_keys })
  pure (to_dto k, raw)

abbrev pub key_of : String → Action ApiKey
key_of public_id = do
  found ← gets (λ db. find (has_public_id public_id) db.api_keys)
  or_throw found (business ErrorCode.not_found "API key not found")

abbrev pub changed : KeyUpdate → ApiKey → ApiKey
changed input k = record k {
  name = get_or input.name k.name;
  scopes = get_or input.scopes k.scopes;
  is_active = get_or input.is_active k.is_active;
  expires_at = get_or input.expires_at k.expires_at;
}

unfoldable pub update_key : String → KeyUpdate → Action ApiKeyDto
update_key public_id input = do
  k ← key_of public_id
  modify
      (λ db. record db { api_keys = update (has_public_id public_id) (changed input) db.api_keys })
  pure (to_dto (changed input k))

abbrev pub switched_off : ApiKey → ApiKey
switched_off k = record k { is_active = false }

unfoldable pub revoke : String → Action (Unit {0})
revoke public_id = do
  k ← key_of public_id
  modify (λ db. record db { api_keys = update (has_public_id public_id) switched_off db.api_keys })

unfoldable pub delete_key : String → Action (Unit {0})
delete_key public_id =
    modify
      (λ db. record db { api_keys = find_many (λ k. not (has_public_id public_id k)) db.api_keys })

abbrev pub is_over : ℕ → Option ℕ → Bool
is_over now none = false
is_over now (some at) = ltb at now

-- The key that a raw key opens: it is active, and its time has not passed.
abbrev pub opened : ℕ → Option ApiKey → Option ApiKey
opened now none = none
opened now (some k) = if not k.is_active || is_over now k.expires_at then none else some k

pub record Access : Type 0 where
  pub user_id : ℕ
  pub scopes : List String

abbrev pub used : ℕ → ApiKey → ApiKey
used now k = record k { last_used_at = some now }

abbrev grant : ℕ → Option ApiKey → Action (Option Access)
grant now none = pure none
grant now (some k) = do
  modify (λ db. record db { api_keys = update (has_id k.id) (used now) db.api_keys })
  pure (some (record { user_id = get_or k.user_id 0; scopes = k.scopes }))

-- The note of the last use is taken to succeed, since a failure of it is only logged.
unfoldable pub validate : Texts → ℕ → String → Action (Option Access)
validate texts now raw = do
  found ← gets (λ db. opened now (find (has_hash (texts.hash raw)) db.api_keys))
  grant now (if texts.starts raw then found else none)
