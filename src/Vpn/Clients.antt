-- ===== src/Vpn/Clients.antt =====
-- The mapping of a subscription to a client of a panel: `claimVpnUserMapping`,
-- `recordVpnUserMapping` and `getVpnUserForSubscription` of src/modules/vpn/vpn.service.ts.
-- `token` stands for the call of `randomUUID`; ids are written in decimal by `show`.
use vpn_saas.Base.{
  ℕ, Bool, false, ◌&&◌, ◌||◌, not, Option, none, some, String, List, ◌==◌, str_eq, if◌then◌else◌,
}
use Prim.Native.String.{◌++◌ as text_append}
use vpn_saas.Base.Table.{find, update, update_many, create}
use vpn_saas.Store.{
  Action, pure, gets, or_throw, throw, throw_if, modify, when, if_action, on_error, ◌>>=◌, ◌>>◌,
  Failure, same_id, fresh_id, is_some, is_none, unique_violation,
}
use vpn_saas.Store.Rows.Clients.{VpnUser, PanelUserStatus, active, disabled}

abbrev pub has_id : ℕ → VpnUser → Bool
has_id id v = v.id == id

abbrev pub of_subscription : ℕ → VpnUser → Bool
of_subscription id v = same_id v.subscription_id id

abbrev pub has_name : String → VpnUser → Bool
has_name name v = str_eq v.panel_user_id name

abbrev pub same_text : Option String → String → Bool
same_text none t = false
same_text (some s) t = str_eq s t

abbrev pub has_token : String → VpnUser → Bool
has_token token v = same_text v.sub_token token

-- A text, or its absence, as a condition: the empty text is falsy.
abbrev pub is_text : Option String → Bool
is_text none = false
is_text (some t) = not (str_eq t "")

pub record Claim : Type 0 where
  pub subscription_id : ℕ
  pub user_id : ℕ
  pub panel_id : ℕ
  pub proposed_username : String
  pub traffic_limit_bytes : Option ℕ
  pub expiry_at : Option ℕ

pub record ClientName : Type 0 where
  pub panel_user_id : String
  pub sub_token : Option String

abbrev pub waiting : String
waiting = "Provisioning pending; retry is safe"

abbrev pub claimed : String → Claim → String → List VpnUser → VpnUser
claimed token c name vs = record {
  id = fresh_id (λ (v : VpnUser). v.id) vs;
  panel_id = c.panel_id;
  panel_user_id = name;
  user_id = c.user_id;
  subscription_id = some c.subscription_id;
  status = disabled;
  used_traffic_bytes = 0;
  total_traffic_bytes = c.traffic_limit_bytes;
  expiry_at = c.expiry_at;
  sub_link = none;
  sub_token = some token;
  last_sync_at = none;
  sync_error = some waiting;
}

-- The `upsert` that writes nothing where the subscription has its mapping. The names and the tokens
-- of the clients are unique.
abbrev pub create_claim : String → Claim → String → Action VpnUser
create_claim token c name = do
  throw_if
      (← gets (λ db.
        is_some (find (has_name name) db.vpn_users)
        || is_some (find (has_token token) db.vpn_users)))
      unique_violation
  v ← gets (λ db. claimed token c name db.vpn_users)
  modify (λ db. record db { vpn_users = create v db.vpn_users })
  pure v

abbrev pub upsert_claim : Option VpnUser → String → Claim → String → Action VpnUser
upsert_claim (some v) token c name = pure v
upsert_claim none token c name = create_claim token c name

unfoldable pub claim_name : String → Claim → String → Action VpnUser
claim_name token c name = do
  mine ← gets (λ db. find (of_subscription c.subscription_id) db.vpn_users)
  upsert_claim mine token c name

-- The name is another subscription's, or no subscription's.
abbrev pub is_foreign : ℕ → Option VpnUser → Bool
is_foreign id none = false
is_foreign id (some v) = not (same_id v.subscription_id id)

abbrev pub again_with : Bool → Failure → Action VpnUser → Action VpnUser
again_with false unique_violation retry = retry
again_with _ e retry = throw e

abbrev pub with_token : String → VpnUser → VpnUser
with_token token v = record v { sub_token = some token }

abbrev pub with_name : String → VpnUser → VpnUser
with_name name v = record v { panel_user_id = name }

abbrev pub lacks_token : ℕ → VpnUser → Bool
lacks_token id v = v.id == id && is_none v.sub_token

abbrev pub lacks_name : ℕ → VpnUser → Bool
lacks_name id v = v.id == id && str_eq v.panel_user_id ""

abbrev pub is_complete : VpnUser → Bool
is_complete v = is_text v.sub_token && not (str_eq v.panel_user_id "")

abbrev pub write_clients : (VpnUser → Bool) → (VpnUser → VpnUser) → Action (Unit {0})
write_clients p f = modify (λ db. record db { vpn_users = update_many p f db.vpn_users })

-- A mapping that older rows have left without a token or a name is filled and read again.
abbrev pub completed : String → String → VpnUser → Action VpnUser
completed token name v = do
  when (not (is_text v.sub_token)) (write_clients (lacks_token v.id) (with_token token))
  when (str_eq v.panel_user_id "") (write_clients (lacks_name v.id) (with_name name))
  again ← gets (λ db. find (has_id v.id) db.vpn_users)
  if_action (is_complete v) (pure v) (or_throw again Failure.record_not_found)

abbrev pub suffixed : (ℕ → String) → Claim → String
suffixed show c = text_append c.proposed_username (text_append "_s" (show c.subscription_id))

unfoldable pub claim_vpn_user_mapping : (ℕ → String) → String → Claim → Action ClientName
unfolding claim_name
claim_vpn_user_mapping show token c = do
  other ← gets (λ db. find (has_name c.proposed_username) db.vpn_users)
  let name = if is_foreign c.subscription_id other then suffixed show c else c.proposed_username
  v ←
      on_error (claim_name token c name)
        (λ e. again_with (str_eq name (suffixed show c)) e (claim_name token c (suffixed show c)))
  v' ← completed token c.proposed_username v
  pure (record { panel_user_id = v'.panel_user_id; sub_token = v'.sub_token })

-- What a mapping records; a text that is absent is left out of an update.
pub record Mapping : Type 0 where
  pub subscription_id : ℕ
  pub user_id : ℕ
  pub panel_id : ℕ
  pub panel_user_id : String
  pub sub_link : Option String
  pub sub_token : Option String
  pub traffic_limit_bytes : Option ℕ
  pub expiry_at : Option ℕ
  pub sync_error : Option String

abbrev pub or_kept : Option String → Option String → Option String
or_kept none kept = kept
or_kept (some t) kept = some t

abbrev pub mapping_status : Option String → PanelUserStatus
mapping_status error = if is_text error then disabled else active

abbrev pub remapped : ℕ → Mapping → VpnUser → VpnUser
remapped now m v = record v {
  panel_id = m.panel_id;
  panel_user_id = m.panel_user_id;
  sub_link = or_kept m.sub_link v.sub_link;
  sub_token = or_kept m.sub_token v.sub_token;
  total_traffic_bytes = m.traffic_limit_bytes;
  expiry_at = m.expiry_at;
  last_sync_at = some now;
  status = mapping_status m.sync_error;
  sync_error = m.sync_error;
}

abbrev pub mapped : ℕ → Mapping → List VpnUser → VpnUser
mapped now m vs = record {
  id = fresh_id (λ (v : VpnUser). v.id) vs;
  panel_id = m.panel_id;
  panel_user_id = m.panel_user_id;
  user_id = m.user_id;
  subscription_id = some m.subscription_id;
  status = mapping_status m.sync_error;
  used_traffic_bytes = 0;
  total_traffic_bytes = m.traffic_limit_bytes;
  expiry_at = m.expiry_at;
  sub_link = m.sub_link;
  sub_token = m.sub_token;
  last_sync_at = some now;
  sync_error = m.sync_error;
}

-- A row other than the mapping's own has its name or its token.
abbrev pub is_rival : Mapping → VpnUser → Bool
is_rival m v =
    not (of_subscription m.subscription_id v)
    && (has_name m.panel_user_id v || shares m.sub_token v.sub_token)
  where
    shares : Option String → Option String → Bool
    shares (some t) (some u) = str_eq t u
    shares _ _ = false

abbrev pub upsert_mapping : ℕ → Mapping → Option VpnUser → Action (Unit {0})
upsert_mapping now m (some v) = modify (λ db. record db {
  vpn_users = update (of_subscription m.subscription_id) (remapped now m) db.vpn_users;
})
upsert_mapping now m none =
    modify (λ db. record db { vpn_users = create (mapped now m db.vpn_users) db.vpn_users })

unfoldable pub record_vpn_user_mapping : ℕ → Mapping → Action (Unit {0})
record_vpn_user_mapping now m = do
  throw_if (← gets (λ db. is_some (find (is_rival m) db.vpn_users))) unique_violation
  mine ← gets (λ db. find (of_subscription m.subscription_id) db.vpn_users)
  upsert_mapping now m mine
