-- ===== src/Xui/Users.antt =====
-- What the services use of a panel (`createUser`, `getUser`, `getClientTraffic`, `updateUser`,
-- `resetTraffic`, `resolveInboundId` and `resolveAllInboundIds` of
-- src/modules/panels/xui-panel.client.ts). `Answers` reads the payloads that are not checked by a
-- schema, none where they are null; `link` stands for `buildSubscriptionUrl`.
mod Shapes
unfoldable pub use Shapes.*
use Prim.Native.String.{◌++◌ as text_append}
use vpn_saas.Base.{
  ℕ, ◌+◌, Bool, true, false, ◌&&◌, ◌||◌, not, Option, none, some, String, List, [], ◌∷◌, ltb, leb,
  ◌==◌, if◌then◌else◌, map,
}
use vpn_saas.Base.Table.{find, find_many}
use vpn_saas.Base.Texts.{all_digits, number_from, same_codes}
use vpn_saas.Store.{business, ErrorCode, get_or, is_none}
use vpn_saas.Xui.Wire.{
  get, post, empty, Reading, no_json, malformed, envelope, Network, XuiClientState, Call, returned,
  fail, given, if_call, fail_if, ◌>>=◌, ◌>>◌,
}
use vpn_saas.Xui.Session.{XuiPanel, conflict, request}
use vpn_saas.Xui.Api.{
  Schemas, max_safe, parse_email, parse_sub_id, parse_some, parse_safe, to_safe_bytes,
}
use vpn_saas.Xui.Clients.{get_client_state, add_client, replace_client}

abbrev nonzero : ℕ → Option ℕ
nonzero n = if n == 0 then none else some n

abbrev or_zero : Option ℕ → ℕ
or_zero n = get_or n 0

abbrev filled : Option (List ℕ) → Option (List ℕ)
filled none = none
filled (some []) = none
filled (some (c ∷ cs)) = some (c ∷ cs)

abbrev as_number : Option (List ℕ) → Option ℕ
as_number none = none
as_number (some text) =
    if all_digits text && leb (number_from 0 text) max_safe then some (number_from 0 text) else none

-- The number that goes to the panel as `tgId`, if the text writes one.
abbrev pub telegram_number : Option (List ℕ) → Option ℕ
telegram_number id = as_number (filled id)

abbrev link_for : (List ℕ → String) → Option (List ℕ) → String
link_for link none = ""
link_for link (some sub_id) = link sub_id

abbrev pub to_panel_user : (List ℕ → String) → XuiClientState → PanelUser
to_panel_user link c = record {
  uuid = get_or c.uuid "";
  username = c.email;
  status = if c.enable then active else disabled;
  used_bytes = 0;
  data_limit_bytes = nonzero c.total_gb;
  expiry_ms = nonzero c.expiry_time;
  sub_link = link_for link (filled c.sub_id);
}

abbrev used_of : RawClient → ℕ → ℕ
used_of c reset = if reset == 0 then or_zero c.up + or_zero c.down else reset

abbrev status_of : ℕ → RawClient → PanelUserStatus
status_of now c =
    if not c.enable
    then disabled
    else if ltb 0 c.expiry_time && ltb c.expiry_time now
    then expired
    else active

-- `mapUser`
abbrev pub map_user : (List ℕ → String) → ℕ → RawClient → PanelUser
map_user link now c = record {
  uuid = get_or c.uuid (get_or c.id "");
  username = c.email;
  status = status_of now c;
  used_bytes = used_of c (or_zero c.reset);
  data_limit_bytes = nonzero c.total_gb;
  expiry_ms = nonzero c.expiry_time;
  sub_link = link_for link (filled (some c.sub_id));
}

abbrev enabled_by : Option PanelUserStatus → Bool → Bool
enabled_by (some disabled) before = false
enabled_by (some active) before = true
enabled_by _ before = before

-- A limit that is given anew, with 0 for none.
abbrev limit_by : (ℕ → Call ℕ) → Option (Option ℕ) → ℕ → Call ℕ
limit_by parse none before = returned before
limit_by parse (some none) before = returned 0
limit_by parse (some (some n)) before = parse n

abbrev sub_id_by : Option (List ℕ) → Option (List ℕ) → Call (Option (List ℕ))
sub_id_by none before = returned before
sub_id_by (some text) before = parse_sub_id text >>= λ t. returned (some t)

abbrev number_by : Option ℕ → Option ℕ → Option ℕ
number_by none before = before
number_by (some n) before = some n

abbrev created_user : (List ℕ → String) → XuiClientState → Option XuiClientState → PanelUser
created_user link c none = record (to_panel_user link c) {
  uuid = "";
  status = active;
  sub_link = "";
}
created_user link c (some there) = to_panel_user link there

-- The object that a successful answer holds.
abbrev pub object_in : {Obj A : Type 0} → (Obj → Option A) → Reading Obj → Option A
object_in read no_json = none
object_in read malformed = none
object_in read (envelope e) = if e.success then read e.obj else none

abbrev rows_in : {Obj : Type 0} → Answers Obj → Reading Obj → List ThreeXuiInbound
rows_in answers no_json = []
rows_in answers malformed = []
rows_in answers (envelope e) = get_or (answers.rows e.obj) []

abbrev is_listed : List (List ℕ) → ThreeXuiInbound → Bool
is_listed [] row = false
is_listed (p ∷ ps) row = same_codes p row.protocol || is_listed ps row

abbrev pub explicit_inbound : XuiPanel → Option ℕ
explicit_inbound panel = nonzero (or_zero panel.extra_inbound_id)

abbrev chosen_id : List ThreeXuiInbound → Option ThreeXuiInbound → Call ℕ
chosen_id [] o = fail (conflict "3x-ui has no inbounds configured.")
chosen_id (row ∷ rows) none = returned row.id
chosen_id (row ∷ rows) (some match) = returned match.id

abbrev chosen_ids : List ThreeXuiInbound → List ThreeXuiInbound → List ℕ
chosen_ids rows [] = map (λ (r : ThreeXuiInbound). r.id) rows
chosen_ids rows (m ∷ ms) = map (λ (r : ThreeXuiInbound). r.id) (m ∷ ms)

module _ {Obj : Type 0} (net : Network Obj) (schemas : Schemas Obj) (encode : List ℕ → String)
    (link : List ℕ → String) (answers : Answers Obj) (now : ℕ) (panel : XuiPanel) where
  unfoldable pub create_user : CreatePanelUserInput → Call PanelUser
  unfolding get_client_state add_client
  create_user input = do
    total ← parse_total input.data_limit_bytes
    email ← parse_email input.username
    expiry ← limit_by parse_safe (some input.expire_ms) 0
    sub_id ← parse_some parse_sub_id (filled input.sub_id)
    let client : XuiClientState = record {
      email = email;
      enable = true;
      total_gb = total;
      expiry_time = expiry;
      limit_ip = input.device_limit;
      sub_id = sub_id;
      uuid = none;
      tg_id = telegram_number input.telegram_id;
    }
    add_client net schemas encode now panel client input.inbound_ids
    there ← get_client_state net schemas encode now panel client.email
    returned (created_user link client there)
    where
      parse_total : Option ℕ → Call ℕ
      parse_total o = limit_by to_safe_bytes (some o) 0

  unfoldable pub get_client_traffic : List ℕ → Call (Option ClientTraffic)
  get_client_traffic email = do
    raw ←
        request net schemas.token now panel
          (text_append "/panel/api/clients/traffic/" (encode email)) get empty
    returned (counted (object_in answers.traffic raw))
    where
      counted : Option Traffic → Option ClientTraffic
      counted none = none
      counted (some t) =
          some (record { used_bytes = t.up + t.down; total_bytes = t.total; traffic = t })

  unfoldable pub get_user : List ℕ → Call (Option PanelUser)
  get_user username = do
    raw ←
        request net schemas.token now panel
          (text_append "/panel/api/clients/get/" (encode username)) get empty
    returned (mapped (object_in answers.raw_client raw))
    where
      mapped : Option RawClient → Option PanelUser
      mapped none = none
      mapped (some c) = if same_codes c.email [] then none else some (map_user link now c)

  unfoldable pub reset_traffic : List ℕ → Call (Unit {0})
  reset_traffic username = do
    raw ←
        request net schemas.token now panel
          (text_append "/panel/api/clients/resetTraffic/" (encode username)) post empty
    fail_if (is_none (object_in some raw)) (conflict "3x-ui reset traffic failed")

  abbrev pub replacement : UpdatePanelUserInput → XuiClientState → Call XuiClientState
  replacement input before = do
    total ← limit_by to_safe_bytes input.data_limit_bytes before.total_gb
    expiry ← limit_by parse_safe input.expire_ms before.expiry_time
    sub_id ← sub_id_by input.sub_id before.sub_id
    returned (record before {
      enable = enabled_by input.status before.enable;
      total_gb = total;
      expiry_time = expiry;
      limit_ip = get_or input.device_limit before.limit_ip;
      sub_id = sub_id;
      tg_id = number_by (telegram_number input.telegram_id) before.tg_id;
    })

  unfoldable pub update_user : List ℕ → UpdatePanelUserInput → Call PanelUser
  unfolding get_client_state replace_client reset_traffic
  update_user username input = do
    found ← get_client_state net schemas encode now panel username
    before ← given found (business ErrorCode.not_found "XUI client not found")
    after ← replacement input before
    replace_client net schemas encode now panel username after
    if_call input.reset_usage (reset_traffic username) (returned tt)
    returned (to_panel_user link after)

  unfoldable pub resolve_inbound_id : List (List ℕ) → Call ℕ
  resolve_inbound_id protocols = decided (explicit_inbound panel)
    where
      decided : Option ℕ → Call ℕ
      decided (some id) = returned id
      decided none = do
        raw ← request net schemas.token now panel "/panel/api/inbounds/list" get empty
        chosen_id (rows_in answers raw) (find (is_listed protocols) (rows_in answers raw))

  unfoldable pub resolve_all_inbound_ids : List (List ℕ) → Call (List ℕ)
  resolve_all_inbound_ids protocols = decided (explicit_inbound panel)
    where
      decided : Option ℕ → Call (List ℕ)
      decided (some id) = returned (id ∷ [])
      decided none = do
        raw ← request net schemas.token now panel "/panel/api/inbounds/list" get empty
        let rows = find_many (λ (r : ThreeXuiInbound). r.enable) (rows_in answers raw)
        returned (chosen_ids rows (find_many (is_listed protocols) rows))
