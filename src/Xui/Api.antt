-- ===== src/Xui/Api.antt =====
-- The calls of the panel's interface (`api`, `clientAction`, `bulk`, `emails`, `toSafeBytes` and the
-- schemas of their inputs in src/modules/panels/xui-panel.client.ts). `Schemas` stands for what zod
-- makes of a payload, none where the payload does not fit; `encode` for `encodeURIComponent`.
use Prim.Native.String.{◌++◌ as text_append}
use vpn_saas.Base.{
  ℕ, Bool, true, ◌&&◌, ◌||◌, Option, none, some, String, List, [], ◌∷◌, ltb, leb, ◌==◌, str_eq,
  if◌then◌else◌, length, map,
}
use vpn_saas.Base.Texts.{within, trim, codes, stands_in, lower}
use vpn_saas.Store.{Failure, schema_error}
use vpn_saas.Xui.Wire.{
  Method, post, Body, Reading, no_json, malformed, envelope, Network, XuiClientState, Call,
  returned, fail, given, if_call, fail_if, ◌>>=◌, ◌>>◌,
}
use vpn_saas.Xui.Session.{XuiPanel, request, conflict}

abbrev pub max_safe : ℕ
max_safe = 9007199254740991

abbrev is_email_char : ℕ → Bool
is_email_char c =
    within b'A' b'Z' c
    || within b'a' b'z' c
    || within b'0' b'9' c
    || (c == b'.')
    || (c == b'_')
    || (c == b'@')
    || (c == b'-')

abbrev all_email_chars : List ℕ → Bool
all_email_chars [] = true
all_email_chars (c ∷ cs) = is_email_char c && all_email_chars cs

abbrev pub is_short_text : List ℕ → Bool
is_short_text text = within 1 255 (length text)

-- `emailSchema.parse`
abbrev pub parse_email : List ℕ → Call (List ℕ)
parse_email text =
    if_call (is_short_text (trim text) && all_email_chars (trim text)) (returned (trim text))
      (fail schema_error)

-- `subIdSchema.parse`, which also checks the names of groups.
abbrev pub parse_sub_id : List ℕ → Call (List ℕ)
parse_sub_id text = if_call (is_short_text (trim text)) (returned (trim text)) (fail schema_error)

abbrev pub parse_emails : List (List ℕ) → Call (List (List ℕ))
parse_emails [] = returned []
parse_emails (e ∷ es) = do first ← parse_email e; rest ← parse_emails es; returned (first ∷ rest)

abbrev pub checked_emails : List (List ℕ) → Call (List (List ℕ))
checked_emails es = fail_if (length es == 0) schema_error >> parse_emails es

abbrev all_positive : List ℕ → Bool
all_positive [] = true
all_positive (n ∷ ns) = ltb 0 n && all_positive ns

-- `inboundIdsSchema.parse`
abbrev pub parse_inbound_ids : List ℕ → Call (List ℕ)
parse_inbound_ids ids =
    if_call (ltb 0 (length ids) && all_positive ids) (returned ids) (fail schema_error)

-- `bytesSchema.parse` and `expiryMsSchema.parse`
abbrev pub parse_safe : ℕ → Call ℕ
parse_safe n = if_call (leb n max_safe) (returned n) (fail schema_error)

abbrev pub parse_some : {A B : Type 0} → (A → Call B) → Option A → Call (Option B)
parse_some parse none = returned none
parse_some parse (some a) = do b ← parse a; returned (some b)

-- `clientStateSchema.parse`
abbrev pub parse_client_state : XuiClientState → Call XuiClientState
parse_client_state c = do
  email ← parse_email c.email
  total ← parse_safe c.total_gb
  expiry ← parse_safe c.expiry_time
  returned (record c { email = email })

abbrev pub parse_client_states : List XuiClientState → Call (List XuiClientState)
parse_client_states [] = returned []
parse_client_states (c ∷ cs) = do
  first ← parse_client_state c
  rest ← parse_client_states cs
  returned (first ∷ rest)

-- `toSafeBytes` of a `bigint` that is not negative.
abbrev pub to_safe_bytes : ℕ → Call ℕ
to_safe_bytes n =
    if_call (leb n max_safe) (returned n)
      (fail (conflict "XUI traffic bytes must be a safe non-negative integer"))

-- `/duplicate|already exists/i`
abbrev pub is_duplicate : String → Bool
is_duplicate message =
    stands_in (codes "duplicate") (map lower (codes message))
    || stands_in (codes "already exists") (map lower (codes message))

abbrev or_message : String → String
or_message message = if str_eq message "" then "XUI rejected the request" else message

abbrev pub rejection : String → Failure
rejection message =
    if is_duplicate message then conflict "XUI client already exists" else conflict message

-- A row of the list of inbounds.
pub record InboundRow : Type 0 where
  pub id : ℕ
  pub remark : Option String
  pub tag : Option String
  pub protocol : List ℕ
  pub port : ℕ
  pub enable : Bool
  pub expiry_time : Option ℕ

pub record XuiPagedClients : Type 0 where
  pub total : ℕ
  pub items : List XuiClientState

pub record XuiBulkResult : Type 0 where
  pub created : Option (List String)
  pub skipped : Option (List (List ℕ × String))

pub record Schemas (Obj : Type 0) : Type 0 where
  pub token : Obj → Option String
  pub any : Obj → Option (Unit {0})
  pub fields : Obj → Option Obj
  pub clients : Obj → Option (List XuiClientState)
  pub client : Obj → Option (Option XuiClientState)
  pub page : Obj → Option XuiPagedClients
  pub inbounds : Obj → Option (List InboundRow)
  pub links : Obj → Option (List String)
  pub names : Obj → Option (List String)
  pub emails : Obj → Option (List (List ℕ))
  pub bulk_result : Obj → Option XuiBulkResult

module _ {Obj : Type 0} where
  abbrev pub payload : {A : Type 0} → (Obj → Option A) → Reading Obj → Call A
  payload schema no_json = fail (rejection "invalid json")
  payload schema malformed = fail (conflict "XUI returned a malformed response envelope")
  payload schema (envelope e) =
      if_call e.success (given (schema e.obj) (conflict "XUI returned an invalid response payload"))
        (fail (rejection (or_message e.msg)))

module _ {Obj : Type 0} (net : Network Obj) (schemas : Schemas Obj) (encode : List ℕ → String)
    (now : ℕ) where
  unfoldable pub api : {A : Type 0} → XuiPanel → String → Method → Body → (Obj → Option A) → Call A
  api panel path method body schema = do
    raw ← request net schemas.token now panel path method body
    payload schema raw

  unfoldable pub client_action :
      {A : Type 0} → XuiPanel → List ℕ → String → Body → (Obj → Option A) → Call A
  unfolding api
  client_action panel email action body schema = do
    safe ← parse_email email
    api panel
        (text_append "/panel/api/clients/" (text_append (encode safe) (text_append "/" action)))
        post body schema

  unfoldable pub bulk : XuiPanel → String → Body → Call XuiBulkResult
  unfolding api
  bulk panel action body =
      api panel (text_append "/panel/api/clients/" action) post body schemas.bulk_result
