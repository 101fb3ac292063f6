-- ===== src/Xui/Session.antt =====
-- The sessions with a panel and the requests under them: `login`, `ensureSession`,
-- `captureCookies`, `parseSetCookie` and `request` of src/modules/panels/xui-panel.client.ts. `now`
-- is the clock during one call, the errors are kept without what they quote, and `token` is
-- the text that the panel's answer to `/csrf-token` holds, if it holds one.
use vpn_saas.Base.{
  ℕ, zero, suc, ◌+◌, Bool, true, false, ◌&&◌, ◌||◌, not, Option, none, some, String, List, [], ◌∷◌,
  ◌++◌, ltb, ◌==◌, if◌then◌else◌,
}
use vpn_saas.Base.Table.{find, find_many}
use vpn_saas.Base.Texts.{within}
use vpn_saas.Store.{
  network_error, Failure, business, ErrorCode, get_or, is_some, client_error, type_error,
}
use vpn_saas.Xui.Wire.{
  Method, get, post, Body, empty, login_form, Request, Envelope, Reading, no_json, malformed,
  envelope, Reply, Network, PanelSession, Wire, Call, returned, fail, given, if_call, ◌>>=◌, ◌>>◌,
  fail_if, reads, writes, send,
}

-- A connection, with the fields of `extraConfig` that are read, where they have the type asked for.
pub record XuiPanel : Type 0 where
  pub id : ℕ
  pub base_url : String
  pub api_key : List ℕ
  pub extra_username : Option (List ℕ)
  pub extra_password : Option (List ℕ)
  pub extra_inbound_id : Option ℕ
  pub config_username : List ℕ
  pub config_password : List ℕ

-- `c.split(';')[0]`
abbrev pub before_semicolon : List ℕ → List ℕ
before_semicolon [] = []
before_semicolon (c ∷ cs) = if c == b';' then [] else c ∷ before_semicolon cs

-- The pairs that are not empty, joined with "; ".
abbrev pub parse_set_cookie : List (List ℕ) → List ℕ
parse_set_cookie [] = []
parse_set_cookie (line ∷ lines) = joined (before_semicolon line) (parse_set_cookie lines)
  where
    joined : List ℕ → List ℕ → List ℕ
    joined [] rest = rest
    joined (c ∷ cs) [] = c ∷ cs
    joined (c ∷ cs) (d ∷ ds) = (c ∷ cs) ++ (b';' ∷ 32 ∷ d ∷ ds)

-- The key at its first colon, where that is not its first character.
abbrev pub split_at_colon : List ℕ → Option (List ℕ × List ℕ)
split_at_colon [] = none
split_at_colon (c ∷ cs) = if c == b':' then some ([], cs) else behind c (split_at_colon cs)
  where
    behind : ℕ → Option (List ℕ × List ℕ) → Option (List ℕ × List ℕ)
    behind c none = none
    behind c (some p) = some (c ∷ p.0, p.1)

abbrev pub stored_credentials : Option (List ℕ × List ℕ) → Option (List ℕ × List ℕ)
stored_credentials none = none
stored_credentials (some ([], password)) = none
stored_credentials (some (c ∷ cs, password)) = some (c ∷ cs, password)

abbrev pub credentials : XuiPanel → List ℕ × List ℕ
credentials panel = chosen (stored_credentials (split_at_colon panel.api_key))
  where
    chosen : Option (List ℕ × List ℕ) → List ℕ × List ℕ
    chosen none = (
      get_or panel.extra_username panel.config_username,
      get_or panel.extra_password panel.config_password,
    )
    chosen (some p) = p

abbrev pub is_blank : List ℕ → Bool
is_blank [] = true
is_blank (c ∷ cs) = false

abbrev pub or_cookie : List ℕ → List ℕ → List ℕ
or_cookie [] cookie = cookie
or_cookie (c ∷ cs) cookie = c ∷ cs

-- `res.ok`
abbrev pub is_ok : ℕ → Bool
is_ok status = within 200 299 status

abbrev pub conflict : String → Failure
conflict message = business ErrorCode.conflict message

abbrev pub unauthorized : String → Failure
unauthorized message = business ErrorCode.unauthorized message

abbrev pub is_of : ℕ → ℕ × PanelSession → Bool
is_of panel p = p.0 == panel

-- `Map.delete`
abbrev pub without : ℕ → List (ℕ × PanelSession) → List (ℕ × PanelSession)
without panel ss = find_many (λ p. not (is_of panel p)) ss

abbrev pub keep_session : ℕ → PanelSession → Wire → Wire
keep_session panel s w = record w { sessions = (panel, s) ∷ without panel w.sessions }

abbrev pub drop_session : ℕ → Wire → Wire
drop_session panel w = record w { sessions = without panel w.sessions }

abbrev session_in : Option (ℕ × PanelSession) → Option PanelSession
session_in none = none
session_in (some p) = some p.1

abbrev pub session_of : ℕ → Wire → Option PanelSession
session_of panel w = session_in (find (is_of panel) w.sessions)

-- What an answer holds, where it is JSON; an object of another shape counts as unsuccessful.
abbrev pub read_reply : {Obj : Type 0} → Reading Obj → Call (Option (Envelope Obj))
read_reply no_json = fail type_error
read_reply malformed = returned none
read_reply (envelope e) = returned (some e)

abbrev pub succeeded : {Obj : Type 0} → Option (Envelope Obj) → Bool
succeeded none = false
succeeded (some e) = e.success

abbrev pub refreshed : {Obj : Type 0} → ℕ → Reply Obj → PanelSession → Call (Unit {0})
refreshed panel reply s =
    if_call (is_blank (parse_set_cookie reply.set_cookie)) (returned tt)
      (writes (keep_session panel (record s { cookie = parse_set_cookie reply.set_cookie })))

abbrev hour_ms : ℕ
hour_ms = 3600000

abbrev pub request_with : XuiPanel → String → Method → Body → PanelSession → Request
request_with panel path method body s = record {
  base = panel.base_url;
  path = path;
  method = method;
  csrf_token = s.csrf_token;
  cookie = s.cookie;
  body = body;
}

abbrev pub is_get : Method → Bool
is_get get = true
is_get post = false

abbrev pub is_denied : ℕ → Bool
is_denied status = status == 401 || status == 403

abbrev pub open_session :
    {Obj : Type 0} → XuiPanel → Option (Envelope Obj) → PanelSession → Call PanelSession
open_session panel login_body s = do
  fail_if (not (succeeded login_body)) (unauthorized "3x-ui login rejected")
  writes (keep_session panel.id s)
  returned s

module _ {Obj : Type 0} (net : Network Obj) (token : Obj → Option String) (now : ℕ) where
  abbrev pub token_in : Option (Envelope Obj) → Option String
  token_in none = none
  token_in (some e) = if e.success then token e.obj else none

  unfoldable pub login : XuiPanel → Call PanelSession
  login panel = do
    fail_if (is_blank (credentials panel).0 || is_blank (credentials panel).1)
        (unauthorized "3x-ui panel credentials not configured")
    csrf ← send net network_error (record {
      base = panel.base_url;
      path = "/csrf-token";
      method = get;
      csrf_token = "";
      cookie = [];
      body = empty;
    })
    fail_if (not (is_ok csrf.status)) (conflict "3x-ui /csrf-token → HTTP")
    csrf_body ← read_reply csrf.reading
    csrf_token ← given (token_in csrf_body) (conflict "3x-ui /csrf-token returned no token")
    reply ← send net network_error (record {
      base = panel.base_url;
      path = "/login";
      method = post;
      csrf_token = csrf_token;
      cookie = parse_set_cookie csrf.set_cookie;
      body = login_form (credentials panel).0 (credentials panel).1;
    })
    fail_if (not (is_ok reply.status)) (unauthorized "3x-ui /login → HTTP")
    login_body ← read_reply reply.reading
    open_session panel login_body (record {
      cookie = or_cookie (parse_set_cookie reply.set_cookie) (parse_set_cookie csrf.set_cookie);
      csrf_token = csrf_token;
      logged_in_at = now;
    })

  abbrev pub is_fresh : PanelSession → Bool
  is_fresh s = ltb now (s.logged_in_at + hour_ms)

  abbrev pub session_or_login : XuiPanel → Option PanelSession → Call PanelSession
  session_or_login panel none = login panel
  session_or_login panel (some s) = if_call (is_fresh s) (returned s) (login panel)

  unfoldable pub ensure_session : XuiPanel → Call PanelSession
  ensure_session panel = do cached ← reads (session_of panel.id); session_or_login panel cached

  -- One pass of the loop: none where it goes on. The answer no_json stands for the object
  -- `{ success: false, msg: 'invalid json', obj: null }` that such a body is replaced by.
  unfoldable pub pass : XuiPanel → String → Method → Body → ℕ → Call (Option (Reading Obj))
  unfolding ensure_session
  pass panel path method body attempt = do
    session ← ensure_session panel
    reply ← send net (conflict "3x-ui request error") (request_with panel path method body session)
    if_call (is_denied reply.status && (attempt == 1) && is_get method)
        (writes (drop_session panel.id) >> returned none)
        (do
          fail_if (not (is_ok reply.status)) (conflict "3x-ui HTTP")
          refreshed panel.id reply session
          returned (some reply.reading))

  -- `while (true)`, on fuel: none where the fuel runs out.
  unfoldable pub passes : ℕ → XuiPanel → String → Method → Body → ℕ → Call (Option (Reading Obj))
  unfolding pass
  passes zero panel path method body attempt = returned none
  passes (suc fuel) panel path method body attempt = do
    answer ← pass panel path method body attempt
    if_call (is_some answer) (returned answer) (passes fuel panel path method body (suc attempt))

  -- Two passes are all that the loop makes.
  unfoldable pub request : XuiPanel → String → Method → Body → Call (Reading Obj)
  unfolding passes
  request panel path method body = do
    answer ← passes 2 panel path method body 1
    given answer (client_error "unreachable")
