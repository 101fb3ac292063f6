-- ===== src/Xui/Sends.antt =====
-- How often a request reaches the panel (`request` of src/modules/panels/xui-panel.client.ts).
use vpn_saas.Base.{
  ℕ, suc, ◌+◌, ◌≤◌, ◌≡◌, refl, ◌∙◌, Bool, true, false, ◌&&◌, Option, none, some, String, ◌==◌,
  str_eq, arith, inl, inr, Bool-cases, Option-cases, if◌then◌else◌,
}
use vpn_saas.Base.Table.{count}
use vpn_saas.Base.Table.Laws.{count-create}
use vpn_saas.Store.{Failure}
use vpn_saas.Xui.Wire.{
  Method, get, post, Body, Request, Envelope, Reading, Reply, Network, PanelSession, Wire, Call,
  given, ◌>>=◌, no_json, malformed, envelope, fail_if, send,
}
use vpn_saas.Xui.Session.{
  XuiPanel, conflict, login, open_session, succeeded, is_blank, parse_set_cookie, read_reply,
  ensure_session, session_or_login, pass, passes, request, is_denied, is_get, is_fresh, refreshed,
  session_of, request_with,
}
use vpn_saas.Xui.Retry.{continue_leads, pass-ends, ends_here, given_after, after_pass, rest_of_pass}

-- Whether a request has a method and a path.
abbrev same_method : Method → Method → Bool
same_method get get = true
same_method post post = true
same_method _ _ = false

abbrev pub is_for : Method → String → Request → Bool
is_for method path r = same_method method r.method && str_eq r.path path

abbrev pub times : Method → String → Wire → ℕ
times method path w = count (is_for method path) w.sent

-- How often a method may be sent.
abbrev pub limit : Method → ℕ
limit get = 2
limit post = 1

module _ {Obj : Type 0} (net : Network Obj) (token : Obj → Option String) (now : ℕ)
    (panel : XuiPanel) (path : String) (method : Method) (body : Body)
    (not_csrf : str_eq "/csrf-token" path ≡ false) (not_login : str_eq "/login" path ≡ false) where
  send-times :
      (e : Failure) (r : Request) (w : Wire)
      → times method path (send net e r w).1
        ≡ times method path w + (if is_for method path r then 1 else 0)
  send-times e r w = elim (Option-cases (net w.sent r)) [
    | inl lost ↦ rw lost (count-create (is_for method path) r w.sent)
    | inr (reply, answered) ↦ rw answered (count-create (is_for method path) r w.sent)
  ]

  -- A call under which the count stays as it is.
  record Keeps {A : Type 0} (m : Call A) : Type 0 where
    kept : (w : Wire) → times method path (m w).1 ≡ times method path w

  bind-Keeps :
      {A B : Type 0} (m : Call A) (f : A → Call B)
      → Keeps m
      → ((a : A) → Keeps (f a))
      → Keeps (m >>= f)
  bind-Keeps m f first rest = record {
    kept = λ w.
        continue_leads (λ v. times method path v ≡ times method path w)
          (λ v. times method path v ≡ times method path w) (m w) f (first.kept w) (λ v e. e)
          (λ a v e. (rest a).kept v ∙ e);
  }

  fail_if-Keeps : (c : Bool) (e : Failure) → Keeps (fail_if c e)
  fail_if-Keeps true e = record { kept = λ w. refl }
  fail_if-Keeps false e = record { kept = λ w. refl }

  given-Keeps : {A : Type 0} (o : Option A) (e : Failure) → Keeps (given o e)
  given-Keeps none e = record { kept = λ w. refl }
  given-Keeps (some a) e = record { kept = λ w. refl }

  read_reply-Keeps : (r : Reading Obj) → Keeps (read_reply r)
  read_reply-Keeps no_json = record { kept = λ w. refl }
  read_reply-Keeps malformed = record { kept = λ w. refl }
  read_reply-Keeps (envelope e) = record { kept = λ w. refl }

  send-Keeps : (e : Failure) (r : Request) → str_eq r.path path ≡ false → Keeps (send net e r)
  send-Keeps e r other =
      let apart : is_for method path r ≡ false = elim (Bool-cases (same_method method r.method)) [
        | inl same ↦ rw same other
        | inr differs ↦ rw differs refl
      ] in
      record { kept = λ w. send-times e r w ∙ rw apart (omega arith) }

  open_session-Keeps :
      (login_body : Option (Envelope Obj)) (s : PanelSession)
      → Keeps (open_session panel login_body s)
  open_session-Keeps login_body s = elim (Bool-cases (succeeded login_body)) [
    | inl accepted ↦ record { kept = λ w. rw accepted refl }
    | inr refused ↦ record { kept = λ w. rw refused refl }
  ]

  login-Keeps : Keeps (login net token now panel)
  unfolding login
  login-Keeps = bind-Keeps _ _ (fail_if-Keeps _ _) λ a.
      bind-Keeps _ _ (send-Keeps _ _ not_csrf) λ (csrf : Reply Obj).
        bind-Keeps _ _ (fail_if-Keeps _ _) λ b.
          bind-Keeps _ _ (read_reply-Keeps csrf.reading) λ csrf_body.
            bind-Keeps _ _ (given-Keeps _ _) λ csrf_token.
              bind-Keeps _ _ (send-Keeps _ _ not_login) λ (reply : Reply Obj).
                bind-Keeps _ _ (fail_if-Keeps _ _) λ c.
                  bind-Keeps _ _ (read_reply-Keeps reply.reading)
                    λ (login_body : Option (Envelope Obj)). open_session-Keeps login_body _

  ensure_session-Keeps :
      (w : Wire) → times method path (ensure_session net token now panel w).1 ≡ times method path w
  unfolding ensure_session
  ensure_session-Keeps w = cached (session_of panel.id w)
    where
      cached :
          (o : Option PanelSession)
          → times method path (session_or_login net token now panel o w).1 ≡ times method path w
      cached none = login-Keeps.kept w
      cached (some s) = elim (Bool-cases (is_fresh net token now s)) [
        | inl fresh ↦ rw fresh refl
        | inr stale ↦ rw stale (login-Keeps.kept w)
      ]

  refreshed-Keeps : (reply : Reply Obj) (s : PanelSession) → Keeps (refreshed panel.id reply s)
  refreshed-Keeps reply s = elim (Bool-cases (is_blank (parse_set_cookie reply.set_cookie))) [
    | inl blank ↦ record { kept = λ w. rw blank refl }
    | inr full ↦ record { kept = λ w. rw full refl }
  ]

  rest_of_pass-Keeps :
      (again : Bool) (reply : Reply Obj) (s : PanelSession)
      → Keeps (rest_of_pass net token now panel path method body again reply s)
  rest_of_pass-Keeps true reply s = record { kept = λ w. refl }
  rest_of_pass-Keeps false reply s =
      bind-Keeps _ _ (fail_if-Keeps _ _)
        λ u. bind-Keeps _ _ (refreshed-Keeps reply s) λ v. record { kept = λ w. refl }

  -- A pass sends the request once at most.
  pass-times :
      (attempt : ℕ) (w : Wire)
      → times method path (pass net token now panel path method body attempt w).1
        ≤ suc (times method path w)
  unfolding pass
  pass-times attempt w =
      let n = times method path w in
      continue_leads (λ v. times method path v ≡ n) (λ v. times method path v ≤ suc n)
        (ensure_session net token now panel w) _ (ensure_session-Keeps w) (λ v e. omega arith)
        (λ s v e.
          continue_leads (λ u. times method path u ≤ suc n) (λ u. times method path u ≤ suc n)
            (send net (conflict "3x-ui request error") (request_with panel path method body s) v) _
            (let sent =
                send-times (conflict "3x-ui request error") (request_with panel path method body s)
                  v in
              ground arith)
            (λ u h. h)
            (λ (reply : Reply Obj) u h.
              let kept =
                (rest_of_pass-Keeps (is_denied reply.status && (attempt == 1) && is_get method)
                    reply s).kept
                  u in
              omega arith))

  second_pass-times :
      (w : Wire)
      → times method path (passes net token now 1 panel path method body 2 w).1
        ≤ suc (times method path w)
  unfolding passes
  second_pass-times w =
      let n = times method path w in
      after_pass (λ v. times method path v ≤ suc n) (λ v. times method path v ≤ suc n)
        (pass net token now panel path method body 2 w) _ (pass-times 2 w) (λ v h. h) (λ v h. h)

  both_passes-times :
      (w : Wire)
      → times method path (passes net token now 2 panel path method body 1 w).1
        ≤ suc (suc (times method path w))
  unfolding passes
  both_passes-times w =
      let n = times method path w in
      after_pass (λ v. times method path v ≤ suc n) (λ v. times method path v ≤ suc (suc n))
        (pass net token now panel path method body 1 w) _ (pass-times 1 w) (λ v h. omega arith)
        (λ v h. let more = second_pass-times v in omega arith)

  only_pass-times :
      (w : Wire)
      → is_get method ≡ false
      → times method path (passes net token now 2 panel path method body 1 w).1
        ≤ suc (times method path w)
  unfolding passes
  only_pass-times w writing =
      let once : (status : ℕ) → (is_denied status && (1 == 1) && is_get method) ≡ false = λ status.
        elim (Bool-cases (is_denied status)) [
          | inl denied ↦ rw denied writing
          | inr fine ↦ rw fine refl
        ] in
      rw
        (ends_here (pass net token now panel path method body 1 w)
          (passes net token now 1 panel path method body 2)
          (pass-ends net token now panel path method body 1 w once))
        (pass-times 1 w)

  request-passes :
      (w : Wire)
      → (request net token now panel path method body w).1
        ≡ (passes net token now 2 panel path method body 1 w).1
  unfolding request
  request-passes w = given_after (passes net token now 2 panel path method body 1 w) _

-- A request to any path but the two of the login is sent to the panel twice at most where it is a
-- GET, and once at most where it is a POST, whatever the panel answers and whether the request
-- returns or throws.
pub request-times :
    {Obj : Type 0} (net : Network Obj) (token : Obj → Option String) (now : ℕ) (panel : XuiPanel)
    (path : String) (method : Method) (body : Body) (w : Wire)
    → str_eq "/csrf-token" path ≡ false
    → str_eq "/login" path ≡ false
    → times method path (request net token now panel path method body w).1
      ≤ limit method + times method path w
request-times net token now panel path get body w not_csrf not_login =
    rw (request-passes net token now panel path get body not_csrf not_login w) (
      let h = both_passes-times net token now panel path get body not_csrf not_login w in
      omega arith)
request-times net token now panel path post body w not_csrf not_login =
    rw (request-passes net token now panel path post body not_csrf not_login w) (
      let h = only_pass-times net token now panel path post body not_csrf not_login w refl in
      omega arith)
