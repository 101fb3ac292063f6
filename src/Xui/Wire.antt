-- ===== src/Xui/Wire.antt =====
-- What goes over the wire to a panel, and what a method of the client is (the types of
-- src/modules/panels/xui-panel.client.ts). `Network` stands for the panel behind the proxy: what it
-- answers may depend on every request before. A URL is kept as the base and the path that `joinUrl`
-- puts together.
use vpn_saas.Base.{ℕ, Bool, true, false, Option, none, some, String, List}
use vpn_saas.Base.Table.{create}
use vpn_saas.Store.{Result, ok, err, Failure}

pub data Method : Type 0 where
  get post : Method

-- A client as the panel holds it; `total_gb` counts bytes.
pub record XuiClientState : Type 0 where
  pub email : List ℕ
  pub enable : Bool
  pub total_gb : ℕ
  pub expiry_time : ℕ
  pub limit_ip : ℕ
  pub sub_id : Option (List ℕ)
  pub uuid : Option String
  pub tg_id : Option ℕ

-- The bodies that the client sends.
pub data Body : Type 0 where
  empty : Body
  login_form : List ℕ → List ℕ → Body
  new_client : XuiClientState → Option (List ℕ) → Body
  client_state : XuiClientState → Body
  inbound_ids : List ℕ → Body
  total_bytes : ℕ → Body
  client_list : List XuiClientState → Body
  email_list : List (List ℕ) → Body
  adjustment : List (List ℕ) → Option ℕ → Option ℕ → Body
  emails_at : List (List ℕ) → List ℕ → Body
  group_name : List ℕ → Body
  renaming : List ℕ → List ℕ → Body
  deletion : List ℕ → Body
  members : List ℕ → List (List ℕ) → Body

pub record Request : Type 0 where
  pub base : String
  pub path : String
  pub method : Method
  pub csrf_token : String
  pub cookie : List ℕ
  pub body : Body

pub record Envelope (Obj : Type 0) : Type 0 where
  pub success : Bool
  pub msg : String
  pub obj : Obj

-- The body of an answer: no JSON, JSON of another shape, or the envelope.
pub data Reading (Obj : Type 0) : Type 0 where
  no_json : Reading Obj
  malformed : Reading Obj
  envelope : Envelope Obj → Reading Obj

pub record Reply (Obj : Type 0) : Type 0 where
  pub status : ℕ
  pub text : String
  pub reading : Reading Obj
  pub set_cookie : List (List ℕ)

-- No answer where the request fails or is cut off.
abbrev pub Network : Type 0 → Type 0
Network Obj = List Request → Request → Option (Reply Obj)

pub record PanelSession : Type 0 where
  pub cookie : List ℕ
  pub csrf_token : String
  pub logged_in_at : ℕ

-- The map of sessions, by panel, and the requests that have been sent, oldest first.
pub record Wire : Type 0 where
  pub sessions : List (ℕ × PanelSession)
  pub sent : List Request

-- What a call does: it returns or throws, with the sessions kept and the requests sent.
abbrev pub Call : Type 0 → Type 0
Call A = Wire → Result A × Wire

module _ {A : Type 0} where
  abbrev pub returned : A → Call A
  returned a w = (ok a, w)

  abbrev pub fail : Failure → Call A
  fail e w = (err e, w)

  abbrev pub given : Option A → Failure → Call A
  given none e = fail e
  given (some a) e = returned a

  -- One of two calls.
  abbrev pub if_call : Bool → Call A → Call A → Call A
  if_call true m k = m
  if_call false m k = k

abbrev pub continue : {A B : Type 0} → Result A × Wire → (A → Call B) → Result B × Wire
continue (ok a, w) f = f a w
continue (err e, w) f = (err e, w)

infixl 5 ◌>>=◌ ◌>>◌
abbrev pub ◌>>=◌ : {A B : Type 0} → Call A → (A → Call B) → Call B
◌>>=◌ m f w = continue (m w) f

abbrev pub ◌>>◌ : {A B : Type 0} → Call A → Call B → Call B
m >> k = m >>= λ _. k

abbrev pub fail_if : Bool → Failure → Call (Unit {0})
fail_if c e = if_call c (fail e) (returned tt)

abbrev pub reads : {A : Type 0} → (Wire → A) → Call A
reads f w = (ok (f w), w)

abbrev pub writes : (Wire → Wire) → Call (Unit {0})
writes f w = (ok tt, f w)

-- A request counts as sent whether it is answered or not.
abbrev pub send : {Obj : Type 0} → Network Obj → Failure → Request → Call (Reply Obj)
send net e r w = given (net w.sent r) e (record w { sent = create r w.sent })
