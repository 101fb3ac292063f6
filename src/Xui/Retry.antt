-- ===== src/Xui/Retry.antt =====
-- How often a request is made (`request` of src/modules/panels/xui-panel.client.ts).
use vpn_saas.Base.{
  ℕ, zero, suc, ◌≤◌, ◌≡◌, ◌≢◌, refl, Bool, false, ◌&&◌, not, Option, none, some, String, ◌==◌,
  arith, inl, inr, Bool-cases,
}
use vpn_saas.Store.{Result, ok, err, Failure, is_some, client_error}
use vpn_saas.Xui.Wire.{
  Method, Body, Reading, Reply, Network, PanelSession, Wire, Call, returned, given, if_call,
  continue, fail_if, send, writes, ◌>>◌,
}
use vpn_saas.Xui.Session.{
  XuiPanel, ensure_session, pass, passes, request, is_denied, is_get, is_ok, conflict, refreshed,
  drop_session, request_with,
}

module _ {A B : Type 0} where
  -- A chain that ends in no case with none.
  continue_never :
      (p : Result A × Wire) (f : A → Call (Option B))
      → ((a : A) (w : Wire) → (f a w).0 ≢ ok none)
      → (continue p f).0 ≢ ok none
  continue_never (ok a, w) f never = never a w
  continue_never (err e, w) f never = λ eq. cc

  -- What holds after a step holds after the chain.
  pub continue_leads :
      (Q P : Wire → Type 0) (p : Result A × Wire) (f : A → Call B)
      → Q p.1
      → ((w : Wire) → Q w → P w)
      → ((a : A) (w : Wire) → Q w → P (f a w).1)
      → P (continue p f).1
  continue_leads Q P (ok a, w) f q stop go = go a w q
  continue_leads Q P (err e, w) f q stop go = stop w q

module _ {R : Type 0} where
  -- A last step that does not go on is the end, whatever fuel is left.
  last_step :
      (p : Result (Option R) × Wire) (k l : Call (Option R)) (e : Failure)
      → p.0 ≢ ok none
      → continue p (λ a. if_call (is_some a) (returned a) k)
        ≡ continue
            (continue (continue p (λ a. if_call (is_some a) (returned a) l)) (λ a. given a e))
            (λ r. returned (some r))
  last_step (ok none, w) k l e ends = absurd (ends refl)
  last_step (ok (some r), w) k l e ends = refl
  last_step (err f, w) k l e ends = refl

  first_step :
      (p : Result (Option R) × Wire) (k l : Call (Option R)) (e : Failure)
      → ((w : Wire) → k w ≡ continue (continue (l w) (λ a. given a e)) (λ r. returned (some r)))
      → continue p (λ a. if_call (is_some a) (returned a) k)
        ≡ continue
            (continue (continue p (λ a. if_call (is_some a) (returned a) l)) (λ a. given a e))
            (λ r. returned (some r))
  first_step (ok none, w) k l e rest = rest w
  first_step (ok (some r), w) k l e rest = refl
  first_step (err f, w) k l e rest = refl

module _ {Obj : Type 0} (net : Network Obj) (token : Obj → Option String) (now : ℕ)
    (panel : XuiPanel) (path : String) (method : Method) (body : Body) where
  abbrev pub rest_of_pass : Bool → Reply Obj → PanelSession → Call (Option (Reading Obj))
  rest_of_pass again reply s = if_call again (writes (drop_session panel.id) >> returned none) (
      fail_if (not (is_ok reply.status)) (conflict "3x-ui HTTP")
      >> (refreshed panel.id reply s >> returned (some reply.reading)))

  rest_of_pass-ends :
      (again : Bool) (reply : Reply Obj) (s : PanelSession) (w : Wire)
      → again ≡ false
      → (rest_of_pass again reply s w).0 ≢ ok none
  rest_of_pass-ends again reply s w done = rw done (
      continue_never (fail_if (not (is_ok reply.status)) (conflict "3x-ui HTTP") w) _
        (λ u w1. continue_never (refreshed panel.id reply s w1) _ (λ v w2 eq. cc)))

  -- A pass that may not be made again is the last.
  pub pass-ends :
      (attempt : ℕ) (w : Wire)
      → ((status : ℕ) → (is_denied status && (attempt == 1) && is_get method) ≡ false)
      → (pass net token now panel path method body attempt w).0 ≢ ok none
  unfolding pass
  pass-ends attempt w never = continue_never (ensure_session net token now panel w) _ (λ s w1.
      continue_never
        (send net (conflict "3x-ui request error") (request_with panel path method body s) w1) _
        (λ (reply : Reply Obj) w2.
          rest_of_pass-ends (is_denied reply.status && (attempt == 1) && is_get method) reply s w2
            (never reply.status)))

  pass_second : (w : Wire) → (pass net token now panel path method body 2 w).0 ≢ ok none
  pass_second w = pass-ends 2 w λ status. elim (Bool-cases (is_denied status)) [
    | inl denied ↦ rw denied refl
    | inr fine ↦ rw fine refl
  ]

  -- `while (true)` ends whatever the panel answers: with fuel for two passes or more, the loop is
  -- left with the answer, or thrown from, as `request` states it, and never by want of fuel.
  pub request_ends :
      (fuel : ℕ) (w : Wire)
      → 2 ≤ fuel
      → passes net token now fuel panel path method body 1 w
        ≡ continue (request net token now panel path method body w) (λ r. returned (some r))
  unfolding passes request
  request_ends zero w enough = absurd (omega arith)
  request_ends (suc zero) w enough = absurd (omega arith)
  request_ends (suc (suc n)) w enough =
      first_step (pass net token now panel path method body 1 w) _ _ (client_error "unreachable")
        (λ w1.
          last_step (pass net token now panel path method body 2 w1) _ _
            (client_error "unreachable") (pass_second w1))

module _ {R : Type 0} where
  -- Nothing follows a pass that does not go on.
  pub ends_here :
      (p : Result (Option R) × Wire) (k : Call (Option R))
      → p.0 ≢ ok none
      → (continue p (λ a. if_call (is_some a) (returned a) k)).1 ≡ p.1
  ends_here (ok none, w) k ends = absurd (ends refl)
  ends_here (ok (some r), w) k ends = refl
  ends_here (err e, w) k ends = refl

  pub given_after :
      (p : Result (Option R) × Wire) (e : Failure) → (continue p (λ a. given a e)).1 ≡ p.1
  given_after (ok none, w) e = refl
  given_after (ok (some r), w) e = refl
  given_after (err f, w) e = refl

  -- What follows a pass that may go on.
  pub after_pass :
      (Q P : Wire → Type 0) (p : Result (Option R) × Wire) (k : Call (Option R))
      → Q p.1
      → ((w : Wire) → Q w → P w)
      → ((w : Wire) → Q w → P (k w).1)
      → P (continue p (λ a. if_call (is_some a) (returned a) k)).1
  after_pass Q P (ok none, w) k q stop go = go w q
  after_pass Q P (ok (some r), w) k q stop go = stop w q
  after_pass Q P (err e, w) k q stop go = stop w q
