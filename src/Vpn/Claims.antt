-- ===== src/Vpn/Claims.antt =====
-- Repeated claims of a mapping (`claimVpnUserMapping` of src/modules/vpn/vpn.service.ts).
use vpn_saas.Base.{
  ℕ, ◌≡◌, refl, sym, ◌∙◌, Bool, true, false, ◌||◌, some, String, str_eq, ==-refl, inl, inr,
  Bool-cases, Option-cases, All, if◌then◌else◌,
}
use vpn_saas.Base.Table.{find}
use vpn_saas.Base.Table.Laws.{find-create_new, All-find}
use vpn_saas.Store.{
  ok, err, Failure, business, client_error, unique_violation, record_not_found, type_error,
  decryption_error, token_error, network_error, schema_error, on_error, rescued-eq-ok, resume-eq-ok,
  throw_if-eq-ok, ok-injective, ok-ne-err, is_some, throw_if, Action,
}
use vpn_saas.Store.Rows.{Db}
use vpn_saas.Store.Rows.Clients.{VpnUser}
use vpn_saas.Vpn.Clients.{
  Claim, ClientName, is_complete, is_text, has_name, has_token, of_subscription, claimed,
  claim_name, completed, suffixed, claim_vpn_user_mapping, is_foreign, again_with,
}

again_with-eq-ok :
    (done : Bool) (e : Failure) (retry : Action VpnUser) {db after : Db} {v : VpnUser}
    → again_with done e retry db ≡ (ok v, after)
    → retry db ≡ (ok v, after)
again_with-eq-ok false unique_violation retry run = run
again_with-eq-ok false (business code message) retry run = cc
again_with-eq-ok false (client_error message) retry run = cc
again_with-eq-ok false record_not_found retry run = cc
again_with-eq-ok false type_error retry run = cc
again_with-eq-ok false decryption_error retry run = cc
again_with-eq-ok false token_error retry run = cc
again_with-eq-ok false network_error retry run = cc
again_with-eq-ok false schema_error retry run = cc
again_with-eq-ok true e retry run = cc

abbrev name_of : VpnUser → ClientName
name_of v = record { panel_user_id = v.panel_user_id; sub_token = v.sub_token }

module _ (token : String) (c : Claim) (db : Db) where
  -- A claim that has returned has found or made a complete mapping of the subscription.
  claim_name-row :
      (name : String) {v : VpnUser} {after : Db}
      → All (λ u. is_complete u ≡ true) db.vpn_users
      → str_eq token "" ≡ false
      → str_eq name "" ≡ false
      → claim_name token c name db ≡ (ok v, after)
      → (find (of_subscription c.subscription_id) after.vpn_users ≡ some v) × (is_complete v ≡ true)
  unfolding claim_name
  claim_name-row name {v} {after} whole token_text name_text run =
      elim (Option-cases (find (of_subscription c.subscription_id) db.vpn_users)) [
        | inr (u, found) ↦
            let same = ok-injective (rw found at run) in
            rw (sym same.0, sym same.1)
              (
                found,
                All-find (λ x. is_complete x ≡ true) (of_subscription c.subscription_id)
                    db.vpn_users whole found,
              )
        | inl missing ↦
            let (_, s, free, rest) =
              resume-eq-ok
                (throw_if
                  (is_some (find (has_name name) db.vpn_users)
                    || is_some (find (has_token token) db.vpn_users))
                  unique_violation db)
                _ (rw missing at run) in
            let (_, here) = throw_if-eq-ok _ unique_violation db free in
            let same = ok-injective (rw here at rest) in
            rw (sym same.0, sym same.1)
              (
                find-create_new (of_subscription c.subscription_id)
                      (claimed token c name db.vpn_users) db.vpn_users missing
                    ∙ rw (==-refl c.subscription_id) refl,
                rw (token_text, name_text) refl,
              )
      ]

  -- A claim that has thrown has changed nothing.
  claim_name-err :
      (name : String) {e : Failure} {after : Db}
      → claim_name token c name db ≡ (err e, after)
      → after ≡ db
  unfolding claim_name
  claim_name-err name {e} {after} run =
      elim (Option-cases (find (of_subscription c.subscription_id) db.vpn_users)) [
        | inr (u, found) ↦ absurd (ok-ne-err (sym (rw found at run)))
        | inl missing ↦
            elim (Bool-cases (
              is_some (find (has_name name) db.vpn_users)
              || is_some (find (has_token token) db.vpn_users))) [
                | inl used ↦ let stop = rw used at (rw missing at run) in cc
                | inr free ↦ absurd (ok-ne-err (sym (rw free at (rw missing at run))))
              ]
      ]

  -- A complete mapping is left as it is.
  completed_complete :
      (name : String) (v : VpnUser) → is_complete v ≡ true → completed token name v db ≡ (ok v, db)
  completed_complete name v whole = elim (Bool-cases (is_text v.sub_token)) [
    | inr missing ↦ absurd (let e = rw missing at whole in cc)
    | inl here ↦ elim (Bool-cases (str_eq v.panel_user_id "")) [
      | inl empty ↦ absurd (let e = rw empty at (rw here at whole) in cc)
      | inr named ↦ rw (here, named) refl
    ]
  ]

  claim_vpn_user_mapping-found :
      (show : ℕ → String) {v : VpnUser}
      → find (of_subscription c.subscription_id) db.vpn_users ≡ some v
      → is_complete v ≡ true
      → claim_vpn_user_mapping show token c db ≡ (ok (name_of v), db)
  unfolding claim_vpn_user_mapping claim_name
  claim_vpn_user_mapping-found show {v} found whole =
      rw found (rw (completed_complete c.proposed_username v whole) refl)

module _ (show : ℕ → String) (token : String) (c : Claim) (db : Db) where
  -- After a claim that has returned, its subscription has the mapping that it returned.
  claim_vpn_user_mapping-row :
      {n : ClientName} {after : Db}
      → All (λ u. is_complete u ≡ true) db.vpn_users
      → str_eq token "" ≡ false
      → str_eq c.proposed_username "" ≡ false
      → str_eq (suffixed show c) "" ≡ false
      → claim_vpn_user_mapping show token c db ≡ (ok n, after)
      → (v : VpnUser) × (find (of_subscription c.subscription_id) after.vpn_users ≡ some v)
        × (is_complete v ≡ true)
        × (n ≡ name_of v)
  unfolding claim_vpn_user_mapping
  claim_vpn_user_mapping-row {n} {after} whole token_text name_text long_text run =
      let foreign =
        is_foreign c.subscription_id (find (has_name c.proposed_username) db.vpn_users) in
      let name = if foreign then suffixed show c else c.proposed_username in
      let named : str_eq name "" ≡ false = elim (Bool-cases foreign) [
        | inl taken ↦ rw taken long_text
        | inr free ↦ rw free name_text
      ] in
      let retry_with : Failure → Action VpnUser =
        λ e. again_with (str_eq name (suffixed show c)) e (claim_name token c (suffixed show c)) in
      let (v, s, claims, rest) =
        resume-eq-ok (on_error (claim_name token c name) retry_with db) _ run in
      let row : (find (of_subscription c.subscription_id) s.vpn_users ≡ some v)
          × (is_complete v ≡ true) =
        elim (rescued-eq-ok (claim_name token c name db) retry_with claims) [
          | inl first ↦ claim_name-row token c db name whole token_text named first
          | inr (e, d, stop, retry) ↦
              let back = claim_name-err token c db name stop in
              claim_name-row token c db (suffixed show c) whole token_text long_text (
                again_with-eq-ok (str_eq name (suffixed show c)) e
                  (claim_name token c (suffixed show c)) (rw back at retry))
        ] in
      let same =
        ok-injective (rw (completed_complete token c s c.proposed_username v row.1) at rest) in
      (v, rw (sym same.1) row.0, row.1, sym same.0)

-- A claim that has returned, where every mapping has a name and a token and none of the texts it
-- may use is empty, can be made again, with a fresh token, another proposed name and other limits:
-- the later claim for the subscription returns the same name and token, and changes nothing.
pub claim-again :
    (show : ℕ → String) (token token' : String) (c c' : Claim) (db after : Db) {n : ClientName}
    → All (λ v. is_complete v ≡ true) db.vpn_users
    → str_eq token "" ≡ false
    → str_eq c.proposed_username "" ≡ false
    → str_eq (suffixed show c) "" ≡ false
    → claim_vpn_user_mapping show token c db ≡ (ok n, after)
    → c'.subscription_id ≡ c.subscription_id
    → claim_vpn_user_mapping show token' c' after ≡ (ok n, after)
claim-again show token token' c c' db after whole token_text name_text long_text run same =
    let (v, found, complete, result) =
      claim_vpn_user_mapping-row show token c db whole token_text name_text long_text run in
    rw result (claim_vpn_user_mapping-found token' c' after show {v = v} (rw same found) complete)
