-- ===== src/Payments/Callback.antt =====
-- A callback of the payer's browser that does not say OK (`handleOnlineCallback` of
-- src/modules/payments/payments.service.ts).
use vpn_saas.Base.{ℕ, ◌≡◌, refl, ◌∙◌, false, Option, some, String, str_eq}
use vpn_saas.Base.Table.{find, count}
use vpn_saas.Base.Table.Laws.{count-claim, update_many-none}
use vpn_saas.Store.{ok}
use vpn_saas.Store.Rows.{Payment, Db}
use vpn_saas.Orders.Commission.{Conversions}
use vpn_saas.Payments.{Services, Uuids, has_id, is_open, claimable}
use vpn_saas.Payments.Online.{Gateway, referred_by, abandoned, handle_online_callback}

module _ (svc : Services) (js : Conversions) (u : Uuids) (now : ℕ)
    (gateways : String → Option Gateway) (authority status : String) (db : Db) {p : Payment} where
  -- A callback that does not say OK, for the payment of the authority (the only one with its id),
  -- which is no longer open, such as a confirmed one: it is returned as it is and the whole database
  -- stays as it was, so that a late or forged callback undoes no payment.
  pub handle_online_callback-abandoned :
      find (referred_by authority "zarinpal") db.payments ≡ some p
      → find (has_id p.id) db.payments ≡ some p
      → count (has_id p.id) db.payments ≡ 1
      → str_eq status "OK" ≡ false
      → is_open p.status ≡ false
      → handle_online_callback svc js u now gateways authority status db ≡ (ok p, db)
  unfolding handle_online_callback
  handle_online_callback-abandoned found own one other closed =
      let none_left : count (claimable p.id) db.payments ≡ 0 =
        count-claim (has_id p.id) (λ (p : Payment). is_open p.status) db.payments own one
        ∙ rw closed refl in
      rw found (
        rw other (
          rw (update_many-none (claimable p.id) (abandoned status) db.payments none_left)
            (rw own refl)))
