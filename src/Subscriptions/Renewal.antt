-- ===== src/Subscriptions/Renewal.antt =====
-- The renewal of a period (`provisionInTransaction` of
-- src/modules/subscriptions/subscriptions.service.ts).
use vpn_saas.Base.{
  ℕ, suc, ◌+◌, ◌*◌, ◌≤◌, max, ◌≡◌, refl, true, false, some, String, ◌==◌, ==-refl, arith, ◌⊎◌,
}
use vpn_saas.Base.Table.{find, update, create}
use vpn_saas.Base.Table.Laws.{find-update_same, find_sound}
use vpn_saas.Store.{ok, truthy}
use vpn_saas.Store.Rows.{Plan, Subscription, active, Db}
use vpn_saas.Subscriptions.{
  ProvisionParams, provision_in_transaction, renew_subscription, is_renewal, renewed, has_id,
  day_ms, event_name,
}

-- The end of the new period.
abbrev end_after : ℕ → ℕ → ℕ → ℕ
end_after old now days = max old now + days * day_ms

-- The owner renews a subscription that has an end, on its own plan of a positive number of days
-- (RENEW or EXTEND). The call returns the row that it leaves in the table: the subscription is
-- ACTIVE, its end is no earlier than the plan's days from now, no earlier than the plan's days
-- after the end that it had, and equal to one of the two; and only subscriptions and their events
-- have changed.
pub provision-renewed :
    (uuid : String) (now : ℕ) (params : ProvisionParams) (db : Db) {plan : Plan} {s : Subscription}
    (old days : ℕ)
    → find (λ (p : Plan). p.id == params.plan_id) db.plans ≡ some plan
    → is_renewal params.type ≡ true
    → truthy params.target_subscription_id ≡ some s.id
    → find (has_id s.id) db.subscriptions ≡ some s
    → s.user_id ≡ params.user_id
    → s.plan_id ≡ plan.id
    → s.expires_at ≡ some old
    → plan.duration_days ≡ some (suc days)
    → (after : Db) × (provision_in_transaction uuid now params db
        ≡ (ok (renewed now plan s), after))
      × (find (has_id s.id) after.subscriptions ≡ some (renewed now plan s))
      × ((renewed now plan s).status ≡ active)
      × ((end : ℕ) × ((renewed now plan s).expires_at ≡ some end)
          × (now + suc days * day_ms ≤ end)
          × (old + suc days * day_ms ≤ end)
          × ((end ≡ now + suc days * day_ms) ⊎ (end ≡ old + suc days * day_ms)))
      × (after ≡ (record db { subscriptions = after.subscriptions; events = after.events }))
unfolding provision_in_transaction renew_subscription
provision-renewed uuid now params db {plan} {s} old days on again named found own same ends lasts =
    let some_days : (suc days == 0) ≡ false = ground arith in
    (
      record db {
        subscriptions = update (has_id s.id) (renewed now plan) db.subscriptions;
        events =
            create
              (record {
                subscription_id = s.id;
                event = event_name params.type;
                order_id = params.order_id;
              })
              db.events;
      },
      rw on (
          rw again (
            rw named
              (rw found (rw (own, same) (rw (==-refl params.user_id, ==-refl plan.id) refl))))),
      find-update_same (has_id s.id) (has_id s.id) (renewed now plan) db.subscriptions found found
          (find_sound (has_id s.id) db.subscriptions found),
      refl,
      (
        end_after old now (suc days),
        rw (lasts, ends) (rw some_days refl),
        omega arith,
        omega arith,
        grind arith,
      ),
      refl,
    )
