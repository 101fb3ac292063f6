-- ===== src/Orders/Final.antt =====
-- Orders that are completed, cancelled or neither, under further calls
-- (src/modules/orders/orders.service.ts).
use vpn_saas.Base.{
  ℕ, ◌≡◌, refl, sym, ap, ◌∙◌, true, false, none, some, List, [], ◌∷◌, String, ==-refl, inl, inr,
  Bool-cases, Option-cases,
}
use mathlib.Core.Path.{subst}
use vpn_saas.Base.Table.{find, update, update_many, count, others}
use vpn_saas.Base.Table.Laws.{
  count-claim, update_many-none, find-claim, find_sound, find-update_same, others-update,
}
use vpn_saas.Store.{ok, err, ok-ne-err, ok-injective, business, ErrorCode}
use vpn_saas.Store.Rows.{Order, OrderStatus, Db}
use vpn_saas.Orders.{
  has_id, has_public_id, is_pending, is_completed, is_cancelled, claimable, claimed, fulfil,
  complete_order_in_transaction, Completion, cancel, cancel_at, get_owned_order, OrderDto,
  earlier_completion, to_dto, plan_by_id,
}
use vpn_saas.Orders.Commission.{Conversions}
use vpn_saas.Orders.Complete.{HasCompleted, fulfil-keeps}

module _ (js : Conversions) (uuid uuid' : String) (now id user : ℕ) (db : Db) where
  -- An order that is neither pending nor completed (cancelled, failed, refunded, ...), the only one
  -- with its id, is not completed: the call throws `Order is not payable`, and nothing is
  -- provisioned, credited or written.
  pub complete_order_refused :
      {o : Order}
      → find (has_id id) db.orders ≡ some o
      → count (has_id id) db.orders ≡ 1
      → is_pending o.status ≡ false
      → is_completed o.status ≡ false
      → complete_order_in_transaction js uuid uuid' now id user db
        ≡ (err (business ErrorCode.conflict "Order is not payable"), db)
  unfolding complete_order_in_transaction
  complete_order_refused found one idle unfinished =
      let none_left : count (claimable id) db.orders ≡ 0 =
        count-claim (has_id id) (λ (o : Order). is_pending o.status) db.orders found one
        ∙ rw idle refl in
      rw found (
        rw unfinished (
          rw (none_left, update_many-none (claimable id) (claimed now) db.orders none_left)
            (rw found (rw unfinished refl))))

  complete-again :
      {o : Order}
      → find (has_id id) db.orders ≡ some o
      → is_completed o.status ≡ true
      → complete_order_in_transaction js uuid uuid' now id user db ≡ earlier_completion o db
  unfolding complete_order_in_transaction
  complete-again found done = rw found (rw done refl)

  complete-claimed :
      {o : Order}
      → find (has_id id) db.orders ≡ some o
      → count (has_id id) db.orders ≡ 1
      → is_pending o.status ≡ true
      → is_completed o.status ≡ false
      → complete_order_in_transaction js uuid uuid' now id user db
        ≡ fulfil js uuid uuid' now o id user
            (record db { orders = update_many (claimable id) (claimed now) db.orders })
  unfolding complete_order_in_transaction
  complete-claimed found one due unfinished =
      let hit : count (claimable id) db.orders ≡ 1 =
        count-claim (has_id id) (λ (o : Order). is_pending o.status) db.orders found one
        ∙ rw due refl in
      rw found (rw unfinished (rw hit refl))

  complete-missing :
      find (has_id id) db.orders ≡ none
      → complete_order_in_transaction js uuid uuid' now id user db
        ≡ (err (business ErrorCode.not_found "Order not found"), db)
  unfolding complete_order_in_transaction
  complete-missing missing = rw missing refl

  -- A call that has returned has left the order completed.
  completes :
      {c : Completion} {after : Db}
      → count (has_id id) db.orders ≡ 1
      → complete_order_in_transaction js uuid uuid' now id user db ≡ (ok c, after)
      → HasCompleted id after
  completes {c} {after} one run = elim (Option-cases (find (has_id id) db.orders)) [
    | inl missing ↦ absurd (ok-ne-err (sym (complete-missing missing) ∙ run))
    | inr (o, found) ↦ elim (Bool-cases (is_completed o.status)) [
      | inl done ↦
          subst (HasCompleted id) (ok-injective (sym (complete-again found done) ∙ run)).1
            (record { order = o; found = found; done = done })
      | inr unfinished ↦ elim (Bool-cases (is_pending o.status)) [
        | inr idle ↦
            absurd (ok-ne-err (sym (complete_order_refused found one idle unfinished) ∙ run))
        | inl due ↦
            let d1 : Db = record db {
              orders = update_many (claimable id) (claimed now) db.orders;
            } in
            let first : HasCompleted id d1 = record {
              order = claimed now o;
              found =
                  find-claim (has_id id) (λ (o : Order). is_pending o.status) (claimed now)
                    db.orders found due (find_sound (has_id id) db.orders found);
              done = refl;
            } in
            subst (HasCompleted id)
              (ap (λ r. r.1) (sym (complete-claimed found one due unfinished) ∙ run))
              (fulfil-keeps js uuid uuid' now o id user d1 first)
      ]
    ]
  ]

-- Whoever completes an order (the only one with its id), at whatever time: once a call has returned,
-- the order is COMPLETED in the database that it leaves; and any further call for it returns a
-- result that asks for no provisioning, and changes nothing, so that one order is never provisioned
-- or rewarded twice.
pub complete_order_once :
    (js js' : Conversions) (uuid uuid' uuid2 uuid2' : String) (now now' id user user' : ℕ)
    (db after : Db) {c : Completion}
    → count (has_id id) db.orders ≡ 1
    → complete_order_in_transaction js uuid uuid' now id user db ≡ (ok c, after)
    → HasCompleted id after
      × ((c' : Completion) × (complete_order_in_transaction js' uuid2 uuid2' now' id user' after
            ≡ (ok c', after))
          × (c'.provisioning_required ≡ false))
complete_order_once js js' uuid uuid' uuid2 uuid2' now now' id user user' db after one run =
    let h = completes js uuid uuid' now id user db one run in
    (h, (_, complete-again js' uuid2 uuid2' now' id user' after h.found h.done, refl))

pending_only :
    (s : OrderStatus) → is_pending s ≡ true → (is_completed s ≡ false) × (is_cancelled s ≡ false)
pending_only OrderStatus.pending h = (refl, refl)
pending_only OrderStatus.paid h = cc
pending_only OrderStatus.processing h = cc
pending_only OrderStatus.completed h = cc
pending_only OrderStatus.failed h = cc
pending_only OrderStatus.cancelled h = cc
pending_only OrderStatus.refunded h = cc

count-cancel :
    (now id target : ℕ) (os : List Order)
    → count (has_id id) (update (has_id target) (cancel_at now) os) ≡ count (has_id id) os
count-cancel now id target [] = refl
count-cancel now id target (o ∷ os) = elim (Bool-cases (has_id target o)) [
  | inl hit ↦ rw hit refl
  | inr miss ↦ rw miss (rw (count-cancel now id target os) refl)
]

-- The owner of a pending order cancels it (id and public id being its own). The call returns, the
-- order is CANCELLED at the time of the call and nothing else in the database changes, other orders
-- included; cancelling it
-- again, at any time, returns the same and changes nothing; and completing it, which a payment that
-- arrives late would do, is refused without any effect.
pub cancel_final :
    (js : Conversions) (uuid uuid' : String) (now now' : ℕ) (public_id : String) (db : Db)
    {o : Order}
    → find (has_public_id public_id) db.orders ≡ some o
    → find (has_id o.id) db.orders ≡ some o
    → count (has_id o.id) db.orders ≡ 1
    → is_pending o.status ≡ true
    → (dto : OrderDto) × (after : Db) × (cancel now public_id o.user_id db ≡ (ok dto, after))
      × (after ≡ (record db { orders = after.orders }))
      × (others (has_id o.id) after.orders ≡ others (has_id o.id) db.orders)
      × (find (has_id o.id) after.orders
          ≡ some (record o { status = OrderStatus.cancelled; cancelled_at = some now }))
      × (cancel now' public_id o.user_id after ≡ (ok dto, after))
      × (complete_order_in_transaction js uuid uuid' now' o.id o.user_id after
          ≡ (err (business ErrorCode.conflict "Order is not payable"), after))
unfolding cancel get_owned_order
cancel_final js uuid uuid' now now' public_id db {o} public own one due =
    let after : Db = record db { orders = update (has_id o.id) (cancel_at now) db.orders } in
    let by_public : find (has_public_id public_id) after.orders ≡ some (cancel_at now o) =
      find-update_same (has_id o.id) (has_public_id public_id) (cancel_at now) db.orders own public
        (find_sound (has_public_id public_id) db.orders public) in
    let by_id : find (has_id o.id) after.orders ≡ some (cancel_at now o) =
      find-update_same (has_id o.id) (has_id o.id) (cancel_at now) db.orders own own
        (find_sound (has_id o.id) db.orders own) in
    let (unfinished, open_still) = pending_only o.status due in
    (
      to_dto (cancel_at now o) (plan_by_id o.plan_id db),
      after,
      rw public (rw (==-refl o.user_id, unfinished) (rw open_still refl)),
      refl,
      others-update (has_id o.id) (has_id o.id) (cancel_at now) db.orders (λ x h. (h, h)),
      by_id,
      rw by_public (rw (==-refl o.user_id) refl),
      complete_order_refused js uuid uuid' now' o.id o.user_id after by_id
          (count-cancel now o.id o.id db.orders ∙ one) refl refl,
    )
