-- ===== src/Payments/Settle/TopUp.antt =====
-- The claim and the top-up of a payment, run (`claimPayment`, `settlePaymentInTransaction` and
-- `finishSettlement` of src/modules/payments/payments.service.ts).
use vpn_saas.Base.{
  ℕ, ◌≡◌, refl, ◌∙◌, Bool, true, false, Option, none, some, String, if◌then◌else◌, inl, arith, ◌≤◌,
}
use vpn_saas.Base.Table.{find, count, update_many}
use vpn_saas.Base.Table.Laws.{count-claim, find-claim, find_sound}
use vpn_saas.Store.{ok, truthy, audit}
use vpn_saas.Store.Rows.{
  Payment, PaymentStatus, initiated, awaiting_verify, confirmed, rejected, expired, cancelled,
  refunded, WalletTransaction, Db,
}
use vpn_saas.Wallet.{recorded, has_payment, opened}
use vpn_saas.Wallet.Mutation.{posted, mutate-recorded, mutate-posted, moved-covered}
use vpn_saas.Wallet.Moves.{covered_move, before}
use vpn_saas.Payments.{
  Services, GatewayResult, SettlementResult, has_id, is_open, is_confirmed, claimable,
  claim_payment, top_up, top_up_of, confirmed_with, finish_settlement,
}

-- The claim keeps what the settlement reads afterwards.
pub claimed_fields :
    (now : ℕ) (result : Option GatewayResult) (p : Payment)
    → let q = confirmed_with now result p in
      (is_confirmed q.status ≡ true)
      × (q.id ≡ p.id)
      × (q.order_id ≡ p.order_id)
      × (q.user_id ≡ p.user_id)
claimed_fields now none p = (refl, refl, refl, refl)
claimed_fields now (some r) p = (refl, refl, refl, refl)

open_unconfirmed : (s : PaymentStatus) → is_open s ≡ true → is_confirmed s ≡ false
open_unconfirmed initiated h = refl
open_unconfirmed PaymentStatus.pending h = refl
open_unconfirmed awaiting_verify h = refl
open_unconfirmed confirmed h = cc
open_unconfirmed rejected h = refl
open_unconfirmed expired h = refl
open_unconfirmed cancelled h = refl
open_unconfirmed refunded h = refl

truthy_pos : (id : ℕ) → 1 ≤ id → truthy (some id) ≡ some id
truthy_pos id h = ground arith

-- The database after the claim of a payment.
abbrev pub with_claim : ℕ → Option GatewayResult → ℕ → Db → Db
with_claim now result id db = record db {
  payments = update_many (claimable id) (confirmed_with now result) db.payments;
}

module _ (now id : ℕ) (result : Option GatewayResult) (db : Db) {p : Payment}
    (found : find (has_id id) db.payments ≡ some p) (one : count (has_id id) db.payments ≡ 1)
    (unsettled : is_open p.status ≡ true) where
  unconfirmed : is_confirmed p.status ≡ false
  unconfirmed = open_unconfirmed p.status unsettled

  pub claim-found :
      find (has_id id) (with_claim now result id db).payments ≡ some (confirmed_with now result p)
  claim-found =
      find-claim (has_id id) (λ (p : Payment). is_open p.status) (confirmed_with now result)
        db.payments found unsettled
        (rw (claimed_fields now result p).1 (find_sound (has_id id) db.payments found))

  pub claim_run : claim_payment now result id db ≡ (ok p, with_claim now result id db)
  unfolding claim_payment
  claim_run =
      let hit : count (claimable id) db.payments ≡ 1 =
        count-claim (has_id id) (λ (p : Payment). is_open p.status) db.payments found one
        ∙ rw unsettled refl in
      rw found (rw unconfirmed (rw hit refl))

-- The outcome of a top-up, which counts as settled where it is the first.
abbrev pub topped_up : Payment → Bool → SettlementResult
topped_up p settled = record {
  payment = p;
  order_result = none;
  provisioning_subscription_id = none;
  settled = settled;
}

-- The database after a first top-up.
abbrev pub with_top_up : String → Payment → Db → Db
with_top_up uuid p db = posted uuid (top_up_of p) (covered_move (top_up_of p) db) db

pub top_up_first :
    (uuid : String) (p : Payment) (db : Db)
    → find (has_payment p.id) db.transactions ≡ none
    → 1 ≤ p.id
    → top_up uuid p db ≡ (ok (topped_up p true), with_top_up uuid p db)
unfolding top_up
top_up_first uuid p db new real =
    let unknown : recorded (some p.id) db.transactions ≡ none = rw (truthy_pos p.id real) new in
    let step = moved-covered (top_up_of p) (before (top_up_of p) db) (inl refl) in
    rw (mutate-posted uuid (top_up_of p) db unknown step) (rw new refl)

pub top_up_again :
    (uuid : String) (p : Payment) (db : Db) {t : WalletTransaction}
    → find (has_payment p.id) db.transactions ≡ some t
    → 1 ≤ p.id
    → opened p.user_id db.wallets ≡ db.wallets
    → top_up uuid p db ≡ (ok (topped_up p false), db)
unfolding top_up
top_up_again uuid p db {t} known real there =
    let seen : recorded (some p.id) db.transactions ≡ some t = rw (truthy_pos p.id real) known in
    rw (mutate-recorded uuid (top_up_of p) db seen) (rw (known, there) refl)

-- A settlement's entry in the log.
abbrev pub logged : Payment → Db → Db
logged p db = (audit none "ACTIVATE" "payments" p.public_id db).1

pub finish-topped_up :
    (svc : Services) (p : Payment) (settled : Bool) (db : Db)
    → truthy p.order_id ≡ none
    → finish_settlement svc (topped_up p settled) db ≡ (ok tt, if settled then logged p db else db)
unfolding finish_settlement
finish-topped_up svc p true db topup = rw topup refl
finish-topped_up svc p false db topup = rw topup refl
