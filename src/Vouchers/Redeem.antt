-- ===== src/Vouchers/Redeem.antt =====
-- The limits on the use of a voucher (`redeem` of src/modules/payments/vouchers.service.ts).
use vpn_saas.Base.{
  ℕ, ◌+◌, ◌<◌, ◌≤◌, ◌≡◌, refl, sym, ◌∙◌, ap, true, false, none, some, String, leb, ==-refl, arith,
  inl, inr, ◌⊎◌, ◌↔◌, Bool-cases, Option-cases,
}
use mathlib.Core.Path.{subst₂}
use vpn_saas.Base.Table.{find, create, others}
use vpn_saas.Base.Table.Laws.{find_sound, find-update_same, find-create_new, others-update}
use vpn_saas.Store.{ok, err, Failure, ok-ne-err, ok-injective, resume-eq-ok, fresh_id}
use vpn_saas.Store.Rows.{Voucher, VoucherRedemption, Subscription, Db}
use vpn_saas.Subscriptions.{provision_in_transaction}
use vpn_saas.Subscriptions.Frame.{provision-keeps}
use vpn_saas.Vouchers.{
  has_id, is_expired, invalid, out_of_date, Redeemer, used_by, redemption_of, redeemed, recheck,
  record_use, redeem_in_transaction, params_of,
}

-- What the checks have let through.
record IsUsable (now id user : ℕ) (db : Db) (v : Voucher) : Type 0 where
  found : find (has_id id) db.vouchers ≡ some v
  active : v.is_active ≡ true
  in_time : is_expired v.expires_at now ≡ false
  room : leb v.max_redemptions v.redemptions ≡ false
  unused : find (used_by id user) db.redemptions ≡ none

module _ (now id user : ℕ) (db : Db) where
  recheck-missing :
      find (has_id id) db.vouchers ≡ none
      → recheck now id user db ≡ (err (invalid "Voucher is no longer active"), db)
  unfolding recheck
  recheck-missing e = rw e refl

  -- The checks write nothing; they return the row, or throw.
  recheck-cases :
      (v : Voucher)
      → find (has_id id) db.vouchers ≡ some v
      → ((recheck now id user db ≡ (ok v, db)) × IsUsable now id user db v)
        ⊎ ((e : Failure) × (recheck now id user db ≡ (err e, db)))
  unfolding recheck
  recheck-cases v found = elim (Bool-cases v.is_active) [
    | inr off ↦ inr (invalid "Voucher is no longer active", rw found (rw off refl))
    | inl on ↦ elim (Bool-cases (is_expired v.expires_at now)) [
      | inl late ↦ inr (out_of_date, rw found (rw (on, late) refl))
      | inr in_time ↦ elim (Bool-cases (leb v.max_redemptions v.redemptions)) [
        | inl full ↦
            inr (invalid "Voucher redemption limit reached", rw found (rw (on, in_time, full) refl))
        | inr room ↦ elim (Option-cases (find (used_by id user) db.redemptions)) [
          | inr (r, used) ↦ inr (
            invalid "You have already used this voucher",
            rw found (rw (on, in_time, room) (rw used refl)),
          )
          | inl unused ↦ inl (
            rw found (rw (on, in_time, room) (rw unused refl)),
            record { found = found; active = on; in_time = in_time; room = room; unused = unused },
          )
        ]
      ]
    ]
  ]

  -- A user who has used the voucher does not pass the checks.
  recheck-used :
      {r : VoucherRedemption}
      → find (used_by id user) db.redemptions ≡ some r
      → (e : Failure) × (recheck now id user db ≡ (err e, db))
  recheck-used used = elim (Option-cases (find (has_id id) db.vouchers)) [
    | inl missing ↦ (_, recheck-missing missing)
    | inr (v, found) ↦ elim (recheck-cases v found) [
      | inl (_, usable) ↦ absurd (let unused = usable.unused in cc)
      | inr refused ↦ refused
    ]
  ]

-- A redemption of a voucher by a user that has succeeded.
pub record HasRedeemed (now id subscription : ℕ) (who : Redeemer) (db after : Db) : Type 0 where
  pub voucher : Voucher
  pub was : find (has_id id) db.vouchers ≡ some voucher
  pub was_active : voucher.is_active ≡ true
  pub was_in_time : is_expired voucher.expires_at now ≡ false
  pub had_room : voucher.redemptions < voucher.max_redemptions
  pub was_unused : find (used_by id who.user_id) db.redemptions ≡ none
  pub row : Voucher
  pub counted : find (has_id id) after.vouchers ≡ some row
  pub updated : row ≡ (record voucher {
    redeemed_by_id = some who.user_id;
    used_by_telegram_id = some who.telegram_id;
    used_by_ip = who.ip;
    redeemed_at = some now;
    redemptions = voucher.redemptions + 1;
    is_active = row.is_active;
  })
  pub used_up : (row.is_active ≡ false) ↔ (row.redemptions ≡ voucher.max_redemptions)
  pub others_kept : others (has_id id) after.vouchers ≡ others (has_id id) db.vouchers
  pub recorded :
      after.redemptions
      ≡ create
          (record {
            id = fresh_id (λ (r : VoucherRedemption). r.id) db.redemptions;
            voucher_id = id;
            user_id = who.user_id;
            subscription_id = subscription;
            telegram_id = who.telegram_id;
            ip_address = who.ip;
          })
          db.redemptions

module _ (uuid : String) (now id plan : ℕ) (who : Redeemer) (db : Db) where
  redeem-refused :
      {e : Failure}
      → recheck now id who.user_id db ≡ (err e, db)
      → redeem_in_transaction uuid now id plan who db ≡ (err e, db)
  unfolding redeem_in_transaction
  redeem-refused stop = rw stop refl

  use-HasRedeemed :
      (d : Db) (subscription : ℕ) (v : Voucher)
      → IsUsable now id who.user_id db v
      → d.vouchers ≡ db.vouchers
      → d.redemptions ≡ db.redemptions
      → HasRedeemed now id subscription who db (record_use now id who v subscription d).1
  unfolding record_use
  use-HasRedeemed d subscription v usable vs rs = record {
    voucher = v;
    was = usable.found;
    was_active = usable.active;
    was_in_time = usable.in_time;
    had_room = let room = usable.room in ground arith;
    was_unused = usable.unused;
    row = redeemed now who v v;
    updated = refl;
    used_up = let room = usable.room in (λ full. ground arith, λ full. ground arith);
    others_kept =
        rw vs
          (others-update (has_id id) (has_id id) (redeemed now who v) db.vouchers (λ x h. (h, h)));
    counted = rw vs (
        find-update_same (has_id id) (has_id id) (redeemed now who v) db.vouchers usable.found
          usable.found (find_sound (has_id id) db.vouchers usable.found));
    recorded = rw rs refl;
  }

  redeem-passed :
      {s : Subscription} {after : Db} {v : Voucher}
      → recheck now id who.user_id db ≡ (ok v, db)
      → IsUsable now id who.user_id db v
      → redeem_in_transaction uuid now id plan who db ≡ (ok s, after)
      → HasRedeemed now id s.id who db after
  unfolding redeem_in_transaction record_use
  redeem-passed {s} {after} {v} pass usable run =
      let (s', d, provided, rest) =
        resume-eq-ok (provision_in_transaction uuid now (params_of who.user_id plan) db) _
          (rw pass at run) in
      let kept : (d.vouchers ≡ db.vouchers) × (d.redemptions ≡ db.redemptions) = rw provided at (
        provision-keeps (λ t. (t.vouchers ≡ db.vouchers) × (t.redemptions ≡ db.redemptions))
          (λ t ss es h. h) uuid now (params_of who.user_id plan) db (refl, refl)) in
      let (same_s, same_db) = ok-injective rest in
      subst₂ (λ (x : Subscription) t. HasRedeemed now id x.id who db t) same_s same_db
        (use-HasRedeemed d s'.id v usable kept.0 kept.1)

  redeem-HasRedeemed :
      {s : Subscription} {after : Db}
      → redeem_in_transaction uuid now id plan who db ≡ (ok s, after)
      → HasRedeemed now id s.id who db after
  redeem-HasRedeemed run = elim (Option-cases (find (has_id id) db.vouchers)) [
    | inl missing ↦
        absurd
          (ok-ne-err (sym (redeem-refused (recheck-missing now id who.user_id db missing)) ∙ run))
    | inr (v, found) ↦ elim (recheck-cases now id who.user_id db v found) [
      | inr (e, stop) ↦ absurd (ok-ne-err (sym (redeem-refused stop) ∙ run))
      | inl (pass, usable) ↦ redeem-passed pass usable run
    ]
  ]

-- A redemption that has succeeded was of an active voucher that had not expired, had been redeemed
-- less often than its limit, and not by this user. It is counted once, so that the count is still
-- within the limit, it makes the voucher inactive exactly where the limit is reached, it changes no
-- other voucher, and it is recorded for the user. Every further redemption of the voucher by the same user, at any time and
-- whatever plan it is for, throws without any effect.
pub redeem_limits :
    (uuid uuid' : String) (now now' id plan plan' : ℕ) (who who' : Redeemer) (db after : Db)
    {s : Subscription}
    → redeem_in_transaction uuid now id plan who db ≡ (ok s, after)
    → who'.user_id ≡ who.user_id
    → (h : HasRedeemed now id s.id who db after) × (h.row.redemptions ≤ h.voucher.max_redemptions)
      × ((e : Failure) × (redeem_in_transaction uuid' now' id plan' who' after ≡ (err e, after)))
redeem_limits uuid uuid' now now' id plan plan' who who' db after {s} run same =
    let h = redeem-HasRedeemed uuid now id plan who db run in
    let room = h.had_room in
    let row = redemption_of id who s.id db.redemptions in
    let mine : used_by id who.user_id row ≡ true = rw (==-refl id) (==-refl who.user_id) in
    let used : find (used_by id who.user_id) after.redemptions ≡ some row =
      rw h.recorded
        (find-create_new (used_by id who.user_id) row db.redemptions h.was_unused ∙ rw mine refl) in
    let (e, stop) = recheck-used now' id who'.user_id after {r = row} (rw same used) in
    (
      h,
      let counted_once = ap (λ (v : Voucher). v.redemptions) h.updated in
          omega (arith, counted_once),
      (e, redeem-refused uuid' now' id plan' who' after stop),
    )
