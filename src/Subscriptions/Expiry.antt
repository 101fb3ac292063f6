-- ===== src/Subscriptions/Expiry.antt =====
-- The scheduler's expiry of subscriptions (`markExpired` of
-- src/modules/subscriptions/subscriptions.service.ts).
use vpn_saas.Base.{
  ℕ, ◌<◌, ◌≡◌, ◌⊎◌, refl, true, false, some, List, [], ◌∷◌, inl, inr, ltb→lt, lt→ltb, Bool-cases,
  Option-cases,
}
use vpn_saas.Base.Table.{update_many}
use vpn_saas.Base.Table.Laws.{count-update_many, update_many-none}
use vpn_saas.Store.{ok}
use vpn_saas.Store.Rows.{Subscription, SubscriptionStatus, Db}
use vpn_saas.Subscriptions.{mark_expired, is_due, is_live, is_past, expire}

-- A subscription that is in use and has ended before an instant.
pub record HasLapsed (now : ℕ) (s : Subscription) : Type 0 where
  pub in_use : (s.status ≡ SubscriptionStatus.active) ⊎ (s.status ≡ SubscriptionStatus.trial)
  pub end : ℕ
  pub ends : s.expires_at ≡ some end
  pub over : end < now

-- A row before and after the expiry at an instant.
pub data Swept (now : ℕ) (s : Subscription) : Subscription → Type 0 where
  lapsed : HasLapsed now s → Swept now s (record s { status = SubscriptionStatus.expired })
  kept : (HasLapsed now s → ⊥) → Swept now s s

-- Two tables agree row by row.
abbrev pub RowByRow : {A : Type 0} → (A → A → Type 0) → List A → List A → Type 0
RowByRow R [] [] = Unit {0}
RowByRow R (x ∷ xs) (y ∷ ys) = R x y × RowByRow R xs ys
RowByRow R _ _ = ⊥

live_status :
    (s : SubscriptionStatus)
    → is_live s ≡ true
    → (s ≡ SubscriptionStatus.active) ⊎ (s ≡ SubscriptionStatus.trial)
live_status SubscriptionStatus.active h = inl refl
live_status SubscriptionStatus.trial h = inr refl
live_status SubscriptionStatus.pending h = cc
live_status SubscriptionStatus.expired h = cc
live_status SubscriptionStatus.suspended h = cc
live_status SubscriptionStatus.paused h = cc
live_status SubscriptionStatus.cancelled h = cc

HasLapsed-is_due : (now : ℕ) (s : Subscription) → HasLapsed now s → is_due now s ≡ true
HasLapsed-is_due now s h =
    let past : is_past s.expires_at now ≡ true = rw h.ends (lt→ltb h.end now h.over) in
    elim h.in_use [ inl act ↦ rw (act, past) refl | inr try ↦ rw (try, past) refl ]

is_due-HasLapsed : (now : ℕ) (s : Subscription) → is_due now s ≡ true → HasLapsed now s
is_due-HasLapsed now s due = elim (Bool-cases (is_live s.status)) [
  | inr idle ↦ absurd (let no = rw idle at due in cc)
  | inl live ↦ elim (Option-cases s.expires_at) [
    | inl never ↦ absurd (let no = rw (live, never) at due in cc)
    | inr (at, ends) ↦ record {
      in_use = live_status s.status live;
      end = at;
      ends = ends;
      over = ltb→lt at now (rw (live, ends) at due);
    }
  ]
]

swept :
    (now : ℕ) (ss : List Subscription)
    → RowByRow (Swept now) ss (update_many (is_due now) expire ss)
swept now [] = tt
swept now (s ∷ ss) = elim (Bool-cases (is_due now s)) [
  | inl due ↦ rw due (lapsed (is_due-HasLapsed now s due), swept now ss)
  | inr not_due ↦ rw not_due (kept (λ h. let due = HasLapsed-is_due now s h in cc), swept now ss)
]

expired_not-is_due : (now : ℕ) (s : Subscription) → is_due now (expire s) ≡ false
expired_not-is_due now s = refl

-- `markExpired` makes exactly the subscriptions EXPIRED that are ACTIVE or TRIAL and have an end
-- before the instant, keeps every other row and changes no other table; a second call at the same
-- instant finds none and changes nothing.
pub mark_expired_once :
    (now : ℕ) (db : Db)
    → let after = (mark_expired now db).1 in
      RowByRow (Swept now) db.subscriptions after.subscriptions
      × (after ≡ (record db { subscriptions = after.subscriptions }))
      × (mark_expired now after ≡ (ok 0, after))
unfolding mark_expired
mark_expired_once now db =
    let left = count-update_many (is_due now) expire db.subscriptions (expired_not-is_due now) in
    (
      swept now db.subscriptions,
      refl,
      rw
          (
            left,
            update_many-none (is_due now) expire (update_many (is_due now) expire db.subscriptions)
                left,
          )
          refl,
    )
