-- ===== src/Affiliate/SignUp/Once.antt =====
-- Repeated calls for the reward of a sign-up (`fulfillTelegramSignupReferral` of
-- src/modules/affiliate/affiliate.service.ts).
use vpn_saas.Base.{
  ℕ, ◌≡◌, refl, sym, ◌∙◌, true, false, Option, none, some, String, List, [], ◌∷◌, ◌==◌, ◌||◌, not,
  length, ap, arith, inl, inr, Bool-cases, Option-cases,
}
use vpn_saas.Base.Int.{pos, pos_part, leb_ℤ}
use vpn_saas.Base.Table.{find, count}
use vpn_saas.Base.Table.Laws.{find-update_many, find-uncounted}
use vpn_saas.Store.{
  Action, ok, Failure, throw, if_action, or_throw, resume_leads, resume-eq-ok, or_throw-eq-ok,
  throw_if-eq-ok, commit-eq-ok, Result-cases, throw_if, ok-injective,
}
use vpn_saas.Store.Rows.{ReferralLog, ReferralStatus, Plan, Db}
use vpn_saas.Affiliate.SignUp.{
  Reward, by_sign_up, is_over, is_pending, is_completed, trial_of, give, claimable, claimed_db,
  shares, completed_at, claim_reward, provision_each, to_reward, rewarded, or_trials, conflict,
  differ, trial_plan, hand_out, first_time, reward_for, try_reward, is_conflict,
  fulfill_telegram_signup_referral,
}

completed_left :
    (s : ReferralStatus) → is_over s ≡ false → is_pending s ≡ false → is_completed s ≡ true
completed_left ReferralStatus.pending h p = cc
completed_left ReferralStatus.completed h p = refl
completed_left ReferralStatus.rewarded h p = cc
completed_left ReferralStatus.cancelled h p = cc

give-referrals :
    (uuid : ℕ → String) (now : ℕ) (plan : Plan) (bytes user : ℕ) (db : Db)
    → (give uuid now plan bytes user db).1.referrals ≡ db.referrals
give-referrals uuid now plan bytes user db =
    elim (Option-cases (find (trial_of user) db.subscriptions)) [
      | inl missing ↦ rw missing refl
      | inr (s, found) ↦ rw found refl
    ]

give-kept :
    (uuid : ℕ → String) (now : ℕ) (plan : Plan) (bytes user : ℕ) (db : Db) {a : ℕ} {s : Db}
    → give uuid now plan bytes user db ≡ (ok a, s)
    → s.referrals ≡ db.referrals
give-kept uuid now plan bytes user db run =
    ap (λ p. p.1.referrals) (sym run) ∙ give-referrals uuid now plan bytes user db

module _ (create_vpn_user : ℕ → Action (Unit {0}))
    (keeps : (id : ℕ) (db : Db) → (create_vpn_user id db).1.referrals ≡ db.referrals) where
  provision_each-referrals :
      (ids : List ℕ) (db : Db) → (provision_each create_vpn_user ids db).1.referrals ≡ db.referrals
  provision_each-referrals [] db = refl
  provision_each-referrals (id ∷ ids) db =
      resume_leads (λ s. s.referrals ≡ db.referrals) (λ s. s.referrals ≡ db.referrals)
        (create_vpn_user id db) _ (keeps id db) (λ s e. e)
        (λ u s e. provision_each-referrals ids s ∙ e)

  module _ (uuid : ℕ → String) (now user : ℕ) where
    -- The referral of the user is over.
    abbrev Over : Db → Type 0
    Over db =
        (r : ReferralLog) × (find (by_sign_up user) db.referrals ≡ some r)
        × (is_over r.status ≡ true)

    -- Where it returns a reward, the referral is over.
    abbrev Rewards : Action (Option Reward) → Type 0
    Rewards m = (db : Db) (x : Reward) (after : Db) → m db ≡ (ok (some x), after) → Over after

    hand_out-Over :
        (parties : Option String × Option String) (r q : ReferralLog) (ids : List ℕ) (db : Db)
        {x : Reward} {after : Db}
        → find (by_sign_up user) db.referrals ≡ some q
        → (to_reward r.id q) ≡ true
        → hand_out create_vpn_user parties r ids db ≡ (ok (some x), after)
        → Over after
    unfolding hand_out
    hand_out-Over parties r q ids db found due run =
        let listed = or_trials r ids db in
        let (u, s1, guard, run1) =
          resume-eq-ok
            (throw_if (not (length listed == 2))
              (conflict "Referral trial subscription is incomplete") db)
            _ run in
        let (ok_guard, same1) = throw_if-eq-ok _ _ db guard in
        let (v, s2, provisioned, run2) =
          resume-eq-ok (provision_each create_vpn_user listed s1) _ run1 in
        let kept : s2.referrals ≡ db.referrals =
          ap (λ p. p.1.referrals) (sym provisioned)
          ∙ provision_each-referrals listed s1
          ∙ ap (λ (s : Db). s.referrals) same1 in
        let written = ap (λ (s : Db). s.referrals) (ok-injective run2).1 in
        let there : find (by_sign_up user) s2.referrals ≡ some q = rw kept found in
        let over =
          find-update_many (to_reward r.id) (by_sign_up user) rewarded s2.referrals there due
            (λ y. refl) in
        (rewarded q, ap (find (by_sign_up user)) (sym written) ∙ over, refl)

    claim-found :
        (plan : Plan) (r : ReferralLog) (db : Db) {ids : List ℕ} {s : Db}
        → find (by_sign_up user) db.referrals ≡ some r
        → is_pending r.status ≡ true
        → claim_reward uuid now plan r db ≡ (ok ids, s)
        → find (by_sign_up user) s.referrals ≡ some (completed_at now r)
    unfolding claim_reward
    claim-found plan r db {ids} {s} found waits run =
        let n = count (claimable r.id) db.referrals in
        let same : (r.id == r.id) ≡ true = ground arith in
        let mine : claimable r.id r ≡ true = rw (same, waits) refl in
        let body : shares uuid now plan r n db ≡ (ok ids, s) = commit-eq-ok _ db run in
        elim (Bool-cases (n == 0)) [
          | inl zero ↦ absurd (
              let missed =
                find-uncounted (claimable r.id) (by_sign_up user) db.referrals found
                  (ground arith) in
              cc)
          | inr hit ↦
              let bytes = pos_part r.referrer_reward in
              let (a, s1, given, run1) =
                resume-eq-ok (give uuid now plan bytes r.referrer_id (claimed_db now r.id db)) _
                  (rw hit at body) in
              let (b, s2, also, run2) =
                resume-eq-ok (give uuid now plan bytes r.referred_id s1) _ run1 in
              let kept : s.referrals ≡ (claimed_db now r.id db).referrals =
                ap (λ (t : Db). t.referrals) (sym (ok-injective run2).1)
                ∙ give-kept uuid now plan bytes r.referred_id s1 also
                ∙ give-kept uuid now plan bytes r.referrer_id (claimed_db now r.id db) given in
              ap (find (by_sign_up user)) kept
              ∙ find-update_many (claimable r.id) (by_sign_up user) (completed_at now) db.referrals
                  found mine (λ y. refl)
        ]

    module _ (again : Failure → Action (Option Reward))
        (rest : (e : Failure) → Rewards (again e)) where
      first_time-Over :
          (parties : Option String × Option String) (r : ReferralLog) (db : Db) {x : Reward}
          {after : Db}
          → find (by_sign_up user) db.referrals ≡ some r
          → is_pending r.status ≡ true
          → first_time create_vpn_user uuid now again parties r db ≡ (ok (some x), after)
          → Over after
      first_time-Over parties r db {x} {after} found waits run =
          let (plan, s1, got, run1) =
            resume-eq-ok
              (or_throw (find trial_plan db.plans) (conflict "Free Trial plan is not available") db)
              _ run in
          let same = (or_throw-eq-ok _ _ db got).1 in
          let there : find (by_sign_up user) s1.referrals ≡ some r = rw same found in
          let own : (r.id == r.id) ≡ true = ground arith in
          elim (Result-cases (claim_reward uuid now plan r s1)) [
            | inl (ids, s2, claimed) ↦
                hand_out-Over parties r (completed_at now r) ids s2
                  (claim-found plan r s1 there waits claimed) (rw own refl) (rw claimed at run1)
            | inr (e, s2, failed) ↦ rest e s2 x after (rw failed at run1)
          ]

      branch-Over :
          (parties : Option String × Option String) (r : ReferralLog) (db : Db) {x : Reward}
          {after : Db}
          → find (by_sign_up user) db.referrals ≡ some r
          → is_over r.status ≡ false
          → if_action
              (is_pending r.status)
              (first_time create_vpn_user uuid now again parties r)
              (hand_out create_vpn_user parties r [])
              db
            ≡ (ok (some x), after)
          → Over after
      branch-Over parties r db found live run =
          let own : (r.id == r.id) ≡ true = ground arith in
          elim (Bool-cases (is_pending r.status)) [
            | inl waits ↦ first_time-Over parties r db found waits (rw waits at run)
            | inr done ↦
                hand_out-Over parties r r [] db found
                  (rw (own, completed_left r.status live done) refl) (rw done at run)
          ]

      try_reward-Rewards : Rewards (try_reward create_vpn_user uuid now again user)
      unfolding try_reward
      try_reward-Rewards db x after run =
          elim (Option-cases (find (by_sign_up user) db.referrals)) [
            | inl missing ↦ absurd (let nothing = rw missing at run in cc)
            | inr (r, found) ↦
                let mine : reward_for create_vpn_user uuid now again (some r) db
                    ≡ (ok (some x), after) =
                  rw found at run in
                elim (Bool-cases (is_over r.status)) [
                  | inl over ↦ absurd (let nothing = rw over at mine in cc)
                  | inr live ↦
                      let (u, s1, guard, run1) =
                        resume-eq-ok
                          (throw_if
                            (leb_ℤ r.referrer_reward (pos 0)
                              || differ r.referred_reward r.referrer_reward)
                            (conflict "Invalid referral traffic reward") db)
                          _ (rw live at mine) in
                      let same = (throw_if-eq-ok _ _ db guard).1 in
                      let there : find (by_sign_up user) s1.referrals ≡ some r = rw same found in
                      branch-Over _ r s1 there live run1
                ]
          ]

    throw-Rewards : (e : Failure) → Rewards (throw e)
    throw-Rewards e db x after run = cc

    fulfill-Rewards : Rewards (fulfill_telegram_signup_referral create_vpn_user uuid now user)
    unfolding fulfill_telegram_signup_referral
    fulfill-Rewards = try_reward-Rewards _ (λ e. again e)
      where
        again :
            (e : Failure)
            → Rewards (
                if_action
                  (is_conflict e)
                  (try_reward create_vpn_user uuid now (λ f. throw f) user)
                  (throw e))
        again e = elim (Bool-cases (is_conflict e)) [
          | inl clash ↦ rw clash (try_reward-Rewards (λ f. throw f) throw-Rewards)
          | inr other ↦ rw other (throw-Rewards e)
        ]

-- Once a call has returned a reward, every later call for the same user, while the table of
-- referrals stays as that call has left it, returns null and changes nothing, whatever its clock,
-- where the provisioning of VPN users does not write referrals.
pub fulfill_once :
    (create_vpn_user : ℕ → Action (Unit {0})) (uuid later_uuid : ℕ → String)
    (now later_now user : ℕ) (db later : Db) {x : Reward} {after : Db}
    → ((id : ℕ) (s : Db) → (create_vpn_user id s).1.referrals ≡ s.referrals)
    → fulfill_telegram_signup_referral create_vpn_user uuid now user db ≡ (ok (some x), after)
    → later.referrals ≡ after.referrals
    → fulfill_telegram_signup_referral create_vpn_user later_uuid later_now user later
      ≡ (ok none, later)
unfolding fulfill_telegram_signup_referral try_reward
fulfill_once create_vpn_user uuid later_uuid now later_now user db later {x} {after} keeps run
      same =
    let (r, found, over) = fulfill-Rewards create_vpn_user keeps uuid now user db x after run in
    let there : find (by_sign_up user) later.referrals ≡ some r = rw same found in
    rw there (rw over refl)
