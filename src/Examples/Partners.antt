-- ===== src/Examples/Partners.antt =====
-- Runs of the affiliate program.
use vpn_saas.Base.{ℕ, ◌≡◌, refl, true, none, some, List, [], ◌∷◌, All}
use vpn_saas.Base.Int.{pos}
use vpn_saas.Store.{Action, pure, ok, fresh_id}
use vpn_saas.Store.Rows.{Plan, ReferralLog, ReferralStatus, Db}
use vpn_saas.Examples.{shop, monthly}
use vpn_saas.Affiliate.{ReferralInput}
use vpn_saas.Affiliate.Totals.{
  Call, to_apply, to_process, to_pay_out, history, history-IsEven, IsEven,
}
use vpn_saas.Affiliate.SignUp.{
  Reward, fulfill_telegram_signup_referral, claim_reward, hand_out, try_reward,
}
use vpn_saas.Affiliate.SignUp.Once.{fulfill_once}

abbrev first_order : ReferralInput
first_order = record {
  referrer_id = 3;
  referred_id = 7;
  order_id = some 1;
  amount_minor = pos 2000;
}

abbrev calls : List Call
calls = to_apply "code-3" 3 ∷ to_process first_order ∷ to_pay_out "m" 9 3 (1 ∷ []) ∷ []

history-IsEven_example : All IsEven (history (λ n. "1") calls shop).affiliates
history-IsEven_example = history-IsEven (λ n. "1") calls shop tt

abbrev trial_of_shop : Plan
trial_of_shop = record monthly { is_trial = true; duration_days = some 3 }

abbrev invitation : ReferralLog
invitation = record {
  id = 1;
  referrer_id = 3;
  referred_id = 7;
  status = ReferralStatus.pending;
  reward_type = "TRAFFIC";
  referrer_reward = pos 1073741824;
  referred_reward = pos 1073741824;
  completed_at = none;
}

abbrev invited : Db
invited = record shop { plans = trial_of_shop ∷ []; referrals = invitation ∷ [] }

abbrev no_provisioning : ℕ → Action (Unit {0})
no_provisioning id = pure tt

abbrev after_reward : Db
after_reward = (fulfill_telegram_signup_referral no_provisioning (λ user. "s") 100 7 invited).1

abbrev granted : Reward
granted = record {
  referrer_telegram_id = none;
  referred_telegram_id = none;
  reward_bytes = pos 1073741824;
  referrer_link = none;
  referred_link = none;
}

fulfill_once_example :
    fulfill_telegram_signup_referral no_provisioning (λ user. "t") 200 7 after_reward
    ≡ (ok none, after_reward)
unfolding fulfill_telegram_signup_referral claim_reward hand_out try_reward fresh_id
fulfill_once_example =
    fulfill_once no_provisioning (λ user. "s") (λ user. "t") 100 200 7 invited after_reward
      {x = granted} {after = after_reward} (λ id s. refl) refl refl
