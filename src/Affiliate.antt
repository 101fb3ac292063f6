-- ===== src/Affiliate.antt =====
-- AffiliateService (src/modules/affiliate/affiliate.service.ts): accounts, commissions, payouts.
-- `code` stands for the eight characters of a UUID, `uuid` for the public id of the movement that
-- pays out, `show` for an id in decimal. The lists only read.
pub mod SignUp
pub mod Totals
use vpn_saas.Base.{
  ℕ, ◌+◌, ◌*◌, ◌/◌, ◌%◌, Bool, true, false, ◌&&◌, ◌||◌, not, Option, none, some, String, List, [],
  ◌∷◌, ◌==◌, str_eq, if◌then◌else◌,
}
use Prim.Native.String.{◌++◌ as text_append}
use vpn_saas.Base.Int.{ℤ, pos, div_ℤ, ltb_ℤ, ◌+ℤ◌, ◌-ℤ◌, ◌*ℤ◌}
use vpn_saas.Base.Table.{find, find_many, update, update_many, create}
use vpn_saas.Money.{from_minor}
use vpn_saas.Store.{
  Action, pure, gets, or_throw, throw_if, modify, when, with_transaction, if_action, ◌>>=◌, ◌>>◌,
  business, ErrorCode, Failure, type_error, unique_violation, record_not_found, fresh_id, get_or,
  is_some, is_none,
}
use vpn_saas.Store.Rows.{ReferralLog, ReferralStatus, WalletTxnType, Db}
use vpn_saas.Store.Rows.Partners.{
  AffiliateAccount, AffiliateCommission, CommissionStatus, pending, paid,
}
use vpn_saas.Wallet.{WalletMutation, credit, mutate_balance}

abbrev pub of_user : ℕ → AffiliateAccount → Bool
of_user user a = a.user_id == user

abbrev pub has_id : ℕ → AffiliateAccount → Bool
has_id id a = a.id == id

abbrev pub has_code : String → AffiliateAccount → Bool
has_code code a = str_eq a.code code

abbrev pub new_account : String → ℕ → List AffiliateAccount → AffiliateAccount
new_account code user accounts = record {
  id = fresh_id (λ (a : AffiliateAccount). a.id) accounts;
  user_id = user;
  code = code;
  status = "ACTIVE";
  commission_rate = 1000;
  total_earnings = pos 0;
  available_balance = pos 0;
  withdrawn_amount = pos 0;
  payout_method = none;
}

unfoldable pub apply : String → ℕ → Action AffiliateAccount
apply code user = do
  throw_if (← gets (λ db. is_some (find (of_user user) db.affiliates)))
      (business ErrorCode.conflict "Already an affiliate or application pending")
  throw_if (← gets (λ db. is_some (find (has_code code) db.affiliates))) unique_violation
  a ← gets (λ db. new_account code user db.affiliates)
  modify (λ db. record db { affiliates = create a db.affiliates })
  pure a

pub record AccountUpdate : Type 0 where
  pub status : Option String
  pub commission_rate : Option ℕ
  pub payout_method : Option String

-- An empty text writes nothing.
abbrev given : Option String → Option String
given none = none
given (some t) = if str_eq t "" then none else some t

abbrev kept_method : Option String → Option String → Option String
kept_method none old = old
kept_method (some t) old = some t

abbrev pub changed : AccountUpdate → AffiliateAccount → AffiliateAccount
changed input a = record a {
  status = get_or (given input.status) a.status;
  commission_rate = get_or input.commission_rate a.commission_rate;
  payout_method = kept_method (given input.payout_method) a.payout_method;
}

unfoldable pub update_account : ℕ → AccountUpdate → Action (Unit {0})
update_account id input = do
  throw_if (← gets (λ db. is_none (find (has_id id) db.affiliates))) record_not_found
  modify (λ db. record db { affiliates = update (has_id id) (changed input) db.affiliates })

pub record ReferralInput : Type 0 where
  pub referrer_id : ℕ
  pub referred_id : ℕ
  pub order_id : Option ℕ
  pub amount_minor : ℤ

-- `BigInt(rate.toString())`, which throws on a fraction.
abbrev rate_of : Option AffiliateAccount → Action ℕ
rate_of none = pure 0
rate_of (some a) = do
  throw_if (not (a.commission_rate % 100 == 0)) type_error
  pure (a.commission_rate / 100)

abbrev pub commission_of : Option AffiliateAccount → ℕ → ℤ → ℤ
commission_of none rate amount = pos 0
commission_of (some a) rate amount =
    if str_eq a.status "ACTIVE" && not (rate == 0) then div_ℤ (amount *ℤ pos rate) 100 else pos 0

abbrev pub new_referral : ReferralInput → ℤ → List ReferralLog → ReferralLog
new_referral input commission rs = record {
  id = fresh_id (λ (r : ReferralLog). r.id) rs;
  referrer_id = input.referrer_id;
  referred_id = input.referred_id;
  status = if ltb_ℤ (pos 0) commission then ReferralStatus.pending else ReferralStatus.completed;
  reward_type = "WALLET";
  referrer_reward = commission;
  referred_reward = pos 0;
  completed_at = none;
}

abbrev pub same_pair : ReferralInput → ReferralLog → Bool
same_pair input r = r.referrer_id == input.referrer_id && r.referred_id == input.referred_id

abbrev pub new_commission :
    ReferralInput → AffiliateAccount → ℤ → List AffiliateCommission → AffiliateCommission
new_commission input a commission cs = record {
  id = fresh_id (λ (c : AffiliateCommission). c.id) cs;
  affiliate_id = a.id;
  order_id = get_or input.order_id 0;
  amount = commission;
  rate = a.commission_rate;
  status = pending;
  paid_at = none;
}

abbrev pub earned : ℤ → AffiliateAccount → AffiliateAccount
earned commission a = record a {
  total_earnings = a.total_earnings +ℤ commission;
  available_balance = a.available_balance +ℤ commission;
}

abbrev pub book : ReferralInput → ℤ → Option AffiliateAccount → Action (Unit {0})
book input commission none = pure tt
book input commission (some a) = modify (λ db. record db {
  commissions = create (new_commission input a commission db.commissions) db.commissions;
  affiliates = update (has_id a.id) (earned commission) db.affiliates;
})

unfoldable pub process_referral : ReferralInput → Action ReferralLog
process_referral input = do
  a ← gets (λ db. find (of_user input.referrer_id) db.affiliates)
  rate ← rate_of a
  throw_if (← gets (λ db. is_some (find (same_pair input) db.referrals))) unique_violation
  r ← gets (λ db. new_referral input (commission_of a rate input.amount_minor) db.referrals)
  modify (λ db. record db { referrals = create r db.referrals })
  when (ltb_ℤ (pos 0) (commission_of a rate input.amount_minor))
      (book input (commission_of a rate input.amount_minor) a)
  pure r

abbrev pub is_in : List ℕ → ℕ → Bool
is_in [] n = false
is_in (m ∷ ms) n = (m == n) || is_in ms n

abbrev is_pending : CommissionStatus → Bool
is_pending pending = true
is_pending paid = false

abbrev pub is_due : List ℕ → ℕ → AffiliateCommission → Bool
is_due ids account c = is_in ids c.id && (c.affiliate_id == account && is_pending c.status)

abbrev total_from : ℤ → List AffiliateCommission → ℤ
total_from sum [] = sum
total_from sum (c ∷ cs) = total_from (sum +ℤ c.amount) cs

abbrev pub total_of : List AffiliateCommission → ℤ
total_of cs = total_from (pos 0) cs

abbrev pub is_none_due : List AffiliateCommission → Bool
is_none_due [] = true
is_none_due (c ∷ cs) = false

abbrev pub settled : ℕ → AffiliateCommission → AffiliateCommission
settled now c = record c { status = paid; paid_at = some now }

abbrev pub withdrawn : ℤ → AffiliateAccount → AffiliateAccount
withdrawn total a = record a {
  available_balance = a.available_balance -ℤ total;
  withdrawn_amount = a.withdrawn_amount +ℤ total;
}

abbrev pub payout_move : (ℕ → String) → ℕ → AffiliateAccount → ℤ → WalletMutation
payout_move show user a total = record {
  user_id = user;
  type = WalletTxnType.bonus;
  amount = total;
  direction = credit;
  description = some "Affiliate commission payout";
  reference = some (text_append "affiliate-" (show a.id));
  payment_id = none;
  order_id = none;
  status = none;
  use_gift_balance = false;
}

-- Every commission whose id is given is marked, whosever it is and whatever its status.
unfoldable pub payout : (ℕ → String) → String → ℕ → ℕ → List ℕ → Action (List ℕ)
unfolding mutate_balance
payout show uuid now user ids = do
  a ←
      or_throw (← gets (λ db. find (of_user user) db.affiliates))
        (business ErrorCode.not_found "No affiliate account")
  throw_if (not (str_eq a.status "ACTIVE")) (business ErrorCode.conflict "Affiliate not active")
  due ← gets (λ db. find_many (is_due ids a.id) db.commissions)
  throw_if (is_none_due due) (business ErrorCode.not_found "No pending commissions")
  modify (λ db. record db {
    commissions = update_many (λ c. is_in ids c.id) (settled now) db.commissions;
    affiliates = update (has_id a.id) (withdrawn (total_of due)) db.affiliates;
  })
  mutate_balance uuid (payout_move show user a (total_of due))
  pure (from_minor (total_of due))
