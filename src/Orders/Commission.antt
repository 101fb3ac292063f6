-- ===== src/Orders/Commission.antt =====
-- The referral commission of a completed order (`creditReferralCommission` of
-- src/modules/orders/orders.service.ts). Settings are texts; their conversion to numbers is
-- JavaScript's, which the program does not implement.
use vpn_saas.Base.{
  ℕ, Bool, true, false, ◌&&◌, not, Option, none, some, List, [], ◌∷◌, String, ◌==◌, str_eq,
  if◌then◌else◌,
}
use Prim.Native.String.{◌++◌ as text_append}
use vpn_saas.Base.Int.{ℤ, pos, ◌+ℤ◌, ◌-ℤ◌, ◌*ℤ◌, div_ℤ, leb_ℤ, ltb_ℤ}
use vpn_saas.Base.Table.{find, update, update_many, create}
use vpn_saas.Store.{
  Action, gets, or_throw, modify, when, when_some, ◌>>=◌, Failure, get_or, truthy, fresh_id,
}
use vpn_saas.Store.Rows.{
  Order, User, Wallet, WalletTransaction, WalletTxnType, referral_reward, WalletTxnStatus,
  SystemSetting, ReferralLog, ReferralStatus, Db,
}
use vpn_saas.Wallet.{by_user, get_or_create_wallet}

-- `Math.trunc(Number(text))`, `none` where it is not a number, and `BigInt(text)`, `none` where it
-- throws a `SyntaxError`.
pub record Conversions : Type 0 where
  pub trunc_number : String → Option ℤ
  pub big_int : String → Option ℤ

abbrev value_of_setting : Option SystemSetting → Option String
value_of_setting none = none
value_of_setting (some s) = some s.value

abbrev pub setting : String → Db → Option String
setting key db = value_of_setting (find (λ (s : SystemSetting). str_eq s.key key) db.settings)

abbrev pub is_text : Option String → String → Bool
is_text none t = false
is_text (some s) t = str_eq s t

abbrev is_reward : WalletTxnType → Bool
is_reward referral_reward = true
is_reward _ = false

-- `walletTransaction.aggregate`: the sum of the rewards of a wallet.
abbrev pub rewards : ℕ → List WalletTransaction → ℤ
rewards wallet [] = pos 0
rewards wallet (t ∷ ts) =
    if t.wallet_id == wallet && is_reward t.type
    then t.amount +ℤ rewards wallet ts
    else rewards wallet ts

abbrev rewards_of : Option Wallet → List WalletTransaction → ℤ
rewards_of none ts = pos 0
rewards_of (some w) ts = rewards w.id ts

abbrev pub earned : ℕ → Db → ℤ
earned user db = rewards_of (find (by_user user) db.wallets) db.transactions

abbrev smaller : ℤ → ℤ → ℤ
smaller a b = if ltb_ℤ a b then a else b

-- The share of the total, cut to what the bonus limit leaves; a limit that is not positive is none.
unfoldable pub commission_for : ℤ → ℤ → ℤ → ℤ → ℤ
commission_for total percent max_bonus so_far =
    let share = div_ℤ (total *ℤ percent) 100 in
    if ltb_ℤ (pos 0) max_bonus then smaller share (max_bonus -ℤ so_far) else share

abbrev pub with_balance : ℤ → Wallet → Wallet
with_balance amount w = record w { balance = w.balance +ℤ amount }

abbrev pub reward_txn : String → ℤ → Order → Wallet → List WalletTransaction → WalletTransaction
reward_txn uuid commission order w ts =
    let after = w.balance +ℤ commission in
    record {
      id = fresh_id (λ (t : WalletTransaction). t.id) ts;
      public_id = uuid;
      wallet_id = w.id;
      type = referral_reward;
      status = WalletTxnStatus.confirmed;
      amount = commission;
      fee = pos 0;
      balance_before = after -ℤ commission;
      balance_after = after;
      description = some (text_append "Referral commission for order " order.public_id);
      reference = some (text_append "referral-order-" order.public_id);
      payment_id = none;
      order_id = some order.id;
    }

abbrev is_pending : ReferralStatus → Bool
is_pending ReferralStatus.pending = true
is_pending _ = false

abbrev awaits : ℕ → ℕ → ReferralLog → Bool
awaits referrer referred r =
    r.referrer_id == referrer && (r.referred_id == referred && is_pending r.status)

abbrev fulfilled : ℕ → ReferralLog → ReferralLog
fulfilled now r = record r { status = ReferralStatus.completed; completed_at = some now }

-- The writes: the wallet, its transaction, and the referral that they complete.
unfoldable pub pay_commission : String → ℕ → ℤ → Order → ℕ → Action (Unit {0})
unfolding get_or_create_wallet
pay_commission uuid now commission order referrer = do
  w ← get_or_create_wallet referrer
  modify (λ db. record db {
    wallets = update (λ (v : Wallet). v.id == w.id) (with_balance commission) db.wallets;
    transactions = create (reward_txn uuid commission order w db.transactions) db.transactions;
    referrals = update_many (awaits referrer order.user_id) (fulfilled now) db.referrals;
  })

abbrev pub referrer_of : Option User → Option ℕ
referrer_of none = none
referrer_of (some u) = truthy u.referred_by_id

-- The commission of an order with a positive total whose buyer was referred.
unfoldable pub commission_step : Conversions → String → ℕ → Order → ℕ → Action (Unit {0})
unfolding pay_commission
commission_step js uuid now order referrer = do
  percent ←
      or_throw (js.trunc_number (get_or (← gets (setting "referral.commissionPercent")) "0"))
        Failure.type_error
  when (ltb_ℤ (pos 0) percent && leb_ℤ percent (pos 100)) do
    max_bonus ←
        or_throw (js.big_int (get_or (← gets (setting "referral.maxBonus")) "0")) Failure.type_error
    so_far ← gets (earned referrer)
    let commission = commission_for order.total_amount percent max_bonus so_far
    when (ltb_ℤ (pos 0) commission) (pay_commission uuid now commission order referrer)

unfoldable pub credit_referral_commission : Conversions → String → ℕ → Order → Action (Unit {0})
unfolding commission_step
credit_referral_commission js uuid now order = when (ltb_ℤ (pos 0) order.total_amount) do
  referred ← gets (λ db. find (λ (u : User). u.id == order.user_id) db.users)
  when_some (referrer_of referred) λ referrer. do
    enabled ← gets (setting "referral.enabled")
    when (not (is_text enabled "false")) (commission_step js uuid now order referrer)
