-- ===== src/Wallet/Accounts.antt =====
-- The wallets as accounts, a specification of `mutateBalance` (src/modules/wallet/wallet.service.ts)
-- that has neither rows nor ids.
use vpn_saas.Base.{ℕ, Bool, true, false, ◌||◌, Option, none, some, ◌==◌, if◌then◌else◌}
use vpn_saas.Base.Int.{ℤ, ltb_ℤ, ◌+ℤ◌, ◌-ℤ◌}
use vpn_saas.Base.Table.{find}
use vpn_saas.Store.{Result, ok, err, truthy, same_id, is_some}
use vpn_saas.Store.Rows.{Wallet, Db}
use vpn_saas.Wallet.{Direction, credit, debit, WalletMutation, wallet_of, has_payment}

-- What a user owns.
pub record Account : Type 0 where
  pub main : ℤ
  pub gift : ℤ

-- Everybody's account, and the payments that have moved one.
pub record Bank : Type 0 where
  pub accounts : ℕ → Account
  pub settled : ℕ → Bool

abbrev pub put : Bool → ℤ → Account → Account
put true amount a = record a { gift = amount }
put false amount a = record a { main = amount }

abbrev pub held : Bool → Account → ℤ
held true a = a.gift
held false a = a.main

-- An account after a movement, none where it does not hold the amount.
abbrev pub move : Direction → Bool → ℤ → Account → Option Account
move credit gift amount a = some (put gift (held gift a +ℤ amount) a)
move debit gift amount a =
    if ltb_ℤ (held gift a) amount then none else some (put gift (held gift a -ℤ amount) a)

abbrev pub is_settled : Option ℕ → Bank → Bool
is_settled none b = false
is_settled (some payment) b = b.settled payment

abbrev pub entered : WalletMutation → Option Account → Bank → Bool × Bank
entered p none b = (false, b)
entered p (some a) b = (
  true,
  record {
    accounts = λ user. if user == p.user_id then a else b.accounts user;
    settled = λ payment. b.settled payment || same_id p.payment_id payment;
  },
)

-- A movement is granted once for a payment, or refused for want of funds.
abbrev pub request : WalletMutation → Bank → Bool × Bank
request p b =
    if is_settled (truthy p.payment_id) b
    then (true, b)
    else entered p (move p.direction p.use_gift_balance p.amount (b.accounts p.user_id)) b

abbrev pub account : Wallet → Account
account w = record { main = w.balance; gift = w.gift_balance }

abbrev pub view : Db → Bank
view db = record {
  accounts = λ user. account (wallet_of user db.wallets);
  settled = λ payment. is_some (find (has_payment payment) db.transactions);
}

abbrev pub is_ok : {A : Type 0} → Result A → Bool
is_ok (ok a) = true
is_ok (err e) = false
