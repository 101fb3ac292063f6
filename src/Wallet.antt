-- ===== src/Wallet.antt =====
-- WalletService (src/modules/wallet/wallet.service.ts): every movement of money.
-- `FOR UPDATE` makes the mutations of one wallet run one after the other, so a mutation is a
-- function of the database as the lock has left it. `uuid` stands for the call of `randomUUID`.
pub mod Accounts
pub mod Ledger
pub mod Moves
pub mod Mutation
pub mod Refinement
pub mod Reverse
pub mod Solvency
mod Opening
unfoldable pub use Opening.*
use vpn_saas.Base.{
  ℕ, Bool, true, false, ◌&&◌, ◌||◌, not, Option, none, some, List, [], ◌∷◌, String, ◌==◌, str_eq,
  if◌then◌else◌,
}
use Prim.Native.String.{◌++◌ as text_append}
use vpn_saas.Base.Int.{ℤ, pos, ltb_ℤ, ◌-ℤ◌}
use vpn_saas.Base.Table.{find, update, create}
use vpn_saas.Money.{from_minor, add_money}
use vpn_saas.Store.{
  Action, pure, throw, gets, or_throw, modify, with_transaction, throw_if, ◌>>=◌, ◌>>◌, Failure,
  business, ErrorCode, get_or, truthy, same_id, fresh_id,
}
use vpn_saas.Store.Rows.{
  Wallet, WalletTransaction, WalletTxnType, WalletTxnStatus, deposit, withdraw, purchase, refund,
  bonus, cashback, Db,
}

abbrev pub insufficient : Failure
insufficient = business ErrorCode.wallet_insufficient_funds "Insufficient wallet balance"

-- The two balances after a mutation, with the touched one before and after it.
pub record Moved : Type 0 where
  pub balance_before : ℤ
  pub balance_after : ℤ
  pub main : ℤ
  pub gift : ℤ

-- The balance that a mutation uses.
abbrev pub purse : Bool → Wallet → ℤ
purse true w = w.gift_balance
purse false w = w.balance

abbrev pub moved_to : Bool → Wallet → ℤ → Moved
moved_to gift w after = record {
  balance_before = purse gift w;
  balance_after = after;
  main = if gift then w.balance else after;
  gift = if gift then after else w.gift_balance;
}

-- The branches on the direction; `none` is `insufficient`.
abbrev pub moved_by : Direction → Bool → ℤ → Wallet → Option Moved
moved_by credit gift amount w = some (moved_to gift w (add_money (purse gift w ∷ amount ∷ [])))
moved_by debit gift amount w =
    if ltb_ℤ (purse gift w) amount then none else some (moved_to gift w (purse gift w -ℤ amount))

unfoldable pub moved : WalletMutation → Wallet → Option Moved
moved p w = moved_by p.direction p.use_gift_balance p.amount w

abbrev is_credit : Direction → Bool
is_credit credit = true
is_credit debit = false

abbrev counts_as_deposit : WalletTxnType → Bool
counts_as_deposit deposit = true
counts_as_deposit bonus = true
counts_as_deposit cashback = true
counts_as_deposit _ = false

abbrev is_purchase : WalletTxnType → Bool
is_purchase purchase = true
is_purchase _ = false

-- The row of `walletTransaction.create`.
abbrev pub txn_of : String → WalletMutation → ℕ → Moved → List WalletTransaction → WalletTransaction
txn_of uuid p wallet_id m ts = record {
  id = fresh_id (λ (t : WalletTransaction). t.id) ts;
  public_id = uuid;
  wallet_id = wallet_id;
  type = p.type;
  status = get_or p.status WalletTxnStatus.confirmed;
  amount = p.amount;
  fee = pos 0;
  balance_before = m.balance_before;
  balance_after = m.balance_after;
  description = p.description;
  reference = p.reference;
  payment_id = p.payment_id;
  order_id = p.order_id;
}

-- The data of `wallet.update`.
abbrev pub wallet_after : WalletMutation → Moved → Wallet → Wallet → Wallet
wallet_after p m locked w = record w {
  balance = m.main;
  gift_balance = m.gift;
  total_deposited =
      if is_credit p.direction && (not p.use_gift_balance && counts_as_deposit p.type)
      then add_money (locked.total_deposited ∷ p.amount ∷ [])
      else locked.total_deposited;
  total_spent =
      if not (is_credit p.direction) && is_purchase p.type
      then add_money (locked.total_spent ∷ p.amount ∷ [])
      else locked.total_spent;
}

abbrev pub has_payment : ℕ → WalletTransaction → Bool
has_payment payment t = same_id t.payment_id payment

abbrev pub with_payment : Option ℕ → List WalletTransaction → Option WalletTransaction
with_payment none ts = none
with_payment (some k) ts = find (has_payment k) ts

-- The transaction that an earlier call has recorded for the same payment.
abbrev pub recorded : Option ℕ → List WalletTransaction → Option WalletTransaction
recorded payment ts = with_payment (truthy payment) ts

abbrev unless_recorded : Option WalletTransaction → Action WalletTxnDto → Action WalletTxnDto
unless_recorded none m = m
unless_recorded (some t) m = pure (to_txn_dto t)

-- The two writes.
record_move : String → WalletMutation → Wallet → Moved → Action WalletTxnDto
record_move uuid p locked m db =
    let t = txn_of uuid p locked.id m db.transactions in
    pure (to_txn_dto t) (record db {
      transactions = create t db.transactions;
      wallets = update (by_user p.user_id) (wallet_after p m locked) db.wallets;
    })

unfoldable pub mutate_balance_in_transaction : String → WalletMutation → Action WalletTxnDto
unfolding get_or_create_wallet record_move
mutate_balance_in_transaction uuid p = do
  wallet ← get_or_create_wallet p.user_id
  locked ← gets (λ db. get_or (find (by_user p.user_id) db.wallets) wallet)
  existing ← gets (λ db. recorded p.payment_id db.transactions)
  unless_recorded existing
      do m ← or_throw (moved p locked) insufficient; record_move uuid p locked m

unfoldable pub mutate_balance : String → WalletMutation → Action WalletTxnDto
unfolding mutate_balance_in_transaction
mutate_balance uuid p = with_transaction (mutate_balance_in_transaction uuid p)

-- The optional arguments of `credit` and `debit`.
pub record Options : Type 0 where
  pub description : Option String
  pub reference : Option String
  pub payment_id : Option ℕ
  pub order_id : Option ℕ
  pub use_gift_balance : Bool

abbrev pub mutation : Direction → ℕ → ℤ → WalletTxnType → Options → WalletMutation
mutation direction user amount type opts = record {
  user_id = user;
  type = type;
  amount = amount;
  direction = direction;
  description = opts.description;
  reference = opts.reference;
  payment_id = opts.payment_id;
  order_id = opts.order_id;
  status = none;
  use_gift_balance = opts.use_gift_balance;
}

pub credit_wallet : String → ℕ → ℤ → WalletTxnType → Options → Action WalletTxnDto
unfolding mutate_balance
credit_wallet uuid user amount type opts =
    mutate_balance uuid (mutation credit user amount type (record opts { order_id = none }))

pub debit_wallet : String → ℕ → ℤ → WalletTxnType → Options → Action WalletTxnDto
unfolding mutate_balance
debit_wallet uuid user amount type opts =
    mutate_balance uuid (mutation debit user amount type (record opts { payment_id = none }))

abbrev pub is_reversed : WalletTxnStatus → Bool
is_reversed WalletTxnStatus.reversed = true
is_reversed _ = false

abbrev pub took_money : WalletTxnType → Bool
took_money purchase = true
took_money withdraw = true
took_money _ = false

abbrev pub has_public_id : String → WalletTransaction → Bool
has_public_id public_id t = str_eq t.public_id public_id

abbrev pub has_id : ℕ → WalletTransaction → Bool
has_id id t = t.id == id

abbrev pub mark_reversed : WalletTransaction → WalletTransaction
mark_reversed t = record t { status = WalletTxnStatus.reversed }

-- The mutation that undoes a transaction of the user.
abbrev pub reversal : ℕ → WalletTransaction → String → Option String → WalletMutation
reversal user original transaction_id reason = record {
  user_id = user;
  type = refund;
  amount = original.amount;
  direction = if took_money original.type then credit else debit;
  description = some (get_or reason (text_append "Reversal of " transaction_id));
  reference = some transaction_id;
  payment_id = none;
  order_id = none;
  status = none;
  use_gift_balance = false;
}

-- The mutation commits before the status is written.
unfoldable pub reverse_transaction : String → String → Option String → Action WalletTxnDto
reverse_transaction uuid transaction_id reason = do
  original ←
      or_throw (← gets (λ db. find (has_public_id transaction_id) db.transactions))
        (business ErrorCode.not_found "Transaction not found")
  throw_if (is_reversed original.status) (business ErrorCode.conflict "Already reversed")
  owner ←
      or_throw (← gets (λ db. find (λ w. w.id == original.wallet_id) db.wallets)) Failure.type_error
  dto ← mutate_balance uuid (reversal owner.user_id original transaction_id reason)
  modify
      (λ db. record db { transactions = update (has_id original.id) mark_reversed db.transactions })
  pure dto
