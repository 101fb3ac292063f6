-- ===== src/Examples/Wallets.antt =====
-- Movements of money.
use vpn_saas.Base.{◌≡◌, refl, none, some, String, List, [], ◌∷◌, inr, arith, All}
use vpn_saas.Base.Int.{pos, ◌+ℤ◌, ◌-ℤ◌}
use vpn_saas.Base.Table.{find}
use vpn_saas.Store.{ok, err, business, ErrorCode, fresh_id}
use vpn_saas.Store.Rows.{WalletTransaction, Db}
use vpn_saas.Wallet.{
  WalletMutation, WalletTxnDto, credit, debit, mutate_balance, reverse_transaction, to_txn_dto,
  moved, txn_of, has_public_id, has_id,
}
use vpn_saas.Wallet.Mutation.{signed}
use vpn_saas.Wallet.Moves.{HasMoved, mutate_balance-HasMoved, mutate_balance_once, covered_move}
use vpn_saas.Wallet.Ledger.{IsLedger, mutate_balance-IsLedger}
use vpn_saas.Wallet.Solvency.{IsSolvent, mutate_balance-IsSolvent}
use vpn_saas.Wallet.Accounts.{view}
use vpn_saas.Wallet.Refinement.{calls, requests, calls-requests}
use vpn_saas.Wallet.Reverse.{reverse_transaction_once}
use vpn_saas.Examples.{shop, move_of, value_or}

mutate_balance-HasMoved_example :
    (dto : WalletTxnDto) × (after : Db) × (mutate_balance "m" (move_of debit (pos 200)) shop
      ≡ (ok dto, after))
    × HasMoved (move_of debit (pos 200)) (signed debit (pos 200)) shop after
mutate_balance-HasMoved_example =
    mutate_balance-HasMoved "m" (move_of debit (pos 200)) shop refl (inr (omega arith))

abbrev some_calls : List (String × WalletMutation)
some_calls =
    ("m", move_of debit (pos 200))
    ∷ ("n", move_of debit (pos 900))
    ∷ ("o", move_of credit (pos 30))
    ∷ []

calls-requests_example :
    ((calls some_calls shop).0 ≡ (requests some_calls (view shop)).0)
    × (view (calls some_calls shop).1 ≡ (requests some_calls (view shop)).1)
calls-requests_example = calls-requests some_calls shop

-- The database and the result after a debit of 200.
abbrev debited : Db
debited = (mutate_balance "m" (move_of debit (pos 200)) shop).1

abbrev first_txn : WalletTxnDto
first_txn = let p = move_of debit (pos 200) in to_txn_dto (txn_of "m" p 1 (covered_move p shop) [])

debit_run : mutate_balance "m" (move_of debit (pos 200)) shop ≡ (ok first_txn, debited)
unfolding mutate_balance moved fresh_id ◌+ℤ◌ ◌-ℤ◌
debit_run = refl

mutate_balance_once_example :
    mutate_balance "n" (move_of credit (pos 30)) debited ≡ (ok first_txn, debited)
mutate_balance_once_example =
    mutate_balance_once "m" "n" (move_of debit (pos 200)) (move_of credit (pos 30)) shop debited
      refl refl refl debit_run

abbrev no_wallets : Db
no_wallets = record shop { wallets = [] }

mutate_balance-IsLedger_example :
    let after = (mutate_balance "m" (move_of credit (pos 200)) no_wallets).1 in
    IsLedger after.wallets after.transactions
mutate_balance-IsLedger_example =
    mutate_balance-IsLedger "m" (move_of credit (pos 200)) no_wallets
      (record { balanced = tt; distinct = tt; linked = tt })

mutate_balance-IsSolvent_example :
    All IsSolvent (mutate_balance "m" (move_of debit (pos 200)) shop).1.wallets
mutate_balance-IsSolvent_example =
    mutate_balance-IsSolvent "m" (move_of debit (pos 200)) shop (omega arith)
      ((omega arith, omega arith), tt)

abbrev reversed_once : Db
reversed_once = (reverse_transaction "r" "m" none debited).1

reversal_run :
    reverse_transaction "r" "m" none debited
    ≡ (ok (value_or first_txn (reverse_transaction "r" "m" none debited).0), reversed_once)
unfolding reverse_transaction mutate_balance moved fresh_id ◌+ℤ◌ ◌-ℤ◌
reversal_run = refl

abbrev debit_txn : WalletTransaction
debit_txn = txn_of "m" (move_of debit (pos 200)) 1 (covered_move (move_of debit (pos 200)) shop) []

debited_finds : find (has_public_id "m") debited.transactions ≡ some debit_txn
unfolding mutate_balance moved fresh_id ◌+ℤ◌ ◌-ℤ◌
debited_finds = refl

debited_finds_id : find (has_id debit_txn.id) debited.transactions ≡ some debit_txn
unfolding mutate_balance moved fresh_id ◌+ℤ◌ ◌-ℤ◌
debited_finds_id = refl

reverse_transaction_once_example :
    reverse_transaction "t" "m" none reversed_once
    ≡ (err (business ErrorCode.conflict "Already reversed"), reversed_once)
reverse_transaction_once_example =
    reverse_transaction_once "r" "t" "m" none none debited reversed_once {original = debit_txn}
      debited_finds debited_finds_id reversal_run
