-- ===== src/Wallet/Reverse.antt =====
-- The reversal of a transaction (`reverse` of src/modules/wallet/wallet.service.ts).
use vpn_saas.Base.{
  ◌≡◌, sym, Bool, false, Option, some, String, inl, inr, ◌==◌, Option-cases, Bool-cases,
}
use mathlib.Core.Path.{subst}
use vpn_saas.Base.Table.{find, update}
use vpn_saas.Base.Table.Laws.{some_unique, find_sound, find-create_old, find-update_same}
use vpn_saas.Store.{
  Result, ok, err, commit, ok-ne-err, ok-injective, resume-eq-ok, business, ErrorCode,
}
use vpn_saas.Store.Rows.{Wallet, WalletTransaction, Db}
use vpn_saas.Wallet.{
  WalletMutation, WalletTxnDto, mutate_balance_in_transaction, mutate_balance, reverse_transaction,
  reversal, has_public_id, has_id, mark_reversed, is_reversed,
}
use vpn_saas.Wallet.Mutation.{mutate_paths}

-- What a search among the transactions has found it still finds after a mutation.
mutate-finds :
    (q : WalletTransaction → Bool) (uuid : String) (p : WalletMutation) (db : Db)
    {a : WalletTransaction}
    → find q db.transactions ≡ some a
    → find q (mutate_balance uuid p db).1.transactions ≡ some a
unfolding mutate_balance
mutate-finds q uuid p db {a} e = commit-finds q (mutate_balance_in_transaction uuid p db) db e (
    mutate_paths (λ r. find q r.1.transactions ≡ some a) uuid p db (λ t. e) e
      (λ m _. find-create_old q _ db.transactions e))
  where
    commit-finds :
        {A : Type 0} (f : WalletTransaction → Bool) (r : Result A × Db) (s : Db)
        → find f s.transactions ≡ some a
        → find f r.1.transactions ≡ some a
        → find f (commit r s).1.transactions ≡ some a
    commit-finds f (ok x, s') s h k = k
    commit-finds f (err x, s') s h k = h

-- What a reversal that has returned has done: the transaction was there, not reversed yet, and its
-- wallet too; one mutation ran, and the transaction is marked.
record HasReversed (uuid transaction_id : String) (reason : Option String) (db after : Db)
    : Type 0 where
  original : WalletTransaction
  found : find (has_public_id transaction_id) db.transactions ≡ some original
  fresh : is_reversed original.status ≡ false
  owner : Wallet
  owned : find (λ (w : Wallet). w.id == original.wallet_id) db.wallets ≡ some owner
  middle : Db
  dto : WalletTxnDto
  ran :
      mutate_balance uuid (reversal owner.user_id original transaction_id reason) db
      ≡ (ok dto, middle)
  marked : after ≡ record middle {
    transactions = update (has_id original.id) mark_reversed middle.transactions;
  }

reverse-HasReversed :
    (uuid transaction_id : String) (reason : Option String) (db after : Db) {dto : WalletTxnDto}
    → reverse_transaction uuid transaction_id reason db ≡ (ok dto, after)
    → HasReversed uuid transaction_id reason db after
unfolding reverse_transaction
reverse-HasReversed uuid transaction_id reason db after h =
    elim (Option-cases (find (has_public_id transaction_id) db.transactions)) [
      | inl missing ↦ absurd (ok-ne-err (rw missing at h))
      | inr (o, found) ↦ elim (Bool-cases (is_reversed o.status)) [
        | inl done ↦ absurd (ok-ne-err (rw done at (rw found at h)))
        | inr fresh ↦ elim (Option-cases (find (λ (w : Wallet). w.id == o.wallet_id) db.wallets)) [
          | inl unowned ↦ absurd (ok-ne-err (rw unowned at (rw fresh at (rw found at h))))
          | inr (w, owned) ↦
              let p = reversal w.user_id o transaction_id reason in
              let (d, s, ran, rest) =
                resume-eq-ok (mutate_balance uuid p db) _
                  (rw owned at (rw fresh at (rw found at h))) in
              record {
                original = o;
                found = found;
                fresh = fresh;
                owner = w;
                owned = owned;
                middle = s;
                dto = d;
                ran = ran;
                marked = sym (ok-injective rest).1;
              }
        ]
      ]
    ]

module _ (uuid transaction_id : String) (reason : Option String) (db after : Db)
    (r : HasReversed uuid transaction_id reason db after) where
  -- What the mutation has left of what a search had found.
  middle-finds :
      (q : WalletTransaction → Bool) {a : WalletTransaction}
      → find q db.transactions ≡ some a
      → find q r.middle.transactions ≡ some a
  middle-finds q {a} e =
      subst (λ x. find q x.1.transactions ≡ some a) r.ran (mutate-finds q uuid _ db e)

  found_marked :
      (original : WalletTransaction)
      → find (has_public_id transaction_id) db.transactions ≡ some original
      → find (has_id original.id) db.transactions ≡ some original
      → find (has_public_id transaction_id) after.transactions ≡ some (mark_reversed original)
  found_marked original public own =
      let same : r.original ≡ original = some_unique r.found public in
      rw (r.marked, same)
        (find-update_same (has_id original.id) (has_public_id transaction_id) mark_reversed
          r.middle.transactions (middle-finds (has_id original.id) own)
          (middle-finds (has_public_id transaction_id) public)
          (find_sound (has_public_id transaction_id) db.transactions public))

-- No transaction is reversed twice: once `reverse` has returned for a transaction whose id is its
-- own, every further reversal of it throws `Already reversed` and changes nothing.
pub reverse_transaction_once :
    (uuid uuid' transaction_id : String) (reason reason' : Option String) (db after : Db)
    {dto : WalletTxnDto} {original : WalletTransaction}
    → find (has_public_id transaction_id) db.transactions ≡ some original
    → find (has_id original.id) db.transactions ≡ some original
    → reverse_transaction uuid transaction_id reason db ≡ (ok dto, after)
    → reverse_transaction uuid' transaction_id reason' after
      ≡ (err (business ErrorCode.conflict "Already reversed"), after)
unfolding reverse_transaction
reverse_transaction_once uuid uuid' transaction_id reason reason' db after {original} public own
      run =
    let r = reverse-HasReversed uuid transaction_id reason db after run in
    rw (found_marked uuid transaction_id reason db after r original public own)
