-- ===== src/Wallet/Ledger.antt =====
-- The wallets and their transactions as a ledger (src/modules/wallet/wallet.service.ts).
mod Posting
unfoldable pub use Posting.*
use vpn_saas.Base.{
  ℕ, ◌≡◌, refl, ap, ◌∙◌, sym, ◌≢◌, Bool, true, false, none, some, List, [], ◌∷◌, String, inl, inr,
  All, ◌==◌, ==-refl, ==_iff, arith, if◌then◌else◌, Option-cases, Bool-cases,
}
use mathlib.Core.Path.{subst}
use vpn_saas.Base.Int.{ℤ, pos, ◌+ℤ◌, ◌-ℤ◌, +ℤ-zero, int_laws}
use vpn_saas.Base.Table.{find, update, create}
use vpn_saas.Base.Table.Laws.{
  find-cons, find_sound, find-create_old, All-create, All-find, All-update,
}
use vpn_saas.Store.{Result, ok, err, commit, find-fresh_id}
use vpn_saas.Store.Rows.{Wallet, WalletTransaction, Db}
use vpn_saas.Wallet.{
  WalletMutation, by_user, new_wallet, wallet_of, opened, Moved, moved, txn_of, wallet_after,
  mutate_balance_in_transaction, mutate_balance,
}
use vpn_saas.Wallet.Mutation.{find-opened, mutate_paths, moved-IsMove}

-- In a ledger a wallet that is found by any test is the one that is found by its id.
find-by_id :
    (p : Wallet → Bool) (ws : List Wallet) {w : Wallet}
    → Distinct ws
    → find p ws ≡ some w
    → find (has_wallet_id w.id) ws ≡ some w
find-by_id p [] d e = cc
find-by_id p (v ∷ vs) {w} (apart, d) e = elim (Bool-cases (p v)) [
  | inl here ↦
      let same : v ≡ w = find-cons p v vs here e in
      let test : (v.id == w.id) ≡ true = rw same (==-refl w.id) in rw test (ap some same)
  | inr there ↦
      let later : find p vs ≡ some w = rw there at e in
      let ne = All-find (λ u. u.id ≢ v.id) p vs apart later in
      let test : (v.id == w.id) ≡ false = ground arith in rw test (find-by_id p vs d later)
]

abbrev pub Holds : Db → Type 0
Holds db = IsLedger db.wallets db.transactions

moved-funds :
    (p : WalletMutation) (w : Wallet) {m : Moved}
    → moved p w ≡ some m
    → m.main +ℤ m.gift ≡ funds w +ℤ (m.balance_after -ℤ m.balance_before)
moved-funds p w {m} e =
    let shape = moved-IsMove p w e in
    rw shape.shape (elim (Bool-cases p.use_gift_balance) [
      | inl gift ↦ rw gift (omega int_laws)
      | inr main ↦ rw main (omega int_laws)
    ])

mutate-Holds :
    (uuid : String) (p : WalletMutation) (db : Db)
    → Holds db
    → Holds (mutate_balance_in_transaction uuid p db).1
mutate-Holds uuid p db h =
    let w = wallet_of p.user_id db.wallets in
    let ws = opened p.user_id db.wallets in
    let k = opened-IsLedger p.user_id db.wallets db.transactions h in
    let found = find-opened p.user_id db.wallets in
    mutate_paths (λ r. Holds r.1) uuid p db (λ t. k) k
      (λ m e.
        posted-IsLedger (txn_of uuid p w.id m db.transactions) db.transactions ws
          (by_user p.user_id) (wallet_after p m w) found
          (find-by_id (by_user p.user_id) ws k.distinct found) (λ v. refl) (moved-funds p w e) k)

commit-Holds :
    {A : Type 0} (r : Result A × Db) (db : Db) → Holds db → Holds r.1 → Holds (commit r db).1
commit-Holds (ok a, s) db h k = k
commit-Holds (err e, s) db h k = h

-- Every call of `mutateBalance`, whether it returns or throws, keeps the ledger: each wallet holds
-- exactly what the transactions recorded for it have moved, over both of its balances.
pub mutate_balance-IsLedger :
    (uuid : String) (p : WalletMutation) (db : Db)
    → IsLedger db.wallets db.transactions
    → let after = (mutate_balance uuid p db).1 in IsLedger after.wallets after.transactions
unfolding mutate_balance
mutate_balance-IsLedger uuid p db h =
    commit-Holds (mutate_balance_in_transaction uuid p db) db h (mutate-Holds uuid p db h)
