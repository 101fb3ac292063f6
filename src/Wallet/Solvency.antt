-- ===== src/Wallet/Solvency.antt =====
-- The balances of the wallets and zero (src/modules/wallet/wallet.service.ts).
use vpn_saas.Base.{
  ℕ, ◌≡◌, Bool, true, false, some, List, String, inl, inr, All, arith, Option-cases,
}
use vpn_saas.Base.Int.{ℤ, pos, ◌≤ℤ◌}
use vpn_saas.Base.Table.{find}
use vpn_saas.Base.Table.Laws.{All-create, All-find, All-update}
use vpn_saas.Store.{Result, ok, err, commit}
use vpn_saas.Store.Rows.{Wallet, Db}
use vpn_saas.Wallet.{
  WalletMutation, by_user, new_wallet, wallet_of, opened, Moved, moved, wallet_after,
  mutate_balance_in_transaction, mutate_balance, purse, moved_to,
}
use vpn_saas.Wallet.Mutation.{find-opened, mutate_paths, moved-IsMove}

abbrev pub IsSolvent : Wallet → Type 0
IsSolvent w = (pos 0 ≤ℤ w.balance) × (pos 0 ≤ℤ w.gift_balance)

opened-IsSolvent : (user : ℕ) (ws : List Wallet) → All IsSolvent ws → All IsSolvent (opened user ws)
opened-IsSolvent user ws h = elim (Option-cases (find (by_user user) ws)) [
  | inl missing ↦
      rw missing (All-create IsSolvent (new_wallet user ws) ws h (omega arith, omega arith))
  | inr (w, found) ↦ rw found h
]

purse_solvent : (gift : Bool) (w : Wallet) → IsSolvent w → pos 0 ≤ℤ purse gift w
purse_solvent true w h = h.1
purse_solvent false w h = h.0

moved_solvent :
    (gift : Bool) (w : Wallet) (after : ℤ)
    → IsSolvent w
    → pos 0 ≤ℤ after
    → (pos 0 ≤ℤ (moved_to gift w after).main) × (pos 0 ≤ℤ (moved_to gift w after).gift)
moved_solvent true w after h k = (h.0, k)
moved_solvent false w after h k = (k, h.1)

moved-IsSolvent :
    (p : WalletMutation) (w : Wallet) {m : Moved}
    → moved p w ≡ some m
    → pos 0 ≤ℤ p.amount
    → IsSolvent w
    → (pos 0 ≤ℤ m.main) × (pos 0 ≤ℤ m.gift)
moved-IsSolvent p w e h k =
    let s = moved-IsMove p w e in
    rw s.shape (
      moved_solvent p.use_gift_balance w s.after k
        (s.solvent h (purse_solvent p.use_gift_balance w k)))

commit-IsSolvent :
    {A : Type 0} (r : Result A × Db) (db : Db)
    → All IsSolvent db.wallets
    → All IsSolvent r.1.wallets
    → All IsSolvent (commit r db).1.wallets
commit-IsSolvent (ok a, s) db h k = k
commit-IsSolvent (err e, s) db h k = h

-- If no balance of any wallet is negative, then none is after any call of `mutateBalance` with an
-- amount that is not negative, credit or debit, main or gift balance, returned or thrown.
pub mutate_balance-IsSolvent :
    (uuid : String) (p : WalletMutation) (db : Db)
    → pos 0 ≤ℤ p.amount
    → All IsSolvent db.wallets
    → All IsSolvent (mutate_balance uuid p db).1.wallets
unfolding mutate_balance
mutate_balance-IsSolvent uuid p db h k =
    let w = wallet_of p.user_id db.wallets in
    let ws = opened p.user_id db.wallets in
    let opened_k = opened-IsSolvent p.user_id db.wallets k in
    let solvent_w =
      All-find IsSolvent (by_user p.user_id) ws opened_k (find-opened p.user_id db.wallets) in
    commit-IsSolvent (mutate_balance_in_transaction uuid p db) db k (
      mutate_paths (λ r. All IsSolvent r.1.wallets) uuid p db (λ t. opened_k) opened_k
        (λ m e.
          All-update IsSolvent (by_user p.user_id) (wallet_after p m w) ws
            (λ v _ _. moved-IsSolvent p w e h solvent_w) opened_k))
