-- ===== src/Wallet/Mutation.antt =====
-- What one mutation of a balance does, on each of its paths.
use vpn_saas.Base.{
  ℕ, ◌≡◌, ap, ◌∙◌, sym, ◌≢◌, Bool, true, false, none, some, List, [], ◌∷◌, String, ◌⊎◌, inl, inr,
  ==-refl, arith, Option-cases, Bool-cases,
}
use mathlib.Core.Path.{subst}
use vpn_saas.Base.Int.{ℤ, pos, ◌+ℤ◌, ◌-ℤ◌, ltb_ℤ, ◌≤ℤ◌, ◌<ℤ◌, ltb_ℤ→le, int_laws}
use vpn_saas.Base.Table.{find, update, create}
use vpn_saas.Base.Table.Laws.{
  find_sound, find-create_old, find-create_new, find-update_same, find-update_other,
}
use vpn_saas.Money.{add_money, add_money_two}
use vpn_saas.Store.{Result, ok, err}
use vpn_saas.Store.Rows.{Wallet, WalletTransaction, Db}
use vpn_saas.Wallet.{
  Direction, credit, debit, WalletMutation, WalletTxnDto, to_txn_dto, by_user, new_wallet,
  wallet_of, opened, insufficient, Moved, moved, txn_of, wallet_after, recorded,
  mutate_balance_in_transaction, purse, moved_by, moved_to,
}

pub find-opened :
    (user : ℕ) (ws : List Wallet) → find (by_user user) (opened user ws) ≡ some (wallet_of user ws)
find-opened user ws = elim (Option-cases (find (by_user user) ws)) [
  | inl missing ↦
      rw missing
        (find-create_new (by_user user) (new_wallet user ws) ws missing ∙ rw (==-refl user))
  | inr (w, found) ↦ rw found found
]

-- The database after the two writes of a mutation.
abbrev pub posted : String → WalletMutation → Moved → Db → Db
posted uuid p m db =
    let w = wallet_of p.user_id db.wallets in
    record db {
      transactions = create (txn_of uuid p w.id m db.transactions) db.transactions;
      wallets = update (by_user p.user_id) (wallet_after p m w) (opened p.user_id db.wallets);
    }

abbrev pub with_wallet : ℕ → Db → Db
with_wallet user db = record db { wallets = opened user db.wallets }

module _ (uuid : String) (p : WalletMutation) (db : Db) where
  -- A payment that is already recorded: the earlier transaction is returned, nothing moves.
  pub mutate-recorded :
      {t : WalletTransaction}
      → recorded p.payment_id db.transactions ≡ some t
      → mutate_balance_in_transaction uuid p db ≡ (ok (to_txn_dto t), with_wallet p.user_id db)
  unfolding mutate_balance_in_transaction
  mutate-recorded known = rw known

  pub mutate-short :
      recorded p.payment_id db.transactions ≡ none
      → moved p (wallet_of p.user_id db.wallets) ≡ none
      → mutate_balance_in_transaction uuid p db ≡ (err insufficient, with_wallet p.user_id db)
  unfolding mutate_balance_in_transaction
  mutate-short new short = rw (new, find-opened p.user_id db.wallets) (rw short)

  pub mutate-posted :
      {m : Moved}
      → recorded p.payment_id db.transactions ≡ none
      → moved p (wallet_of p.user_id db.wallets) ≡ some m
      → mutate_balance_in_transaction uuid p db ≡ (
        ok (to_txn_dto (txn_of uuid p (wallet_of p.user_id db.wallets).id m db.transactions)),
        posted uuid p m db,
      )
  unfolding mutate_balance_in_transaction
  mutate-posted new step = rw (new, find-opened p.user_id db.wallets) (rw step)

-- By how much a mutation changes the balance that it uses.
abbrev pub signed : Direction → ℤ → ℤ
signed credit amount = amount
signed debit amount = pos 0 -ℤ amount

-- A mutation is refused exactly where it takes more than there is.
abbrev pub IsCovered : WalletMutation → Wallet → Type 0
IsCovered p w = (p.direction ≡ credit) ⊎ (p.amount ≤ℤ purse p.use_gift_balance w)

moved_by-covered :
    (d : Direction) (gift : Bool) (amount : ℤ) (w : Wallet)
    → (d ≡ credit) ⊎ (amount ≤ℤ purse gift w)
    → moved_by d gift amount w ≡ some (moved_to gift w (purse gift w +ℤ signed d amount))
moved_by-covered credit gift amount w h = ap (λ a. some (moved_to gift w a)) (add_money_two _ _)
moved_by-covered debit gift amount w (inl e) = cc
moved_by-covered debit gift amount w (inr h) =
    let less : ltb_ℤ (purse gift w) amount ≡ false = ground arith in
    let sum : purse gift w -ℤ amount ≡ purse gift w +ℤ (pos 0 -ℤ amount) = omega int_laws in
    rw less (ap (λ a. some (moved_to gift w a)) sum)

pub moved-covered :
    (p : WalletMutation) (w : Wallet)
    → IsCovered p w
    → moved p w
      ≡ some (
          moved_to p.use_gift_balance w (purse p.use_gift_balance w +ℤ signed p.direction p.amount))
unfolding moved
moved-covered p w h = moved_by-covered p.direction p.use_gift_balance p.amount w h

pub moved-short :
    (p : WalletMutation) (w : Wallet)
    → p.direction ≡ debit
    → purse p.use_gift_balance w <ℤ p.amount
    → moved p w ≡ none
unfolding moved
moved-short p w d h =
    let less : ltb_ℤ (purse p.use_gift_balance w) p.amount ≡ true = ground arith in rw d (rw less)

pub wallet_of-user : (user : ℕ) (ws : List Wallet) → by_user user (wallet_of user ws) ≡ true
wallet_of-user user ws = find_sound (by_user user) (opened user ws) (find-opened user ws)

-- The wallet's row after the writes.
pub find-posted :
    (uuid : String) (p : WalletMutation) (m : Moved) (db : Db)
    → find (by_user p.user_id) (posted uuid p m db).wallets
      ≡ some (wallet_after p m (wallet_of p.user_id db.wallets) (wallet_of p.user_id db.wallets))
find-posted uuid p m db =
    find-update_same (by_user p.user_id) (by_user p.user_id) _ (opened p.user_id db.wallets)
      (find-opened p.user_id db.wallets) (find-opened p.user_id db.wallets)
      (wallet_of-user p.user_id db.wallets)

pub find-opened_other :
    (user other : ℕ) (ws : List Wallet)
    → other ≢ user
    → find (by_user other) (opened user ws) ≡ find (by_user other) ws
find-opened_other user other ws ne = elim (Option-cases (find (by_user user) ws)) [
  | inl missing ↦ rw missing (elim (Option-cases (find (by_user other) ws)) [
    | inl none_yet ↦
        rw none_yet
          (find-create_new (by_user other) (new_wallet user ws) ws none_yet ∙ ground arith)
    | inr (v, found) ↦ rw found (find-create_old (by_user other) (new_wallet user ws) ws found)
  ])
  | inr (w, found) ↦ rw found
]

pub find-posted_other :
    (uuid : String) (p : WalletMutation) (m : Moved) (db : Db) (other : ℕ)
    → other ≢ p.user_id
    → find (by_user other) (posted uuid p m db).wallets ≡ find (by_user other) db.wallets
find-posted_other uuid p m db other ne =
    find-update_other (by_user p.user_id) (by_user other) _ (opened p.user_id db.wallets)
      (λ x e. (ground arith, ground arith))
    ∙ find-opened_other p.user_id other db.wallets ne

-- To show a property of a call, show it on its three paths.
pub mutate_paths {ℓ} :
    (P : Result WalletTxnDto × Db → Type ℓ) (uuid : String) (p : WalletMutation) (db : Db)
    → ((t : WalletTransaction) → P (ok (to_txn_dto t), with_wallet p.user_id db))
    → P (err insufficient, with_wallet p.user_id db)
    → ((m : Moved)
        → moved p (wallet_of p.user_id db.wallets) ≡ some m
        → P (
          ok (to_txn_dto (txn_of uuid p (wallet_of p.user_id db.wallets).id m db.transactions)),
          posted uuid p m db,
        ))
    → P (mutate_balance_in_transaction uuid p db)
mutate_paths P uuid p db known short post =
    elim (Option-cases (recorded p.payment_id db.transactions)) [
      | inr (t, e) ↦ subst P (sym (mutate-recorded uuid p db e)) (known t)
      | inl new ↦ elim (Option-cases (moved p (wallet_of p.user_id db.wallets))) [
        | inl e ↦ subst P (sym (mutate-short uuid p db new e)) short
        | inr (m, e) ↦ subst P (sym (mutate-posted uuid p db new e)) (post m e)
      ]
    ]

-- What a mutation makes of a balance: a sum, which is not negative where nothing negative is added.
pub record IsMove (p : WalletMutation) (w : Wallet) (m : Moved) : Type 0 where
  pub after : ℤ
  pub shape : m ≡ moved_to p.use_gift_balance w after
  pub solvent : pos 0 ≤ℤ p.amount → pos 0 ≤ℤ purse p.use_gift_balance w → pos 0 ≤ℤ after

moved_by-shape :
    (d : Direction) (gift : Bool) (amount : ℤ) (w : Wallet) {m : Moved}
    → moved_by d gift amount w ≡ some m
    → (after : ℤ) × (m ≡ moved_to gift w after)
      × (pos 0 ≤ℤ amount → pos 0 ≤ℤ purse gift w → pos 0 ≤ℤ after)
moved_by-shape credit gift amount w e = (
  add_money (purse gift w ∷ amount ∷ []),
  ground arith,
  λ h k. rw (add_money_two _ _) (omega int_laws),
)
moved_by-shape debit gift amount w e = elim (Bool-cases (ltb_ℤ (purse gift w) amount)) [
  | inl short ↦ absurd (ground arith)
  | inr covered ↦
      let enough : amount ≤ℤ purse gift w = ltb_ℤ→le (purse gift w) amount covered in
      (purse gift w -ℤ amount, ground arith, λ h k. omega int_laws)
]

pub moved-IsMove : (p : WalletMutation) (w : Wallet) {m : Moved} → moved p w ≡ some m → IsMove p w m
unfolding moved
moved-IsMove p w e =
    let (after, shape, solvent) = moved_by-shape p.direction p.use_gift_balance p.amount w e in
    record { after = after; shape = shape; solvent = solvent }
