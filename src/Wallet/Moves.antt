-- ===== src/Wallet/Moves.antt =====
-- The effects of one and of repeated calls of `mutateBalance`
-- (src/modules/wallet/wallet.service.ts).
use vpn_saas.Base.{
  ℕ, ◌≡◌, refl, ap, ◌∙◌, sym, ◌≢◌, true, not, Option, none, some, List, String, inl, inr, ==-refl,
  arith, Option-cases, Bool-cases,
}
use mathlib.Core.Path.{subst₂}
use vpn_saas.Base.Int.{ℤ, ◌+ℤ◌, ◌<ℤ◌}
use vpn_saas.Base.Table.{find, create}
use vpn_saas.Base.Table.Laws.{find-create_new}
use vpn_saas.Store.{ok, err, truthy, commit, ok-injective, ok-ne-err, commit-eq-ok}
use vpn_saas.Store.Rows.{Wallet, WalletTransaction, Db}
use vpn_saas.Wallet.{
  debit, WalletMutation, WalletTxnDto, to_txn_dto, by_user, wallet_of, opened, insufficient, Moved,
  moved, txn_of, recorded, has_payment, mutate_balance_in_transaction, mutate_balance, purse,
  moved_to,
}
use vpn_saas.Wallet.Mutation.{
  find-opened, posted, mutate-recorded, mutate-short, mutate-posted, signed, IsCovered,
  moved-covered, moved-short, find-posted, find-posted_other,
}

-- The wallet that a call works on, before it and after it.
abbrev pub before : WalletMutation → Db → Wallet
before p db = wallet_of p.user_id db.wallets

-- Everything that a successful mutation by `delta` has done, between `db` and `after`.
pub record HasMoved (p : WalletMutation) (delta : ℤ) (db after : Db) : Type 0 where
  pub moved_purse :
      purse p.use_gift_balance (before p after) ≡ purse p.use_gift_balance (before p db) +ℤ delta
  pub kept_purse :
      purse (not p.use_gift_balance) (before p after) ≡ purse (not p.use_gift_balance) (before p db)
  pub others :
      (other : ℕ)
      → other ≢ p.user_id
      → find (by_user other) after.wallets ≡ find (by_user other) db.wallets
  pub txn : WalletTransaction
  pub appended : after.transactions ≡ create txn db.transactions
  pub of_wallet : txn.wallet_id ≡ (before p db).id
  pub amount : txn.amount ≡ p.amount
  pub starts_from : txn.balance_before ≡ purse p.use_gift_balance (before p db)
  pub ends_at : txn.balance_after ≡ purse p.use_gift_balance (before p after)

moved_fields :
    (uuid : String) (p : WalletMutation) (db : Db) (a : ℤ)
    → let g = p.use_gift_balance in
      let after = posted uuid p (moved_to g (before p db) a) db in
      (purse g (before p after) ≡ a)
      × (purse (not g) (before p after) ≡ purse (not g) (before p db))
moved_fields uuid p db a =
    let g = p.use_gift_balance in
    let m = moved_to g (before p db) a in
    rw (find-posted uuid p m db)
      (elim (Bool-cases p.use_gift_balance) [ inl gift ↦ ground arith | inr main ↦ ground arith ])

-- The balance that a mutation uses, once it has moved.
abbrev pub moved_balance : WalletMutation → Db → ℤ
moved_balance p db = purse p.use_gift_balance (before p db) +ℤ signed p.direction p.amount

abbrev pub covered_move : WalletMutation → Db → Moved
covered_move p db = moved_to p.use_gift_balance (before p db) (moved_balance p db)

pub posted-HasMoved :
    (uuid : String) (p : WalletMutation) (db : Db)
    → HasMoved p (signed p.direction p.amount) db (posted uuid p (covered_move p db) db)
posted-HasMoved uuid p db =
    let fields = moved_fields uuid p db (moved_balance p db) in
    record {
      moved_purse = fields.0;
      kept_purse = fields.1;
      others = λ other ne. find-posted_other uuid p (covered_move p db) db other ne;
      txn = txn_of uuid p (before p db).id (covered_move p db) db.transactions;
      appended = refl;
      of_wallet = refl;
      amount = refl;
      starts_from = refl;
      ends_at = sym fields.0;
    }

-- A credit, or a debit that the balance covers, of no payment that is recorded already, succeeds.
-- The balance that it uses moves by exactly the signed amount, the other balance and the wallets of
-- the other users stay, and one transaction is appended, which belongs to the wallet and states the
-- amount and the balance before and after.
pub mutate_balance-HasMoved :
    (uuid : String) (p : WalletMutation) (db : Db)
    → recorded p.payment_id db.transactions ≡ none
    → IsCovered p (wallet_of p.user_id db.wallets)
    → (dto : WalletTxnDto) × (after : Db) × (mutate_balance uuid p db ≡ (ok dto, after))
      × HasMoved p (signed p.direction p.amount) db after
unfolding mutate_balance
mutate_balance-HasMoved uuid p db new covered =
    let step = moved-covered p (before p db) covered in
    let t = txn_of uuid p (before p db).id (covered_move p db) db.transactions in
    (
      to_txn_dto t,
      posted uuid p (covered_move p db) db,
      ap (λ r. commit r db) (mutate-posted uuid p db new step),
      posted-HasMoved uuid p db,
    )

-- A debit of more than the balance holds, of no payment that is recorded already, throws
-- `WALLET_INSUFFICIENT_FUNDS` and leaves the whole database as it was.
mutate_balance_refused :
    (uuid : String) (p : WalletMutation) (db : Db)
    → recorded p.payment_id db.transactions ≡ none
    → p.direction ≡ debit
    → purse p.use_gift_balance (wallet_of p.user_id db.wallets) <ℤ p.amount
    → mutate_balance uuid p db ≡ (err insufficient, db)
unfolding mutate_balance
mutate_balance_refused uuid p db new d short =
    ap (λ r. commit r db) (mutate-short uuid p db new (moved-short p (before p db) d short))

opened-opened : (user : ℕ) (ws : List Wallet) → opened user (opened user ws) ≡ opened user ws
opened-opened user ws = rw (find-opened user ws)

truthy-some : (o : Option ℕ) (k : ℕ) → truthy o ≡ some k → o ≡ some k
truthy-some none k e = cc
truthy-some (some n) k e = ground arith

posted-recorded :
    (uuid : String) (p : WalletMutation) (m : Moved) (db : Db) (k : ℕ)
    → truthy p.payment_id ≡ some k
    → recorded p.payment_id db.transactions ≡ none
    → recorded p.payment_id (posted uuid p m db).transactions
      ≡ some (txn_of uuid p (wallet_of p.user_id db.wallets).id m db.transactions)
posted-recorded uuid p m db k e new =
    let t = txn_of uuid p (wallet_of p.user_id db.wallets).id m db.transactions in
    let unknown : find (has_payment k) db.transactions ≡ none = rw e at new in
    let paid : has_payment k t ≡ true = rw (truthy-some p.payment_id k e) (==-refl k) in
    rw e (find-create_new (has_payment k) t db.transactions unknown ∙ rw paid)

-- What a successful call for a payment leaves behind.
record IsSettled (p : WalletMutation) (dto : WalletTxnDto) (after : Db) : Type 0 where
  t : WalletTransaction
  known : recorded p.payment_id after.transactions ≡ some t
  returned : to_txn_dto t ≡ dto
  has_wallet : opened p.user_id after.wallets ≡ after.wallets

pub posted-opened :
    (uuid : String) (p : WalletMutation) (m : Moved) (db : Db)
    → opened p.user_id (posted uuid p m db).wallets ≡ (posted uuid p m db).wallets
posted-opened uuid p m db = rw (find-posted uuid p m db)

module _ (uuid : String) (p : WalletMutation) (db after : Db) (dto : WalletTxnDto) where
  IsSettled-again :
      {t : WalletTransaction}
      → recorded p.payment_id db.transactions ≡ some t
      → mutate_balance uuid p db ≡ (ok dto, after)
      → IsSettled p dto after
  unfolding mutate_balance
  IsSettled-again {t} known run =
      let (same_dto, same_db) =
        ok-injective (sym (mutate-recorded uuid p db known) ∙ commit-eq-ok _ db run) in
      subst₂ (IsSettled p) same_dto same_db (record {
        t = t;
        known = known;
        returned = refl;
        has_wallet = opened-opened p.user_id db.wallets;
      })

  IsSettled-first :
      {k : ℕ}
      → truthy p.payment_id ≡ some k
      → recorded p.payment_id db.transactions ≡ none
      → mutate_balance uuid p db ≡ (ok dto, after)
      → IsSettled p dto after
  unfolding mutate_balance
  IsSettled-first {k} e new run = elim (Option-cases (moved p (wallet_of p.user_id db.wallets))) [
    | inl short ↦
        absurd (ok-ne-err (sym (mutate-short uuid p db new short) ∙ commit-eq-ok _ db run))
    | inr (m, step) ↦
        let (same_dto, same_db) =
          ok-injective (sym (mutate-posted uuid p db new step) ∙ commit-eq-ok _ db run) in
        subst₂ (IsSettled p) same_dto same_db (record {
          t = txn_of uuid p (wallet_of p.user_id db.wallets).id m db.transactions;
          known = posted-recorded uuid p m db k e new;
          returned = refl;
          has_wallet = posted-opened uuid p m db;
        })
  ]

-- However often a payment is settled, its money moves once: after a successful call with a payment
-- whose id is not 0,
-- another call for the same payment and user, whatever else it asks for, returns the same
-- transaction and changes nothing.
pub mutate_balance_once :
    (uuid uuid' : String) (p p' : WalletMutation) (db after : Db) {k : ℕ} {dto : WalletTxnDto}
    → truthy p.payment_id ≡ some k
    → p'.payment_id ≡ p.payment_id
    → p'.user_id ≡ p.user_id
    → mutate_balance uuid p db ≡ (ok dto, after)
    → mutate_balance uuid' p' after ≡ (ok dto, after)
unfolding mutate_balance
mutate_balance_once uuid uuid' p p' db after {dto} e same user run =
    let s : IsSettled p dto after = elim (Option-cases (recorded p.payment_id db.transactions)) [
      | inl new ↦ IsSettled-first uuid p db after dto e new run
      | inr (t, known) ↦ IsSettled-again uuid p db after dto known run
    ] in
    let again : mutate_balance_in_transaction uuid' p' after ≡ (ok dto, after) =
      mutate-recorded uuid' p' after {t = s.t} (rw same s.known)
      ∙ rw (user, s.has_wallet) (rw s.returned) in
    ap (λ r. commit r after) again
