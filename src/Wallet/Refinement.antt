-- ===== src/Wallet/Refinement.antt =====
-- `mutateBalance` (src/modules/wallet/wallet.service.ts) and the accounts of Wallet.Accounts.
use vpn_saas.Base.{
  ℕ, ◌≡◌, refl, sym, ◌∙◌, ap, ◌≢◌, Bool, true, false, ◌||◌, Option, none, some, String, List, [],
  ◌∷◌, inl, inr, ◌==◌, ==_iff, arith, Option-cases, Bool-cases,
}
use vpn_saas.Base.Int.{ℤ, ltb_ℤ}
use vpn_saas.Base.Table.{find, create}
use vpn_saas.Base.Table.Laws.{find-create_old, find-create_new}
use vpn_saas.Money.{add_money_two}
use vpn_saas.Store.{Result, truthy, same_id, is_some}
use vpn_saas.Store.Rows.{Wallet, WalletTransaction, Db}
use vpn_saas.Wallet.{
  Direction, credit, debit, WalletMutation, WalletTxnDto, by_user, wallet_of, opened, Moved, moved,
  moved_by, recorded, with_payment, has_payment, mutate_balance,
}
use vpn_saas.Wallet.Accounts.{
  Account, Bank, account, view, move, entered, is_settled, request, is_ok,
}
use vpn_saas.Wallet.Mutation.{
  find-opened, find-opened_other, posted, with_wallet, mutate-recorded, mutate-short, mutate-posted,
  find-posted, find-posted_other,
}

bank_ext :
    (b c : Bank)
    → ((user : ℕ) → b.accounts user ≡ c.accounts user)
    → ((payment : ℕ) → b.settled payment ≡ c.settled payment)
    → b ≡ c
bank_ext b c h k i = record { accounts = λ user. h user i; settled = λ payment. k payment i }

-- A wallet that is opened is empty.
account-opened :
    (user other : ℕ) (ws : List Wallet)
    → account (wallet_of other (opened user ws)) ≡ account (wallet_of other ws)
account-opened user other ws = elim (Bool-cases (other == user)) [
  | inl same ↦
      let here : other ≡ user = (==_iff other user).0 same in
      rw here (rw (find-opened user ws) refl)
  | inr apart ↦
      let ne : other ≢ user = λ e. ground arith in
      rw (find-opened_other user other ws ne) (elim (Option-cases (find (by_user other) ws)) [
        | inl missing ↦ rw missing refl
        | inr (w, found) ↦ rw found refl
      ])
]

view-opened : (user : ℕ) (db : Db) → view (with_wallet user db) ≡ view db
view-opened user db =
    bank_ext (view (with_wallet user db)) (view db) (λ other. account-opened user other db.wallets)
      (λ payment. refl)

-- The balances that a mutation computes are those of the account.
abbrev account_of : Option Moved → Option Account
account_of none = none
account_of (some m) = some (record { main = m.main; gift = m.gift })

moved_by-move :
    (d : Direction) (gift : Bool) (amount : ℤ) (w : Wallet)
    → account_of (moved_by d gift amount w) ≡ move d gift amount (account w)
moved_by-move credit true amount w = rw (add_money_two w.gift_balance amount) refl
moved_by-move credit false amount w = rw (add_money_two w.balance amount) refl
moved_by-move debit true amount w = elim (Bool-cases (ltb_ℤ w.gift_balance amount)) [
  | inl short ↦ rw short refl
  | inr covered ↦ rw covered refl
]
moved_by-move debit false amount w = elim (Bool-cases (ltb_ℤ w.balance amount)) [
  | inl short ↦ rw short refl
  | inr covered ↦ rw covered refl
]

moved-move :
    (p : WalletMutation) (w : Wallet)
    → account_of (moved p w) ≡ move p.direction p.use_gift_balance p.amount (account w)
unfolding moved
moved-move p w = moved_by-move p.direction p.use_gift_balance p.amount w

settled-create :
    (payment : ℕ) (t : WalletTransaction) (ts : List WalletTransaction)
    → is_some (find (has_payment payment) (create t ts))
      ≡ (is_some (find (has_payment payment) ts) || same_id t.payment_id payment)
settled-create payment t ts = elim (Option-cases (find (has_payment payment) ts)) [
  | inr (s, found) ↦ rw (found, find-create_old (has_payment payment) t ts found) refl
  | inl missing ↦
      rw (missing, find-create_new (has_payment payment) t ts missing)
        (elim (Bool-cases (same_id t.payment_id payment)) [
          | inl hit ↦ rw hit refl
          | inr miss ↦ rw miss refl
        ])
]

settled-recorded :
    (payment : Option ℕ) (db : Db)
    → is_settled payment (view db) ≡ is_some (with_payment payment db.transactions)
settled-recorded none db = refl
settled-recorded (some k) db = refl

-- The rows that a granted movement leaves are the accounts that the specification enters.
view-posted :
    (uuid : String) (p : WalletMutation) (db : Db) (m : Moved)
    → view (posted uuid p m db)
      ≡ (entered p (some (record { main = m.main; gift = m.gift })) (view db)).1
view-posted uuid p db m =
    bank_ext _ _
      (λ user. elim (Bool-cases (user == p.user_id)) [
        | inl same ↦
            let here : user ≡ p.user_id = (==_iff user p.user_id).0 same in
            rw same (rw here (rw (find-posted uuid p m db) refl))
        | inr apart ↦
            let ne : user ≢ p.user_id = λ e. ground arith in
            rw apart (
              rw (find-posted_other uuid p m db user ne)
                (elim (Option-cases (find (by_user user) db.wallets)) [
                  | inl missing ↦ rw missing refl
                  | inr (w, found) ↦ rw found refl
                ]))
      ])
      (λ payment. settled-create payment _ db.transactions)

-- What a call shows of itself: whether it was granted, and the accounts after it.
abbrev pub observed : Result WalletTxnDto × Db → Bool × Bank
observed r = (is_ok r.0, view r.1)

mutate_balance-request :
    (uuid : String) (p : WalletMutation) (db : Db)
    → observed (mutate_balance uuid p db) ≡ request p (view db)
unfolding mutate_balance
mutate_balance-request uuid p db =
    let moves = moved-move p (wallet_of p.user_id db.wallets) in
    elim (Option-cases (recorded p.payment_id db.transactions)) [
      | inr (t, known) ↦
          let settled : is_settled (truthy p.payment_id) (view db) ≡ true =
            settled-recorded (truthy p.payment_id) db ∙ rw known refl in
          rw (mutate-recorded uuid p db known)
            (rw settled (ap (λ b. (true, b)) (view-opened p.user_id db)))
      | inl new ↦
          let free : is_settled (truthy p.payment_id) (view db) ≡ false =
            settled-recorded (truthy p.payment_id) db ∙ rw new refl in
          elim (Option-cases (moved p (wallet_of p.user_id db.wallets))) [
            | inl short ↦
                let refused = sym moves ∙ ap account_of short in
                rw (mutate-short uuid p db new short) (rw (free, refused) refl)
            | inr (m, moves_to) ↦
                let granted = sym moves ∙ ap account_of moves_to in
                rw (mutate-posted uuid p db new moves_to)
                  (rw (free, granted) (ap (λ b. (true, b)) (view-posted uuid p db m)))
          ]
    ]

-- One call after another, each with the public id that it draws; and one request after another.
unfoldable pub calls : List (String × WalletMutation) → Db → List Bool × Db
calls [] db = ([], db)
calls ((uuid, p) ∷ ps) db =
    let r = mutate_balance uuid p db in let rest = calls ps r.1 in (is_ok r.0 ∷ rest.0, rest.1)

unfoldable pub requests : List (String × WalletMutation) → Bank → List Bool × Bank
requests [] b = ([], b)
requests ((uuid, p) ∷ ps) b =
    let r = request p b in let rest = requests ps r.1 in (r.0 ∷ rest.0, rest.1)

-- Whatever calls of `mutateBalance` are made, one after the other, on whatever rows: they are
-- granted and refused as the same requests are to a bank that keeps two balances for each user and
-- the payments it has settled, and the balances and the settled payments that the rows then show
-- are the bank's.
pub calls-requests :
    (ps : List (String × WalletMutation)) (db : Db)
    → ((calls ps db).0 ≡ (requests ps (view db)).0)
      × (view (calls ps db).1 ≡ (requests ps (view db)).1)
unfolding calls requests
calls-requests [] db = (refl, refl)
calls-requests ((uuid, p) ∷ ps) db =
    let r = mutate_balance uuid p db in
    let step = mutate_balance-request uuid p db in
    let rest = calls-requests ps r.1 in
    let next : view r.1 ≡ (request p (view db)).1 = ap (λ (o : Bool × Bank). o.1) step in
    let answer : is_ok r.0 ≡ (request p (view db)).0 = ap (λ (o : Bool × Bank). o.0) step in
    (rw (answer, rest.0) (rw next refl), rest.1 ∙ ap (λ b. (requests ps b).1) next)
