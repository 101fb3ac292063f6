-- ===== src/Wallet/Ledger/Posting.antt =====
-- What the transactions of a wallet have moved, and the posting of one with its move
-- (src/modules/wallet/wallet.service.ts).
use vpn_saas.Base.{
  ℕ, ◌≡◌, refl, ap, ◌∙◌, sym, ◌≢◌, Bool, true, false, none, some, List, [], ◌∷◌, inl, inr, All,
  ◌==◌, ==_iff, arith, if◌then◌else◌, Option-cases, Bool-cases,
}
use mathlib.Core.Path.{subst}
use vpn_saas.Base.Int.{ℤ, pos, ◌+ℤ◌, ◌-ℤ◌, +ℤ-zero, int_laws}
use vpn_saas.Base.Table.{find, update, create}
use vpn_saas.Base.Table.Laws.{
  find-cons, find_sound, find-create_old, All-create, All-find, All-update,
}
use vpn_saas.Store.{find-fresh_id}
use vpn_saas.Store.Rows.{Wallet, WalletTransaction}
use vpn_saas.Wallet.{by_user, new_wallet, opened}

abbrev pub funds : Wallet → ℤ
funds w = w.balance +ℤ w.gift_balance

abbrev pub change : WalletTransaction → ℤ
change t = t.balance_after -ℤ t.balance_before

-- What the transactions of one wallet have moved.
abbrev pub ledger : ℕ → List WalletTransaction → ℤ
ledger id [] = pos 0
ledger id (t ∷ ts) = if t.wallet_id == id then change t +ℤ ledger id ts else ledger id ts

abbrev pub has_wallet_id : ℕ → Wallet → Bool
has_wallet_id id w = w.id == id

-- No two rows share an id.
abbrev pub Distinct : List Wallet → Type 0
Distinct [] = Unit
Distinct (w ∷ ws) = All (λ v. v.id ≢ w.id) ws × Distinct ws

abbrev pub IsBalanced : List WalletTransaction → Wallet → Type 0
IsBalanced ts w = funds w ≡ ledger w.id ts

abbrev pub IsLinked : List Wallet → WalletTransaction → Type 0
IsLinked ws t = (w : Wallet) × (find (has_wallet_id t.wallet_id) ws ≡ some w)

-- Every wallet holds what its transactions have moved; ids are distinct; and every transaction
-- belongs to a wallet.
pub record IsLedger (ws : List Wallet) (ts : List WalletTransaction) : Type 0 where
  pub balanced : All (IsBalanced ts) ws
  pub distinct : Distinct ws
  pub linked : All (IsLinked ws) ts

ledger-create :
    (id : ℕ) (t : WalletTransaction) (ts : List WalletTransaction)
    → ledger id (create t ts) ≡ ledger id ts +ℤ (if t.wallet_id == id then change t else pos 0)
ledger-create id t [] = elim (Bool-cases (t.wallet_id == id)) [
  | inl e ↦ rw e (omega int_laws)
  | inr e ↦ rw e (omega int_laws)
]
ledger-create id t (s ∷ ts) = elim (Bool-cases (s.wallet_id == id)) [
  | inl e ↦ rw e (rw (ledger-create id t ts) (omega int_laws))
  | inr e ↦ rw e (ledger-create id t ts)
]

ledger_unlinked :
    (id : ℕ) (ws : List Wallet) (ts : List WalletTransaction)
    → find (has_wallet_id id) ws ≡ none
    → All (IsLinked ws) ts
    → ledger id ts ≡ pos 0
ledger_unlinked id ws [] free h = refl
ledger_unlinked id ws (t ∷ ts) free ((w, link), h) = elim (Bool-cases (t.wallet_id == id)) [
  | inl e ↦
      let same : t.wallet_id ≡ id = ground arith in
      let linked : find (has_wallet_id id) ws ≡ some w = rw same at link in absurd (cc)
  | inr e ↦ rw e (ledger_unlinked id ws ts free h)
]

Distinct-create :
    (w : Wallet) (ws : List Wallet)
    → Distinct ws
    → find (has_wallet_id w.id) ws ≡ none
    → Distinct (create w ws)
Distinct-create w [] d free = (tt, tt)
Distinct-create w (v ∷ vs) (apart, d) free =
    let differs : (v.id == w.id) ≡ false = ground arith in
    let rest : find (has_wallet_id w.id) vs ≡ none = rw differs at free in
    (
      All-create (λ u. u.id ≢ v.id) w vs apart (λ e. absurd (ground arith)),
      Distinct-create w vs d rest,
    )

All-map {ℓ κ} :
    {A : Type 0} (P : A → Type ℓ) (Q : A → Type κ) (xs : List A)
    → ((x : A) → P x → Q x)
    → All P xs
    → All Q xs
All-map P Q [] f h = tt
All-map P Q (x ∷ xs) f (px, h) = (f x px, All-map P Q xs f h)

-- A new wallet joins the ledger.
pub opened-IsLedger :
    (user : ℕ) (ws : List Wallet) (ts : List WalletTransaction)
    → IsLedger ws ts
    → IsLedger (opened user ws) ts
opened-IsLedger user ws ts h = elim (Option-cases (find (by_user user) ws)) [
  | inr (w, found) ↦ rw found h
  | inl missing ↦
      let w = new_wallet user ws in
      let free = find-fresh_id (λ (v : Wallet). v.id) ws in
      rw missing (record {
        balanced =
            All-create (IsBalanced ts) w ws h.balanced
              (rw (ledger_unlinked w.id ws ts free h.linked) (omega int_laws));
        distinct = Distinct-create w ws h.distinct free;
        linked =
            All-map (IsLinked ws) (IsLinked (create w ws)) ts
              (λ t (v, e). (v, find-create_old (has_wallet_id t.wallet_id) w ws e)) h.linked;
      })
]

-- A transaction of another wallet leaves a wallet balanced.
IsBalanced-other :
    (t : WalletTransaction) (ts : List WalletTransaction) (w : Wallet)
    → w.id ≢ t.wallet_id
    → IsBalanced ts w
    → IsBalanced (create t ts) w
IsBalanced-other t ts w ne b =
    let differs : (t.wallet_id == w.id) ≡ false = ground arith in
    rw (ledger-create w.id t ts) (rw differs (b ∙ sym (+ℤ-zero _)))

module _ (t : WalletTransaction) (ts : List WalletTransaction) where
  others-IsBalanced :
      (id : ℕ) (ws : List Wallet)
      → id ≡ t.wallet_id
      → All (λ v. v.id ≢ id) ws
      → All (IsBalanced ts) ws
      → All (IsBalanced (create t ts)) ws
  others-IsBalanced id [] e apart b = tt
  others-IsBalanced id (w ∷ ws) e (ne, apart) (bw, b) =
      (IsBalanced-other t ts w (rw (← e) ne) bw, others-IsBalanced id ws e apart b)

  -- The wallet of the transaction moves by what the transaction states, and stays balanced with
  -- all the others.
  update-IsBalanced :
      (p : Wallet → Bool) (f : Wallet → Wallet) (ws : List Wallet) {w : Wallet}
      → find p ws ≡ some w
      → w.id ≡ t.wallet_id
      → (f w).id ≡ w.id
      → funds (f w) ≡ funds w +ℤ change t
      → Distinct ws
      → All (IsBalanced ts) ws
      → All (IsBalanced (create t ts)) (update p f ws)
  update-IsBalanced p f [] found e keep moves d b = cc
  update-IsBalanced p f (v ∷ vs) {w} found e keep moves (apart, d) (bv, b) =
      elim (Bool-cases (p v)) [
        | inl here ↦
            let same : v ≡ w = find-cons p v vs here found in
            let bw : IsBalanced ts w = subst (IsBalanced ts) same bv in
            let test : (t.wallet_id == w.id) ≡ true = ground arith in
            let moved_w : IsBalanced (create t ts) (f w) =
              moves ∙ rw (keep, ledger-create w.id t ts, test) (ap (λ a. a +ℤ change t) bw) in
            rw here (
              subst (λ u. IsBalanced (create t ts) (f u)) (sym same) moved_w,
              others-IsBalanced v.id vs (ap (λ (u : Wallet). u.id) same ∙ e) apart b,
            )
        | inr there ↦
            let later : find p vs ≡ some w = rw there at found in
            let ne : v.id ≢ t.wallet_id =
              λ q. All-find (λ u. u.id ≢ v.id) p vs apart later (e ∙ sym q) in
            rw there
              (IsBalanced-other t ts v ne bv, update-IsBalanced p f vs later e keep moves d b)
      ]

  update-Distinct :
      (p : Wallet → Bool) (f : Wallet → Wallet) (ws : List Wallet)
      → ((v : Wallet) → (f v).id ≡ v.id)
      → Distinct ws
      → Distinct (update p f ws)
  update-Distinct p f [] keep d = tt
  update-Distinct p f (v ∷ vs) keep (apart, d) = elim (Bool-cases (p v)) [
    | inl here ↦ rw here (rw (keep v) apart, d)
    | inr there ↦ rw there (
      All-update (λ u. u.id ≢ v.id) p f vs (λ u ne at. rw (keep u) ne) apart,
      update-Distinct p f vs keep d,
    )
  ]

find-update_id :
    (p : Wallet → Bool) (f : Wallet → Wallet) (id : ℕ) (ws : List Wallet) {w : Wallet}
    → ((v : Wallet) → (f v).id ≡ v.id)
    → find (has_wallet_id id) ws ≡ some w
    → (v : Wallet) × (find (has_wallet_id id) (update p f ws) ≡ some v)
find-update_id p f id [] keep e = cc
find-update_id p f id (v ∷ vs) {w} keep e = elim (Bool-cases (p v)) [
  | inl here ↦ elim (Bool-cases (v.id == id)) [
    | inl same ↦ (f v, rw here (rw (keep v, same)))
    | inr differs ↦ (w, rw here (rw (keep v, differs) (rw differs at e)))
  ]
  | inr there ↦ elim (Bool-cases (v.id == id)) [
    | inl same ↦ (v, rw there (rw same))
    | inr differs ↦
        let (u, rest) = find-update_id p f id vs keep (rw differs at e) in
        (u, rw there (rw differs rest))
  ]
]

-- A transaction and the move of its wallet that it states keep the ledger.
pub posted-IsLedger :
    (t : WalletTransaction) (ts : List WalletTransaction) (ws : List Wallet) (p : Wallet → Bool)
    (f : Wallet → Wallet) {w : Wallet}
    → find p ws ≡ some w
    → find (has_wallet_id t.wallet_id) ws ≡ some w
    → ((v : Wallet) → (f v).id ≡ v.id)
    → funds (f w) ≡ funds w +ℤ change t
    → IsLedger ws ts
    → IsLedger (update p f ws) (create t ts)
posted-IsLedger t ts ws p f {w} found owner keep moves h =
    let e : w.id ≡ t.wallet_id = (==_iff _ _).0 (find_sound (has_wallet_id t.wallet_id) ws owner) in
    record {
      balanced = update-IsBalanced t ts p f ws found e (keep w) moves h.distinct h.balanced;
      distinct = update-Distinct t ts p f ws keep h.distinct;
      linked =
          All-create (IsLinked (update p f ws)) t ts
            (All-map (IsLinked ws) (IsLinked (update p f ws)) ts
              (λ s (v, link). find-update_id p f s.wallet_id ws keep link) h.linked)
            (find-update_id p f t.wallet_id ws keep owner);
    }
