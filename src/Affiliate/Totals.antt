-- ===== src/Affiliate/Totals.antt =====
-- The totals of the affiliates' accounts over the calls of the service
-- (src/modules/affiliate/affiliate.service.ts).
use vpn_saas.Base.{
  ℕ, ◌/◌, ◌%◌, ◌==◌, ◌≡◌, refl, sym, not, some, String, List, [], ◌∷◌, str_eq, All, inl, inr,
  Bool-cases, Option-cases,
}
use mathlib.Core.Path.{subst}
use vpn_saas.Base.Int.{ℤ, pos, ltb_ℤ, ◌+ℤ◌, ◌-ℤ◌, int_laws}
use vpn_saas.Base.Table.{find, find_many, update, update_many}
use vpn_saas.Base.Table.Laws.{All-create, All-update}
use vpn_saas.Store.{resume_leads, commit, pure, is_none, is_some}
use vpn_saas.Store.Rows.{Db}
use vpn_saas.Store.Rows.Partners.{AffiliateAccount}
use vpn_saas.Wallet.{WalletMutation, mutate_balance}
use vpn_saas.Money.{from_minor}
use vpn_saas.Wallet.Mutation.{mutate_paths}
use vpn_saas.Affiliate.{
  has_code, same_pair, is_none_due, is_due, is_in, settled, payout_move, AccountUpdate,
  ReferralInput, has_id, of_user, new_account, changed, earned, withdrawn, total_of, commission_of,
  apply, update_account, process_referral, payout,
}

-- The calls, with the texts that each draws.
pub data Call : Type 0 where
  to_apply : String → ℕ → Call
  to_update : ℕ → AccountUpdate → Call
  to_process : ReferralInput → Call
  to_pay_out : String → ℕ → ℕ → List ℕ → Call

unfoldable pub perform : (ℕ → String) → Call → Db → Db
unfolding apply update_account process_referral payout
perform show (to_apply code user) db = (apply code user db).1
perform show (to_update id input) db = (update_account id input db).1
perform show (to_process input) db = (process_referral input db).1
perform show (to_pay_out uuid now user ids) db = (payout show uuid now user ids db).1

unfoldable pub history : (ℕ → String) → List Call → Db → Db
unfolding perform
history show [] db = db
history show (c ∷ cs) db = history show cs (perform show c db)

abbrev pub IsEven : AffiliateAccount → Type 0
IsEven a = a.total_earnings ≡ a.available_balance +ℤ a.withdrawn_amount

abbrev Holds : Db → Type 0
Holds db = All IsEven db.affiliates

apply-Holds : (code : String) (user : ℕ) (db : Db) → Holds db → Holds (apply code user db).1
unfolding apply
apply-Holds code user db even = elim (Bool-cases (is_some (find (of_user user) db.affiliates))) [
  | inl member ↦ rw member even
  | inr new ↦ elim (Bool-cases (is_some (find (has_code code) db.affiliates))) [
    | inl taken ↦ rw (new, taken) even
    | inr free ↦
        rw (new, free)
          (All-create IsEven (new_account code user db.affiliates) db.affiliates even
            (omega int_laws))
  ]
]

update_account-Holds :
    (id : ℕ) (input : AccountUpdate) (db : Db) → Holds db → Holds (update_account id input db).1
unfolding update_account
update_account-Holds id input db even =
    elim (Bool-cases (is_none (find (has_id id) db.affiliates))) [
      | inl missing ↦ rw missing even
      | inr there ↦
          rw there (All-update IsEven (has_id id) (changed input) db.affiliates (λ a k hit. k) even)
    ]

add_both : (t v w c : ℤ) → t ≡ v +ℤ w → t +ℤ c ≡ v +ℤ c +ℤ w
add_both t v w c e = rw e (omega int_laws)

move_over : (t v w c : ℤ) → t ≡ v +ℤ w → t ≡ v -ℤ c +ℤ (w +ℤ c)
move_over t v w c e = rw e (omega int_laws)

earned-IsEven : (commission : ℤ) (a : AffiliateAccount) → IsEven a → IsEven (earned commission a)
earned-IsEven commission a k =
    add_both a.total_earnings a.available_balance a.withdrawn_amount commission k

withdrawn-IsEven : (total : ℤ) (a : AffiliateAccount) → IsEven a → IsEven (withdrawn total a)
withdrawn-IsEven total a k =
    move_over a.total_earnings a.available_balance a.withdrawn_amount total k

process_referral-Holds :
    (input : ReferralInput) (db : Db) → Holds db → Holds (process_referral input db).1
unfolding process_referral
process_referral-Holds input db even =
    elim (Option-cases (find (of_user input.referrer_id) db.affiliates)) [
      | inl nobody ↦ elim (Bool-cases (is_some (find (same_pair input) db.referrals))) [
        | inl known ↦ rw nobody (rw known even)
        | inr new ↦ rw nobody (rw new even)
      ]
      | inr (a, found) ↦ elim (Bool-cases (not (a.commission_rate % 100 == 0))) [
        | inl fraction ↦ rw found (rw fraction even)
        | inr whole ↦ elim (Bool-cases (is_some (find (same_pair input) db.referrals))) [
          | inl known ↦ rw found (rw (whole, known) even)
          | inr new ↦
              let commission =
                commission_of (some a) (a.commission_rate / 100) input.amount_minor in
              elim (Bool-cases (ltb_ℤ (pos 0) commission)) [
                | inl some_due ↦ rw found (
                    rw (whole, new)
                      (rw some_due (
                        All-update IsEven (has_id a.id) (earned commission) db.affiliates
                          (λ x k hit. earned-IsEven commission x k) even)))
                | inr no_due ↦ rw found (rw (whole, new) (rw no_due even))
              ]
        ]
      ]
    ]

mutate_balance-affiliates :
    (uuid : String) (p : WalletMutation) (db : Db)
    → (mutate_balance uuid p db).1.affiliates ≡ db.affiliates
unfolding mutate_balance
mutate_balance-affiliates uuid p db =
    mutate_paths (λ r. (commit r db).1.affiliates ≡ db.affiliates) uuid p db (λ t. refl) refl
      (λ m e. refl)

payout-Holds :
    (show : ℕ → String) (uuid : String) (now user : ℕ) (ids : List ℕ) (db : Db)
    → Holds db
    → Holds (payout show uuid now user ids db).1
unfolding payout
payout-Holds show uuid now user ids db even =
    elim (Option-cases (find (of_user user) db.affiliates)) [
      | inl nobody ↦ rw nobody even
      | inr (a, found) ↦ elim (Bool-cases (not (str_eq a.status "ACTIVE"))) [
        | inl idle ↦ rw found (rw idle even)
        | inr active ↦
            elim (Bool-cases (is_none_due (find_many (is_due ids a.id) db.commissions))) [
              | inl nothing ↦ rw found (rw active (rw nothing even))
              | inr some_due ↦
                  let due = find_many (is_due ids a.id) db.commissions in
                  let after = record db {
                    commissions = update_many (λ c. is_in ids c.id) (settled now) db.commissions;
                    affiliates = update (has_id a.id) (withdrawn (total_of due)) db.affiliates;
                  } in
                  let p = payout_move show user a (total_of due) in
                  rw found (
                    rw active (
                      rw some_due (
                        resume_leads Holds Holds (mutate_balance uuid p after)
                          (λ d. pure (from_minor (total_of due)))
                          (subst (All IsEven) (sym (mutate_balance-affiliates uuid p after)) (
                            All-update IsEven (has_id a.id) (withdrawn (total_of due)) db.affiliates
                              (λ x k hit. withdrawn-IsEven (total_of due) x k) even))
                          (λ s h. h) (λ d s h. h))))
            ]
      ]
    ]

-- Whatever accounts are opened and changed, referrals processed and commissions paid out, and
-- however each call ends: where every affiliate's total earnings are the available balance and the
-- withdrawn amount together, they still are.
pub history-IsEven :
    (show : ℕ → String) (calls : List Call) (db : Db)
    → All IsEven db.affiliates
    → All IsEven (history show calls db).affiliates
unfolding history perform
history-IsEven show [] db even = even
history-IsEven show (to_apply code user ∷ cs) db even =
    history-IsEven show cs _ (apply-Holds code user db even)
history-IsEven show (to_update id input ∷ cs) db even =
    history-IsEven show cs _ (update_account-Holds id input db even)
history-IsEven show (to_process input ∷ cs) db even =
    history-IsEven show cs _ (process_referral-Holds input db even)
history-IsEven show (to_pay_out uuid now user ids ∷ cs) db even =
    history-IsEven show cs _ (payout-Holds show uuid now user ids db even)
