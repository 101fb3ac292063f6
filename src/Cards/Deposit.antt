-- ===== src/Cards/Deposit.antt =====
-- The card that a user transfers to (`listActive` and `getDepositCard` of
-- src/modules/payments/bank-cards.service.ts).
use vpn_saas.Base.{
  Bool, ◌&&◌, ◌||◌, not, Option, none, some, List, [], ◌∷◌, ◌≡◌, refl, leb, inl, inr, Bool-cases,
  if◌then◌else◌,
}
use vpn_saas.Base.Table.{find, find_many}
use vpn_saas.Base.Table.Laws.{find_many-found}
use vpn_saas.Store.{Action, pure, gets, ok, ◌>>=◌}
use vpn_saas.Store.Rows.{Db}
use vpn_saas.Store.Rows.Cards.{BankCard}

abbrev pub is_active : BankCard → Bool
is_active c = c.is_active

-- The first of two cards in the order of the active list.
abbrev pub comes_first : BankCard → BankCard → Bool
comes_first c d =
    (c.is_default && not d.is_default)
    || ((c.is_default || not d.is_default) && leb c.sort_order d.sort_order)

abbrev pub insert_card : BankCard → List BankCard → List BankCard
insert_card c [] = c ∷ []
insert_card c (d ∷ ds) = if comes_first c d then c ∷ d ∷ ds else d ∷ insert_card c ds

abbrev pub in_order : List BankCard → List BankCard
in_order [] = []
in_order (c ∷ cs) = insert_card c (in_order cs)

abbrev pub first_of : List BankCard → Option BankCard
first_of [] = none
first_of (c ∷ cs) = some c

unfoldable pub list_active : Action (List BankCard)
list_active = gets (λ db. in_order (find_many is_active db.bank_cards))

unfoldable pub get_deposit_card : Action (Option BankCard)
unfolding list_active
get_deposit_card = do cards ← list_active; pure (first_of cards)

insert_card-first :
    (c : BankCard) (cs : List BankCard) → (d : BankCard) × (first_of (insert_card c cs) ≡ some d)
insert_card-first c [] = (c, refl)
insert_card-first c (d ∷ ds) = elim (Bool-cases (comes_first c d)) [
  | inl before ↦ (c, rw before refl)
  | inr after ↦ (d, rw after refl)
]

in_order-first :
    (cs : List BankCard) {c : BankCard}
    → find is_active cs ≡ some c
    → (d : BankCard) × (first_of (in_order (find_many is_active cs)) ≡ some d)
in_order-first cs e =
    let (x, xs, listed) = find_many-found is_active cs e in
    rw listed (insert_card-first x (in_order xs))

-- Where some card is active, there is one to transfer to.
pub get_deposit_card-found :
    (db : Db) {c : BankCard}
    → find is_active db.bank_cards ≡ some c
    → (d : BankCard) × (get_deposit_card db ≡ (ok (some d), db))
unfolding get_deposit_card
get_deposit_card-found db e = let (d, first) = in_order-first db.bank_cards e in (d, rw first refl)
