-- ===== src/Cards.antt =====
-- BankCardsService (src/modules/payments/bank-cards.service.ts): the cards that users pay to.
-- `upper` stands for `toUpperCase`, `uuid` for the public id that the database draws. The cache of
-- the active cards is left out, so that `getDepositCard` reads the table.
pub mod Luhn
pub mod Defaults
pub mod Deposit
mod Numbers
unfoldable pub use Numbers.*
use vpn_saas.Base.{
  ℕ, suc, ◌+◌, ◌-◌, ◌*◌, ◌%◌, Bool, true, false, ◌&&◌, ◌||◌, not, Option, none, some, String, List,
  [], ◌∷◌, ltb, leb, ◌==◌, str_eq, if◌then◌else◌, length,
}
use Prim.Native.String.{◌++◌ as text_append}
use vpn_saas.Base.Texts.{
  is_digit, digit_value, all_digits, without_separators, reversed, trim, within,
}
use vpn_saas.Base.Table.{find, update, update_many, create}
use vpn_saas.Store.{
  Action, pure, gets, or_throw, throw, throw_if, modify, when, ◌>>=◌, ◌>>◌, business, ErrorCode,
  Failure, audit, fresh_id, get_or,
}
use vpn_saas.Store.Rows.{Db}
use vpn_saas.Store.Rows.Cards.{BankCard}

pub record CardInput : Type 0 where
  pub card_number : List ℕ
  pub card_holder : List ℕ
  pub bank_name : List ℕ
  pub sheba_number : Option (List ℕ)
  pub label : Option String
  pub is_active : Option Bool
  pub is_default : Option Bool
  pub sort_order : Option ℕ

-- A field that is absent stays as it was.
pub record CardUpdate : Type 0 where
  pub card_number : Option (List ℕ)
  pub card_holder : Option (List ℕ)
  pub bank_name : Option (List ℕ)
  pub sheba_number : Option (Option (List ℕ))
  pub label : Option (Option String)
  pub is_active : Option Bool
  pub is_default : Option Bool
  pub sort_order : Option ℕ

abbrev pub is_default : BankCard → Bool
is_default c = c.is_default

abbrev pub has_public_id : String → BankCard → Bool
has_public_id public_id c = str_eq c.public_id public_id

abbrev pub demoted : BankCard → BankCard
demoted c = record c { is_default = false }

unfoldable pub clear_default : Action (Unit {0})
clear_default =
    modify (λ db. record db { bank_cards = update_many is_default demoted db.bank_cards })

abbrev pub new_card :
    String
    → CardInput
    → List ℕ
    → List ℕ
    → List ℕ
    → Option (List ℕ)
    → Option ℕ
    → List BankCard
    → BankCard
new_card uuid input number holder bank sheba admin cs = record {
  id = fresh_id (λ (c : BankCard). c.id) cs;
  public_id = uuid;
  card_number = number;
  card_holder = holder;
  bank_name = bank;
  sheba_number = sheba;
  label = input.label;
  is_active = get_or input.is_active true;
  is_default = get_or input.is_default false;
  sort_order = get_or input.sort_order 0;
  created_by_id = admin;
}

-- The default is given up before the input is checked.
unfoldable pub create_card : (List ℕ → List ℕ) → String → CardInput → Option ℕ → Action BankCard
unfolding clear_default
create_card upper uuid input admin = do
  when (get_or input.is_default false) clear_default
  number ← checked_card_number input.card_number
  holder ← checked_text input.card_holder "Card holder"
  bank ← checked_text input.bank_name "Bank name"
  sheba ← checked_sheba upper input.sheba_number
  card ← gets (λ db. new_card uuid input number holder bank sheba admin db.bank_cards)
  modify (λ db. record db { bank_cards = create card db.bank_cards })
  audit admin "CREATE" "bank_cards" card.public_id
  pure card

-- A check of a field that is there.
abbrev pub checked_if : {A B : Type 0} → (A → Action B) → Option A → Action (Option B)
checked_if check none = pure none
checked_if check (some a) = do b ← check a; pure (some b)

-- The fields that a checked update writes.
pub record Changes : Type 0 where
  pub card_number : Option (List ℕ)
  pub card_holder : Option (List ℕ)
  pub bank_name : Option (List ℕ)
  pub sheba_number : Option (Option (List ℕ))

abbrev pub check_update : (List ℕ → List ℕ) → CardUpdate → Action Changes
check_update upper input = do
  number ← checked_if checked_card_number input.card_number
  holder ← checked_if (λ v. checked_text v "Card holder") input.card_holder
  bank ← checked_if (λ v. checked_text v "Bank name") input.bank_name
  sheba ← checked_if (checked_sheba upper) input.sheba_number
  pure (record {
    card_number = number;
    card_holder = holder;
    bank_name = bank;
    sheba_number = sheba;
  })

abbrev pub changed : CardUpdate → Changes → BankCard → BankCard
changed input checked c = record c {
  card_number = get_or checked.card_number c.card_number;
  card_holder = get_or checked.card_holder c.card_holder;
  bank_name = get_or checked.bank_name c.bank_name;
  sheba_number = get_or checked.sheba_number c.sheba_number;
  label = get_or input.label c.label;
  is_active = get_or input.is_active c.is_active;
  is_default = get_or input.is_default c.is_default;
  sort_order = get_or input.sort_order c.sort_order;
}

abbrev pub card_of : String → Action BankCard
card_of public_id = do
  found ← gets (λ db. find (has_public_id public_id) db.bank_cards)
  or_throw found (business ErrorCode.not_found "Bank card not found")

unfoldable pub update_card : (List ℕ → List ℕ) → String → CardUpdate → Option ℕ → Action BankCard
unfolding clear_default
update_card upper public_id input admin = do
  existing ← card_of public_id
  when (get_or input.is_default false) clear_default
  checked ← check_update upper input
  modify (λ db. record db {
    bank_cards = update (has_public_id public_id) (changed input checked) db.bank_cards;
  })
  audit admin "UPDATE" "bank_cards" public_id
  card_of public_id

abbrev pub disabled : BankCard → BankCard
disabled c = record c { is_active = false; is_default = false }

-- A card that payments refer to is kept and disabled.
unfoldable pub remove_card : String → Option ℕ → Action (Unit {0})
remove_card public_id admin = do
  existing ← card_of public_id
  modify (λ db. record db { bank_cards = update (has_public_id public_id) disabled db.bank_cards })
  audit admin "UPDATE" "bank_cards" public_id

abbrev pub no_change : CardUpdate
no_change = record {
  card_number = none;
  card_holder = none;
  bank_name = none;
  sheba_number = none;
  label = none;
  is_active = none;
  is_default = none;
  sort_order = none;
}

unfoldable pub set_active : (List ℕ → List ℕ) → String → Bool → Option ℕ → Action BankCard
unfolding update_card
set_active upper public_id active admin =
    update_card upper public_id
      (record no_change {
        is_active = some active;
        is_default = if active then none else some false;
      })
      admin

unfoldable pub set_default : (List ℕ → List ℕ) → String → Option ℕ → Action BankCard
unfolding update_card clear_default
set_default upper public_id admin = do
  card ← card_of public_id
  throw_if (not card.is_active) (business ErrorCode.conflict "Only an active card can be default")
  clear_default
  update_card upper public_id (record no_change { is_default = some true }) admin
