-- ===== src/CryptoWallets.antt =====
-- CryptoWalletsService (src/modules/payments/crypto-wallets.service.ts): the addresses that users
-- deposit to. `uuid` stands for the public id that the database draws. The cache of the active
-- wallets is left out, so that `getDefault` reads the table.
pub mod Defaults
use vpn_saas.Base.{
  ℕ, Bool, true, false, ◌&&◌, ◌||◌, not, Option, none, some, String, List, [], ◌∷◌, leb, ltb, ◌==◌,
  str_eq, if◌then◌else◌, length,
}
use vpn_saas.Base.Table.{find, find_many, update, update_many, create}
use vpn_saas.Base.Texts.{trim, within, same_codes}
use vpn_saas.Store.{
  Action, pure, gets, or_throw, throw_if, modify, when, ◌>>=◌, ◌>>◌, business, ErrorCode, Failure,
  unique_violation, audit, fresh_id, get_or, is_some,
}
use vpn_saas.Store.Rows.{Db}
use vpn_saas.Store.Rows.Cards.{CryptoWallet, CryptoCurrency, usdt_trc20, usdt_erc20, ton, btc, eth}

pub record WalletInput : Type 0 where
  pub currency : CryptoCurrency
  pub address : List ℕ
  pub network : Option String
  pub label : Option String
  pub instructions : Option String
  pub qr_code_url : Option String
  pub is_active : Option Bool
  pub is_default : Option Bool
  pub sort_order : Option ℕ

-- A field that is absent stays as it is; one that is null is emptied.
pub record WalletUpdate : Type 0 where
  pub address : Option (List ℕ)
  pub network : Option (Option String)
  pub label : Option (Option String)
  pub instructions : Option (Option String)
  pub qr_code_url : Option (Option String)
  pub is_active : Option Bool
  pub is_default : Option Bool
  pub sort_order : Option ℕ

abbrev pub same_currency : CryptoCurrency → CryptoCurrency → Bool
same_currency usdt_trc20 usdt_trc20 = true
same_currency usdt_erc20 usdt_erc20 = true
same_currency ton ton = true
same_currency btc btc = true
same_currency eth eth = true
same_currency _ _ = false

abbrev pub has_public_id : String → CryptoWallet → Bool
has_public_id public_id w = str_eq w.public_id public_id

abbrev pub has_currency : CryptoCurrency → CryptoWallet → Bool
has_currency currency w = same_currency w.currency currency

abbrev pub is_default_of : CryptoCurrency → CryptoWallet → Bool
is_default_of currency w = has_currency currency w && w.is_default

abbrev pub demoted : CryptoWallet → CryptoWallet
demoted w = record w { is_default = false }

unfoldable pub clear_default : CryptoCurrency → Action (Unit {0})
clear_default currency = modify (λ db. record db {
  crypto_wallets = update_many (is_default_of currency) demoted db.crypto_wallets;
})

abbrev pub checked_address : List ℕ → Action (List ℕ)
checked_address value = do
  throw_if (not (within 10 200 (length (trim value))))
      (business ErrorCode.validation_error "Invalid wallet address")
  pure (trim value)

abbrev pub at_address : CryptoCurrency → List ℕ → CryptoWallet → Bool
at_address currency address w = has_currency currency w && same_codes w.address address

abbrev pub new_wallet : String → WalletInput → List ℕ → Option ℕ → List CryptoWallet → CryptoWallet
new_wallet uuid input address admin ws = record {
  id = fresh_id (λ (w : CryptoWallet). w.id) ws;
  public_id = uuid;
  currency = input.currency;
  label = input.label;
  address = address;
  network = input.network;
  instructions = input.instructions;
  qr_code_url = input.qr_code_url;
  is_active = get_or input.is_active true;
  is_default = get_or input.is_default false;
  sort_order = get_or input.sort_order 0;
  created_by_id = admin;
}

-- The default is given up before the address is checked; the database refuses an address twice.
unfoldable pub create_wallet : String → WalletInput → Option ℕ → Action CryptoWallet
unfolding clear_default
create_wallet uuid input admin = do
  when (get_or input.is_default false) (clear_default input.currency)
  address ← checked_address input.address
  throw_if (← gets (λ db. is_some (find (at_address input.currency address) db.crypto_wallets)))
      unique_violation
  wallet ← gets (λ db. new_wallet uuid input address admin db.crypto_wallets)
  modify (λ db. record db { crypto_wallets = create wallet db.crypto_wallets })
  audit admin "CREATE" "crypto_wallets" wallet.public_id
  pure wallet

abbrev pub wallet_of : String → Action CryptoWallet
wallet_of public_id = do
  found ← gets (λ db. find (has_public_id public_id) db.crypto_wallets)
  or_throw found (business ErrorCode.not_found "Crypto wallet not found")

abbrev pub check_address : Option (List ℕ) → Action (Option (List ℕ))
check_address none = pure none
check_address (some value) = do address ← checked_address value; pure (some address)

abbrev pub changed : WalletUpdate → Option (List ℕ) → CryptoWallet → CryptoWallet
changed input address w = record w {
  address = get_or address w.address;
  network = get_or input.network w.network;
  label = get_or input.label w.label;
  instructions = get_or input.instructions w.instructions;
  qr_code_url = get_or input.qr_code_url w.qr_code_url;
  is_active = get_or input.is_active w.is_active;
  is_default = get_or input.is_default w.is_default;
  sort_order = get_or input.sort_order w.sort_order;
}

-- Another wallet of the currency that has the address already.
abbrev pub address_taken : CryptoWallet → Option (List ℕ) → List CryptoWallet → Bool
address_taken w none ws = false
address_taken w (some address) ws =
    is_some (find (λ v. at_address w.currency address v && not (str_eq v.public_id w.public_id)) ws)

unfoldable pub update_wallet : String → WalletUpdate → Option ℕ → Action CryptoWallet
unfolding clear_default
update_wallet public_id input admin = do
  existing ← wallet_of public_id
  when (get_or input.is_default false) (clear_default existing.currency)
  address ← check_address input.address
  throw_if (← gets (λ db. address_taken existing address db.crypto_wallets)) unique_violation
  modify (λ db. record db {
    crypto_wallets = update (has_public_id public_id) (changed input address) db.crypto_wallets;
  })
  audit admin "UPDATE" "crypto_wallets" public_id
  wallet_of public_id

-- `delete` on a unique column
abbrev pub without : String → List CryptoWallet → List CryptoWallet
without public_id ws = find_many (λ w. not (has_public_id public_id w)) ws

unfoldable pub remove_wallet : String → Option ℕ → Action (Unit {0})
remove_wallet public_id admin = do
  existing ← wallet_of public_id
  modify (λ db. record db { crypto_wallets = without public_id db.crypto_wallets })
  audit admin "DELETE" "crypto_wallets" public_id

abbrev pub no_change : WalletUpdate
no_change = record {
  address = none;
  network = none;
  label = none;
  instructions = none;
  qr_code_url = none;
  is_active = none;
  is_default = none;
  sort_order = none;
}

unfoldable pub set_active : String → Bool → Option ℕ → Action CryptoWallet
unfolding update_wallet
set_active public_id active admin =
    update_wallet public_id
      (record no_change {
        is_active = some active;
        is_default = if active then none else some false;
      })
      admin

unfoldable pub set_default : String → Option ℕ → Action CryptoWallet
unfolding update_wallet clear_default
set_default public_id admin = do
  wallet ← wallet_of public_id
  throw_if (not wallet.is_active)
      (business ErrorCode.conflict "Only an active wallet can be default")
  clear_default wallet.currency
  update_wallet public_id (record no_change { is_default = some true }) admin

-- The first of two wallets in the order of the active list.
abbrev pub comes_first : CryptoWallet → CryptoWallet → Bool
comes_first v w =
    ltb v.sort_order w.sort_order
    || ((v.sort_order == w.sort_order) && (v.is_default || not w.is_default))

abbrev pub insert_wallet : CryptoWallet → List CryptoWallet → List CryptoWallet
insert_wallet w [] = w ∷ []
insert_wallet w (v ∷ vs) = if comes_first w v then w ∷ v ∷ vs else v ∷ insert_wallet w vs

abbrev pub in_order : List CryptoWallet → List CryptoWallet
in_order [] = []
in_order (w ∷ ws) = insert_wallet w (in_order ws)

unfoldable pub list_active : Action (List CryptoWallet)
list_active =
    gets (λ db. in_order (find_many (λ (w : CryptoWallet). w.is_active) db.crypto_wallets))

abbrev first_of : List CryptoWallet → Option CryptoWallet
first_of [] = none
first_of (w ∷ ws) = some w

abbrev or_first : Option CryptoWallet → List CryptoWallet → Option CryptoWallet
or_first none ws = first_of ws
or_first (some w) ws = some w

unfoldable pub get_default : CryptoCurrency → Action (Option CryptoWallet)
unfolding list_active
get_default currency = do
  wallets ← list_active
  let own = find_many (has_currency currency) wallets
  pure (or_first (find (λ (w : CryptoWallet). w.is_default) own) own)
