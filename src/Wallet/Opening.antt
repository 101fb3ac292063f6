-- ===== src/Wallet/Opening.antt =====
-- What a movement asks for, the results, and the opening of a wallet (`toDto`, `toTxnDto`,
-- `getOrCreateWallet` and `getBalance` of src/modules/wallet/wallet.service.ts).
use vpn_saas.Base.{ℕ, Bool, Option, none, some, List, String, ◌==◌}
use vpn_saas.Base.Int.{ℤ, pos}
use vpn_saas.Base.Table.{find, create}
use vpn_saas.Money.{from_minor}
use vpn_saas.Store.{Action, pure, ◌>>=◌, get_or, fresh_id}
use vpn_saas.Store.Rows.{Wallet, WalletTransaction, WalletTxnType, WalletTxnStatus}

pub data Direction : Type 0 where
  credit debit : Direction

pub record WalletMutation : Type 0 where
  pub user_id : ℕ
  pub type : WalletTxnType
  pub amount : ℤ
  pub direction : Direction
  pub description : Option String
  pub reference : Option String
  pub payment_id : Option ℕ
  pub order_id : Option ℕ
  pub status : Option WalletTxnStatus
  pub use_gift_balance : Bool

pub record WalletTxnDto : Type 0 where
  pub id : ℕ
  pub public_id : String
  pub type : WalletTxnType
  pub status : WalletTxnStatus
  pub amount : List ℕ
  pub fee : List ℕ
  pub balance_before : List ℕ
  pub balance_after : List ℕ
  pub description : Option String
  pub reference : Option String

pub record WalletDto : Type 0 where
  pub id : ℕ
  pub balance : List ℕ
  pub gift_balance : List ℕ
  pub total_deposited : List ℕ
  pub total_spent : List ℕ

abbrev pub to_txn_dto : WalletTransaction → WalletTxnDto
to_txn_dto t = record {
  id = t.id;
  public_id = t.public_id;
  type = t.type;
  status = t.status;
  amount = from_minor t.amount;
  fee = from_minor t.fee;
  balance_before = from_minor t.balance_before;
  balance_after = from_minor t.balance_after;
  description = t.description;
  reference = t.reference;
}

abbrev pub to_dto : Wallet → WalletDto
to_dto w = record {
  id = w.id;
  balance = from_minor w.balance;
  gift_balance = from_minor w.gift_balance;
  total_deposited = from_minor w.total_deposited;
  total_spent = from_minor w.total_spent;
}

abbrev pub by_user : ℕ → Wallet → Bool
by_user user w = w.user_id == user

-- The columns' defaults.
abbrev pub new_wallet : ℕ → List Wallet → Wallet
new_wallet user ws = record {
  id = fresh_id (λ (w : Wallet). w.id) ws;
  user_id = user;
  balance = pos 0;
  gift_balance = pos 0;
  total_deposited = pos 0;
  total_spent = pos 0;
}

-- `wallet.upsert` with an empty update: the row, and the table with it.
abbrev pub wallet_of : ℕ → List Wallet → Wallet
wallet_of user ws = get_or (find (by_user user) ws) (new_wallet user ws)

abbrev pub opened_with : Option Wallet → ℕ → List Wallet → List Wallet
opened_with none user ws = create (new_wallet user ws) ws
opened_with (some w) user ws = ws

abbrev pub opened : ℕ → List Wallet → List Wallet
opened user ws = opened_with (find (by_user user) ws) user ws

unfoldable pub get_or_create_wallet : ℕ → Action Wallet
get_or_create_wallet user db =
    pure (wallet_of user db.wallets) (record db { wallets = opened user db.wallets })

pub get_balance : ℕ → Action WalletDto
unfolding get_or_create_wallet
get_balance user = do w ← get_or_create_wallet user; pure (to_dto w)
