-- ===== src/Examples/Deposits.antt =====
-- Runs of the wallets that users deposit to.
use vpn_saas.Base.{ℕ, ◌≡◌, refl, true, none, some, List, [], ◌∷◌, arith}
use vpn_saas.Examples.{shop}
use vpn_saas.Store.Rows.Cards.{ton}
use vpn_saas.CryptoWallets.{WalletInput}
use vpn_saas.CryptoWallets.Defaults.{
  WalletCall, to_create, to_promote, IsSingle, all_made, all_made-IsSingle, defaults,
}

abbrev address : ℕ → List ℕ
address n = n ∷ b'a' ∷ b'b' ∷ b'c' ∷ b'd' ∷ b'e' ∷ b'f' ∷ b'g' ∷ b'h' ∷ b'i' ∷ []

abbrev ton_wallet : ℕ → WalletInput
ton_wallet n = record {
  currency = ton;
  address = address n;
  network = none;
  label = none;
  instructions = none;
  qr_code_url = none;
  is_active = none;
  is_default = some true;
  sort_order = none;
}

-- The second wallet takes the place of the first, which takes it back.
abbrev promotions : List WalletCall
promotions =
    to_create "w-1" (ton_wallet 65) none
    ∷ to_create "w-2" (ton_wallet 66) none
    ∷ to_promote "w-1" none
    ∷ []

no_default_yet : IsSingle shop
no_default_yet c = omega arith

promotions_run : defaults ton (all_made promotions shop) ≡ 1
unfolding all_made
promotions_run = refl

all_made-IsSingle_example : IsSingle (all_made promotions shop)
all_made-IsSingle_example = all_made-IsSingle promotions shop no_default_yet
