-- ===== src/CryptoWallets/Defaults/Room.antt =====
-- Room for one more default wallet of a currency, once its default is given up
-- (`clearDefault` of src/modules/payments/crypto-wallets.service.ts).
use vpn_saas.Base.{
  ℕ, ◌+◌, ◌≤◌, ◌≡◌, refl, ◌∙◌, Bool, true, false, ◌&&◌, Option, none, some, String, List, arith,
  inl, inr, Bool-cases, Option-cases, if◌then◌else◌,
}
use mathlib.Core.Path.{subst}
use vpn_saas.Base.Table.{count, update_many, update, find}
use vpn_saas.Base.Table.Laws.{
  count-update_many, count-update_many_fewer, count-update_found, count-update_le,
  find-update_many-written,
}
use vpn_saas.Store.{Reads, get_or, when, throw_if, resume_leads}
use vpn_saas.Store.Rows.{Db}
use vpn_saas.Store.Rows.Cards.{CryptoWallet, CryptoCurrency, usdt_trc20, usdt_erc20, ton, btc, eth}
use vpn_saas.CryptoWallets.{
  WalletUpdate, same_currency, has_public_id, has_currency, is_default_of, demoted, clear_default,
  checked_address, check_address, wallet_of, changed,
}

-- How many default wallets a currency has.
abbrev pub defaults : CryptoCurrency → Db → ℕ
defaults c db = count (is_default_of c) db.crypto_wallets

abbrev pub IsSingle : Db → Type 0
IsSingle db = (c : CryptoCurrency) → defaults c db ≤ 1

same_currency-eq : (c d : CryptoCurrency) → same_currency c d ≡ true → c ≡ d
same_currency-eq usdt_trc20 usdt_trc20 h = refl
same_currency-eq usdt_erc20 usdt_erc20 h = refl
same_currency-eq ton ton h = refl
same_currency-eq btc btc h = refl
same_currency-eq eth eth h = refl
same_currency-eq usdt_trc20 usdt_erc20 h = cc
same_currency-eq usdt_trc20 ton h = cc
same_currency-eq usdt_trc20 btc h = cc
same_currency-eq usdt_trc20 eth h = cc
same_currency-eq usdt_erc20 usdt_trc20 h = cc
same_currency-eq usdt_erc20 ton h = cc
same_currency-eq usdt_erc20 btc h = cc
same_currency-eq usdt_erc20 eth h = cc
same_currency-eq ton usdt_trc20 h = cc
same_currency-eq ton usdt_erc20 h = cc
same_currency-eq ton btc h = cc
same_currency-eq ton eth h = cc
same_currency-eq btc usdt_trc20 h = cc
same_currency-eq btc usdt_erc20 h = cc
same_currency-eq btc ton h = cc
same_currency-eq btc eth h = cc
same_currency-eq eth usdt_trc20 h = cc
same_currency-eq eth usdt_erc20 h = cc
same_currency-eq eth ton h = cc
same_currency-eq eth btc h = cc

-- One default at most in each currency, counted with the one that is to become it.
abbrev pub HasRoom : CryptoCurrency → Bool → Db → Type 0
HasRoom c chosen db =
    (d : CryptoCurrency) → defaults d db + (if chosen && same_currency c d then 1 else 0) ≤ 1

demoted-is_default_of :
    (c : CryptoCurrency) (w : CryptoWallet) → is_default_of c (demoted w) ≡ false
demoted-is_default_of c w = elim (Bool-cases (has_currency c w)) [
  | inl own ↦ rw own refl
  | inr other ↦ rw other refl
]

pub cleared :
    (chosen : Bool) (c : CryptoCurrency) (db : Db)
    → IsSingle db
    → HasRoom c chosen (when chosen (clear_default c) db).1
unfolding clear_default
cleared false c db one d = let h = one d in omega arith
cleared true c db one d =
    let fewer =
      count-update_many_fewer (is_default_of d) (is_default_of c) demoted db.crypto_wallets
        (λ w hit. absurd (let no = demoted-is_default_of d w in cc)) in
    let none_left =
      count-update_many (is_default_of c) demoted db.crypto_wallets (demoted-is_default_of c) in
    let h = one d in
    elim (Bool-cases (same_currency c d)) [
      | inl same ↦
          let e = same_currency-eq c d same in
          let none_d : count (is_default_of d)
                (update_many (is_default_of c) demoted db.crypto_wallets)
              ≡ 0 =
            subst
              (λ x.
                count (is_default_of x) (update_many (is_default_of c) demoted db.crypto_wallets)
                ≡ 0)
              e none_left in
          rw same (omega arith)
      | inr other ↦ rw other (omega arith)
    ]

pub HasRoom-IsSingle :
    (c : CryptoCurrency) (chosen : Bool) (db : Db) → HasRoom c chosen db → IsSingle db
HasRoom-IsSingle c chosen db room d = let h = room d in omega arith

pub checked_address-Reads : (value : List ℕ) → Reads (checked_address value)
checked_address-Reads value db =
    resume_leads (λ s. s ≡ db) (λ s. s ≡ db) (throw_if _ _ db) _ refl (λ s e. e) (λ a s e. e)

pub check_address-Reads : (o : Option (List ℕ)) → Reads (check_address o)
check_address-Reads none db = refl
check_address-Reads (some value) db =
    resume_leads (λ s. s ≡ db) (λ s. s ≡ db) (checked_address value db) _
      (checked_address-Reads value db) (λ s e. e) (λ a s e. e)

pub wallet_of-Reads : (public_id : String) → Reads (wallet_of public_id)
wallet_of-Reads public_id db =
    elim (Option-cases (find (has_public_id public_id) db.crypto_wallets)) [
      | inl missing ↦ rw missing refl
      | inr (w, found) ↦ rw found refl
    ]

pub fits :
    (n : ℕ) (a b : Bool) → n + (if a && b then 1 else 0) ≤ 1 → n + (if b && a then 1 else 0) ≤ 1
fits n true true h = h
fits n true false h = h
fits n false true h = h
fits n false false h = h

-- The wallet that is to be written is there, in its currency.
abbrev pub IsAt : String → CryptoCurrency → Db → Type 0
IsAt public_id c db =
    (w : CryptoWallet) × (find (has_public_id public_id) db.crypto_wallets ≡ some w)
    × (w.currency ≡ c)

pub cleared-IsAt :
    (chosen : Bool) (public_id : String) (c d : CryptoCurrency) (db : Db)
    → IsAt public_id c db
    → IsAt public_id c (when chosen (clear_default d) db).1
unfolding clear_default
cleared-IsAt false public_id c d db at = at
cleared-IsAt true public_id c d db (w, found, own) =
    let after =
      find-update_many-written (is_default_of d) (has_public_id public_id) demoted db.crypto_wallets
        (λ x. refl) in
    elim (Bool-cases (is_default_of d w)) [
      | inl hit ↦ (demoted w, after ∙ rw (found, hit) refl, own)
      | inr miss ↦ (w, after ∙ rw (found, miss) refl, own)
    ]

-- A wallet that the change does not promote is the default after it only if it was.
kept_off :
    (input : WalletUpdate) (address : Option (List ℕ)) (d : CryptoCurrency) (w : CryptoWallet)
    → get_or input.is_default false ≡ false
    → is_default_of d (changed input address w) ≡ true
    → is_default_of d w ≡ true
kept_off input address d w off h = elim (Option-cases input.is_default) [
  | inl absent ↦ rw absent at h
  | inr (b, given) ↦ elim (Bool-cases (has_currency d w)) [
    | inl own ↦ absurd (let off' = rw given at off in let on = rw (own, given) at h in cc)
    | inr other ↦ absurd (let on = rw other at h in cc)
  ]
]

pub changed-IsSingle :
    (public_id : String) (c : CryptoCurrency) (input : WalletUpdate) (address : Option (List ℕ))
    (db : Db)
    → HasRoom c (get_or input.is_default false) db
    → IsAt public_id c db
    → (d : CryptoCurrency)
    → count
        (is_default_of d)
        (update (has_public_id public_id) (changed input address) db.crypto_wallets)
      ≤ 1
changed-IsSingle public_id c input address db room (w, found, own) d =
    let r = room d in
    let kept : (is_default_of d (changed input address w) ≡ true → is_default_of d w ≡ true)
        → count (is_default_of d)
            (update (has_public_id public_id) (changed input address) db.crypto_wallets)
          ≤ 1 =
      λ keep.
        let fewer =
          count-update_found (is_default_of d) (has_public_id public_id) (changed input address)
            db.crypto_wallets found keep in
        omega (arith, fewer, r) in
    elim (Bool-cases (get_or input.is_default false)) [
      | inr off ↦ kept (kept_off input address d w off)
      | inl chosen ↦ elim (Bool-cases (same_currency c d)) [
        | inl same ↦
            let none_left = rw (chosen, same) at r in
            omega (
              arith,
              none_left,
              count-update_le (is_default_of d) (has_public_id public_id) (changed input address)
                  db.crypto_wallets,
            )
        | inr other ↦ kept (λ h.
            absurd
              (let apart : has_currency d w ≡ false = rw own other in let on = rw apart at h in cc))
      ]
    ]
