-- ===== src/CryptoWallets/Defaults.antt =====
-- The default wallets of the currencies over the calls of the service
-- (src/modules/payments/crypto-wallets.service.ts).
mod Room
unfoldable pub use Room.*
use vpn_saas.Base.{
  ℕ, ◌+◌, ◌≤◌, ◌≡◌, refl, sym, ◌∙◌, Bool, true, false, ◌&&◌, not, Option, none, some, String, List,
  [], ◌∷◌, arith, inl, inr, Bool-cases, Option-cases, if◌then◌else◌,
}
use mathlib.Core.Path.{subst}
use vpn_saas.Base.Table.{count, update_many, update, find}
use vpn_saas.Base.Table.Laws.{
  count-create, count-update_many, count-update_many_fewer, count-update_found, count-find_many,
  count-update_le, find-update_many-written,
}
use vpn_saas.Store.{
  Reads, reads_leads, is_some, get_or, when, throw_if, resume_leads, unique_violation,
}
use vpn_saas.Store.Rows.{Db}
use vpn_saas.Store.Rows.Cards.{CryptoWallet, CryptoCurrency, usdt_trc20, usdt_erc20, ton, btc, eth}
use vpn_saas.CryptoWallets.{
  WalletInput, WalletUpdate, same_currency, has_public_id, has_currency, is_default_of, demoted,
  clear_default, checked_address, check_address, at_address, address_taken, new_wallet, wallet_of,
  changed, no_change, create_wallet, update_wallet, remove_wallet, set_active, set_default,
}

create_wallet-IsSingle :
    (uuid : String) (input : WalletInput) (admin : Option ℕ) (db : Db)
    → IsSingle db
    → IsSingle (create_wallet uuid input admin db).1
unfolding create_wallet
create_wallet-IsSingle uuid input admin db one =
    let chosen = get_or input.is_default false in
    let Q = HasRoom input.currency chosen in
    let stop = HasRoom-IsSingle input.currency chosen in
    resume_leads Q IsSingle (when chosen (clear_default input.currency) db) _
      (cleared chosen input.currency db one) stop
      (λ _ s1 q1.
        reads_leads Q IsSingle (checked_address input.address) _ s1
          (checked_address-Reads input.address) q1 stop
          (λ address s2 q2.
            resume_leads Q IsSingle
              (throw_if (is_some (find (at_address input.currency address) s2.crypto_wallets))
                unique_violation s2)
              _ q2 stop
              (λ _ s3 q3 d.
                let wallet = new_wallet uuid input address admin s3.crypto_wallets in
                let more = count-create (is_default_of d) wallet s3.crypto_wallets in
                subst (λ n. n ≤ 1) (sym more)
                  (fits (defaults d s3) chosen (same_currency input.currency d) (q3 d)))))

update_wallet-IsSingle :
    (public_id : String) (input : WalletUpdate) (admin : Option ℕ) (db : Db)
    → IsSingle db
    → IsSingle (update_wallet public_id input admin db).1
unfolding update_wallet
update_wallet-IsSingle public_id input admin db one =
    let chosen = get_or input.is_default false in
    elim (Option-cases (find (has_public_id public_id) db.crypto_wallets)) [
      | inl missing ↦ rw missing one
      | inr (w, found) ↦
          let c = w.currency in
          let Q : Db → Type 0 = λ s. HasRoom c chosen s × IsAt public_id c s in
          let stop : (s : Db) → Q s → IsSingle s = λ s q. HasRoom-IsSingle c chosen s q.0 in
          rw found (
            resume_leads Q IsSingle (when chosen (clear_default c) db) _
              (cleared chosen c db one, cleared-IsAt chosen public_id c c db (w, found, refl)) stop
              (λ _ s1 q1.
                reads_leads Q IsSingle (check_address input.address) _ s1
                  (check_address-Reads input.address) q1 stop
                  (λ address s2 q2.
                    resume_leads Q IsSingle
                      (throw_if (address_taken w address s2.crypto_wallets) unique_violation s2) _
                      q2 stop
                      (λ _ s3 q3.
                        subst IsSingle (sym (wallet_of-Reads public_id _))
                          (changed-IsSingle public_id c input address s3 q3.0 q3.1)))))
    ]

remove_wallet-IsSingle :
    (public_id : String) (admin : Option ℕ) (db : Db)
    → IsSingle db
    → IsSingle (remove_wallet public_id admin db).1
unfolding remove_wallet
remove_wallet-IsSingle public_id admin db one =
    reads_leads IsSingle IsSingle (wallet_of public_id) _ db (wallet_of-Reads public_id) one
      (λ s p. p)
      (λ w s p d.
        let fewer =
          count-find_many (is_default_of d) (λ v. not (has_public_id public_id v))
            s.crypto_wallets in
        let before = p d in omega (arith, fewer, before))

clear_default-IsSingle :
    (c : CryptoCurrency) (db : Db) → IsSingle db → IsSingle (clear_default c db).1
unfolding clear_default
clear_default-IsSingle c db one =
    HasRoom-IsSingle c true (clear_default c db).1 (cleared true c db one)

set_default-IsSingle :
    (public_id : String) (admin : Option ℕ) (db : Db)
    → IsSingle db
    → IsSingle (set_default public_id admin db).1
unfolding set_default
set_default-IsSingle public_id admin db one =
    reads_leads IsSingle IsSingle (wallet_of public_id) _ db (wallet_of-Reads public_id) one
      (λ s p. p)
      (λ w s p.
        resume_leads IsSingle IsSingle (throw_if (not w.is_active) _ s) _ p (λ s' p'. p')
          (λ _ s1 p1.
            resume_leads IsSingle IsSingle (clear_default w.currency s1)
              (λ _. update_wallet public_id (record no_change { is_default = some true }) admin)
              (clear_default-IsSingle w.currency s1 p1) (λ s' p'. p')
              (λ _ s2 p2.
                update_wallet-IsSingle public_id (record no_change { is_default = some true }) admin
                  s2 p2)))

-- The calls that write the wallets.
pub data WalletCall : Type 0 where
  to_create : String → WalletInput → Option ℕ → WalletCall
  to_update : String → WalletUpdate → Option ℕ → WalletCall
  to_remove : String → Option ℕ → WalletCall
  to_activate : String → Bool → Option ℕ → WalletCall
  to_promote : String → Option ℕ → WalletCall

-- The database after a call, whether it has returned or thrown.
unfoldable pub made : WalletCall → Db → Db
unfolding create_wallet update_wallet remove_wallet set_active set_default
made (to_create uuid input admin) db = (create_wallet uuid input admin db).1
made (to_update public_id input admin) db = (update_wallet public_id input admin db).1
made (to_remove public_id admin) db = (remove_wallet public_id admin db).1
made (to_activate public_id on admin) db = (set_active public_id on admin db).1
made (to_promote public_id admin) db = (set_default public_id admin db).1

unfoldable pub all_made : List WalletCall → Db → Db
unfolding made
all_made [] db = db
all_made (c ∷ cs) db = all_made cs (made c db)

made-IsSingle : (c : WalletCall) (db : Db) → IsSingle db → IsSingle (made c db)
unfolding made set_active
made-IsSingle (to_create uuid input admin) db one = create_wallet-IsSingle uuid input admin db one
made-IsSingle (to_update public_id input admin) db one =
    update_wallet-IsSingle public_id input admin db one
made-IsSingle (to_remove public_id admin) db one = remove_wallet-IsSingle public_id admin db one
made-IsSingle (to_activate public_id on admin) db one =
    update_wallet-IsSingle public_id
      (record no_change { is_active = some on; is_default = if on then none else some false }) admin
      db one
made-IsSingle (to_promote public_id admin) db one = set_default-IsSingle public_id admin db one

-- Whatever calls create, change, remove, disable or promote deposit wallets, and whether each returns
-- or throws on the way: where each currency had one default wallet at most, each has one at most.
pub all_made-IsSingle :
    (calls : List WalletCall) (db : Db) → IsSingle db → IsSingle (all_made calls db)
unfolding all_made
all_made-IsSingle [] db one = one
all_made-IsSingle (c ∷ cs) db one = all_made-IsSingle cs (made c db) (made-IsSingle c db one)
