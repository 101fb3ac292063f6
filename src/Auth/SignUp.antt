-- ===== src/Auth/SignUp.antt =====
-- Registration by email (`registerEmail`, `generateReferralCode` of
-- src/modules/auth/auth.service.ts).
use vpn_saas.Base.{
  ℕ, zero, suc, Bool, false, Option, none, some, String, List, ◌==◌, str_eq, if◌then◌else◌,
}
use vpn_saas.Base.Int.{pos}
use vpn_saas.Base.Table.{find, create}
use vpn_saas.Store.{
  Action, gets, throw_if, modify, ◌>>=◌, ◌>>◌, business, ErrorCode, unique_violation, audit,
  fresh_id, is_some, is_none,
}
use vpn_saas.Store.Rows.{User, Wallet}
use vpn_saas.Store.Rows.Access.{UserRole, active}
use vpn_saas.Auth.Issue.{Services, LoginResult, issue_session}

abbrev pub is_user : ℕ → User → Bool
is_user id u = u.id == id

abbrev pub same_text : Option String → String → Bool
same_text none t = false
same_text (some s) t = str_eq s t

abbrev pub has_email : String → User → Bool
has_email email u = same_text u.email email

abbrev pub has_telegram : String → User → Bool
has_telegram id u = same_text u.telegram_id id

abbrev pub has_code : String → User → Bool
has_code code u = str_eq u.referral_code code

-- The tries left; `draws` has the code of each, `last` is the whole of a fresh UUID.
unfoldable pub first_free : ℕ → ℕ → (ℕ → String) → String → List User → String
first_free zero i draws last us = last
first_free (suc n) i draws last us =
    let rest = first_free n (suc i) draws last us in
    if is_none (find (has_code (draws i)) us) then draws i else rest

unfoldable pub generate_referral_code : (ℕ → String) → String → List User → String
unfolding first_free
generate_referral_code draws last us = first_free 5 0 draws last us

pub record Registration : Type 0 where
  pub email : String
  pub password : String

abbrev pub registered : Services → String → String → Registration → List User → User
registered svc uuid code input us = record {
  id = fresh_id (λ (u : User). u.id) us;
  public_id = uuid;
  telegram_id = none;
  email = some input.email;
  password_hash = some (svc.hash_password input.password);
  role = UserRole.user;
  status = active;
  referral_code = code;
  referred_by_id = none;
}

abbrev pub empty_wallet : ℕ → List Wallet → Wallet
empty_wallet user ws = record {
  id = fresh_id (λ (w : Wallet). w.id) ws;
  user_id = user;
  balance = pos 0;
  gift_balance = pos 0;
  total_deposited = pos 0;
  total_spent = pos 0;
}

unfoldable pub register_email :
    Services
    → ℕ
    → String
    → String
    → (ℕ → String)
    → String
    → (ℕ → String)
    → Registration
    → Action LoginResult
unfolding generate_referral_code issue_session
register_email svc now raw uuid draws last show input = do
  throw_if (← gets (λ db. is_some (find (has_email input.email) db.users)))
      (business ErrorCode.conflict "Email already registered")
  code ← gets (λ db. generate_referral_code draws last db.users)
  throw_if (← gets (λ db. is_some (find (has_code code) db.users))) unique_violation
  u ← gets (λ db. registered svc uuid code input db.users)
  modify (λ db. record db {
    users = create u db.users;
    wallets = create (empty_wallet u.id db.wallets) db.wallets;
  })
  audit none "CREATE" "users" (show u.id)
  issue_session svc now raw u (record { user_agent = ""; ip = "" })
