-- ===== src/Vouchers.antt =====
-- VouchersService (src/modules/payments/vouchers.service.ts): codes are minted, redeemed for a
-- subscription, edited and disabled. A code is a list of UTF-16 code units, in ASCII, as the codes
-- that `randomCode` mints are. The row lock makes the redemptions of one voucher run one after the
-- other; `now` and `later` are the readings of the clock before the transaction and in it.
pub mod Redeem
pub mod Generate
pub mod Minting
mod Preflight
unfoldable pub use Preflight.*
use vpn_saas.Base.{
  ℕ, zero, suc, ◌+◌, ◌-◌, max, min, Bool, true, false, ◌&&◌, ◌||◌, not, Option, none, some, List,
  [], ◌∷◌, ◌++◌, map, String, ltb, leb, ◌==◌, str_eq, if◌then◌else◌,
}
use vpn_saas.Base.Int.{ℤ}
use vpn_saas.Base.Table.{find, update, create}
use vpn_saas.Store.{
  Action, pure, throw, gets, or_throw, throw_if, modify, with_transaction, ◌>>=◌, ◌>>◌, Failure,
  business, ErrorCode, get_or, truthy, fresh_id, is_none, is_some, audit,
}
use vpn_saas.Store.Rows.{
  Plan, Voucher, VoucherType, VoucherRedemption, Subscription, OrderType, AuditEntry, Db,
}
use vpn_saas.Subscriptions.{provision_in_transaction, log_event, ProvisionParams}

pub record Redeemer : Type 0 where
  pub user_id : ℕ
  pub telegram_id : String
  pub ip : Option String

abbrev pub used_by : ℕ → ℕ → VoucherRedemption → Bool
used_by voucher user r = r.voucher_id == voucher && r.user_id == user

abbrev pub redemption_of : ℕ → Redeemer → ℕ → List VoucherRedemption → VoucherRedemption
redemption_of voucher who subscription rs = record {
  id = fresh_id (λ (r : VoucherRedemption). r.id) rs;
  voucher_id = voucher;
  user_id = who.user_id;
  subscription_id = subscription;
  telegram_id = who.telegram_id;
  ip_address = who.ip;
}

-- The data of the voucher's update, from the row that the lock has read.
abbrev pub redeemed : ℕ → Redeemer → Voucher → Voucher → Voucher
redeemed now who fresh v = record v {
  redeemed_by_id = some who.user_id;
  used_by_telegram_id = some who.telegram_id;
  used_by_ip = who.ip;
  redeemed_at = some now;
  redemptions = fresh.redemptions + 1;
  is_active = not (leb fresh.max_redemptions (fresh.redemptions + 1));
}

abbrev pub params_of : ℕ → ℕ → ProvisionParams
params_of user plan = record {
  user_id = user;
  plan_id = plan;
  order_id = none;
  type = OrderType.new;
  is_trial = none;
  provisioning_target = none;
  target_subscription_id = none;
}

-- The checks on the row that the lock has read.
unfoldable pub recheck : ℕ → ℕ → ℕ → Action Voucher
recheck now id user = do
  fresh ←
      or_throw (← gets (λ db. find (has_id id) db.vouchers)) (invalid "Voucher is no longer active")
  throw_if (not fresh.is_active) (invalid "Voucher is no longer active")
  throw_if (is_expired fresh.expires_at now) out_of_date
  throw_if (leb fresh.max_redemptions fresh.redemptions)
      (invalid "Voucher redemption limit reached")
  throw_if (← gets (λ db. is_some (find (used_by id user) db.redemptions)))
      (invalid "You have already used this voucher")
  pure fresh

-- The writes after the subscription is there.
unfoldable pub record_use : ℕ → ℕ → Redeemer → Voucher → ℕ → Action (Unit {0})
record_use now id who fresh subscription = do
  log_event subscription "VOUCHER_REDEEMED" none
  modify (λ db. record db {
    redemptions = create (redemption_of id who subscription db.redemptions) db.redemptions;
    vouchers = update (has_id id) (redeemed now who fresh) db.vouchers;
  })

unfoldable pub redeem_in_transaction : String → ℕ → ℕ → ℕ → Redeemer → Action Subscription
unfolding recheck record_use provision_in_transaction
redeem_in_transaction uuid now id plan who = do
  fresh ← recheck now id who.user_id
  s ← provision_in_transaction uuid now (params_of who.user_id plan)
  record_use now id who fresh s.id
  pure s

-- `createVpnUserForSubscription`, which runs after the commit and may throw.
abbrev pub VpnCreation : Type 0
VpnCreation = ℕ → Action (Unit {0})

unfoldable pub redeem : VpnCreation → String → ℕ → ℕ → List ℕ → Redeemer → Action Subscription
unfolding normalize preflight redeem_in_transaction
redeem create_vpn_user uuid now later code who = do
  (v, plan) ← preflight now (normalize code)
  s ← with_transaction (redeem_in_transaction uuid later v.id plan.id who)
  create_vpn_user s.id
  audit (some who.user_id) "REDEEM" "vouchers" v.public_id
  pure s

abbrev pub disabled : Voucher → Voucher
disabled v = record v { is_active = false }

unfoldable pub disable : String → Option ℕ → Action Voucher
disable public_id admin = do
  v ←
      or_throw (← gets (λ db. find (has_public_id public_id) db.vouchers))
        (business ErrorCode.not_found "Voucher not found")
  modify (λ db. record db { vouchers = update (has_public_id public_id) disabled db.vouchers })
  audit admin "UPDATE" "vouchers" public_id
  pure (disabled v)

-- The fields that the update may set; an absent one stays.
pub record UpdateInput : Type 0 where
  pub note : Option (Option String)
  pub expires_at : Option (Option ℕ)
  pub max_redemptions : Option ℕ

abbrev pub edited : UpdateInput → Voucher → Voucher
edited input v = record v {
  note = get_or input.note v.note;
  expires_at = get_or input.expires_at v.expires_at;
  max_redemptions = get_or input.max_redemptions v.max_redemptions;
}

unfoldable pub update_voucher : String → UpdateInput → Option ℕ → Action Voucher
update_voucher public_id input admin = do
  v ←
      or_throw (← gets (λ db. find (has_public_id public_id) db.vouchers))
        (business ErrorCode.not_found "Voucher not found")
  modify
      (λ db. record db { vouchers = update (has_public_id public_id) (edited input) db.vouchers })
  audit admin "UPDATE" "vouchers" public_id
  pure (edited input v)

abbrev pub is_taken : List ℕ → List Voucher → Bool
is_taken code vs = is_some (find (has_code code) vs)

abbrev pub is_listed : List ℕ → List (List ℕ) → Bool
is_listed code [] = false
is_listed code (c ∷ cs) = codes_eq code c || is_listed code cs

-- The candidates that `randomCode` draws for one voucher: the first of five that is free.
unfoldable pub mint_one : List Voucher → List (List ℕ) → List (List ℕ) → ℕ → Option (List ℕ)
mint_one vs minted candidates zero = none
mint_one vs minted [] (suc attempts) = none
mint_one vs minted (c ∷ cs) (suc attempts) =
    if not (is_taken c vs) && not (is_listed c minted)
    then some c
    else mint_one vs minted cs attempts

abbrev append_code : Option (List ℕ) → List (List ℕ) → Option (List (List ℕ))
append_code none minted = none
append_code (some c) minted = some (minted ++ (c ∷ []))

-- One voucher after the other; `draws` has the candidates of each.
unfoldable pub mint : List Voucher → List (List (List ℕ)) → List (List ℕ) → Option (List (List ℕ))
unfolding mint_one
mint vs [] minted = some minted
mint vs (candidates ∷ draws) minted = elim (append_code (mint_one vs minted candidates 5) minted) [
  | none ↦ none
  | some minted' ↦ mint vs draws minted'
]

-- `Math.min(Math.max(input.count ?? 1, 1), 500)`
abbrev pub batch_count : Option ℕ → ℕ
batch_count n = min (max (get_or n 1) 1) 500
