-- ===== src/Vouchers/Generate.antt =====
-- The batch of `generate` in src/modules/payments/vouchers.service.ts. `draws` has the candidates
-- that `randomCode` draws for each voucher, `uuids` their public ids.
use vpn_saas.Base.{
  ℕ, zero, suc, Bool, true, false, ◌||◌, not, Option, none, some, List, [], ◌∷◌, String, ltb, ◌==◌,
  str_eq, if◌then◌else◌,
}
use vpn_saas.Base.Int.{ℤ}
use vpn_saas.Base.Table.{find, find_many, create}
use vpn_saas.Store.{
  Action, pure, gets, or_throw, throw_if, modify, if_action, ◌>>=◌, ◌>>◌, Failure, business,
  ErrorCode, get_or, truthy, fresh_id, audit,
}
use vpn_saas.Store.Rows.{Plan, Voucher, VoucherType}
use vpn_saas.Vouchers.{mint, batch_count, is_plan_type}

pub record GenerateInput : Type 0 where
  pub plan_id : Option ℕ
  pub type : Option VoucherType
  pub amount : Option ℤ
  pub count : Option ℕ
  pub max_redemptions : Option ℕ
  pub traffic_limit_gb : Option ℕ
  pub duration_days : Option ℕ
  pub device_limit : Option ℕ
  pub expires_at : Option ℕ
  pub note : Option String

abbrev conflict : String → Failure
conflict message = business ErrorCode.conflict message

abbrev bound_plan : GenerateInput → Action (Option ℕ)
bound_plan input = do
  id ← or_throw (truthy input.plan_id) (conflict "PLAN voucher requires a planId")
  plan ←
      or_throw (← gets (λ db. find (λ (p : Plan). p.id == id) db.plans))
        (business ErrorCode.not_found "Plan not found")
  throw_if (not plan.is_enabled) (conflict "Cannot bind voucher to a disabled plan")
  pure (some plan.id)

first_draws : ℕ → ℕ → (ℕ → List (List ℕ)) → List (List (List ℕ))
first_draws i zero draws = []
first_draws i (suc n) draws = draws i ∷ first_draws (suc i) n draws

abbrev pub new_voucher :
    GenerateInput
    → VoucherType
    → Option ℕ
    → Option ℕ
    → String
    → String
    → List ℕ
    → List Voucher
    → Voucher
new_voucher input type plan admin batch uuid code vs = record {
  id = fresh_id (λ (v : Voucher). v.id) vs;
  public_id = uuid;
  code = code;
  type = type;
  amount = if is_plan_type type then none else input.amount;
  plan_id = plan;
  traffic_limit_gb = input.traffic_limit_gb;
  duration_days = input.duration_days;
  device_limit = input.device_limit;
  max_redemptions = get_or input.max_redemptions 1;
  redemptions = 0;
  expires_at = input.expires_at;
  redeemed_by_id = none;
  used_by_telegram_id = none;
  used_by_ip = none;
  redeemed_at = none;
  is_active = true;
  created_by_id = admin;
  batch_id = some batch;
  note = input.note;
}

-- `createMany`
create_all :
    (String → List ℕ → List Voucher → Voucher)
    → (ℕ → String)
    → ℕ
    → List (List ℕ)
    → List Voucher
    → List Voucher
create_all new uuids i [] vs = vs
create_all new uuids i (code ∷ codes) vs =
    create_all new uuids (suc i) codes (create (new (uuids i) code vs) vs)

abbrev in_batch : String → Option String → Bool
in_batch batch none = false
in_batch batch (some b) = str_eq b batch

unfoldable pub generate :
    (ℕ → String) → String → (ℕ → List (List ℕ)) → GenerateInput → Option ℕ → Action (List Voucher)
unfolding first_draws create_all
generate uuids batch draws input admin = do
  let most : ℕ = get_or input.max_redemptions 1
  throw_if (ltb most 1 || ltb 2147483647 most)
      (conflict "Voucher usage limit must be a positive integer")
  let type : VoucherType = get_or input.type VoucherType.plan
  plan ← if_action (is_plan_type type) (bound_plan input) (pure none)
  codes ←
      or_throw (← gets (λ db. mint db.vouchers (first_draws 0 (batch_count input.count) draws) []))
        (conflict "Failed to generate a unique voucher code")
  modify (λ db. record db {
    vouchers = create_all (new_voucher input type plan admin batch) uuids 0 codes db.vouchers;
  })
  vs ← gets (λ db. find_many (λ (v : Voucher). in_batch batch v.batch_id) db.vouchers)
  audit admin "CREATE" "vouchers" batch
  pure vs
