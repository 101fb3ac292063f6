-- ===== src/Vouchers/Preflight.antt =====
-- The comparison of codes and the checks before a redemption (`normalize`, `codesEq` and
-- `preflight` of src/modules/payments/vouchers.service.ts).
use vpn_saas.Base.{
  ℕ, ◌-◌, Bool, true, false, ◌&&◌, not, Option, none, some, List, [], ◌∷◌, map, String, ltb, leb,
  ◌==◌, str_eq, if◌then◌else◌,
}
use vpn_saas.Base.Table.{find}
use vpn_saas.Base.Texts.{is_space}
use vpn_saas.Store.{
  Action, pure, gets, or_throw, throw_if, ◌>>=◌, ◌>>◌, Failure, business, ErrorCode, truthy,
}
use vpn_saas.Store.Rows.{Plan, Voucher, VoucherType, Db}

trim_left : List ℕ → List ℕ
trim_left [] = []
trim_left (c ∷ cs) = if is_space c then trim_left cs else c ∷ cs

trim_right : List ℕ → List ℕ
trim_right [] = []
trim_right (c ∷ cs) = elim (trim_right cs) [
  | [] ↦ if is_space c then [] else c ∷ []
  | d ∷ ds ↦ c ∷ d ∷ ds
]

abbrev upper : ℕ → ℕ
upper c = if leb b'a' c && leb c b'z' then c - 32 else c

-- `(code || '').trim().toUpperCase()`
unfoldable pub normalize : List ℕ → List ℕ
unfolding trim_left trim_right
normalize code = map upper (trim_right (trim_left code))

unfoldable pub codes_eq : List ℕ → List ℕ → Bool
codes_eq [] [] = true
codes_eq (a ∷ as') (b ∷ bs) = a == b && codes_eq as' bs
codes_eq _ _ = false

abbrev pub has_code : List ℕ → Voucher → Bool
has_code code v = codes_eq v.code code

abbrev pub has_id : ℕ → Voucher → Bool
has_id id v = v.id == id

abbrev pub has_public_id : String → Voucher → Bool
has_public_id public_id v = str_eq v.public_id public_id

abbrev pub is_expired : Option ℕ → ℕ → Bool
is_expired none now = false
is_expired (some at) now = ltb at now

abbrev pub is_plan_type : VoucherType → Bool
is_plan_type VoucherType.plan = true
is_plan_type VoucherType.balance = false

abbrev pub invalid : String → Failure
invalid message = business ErrorCode.voucher_invalid message

abbrev pub out_of_date : Failure
out_of_date = business ErrorCode.voucher_expired "Voucher has expired"

abbrev plan_of : Option ℕ → Db → Option Plan
plan_of none db = none
plan_of (some id) db = find (λ (p : Plan). p.id == id) db.plans

-- The checks before the transaction; they return the voucher and its plan.
unfoldable pub preflight : ℕ → List ℕ → Action (Voucher × Plan)
preflight now code = do
  v ←
      or_throw (← gets (λ db. find (has_code code) db.vouchers))
        (invalid "Invalid or inactive voucher code")
  throw_if (not v.is_active) (invalid "Invalid or inactive voucher code")
  throw_if (is_expired v.expires_at now) out_of_date
  throw_if (leb v.max_redemptions v.redemptions) (invalid "Voucher redemption limit reached")
  throw_if (not (is_plan_type v.type))
      (invalid "This voucher type is not supported for direct activation")
  plan ← or_throw (← gets (plan_of (truthy v.plan_id))) (invalid "Voucher has no bound plan")
  throw_if (not plan.is_enabled) (invalid "The plan bound to this voucher is disabled")
  pure (v, plan)
