-- ===== src/Vouchers/Minting.antt =====
-- The codes of a batch (`generate` of src/modules/payments/vouchers.service.ts).
use vpn_saas.Base.{
  ℕ, zero, suc, ◌+◌, ◌≡◌, refl, ◌∙◌, false, some, List, [], ◌∷◌, ◌++◌, arith, inl, inr, Bool-cases,
  Option-cases, length, length-append, All,
}
use mathlib.Core.Path.{subst}
use vpn_saas.Base.Table.Laws.{All-create}
use vpn_saas.Store.Rows.{Voucher}
use vpn_saas.Vouchers.{mint, mint_one, is_taken, is_listed, codes_eq}

mint_one_lem :
    (vs : List Voucher) (minted candidates : List (List ℕ)) (attempts : ℕ) {c : List ℕ}
    → mint_one vs minted candidates attempts ≡ some c
    → (is_taken c vs ≡ false) × (is_listed c minted ≡ false)
unfolding mint_one
mint_one_lem vs minted candidates zero e = cc
mint_one_lem vs minted [] (suc attempts) e = cc
mint_one_lem vs minted (d ∷ ds) (suc attempts) {c} e = elim (Bool-cases (is_taken d vs)) [
  | inl taken ↦ mint_one_lem vs minted ds attempts (rw taken at e)
  | inr free ↦ elim (Bool-cases (is_listed d minted)) [
    | inl listed ↦ mint_one_lem vs minted ds attempts (rw listed at (rw free at e))
    | inr new ↦
        let same : some d ≡ some c = rw new at (rw free at e) in
        let d_c : d ≡ c = cc in (rw (← d_c) free, rw (← d_c) new)
  ]
]

codes_eq_sym : (a b : List ℕ) → codes_eq a b ≡ codes_eq b a
unfolding codes_eq
codes_eq_sym [] [] = refl
codes_eq_sym [] (y ∷ ys) = refl
codes_eq_sym (x ∷ xs) [] = refl
codes_eq_sym (x ∷ xs) (y ∷ ys) = ground (arith, codes_eq_sym xs ys)

-- No code stands in the list twice.
abbrev pub Unrepeated : List (List ℕ) → Type 0
Unrepeated [] = Unit {0}
Unrepeated (c ∷ cs) = (is_listed c cs ≡ false) × Unrepeated cs

is_listed-append :
    (a c : List ℕ) (cs : List (List ℕ))
    → is_listed a cs ≡ false
    → codes_eq a c ≡ false
    → is_listed a (cs ++ (c ∷ [])) ≡ false
is_listed-append a c [] h k = rw k refl
is_listed-append a c (d ∷ ds) h k = ground (arith, is_listed-append a c ds)

Unrepeated-append :
    (cs : List (List ℕ)) (c : List ℕ)
    → Unrepeated cs
    → is_listed c cs ≡ false
    → Unrepeated (cs ++ (c ∷ []))
Unrepeated-append [] c h k = (refl, tt)
Unrepeated-append (d ∷ ds) c (first, rest) k =
    let apart : (codes_eq c d ≡ false) × (is_listed c ds ≡ false) = (ground arith, ground arith) in
    (
      is_listed-append d c ds first (codes_eq_sym d c ∙ apart.0),
      Unrepeated-append ds c rest apart.1,
    )

module _ (vs : List Voucher) where
  abbrev pub IsFree : List ℕ → Type 0
  IsFree c = is_taken c vs ≡ false

  mint-from :
      (draws : List (List (List ℕ))) (minted : List (List ℕ)) {codes : List (List ℕ)}
      → mint vs draws minted ≡ some codes
      → All IsFree minted
      → Unrepeated minted
      → (length codes ≡ length draws + length minted) × All IsFree codes × Unrepeated codes
  unfolding mint
  mint-from [] minted {codes} e free once =
      let same : minted ≡ codes = cc in
      subst (λ cs. (length cs ≡ 0 + length minted) × All IsFree cs × Unrepeated cs) same
        (omega arith, free, once)
  mint-from (candidates ∷ draws) minted {codes} e free once =
      elim (Option-cases (mint_one vs minted candidates 5)) [
        | inl failed ↦ absurd (let k = rw (failed, mint) at e in cc)
        | inr (c, found) ↦
            let (c_free, c_new) = mint_one_lem vs minted candidates 5 found in
            let (size, all_free, unrepeated) =
              mint-from draws (minted ++ (c ∷ [])) (rw (found, mint) at e)
                (All-create IsFree c minted free c_free) (Unrepeated-append minted c once c_new) in
            (let longer = length-append minted (c ∷ []) in omega arith, all_free, unrepeated)
      ]

  -- Whatever candidates are drawn, a batch that is minted has one code for each voucher asked for;
  -- no voucher in the table has any of them, and no two of them are the same.
  pub mint_lem :
      (draws : List (List (List ℕ))) {codes : List (List ℕ)}
      → mint vs draws [] ≡ some codes
      → (length codes ≡ length draws) × All IsFree codes × Unrepeated codes
  mint_lem draws e =
      let (size, free, unrepeated) = mint-from draws [] e tt tt in (omega arith, free, unrepeated)
