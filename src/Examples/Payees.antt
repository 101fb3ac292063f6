-- ===== src/Examples/Payees.antt =====
-- Runs of the cards that users pay to.
use vpn_saas.Base.{ℕ, ◌≤◌, ◌≡◌, refl, true, false, none, some, List, [], ◌∷◌, ◌++◌, arith}
use vpn_saas.Examples.{shop}
use vpn_saas.Cards.{CardInput, is_valid_card_number}
use vpn_saas.Cards.Luhn.{digit_changed}
use vpn_saas.Cards.Defaults.{
  Call, to_create, to_remove, to_set_default, defaults, history, history-defaults,
}

-- 6037-9915 2345 678 and its check digit 2, read up to the second digit of the second group.
abbrev before : List ℕ
before = b'6' ∷ b'0' ∷ b'3' ∷ b'7' ∷ b'-' ∷ b'9' ∷ []

abbrev after : List ℕ
after = b'1' ∷ b'5' ∷ b' ' ∷ b'2' ∷ b'3' ∷ b'4' ∷ b'5' ∷ b'6' ∷ b'7' ∷ b'8' ∷ b'2' ∷ []

nothing_else : ◌≡◌ {A = ℕ} b'9' b'8' → ⊥
nothing_else h = omega arith

digit_changed_example : is_valid_card_number (before ++ b'8' ∷ after) ≡ false
unfolding is_valid_card_number
digit_changed_example = digit_changed before b'9' b'8' after refl refl nothing_else refl

abbrev first_card : CardInput
first_card = record {
  card_number = before ++ b'9' ∷ after;
  card_holder = b'A' ∷ [];
  bank_name = b'B' ∷ [];
  sheba_number = none;
  label = none;
  is_active = none;
  is_default = some true;
  sort_order = none;
}

abbrev calls : List Call
calls =
    to_create "c-1" first_card none
    ∷ to_create "c-2" first_card none
    ∷ to_set_default "c-1" none
    ∷ to_remove "c-2" none
    ∷ []

history-defaults_example : defaults (history (λ text. text) calls shop) ≤ 1
history-defaults_example = history-defaults (λ text. text) calls shop (omega arith)
