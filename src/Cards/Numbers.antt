-- ===== src/Cards/Numbers.antt =====
-- Card numbers and Shebas: their normal form, the Luhn test, the masked form and the checks of an
-- input.
use vpn_saas.Base.{
  ℕ, ◌+◌, ◌-◌, ◌*◌, ◌%◌, Bool, true, false, ◌&&◌, not, Option, none, some, String, List, [], ◌∷◌,
  ltb, leb, ◌==◌, if◌then◌else◌, length,
}
use Prim.Native.String.{◌++◌ as text_append}
use vpn_saas.Base.Texts.{digit_value, all_digits, without_separators, reversed, trim, within}
use vpn_saas.Store.{Action, pure, throw_if, ◌>>◌, business, ErrorCode, Failure}

abbrev pub normalize_card_number : List ℕ → List ℕ
normalize_card_number value = without_separators value

-- A digit's share of the sum, doubled at every second place from the end.
abbrev pub share : Bool → ℕ → ℕ
share false c = digit_value c
share true c = if ltb 9 (digit_value c * 2) then digit_value c * 2 - 9 else digit_value c * 2

-- The sum over digits that are listed from the end.
abbrev pub luhn_sum : Bool → List ℕ → ℕ
luhn_sum doubled [] = 0
luhn_sum doubled (c ∷ cs) = share doubled c + luhn_sum (not doubled) cs

-- `/^0+$/`, of a text that is not empty
abbrev pub all_zeros : List ℕ → Bool
all_zeros [] = true
all_zeros (c ∷ cs) = (c == b'0') && all_zeros cs

unfoldable pub is_valid_card_number : List ℕ → Bool
is_valid_card_number value =
    let card = normalize_card_number value in
    (length card == 16)
    && (all_digits card && (not (all_zeros card) && (luhn_sum false (reversed card) % 10 == 0)))

abbrev dots : ℕ → List ℕ → List ℕ
dots n [] = []
dots n (c ∷ cs) = if ltb n (length (c ∷ cs)) then 8226 ∷ dots n cs else c ∷ cs

-- All but the last four digits hidden.
unfoldable pub mask_card_number : List ℕ → List ℕ
mask_card_number value =
    let card = normalize_card_number value in
    if leb (length card) 4 then 8226 ∷ 8226 ∷ 8226 ∷ 8226 ∷ [] else dots 4 card

abbrev pub invalid : String → Failure
invalid message = business ErrorCode.validation_error message

abbrev pub is_empty : List ℕ → Bool
is_empty [] = true
is_empty (c ∷ cs) = false

abbrev pub checked_card_number : List ℕ → Action (List ℕ)
checked_card_number value = do
  throw_if (not (is_valid_card_number (normalize_card_number value)))
      (invalid "Invalid card number")
  pure (normalize_card_number value)

abbrev pub checked_text : List ℕ → String → Action (List ℕ)
checked_text value field = do
  throw_if (is_empty (trim value)) (invalid (text_append field " is required"))
  pure (trim value)

abbrev is_account : List ℕ → Bool
is_account digits = all_digits digits && within 16 32 (length digits)

-- `/^(IR)?\d{16,32}$/`
abbrev pub is_sheba : List ℕ → Bool
is_sheba [] = false
is_sheba (c ∷ []) = false
is_sheba (c ∷ d ∷ cs) =
    if (c == b'I') && (d == b'R') then is_account cs else is_account (c ∷ d ∷ cs)

abbrev pub checked_sheba : (List ℕ → List ℕ) → Option (List ℕ) → Action (Option (List ℕ))
checked_sheba upper none = pure none
checked_sheba upper (some value) = do
  throw_if (not (is_sheba (upper (without_separators value)))) (invalid "Invalid sheba number")
  pure (some (upper (without_separators value)))
