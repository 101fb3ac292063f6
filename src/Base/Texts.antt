-- ===== src/Base/Texts.antt =====
-- Texts as lists of code points, where the code takes them apart: white space, digits, `trim`.
use Prim.Native.Char.{code}
use Prim.Native.String.{String}
use Prim.Native.Nat.{ℕ, ◌+◌, ◌-◌, ◌*◌}
use mathlib.Core.Bool.{Bool, true, false, ◌&&◌, ◌||◌, not}
use mathlib.Core.List.{List, [], ◌∷◌, ◌++◌}
use vpn_saas.Base.Tests.{leb, ◌==◌, if◌then◌else◌}
use vpn_saas.Base.Table.{find_many}

abbrev pub within : ℕ → ℕ → ℕ → Bool
within low high c = leb low c && leb c high

-- `\s` of a regular expression, which is also what `trim` removes.
abbrev pub is_space : ℕ → Bool
is_space c =
    within 9 13 c
    || (c == 32
        || (c == 160
            || (c == 5760
                || (within 8192 8202 c
                    || (within 8232 8233 c
                        || (c == 8239 || (c == 8287 || (c == 12288 || c == 65279))))))))

-- `\d` of a regular expression.
abbrev pub is_digit : ℕ → Bool
is_digit c = within b'0' b'9' c

abbrev pub digit_value : ℕ → ℕ
digit_value c = c - b'0'

-- `replace(/[\s-]/g, '')`
abbrev pub without_separators : List ℕ → List ℕ
without_separators text = find_many (λ c. not (is_space c || c == b'-')) text

abbrev pub drop_spaces : List ℕ → List ℕ
drop_spaces [] = []
drop_spaces (c ∷ cs) = if is_space c then drop_spaces cs else c ∷ cs

abbrev pub reversed : List ℕ → List ℕ
reversed [] = []
reversed (c ∷ cs) = reversed cs ++ (c ∷ [])

abbrev pub trim : List ℕ → List ℕ
trim text = reversed (drop_spaces (reversed (drop_spaces text)))

abbrev pub all_digits : List ℕ → Bool
all_digits [] = true
all_digits (c ∷ cs) = is_digit c && all_digits cs

-- The number that digits write, the first digit the highest.
abbrev pub number_from : ℕ → List ℕ → ℕ
number_from n [] = n
number_from n (c ∷ cs) = number_from (n * 10 + digit_value c) cs

-- The code points of a text.
abbrev pub codes : String → List ℕ
codes String.[] = []
codes (String.◌∷◌ c s) = code c ∷ codes s

abbrev pub same_codes : List ℕ → List ℕ → Bool
same_codes [] [] = true
same_codes (c ∷ cs) (d ∷ ds) = (c == d) && same_codes cs ds
same_codes _ _ = false

abbrev pub starts_with : List ℕ → List ℕ → Bool
starts_with [] text = true
starts_with (c ∷ cs) [] = false
starts_with (c ∷ cs) (d ∷ ds) = (c == d) && starts_with cs ds

-- Whether a text stands in another.
abbrev pub stands_in : List ℕ → List ℕ → Bool
stands_in word [] = starts_with word []
stands_in word (c ∷ cs) = starts_with word (c ∷ cs) || stands_in word cs

abbrev pub lower : ℕ → ℕ
lower c = if within b'A' b'Z' c then c + 32 else c
