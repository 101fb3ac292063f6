-- ===== src/Examples/Numbers.antt =====
-- Money and pages.
use vpn_saas.Base.{ℕ, ◌≡◌, some, List, [], ◌∷◌, arith}
use vpn_saas.Base.Int.{negsuc}
use vpn_saas.Money.{from_minor, to_minor}
use vpn_saas.Money.RoundTrip.{to_minor-from_minor}
use vpn_saas.Pagination.{build_meta}
use vpn_saas.Pagination.Pages.{all_pages, at_page, pages_from}

to_minor-from_minor_example : to_minor (from_minor (negsuc 1204)) ≡ some (negsuc 1204)
to_minor-from_minor_example = to_minor-from_minor (negsuc 1204)

abbrev three_rows : List ℕ
three_rows = 1 ∷ 2 ∷ 3 ∷ []

all_pages_example : pages_from 2 1 (build_meta 3 (at_page 2 1)).total_pages three_rows ≡ three_rows
all_pages_example = all_pages 2 three_rows (omega arith)
