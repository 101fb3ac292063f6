-- ===== src/Pagination.antt =====
-- Pages of a list (src/common/pagination/pagination.dto.ts). A query value is what `Number` makes
-- of it: no finite number, or one that `Math.trunc` has cut to an integer.
pub mod Pages
use vpn_saas.Base.{
  ℕ, ◌+◌, ◌-◌, ◌*◌, ◌/◌, ◌<◌, min, max, Bool, Option, none, some, List, ltb, ◌==◌, if◌then◌else◌,
  take, drop,
}
use vpn_saas.Base.Int.{ℤ, pos_part}

pub record PaginationParams : Type 0 where
  pub page : ℕ
  pub page_size : ℕ

pub record PaginationMeta : Type 0 where
  pub page : ℕ
  pub page_size : ℕ
  pub total : ℕ
  pub total_pages : ℕ
  pub has_next : Bool
  pub has_prev : Bool

abbrev pub default_page_size : ℕ
default_page_size = 20

abbrev pub max_page_size : ℕ
max_page_size = 100

-- `Number(val)`: `none` where it is not finite. The bounds are never negative, so the negative
-- numbers are those below `min`.
unfoldable pub clamp_int : Option ℤ → ℕ → ℕ → ℕ → ℕ
clamp_int none def lo hi = def
clamp_int (some n) def lo hi = max lo (min hi (pos_part n))

unfoldable pub parse_pagination : Option ℤ → Option ℤ → PaginationParams
unfolding clamp_int
parse_pagination page page_size = record {
  page = clamp_int page 1 1 1000000;
  page_size = clamp_int page_size default_page_size 1 max_page_size;
}

-- `Math.ceil(total / pageSize)` of a positive page size.
unfoldable pub build_meta : ℕ → PaginationParams → PaginationMeta
build_meta total params =
    let total_pages = if total == 0 then 1 else (total + params.page_size - 1) / params.page_size in
    record {
      page = params.page;
      page_size = params.page_size;
      total = total;
      total_pages = total_pages;
      has_next = ltb params.page total_pages;
      has_prev = ltb 1 params.page;
    }

abbrev pub skip : PaginationParams → ℕ
skip params = (params.page - 1) * params.page_size

-- The rows that a query with `...skipTake(params)` returns.
abbrev pub page_of : {A : Type 0} → PaginationParams → List A → List A
page_of params rows = take params.page_size (drop (skip params) rows)
