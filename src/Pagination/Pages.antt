-- ===== src/Pagination/Pages.antt =====
-- What a client sees of a list that it reads page by page.
use vpn_saas.Base.{
  ℕ, zero, suc, ◌+◌, ◌-◌, ◌*◌, ◌/◌, ◌<◌, ◌≤◌, ◌≡◌, sym, ◌↔◌, true, Option, List, [], ◌++◌, arith,
  length, drop, drop-drop, drop_all, take-append-drop,
}
use native.Mathlib.Nat.{le-div_iff_mul-le, lt-div-mul-add}
use vpn_saas.Base.Int.{ℤ}
use vpn_saas.Pagination.{PaginationParams, parse_pagination, build_meta, page_of}

-- Whatever the query says, the page is between 1 and a million and its size between 1 and 100.
parse_pagination_bounds :
    (page size : Option ℤ)
    → let p = parse_pagination page size in
      (1 ≤ p.page) × (p.page ≤ 1000000) × (1 ≤ p.page_size) × (p.page_size ≤ 100)
unfolding parse_pagination
parse_pagination_bounds page size = ground arith

abbrev pub at_page : ℕ → ℕ → PaginationParams
at_page size n = record { page = n; page_size = size }

-- The pages from `first` on, `rounds` of them, one after the other.
abbrev pub pages_from : {A : Type 0} → ℕ → ℕ → ℕ → List A → List A
pages_from size first zero rows = []
pages_from size first (suc rounds) rows =
    page_of (at_page size first) rows ++ pages_from size (suc first) rounds rows

pages_from-drop :
    {A : Type 0} (size first rounds : ℕ) (rows : List A)
    → length rows ≤ (first + rounds) * size
    → pages_from size (suc first) rounds rows ≡ drop (first * size) rows
pages_from-drop size first zero rows h =
    sym (drop_all (first * size) rows (let e : first + 0 ≡ first = omega arith in rw e at h))
pages_from-drop size first (suc rounds) rows h =
    let start : suc first - 1 ≡ first = omega arith in
    let next : suc first * size ≡ first * size + size = omega arith in
    let bound : length rows ≤ (suc first + rounds) * size =
      let e : first + suc rounds ≡ suc first + rounds = omega arith in rw e at h in
    rw (pages_from-drop size (suc first) rounds rows bound, start)
      (rw (next, ← drop-drop size (first * size) rows)
        (take-append-drop size (drop (first * size) rows)))

ceil_lt :
    (total size n : ℕ) → 1 ≤ size → 1 ≤ total → (n < (total + size - 1) / size) ↔ (n * size < total)
ceil_lt total size n h k = (
  λ below. let m = (le-div_iff_mul-le h).0 below in omega arith,
  λ below. (le-div_iff_mul-le h).1 (omega arith),
)

total_pages_enough :
    (total size : ℕ) → 1 ≤ size → total ≤ (build_meta total (at_page size 1)).total_pages * size
unfolding build_meta
total_pages_enough zero size h = omega arith
total_pages_enough (suc t) size h =
    let cover = lt-div-mul-add {a = suc t + size - 1} h in ground arith

-- For a positive page size, the pages that the metadata counts, read one after the other, are the
-- whole list: no row is missed and none is repeated.
pub all_pages :
    {A : Type 0} (size : ℕ) (rows : List A)
    → 1 ≤ size
    → pages_from size 1 (build_meta (length rows) (at_page size 1)).total_pages rows ≡ rows
all_pages size rows h =
    let start : 0 * size ≡ 0 = omega arith in
    rw
      (pages_from-drop size 0 (build_meta (length rows) (at_page size 1)).total_pages rows
        (omega (arith, total_pages_enough (length rows) size h)))
      (rw start)

-- For a positive page and page size, a next page is reported exactly where rows are left beyond the
-- present one.
build_meta-has_next :
    (total : ℕ) (p : PaginationParams)
    → 1 ≤ p.page
    → 1 ≤ p.page_size
    → ((build_meta total p).has_next ≡ true) ↔ (p.page * p.page_size < total)
unfolding build_meta
build_meta-has_next zero p h k = ground arith
build_meta-has_next (suc t) p h k =
    let (down, up) = ceil_lt (suc t) p.page_size p.page k (omega arith) in
    (λ e. down (ground arith), λ below. ground (arith, up below))
