-- ===== src/Pagination/Pages.antt =====
-- The pages of `paginate` (app/pagination.py) together.
use native.Mathlib.Nat.{suc-mul, suc-add, lt-div-mul-add, le_trans, mul-le-mul_right}
use assignment_cloud_instanc.Prelude.{
  ℕ, zero, suc, ◌+◌, ◌-◌, ◌*◌, ◌≤◌, ◌<◌, ◌≡◌, sym, ap, ◌∙◌, Bool, List, [], ◌∷◌, ◌++◌, arith,
  length, take, drop, take-nil, take_of_length-le, drop_of_length-le,
}
use assignment_cloud_instanc.Database.{Sorter}
use assignment_cloud_instanc.Database.Sorting.{length-order_by}
use assignment_cloud_instanc.Pagination.{offset, page_count, paginate}

take-add : {A : Type 0} (m n : ℕ) (xs : List A) → take (m + n) xs ≡ take m xs ++ take n (drop m xs)
take-add zero n xs = ap (λ k. take k xs) (omega arith)
take-add (suc m) n [] = take-nil (suc m + n) ∙ sym (take-nil n)
take-add (suc m) n (x ∷ xs) = rw suc-add (ap (◌∷◌ x) (take-add m n xs))

pages_cover : (total size : ℕ) → 0 < size → total ≤ page_count total size * size
pages_cover total size h = omega (arith, lt-div-mul-add {a = total + size - 1} h)

past_end :
    (total size page : ℕ) → 0 < size → page_count total size < page → total ≤ offset page size
past_end total size page h past =
    le_trans (pages_cover total size h) (mul-le-mul_right size (omega arith))

module _ {A : Type 0} (rows : Sorter A) (le : A → A → Bool) (query : List A) (size : ℕ) where
  abbrev pub page_items : ℕ → List A
  page_items page = (paginate rows le query page size).items

  -- The pages 1 to n, read one after the other.
  abbrev pub first_pages : ℕ → List A
  first_pages zero = []
  first_pages (suc n) = first_pages n ++ page_items (suc n)

  first_pages-take : (n : ℕ) → first_pages n ≡ take (n * size) (rows.order_by le query)
  unfolding paginate
  first_pages-take zero =
      let none_yet : 0 ≡ 0 * size = omega arith in
      ap (λ k. take k (rows.order_by le query)) none_yet
  first_pages-take (suc n) =
      let ordered = rows.order_by le query in
      let skip : offset (suc n) size ≡ n * size =
        let one_less : suc n - 1 ≡ n = omega arith in ap (λ k. k * size) one_less in
      rw (first_pages-take n, skip, suc-mul, take-add (n * size) size ordered)

module _ {A : Type 0} (rows : Sorter A) (le : A → A → Bool) (query : List A) (size : ℕ) where
  abbrev pub last_page : ℕ
  last_page = page_count (length query) size

  -- For a page size above 0, the pages 1 to `totalPages` of a query, read one after the other,
  -- are the rows of the query in its order, and every later page is empty.
  pub pages_partition :
      0 < size
      → (first_pages rows le query size (paginate rows le query 1 size).total_pages
          ≡ rows.order_by le query)
        × ((k : ℕ)
            → page_items rows le query size ((paginate rows le query 1 size).total_pages + suc k)
              ≡ [])
  unfolding paginate
  pages_partition h = (
    first_pages-take rows le query size last_page
        ∙ take_of_length-le (last_page * size) ordered
            (rw (length-order_by rows le query) (pages_cover (length query) size h)),
    λ k.
        rw
          (drop_of_length-le (offset (last_page + suc k) size) ordered (
            rw (length-order_by rows le query)
              (past_end (length query) size (last_page + suc k) h (omega arith))))
          (take-nil size),
  )
    where
      ordered : List A
      ordered = rows.order_by le query
