-- ===== src/Pagination.antt =====
-- app/pagination.py: one page of an ordered query.
pub mod Items
pub mod Pages
use assignment_cloud_instanc.Prelude.{ℕ, ◌+◌, ◌-◌, ◌*◌, ◌/◌, Bool, List, length, take, drop}
use assignment_cloud_instanc.Database.{Sorter, binds}

-- `tuple[list, int, int]`: the rows of the page, the number of rows, and the number of pages.
pub record Page (A : Type 0) : Type 0 where
  pub items : List A
  pub total : ℕ
  pub total_pages : ℕ

abbrev pub default_size : ℕ
default_size = 10

abbrev pub max_size : ℕ
max_size = 100

-- Pages count from 1; a request for page 0 is refused before (`PageParam`).
abbrev pub offset : ℕ → ℕ → ℕ
offset page size = (page - 1) * size

-- The OFFSET is a parameter of the statement.
abbrev pub offset_binds : ℕ → ℕ → Bool
offset_binds page size = binds (offset page size)

abbrev pub page_count : ℕ → ℕ → ℕ
page_count total size = (total + size - 1) / size

-- The query is its rows after the filters, with the test of its ORDER BY.
unfoldable pub paginate : {A : Type 0} → Sorter A → (A → A → Bool) → List A → ℕ → ℕ → Page A
paginate rows le query page size = record {
  items = take size (drop (offset page size) (rows.order_by le query));
  total = length query;
  total_pages = page_count (length query) size;
}
