-- ===== src/Monitor/Window.antt =====
-- The page that `_scan` (app/services/monitor_service.py) picks out while it walks.
use assignment_cloud_instanc.Prelude.{
  ℕ, zero, suc, ◌+◌, ◌≤◌, ◌≡◌, refl, sym, ◌∙◌, List, [], ◌∷◌, ◌++◌, append-nil, append_assoc, arith,
  length, take, drop, take-nil,
}
use assignment_cloud_instanc.Models.{Instance}
use assignment_cloud_instanc.Pagination.{offset}
use assignment_cloud_instanc.Monitor.{Walk, visit_one, visit}

module _ (page size : ℕ) where
  pub total-visit :
      (xs : List Instance) (w : Walk) → (visit page size xs w).total ≡ w.total + length xs
  unfolding visit
  total-visit [] w = omega arith
  total-visit (x ∷ xs) w = omega (arith, total-visit xs (visit_one page size w x))

  pub visit-append :
      (xs ys : List Instance) (w : Walk)
      → visit page size (xs ++ ys) w ≡ visit page size ys (visit page size xs w)
  unfolding visit
  visit-append [] ys w = refl
  visit-append (x ∷ xs) ys w = visit-append xs ys (visit_one page size w x)

  -- `visit` reads and writes the items and the total only.
  pub visit_fields :
      (xs : List Instance) (w w' : Walk)
      → w.items ≡ w'.items
      → w.total ≡ w'.total
      → ((visit page size xs w).items ≡ (visit page size xs w').items)
        × ((visit page size xs w).total ≡ (visit page size xs w').total)
  unfolding visit
  visit_fields [] w w' e f = (e, f)
  visit_fields (x ∷ xs) w w' e f = visit_fields xs _ _ (rw (e, f) refl) (rw f refl)

  past_window :
      (xs : List Instance) (w : Walk)
      → offset page size + size ≤ w.total
      → (visit page size xs w).items ≡ w.items
  unfolding visit
  past_window [] w h = refl
  past_window (x ∷ xs) w h = past_window xs (visit_one page size w x) (omega arith) ∙ ground arith

  in_window :
      (c : ℕ) (xs : List Instance) (w : Walk)
      → offset page size ≤ w.total
      → w.total + c ≡ offset page size + size
      → (visit page size xs w).items ≡ w.items ++ take c xs
  unfolding visit
  in_window zero xs w h e = past_window xs w (omega arith) ∙ sym (append-nil w.items)
  in_window (suc c) [] w h e = sym (append-nil w.items)
  in_window (suc c) (x ∷ xs) w h e =
      in_window c xs (visit_one page size w x) (omega arith) (omega arith)
      ∙ ground (arith, append_assoc w.items (x ∷ []) (take c xs))

  before_window :
      (k : ℕ) (xs : List Instance) (w : Walk)
      → w.total + k ≡ offset page size
      → (visit page size xs w).items ≡ w.items ++ take size (drop k xs)
  unfolding visit
  before_window zero xs w e = in_window size xs w (omega arith) (omega arith)
  before_window (suc k) [] w e = rw (take-nil size) (sym (append-nil w.items))
  before_window (suc k) (x ∷ xs) w e =
      before_window k xs (visit_one page size w x) (omega arith) ∙ ground arith

  -- From the first row on, the walk keeps the rows of the page and counts all of them.
  pub items-visit :
      (xs : List Instance) (w : Walk)
      → w.items ≡ []
      → w.total ≡ 0
      → (visit page size xs w).items ≡ take size (drop (offset page size) xs)
  items-visit xs w e f = before_window (offset page size) xs w (omega arith) ∙ rw e refl
