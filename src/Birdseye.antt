-- ===== src/Birdseye.antt =====
-- pkg/kt/command/birdseye/sorter.go: the order of a table's rows. A loop over an index is a recursion
-- on the comparisons that are left.
pub mod Bubble
pub mod Sorted
mod Tests
use kt_connect.Common.{
  ℕ, zero, suc, Bool, true, false, ◌&&◌, ◌||◌, Option, none, some, List, [], ◌∷◌, if◌then◌else◌,
  ltb, ◌==◌, length, get_elem?, Text,
}
use kt_connect.Common.Outcome.{Outcome, ok, err, panic, ◌>>=◌}

abbrev pub Row : Type 0
Row = List Text

-- `strings.Compare(s, t) > 0`
unfoldable pub text_gt : Text → Text → Bool
text_gt [] t = false
text_gt (c ∷ s) [] = true
text_gt (c ∷ s) (d ∷ t) = ltb d c || (c == d && text_gt s t)

-- `row[i]`
unfoldable pub cell : ℕ → Row → Outcome Text
cell i row = elim (get_elem? row i) [ none ↦ panic | some t ↦ ok t ]

-- The loop that swaps the first cells of two rows.
unfoldable pub swap_cells : ℕ → Row → Row → Outcome (Row × Row)
swap_cells zero a b = ok (a, b)
swap_cells (suc k) (x ∷ a) (y ∷ b) = swap_cells k a b >>= λ p. ok (y ∷ p.0, x ∷ p.1)
swap_cells (suc k) _ _ = panic

-- One comparison: the row that stays, the row that goes on, and whether they were swapped.
unfoldable pub ordered : ℕ → ℕ → Row → Row → Outcome (Row × (Row × Bool))
unfolding cell text_gt swap_cells
ordered width comp_index a b = cell comp_index a >>= λ x. cell comp_index b >>= λ y.
    if text_gt x y
    then (swap_cells width a b >>= λ p. ok (p.0, (p.1, true)))
    else ok (a, (b, false))

-- The inner loop.
unfoldable pub pass : ℕ → ℕ → ℕ → List Row → Outcome (List Row × Bool)
unfolding ordered
pass width comp_index zero svc = ok (svc, false)
pass width comp_index (suc left) (a ∷ b ∷ rest) = ordered width comp_index a b >>= λ o.
    pass width comp_index left (o.1.0 ∷ rest) >>= λ p. ok (o.0 ∷ p.0, o.1.1 || p.1)
pass width comp_index (suc left) _ = panic

-- The outer loop, which ends with a pass that swaps nothing.
unfoldable pub passes : ℕ → ℕ → ℕ → List Row → Outcome (List Row)
unfolding pass
passes width comp_index zero svc = ok svc
passes width comp_index (suc left) svc = pass width comp_index (suc left) svc >>= λ p.
    let rest = passes width comp_index left p.0 in if p.1 then rest else ok p.0

-- SortServiceArray
unfoldable pub sort_service_array : List Row → ℕ → Outcome (List Row)
unfolding passes
sort_service_array [] comp_index = ok []
sort_service_array (row ∷ svc) comp_index = passes (length row) comp_index (length svc) (row ∷ svc)
