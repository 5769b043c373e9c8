-- ===== src/Birdseye/Sorted.antt =====
-- SortServiceArray sorts: its passes are those of Birdseye/Bubble over rows of one width.
use kt_connect.Common.{
  ℕ, zero, suc, ◌≡◌, ◌<◌, refl, sym, ap, ◌∙◌, subst, Bool, true, false, ◌||◌, Option, none, some,
  List, [], ◌∷◌, ◌++◌, if◌then◌else◌, length, get_elem?, Text, All, Bool-cases, inl, inr, arith,
  append_assoc, append-nil,
}
use kt_connect.Common.Outcome.{Outcome, ok}
use kt_connect.Birdseye.{Row, text_gt, cell, swap_cells, ordered, pass, passes, sort_service_array}
use kt_connect.Birdseye.Bubble.{
  carry, Sorted, Below, swapped, kept, Perm-carry, length-carry, All-carry, unswapped,
  Sorted-append, carry-greatest,
}
use mathlib.Core.List.{Perm}
use mathlib.Core.List.Perm

text_gt-asym : (s t : Text) → text_gt s t ≡ true → text_gt t s ≡ false
unfolding text_gt
text_gt-asym [] t h = absurd (cc h)
text_gt-asym (c ∷ s) [] h = refl
text_gt-asym (c ∷ s) (d ∷ t) h = ground (arith, text_gt-asym s t)

text_gt_irrefl : (s : Text) → text_gt s s ≡ false
unfolding text_gt
text_gt_irrefl [] = refl
text_gt_irrefl (c ∷ s) = ground (arith, text_gt_irrefl s)

text_gt_trans : (s t u : Text) → text_gt s t ≡ false → text_gt t u ≡ false → text_gt s u ≡ false
unfolding text_gt
text_gt_trans [] t u h k = refl
text_gt_trans (c ∷ s) [] u h k = absurd (cc h)
text_gt_trans (c ∷ s) (d ∷ t) [] h k = absurd (cc k)
text_gt_trans (c ∷ s) (d ∷ t) (e ∷ u) h k = ground (arith, text_gt_trans s t u)

abbrev value : Option Text → Text
value none = []
value (some t) = t

-- Whether the cell of one row is greater than that of the other.
abbrev pub greater : ℕ → Row → Row → Bool
greater i a b = text_gt (value (get_elem? a i)) (value (get_elem? b i))

-- The result of a sort by a column: a sorted permutation.
pub IsSortOf : ℕ → List Row → Outcome (List Row) → Type 0
IsSortOf i svc result =
    (out : List Row) × ((result ≡ ok out) × (Perm svc out × Sorted (greater i) out))

abbrev pub HasWidth : ℕ → Row → Type 0
HasWidth w row = length row ≡ w

cell_lem : (i : ℕ) (row : Row) → i < length row → cell i row ≡ ok (value (get_elem? row i))
unfolding cell
cell_lem i [] h = absurd (omega (arith, h))
cell_lem zero (t ∷ row) h = refl
cell_lem (suc i) (t ∷ row) h = cell_lem i row (omega (arith, h))

swap_cells_lem : (w : ℕ) (a b : Row) → HasWidth w a → HasWidth w b → swap_cells w a b ≡ ok (b, a)
unfolding swap_cells
swap_cells_lem zero [] [] p q = refl
swap_cells_lem zero (x ∷ a) b p q = absurd (omega (arith, p))
swap_cells_lem zero [] (y ∷ b) p q = absurd (omega (arith, q))
swap_cells_lem (suc w) [] b p q = absurd (omega (arith, p))
swap_cells_lem (suc w) (x ∷ a) [] p q = absurd (omega (arith, q))
swap_cells_lem (suc w) (x ∷ a) (y ∷ b) p q =
    rw (swap_cells_lem w a b (omega (arith, p)) (omega (arith, q))) refl

module _ (w i : ℕ) (inside : i < w) where
  in_row : (row : Row) → HasWidth w row → cell i row ≡ ok (value (get_elem? row i))
  in_row row h = cell_lem i row (omega (arith, inside, h))

  ordered_lem :
      (a b : Row)
      → HasWidth w a
      → HasWidth w b
      → ordered w i a b ≡ ok (if greater i a b then (b, (a, true)) else (a, (b, false)))
  unfolding ordered
  ordered_lem a b p q = elim (Bool-cases (greater i a b)) [
    | inl h ↦ rw (in_row a p, in_row b q, h, swap_cells_lem w a b p q) refl
    | inr h ↦ rw (in_row a p, in_row b q, h) refl
  ]

  carried_on :
      (a b : Row) (rest : List Row) (n : ℕ)
      → HasWidth w a
      → HasWidth w b
      → (out : List Row × Bool) → pass w i n ((if greater i a b then a else b) ∷ rest) ≡ ok out
      → pass w i (suc n) (a ∷ b ∷ rest)
        ≡ ok ((if greater i a b then b else a) ∷ out.0, greater i a b || out.1)
  unfolding pass
  carried_on a b rest n p q out more = elim (Bool-cases (greater i a b)) [
    | inl h ↦
        let step : pass w i n (a ∷ rest) ≡ ok out =
          sym (ap (λ c. pass w i n ((if c then a else b) ∷ rest)) h) ∙ more in
        rw (ordered_lem a b p q, h, step) refl
    | inr h ↦
        let step : pass w i n (b ∷ rest) ≡ ok out =
          sym (ap (λ c. pass w i n ((if c then a else b) ∷ rest)) h) ∙ more in
        rw (ordered_lem a b p q, h, step) refl
  ]

  -- What a pass over the first list leaves in front of the second.
  abbrev passed : Row → List Row → List Row → List Row × Bool
  passed a r suf = (
    (carry (greater i) a r).0 ++ ((carry (greater i) a r).1.0 ∷ suf),
    (carry (greater i) a r).1.1,
  )

  pass-carry :
      (a : Row) (r suf : List Row)
      → HasWidth w a
      → All (HasWidth w) r
      → pass w i (length r) (a ∷ r ++ suf) ≡ ok (passed a r suf)
  pass-carry a [] suf p ps = unfold pass carry in refl
  pass-carry a (b ∷ r) suf p (q, ps) = elim (Bool-cases (greater i a b)) [
    | inl h ↦
        carried_on a b (r ++ suf) (length r) p q (passed a r suf) (rw h (pass-carry a r suf p ps))
        ∙ rw (h, swapped (greater i) a b r h) refl
    | inr h ↦
        carried_on a b (r ++ suf) (length r) p q (passed b r suf) (rw h (pass-carry b r suf q ps))
        ∙ rw (h, kept (greater i) a b r h) refl
  ]

  carried-Below :
      (a : Row) (r suf : List Row)
      → Below (greater i) (a ∷ r) suf
      → Sorted (greater i) suf
      → Sorted (greater i) ((carry (greater i) a r).1.0 ∷ suf)
  carried-Below a r [] b s = tt
  carried-Below a r (c ∷ suf) (first, others) s =
      ((All-carry (greater i) (λ p. greater i p c ≡ false) a r first others).1, s)

  perm_middle : {x : Row} (l suf : List Row) → Perm (l ++ (x ∷ suf)) (x ∷ l ++ suf)
  perm_middle {x} [] suf = Perm.refl (x ∷ suf)
  perm_middle {x} (y ∷ l) suf =
      Perm.trans (Perm.cons y (perm_middle l suf)) (Perm.swap x y (l ++ suf))

  Perm-passed : (a : Row) (r suf : List Row) → Perm ((a ∷ r) ++ suf) (passed a r suf).0
  Perm-passed a r suf =
      Perm.trans (Perm.append_right suf (Perm-carry (greater i) a r))
        (Perm.symm (perm_middle (carry (greater i) a r).0 suf))

  greatest :
      (a : Row) (r : List Row)
      → All (λ y. greater i y (carry (greater i) a r).1.0 ≡ false) (carry (greater i) a r).0
  greatest a r =
      (carry-greatest (greater i)
        (λ x y. text_gt-asym (value (get_elem? x i)) (value (get_elem? y i)))
        (λ x y z.
          text_gt_trans (value (get_elem? x i)) (value (get_elem? y i)) (value (get_elem? z i)))
        (λ x. text_gt_irrefl (value (get_elem? x i))) a r).1

  pass_once :
      (left : ℕ) (svc : List Row) (out : List Row × Bool)
      → pass w i (suc left) svc ≡ ok out
      → passes w i (suc left) svc ≡ (if out.1 then passes w i left out.0 else ok out.0)
  unfolding passes
  pass_once left svc out h = rw h refl

  more_passes :
      (svc : List Row) (left : ℕ) (out : List Row)
      → Perm svc out
      → IsSortOf i out (passes w i left out)
      → IsSortOf i svc (passes w i left out)
  unfolding IsSortOf
  more_passes svc left out p (end, (ran, (q, s))) = (end, (ran, (Perm.trans p q, s)))

  no_more : (svc out : List Row) → Perm svc out → Sorted (greater i) out → IsSortOf i svc (ok out)
  unfolding IsSortOf
  no_more svc out p s = (out, (refl, (p, s)))

  -- The passes over the first list, with the second one sorted and above it.
  passes_sort :
      (left : ℕ) (l suf : List Row)
      → length l ≡ suc left
      → All (HasWidth w) l
      → Below (greater i) l suf
      → Sorted (greater i) suf
      → IsSortOf i (l ++ suf) (passes w i left (l ++ suf))
  passes_sort left [] suf n ps b s = absurd (omega (arith, n))
  passes_sort zero (a ∷ []) suf n ps b s =
      unfold passes in
      no_more (a ∷ suf) (a ∷ suf) (Perm.refl (a ∷ suf))
        (Sorted-append (greater i) (a ∷ []) suf tt b s)
  passes_sort zero (a ∷ c ∷ r) suf n ps b s = absurd (omega (arith, n))
  passes_sort (suc left) (a ∷ r) suf n (p, ps) b s =
      let many : length r ≡ suc left = omega (arith, n) in
      let ran : pass w i (suc left) (a ∷ r ++ suf) ≡ ok (passed a r suf) =
        ap (λ k. pass w i k (a ∷ r ++ suf)) (sym many) ∙ pass-carry a r suf p ps in
      let once = pass_once left (a ∷ r ++ suf) (passed a r suf) ran in
      elim (Bool-cases (carry (greater i) a r).1.1) [
        | inl flag ↦
            rw (once, flag)
              (more_passes (a ∷ r ++ suf) left (passed a r suf).0 (Perm-passed a r suf) (
                passes_sort left (carry (greater i) a r).0 ((carry (greater i) a r).1.0 ∷ suf)
                  (length-carry (greater i) a r ∙ many)
                  (All-carry (greater i) (HasWidth w) a r p ps).0 (greatest a r)
                  (carried-Below a r suf b s)))
        | inr flag ↦
            rw (once, flag)
              (no_more (a ∷ r ++ suf) (passed a r suf).0 (Perm-passed a r suf)
                (still a r suf b s (unswapped (greater i) a r flag)))
      ]
    where
      still :
          (a : Row) (r suf : List Row)
          → Below (greater i) (a ∷ r) suf
          → Sorted (greater i) suf
          → ((carry (greater i) a r).0 ++ ((carry (greater i) a r).1.0 ∷ []) ≡ a ∷ r)
            × Sorted (greater i) (a ∷ r)
          → Sorted (greater i) (passed a r suf).0
      still a r suf b s (same, sorted) =
          subst (Sorted (greater i))
            (ap (λ l. l ++ suf) (sym same)
              ∙ append_assoc (carry (greater i) a r).0 ((carry (greater i) a r).1.0 ∷ []) suf)
            (Sorted-append (greater i) (a ∷ r) suf sorted b s)

-- A table whose rows have one width is sorted by any of its columns: SortServiceArray returns a
-- permutation of the rows in which no row's cell of this column is greater than the next one's.
pub sort_service_array_lem :
    (svc : List Row) (i w : ℕ)
    → i < w
    → All (HasWidth w) svc
    → IsSortOf i svc (sort_service_array svc i)
sort_service_array_lem [] i w inside ps =
    unfold sort_service_array in no_more w i inside [] [] Perm.nil tt
sort_service_array_lem (row ∷ svc) i w inside (p, ps) =
    unfold sort_service_array in
    rw p (
      rw (sym (append-nil (row ∷ svc)))
        (passes_sort w i inside (length svc) (row ∷ svc) [] refl (p, ps) tt tt))
