-- ===== src/Collection/Arrays.antt =====
-- ArrayDelete and ArrayEquals.
use kt_connect.Common.{
  ◌+◌, ◌≡◌, ◌≢◌, ◌↔◌, refl, subst, true, false, List, [], ◌∷◌, arith, ◌==◌, ==_iff, length, Text,
  text_eq, text_eq_iff, text_eq_refl, Bool-cases, inl, inr, &&_split,
}
use kt_connect.Collection.{contains, each_in, array_equals, count_item, keep_others, array_delete}

keep_others_lem :
    (arr : List Text) (item : Text)
    → (contains (keep_others arr item) item ≡ false)
      × (length (keep_others arr item) + count_item arr item ≡ length arr)
unfolding contains keep_others count_item
keep_others_lem [] item = (refl, refl)
keep_others_lem (v ∷ arr) item =
    let (gone, size) = keep_others_lem arr item in
    elim (Bool-cases (text_eq v item)) [
      | inl same ↦ rw same (gone, omega (arith, size))
      | inr differ ↦ rw (differ, differ) (gone, omega (arith, size))
    ]

contains-keep_others :
    (arr : List Text) (item other : Text)
    → other ≢ item
    → contains (keep_others arr item) other ≡ contains arr other
unfolding contains keep_others
contains-keep_others [] item other h = refl
contains-keep_others (v ∷ arr) item other h =
    ground (arith, contains-keep_others arr item other h, text_eq_iff v item, text_eq_iff v other)

none_counted : (arr : List Text) (item : Text) → count_item arr item ≡ 0 → contains arr item ≡ false
unfolding contains count_item
none_counted [] item h = refl
none_counted (v ∷ arr) item h = ground (arith, none_counted arr item)

-- ArrayDelete leaves no copy of the item, keeps the membership of every other text, and shortens the
-- array by exactly the number of the copies.
pub array_delete_lem :
    (arr : List Text) (item : Text)
    → (contains (array_delete arr item) item ≡ false)
      × (((other : Text)
            → other ≢ item
            → contains (array_delete arr item) other ≡ contains arr other)
          × (length (array_delete arr item) + count_item arr item ≡ length arr))
unfolding array_delete
array_delete_lem arr item = elim (Bool-cases (count_item arr item == 0)) [
  | inl nothing ↦
      let zero_count = (==_iff (count_item arr item) 0).0 nothing in
      rw nothing (none_counted arr item zero_count, ((λ other h. refl), omega (arith, zero_count)))
  | inr found ↦
      let (gone, size) = keep_others_lem arr item in
      rw found (gone, (contains-keep_others arr item, size))
]

each_in-contains :
    (src target : List Text) (t : Text)
    → each_in src target ≡ true
    → contains src t ≡ true
    → contains target t ≡ true
unfolding each_in contains
each_in-contains [] target t h c = absurd (ground arith)
each_in-contains (s ∷ src) target t h c =
    let (here, rest) = &&_split (contains target s) (each_in src target) h in
    elim (Bool-cases (text_eq s t)) [
      | inl same ↦ subst (λ u. contains target u ≡ true) ((text_eq_iff s t).0 same) here
      | inr differ ↦ each_in-contains src target t rest (ground arith)
    ]

contains-each_in :
    (src target : List Text)
    → ((t : Text) → contains src t ≡ true → contains target t ≡ true)
    → each_in src target ≡ true
unfolding each_in contains
contains-each_in [] target h = refl
contains-each_in (s ∷ src) target h =
    let here : contains target s ≡ true = h s (ground (arith, text_eq_refl s)) in
    let rest : each_in src target ≡ true =
      contains-each_in src target (λ t c. h t (ground (arith, c))) in
    rw (here, rest) refl

-- ArrayEquals holds exactly if the arrays have as many items and every item of the first stands in
-- the second, however often: the order is ignored, and so is how many copies there are.
pub array_equals_iff :
    (src target : List Text)
    → (array_equals src target ≡ true) ↔ (
        (length src ≡ length target)
        × ((t : Text) → contains src t ≡ true → contains target t ≡ true))
array_equals_iff src target = (
  λ h.
      let (sizes, inside) =
        &&_split (length src == length target) (each_in src target) (unfold array_equals in h) in
      ((==_iff (length src) (length target)).0 sizes, λ t. each_in-contains src target t inside),
  λ h. unfold array_equals in rw (h.0, contains-each_in src target h.1) (ground arith),
)
