-- ===== src/Cidr/Ranges/Match.antt =====
-- One range against one address in calculateMinimalIpRange.
use kt_connect.Common.{
  ℕ, zero, suc, ◌-◌, ◌≤◌, ◌≡◌, refl, ap, true, false, none, some, List, [], ◌∷◌, arith, leb,
  if◌then◌else◌, take, length, Bool-cases, Option-cases, inl, inr, subst,
}
use kt_connect.Cidr.Bins.{Cell, b0, b1, stop, cell_eq, is_part_of_bins}
use kt_connect.Cidr.Bins.Part.{cell_eq_iff, cells_eq}
use kt_connect.Cidr.Convert.Parts.{has_stop}
use kt_connect.Cidr.Ranges.{match_bins}

-- A match keeps the length and the first entries up to the threshold, and holds what the range
-- and the address held.
pub record IsMatch (j : ℕ) (bins ip bins' : List Cell) : Type 0 where
  pub same_length : length bins' ≡ length bins
  pub same_head : take (16 - j) bins' ≡ take (16 - j) bins
  pub holds_bins : (a : List Cell) → is_part_of_bins bins a ≡ true → is_part_of_bins bins' a ≡ true
  pub holds_ip : (a : List Cell) → is_part_of_bins ip a ≡ true → is_part_of_bins bins' a ≡ true

take-cons_past :
    (j : ℕ) (b c : Cell) (s : List Cell) → 16 ≤ j → take (16 - j) (b ∷ s) ≡ take (16 - j) (c ∷ s)
take-cons_past j b c s h = let e : 16 - j ≡ 0 = omega arith in rw e

take-cons_same :
    (j : ℕ) (b : Cell) (s t : List Cell)
    → take (16 - suc j) s ≡ take (16 - suc j) t
    → take (16 - j) (b ∷ s) ≡ take (16 - j) (b ∷ t)
take-cons_same j b s t h = elim (Bool-cases (leb 16 j)) [
  | inl past ↦ let e : 16 - j ≡ 0 = ground arith in rw e
  | inr before ↦ let e : 16 - j ≡ suc (16 - suc j) = ground arith in rw e (ap (λ r. b ∷ r) h)
]

is_part_of_bins_mono :
    (b : Cell) (s t a : List Cell)
    → ((r : List Cell) → is_part_of_bins s r ≡ true → is_part_of_bins t r ≡ true)
    → is_part_of_bins (b ∷ s) a ≡ true
    → is_part_of_bins (b ∷ t) a ≡ true
unfolding is_part_of_bins
is_part_of_bins_mono stop s t a k h = refl
is_part_of_bins_mono b0 s t [] k h = refl
is_part_of_bins_mono b0 s t (d ∷ a) k h = ground (arith, k a)
is_part_of_bins_mono b1 s t [] k h = refl
is_part_of_bins_mono b1 s t (d ∷ a) k h = ground (arith, k a)

IsMatch-cons :
    (j : ℕ) (b : Cell) (bins ip bins' : List Cell)
    → IsMatch (suc j) bins ip bins'
    → IsMatch j (b ∷ bins) (b ∷ ip) (b ∷ bins')
IsMatch-cons j b bins ip bins' m = record {
  same_length = ap suc m.same_length;
  same_head = take-cons_same j b bins' bins m.same_head;
  holds_bins = λ a h. is_part_of_bins_mono b bins bins' a m.holds_bins h;
  holds_ip = λ a h. is_part_of_bins_mono b ip bins' a m.holds_ip h;
}

IsMatch-marked :
    (j : ℕ) (b : Cell) (bins ip : List Cell) → 16 ≤ j → IsMatch j (b ∷ bins) ip (stop ∷ bins)
unfolding is_part_of_bins
IsMatch-marked j b bins ip h = record {
  same_length = refl;
  same_head = take-cons_past j stop b bins h;
  holds_bins = λ a _. refl;
  holds_ip = λ a _. refl;
}

-- One round of the loop over the entries, on each of its branches.
match_bins_found :
    (j : ℕ) (b c : Cell) (bins ip rest : List Cell)
    → cell_eq b c ≡ true
    → match_bins (suc j) bins ip ≡ some rest
    → match_bins j (b ∷ bins) (c ∷ ip) ≡ some (b ∷ rest)
unfolding match_bins
match_bins_found j b c bins ip rest h k = rw (h, k)

match_bins_failed :
    (j : ℕ) (b c : Cell) (bins ip : List Cell)
    → cell_eq b c ≡ true
    → match_bins (suc j) bins ip ≡ none
    → match_bins j (b ∷ bins) (c ∷ ip) ≡ none
unfolding match_bins
match_bins_failed j b c bins ip h k = rw (h, k)

match_bins_differ :
    (j : ℕ) (b c : Cell) (bins ip : List Cell)
    → cell_eq b c ≡ false
    → match_bins j (b ∷ bins) (c ∷ ip) ≡ (if leb 16 j then some (stop ∷ bins) else none)
unfolding match_bins
match_bins_differ j b c bins ip h = rw h

pub match_bins-IsMatch :
    (j : ℕ) (bins ip bins' : List Cell)
    → length bins ≡ length ip
    → match_bins j bins ip ≡ some bins'
    → IsMatch j bins ip bins'
match_bins-IsMatch j [] [] bins' e h =
    let same : [] ≡ bins' = unfold match_bins in ground arith in
    subst (IsMatch j [] []) same (
      unfold is_part_of_bins in
      record {
        same_length = refl;
        same_head = refl;
        holds_bins = λ a _. refl;
        holds_ip = λ a _. refl;
      })
match_bins-IsMatch j [] (c ∷ ip) bins' e h = absurd (omega arith)
match_bins-IsMatch j (b ∷ bins) [] bins' e h = absurd (omega arith)
match_bins-IsMatch j (b ∷ bins) (c ∷ ip) bins' e h = elim (Bool-cases (cell_eq b c)) [
  | inl same ↦ elim (Option-cases (match_bins (suc j) bins ip)) [
    | inl fails ↦ cc (match_bins_failed j b c bins ip same fails)
    | inr (rest, found) ↦
        let result : b ∷ rest ≡ bins' = cc (match_bins_found j b c bins ip rest same found) in
        let equal : b ≡ c = (cell_eq_iff b c).0 same in
        subst (IsMatch j (b ∷ bins) (c ∷ ip)) result (
          subst (λ x. IsMatch j (b ∷ bins) (x ∷ ip) (b ∷ rest)) equal
            (IsMatch-cons j b bins ip rest
              (match_bins-IsMatch (suc j) bins ip rest (omega arith) found)))
  ]
  | inr differ ↦ elim (Bool-cases (leb 16 j)) [
    | inl past ↦
        let result : stop ∷ bins ≡ bins' = cc (
          match_bins_differ j b c bins ip differ,
          ap (λ x. if x then some (stop ∷ bins) else none) past,
        ) in
        subst (IsMatch j (b ∷ bins) (c ∷ ip)) result
          (IsMatch-marked j b bins (c ∷ ip) (ground arith))
    | inr before ↦ cc (
      match_bins_differ j b c bins ip differ,
      ap (λ x. if x then some (stop ∷ bins) else none) before,
    )
  ]
]

take-cons_before :
    (j : ℕ) (b : Cell) (s : List Cell)
    → leb 16 j ≡ false
    → take (16 - j) (b ∷ s) ≡ b ∷ take (16 - suc j) s
take-cons_before j b s h = let e : 16 - j ≡ suc (16 - suc j) = ground arith in rw e

-- Without a match the two differ before the threshold.
pub match_bins-none :
    (j : ℕ) (bins ip : List Cell)
    → length bins ≡ length ip
    → match_bins j bins ip ≡ none
    → leb 16 j ≡ false × (cells_eq (take (16 - j) bins) (take (16 - j) ip) ≡ false)
match_bins-none j [] [] e h = absurd (unfold match_bins in cc h)
match_bins-none j [] (c ∷ ip) e h = absurd (omega arith)
match_bins-none j (b ∷ bins) [] e h = absurd (omega arith)
match_bins-none j (b ∷ bins) (c ∷ ip) e h = elim (Bool-cases (cell_eq b c)) [
  | inl same ↦ elim (Option-cases (match_bins (suc j) bins ip)) [
    | inl fails ↦
        let (later, ih) = match_bins-none (suc j) bins ip (omega arith) fails in
        let before : leb 16 j ≡ false = ground arith in
        (before, rw (take-cons_before j b bins before, take-cons_before j c ip before, same) ih)
    | inr (rest, found) ↦ cc (match_bins_found j b c bins ip rest same found)
  ]
  | inr differ ↦ elim (Bool-cases (leb 16 j)) [
    | inl past ↦ cc (
      match_bins_differ j b c bins ip differ,
      ap (λ x. if x then some (stop ∷ bins) else none) past,
    )
    | inr before ↦
        (before, rw (take-cons_before j b bins before, take-cons_before j c ip before, differ))
  ]
]

-- Two ranges that differ in their bits before the threshold hold no address in common.
pub apart :
    (n : ℕ) (r s a : List Cell)
    → length r ≡ length s
    → length s ≡ length a
    → has_stop (take n r) ≡ false
    → has_stop (take n s) ≡ false
    → cells_eq (take n r) (take n s) ≡ false
    → is_part_of_bins r a ≡ true
    → is_part_of_bins s a ≡ true
    → ⊥
unfolding is_part_of_bins
apart zero r s a e e' hr hs h pr ps = cc
apart (suc n) [] [] a e e' hr hs h pr ps = cc
apart (suc n) [] (d ∷ s) a e e' hr hs h pr ps = absurd (omega arith)
apart (suc n) (c ∷ r) [] a e e' hr hs h pr ps = absurd (omega arith)
apart (suc n) (c ∷ r) (d ∷ s) [] e e' hr hs h pr ps = absurd (omega arith)
apart (suc n) (stop ∷ r) (d ∷ s) (x ∷ a) e e' hr hs h pr ps = cc
apart (suc n) (b0 ∷ r) (d ∷ s) (x ∷ a) e e' hr hs h pr ps =
    ground (arith, apart n r s a (omega arith) (omega arith))
apart (suc n) (b1 ∷ r) (d ∷ s) (x ∷ a) e e' hr hs h pr ps =
    ground (arith, apart n r s a (omega arith) (omega arith))
