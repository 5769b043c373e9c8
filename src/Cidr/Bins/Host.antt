-- ===== src/Cidr/Bins/Host.antt =====
-- The loop of excludeIpFromRange over the host part of the range.
use kt_connect.Common.{
  ℕ, zero, suc, ◌+◌, ◌-◌, ◌≡◌, refl, Bool, true, false, not, ◌&&◌, ◌||◌, List, [], ◌∷◌, ◌++◌,
  append_assoc, arith, lt→ltb, set, length, length-append, All, All-append,
}
use kt_connect.Cidr.Bins.{
  Cell, b0, b1, stop, cell_eq, flip, is_part_of_bins, covered, next_is_stop, sibling, exclude_loop,
}
use kt_connect.Cidr.Bins.Part.{IsBit, cells_eq, is_part_of_bins-append, covered-append}

-- A write behind a prefix is a write into what follows it.
pub set-offset :
    (p s : List Cell) (i k : ℕ) (v : Cell) → i ≡ length p + k → set (p ++ s) i v ≡ p ++ set s k v
set-offset [] s i k v e = let e' : i ≡ k = omega arith in rw e'
set-offset (c ∷ p) s zero k v e = absurd (omega arith)
set-offset (c ∷ p) s (suc i) k v e = rw (set-offset p s i k v (omega arith))

-- The address `a` leaves the address `p` at some entry.
abbrev pub differs : List Cell → List Cell → Bool
differs [] a = false
differs (b ∷ p) [] = false
differs (b ∷ p) (d ∷ a) = cell_eq d (flip b) || (cell_eq d b && differs p a)

pub differs-cells_eq :
    (p a : List Cell)
    → All IsBit p
    → All IsBit a
    → length p ≡ length a
    → differs p a ≡ not (cells_eq a p)
differs-cells_eq [] [] hp ha e = refl
differs-cells_eq [] (d ∷ a) hp ha e = absurd (omega arith)
differs-cells_eq (b ∷ p) [] hp ha e = absurd (omega arith)
differs-cells_eq (b ∷ p) (d ∷ a) (hb, hp) (hd, ha) e =
    ground (arith, differs-cells_eq p a hp ha (omega arith))

-- The mark behind the flipped entry.
abbrev mark : List Cell → List Cell
mark [] = []
mark (_ ∷ s) = stop ∷ s

length-mark : (s : List Cell) → length (mark s) ≡ length s
length-mark [] = refl
length-mark (_ ∷ s) = refl

is_part_of_bins-mark : (s w : List Cell) → is_part_of_bins (mark s) w ≡ true
unfolding is_part_of_bins
is_part_of_bins-mark [] w = refl
is_part_of_bins-mark (_ ∷ s) w = refl

pub cells_eq-snoc :
    (u p : List Cell) (d b : Cell)
    → length u ≡ length p
    → cells_eq (u ++ d ∷ []) (p ++ b ∷ []) ≡ (cells_eq u p && cell_eq d b)
cells_eq-snoc [] [] d b e = ground arith
cells_eq-snoc [] (_ ∷ p) d b e = absurd (omega arith)
cells_eq-snoc (_ ∷ u) [] d b e = absurd (omega arith)
cells_eq-snoc (x ∷ u) (y ∷ p) d b e = ground (arith, cells_eq-snoc u p d b (omega arith))

flip-IsBit : (b : Cell) → IsBit (flip b)
flip-IsBit b = ground arith

next_is_stop-All : (r : List Cell) → All IsBit r → next_is_stop r ≡ false
next_is_stop-All [] h = refl
next_is_stop-All (b0 ∷ r) h = refl
next_is_stop-All (b1 ∷ r) h = refl
next_is_stop-All (stop ∷ r) (h, _) = absurd (h refl)

-- One write of the host part, at an array cut before the entry `i - 1`.
sibling-append :
    (i : ℕ) (pre : List Cell) (x prev b z : Cell) (s : List Cell)
    → i ≡ length pre + 1
    → length pre + 2 + length s ≡ 32
    → sibling i prev b (pre ++ x ∷ z ∷ s) ≡ (pre ++ prev ∷ []) ++ flip b ∷ mark s
sibling-append i pre x prev b z [] e l =
    rw
      (
        set-offset pre (x ∷ z ∷ []) (i - 1) 0 prev (omega arith),
        set-offset pre (prev ∷ z ∷ []) i 1 (flip b) e,
        append_assoc,
      )
      (ground arith)
sibling-append i pre x prev b z (y ∷ s) e l = rw (
  lt→ltb i 31 (omega arith),
  set-offset pre (x ∷ z ∷ y ∷ s) (i - 1) 0 prev (omega arith),
  set-offset pre (prev ∷ z ∷ y ∷ s) i 1 (flip b) e,
  set-offset pre (prev ∷ flip b ∷ y ∷ s) (suc i) 2 stop (omega arith),
  append_assoc,
)

-- No mark behind the first entry.
abbrev pub TailBits : List Cell → Type 0
TailBits [] = Unit
TailBits (_ ∷ r) = All IsBit r

All-TailBits : (r : List Cell) → All IsBit r → TailBits r
All-TailBits [] h = tt
All-TailBits (_ ∷ r) (_, h) = h

exclude_loop_step :
    (i : ℕ) (prev c b : Cell) (range ip ex : List Cell) (out : List (List Cell))
    → All IsBit range
    → exclude_loop i prev (c ∷ range) (b ∷ ip) true ex out
      ≡ exclude_loop (suc i) b range ip true (sibling i prev b ex) (out ++ sibling i prev b ex ∷ [])
exclude_loop_step i prev c b range ip ex out h =
    unfold exclude_loop in rw (next_is_stop-All range h)

-- What the range of one round holds.
sibling-covers :
    (pre : List Cell) (prev b d : Cell) (s u w : List Cell)
    → All IsBit pre
    → IsBit prev
    → length u ≡ length pre + 1
    → is_part_of_bins ((pre ++ prev ∷ []) ++ flip b ∷ mark s) (u ++ d ∷ w)
      ≡ (cells_eq u (pre ++ prev ∷ []) && cell_eq d (flip b))
sibling-covers pre prev b d s u w hp hv e =
    rw
      (is_part_of_bins-append (pre ++ prev ∷ []) (flip b ∷ mark s) u (d ∷ w)
        (All-append IsBit pre (prev ∷ []) hp (hv, tt))
        (omega (arith, length-append pre (prev ∷ []))))
      (unfold is_part_of_bins in ground (arith, is_part_of_bins-mark s w))

-- The host part: each round adds the range of the addresses that leave the excluded one at this
-- entry.
pub exclude_loop-host :
    (i : ℕ) (pre : List Cell) (x prev : Cell) (range ip suf : List Cell) (out : List (List Cell))
    (u w : List Cell)
    → TailBits range
    → All IsBit pre
    → IsBit prev
    → All IsBit ip
    → i ≡ length pre + 1
    → length range ≡ length ip
    → length suf ≡ length ip
    → length w ≡ length ip
    → length u ≡ length pre + 1
    → length pre + 1 + length ip ≡ 32
    → covered (exclude_loop i prev range ip true (pre ++ x ∷ suf) out) (u ++ w)
      ≡ (covered out (u ++ w) || (cells_eq u (pre ++ prev ∷ []) && differs ip w))
exclude_loop-host i pre x prev [] [] suf out u w hr hp hv hi ei er es ew eu l =
    unfold exclude_loop in ground arith
exclude_loop-host i pre x prev [] (b ∷ ip) suf out u w hr hp hv hi ei er es ew eu l =
    absurd (omega arith)
exclude_loop-host i pre x prev (c ∷ range) [] suf out u w hr hp hv hi ei er es ew eu l =
    absurd (omega arith)
exclude_loop-host i pre x prev (c ∷ range) (b ∷ ip) [] out u w hr hp hv hi ei er es ew eu l =
    absurd (omega arith)
exclude_loop-host i pre x prev (c ∷ range) (b ∷ ip) (z ∷ s) out u [] hr hp hv hi ei er es ew eu l =
    absurd (omega arith)
exclude_loop-host i pre x prev (c ∷ range) (b ∷ ip) (z ∷ s) out u (d ∷ w) hr hp hv (hb, hi) ei er es
      ew eu l =
    let pre' = pre ++ prev ∷ [] in
    let row = pre' ++ flip b ∷ mark s in
    let len : length pre' ≡ length pre + 1 = length-append pre (prev ∷ []) in
    let ih : covered (exclude_loop (suc i) b range ip true row (out ++ row ∷ []))
          ((u ++ d ∷ []) ++ w)
        ≡ (covered (out ++ row ∷ []) ((u ++ d ∷ []) ++ w)
            || (cells_eq (u ++ d ∷ []) (pre' ++ b ∷ []) && differs ip w)) =
      exclude_loop-host (suc i) pre' (flip b) b range ip (mark s) (out ++ row ∷ []) (u ++ d ∷ []) w
        (All-TailBits range hr) (All-append IsBit pre (prev ∷ []) hp (hv, tt)) hb hi (omega arith)
        (omega arith) (omega (arith, length-mark s)) (omega arith)
        (omega (arith, length-append u (d ∷ []))) (omega arith) in
    let ih' = rw (append_assoc u (d ∷ []) w) at ih in
    rw
      (
        exclude_loop_step i prev c b range ip (pre ++ x ∷ z ∷ s) out hr,
        sibling-append i pre x prev b z s ei (omega arith),
        ih',
        covered-append out (row ∷ []) (u ++ d ∷ w),
        cells_eq-snoc u pre' d b (omega arith),
      )
      (unfold covered in rw (sibling-covers pre prev b d s u w hp hv eu) (ground arith))
