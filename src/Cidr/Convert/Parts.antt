-- ===== src/Cidr/Convert/Parts.antt =====
-- The bits before the mark of an array, and what the loops of binToIpRange read of them.
use kt_connect.Common.{
  ℕ, zero, suc, ◌+◌, ◌-◌, ◌*◌, ◌/◌, ◌≤◌, ◌≡◌, refl, sym, ap, Bool, true, false, not, ◌||◌, List, [],
  ◌∷◌, arith, ltb, if◌then◌else◌, set, replicate, take, drop, length, length-replicate, All,
}
use kt_connect.Cidr.Bins.{Cell, b0, b1, stop, is_part_of_bins}
use kt_connect.Cidr.Bins.Part.{IsBit}
use kt_connect.Cidr.Convert.{read_segment, read_segments}
use kt_connect.Cidr.Convert.Octets.{value}
use kt_connect.Strings.{format_nat}

-- The bits before the mark, with zeros from it on.
abbrev pub fill : List Cell → List Cell
fill [] = []
fill (stop ∷ r) = b0 ∷ replicate (length r) b0
fill (b0 ∷ r) = b0 ∷ fill r
fill (b1 ∷ r) = b1 ∷ fill r

-- The number of bits before the mark.
abbrev pub mask_of : List Cell → ℕ
mask_of [] = 0
mask_of (stop ∷ r) = 0
mask_of (b0 ∷ r) = suc (mask_of r)
mask_of (b1 ∷ r) = suc (mask_of r)

abbrev pub has_stop : List Cell → Bool
has_stop [] = false
has_stop (stop ∷ r) = true
has_stop (b0 ∷ r) = has_stop r
has_stop (b1 ∷ r) = has_stop r

-- The same range, with zeros behind the mark.
abbrev pub canon : List Cell → List Cell
canon [] = []
canon (stop ∷ r) = stop ∷ replicate (length r) b0
canon (b0 ∷ r) = b0 ∷ canon r
canon (b1 ∷ r) = b1 ∷ canon r

pub length-fill : (bs : List Cell) → length (fill bs) ≡ length bs
length-fill [] = refl
length-fill (stop ∷ r) = ap suc (length-replicate (length r) b0)
length-fill (b0 ∷ r) = ap suc (length-fill r)
length-fill (b1 ∷ r) = ap suc (length-fill r)

pub length-canon : (bs : List Cell) → length (canon bs) ≡ length bs
length-canon [] = refl
length-canon (stop ∷ r) = ap suc (length-replicate (length r) b0)
length-canon (b0 ∷ r) = ap suc (length-canon r)
length-canon (b1 ∷ r) = ap suc (length-canon r)

All-replicate : (n : ℕ) → All IsBit (replicate n b0)
All-replicate zero = tt
All-replicate (suc n) = (ground arith, All-replicate n)

pub fill-IsBit : (bs : List Cell) → All IsBit (fill bs)
fill-IsBit [] = tt
fill-IsBit (stop ∷ r) = (ground arith, All-replicate (length r))
fill-IsBit (b0 ∷ r) = (ground arith, fill-IsBit r)
fill-IsBit (b1 ∷ r) = (ground arith, fill-IsBit r)

pub is_part_of_bins-canon : (bs a : List Cell) → is_part_of_bins (canon bs) a ≡ is_part_of_bins bs a
unfolding is_part_of_bins
is_part_of_bins-canon [] a = refl
is_part_of_bins-canon (stop ∷ r) a = refl
is_part_of_bins-canon (b0 ∷ r) [] = refl
is_part_of_bins-canon (b0 ∷ r) (d ∷ a) = rw (is_part_of_bins-canon r a)
is_part_of_bins-canon (b1 ∷ r) [] = refl
is_part_of_bins-canon (b1 ∷ r) (d ∷ a) = rw (is_part_of_bins-canon r a)

-- Setting the mark at its place in the filled array.
pub canon-fill :
    (bs : List Cell)
    → (if ltb (mask_of bs) (length bs) then set (fill bs) (mask_of bs) stop else fill bs) ≡ canon bs
canon-fill [] = refl
canon-fill (stop ∷ r) = ground arith
canon-fill (b0 ∷ r) = ground (arith, canon-fill r)
canon-fill (b1 ∷ r) = ground (arith, canon-fill r)

pub mask_of-le : (bs : List Cell) → mask_of bs ≤ length bs
mask_of-le [] = omega arith
mask_of-le (stop ∷ r) = omega arith
mask_of-le (b0 ∷ r) = omega (arith, mask_of-le r)
mask_of-le (b1 ∷ r) = omega (arith, mask_of-le r)

-- What the inner loop reads.
pub read_segment-replicate : (n f : ℕ) → (read_segment (replicate n b0) f).0 ≡ 0
unfolding read_segment
read_segment-replicate zero f = refl
read_segment-replicate (suc n) f = read_segment-replicate n (f / 2)

pub read_segment-fill :
    (bs : List Cell) (f : ℕ) → (read_segment bs f).0 ≡ (read_segment (fill bs) f).0
unfolding read_segment
read_segment-fill [] f = refl
read_segment-fill (stop ∷ r) f = sym (read_segment-replicate (length r) (f / 2))
read_segment-fill (b0 ∷ r) f = read_segment-fill r (f / 2)
read_segment-fill (b1 ∷ r) f = ap (λ n. f + n) (read_segment-fill r (f / 2))

pub read_segment-mask_of : (bs : List Cell) (f : ℕ) → (read_segment bs f).1 ≡ mask_of bs
unfolding read_segment
read_segment-mask_of [] f = refl
read_segment-mask_of (stop ∷ r) f = refl
read_segment-mask_of (b0 ∷ r) f = ap suc (read_segment-mask_of r (f / 2))
read_segment-mask_of (b1 ∷ r) f = ap suc (read_segment-mask_of r (f / 2))

pub read_segment-has_stop : (bs : List Cell) (f : ℕ) → (read_segment bs f).2 ≡ has_stop bs
unfolding read_segment
read_segment-has_stop [] f = refl
read_segment-has_stop (stop ∷ r) f = refl
read_segment-has_stop (b0 ∷ r) f = read_segment-has_stop r (f / 2)
read_segment-has_stop (b1 ∷ r) f = read_segment-has_stop r (f / 2)

-- Cutting the array at an entry.
pub take-replicate :
    (n m : ℕ) → take n (replicate m b0) ≡ replicate (length (take n (replicate m b0))) b0
take-replicate zero m = refl
take-replicate (suc n) zero = refl
take-replicate (suc n) (suc m) = rw (← take-replicate n m)

length-take-replicate :
    (n : ℕ) (r : List Cell) → length (take n (replicate (length r) b0)) ≡ length (take n r)
length-take-replicate zero r = refl
length-take-replicate (suc n) [] = refl
length-take-replicate (suc n) (c ∷ r) = ap suc (length-take-replicate n r)

pub take-fill : (n : ℕ) (bs : List Cell) → take n (fill bs) ≡ fill (take n bs)
take-fill zero bs = refl
take-fill (suc n) [] = refl
take-fill (suc n) (stop ∷ r) =
    ap (λ s. b0 ∷ s) (rw (take-replicate n (length r)) (rw (length-take-replicate n r)))
take-fill (suc n) (b0 ∷ r) = rw (take-fill n r)
take-fill (suc n) (b1 ∷ r) = rw (take-fill n r)

sub-suc : (a b : ℕ) → suc a - suc b ≡ a - b
sub-suc a b = omega arith

pub drop-replicate : (n m : ℕ) → drop n (replicate m b0) ≡ replicate (m - n) b0
drop-replicate zero m = let e : m - 0 ≡ m = omega arith in rw e
drop-replicate (suc n) zero = let e : 0 - suc n ≡ 0 = omega arith in rw e
drop-replicate (suc n) (suc m) = rw (drop-replicate n m, sub-suc m n)

pub drop-fill :
    (n : ℕ) (bs : List Cell)
    → drop n (fill bs)
      ≡ (if has_stop (take n bs) then replicate (length bs - n) b0 else fill (drop n bs))
drop-fill zero bs = refl
drop-fill (suc n) [] = refl
drop-fill (suc n) (stop ∷ r) = rw (drop-replicate n (length r), sub-suc (length r) n)
drop-fill (suc n) (b0 ∷ r) = rw (drop-fill n r) (ground (arith, sub-suc (length r) n))
drop-fill (suc n) (b1 ∷ r) = rw (drop-fill n r) (ground (arith, sub-suc (length r) n))

pub mask_of-cut :
    (n : ℕ) (bs : List Cell)
    → n ≤ length bs
    → mask_of bs ≡ (if has_stop (take n bs) then mask_of (take n bs) else n + mask_of (drop n bs))
mask_of-cut zero bs h = omega arith
mask_of-cut (suc n) [] h = absurd (omega arith)
mask_of-cut (suc n) (stop ∷ r) h = refl
mask_of-cut (suc n) (b0 ∷ r) h = ground (arith, mask_of-cut n r (omega arith))
mask_of-cut (suc n) (b1 ∷ r) h = ground (arith, mask_of-cut n r (omega arith))

pub mask_of-no_stop : (bs : List Cell) → has_stop bs ≡ false → mask_of bs ≡ length bs
mask_of-no_stop [] h = refl
mask_of-no_stop (stop ∷ r) h = cc
mask_of-no_stop (b0 ∷ r) h = ap suc (mask_of-no_stop r h)
mask_of-no_stop (b1 ∷ r) h = ap suc (mask_of-no_stop r h)

-- One round of the outer loop.
pub read_segments_step :
    (k i mask : ℕ) (with_align : Bool) (bs : List Cell)
    → (let seg =
          (if not with_align || not (has_stop (take 8 bs))
            then format_nat (value (take 8 bs))
            else b'0' ∷ []) in
        let rest = read_segments k (suc i) (mask + mask_of (take 8 bs)) with_align (drop 8 bs) in
        read_segments (suc k) i mask with_align bs ≡ (
          if has_stop (take 8 bs)
          then (
            seg ∷ replicate k (b'0' ∷ []),
            if with_align then i * 8 else mask + mask_of (take 8 bs),
          )
          else (seg ∷ rest.0, rest.1)))
read_segments_step k i mask with_align bs =
    unfold read_segments in
    rw (read_segment-has_stop (take 8 bs) 128, read_segment-mask_of (take 8 bs) 128)

pub no_stop-IsBit : (bs : List Cell) → has_stop bs ≡ false → All IsBit bs
no_stop-IsBit [] h = tt
no_stop-IsBit (stop ∷ r) h = cc
no_stop-IsBit (b0 ∷ r) h = (ground arith, no_stop-IsBit r h)
no_stop-IsBit (b1 ∷ r) h = (ground arith, no_stop-IsBit r h)
