-- ===== src/Cidr/Bins/Part.antt =====
-- Laws of `is_part_of_bins` and `covered`.
use kt_connect.Common.{
  ◌≡◌, ◌≢◌, ◌↔◌, refl, Bool, true, false, ◌&&◌, ◌||◌, List, [], ◌∷◌, ◌++◌, arith, length, All,
}
use kt_connect.Cidr.Bins.{Cell, b0, b1, stop, cell_eq, is_part_of_bins, covered}

-- The entry is a bit of an address.
abbrev pub IsBit : Cell → Type 0
IsBit c = c ≢ stop

pub cell_eq_iff : (c d : Cell) → (cell_eq c d ≡ true) ↔ (c ≡ d)
cell_eq_iff b0 d = ground arith
cell_eq_iff b1 d = ground arith
cell_eq_iff stop d = ground arith

pub cell_eq_refl : (c : Cell) → cell_eq c c ≡ true
cell_eq_refl c = ground arith

-- Equality of two arrays, entry by entry.
abbrev pub cells_eq : List Cell → List Cell → Bool
cells_eq [] [] = true
cells_eq [] (d ∷ t) = false
cells_eq (c ∷ s) [] = false
cells_eq (c ∷ s) (d ∷ t) = cell_eq c d && cells_eq s t

-- A prefix of bits is compared entry by entry, and what is behind it decides the rest.
pub is_part_of_bins-append :
    (p q u w : List Cell)
    → All IsBit p
    → length p ≡ length u
    → is_part_of_bins (p ++ q) (u ++ w) ≡ (cells_eq u p && is_part_of_bins q w)
unfolding is_part_of_bins
is_part_of_bins-append [] q [] w h e = refl
is_part_of_bins-append [] q (d ∷ u) w h e = absurd (omega arith)
is_part_of_bins-append (c ∷ p) q [] w h e = absurd (omega arith)
is_part_of_bins-append (b0 ∷ p) q (d ∷ u) w (_, h) e =
    ground (arith, is_part_of_bins-append p q u w h (omega arith))
is_part_of_bins-append (b1 ∷ p) q (d ∷ u) w (_, h) e =
    ground (arith, is_part_of_bins-append p q u w h (omega arith))
is_part_of_bins-append (stop ∷ p) q (d ∷ u) w (hs, h) e = absurd (hs refl)

pub covered-append :
    (rs qs : List (List Cell)) (a : List Cell)
    → covered (rs ++ qs) a ≡ (covered rs a || covered qs a)
unfolding covered
covered-append [] qs a = refl
covered-append (r ∷ rs) qs a = ground (arith, covered-append rs qs a)

-- A range holds what a part of it holds.
pub is_part_of_bins_trans :
    (r s a : List Cell)
    → All IsBit a
    → length r ≡ length s
    → length s ≡ length a
    → is_part_of_bins r s ≡ true
    → is_part_of_bins s a ≡ true
    → is_part_of_bins r a ≡ true
unfolding is_part_of_bins
is_part_of_bins_trans [] s a bits e e' h k = refl
is_part_of_bins_trans (stop ∷ r) s a bits e e' h k = refl
is_part_of_bins_trans (c ∷ r) [] a bits e e' h k = absurd (omega arith)
is_part_of_bins_trans (c ∷ r) (d ∷ s) [] bits e e' h k = absurd (omega arith)
is_part_of_bins_trans (b0 ∷ r) (d ∷ s) (x ∷ a) (_, bits) e e' h k =
    ground (arith, is_part_of_bins_trans r s a bits (omega arith) (omega arith))
is_part_of_bins_trans (b1 ∷ r) (d ∷ s) (x ∷ a) (_, bits) e e' h k =
    ground (arith, is_part_of_bins_trans r s a bits (omega arith) (omega arith))
