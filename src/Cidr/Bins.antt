-- ===== src/Cidr/Bins.antt =====
-- pkg/kt/service/cluster/cidr.go: the array `[32]int` whose entries are 0, 1 or -1, the loops of
-- isPartOfRange and excludeIpFromRange over it, and the range that it stands for.
pub mod Part
pub mod Host
pub mod Exclude
use kt_connect.Common.{
  ℕ, zero, suc, ◌+◌, ◌-◌, Bool, true, false, not, ◌&&◌, ◌||◌, List, [], ◌∷◌, ◌++◌, ltb,
  if◌then◌else◌, set, replicate,
}

-- An entry of the array: 0, 1, or -1 where the network part ends.
pub data Cell : Type 0 where
  b0 b1 stop : Cell

abbrev pub cell_eq : Cell → Cell → Bool
cell_eq b0 b0 = true
cell_eq b1 b1 = true
cell_eq stop stop = true
cell_eq _ _ = false

-- `if ipBin[i] == 0 { 1 } else { 0 }`
abbrev pub flip : Cell → Cell
flip b0 = b1
flip _ = b0

-- The loop of isPartOfRange. Both arrays have 32 entries, so they end together.
unfoldable pub is_part_of_bins : List Cell → List Cell → Bool
is_part_of_bins [] sub = true
is_part_of_bins (stop ∷ range) sub = true
is_part_of_bins (c ∷ range) [] = true
is_part_of_bins (c ∷ range) (d ∷ sub) = cell_eq d c && is_part_of_bins range sub

-- `ipRangeBin[i+1] == -1`, read on the entries behind the one at `i`
abbrev pub next_is_stop : List Cell → Bool
next_is_stop (stop ∷ _) = true
next_is_stop _ = false

-- One write of the host part: the entry before `i` as in the address, the one at `i` flipped, and
-- the mark behind it.
abbrev pub sibling : ℕ → Cell → Cell → List Cell → List Cell
sibling i prev b ex =
    let ex1 = set (set ex (i - 1) prev) i (flip b) in if ltb i 31 then set ex1 (suc i) stop else ex1

-- The loop of excludeIpFromRange from `i` on: `range` and `ip` are the entries from `i` on, `prev`
-- is `ipBin[i-1]`, `ex` is excludedIpBin, and `out` holds the arrays that are printed.
unfoldable pub exclude_loop :
    ℕ → Cell → List Cell → List Cell → Bool → List Cell → List (List Cell) → List (List Cell)
exclude_loop i prev [] ip reach ex out = out
exclude_loop i prev (c ∷ range) [] reach ex out = out
exclude_loop i prev (c ∷ range) (b ∷ ip) reach ex out =
    let reached = exclude_loop (suc i) b range ip true ex out in
    let host =
      exclude_loop (suc i) b range ip true (sibling i prev b ex)
        (out ++ sibling i prev b ex ∷ []) in
    let network = exclude_loop (suc i) b range ip false (set ex i b) out in
    if next_is_stop range
    then reached
    else if reach
    then host
    else if not (cell_eq c b)
    then []
    else network

-- The loop from the start, with the zero array.
unfoldable pub exclude_bins : List Cell → List Cell → List (List Cell)
unfolding exclude_loop
exclude_bins range ip = exclude_loop 0 b0 range ip false (replicate 32 b0) []

-- Some range of the list holds the address.
unfoldable pub covered : List (List Cell) → List Cell → Bool
unfolding is_part_of_bins
covered [] a = false
covered (r ∷ rs) a = is_part_of_bins r a || covered rs a
