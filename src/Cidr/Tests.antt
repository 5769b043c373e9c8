-- ===== src/Cidr/Tests.antt =====
-- Runs of the functions of cidr.go on the inputs of cidr_test.go and others, and the theorems of
-- the component at concrete inputs.
use kt_connect.Common.{
  ℕ, ◌≡◌, refl, subst, true, false, not, ◌&&◌, List, [], ◌∷◌, ◌++◌, ◌≤◌, map, arith, take, length,
  replicate, Text, codes, All,
}
use kt_connect.Common.Outcome.{ok, err, panic}
use kt_connect.Common.Int.{pos}
use kt_connect.Strings.{contains_byte, count, split, atoi, join, format_nat}
use kt_connect.Cidr.Bins.{Cell, b0, stop, is_part_of_bins, exclude_bins, covered}
use kt_connect.Cidr.Bins.Part.{cells_eq}
use kt_connect.Cidr.Bins.Exclude.{exclude_bins_lem}
use kt_connect.Cidr.Convert.{
  parse_ip, octets_to_bin, dec_to_bin, mark_at, plain_ip_to_bin, ip_to_bin, ip_range_to_bin,
  bin_to_ip_range,
}
use kt_connect.Cidr.Convert.Parts.{has_stop, canon, no_stop-IsBit}
use kt_connect.Cidr.Convert.RoundTrip.{ip_range_to_bin-bin_to_ip_range}
use kt_connect.Cidr.Convert.Align.{widen, ip_range_to_bin-aligned}
use kt_connect.Cidr.Ranges.{
  insert_ip, calculate_minimal_ip_range, is_part_of_range, exclude_ip_from_range, merge_ip_range,
  minimal_loop,
}
use kt_connect.Cidr.Ranges.Insert.{IsLong, holders}
use kt_connect.Cidr.Ranges.Minimal.{IsSafe, IsHeld, calculate_minimal_ip_range_lem}
use kt_connect.Cidr.Ranges.Exclude.{any_holds}
use kt_connect.Cidr.Ranges.Merge.{IsRouted, merge_ip_range_lem}

-- Unfolding this runs the component.
run : Unit {0}
unfolding calculate_minimal_ip_range minimal_loop ip_to_bin plain_ip_to_bin bin_to_ip_range
    contains_byte count parse_ip split atoi octets_to_bin dec_to_bin insert_ip join format_nat
    merge_ip_range is_part_of_range exclude_ip_from_range exclude_bins ip_range_to_bin
    is_part_of_bins mark_at
run = tt

minimal_ranges :
    calculate_minimal_ip_range false (
      codes "1.2.3.4"
      ∷ codes "2.3.4.5"
      ∷ codes "fe80::1"
      ∷ codes "1.2.3.100"
      ∷ codes "2.3.5.5"
      ∷ [])
    ≡ ok (codes "1.2.3.0/24" ∷ codes "2.3.0.0/16" ∷ [])
unfolding run
minimal_ranges = refl

merged_ranges :
    merge_ip_range false
      (codes "10.1.2.0/24" ∷ codes "10.2.2.0/24" ∷ [])
      (codes "192.168.0.0/16" ∷ [])
      (codes "10.2.2.26")
    ≡ ok (
        codes "10.1.2.0/24"
        ∷ codes "10.2.2.128/25"
        ∷ codes "10.2.2.64/26"
        ∷ codes "10.2.2.32/27"
        ∷ codes "10.2.2.0/28"
        ∷ codes "10.2.2.16/29"
        ∷ codes "10.2.2.28/30"
        ∷ codes "10.2.2.24/31"
        ∷ codes "10.2.2.27/32"
        ∷ codes "192.168.0.0/16"
        ∷ [])
unfolding run
merged_ranges = refl

-- A number above 255 runs out of the eight entries, a fifth number out of the four.
out_of_range :
    (ip_to_bin (codes "300.1.1.1") ≡ panic)
    × (ip_to_bin (codes "1.2.3.4.5") ≡ panic)
    × (ip_to_bin (codes "1.2.3.4/-1") ≡ panic)
unfolding run
out_of_range = (refl, refl, refl)

-- Eight bits from a number, and a /24 range from its 24 bits.
abbrev bits : ℕ → List Cell
unfolding run
bits n = elim (dec_to_bin (pos n)) [ ok b ↦ b | err ↦ [] | panic ↦ [] ]

abbrev service_range : List Cell
unfolding run
service_range = bits 10 ++ (bits 2 ++ (bits 2 ++ (stop ∷ replicate 7 b0)))

abbrev api_server : List Cell
unfolding run
api_server = bits 10 ++ (bits 2 ++ (bits 2 ++ bits 26))

abbrev neighbour : List Cell
unfolding run
neighbour = bits 10 ++ (bits 2 ++ (bits 2 ++ bits 27))

exclude_bins_example :
    covered (exclude_bins service_range api_server) neighbour
    ≡ (is_part_of_bins service_range neighbour && not (cells_eq neighbour api_server))
unfolding run
exclude_bins_example =
    exclude_bins_lem service_range api_server neighbour (no_stop-IsBit (replicate 7 b0) refl) refl
      (no_stop-IsBit api_server refl) (no_stop-IsBit neighbour refl) refl refl refl refl

round_trip_example :
    ip_range_to_bin (bin_to_ip_range service_range false) ≡ ok (canon service_range)
unfolding run
round_trip_example = ip_range_to_bin-bin_to_ip_range service_range refl

aligned_example :
    ip_range_to_bin (bin_to_ip_range service_range true) ≡ ok (canon (widen 4 service_range))
unfolding run
aligned_example = ip_range_to_bin-aligned service_range refl

IsSafe-of_ok :
    (ip : Text) (b : List Cell) → ip_to_bin ip ≡ ok b → has_stop (take 16 b) ≡ false → IsSafe ip
IsSafe-of_ok ip b e h = record {
  no_panic = λ crash. cc;
  long_mask =
      λ b' e'. let same : b ≡ b' = cc (e, e') in subst (λ x. has_stop (take 16 x) ≡ false) same h;
}

abbrev services : List Text
services = codes "10.2.2.0/24" ∷ []

abbrev pods : List Text
pods = codes "192.168.0.7" ∷ []

services-pods-IsSafe : All IsSafe (services ++ pods)
unfolding run
services-pods-IsSafe = (
  IsSafe-of_ok (codes "10.2.2.0/24") service_range refl refl,
  (IsSafe-of_ok (codes "192.168.0.7") (bits 192 ++ (bits 168 ++ (bits 0 ++ bits 7))) refl refl, tt),
)

minimal_example :
    (rs : List (List Cell)) × (calculate_minimal_ip_range false (services ++ pods)
      ≡ ok (map (λ r. bin_to_ip_range r true) rs))
    × All IsLong rs
    × All (IsHeld rs) (services ++ pods)
    × ((a : List Cell) → length a ≡ 32 → holders rs a ≤ 1)
minimal_example = calculate_minimal_ip_range_lem (services ++ pods) services-pods-IsSafe

api_server-plain : plain_ip_to_bin (codes "10.2.2.26") ≡ ok api_server
unfolding run
api_server-plain = refl

merge_example :
    (merged : List Text) × (merge_ip_range false services pods (codes "10.2.2.26") ≡ ok merged)
    × All (IsRouted merged api_server) (services ++ pods)
    × (any_holds merged api_server ≡ false)
merge_example =
    merge_ip_range_lem services pods (codes "10.2.2.26") api_server services-pods-IsSafe
      (omega arith) api_server-plain
