-- ===== src/Cidr/Ranges.antt =====
-- pkg/kt/service/cluster/cidr.go: the search for the ranges that hold a list of addresses
-- (calculateMinimalIpRange), and the removal of the API server's address (mergeIpRange,
-- excludeIpFromRange, isPartOfRange).
pub mod Match
pub mod Minimal
pub mod Insert
pub mod Exclude
pub mod Merge
use kt_connect.Common.{
  ℕ, zero, suc, Bool, true, false, ◌||◌, Option, none, some, List, [], ◌∷◌, ◌++◌, map, leb,
  if◌then◌else◌, Text, text_eq, codes,
}
use kt_connect.Common.Outcome.{Outcome, ok, err, panic, ◌>>=◌}
use kt_connect.Strings.{split, contains_byte}
use kt_connect.Cidr.Bins.{Cell, stop, cell_eq, is_part_of_bins, exclude_bins}
use kt_connect.Cidr.Convert.{ip_to_bin, ip_range_to_bin, bin_to_ip_range}

-- `threshold := 16`
abbrev pub threshold : ℕ
threshold = 16

-- The loop over the entries of one range from `j` on. `some` is a match, with the range marked at
-- the first entry that differs if that lies behind the threshold.
unfoldable pub match_bins : ℕ → List Cell → List Cell → Option (List Cell)
match_bins j [] ip = some []
match_bins j (b ∷ bins) [] = some (b ∷ bins)
match_bins j (b ∷ bins) (c ∷ ip) =
    let rest = match_bins (suc j) bins ip in
    if cell_eq b c
    then (elim rest [ none ↦ none | some bins' ↦ some (b ∷ bins') ])
    else if leb threshold j
    then some (stop ∷ bins)
    else none

-- The loop over the ranges: the first match ends it, and without one the address is appended.
unfoldable pub insert_ip : List (List Cell) → List Cell → List (List Cell)
unfolding match_bins
insert_ip [] ip = ip ∷ []
insert_ip (bins ∷ mini_bins) ip =
    let rest = insert_ip mini_bins ip in
    elim (match_bins 0 bins ip) [ some bins' ↦ bins' ∷ mini_bins | none ↦ bins ∷ rest ]

-- The loop over the addresses: IPv6 and invalid ones are skipped.
unfoldable pub minimal_loop : List Text → List (List Cell) → Outcome (List (List Cell))
minimal_loop [] mini_bins = ok mini_bins
minimal_loop (ip ∷ ips) mini_bins =
    if contains_byte ip b':' then minimal_loop ips mini_bins else elim (ip_to_bin ip) [
      | ok ip_bin ↦ minimal_loop ips (insert_ip mini_bins ip_bin)
      | err ↦ minimal_loop ips mini_bins
      | panic ↦ panic
    ]

member : List Text → Text → Bool
member [] t = false
member (s ∷ ss) t = text_eq s t || member ss t

-- `fmt.Sprintf("%s:%s::/32", s[0], s[1])`, a panic if there is no second part
unfoldable pub ipv6_mask : List Text → Outcome Text
ipv6_mask (s0 ∷ s1 ∷ _) = ok (s0 ++ (b':' ∷ (s1 ++ codes "::/32")))
ipv6_mask _ = panic

-- calculateMinimalIpv6Range
unfoldable pub ipv6_loop : List Text → List Text → Outcome (List Text)
unfolding ipv6_mask member
ipv6_loop [] mini_range = ok mini_range
ipv6_loop (ip ∷ ips) mini_range =
    if contains_byte ip b'.' then ipv6_loop ips mini_range else elim (ipv6_mask (split ip b':')) [
      | ok ip_mask ↦
          ipv6_loop ips
            (if member mini_range ip_mask then mini_range else mini_range ++ ip_mask ∷ [])
      | err ↦ err
      | panic ↦ panic
    ]

unfoldable pub calculate_minimal_ip_range : Bool → List Text → Outcome (List Text)
calculate_minimal_ip_range ipv6_cluster ips =
    if ipv6_cluster
    then ipv6_loop ips []
    else minimal_loop ips [] >>= λ mini_bins. ok (map (λ bins. bin_to_ip_range bins true) mini_bins)

-- isPartOfRange: a text that is no range is in none.
unfoldable pub is_part_of_range : Text → Text → Outcome Bool
is_part_of_range ip_range sub_ip_range = elim (ip_range_to_bin ip_range) [
  | ok bins ↦ elim (ip_range_to_bin sub_ip_range) [
    | ok sub_bins ↦ ok (is_part_of_bins bins sub_bins)
    | err ↦ ok false
    | panic ↦ panic
  ]
  | err ↦ ok false
  | panic ↦ panic
]

-- excludeIpFromRange
unfoldable pub exclude_ip_from_range : Text → Text → Outcome (List Text)
exclude_ip_from_range ip_range ip = elim (ip_range_to_bin ip_range) [
  | ok bins ↦ elim (ip_to_bin ip) [
    | ok ip_bin ↦ ok (map (λ excluded. bin_to_ip_range excluded false) (exclude_bins bins ip_bin))
    | err ↦ ok []
    | panic ↦ panic
  ]
  | err ↦ ok []
  | panic ↦ panic
]

-- The loop of mergeIpRange.
unfoldable pub merge_loop : Text → List Text → Outcome (List Text)
merge_loop api [] = ok []
merge_loop api (r ∷ cidr) = do
  inside ← is_part_of_range r api
  here ← (if inside then exclude_ip_from_range r api else ok (r ∷ []))
  rest ← merge_loop api cidr
  ok (here ++ rest)

-- mergeIpRange
unfoldable pub merge_ip_range : Bool → List Text → List Text → Text → Outcome (List Text)
unfolding merge_loop
merge_ip_range ipv6_cluster svc_cidr pod_cidr api_server_ip = do
  cidr ← calculate_minimal_ip_range ipv6_cluster (svc_cidr ++ pod_cidr)
  merge_loop (api_server_ip ++ codes "/32") cidr
