-- ===== src/Cidr/Convert.antt =====
-- pkg/kt/service/cluster/cidr.go: text to arrays and back (parseIp, decToBin, ipToBin,
-- ipRangeToBin, binToIpRange), with the panics on an index that is out of range.
pub mod Octets
pub mod Parts
pub mod RoundTrip
pub mod Align
pub mod Length
pub mod Plain
use kt_connect.Common.{
  ℕ, zero, suc, ◌+◌, ◌-◌, ◌*◌, ◌/◌, ◌%◌, Bool, true, false, not, ◌&&◌, ◌||◌, Option, none, some,
  List, [], ◌∷◌, ◌++◌, ltb, ◌==◌, if◌then◌else◌, set, replicate, take, drop, length, Text,
}
use kt_connect.Common.Int.{ℤ, pos, negsuc}
use kt_connect.Common.Outcome.{Outcome, ok, err, panic, ◌>>=◌}
use kt_connect.Strings.{split, join, count, format_nat, atoi}
use kt_connect.Cidr.Bins.{Cell, b0, b1, stop}

-- `n % 2` as an entry
abbrev pub bit_of : ℕ → Cell
bit_of zero = b0
bit_of (suc _) = b1

-- The loop of decToBin with `k` entries left. The array is filled from the last bit on and then
-- reverted: `bin` holds the entries in their final order. A ninth bit is out of range.
unfoldable pub bits_loop : ℕ → ℕ → List Cell → Outcome (List Cell)
bits_loop zero n bin = if n == 0 then ok bin else panic
bits_loop (suc k) n bin = bits_loop k (n / 2) (bit_of (n % 2) ∷ bin)

-- decToBin; a negative number has no bits.
unfoldable pub dec_to_bin : ℤ → Outcome (List Cell)
unfolding bits_loop
dec_to_bin (pos n) = bits_loop 8 n []
dec_to_bin (negsuc n) = ok (replicate 8 b0)

-- The loop of parseIp with `k` entries of the array left; those that are not reached stay 0.
unfoldable pub parse_ip_loop : ℕ → List Text → Outcome (List ℤ)
parse_ip_loop k [] = ok (replicate k (pos 0))
parse_ip_loop zero (seg ∷ segs) = panic
parse_ip_loop (suc k) (seg ∷ segs) =
    let rest = parse_ip_loop k segs in
    elim (atoi seg) [ none ↦ err | some n ↦ rest >>= λ ns. ok (n ∷ ns) ]

unfoldable pub parse_ip : Text → Outcome (List ℤ)
unfolding parse_ip_loop
parse_ip ip = parse_ip_loop 4 (split ip b'.')

-- The eight entries of each number in turn.
unfoldable pub octets_to_bin : List ℤ → Outcome (List Cell)
octets_to_bin [] = ok []
octets_to_bin (n ∷ ns) = do bin ← dec_to_bin n; rest ← octets_to_bin ns; ok (bin ++ rest)

-- ipToBin at a text with no slash
unfoldable pub plain_ip_to_bin : Text → Outcome (List Cell)
plain_ip_to_bin ip = do nums ← parse_ip ip; octets_to_bin nums

-- `if sepIndex < 32 { ipBin[sepIndex] = -1 }`
unfoldable pub mark_at : ℤ → List Cell → Outcome (List Cell)
mark_at (pos n) bins = ok (if ltb n 32 then set bins n stop else bins)
mark_at (negsuc n) bins = panic

-- ipRangeToBin, at the parts of the text. A part holds no slash, so that ipToBin goes to its last
-- branch there.
unfoldable pub range_parts : List Text → Outcome (List Cell)
range_parts (ip ∷ mask ∷ []) = elim (atoi mask) [
  | none ↦ err
  | some sep_index ↦ plain_ip_to_bin ip >>= λ bins. mark_at sep_index bins
]
range_parts _ = err

unfoldable pub ip_range_to_bin : Text → Outcome (List Cell)
unfolding range_parts
ip_range_to_bin ip_range = range_parts (split ip_range b'/')

-- ipToBin
unfoldable pub ip_to_bin : Text → Outcome (List Cell)
ip_to_bin ip =
    if count ip b'/' == 1
    then ip_range_to_bin ip
    else if ltb 1 (count ip b'/')
    then err
    else plain_ip_to_bin ip

-- The inner loop of binToIpRange: the number, the bits read, and whether the mark was met.
unfoldable pub read_segment : List Cell → ℕ → ℕ × ℕ × Bool
read_segment [] factor = (0, 0, false)
read_segment (stop ∷ bins) factor = (0, 0, true)
read_segment (b0 ∷ bins) factor =
    let (segment, mask, end) = read_segment bins (factor / 2) in (segment, suc mask, end)
read_segment (b1 ∷ bins) factor =
    let (segment, mask, end) = read_segment bins (factor / 2) in (factor + segment, suc mask, end)

-- The outer loop of binToIpRange with `k` numbers left, `mask` bits read so far: the numbers that
-- are printed, and the mask.
unfoldable pub read_segments : ℕ → ℕ → ℕ → Bool → List Cell → List Text × ℕ
unfolding read_segment
read_segments zero i mask with_align bins = ([], mask)
read_segments (suc k) i mask with_align bins =
    let (segment, n, end) = read_segment (take 8 bins) 128 in
    let seg = if not with_align || not end then format_nat segment else b'0' ∷ [] in
    let (segs, mask') = read_segments k (suc i) (mask + n) with_align (drop 8 bins) in
    if end
    then (seg ∷ replicate k (b'0' ∷ []), if with_align then i * 8 else mask + n)
    else (seg ∷ segs, mask')

unfoldable pub bin_to_ip_range : List Cell → Bool → Text
unfolding read_segments
bin_to_ip_range bins with_align =
    let (ips, mask) = read_segments 4 0 0 with_align bins in
    join ips b'.' ++ (b'/' ∷ format_nat mask)
