-- ===== src/Cidr/Convert/RoundTrip.antt =====
-- binToIpRange and ipRangeToBin: what is printed is read back as the same range.
use kt_connect.Common.{
  ℕ, zero, suc, ◌+◌, ◌-◌, ◌*◌, ◌≤◌, ◌<◌, ◌≡◌, ◌≢◌, refl, ap, ◌∙◌, false, some, List, [], ◌∷◌, ◌++◌,
  map, arith, replicate, take, drop, length, length-take, length-drop, Text, All, All-append,
  All-take, All-drop, take-append-drop, Bool-cases, inl, inr,
}
use kt_connect.Common.Int.{ℤ, pos}
use kt_connect.Common.Outcome.{ok, ◌>>=◌}
use kt_connect.Strings.{split, join, format_nat, atoi}
use kt_connect.Strings.Split.{Lacks, split-join, split-append, split-Lacks}
use kt_connect.Strings.Number.{IsDigit, format_nat-IsDigit, atoi-format_nat}
use kt_connect.Cidr.Bins.{Cell, b0}
use kt_connect.Cidr.Bins.Part.{IsBit}
use kt_connect.Cidr.Convert.{
  parse_ip, parse_ip_loop, octets_to_bin, plain_ip_to_bin, mark_at, range_parts, ip_range_to_bin,
  read_segments, bin_to_ip_range,
}
use kt_connect.Cidr.Convert.Octets.{value, dec_to_bin-value}
use kt_connect.Cidr.Convert.Parts.{
  fill, mask_of, has_stop, canon, length-fill, fill-IsBit, canon-fill, mask_of-le,
  read_segment-fill, read_segment-replicate, take-replicate, mask_of-no_stop, read_segments_step,
  take-fill, drop-fill, drop-replicate, mask_of-cut,
}

-- The octets of an array, as numbers and as texts.
abbrev octets : ℕ → List Cell → List ℕ
octets zero bs = []
octets (suc k) bs = value (take 8 bs) ∷ octets k (drop 8 bs)

abbrev texts : List ℕ → List Text
texts [] = []
texts (n ∷ ns) = format_nat n ∷ texts ns

pub format_nat-zero : format_nat 0 ≡ b'0' ∷ []
unfolding format_nat
format_nat-zero = refl

texts-octets-zeros : (k m : ℕ) → texts (octets k (replicate m b0)) ≡ replicate k (b'0' ∷ [])
texts-octets-zeros zero m = refl
texts-octets-zeros (suc k) m =
    rw
      (
        drop-replicate 8 m,
        take-replicate 8 m,
        read_segment-replicate (length (take 8 (replicate m b0))) 128,
        format_nat-zero,
      )
      (ap (λ ts. (b'0' ∷ []) ∷ ts) (texts-octets-zeros k (m - 8)))

-- Without alignment the loop prints the octets of the filled array and the number of its bits.
read_segments-plain :
    (k i mask : ℕ) (bs : List Cell)
    → length bs ≡ 8 * k
    → read_segments k i mask false bs ≡ (texts (octets k (fill bs)), mask + mask_of bs)
read_segments-plain zero i mask [] e = unfold read_segments in ap (λ n. ([], n)) (omega arith)
read_segments-plain zero i mask (c ∷ bs) e = absurd (omega arith)
read_segments-plain (suc k) i mask bs e =
    rw
      (
        read_segments_step k i mask false bs,
        read_segment-fill (take 8 bs) 128,
        mask_of-cut 8 bs (omega arith),
        drop-fill 8 bs,
        take-fill 8 bs,
      )
      (elim (Bool-cases (has_stop (take 8 bs))) [
        | inl stops ↦ rw (stops, texts-octets-zeros k (length bs - 8))
        | inr goes_on ↦
            let eight : mask_of (take 8 bs) ≡ 8 =
              mask_of-no_stop (take 8 bs) goes_on ∙ length-take 8 bs (omega arith) in
            let ih =
              read_segments-plain k (suc i) (mask + 8) (drop 8 bs)
                (omega (arith, length-drop 8 bs)) in
            rw (goes_on, eight, ih)
              (ap
                (λ n.
                  (format_nat (value (fill (take 8 bs))) ∷ texts (octets k (fill (drop 8 bs))), n))
                (omega arith))
      ])

-- Reading the octets back.
octets_to_bin-octets :
    (k : ℕ) (f : List Cell)
    → All IsBit f
    → length f ≡ 8 * k
    → octets_to_bin (map pos (octets k f)) ≡ ok f
unfolding octets_to_bin
octets_to_bin-octets zero [] h e = refl
octets_to_bin-octets zero (c ∷ f) h e = absurd (omega arith)
octets_to_bin-octets (suc k) f h e =
    let here = dec_to_bin-value (take 8 f) (All-take IsBit 8 f h) (length-take 8 f (omega arith)) in
    rw (
      here.0,
      octets_to_bin-octets k (drop 8 f) (All-drop IsBit 8 f h) (omega (arith, length-drop 8 f)),
      take-append-drop 8 f,
    )

abbrev IsSmall : ℕ → Type 0
IsSmall n = n ≤ 255

octets-IsSmall : (k : ℕ) (f : List Cell) → All IsBit f → length f ≡ 8 * k → All IsSmall (octets k f)
octets-IsSmall zero f h e = tt
octets-IsSmall (suc k) f h e = (
  (dec_to_bin-value (take 8 f) (All-take IsBit 8 f h) (length-take 8 f (omega arith))).1,
  octets-IsSmall k (drop 8 f) (All-drop IsBit 8 f h) (omega (arith, length-drop 8 f)),
)

length-octets : (k : ℕ) (f : List Cell) → length (octets k f) ≡ k
length-octets zero f = refl
length-octets (suc k) f = ap suc (length-octets k (drop 8 f))

parse_ip_loop_step :
    (k : ℕ) (seg : Text) (segs : List Text) (n : ℤ)
    → atoi seg ≡ some n
    → parse_ip_loop (suc k) (seg ∷ segs) ≡ (parse_ip_loop k segs >>= λ ns. ok (n ∷ ns))
unfolding parse_ip_loop
parse_ip_loop_step k seg segs n h = ground arith

parse_ip_loop-texts :
    (k : ℕ) (ns : List ℕ)
    → All IsSmall ns
    → length ns ≡ k
    → parse_ip_loop k (texts ns) ≡ ok (map pos ns)
parse_ip_loop-texts zero [] h e = unfold parse_ip_loop in refl
parse_ip_loop-texts zero (n ∷ ns) h e = absurd (omega arith)
parse_ip_loop-texts (suc k) [] h e = absurd (omega arith)
parse_ip_loop-texts (suc k) (n ∷ ns) (hn, h) e = rw (
  parse_ip_loop_step k (format_nat n) (texts ns) (pos n) (atoi-format_nat n (omega arith)),
  parse_ip_loop-texts k ns h (omega arith),
)

IsDigit-Lacks : (c : ℕ) (s : Text) → c < b'0' → All IsDigit s → Lacks c s
IsDigit-Lacks c [] h d = tt
IsDigit-Lacks c (x ∷ s) h (d, ds) = (omega arith, IsDigit-Lacks c s h ds)

texts-Lacks : (c : ℕ) (ns : List ℕ) → c < b'0' → All (Lacks c) (texts ns)
texts-Lacks c [] h = tt
texts-Lacks c (n ∷ ns) h =
    (IsDigit-Lacks c (format_nat n) h (format_nat-IsDigit n), texts-Lacks c ns h)

join-Lacks : (c sep : ℕ) (ts : List Text) → sep ≢ c → All (Lacks c) ts → Lacks c (join ts sep)
unfolding join
join-Lacks c sep [] h k = tt
join-Lacks c sep (t ∷ []) h (k, _) = k
join-Lacks c sep (t ∷ t' ∷ ts) h (k, ks) =
    All-append (λ x. x ≢ c) t _ k (h, join-Lacks c sep (t' ∷ ts) h ks)

-- The address part is read back as the filled array.
plain_ip_to_bin-join :
    (f : List Cell)
    → All IsBit f
    → length f ≡ 32
    → plain_ip_to_bin (join (texts (octets 4 f)) b'.') ≡ ok f
plain_ip_to_bin-join f h e =
    unfold plain_ip_to_bin parse_ip in
    rw
      (
        split-join b'.' (texts (octets 4 f)) (cc) (texts-Lacks b'.' (octets 4 f) (omega arith)),
        parse_ip_loop-texts 4 (octets 4 f) (octets-IsSmall 4 f h e) (length-octets 4 f),
      )
      (octets_to_bin-octets 4 f h e)

-- The text of an array without alignment.
abbrev address : List Cell → Text
address bs = join (texts (octets 4 (fill bs))) b'.'

bin_to_ip_range-plain :
    (bs : List Cell)
    → length bs ≡ 32
    → bin_to_ip_range bs false ≡ address bs ++ (b'/' ∷ format_nat (mask_of bs))
bin_to_ip_range-plain bs e =
    unfold bin_to_ip_range in
    rw (read_segments-plain 4 0 0 bs e)
      (ap (λ n. address bs ++ (b'/' ∷ format_nat n)) (omega arith))

address-Lacks : (bs : List Cell) → Lacks b'/' (address bs)
address-Lacks bs =
    join-Lacks b'/' b'.' (texts (octets 4 (fill bs))) (omega arith)
      (texts-Lacks b'/' (octets 4 (fill bs)) (omega arith))

pub split-bin_to_ip_range :
    (bs : List Cell)
    → length bs ≡ 32
    → split (bin_to_ip_range bs false) b'/' ≡ address bs ∷ format_nat (mask_of bs) ∷ []
split-bin_to_ip_range bs e = rw (
  bin_to_ip_range-plain bs e,
  split-append b'/' (address bs) (format_nat (mask_of bs)) (address-Lacks bs),
  split-Lacks b'/' (format_nat (mask_of bs)) (
      IsDigit-Lacks b'/' (format_nat (mask_of bs)) (omega arith) (format_nat-IsDigit (mask_of bs))),
)

mark_at-fill :
    (bs : List Cell) → length bs ≡ 32 → mark_at (pos (mask_of bs)) (fill bs) ≡ ok (canon bs)
mark_at-fill bs e = unfold mark_at in ap ok (rw (← canon-fill bs, e))

pub range_parts_step :
    (ip mask : Text) (n : ℤ)
    → atoi mask ≡ some n
    → range_parts (ip ∷ mask ∷ []) ≡ (plain_ip_to_bin ip >>= λ bins. mark_at n bins)
unfolding range_parts
range_parts_step ip mask n h = ground arith

-- A printed range is read back as the same range, with zeros behind its mark.
pub ip_range_to_bin-bin_to_ip_range :
    (bs : List Cell) → length bs ≡ 32 → ip_range_to_bin (bin_to_ip_range bs false) ≡ ok (canon bs)
ip_range_to_bin-bin_to_ip_range bs e =
    unfold ip_range_to_bin in
    rw
      (
        split-bin_to_ip_range bs e,
        range_parts_step (address bs) (format_nat (mask_of bs)) (pos (mask_of bs))
            (atoi-format_nat (mask_of bs) (omega (arith, mask_of-le bs))),
        plain_ip_to_bin-join (fill bs) (fill-IsBit bs) (length-fill bs ∙ e),
      )
      (mark_at-fill bs e)
