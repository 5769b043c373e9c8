-- ===== src/Cidr/Convert/Align.antt =====
-- binToIpRange with alignment prints the range widened to the start of the octet of its mark.
use kt_connect.Common.{
  ℕ, zero, suc, ◌+◌, ◌-◌, ◌*◌, ◌≤◌, ◌≡◌, refl, sym, ap, ◌∙◌, true, false, ◌&&◌, List, [], ◌∷◌, ◌++◌,
  arith, if◌then◌else◌, replicate, take, drop, length, length-append, length-replicate, length-take,
  length-drop, take-append-drop, &&_split, Bool-cases, inl, inr,
}
use kt_connect.Common.Outcome.{ok}
use kt_connect.Cidr.Bins.{Cell, b0, stop, is_part_of_bins}
use kt_connect.Cidr.Bins.Part.{cells_eq, is_part_of_bins-append}
use kt_connect.Cidr.Convert.{ip_range_to_bin, read_segment, read_segments, bin_to_ip_range}
use kt_connect.Cidr.Convert.Parts.{
  mask_of, has_stop, canon, no_stop-IsBit, mask_of-no_stop, read_segments_step,
}
use kt_connect.Cidr.Convert.RoundTrip.{format_nat-zero, ip_range_to_bin-bin_to_ip_range}

-- The array with its mark moved back to the start of its octet.
abbrev pub widen : ℕ → List Cell → List Cell
widen zero bs = bs
widen (suc k) bs =
    if has_stop (take 8 bs)
    then stop ∷ replicate (length bs - 1) b0
    else take 8 bs ++ widen k (drop 8 bs)

take-append : (n : ℕ) (p s : List Cell) → length p ≡ n → take n (p ++ s) ≡ p
take-append zero [] s e = refl
take-append zero (_ ∷ p) s e = absurd (omega arith)
take-append (suc n) [] s e = absurd (omega arith)
take-append (suc n) (c ∷ p) s e = ap (λ r. c ∷ r) (take-append n p s (omega arith))

drop-append : (n : ℕ) (p s : List Cell) → length p ≡ n → drop n (p ++ s) ≡ s
drop-append zero [] s e = refl
drop-append zero (_ ∷ p) s e = absurd (omega arith)
drop-append (suc n) [] s e = absurd (omega arith)
drop-append (suc n) (c ∷ p) s e = drop-append n p s (omega arith)

pub length-widen : (k : ℕ) (bs : List Cell) → length bs ≡ 8 * k → length (widen k bs) ≡ length bs
length-widen zero bs e = refl
length-widen (suc k) bs e = elim (Bool-cases (has_stop (take 8 bs))) [
  | inl stops ↦ rw stops (omega (arith, length-replicate (length bs - 1) b0))
  | inr goes_on ↦
      rw
        (
          goes_on,
          length-append (take 8 bs) (widen k (drop 8 bs)),
          length-widen k (drop 8 bs) (omega (arith, length-drop 8 bs)),
        )
        (omega (arith, length-take 8 bs (omega arith), length-drop 8 bs))
]

read_segments-aligned :
    (k i : ℕ) (bs : List Cell)
    → length bs ≡ 8 * k
    → read_segments k i (i * 8) true bs ≡ read_segments k i (i * 8) false (widen k bs)
read_segments-aligned zero i bs e = unfold read_segments in refl
read_segments-aligned (suc k) i bs e =
    rw
      (
        read_segments_step k i (i * 8) true bs,
        read_segments_step k i (i * 8) false (widen (suc k) bs),
      )
      (elim (Bool-cases (has_stop (take 8 bs))) [
        | inl stops ↦ rw stops (
            unfold read_segment in
            rw format_nat-zero (ap (λ n. ((b'0' ∷ []) ∷ replicate k (b'0' ∷ []), n)) (omega arith)))
        | inr goes_on ↦
            let octet = take 8 bs in
            let rest = widen k (drop 8 bs) in
            let eight : length octet ≡ 8 = length-take 8 bs (omega arith) in
            let next : i * 8 + mask_of octet ≡ suc i * 8 =
              omega (arith, mask_of-no_stop octet goes_on) in
            rw (
              goes_on,
              take-append 8 octet rest eight,
              drop-append 8 octet rest eight,
              goes_on,
              next,
              read_segments-aligned k (suc i) (drop 8 bs) (omega (arith, length-drop 8 bs)),
            )
      ])

bin_to_ip_range-aligned :
    (bs : List Cell) → length bs ≡ 32 → bin_to_ip_range bs true ≡ bin_to_ip_range (widen 4 bs) false
bin_to_ip_range-aligned bs e = unfold bin_to_ip_range in rw (read_segments-aligned 4 0 bs e)

-- An aligned print is read back as the widened range.
pub ip_range_to_bin-aligned :
    (bs : List Cell)
    → length bs ≡ 32
    → ip_range_to_bin (bin_to_ip_range bs true) ≡ ok (canon (widen 4 bs))
ip_range_to_bin-aligned bs e =
    rw (bin_to_ip_range-aligned bs e)
      (ip_range_to_bin-bin_to_ip_range (widen 4 bs) (length-widen 4 bs e ∙ e))

-- An array cut in two is compared part by part.
is_part_of_bins-cut :
    (n : ℕ) (bs r a : List Cell)
    → n ≤ length bs
    → n ≤ length a
    → has_stop (take n bs) ≡ false
    → is_part_of_bins (take n bs ++ r) a
      ≡ (cells_eq (take n a) (take n bs) && is_part_of_bins r (drop n a))
is_part_of_bins-cut n bs r a hb ha h =
    ap (is_part_of_bins (take n bs ++ r)) (sym (take-append-drop n a))
    ∙ is_part_of_bins-append (take n bs) r (take n a) (drop n a) (no_stop-IsBit (take n bs) h)
        (omega (arith, length-take n bs hb, length-take n a ha))

-- The widened range holds what the range holds.
pub is_part_of_bins-widen :
    (k : ℕ) (bs a : List Cell)
    → length bs ≡ 8 * k
    → length a ≡ 8 * k
    → is_part_of_bins bs a ≡ true
    → is_part_of_bins (widen k bs) a ≡ true
is_part_of_bins-widen zero bs a e e' h = h
is_part_of_bins-widen (suc k) bs a e e' h = elim (Bool-cases (has_stop (take 8 bs))) [
  | inl stops ↦ rw stops (unfold is_part_of_bins in refl)
  | inr goes_on ↦
      let cut = is_part_of_bins-cut 8 bs (drop 8 bs) a (omega arith) (omega arith) goes_on in
      let whole = ap (λ s. is_part_of_bins s a) (take-append-drop 8 bs) in
      let (same, rest) = &&_split (cells_eq (take 8 a) (take 8 bs)) _ (sym cut ∙ whole ∙ h) in
      rw
        (
          goes_on,
          is_part_of_bins-cut 8 bs (widen k (drop 8 bs)) a (omega arith) (omega arith) goes_on,
          same,
        )
        (is_part_of_bins-widen k (drop 8 bs) (drop 8 a) (omega (arith, length-drop 8 bs))
          (omega (arith, length-drop 8 a)) rest)
]
