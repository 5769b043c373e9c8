-- ===== src/Cidr/Ranges/Exclude.antt =====
-- isPartOfRange and excludeIpFromRange at a printed range and the address of the API server.
use kt_connect.Common.{
  ℕ, zero, suc, ◌-◌, ◌≤◌, ◌≡◌, refl, ap, ◌∙◌, Bool, true, false, not, ◌&&◌, ◌||◌, List, [], ◌∷◌,
  ◌++◌, map, arith, if◌then◌else◌, set, take, replicate, length, length-replicate, Text, All,
  All-append, Bool-cases, inl, inr,
}
use kt_connect.Common.Outcome.{ok, err, panic}
use kt_connect.Strings.Split.{Lacks}
use kt_connect.Cidr.Bins.{
  Cell, b0, b1, stop, flip, cell_eq, is_part_of_bins, next_is_stop, sibling, exclude_loop,
  exclude_bins, covered,
}
use kt_connect.Cidr.Bins.Part.{IsBit, cells_eq}
use kt_connect.Cidr.Bins.Exclude.{IsRange, exclude_bins_lem}
use kt_connect.Cidr.Convert.{plain_ip_to_bin, ip_range_to_bin, bin_to_ip_range}
use kt_connect.Cidr.Convert.Octets.{cells_eq→≡}
use kt_connect.Cidr.Convert.Plain.{
  single, plain_ip_to_bin-IsBit, ip_range_to_bin-single, ip_to_bin-single,
}
use kt_connect.Cidr.Convert.Parts.{has_stop, canon, length-canon, is_part_of_bins-canon}
use kt_connect.Cidr.Convert.RoundTrip.{ip_range_to_bin-bin_to_ip_range}
use kt_connect.Cidr.Convert.Align.{widen, length-widen, ip_range_to_bin-aligned}
use kt_connect.Cidr.Ranges.{is_part_of_range, exclude_ip_from_range}
use kt_connect.Cidr.Ranges.Insert.{IsLong}

-- The range that a text stands for holds the address.
abbrev pub holds : Text → List Cell → Bool
holds t a = elim (ip_range_to_bin t) [ ok b ↦ is_part_of_bins b a | err ↦ false | panic ↦ false ]

abbrev pub any_holds : List Text → List Cell → Bool
any_holds [] a = false
any_holds (t ∷ ts) a = holds t a || any_holds ts a

length-set : (bs : List Cell) (i : ℕ) (v : Cell) → length (set bs i v) ≡ length bs
length-set [] i v = refl
length-set (c ∷ bs) zero v = refl
length-set (c ∷ bs) (suc i) v = ap suc (length-set bs i v)

length-sibling : (i : ℕ) (prev b : Cell) (ex : List Cell) → length (sibling i prev b ex) ≡ length ex
length-sibling i prev b ex = ground (
  arith,
  length-set ex (i - 1) prev,
  length-set (set ex (i - 1) prev) i (flip b),
  length-set (set (set ex (i - 1) prev) i (flip b)) (suc i) stop,
)

abbrev AllLong : List (List Cell) → Type 0
AllLong = All (λ r. length r ≡ 32)

if_All :
    (b c d : Bool) (r s t : List (List Cell))
    → AllLong r
    → AllLong s
    → AllLong t
    → AllLong (if b then r else if c then s else if d then [] else t)
if_All true c d r s t hr hs ht = hr
if_All false true d r s t hr hs ht = hs
if_All false false true r s t hr hs ht = tt
if_All false false false r s t hr hs ht = ht

-- Every array that the exclusion prints has 32 entries.
exclude_loop-AllLong :
    (i : ℕ) (prev : Cell) (range ip : List Cell) (reach : Bool) (ex : List Cell)
    (out : List (List Cell))
    → length ex ≡ 32
    → AllLong out
    → AllLong (exclude_loop i prev range ip reach ex out)
unfolding exclude_loop
exclude_loop-AllLong i prev [] ip reach ex out e h = h
exclude_loop-AllLong i prev (c ∷ range) [] reach ex out e h = h
exclude_loop-AllLong i prev (c ∷ range) (b ∷ ip) reach ex out e h =
    if_All (next_is_stop range) reach (not (cell_eq c b)) _ _ _
      (exclude_loop-AllLong (suc i) b range ip true ex out e h)
      (exclude_loop-AllLong (suc i) b range ip true (sibling i prev b ex)
        (out ++ sibling i prev b ex ∷ []) (length-sibling i prev b ex ∙ e)
        (All-append (λ r. length r ≡ 32) out _ h (length-sibling i prev b ex ∙ e, tt)))
      (exclude_loop-AllLong (suc i) b range ip false (set ex i b) out (length-set ex i b ∙ e) h)

exclude_bins-AllLong : (range ip : List Cell) → AllLong (exclude_bins range ip)
unfolding exclude_bins
exclude_bins-AllLong range ip =
    exclude_loop-AllLong 0 b0 range ip false (replicate 32 b0) [] (length-replicate 32 b0) tt

holds-ok : (t : Text) (b a : List Cell) → ip_range_to_bin t ≡ ok b → holds t a ≡ is_part_of_bins b a
holds-ok t b a e = rw (e, holds)

-- The printed arrays hold what the arrays hold.
any_holds-map :
    (rs : List (List Cell)) (a : List Cell)
    → AllLong rs
    → any_holds (map (λ r. bin_to_ip_range r false) rs) a ≡ covered rs a
unfolding covered
any_holds-map [] a h = refl
any_holds-map (r ∷ rs) a (e, h) = rw (
  holds-ok (bin_to_ip_range r false) (canon r) a (ip_range_to_bin-bin_to_ip_range r e),
  is_part_of_bins-canon r a,
  any_holds-map rs a h,
)

-- A range of 16 bits or more, as it is read back from its aligned print.
abbrev pub reread : List Cell → List Cell
reread r = canon (widen 4 r)

zeros-IsBit : (n : ℕ) → All IsBit (replicate n b0)
zeros-IsBit zero = tt
zeros-IsBit (suc n) = (ground arith, zeros-IsBit n)

canon-IsRange : (r : List Cell) → IsRange (canon r)
canon-IsRange [] = tt
canon-IsRange (stop ∷ r) = zeros-IsBit (length r)
canon-IsRange (b0 ∷ r) = canon-IsRange r
canon-IsRange (b1 ∷ r) = canon-IsRange r

has_stop-take :
    (n m : ℕ) (r : List Cell) → m ≤ n → has_stop (take n r) ≡ false → has_stop (take m r) ≡ false
has_stop-take n zero r h k = refl
has_stop-take zero (suc m) r h k = absurd (omega arith)
has_stop-take (suc n) (suc m) [] h k = refl
has_stop-take (suc n) (suc m) (stop ∷ r) h k = cc
has_stop-take (suc n) (suc m) (b0 ∷ r) h k = has_stop-take n m r (omega arith) k
has_stop-take (suc n) (suc m) (b1 ∷ r) h k = has_stop-take n m r (omega arith) k

next_is_stop-reread : (r : List Cell) → IsLong r → next_is_stop (reread r) ≡ false
next_is_stop-reread [] (e, h) = absurd (omega arith)
next_is_stop-reread (stop ∷ r) (e, h) = cc
next_is_stop-reread (b0 ∷ r) (e, h) = rw (has_stop-take 15 7 r (omega arith) h)
next_is_stop-reread (b1 ∷ r) (e, h) = rw (has_stop-take 15 7 r (omega arith) h)

length-reread : (r : List Cell) → length r ≡ 32 → length (reread r) ≡ 32
length-reread r e = length-canon (widen 4 r) ∙ length-widen 4 r e ∙ e

cells_eq-is_part_of_bins :
    (x a : List Cell) → All IsBit x → cells_eq a x ≡ true → is_part_of_bins x a ≡ true
unfolding is_part_of_bins
cells_eq-is_part_of_bins [] a hx h = refl
cells_eq-is_part_of_bins (c ∷ x) [] hx h = cc
cells_eq-is_part_of_bins (b0 ∷ x) (d ∷ a) (_, hx) h =
    ground (arith, cells_eq-is_part_of_bins x a hx)
cells_eq-is_part_of_bins (b1 ∷ x) (d ∷ a) (_, hx) h =
    ground (arith, cells_eq-is_part_of_bins x a hx)
cells_eq-is_part_of_bins (stop ∷ x) (d ∷ a) (hs, hx) h = absurd (hs refl)

-- What a printed range holds.
pub holds-aligned :
    (r a : List Cell)
    → length r ≡ 32
    → holds (bin_to_ip_range r true) a ≡ is_part_of_bins (reread r) a
holds-aligned r a e = holds-ok (bin_to_ip_range r true) (reread r) a (ip_range_to_bin-aligned r e)

module _ (api : Text) (x : List Cell) (no_slash : Lacks b'/' api)
    (reads : plain_ip_to_bin api ≡ ok x) where
  pub is_part_of_range-aligned :
      (r : List Cell)
      → length r ≡ 32
      → is_part_of_range (bin_to_ip_range r true) (single api) ≡ ok (is_part_of_bins (reread r) x)
  unfolding is_part_of_range
  is_part_of_range-aligned r e =
      rw
        (ip_range_to_bin-aligned r e, ip_range_to_bin-single api x no_slash reads, is_part_of_range)

  pub exclude_ip_from_range-aligned :
      (r : List Cell)
      → length r ≡ 32
      → exclude_ip_from_range (bin_to_ip_range r true) (single api)
        ≡ ok (map (λ s. bin_to_ip_range s false) (exclude_bins (reread r) x))
  unfolding exclude_ip_from_range
  exclude_ip_from_range-aligned r e =
      rw (ip_range_to_bin-aligned r e, ip_to_bin-single api x no_slash reads, exclude_ip_from_range)

  -- What is left of a range that holds the address.
  pub any_holds-excluded :
      (r a : List Cell)
      → IsLong r
      → All IsBit a
      → length a ≡ 32
      → is_part_of_bins (reread r) x ≡ true
      → any_holds (map (λ s. bin_to_ip_range s false) (exclude_bins (reread r) x)) a
        ≡ (is_part_of_bins (reread r) a && not (cells_eq a x))
  any_holds-excluded r a long ha la h =
      let (bits, len) = plain_ip_to_bin-IsBit api x reads in
      any_holds-map (exclude_bins (reread r) x) a (exclude_bins-AllLong (reread r) x)
      ∙ exclude_bins_lem (reread r) x a (canon-IsRange (widen 4 r)) (next_is_stop-reread r long)
          bits ha (length-reread r long.0) len la h

  -- A range that does not hold the address loses nothing.
  pub holds-kept :
      (r a : List Cell)
      → is_part_of_bins (reread r) x ≡ false
      → is_part_of_bins (reread r) a ≡ (is_part_of_bins (reread r) a && not (cells_eq a x))
  holds-kept r a h = elim (Bool-cases (cells_eq a x)) [
    | inl same ↦ let e : a ≡ x = cells_eq→≡ a x same in rw same (rw e (rw h))
    | inr differ ↦ rw differ (ground arith)
  ]
