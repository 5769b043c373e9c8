-- ===== src/Cidr/Ranges/Merge.antt =====
-- mergeIpRange: the ranges of the services and pods, without the address of the API server.
use kt_connect.Common.{
  ◌≡◌, refl, true, false, not, ◌&&◌, ◌||◌, List, [], ◌∷◌, ◌++◌, map, arith, if◌then◌else◌, length,
  Text, All, Bool-cases, inl, inr,
}
use kt_connect.Common.Outcome.{ok, ◌>>=◌}
use kt_connect.Strings.{contains_byte}
use kt_connect.Strings.Split.{Lacks}
use kt_connect.Cidr.Bins.{Cell, is_part_of_bins, exclude_bins, covered}
use kt_connect.Cidr.Bins.Part.{IsBit, cells_eq, cell_eq_refl}
use kt_connect.Cidr.Convert.{plain_ip_to_bin, ip_to_bin, bin_to_ip_range}
use kt_connect.Cidr.Convert.Align.{widen, is_part_of_bins-widen}
use kt_connect.Cidr.Convert.Parts.{is_part_of_bins-canon}
use kt_connect.Cidr.Convert.Plain.{single, plain_ip_to_bin-IsBit}
use kt_connect.Cidr.Ranges.{is_part_of_range, exclude_ip_from_range, merge_loop, merge_ip_range}
use kt_connect.Cidr.Ranges.Insert.{IsLong}
use kt_connect.Cidr.Ranges.Minimal.{IsSafe, IsHeld, calculate_minimal_ip_range_lem}
use kt_connect.Cidr.Ranges.Exclude.{
  holds, any_holds, reread, holds-aligned, is_part_of_range-aligned, exclude_ip_from_range-aligned,
  any_holds-excluded, holds-kept,
}

abbrev aligned : List (List Cell) → List Text
aligned rs = map (λ r. bin_to_ip_range r true) rs

any_holds-append :
    (s t : List Text) (a : List Cell) → any_holds (s ++ t) a ≡ (any_holds s a || any_holds t a)
any_holds-append [] t a = refl
any_holds-append (r ∷ s) t a = ground (arith, any_holds-append s t a)

-- Some text of the list stands for a range that holds the address.
module _ (api : Text) (x : List Cell) (no_slash : Lacks b'/' api)
    (reads : plain_ip_to_bin api ≡ ok x) where
  -- What the loop puts in the place of one range.
  replaced :
      (r : List Cell)
      → IsLong r
      → (here : List Text) × ((is_part_of_range (bin_to_ip_range r true) (single api) >>= λ inside.
            (if inside
              then exclude_ip_from_range (bin_to_ip_range r true) (single api)
              else ok (bin_to_ip_range r true ∷ [])))
          ≡ ok here)
        × ((a : List Cell)
            → All IsBit a
            → length a ≡ 32
            → any_holds here a ≡ (holds (bin_to_ip_range r true) a && not (cells_eq a x)))
  replaced r long = elim (Bool-cases (is_part_of_bins (reread r) x)) [
    | inl inside ↦ (
      map (λ s. bin_to_ip_range s false) (exclude_bins (reread r) x),
      rw (is_part_of_range-aligned api x no_slash reads r long.0, inside)
          (exclude_ip_from_range-aligned api x no_slash reads r long.0),
      λ a ha la.
          rw (holds-aligned r a long.0)
            (any_holds-excluded api x no_slash reads r a long ha la inside),
    )
    | inr outside ↦ (
      bin_to_ip_range r true ∷ [],
      rw (is_part_of_range-aligned api x no_slash reads r long.0, outside),
      λ a ha la.
          rw (holds-aligned r a long.0)
            (ground (arith, holds-kept api x no_slash reads r a outside)),
    )
  ]

  merge_loop_step :
      (t : Text) (ts here rest : List Text)
      → (is_part_of_range t (single api) >>= λ inside.
          (if inside then exclude_ip_from_range t (single api) else ok (t ∷ [])))
        ≡ ok here
      → merge_loop (single api) ts ≡ ok rest
      → merge_loop (single api) (t ∷ ts) ≡ ok (here ++ rest)
  unfolding merge_loop
  merge_loop_step t ts here rest h k = ground arith

  merge_loop_lem :
      (rs : List (List Cell))
      → All IsLong rs
      → (merged : List Text) × (merge_loop (single api) (aligned rs) ≡ ok merged)
        × ((a : List Cell)
            → All IsBit a
            → length a ≡ 32
            → any_holds merged a ≡ (any_holds (aligned rs) a && not (cells_eq a x)))
  merge_loop_lem [] h = ([], unfold merge_loop in refl, λ a _ _. refl)
  merge_loop_lem (r ∷ rs) (long, h) =
      let (here, run, meaning) = replaced r long in
      let (rest, run', meaning') = merge_loop_lem rs h in
      (
        here ++ rest,
        merge_loop_step (bin_to_ip_range r true) (aligned rs) here rest run run',
        λ a ha la.
            rw (any_holds-append here rest a, meaning a ha la, meaning' a ha la) (ground arith),
      )

-- What is held by an array is held by its print.
any_holds-aligned :
    (rs : List (List Cell)) (a : List Cell)
    → All IsLong rs
    → length a ≡ 32
    → covered rs a ≡ true
    → any_holds (aligned rs) a ≡ true
unfolding covered
any_holds-aligned [] a h la c = cc
any_holds-aligned (r ∷ rs) a (long, h) la c = elim (Bool-cases (is_part_of_bins r a)) [
  | inl here ↦ rw (
    holds-aligned r a long.0,
    is_part_of_bins-canon (widen 4 r) a,
    is_part_of_bins-widen 4 r a long.0 la here,
  )
  | inr there ↦ ground (arith, any_holds-aligned rs a h la)
]

-- The texts of the list that are not skipped stand only for addresses that the ranges hold, but for
-- the address that is taken out.
abbrev pub IsRouted : List Text → List Cell → Text → Type 0
IsRouted merged x ip =
    (b a : List Cell)
    → contains_byte ip b':' ≡ false
    → ip_to_bin ip ≡ ok b
    → All IsBit a
    → length a ≡ 32
    → is_part_of_bins b a ≡ true
    → cells_eq a x ≡ false
    → any_holds merged a ≡ true

All-map :
    {A : Type 0} (P Q : A → Type 0) (ips : List A)
    → ((ip : A) → P ip → Q ip)
    → All P ips
    → All Q ips
All-map P Q [] f h = tt
All-map P Q (ip ∷ ips) f (p, h) = (f ip p, All-map P Q ips f h)

cells_eq_self : (x : List Cell) → cells_eq x x ≡ true
cells_eq_self [] = refl
cells_eq_self (c ∷ x) = rw (cell_eq_refl c, cells_eq_self x)

-- For safe ranges of services and pods in an IPv4 cluster, and an API server whose address is read
-- as `x`, mergeIpRange returns ranges that hold every address of the given ranges but `x`, and
-- that do not hold `x`.
pub merge_ip_range_lem :
    (svc_cidr pod_cidr : List Text) (api : Text) (x : List Cell)
    → All IsSafe (svc_cidr ++ pod_cidr)
    → Lacks b'/' api
    → plain_ip_to_bin api ≡ ok x
    → (merged : List Text) × (merge_ip_range false svc_cidr pod_cidr api ≡ ok merged)
      × All (IsRouted merged x) (svc_cidr ++ pod_cidr)
      × (any_holds merged x ≡ false)
merge_ip_range_lem svc_cidr pod_cidr api x safe no_slash reads =
    let (rs, run, long, held, _) = calculate_minimal_ip_range_lem (svc_cidr ++ pod_cidr) safe in
    let (merged, run', meaning) = merge_loop_lem api x no_slash reads rs long in
    let (bits, len) = plain_ip_to_bin-IsBit api x reads in
    (
      merged,
      unfold merge_ip_range in rw run run',
      All-map (IsHeld rs) (IsRouted merged x) (svc_cidr ++ pod_cidr)
          (λ ip h b a four e ha la p differ.
            rw (meaning a ha la, any_holds-aligned rs a long la (h.held b a four e p), differ) refl)
          held,
      rw (meaning x bits len, cells_eq_self x) (ground arith),
    )
