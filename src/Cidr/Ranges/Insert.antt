-- ===== src/Cidr/Ranges/Insert.antt =====
-- The list of ranges of calculateMinimalIpRange, and one more address in it.
use kt_connect.Common.{
  ℕ, ◌+◌, ◌≤◌, ◌≡◌, refl, sym, ap, ◌∙◌, subst, Bool, true, false, ◌||◌, none, some, List, [], ◌∷◌,
  arith, if◌then◌else◌, take, length, All, Bool-cases, Option-cases, inl, inr, ◌⊎◌,
}
use kt_connect.Cidr.Bins.{Cell, is_part_of_bins, covered}
use kt_connect.Cidr.Bins.Part.{cells_eq}
use kt_connect.Cidr.Convert.Parts.{has_stop}
use kt_connect.Cidr.Ranges.{match_bins, insert_ip}
use kt_connect.Cidr.Ranges.Match.{match_bins-IsMatch, match_bins-none, apart}

-- The range has 32 entries and at least 16 bits before its mark.
abbrev pub IsLong : List Cell → Type 0
IsLong r = (length r ≡ 32) × (has_stop (take 16 r) ≡ false)

-- The first 16 entries differ from those of every range of the list.
abbrev pub IsApart : List Cell → List (List Cell) → Type 0
IsApart r = All (λ s. cells_eq (take 16 r) (take 16 s) ≡ false)

abbrev pub AreApart : List (List Cell) → Type 0
AreApart [] = Unit
AreApart (r ∷ rs) = IsApart r rs × AreApart rs

insert_ip_found :
    (r ip r' : List Cell) (rs : List (List Cell))
    → match_bins 0 r ip ≡ some r'
    → insert_ip (r ∷ rs) ip ≡ r' ∷ rs
unfolding insert_ip
insert_ip_found r ip r' rs h = ground arith

insert_ip_failed :
    (r ip : List Cell) (rs : List (List Cell))
    → match_bins 0 r ip ≡ none
    → insert_ip (r ∷ rs) ip ≡ r ∷ insert_ip rs ip
unfolding insert_ip
insert_ip_failed r ip rs h = ground arith

still_held :
    (here rest new : Bool) {rest' : Bool}
    → ((here || rest) ≡ true) ⊎ (new ≡ true)
    → ((rest ≡ true) ⊎ (new ≡ true) → rest' ≡ true)
    → (here || rest') ≡ true
still_held true rest new h k = refl
still_held false rest new h k = k h

module _ (ip : List Cell) (long : IsLong ip) where
  pub insert_ip-IsLong : (rs : List (List Cell)) → All IsLong rs → All IsLong (insert_ip rs ip)
  insert_ip-IsLong [] h = unfold insert_ip in (long, tt)
  insert_ip-IsLong (r ∷ rs) (hr, h) = elim (Option-cases (match_bins 0 r ip)) [
    | inl fails ↦ rw (insert_ip_failed r ip rs fails) (hr, insert_ip-IsLong rs h)
    | inr (r', found) ↦
        let m = match_bins-IsMatch 0 r ip r' (hr.0 ∙ sym long.0) found in
        rw (insert_ip_found r ip r' rs found)
          ((m.same_length ∙ hr.0, ap has_stop m.same_head ∙ hr.1), h)
  ]

  insert_ip-IsApart :
      (s : List Cell) (rs : List (List Cell))
      → All IsLong rs
      → cells_eq (take 16 s) (take 16 ip) ≡ false
      → IsApart s rs
      → IsApart s (insert_ip rs ip)
  insert_ip-IsApart s [] long_rs h k = unfold insert_ip in (h, tt)
  insert_ip-IsApart s (r ∷ rs) (hr, long_rs) h (k, ks) = elim (Option-cases (match_bins 0 r ip)) [
    | inl fails ↦ rw (insert_ip_failed r ip rs fails) (k, insert_ip-IsApart s rs long_rs h ks)
    | inr (r', found) ↦
        let m = match_bins-IsMatch 0 r ip r' (hr.0 ∙ sym long.0) found in
        rw (insert_ip_found r ip r' rs found) (ap (cells_eq (take 16 s)) m.same_head ∙ k, ks)
  ]

  pub insert_ip-AreApart :
      (rs : List (List Cell)) → All IsLong rs → AreApart rs → AreApart (insert_ip rs ip)
  insert_ip-AreApart [] long_rs h = unfold insert_ip in (tt, tt)
  insert_ip-AreApart (r ∷ rs) (hr, long_rs) (k, h) = elim (Option-cases (match_bins 0 r ip)) [
    | inl fails ↦ rw (insert_ip_failed r ip rs fails) (
      insert_ip-IsApart r rs long_rs (match_bins-none 0 r ip (hr.0 ∙ sym long.0) fails).1 k,
      insert_ip-AreApart rs long_rs h,
    )
    | inr (r', found) ↦
        let m = match_bins-IsMatch 0 r ip r' (hr.0 ∙ sym long.0) found in
        rw (insert_ip_found r ip r' rs found)
          (subst (λ t. All (λ s. cells_eq t (take 16 s) ≡ false) rs) (sym m.same_head) k, h)
  ]

  -- What was held stays held, and the address is held.
  pub covered-insert_ip :
      (rs : List (List Cell)) (a : List Cell)
      → All IsLong rs
      → (covered rs a ≡ true) ⊎ (is_part_of_bins ip a ≡ true)
      → covered (insert_ip rs ip) a ≡ true
  unfolding covered
  covered-insert_ip [] a long_rs h = unfold insert_ip in ground arith
  covered-insert_ip (r ∷ rs) a (hr, long_rs) h = elim (Option-cases (match_bins 0 r ip)) [
    | inl fails ↦ rw (insert_ip_failed r ip rs fails) (
        still_held (is_part_of_bins r a) (covered rs a) (is_part_of_bins ip a) h
          (covered-insert_ip rs a long_rs))
    | inr (r', found) ↦
        let m = match_bins-IsMatch 0 r ip r' (hr.0 ∙ sym long.0) found in
        rw (insert_ip_found r ip r' rs found) (ground (arith, m.holds_bins a, m.holds_ip a))
  ]

-- How many ranges hold the address.
abbrev pub holders : List (List Cell) → List Cell → ℕ
holders [] a = 0
holders (r ∷ rs) a = (if is_part_of_bins r a then 1 else 0) + holders rs a

holders-IsApart :
    (r : List Cell) (rs : List (List Cell)) (a : List Cell)
    → length a ≡ 32
    → IsLong r
    → All IsLong rs
    → IsApart r rs
    → is_part_of_bins r a ≡ true
    → holders rs a ≡ 0
holders-IsApart r [] a ha hr h k p = refl
holders-IsApart r (s ∷ rs) a ha hr (hs, h) (k, ks) p = elim (Bool-cases (is_part_of_bins s a)) [
  | inl both ↦ absurd (apart 16 r s a (hr.0 ∙ sym hs.0) (hs.0 ∙ sym ha) hr.1 hs.1 k p both)
  | inr one ↦ rw one (omega (arith, holders-IsApart r rs a ha hr h ks p))
]

-- Ranges that are apart hold no address twice.
pub AreApart-holders :
    (rs : List (List Cell)) (a : List Cell)
    → length a ≡ 32
    → All IsLong rs
    → AreApart rs
    → holders rs a ≤ 1
AreApart-holders [] a ha h k = omega arith
AreApart-holders (r ∷ rs) a ha (hr, h) (k, ks) = elim (Bool-cases (is_part_of_bins r a)) [
  | inl here ↦ rw here (omega (arith, holders-IsApart r rs a ha hr h k here))
  | inr there ↦ rw there (omega (arith, AreApart-holders rs a ha h ks))
]
