-- ===== src/Cidr/Ranges/Minimal.antt =====
-- calculateMinimalIpRange over a list of texts: what its ranges hold.
use kt_connect.Common.{
  ◌≤◌, ◌≡◌, ◌≢◌, refl, sym, ◌∙◌, subst, true, false, List, [], ◌∷◌, map, take, length, Text, All,
  Bool-cases, inl, inr, ◌⊎◌,
}
use kt_connect.Common.Outcome.{Outcome, ok, err, panic}
use kt_connect.Strings.{contains_byte}
use kt_connect.Cidr.Bins.{Cell, is_part_of_bins, covered}
use kt_connect.Cidr.Convert.{ip_to_bin, bin_to_ip_range}
use kt_connect.Cidr.Convert.Parts.{has_stop}
use kt_connect.Cidr.Convert.Length.{Ensures, length-ip_to_bin}
use kt_connect.Cidr.Ranges.{insert_ip, minimal_loop, calculate_minimal_ip_range}
use kt_connect.Cidr.Ranges.Insert.{
  IsLong, AreApart, holders, insert_ip-IsLong, insert_ip-AreApart, covered-insert_ip,
  AreApart-holders,
}

-- Reading the text does not crash, and a range that it stands for is at least 16 bits long.
pub record IsSafe (ip : Text) : Type 0 where
  pub no_panic : ip_to_bin ip ≢ panic
  pub long_mask : (b : List Cell) → ip_to_bin ip ≡ ok b → has_stop (take 16 b) ≡ false

-- The text is skipped, or the ranges hold every address that it stands for.
pub record IsHeld (rs : List (List Cell)) (ip : Text) : Type 0 where
  pub held :
      (b a : List Cell)
      → contains_byte ip b':' ≡ false
      → ip_to_bin ip ≡ ok b
      → is_part_of_bins b a ≡ true
      → covered rs a ≡ true

pub Outcome-cases {ℓ} :
    {A : Type ℓ} (o : Outcome A) → ((a : A) × (o ≡ ok a)) ⊎ ((o ≡ err) ⊎ (o ≡ panic))
Outcome-cases (ok a) = inl (a, refl)
Outcome-cases err = inr (inl refl)
Outcome-cases panic = inr (inr refl)

-- What the loop keeps.
pub record IsMinimal (rs : List (List Cell)) : Type 0 where
  pub long : All IsLong rs
  pub are_apart : AreApart rs

ip_to_bin-IsLong : (ip : Text) (b : List Cell) → IsSafe ip → ip_to_bin ip ≡ ok b → IsLong b
ip_to_bin-IsLong ip b safe e =
    (subst (Ensures (λ bs. length bs ≡ 32)) e (length-ip_to_bin ip), safe.long_mask b e)

insert_ip-IsMinimal :
    (b : List Cell) (rs : List (List Cell)) → IsLong b → IsMinimal rs → IsMinimal (insert_ip rs b)
insert_ip-IsMinimal b rs long m = record {
  long = insert_ip-IsLong b long rs m.long;
  are_apart = insert_ip-AreApart b long rs m.long m.are_apart;
}

-- One round of the loop, on each of its branches.
minimal_loop_skip :
    (ip : Text) (ips : List Text) (rs : List (List Cell))
    → (contains_byte ip b':' ≡ true) ⊎ (ip_to_bin ip ≡ err)
    → minimal_loop (ip ∷ ips) rs ≡ minimal_loop ips rs
unfolding minimal_loop
minimal_loop_skip ip ips rs (inl h) = rw h
minimal_loop_skip ip ips rs (inr h) = elim (Bool-cases (contains_byte ip b':')) [
  | inl six ↦ rw six
  | inr four ↦ rw (four, h)
]

minimal_loop_take :
    (ip : Text) (ips : List Text) (rs : List (List Cell)) (b : List Cell)
    → contains_byte ip b':' ≡ false
    → ip_to_bin ip ≡ ok b
    → minimal_loop (ip ∷ ips) rs ≡ minimal_loop ips (insert_ip rs b)
unfolding minimal_loop
minimal_loop_take ip ips rs b four h = rw (four, h)

-- The loop ends with ranges that keep the invariant, hold what was held, and hold each text.
record IsResult (rs : List (List Cell)) (ips : List Text) (rs' : List (List Cell)) : Type 0 where
  minimal : IsMinimal rs'
  keeps : (a : List Cell) → covered rs a ≡ true → covered rs' a ≡ true
  holds : All (IsHeld rs') ips

IsResult-skip :
    (ip : Text) (ips : List Text) (rs rs' : List (List Cell))
    → (contains_byte ip b':' ≡ true) ⊎ (ip_to_bin ip ≡ err)
    → IsResult rs ips rs'
    → IsResult rs (ip ∷ ips) rs'
IsResult-skip ip ips rs rs' h r = record {
  minimal = r.minimal;
  keeps = r.keeps;
  holds = (record { held = λ b a four e p. skipped b four e h }, r.holds);
}
  where
    skipped :
        (b : List Cell) {P : Type 0}
        → contains_byte ip b':' ≡ false
        → ip_to_bin ip ≡ ok b
        → (contains_byte ip b':' ≡ true) ⊎ (ip_to_bin ip ≡ err)
        → P
    skipped b four e (inl six) = absurd (cc six)
    skipped b four e (inr bad) = absurd (cc bad)

IsResult-take :
    (ip : Text) (ips : List Text) (rs rs' : List (List Cell)) (b : List Cell)
    → ip_to_bin ip ≡ ok b
    → IsLong b
    → IsMinimal rs
    → IsResult (insert_ip rs b) ips rs'
    → IsResult rs (ip ∷ ips) rs'
IsResult-take ip ips rs rs' b e long m r = record {
  minimal = r.minimal;
  keeps = λ a h. r.keeps a (covered-insert_ip b long rs a m.long (inl h));
  holds = (
    record {
      held = λ b' a _ e' p.
          let same : b' ≡ b = cc (sym e', e) in
          r.keeps a (
            covered-insert_ip b long rs a m.long
              (inr (subst (λ x. is_part_of_bins x a ≡ true) same p)));
    },
    r.holds,
  );
}

minimal_loop_total :
    (ips : List Text) (rs : List (List Cell))
    → All IsSafe ips
    → IsMinimal rs
    → (rs' : List (List Cell)) × (minimal_loop ips rs ≡ ok rs') × IsResult rs ips rs'
minimal_loop_total [] rs _ m =
    (rs, unfold minimal_loop in refl, record { minimal = m; keeps = λ a h. h; holds = tt })
minimal_loop_total (ip ∷ ips) rs (safe, h) m = elim (Bool-cases (contains_byte ip b':')) [
  | inl six ↦
      let (rs', run, result) = minimal_loop_total ips rs h m in
      (
        rs',
        minimal_loop_skip ip ips rs (inl six) ∙ run,
        IsResult-skip ip ips rs rs' (inl six) result,
      )
  | inr four ↦ elim (Outcome-cases (ip_to_bin ip)) [
    | inl (b, e) ↦
        let long = ip_to_bin-IsLong ip b safe e in
        let (rs', run, result) =
          minimal_loop_total ips (insert_ip rs b) h (insert_ip-IsMinimal b rs long m) in
        (
          rs',
          minimal_loop_take ip ips rs b four e ∙ run,
          IsResult-take ip ips rs rs' b e long m result,
        )
    | inr (inl bad) ↦
        let (rs', run, result) = minimal_loop_total ips rs h m in
        (
          rs',
          minimal_loop_skip ip ips rs (inr bad) ∙ run,
          IsResult-skip ip ips rs rs' (inr bad) result,
        )
    | inr (inr crash) ↦ absurd (safe.no_panic crash)
  ]
]

-- For safe texts calculateMinimalIpRange returns: it prints ranges of at least 16 bits that hold
-- every address of a text that is not skipped, and no address is held by two of them.
pub calculate_minimal_ip_range_lem :
    (ips : List Text)
    → All IsSafe ips
    → (rs : List (List Cell)) × (calculate_minimal_ip_range false ips
        ≡ ok (map (λ r. bin_to_ip_range r true) rs))
      × All IsLong rs
      × All (IsHeld rs) ips
      × ((a : List Cell) → length a ≡ 32 → holders rs a ≤ 1)
calculate_minimal_ip_range_lem ips safe =
    let (rs, run, result) = minimal_loop_total ips [] safe (record { long = tt; are_apart = tt }) in
    (
      rs,
      unfold calculate_minimal_ip_range in rw run,
      result.minimal.long,
      result.holds,
      λ a ha. AreApart-holders rs a ha result.minimal.long result.minimal.are_apart,
    )
