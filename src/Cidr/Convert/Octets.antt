-- ===== src/Cidr/Convert/Octets.antt =====
-- Eight bits and the number that they spell, by a table of all octets.
use kt_connect.Common.{
  ℕ, zero, suc, ◌≤◌, ◌≡◌, refl, ap, Bool, true, false, ◌&&◌, List, [], ◌∷◌, arith, leb, length, All,
  &&_split,
}
use kt_connect.Common.Int.{pos}
use kt_connect.Common.Outcome.{Outcome, ok, err, panic}
use kt_connect.Cidr.Bins.{Cell, b0, b1, stop}
use kt_connect.Cidr.Bins.Part.{IsBit, cells_eq, cell_eq_iff}
use kt_connect.Cidr.Convert.{dec_to_bin, read_segment}

-- The number that an octet prints as.
abbrev pub value : List Cell → ℕ
value octet = (read_segment octet 128).0

all_bits : ℕ → (List Cell → Bool) → Bool
all_bits zero p = p []
all_bits (suc k) p = all_bits k (λ bs. p (b0 ∷ bs)) && all_bits k (λ bs. p (b1 ∷ bs))

all_bits_sound :
    (k : ℕ) (p : List Cell → Bool) (bs : List Cell)
    → all_bits k p ≡ true
    → All IsBit bs
    → length bs ≡ k
    → p bs ≡ true
unfolding all_bits
all_bits_sound zero p [] h hb e = h
all_bits_sound zero p (_ ∷ bs) h hb e = absurd (omega arith)
all_bits_sound (suc k) p [] h hb e = absurd (omega arith)
all_bits_sound (suc k) p (b0 ∷ bs) h (_, hb) e =
    all_bits_sound k (λ s. p (b0 ∷ s)) bs (&&_split (all_bits k (λ s. p (b0 ∷ s))) _ h).0 hb
      (omega arith)
all_bits_sound (suc k) p (b1 ∷ bs) h (_, hb) e =
    all_bits_sound k (λ s. p (b1 ∷ s)) bs (&&_split (all_bits k (λ s. p (b0 ∷ s))) _ h).1 hb
      (omega arith)
all_bits_sound (suc k) p (stop ∷ bs) h (hs, _) e = absurd (hs refl)

pub cells_eq→≡ : (s t : List Cell) → cells_eq s t ≡ true → s ≡ t
cells_eq→≡ [] [] h = refl
cells_eq→≡ [] (_ ∷ t) h = cc
cells_eq→≡ (_ ∷ s) [] h = cc
cells_eq→≡ (c ∷ s) (d ∷ t) h = ground (arith, cell_eq_iff c d, cells_eq→≡ s t)

-- decToBin gives back the bits whose number was printed, and the number is below 256.
is_round_trip : List Cell → Bool
is_round_trip bs = elim (dec_to_bin (pos (value bs))) [
  | ok octet ↦ cells_eq octet bs && leb (value bs) 255
  | err ↦ false
  | panic ↦ false
]

round_trip_table : all_bits 8 is_round_trip ≡ true
unfolding all_bits is_round_trip dec_to_bin read_segment
round_trip_table = refl

Outcome-cases :
    (bs : List Cell) (o : Outcome (List Cell))
    → elim o [ ok octet ↦ cells_eq octet bs && leb (value bs) 255 | err ↦ false | panic ↦ false ]
      ≡ true
    → (o ≡ ok bs) × (value bs ≤ 255)
Outcome-cases bs (ok octet) h =
    let (same, small) = &&_split (cells_eq octet bs) _ h in
    (ap ok (cells_eq→≡ octet bs same), ground arith)
Outcome-cases bs err h = cc
Outcome-cases bs panic h = cc

pub dec_to_bin-value :
    (bs : List Cell)
    → All IsBit bs
    → length bs ≡ 8
    → (dec_to_bin (pos (value bs)) ≡ ok bs) × (value bs ≤ 255)
unfolding is_round_trip
dec_to_bin-value bs h e =
    Outcome-cases bs (dec_to_bin (pos (value bs)))
      (all_bits_sound 8 is_round_trip bs round_trip_table h e)
