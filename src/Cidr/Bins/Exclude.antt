-- ===== src/Cidr/Bins/Exclude.antt =====
-- excludeIpFromRange at the arrays: the ranges that it returns hold exactly the addresses of the
-- range other than the excluded one.
use kt_connect.Common.{
  ℕ, suc, ◌+◌, ◌≡◌, refl, ap, Bool, true, false, not, ◌&&◌, ◌||◌, List, [], ◌∷◌, ◌++◌, append_assoc,
  arith, set, replicate, length, length-append, All, All-append, Bool-cases, inl, inr, &&_split,
  ◌∙◌,
}
use kt_connect.Cidr.Bins.{
  Cell, b0, b1, stop, cell_eq, flip, is_part_of_bins, covered, next_is_stop, exclude_loop,
  exclude_bins,
}
use kt_connect.Cidr.Bins.Part.{IsBit, cell_eq_iff, cells_eq}
use kt_connect.Cidr.Bins.Host.{
  set-offset, differs, differs-cells_eq, cells_eq-snoc, TailBits, exclude_loop-host,
}

-- At most one mark.
abbrev pub IsRange : List Cell → Type 0
IsRange [] = Unit
IsRange (stop ∷ r) = All IsBit r
IsRange (c ∷ r) = IsRange r

is_part_of_bins-cons :
    (c d : Cell) (r w : List Cell)
    → IsBit c
    → is_part_of_bins (c ∷ r) (d ∷ w) ≡ (cell_eq d c && is_part_of_bins r w)
unfolding is_part_of_bins
is_part_of_bins-cons b0 d r w h = refl
is_part_of_bins-cons b1 d r w h = refl
is_part_of_bins-cons stop d r w h = absurd (h refl)

-- Behind a mark there is none.
marked-TailBits : (r : List Cell) → IsRange r → next_is_stop r ≡ true → TailBits r
marked-TailBits [] h e = tt
marked-TailBits (b0 ∷ r) h e = cc
marked-TailBits (b1 ∷ r) h e = cc
marked-TailBits (stop ∷ r) h e = h

is_part_of_bins-marked : (r w : List Cell) → next_is_stop r ≡ true → is_part_of_bins r w ≡ true
unfolding is_part_of_bins
is_part_of_bins-marked [] w e = cc
is_part_of_bins-marked (b0 ∷ r) w e = cc
is_part_of_bins-marked (b1 ∷ r) w e = cc
is_part_of_bins-marked (stop ∷ r) w e = refl

IsRange-cons : (c : Cell) (r : List Cell) → IsBit c → IsRange (c ∷ r) → IsRange r
IsRange-cons b0 r h k = k
IsRange-cons b1 r h k = k
IsRange-cons stop r h k = absurd (h refl)

-- The two entries that agree decide the rest alike.
agree_then_differ :
    (c b d : Cell) (e p q : Bool)
    → cell_eq b c ≡ true
    → IsBit b
    → ((e && cell_eq d b) && (p && q))
      ≡ (e && ((cell_eq d c && p) && (cell_eq d (flip b) || (cell_eq d b && q))))
agree_then_differ c b d e p q h k = ground arith

head-IsBit : (c : Cell) (r : List Cell) → next_is_stop (c ∷ r) ≡ false → IsBit c
head-IsBit b0 r h = ground arith
head-IsBit b1 r h = ground arith
head-IsBit stop r h = cc

exclude_loop_reached :
    (i : ℕ) (prev c b : Cell) (range ip ex : List Cell)
    → next_is_stop range ≡ true
    → exclude_loop i prev (c ∷ range) (b ∷ ip) false ex []
      ≡ exclude_loop (suc i) b range ip true ex []
exclude_loop_reached i prev c b range ip ex h = unfold exclude_loop in rw h

exclude_loop_more :
    (i : ℕ) (prev c b : Cell) (range ip ex : List Cell)
    → next_is_stop range ≡ false
    → cell_eq b c ≡ true
    → exclude_loop i prev (c ∷ range) (b ∷ ip) false ex []
      ≡ exclude_loop (suc i) b range ip false (set ex i b) []
exclude_loop_more i prev c b range ip ex h e =
    unfold exclude_loop in rw h (ground (arith, cell_eq_iff b c))

-- The network part: the entries agree up to the mark, behind which the host part begins.
exclude_loop-network :
    (i : ℕ) (pre : List Cell) (prev : Cell) (range ip suf u w : List Cell)
    → IsRange range
    → next_is_stop range ≡ false
    → is_part_of_bins range ip ≡ true
    → All IsBit pre
    → All IsBit ip
    → All IsBit w
    → i ≡ length pre
    → length range ≡ length ip
    → length suf ≡ length ip
    → length w ≡ length ip
    → length u ≡ length pre
    → length pre + length ip ≡ 32
    → covered (exclude_loop i prev range ip false (pre ++ suf) []) (u ++ w)
      ≡ (cells_eq u pre && (is_part_of_bins range w && differs ip w))
exclude_loop-network i pre prev [] [] suf u w hr hn hpart hp hi hw ei er es ew eu l =
    unfold exclude_loop covered in ground arith
exclude_loop-network i pre prev [] (b ∷ ip) suf u w hr hn hpart hp hi hw ei er es ew eu l =
    absurd (omega arith)
exclude_loop-network i pre prev (c ∷ range) [] suf u w hr hn hpart hp hi hw ei er es ew eu l =
    absurd (omega arith)
exclude_loop-network i pre prev (c ∷ range) (b ∷ ip) [] u w hr hn hpart hp hi hw ei er es ew eu l =
    absurd (omega arith)
exclude_loop-network i pre prev (c ∷ range) (b ∷ ip) (z ∷ s) u [] hr hn hpart hp hi hw ei er es ew
      eu l =
    absurd (omega arith)
exclude_loop-network i pre prev (c ∷ range) (b ∷ ip) (z ∷ s) u (d ∷ w) hr hn hpart hp (hb, hi)
      (hd, hw) ei er es ew eu l =
    let bit : IsBit c = head-IsBit c range hn in
    let (same, rest) =
      &&_split (cell_eq b c) (is_part_of_bins range ip)
        (rw (is_part_of_bins-cons c b range ip bit) at hpart) in
    let shift = append_assoc u (d ∷ []) w in
    let len : length (u ++ d ∷ []) ≡ length pre + 1 = omega (arith, length-append u (d ∷ [])) in
    rw (is_part_of_bins-cons c d range w bit) (elim (Bool-cases (next_is_stop range)) [
      | inl reached ↦
          let host = rw shift at (
            exclude_loop-host (suc i) pre z b range ip s [] (u ++ d ∷ []) w
              (marked-TailBits range (IsRange-cons c range bit hr) reached) hp hb hi (omega arith)
              (omega arith) (omega arith) (omega arith) len (omega arith)) in
          rw
            (
              exclude_loop_reached i prev c b range ip (pre ++ z ∷ s) reached,
              host,
              cells_eq-snoc u pre d b eu,
              is_part_of_bins-marked range w reached,
            )
            (unfold covered in agree_then_differ c b d (cells_eq u pre) true (differs ip w) same hb)
      | inr more ↦
          let network =
            rw (shift, append_assoc pre (b ∷ []) s) at
              (exclude_loop-network (suc i) (pre ++ b ∷ []) b range ip s (u ++ d ∷ []) w
                (IsRange-cons c range bit hr) more rest (All-append IsBit pre (b ∷ []) hp (hb, tt))
                hi hw (omega (arith, length-append pre (b ∷ []))) (omega arith) (omega arith)
                (omega arith) (omega (arith, len, length-append pre (b ∷ [])))
                (omega (arith, length-append pre (b ∷ [])))) in
          rw
            (
              exclude_loop_more i prev c b range ip (pre ++ z ∷ s) more same,
              set-offset pre (z ∷ s) i 0 b (omega arith),
              network,
              cells_eq-snoc u pre d b eu,
            )
            (agree_then_differ c b d (cells_eq u pre) (is_part_of_bins range w) (differs ip w) same
              hb)
    ])

-- The ranges that excludeIpFromRange returns hold an address exactly if the range does and it is
-- not the excluded one. The range has at least one bit before its mark, and holds the excluded
-- address.
pub exclude_bins_lem :
    (range ip a : List Cell)
    → IsRange range
    → next_is_stop range ≡ false
    → All IsBit ip
    → All IsBit a
    → length range ≡ 32
    → length ip ≡ 32
    → length a ≡ 32
    → is_part_of_bins range ip ≡ true
    → covered (exclude_bins range ip) a ≡ (is_part_of_bins range a && not (cells_eq a ip))
unfolding exclude_bins
exclude_bins_lem range ip a hr hn hi ha lr li la h =
    exclude_loop-network 0 [] b0 range ip (replicate 32 b0) [] a hr hn h tt hi ha (omega arith)
      (omega arith) (omega arith) (omega arith) (omega arith) (omega arith)
    ∙ ap (λ x. is_part_of_bins range a && x) (differs-cells_eq ip a hi ha (omega arith))
