-- ===== src/Cidr/Convert/Length.antt =====
-- An array that is read from a text has 32 entries.
use kt_connect.Common.{
  ℕ, zero, suc, ◌+◌, ◌*◌, ◌/◌, ◌%◌, ◌≡◌, refl, ap, none, some, List, [], ◌∷◌, arith, ltb, ◌==◌, set,
  length, length-append, length-replicate, Text, Bool-cases, inl, inr,
}
use kt_connect.Common.Int.{ℤ, pos, negsuc}
use kt_connect.Common.Outcome.{Outcome, ok, err, panic, ◌>>=◌}
use kt_connect.Strings.{split, count, atoi}
use kt_connect.Cidr.Bins.{Cell, stop}
use kt_connect.Cidr.Convert.{
  bit_of, bits_loop, dec_to_bin, parse_ip_loop, parse_ip, octets_to_bin, plain_ip_to_bin, mark_at,
  range_parts, ip_range_to_bin, ip_to_bin,
}

-- What holds of the value, if there is one.
abbrev pub Ensures {ℓ κ} : {A : Type ℓ} → (A → Type κ) → Outcome A → Type κ
Ensures P (ok a) = P a
Ensures P err = Unit
Ensures P panic = Unit

pub Ensures-bind {ℓ κ} :
    {A B : Type ℓ} (P : A → Type κ) (Q : B → Type κ) (m : Outcome A) (f : A → Outcome B)
    → Ensures P m
    → ((a : A) → P a → Ensures Q (f a))
    → Ensures Q (m >>= f)
Ensures-bind P Q (ok a) f h k = k a h
Ensures-bind P Q err f h k = tt
Ensures-bind P Q panic f h k = tt

abbrev HasLength {ℓ} : {A : Type ℓ} → ℕ → List A → Type 0
HasLength n xs = length xs ≡ n

length-bits_loop :
    (k n : ℕ) (bin : List Cell) (m : ℕ)
    → k + length bin ≡ m
    → Ensures (HasLength m) (bits_loop k n bin)
unfolding bits_loop
length-bits_loop zero n bin m e = elim (Bool-cases (n == 0)) [
  | inl done ↦ rw done (let e' : length bin ≡ m = omega arith in e')
  | inr more ↦ rw more tt
]
length-bits_loop (suc k) n bin m e =
    length-bits_loop k (n / 2) (bit_of (n % 2) ∷ bin) m (omega arith)

length-dec_to_bin : (n : ℤ) → Ensures (HasLength 8) (dec_to_bin n)
unfolding dec_to_bin
length-dec_to_bin (pos n) = length-bits_loop 8 n [] 8 (omega arith)
length-dec_to_bin (negsuc n) = refl

length-parse_ip_loop : (k : ℕ) (segs : List Text) → Ensures (HasLength k) (parse_ip_loop k segs)
unfolding parse_ip_loop
length-parse_ip_loop k [] = length-replicate k (pos 0)
length-parse_ip_loop zero (seg ∷ segs) = tt
length-parse_ip_loop (suc k) (seg ∷ segs) =
    elim (atoi seg)
      as (λ o.
        Ensures (HasLength (suc k))
          (elim o [ none ↦ err | some n ↦ parse_ip_loop k segs >>= λ ns. ok (n ∷ ns) ])) [
            | none ↦ tt
            | some n ↦
                Ensures-bind (HasLength k) (HasLength (suc k)) (parse_ip_loop k segs)
                  (λ ns. ok (n ∷ ns)) (length-parse_ip_loop k segs) (λ ns h. ap suc h)
          ]

length-octets_to_bin :
    (ns : List ℤ) (m : ℕ) → length ns * 8 ≡ m → Ensures (HasLength m) (octets_to_bin ns)
unfolding octets_to_bin
length-octets_to_bin [] m e = e
length-octets_to_bin (n ∷ ns) m e =
    Ensures-bind (HasLength 8) (HasLength m) (dec_to_bin n) _ (length-dec_to_bin n) λ bin hb.
      Ensures-bind (HasLength (length ns * 8)) (HasLength m) (octets_to_bin ns) _
        (length-octets_to_bin ns (length ns * 8) refl)
        λ rest hr. (omega (arith, length-append bin rest))

pub length-plain_ip_to_bin : (ip : Text) → Ensures (HasLength 32) (plain_ip_to_bin ip)
unfolding plain_ip_to_bin parse_ip
length-plain_ip_to_bin ip =
    Ensures-bind (HasLength 4) (HasLength 32) (parse_ip_loop 4 (split ip b'.')) octets_to_bin
      (length-parse_ip_loop 4 (split ip b'.')) λ ns h. length-octets_to_bin ns 32 (omega arith)

length-set : (bs : List Cell) (i : ℕ) (v : Cell) → length (set bs i v) ≡ length bs
length-set [] i v = refl
length-set (c ∷ bs) zero v = refl
length-set (c ∷ bs) (suc i) v = ap suc (length-set bs i v)

length-mark_at : (n : ℤ) (bs : List Cell) → length bs ≡ 32 → Ensures (HasLength 32) (mark_at n bs)
unfolding mark_at
length-mark_at (pos n) bs h = ground (arith, length-set bs n stop)
length-mark_at (negsuc n) bs h = tt

length-range_parts : (parts : List Text) → Ensures (HasLength 32) (range_parts parts)
unfolding range_parts
length-range_parts (ip ∷ mask ∷ []) =
    elim (atoi mask)
      as (λ o.
        Ensures (HasLength 32)
          (elim o [ none ↦ err | some n ↦ plain_ip_to_bin ip >>= λ bins. mark_at n bins ])) [
            | none ↦ tt
            | some n ↦
                Ensures-bind (HasLength 32) (HasLength 32) (plain_ip_to_bin ip) (mark_at n)
                  (length-plain_ip_to_bin ip) (length-mark_at n)
          ]
length-range_parts [] = tt
length-range_parts _ = tt

pub length-ip_range_to_bin : (s : Text) → Ensures (HasLength 32) (ip_range_to_bin s)
unfolding ip_range_to_bin
length-ip_range_to_bin s = length-range_parts (split s b'/')

pub length-ip_to_bin : (s : Text) → Ensures (HasLength 32) (ip_to_bin s)
unfolding ip_to_bin
length-ip_to_bin s = elim (Bool-cases (count s b'/' == 1)) [
  | inl one ↦ rw one (length-ip_range_to_bin s)
  | inr other ↦ rw other (elim (Bool-cases (ltb 1 (count s b'/'))) [
    | inl many ↦ rw many tt
    | inr plain ↦ rw plain (length-plain_ip_to_bin s)
  ])
]
