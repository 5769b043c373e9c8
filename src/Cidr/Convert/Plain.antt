-- ===== src/Cidr/Convert/Plain.antt =====
-- An address with no mask, and with the mask of a single address.
use kt_connect.Common.{
  ℕ, zero, suc, ◌+◌, ◌≡◌, refl, subst, some, List, [], ◌∷◌, ◌++◌, arith, ◌==◌, replicate, length,
  Text, codes, All, All-append, Bool-cases, inl, inr,
}
use kt_connect.Common.Int.{ℤ, pos, negsuc}
use kt_connect.Common.Outcome.{Outcome, ok, err, panic}
use kt_connect.Strings.{count, atoi}
use kt_connect.Strings.Split.{Lacks, split-append, split-Lacks}
use kt_connect.Cidr.Bins.{Cell, b0}
use kt_connect.Cidr.Bins.Part.{IsBit}
use kt_connect.Cidr.Convert.{
  bit_of, bits_loop, dec_to_bin, parse_ip, octets_to_bin, plain_ip_to_bin, mark_at, ip_range_to_bin,
  ip_to_bin,
}
use kt_connect.Cidr.Convert.RoundTrip.{range_parts_step}
use kt_connect.Cidr.Convert.Length.{Ensures, Ensures-bind, length-plain_ip_to_bin}

bit_of-IsBit : (n : ℕ) → IsBit (bit_of n)
bit_of-IsBit zero = ground arith
bit_of-IsBit (suc n) = ground arith

bits_loop-IsBit :
    (k n : ℕ) (bin : List Cell) → All IsBit bin → Ensures (All IsBit) (bits_loop k n bin)
unfolding bits_loop
bits_loop-IsBit zero n bin h = elim (Bool-cases (n == 0)) [
  | inl done ↦ rw done h
  | inr more ↦ rw more tt
]
bits_loop-IsBit (suc k) n bin h = bits_loop-IsBit k _ _ (bit_of-IsBit _, h)

zeros-IsBit : (n : ℕ) → All IsBit (replicate n b0)
zeros-IsBit zero = tt
zeros-IsBit (suc n) = (ground arith, zeros-IsBit n)

dec_to_bin-IsBit : (n : ℤ) → Ensures (All IsBit) (dec_to_bin n)
unfolding dec_to_bin
dec_to_bin-IsBit (pos n) = bits_loop-IsBit 8 n [] tt
dec_to_bin-IsBit (negsuc n) = zeros-IsBit 8

octets_to_bin-IsBit : (ns : List ℤ) → Ensures (All IsBit) (octets_to_bin ns)
unfolding octets_to_bin
octets_to_bin-IsBit [] = tt
octets_to_bin-IsBit (n ∷ ns) =
    Ensures-bind (All IsBit) (All IsBit) (dec_to_bin n) _ (dec_to_bin-IsBit n) λ bin hb.
      Ensures-bind (All IsBit) (All IsBit) (octets_to_bin ns) _ (octets_to_bin-IsBit ns)
        λ rest hr. All-append IsBit bin rest hb hr

anything {ℓ} : {A : Type ℓ} (o : Outcome A) → Ensures (λ _. Unit {0}) o
anything (ok a) = tt
anything err = tt
anything panic = tt

-- Whatever is read as an address is 32 bits.
pub plain_ip_to_bin-IsBit :
    (ip : Text) (x : List Cell) → plain_ip_to_bin ip ≡ ok x → All IsBit x × (length x ≡ 32)
plain_ip_to_bin-IsBit ip x e = (
  subst (Ensures (All IsBit)) e (bits ip),
  subst (Ensures (λ b. length b ≡ 32)) e (length-plain_ip_to_bin ip),
)
  where
    bits : (ip : Text) → Ensures (All IsBit) (plain_ip_to_bin ip)
    bits ip =
        unfold plain_ip_to_bin in
        Ensures-bind (λ _. Unit {0}) (All IsBit) (parse_ip ip) octets_to_bin
          (anything (parse_ip ip)) λ ns _. octets_to_bin-IsBit ns

count-Lacks : (c : ℕ) (s : Text) → Lacks c s → count s c ≡ 0
unfolding count
count-Lacks c [] h = refl
count-Lacks c (d ∷ s) (hd, h) = ground (arith, count-Lacks c s h)

count-append : (c : ℕ) (s t : Text) → count (s ++ t) c ≡ count s c + count t c
unfolding count
count-append c [] t = omega arith
count-append c (d ∷ s) t = ground (arith, count-append c s t)

-- The text of a single address.
abbrev pub single : Text → Text
single ip = ip ++ codes "/32"

atoi-32 : atoi (codes "32") ≡ some (pos 32)
unfolding atoi
atoi-32 = refl

-- A single address is read as its bits, with no mark.
pub ip_range_to_bin-single :
    (ip : Text) (x : List Cell)
    → Lacks b'/' ip
    → plain_ip_to_bin ip ≡ ok x
    → ip_range_to_bin (single ip) ≡ ok x
ip_range_to_bin-single ip x h e =
    unfold ip_range_to_bin mark_at in
    rw (
      split-append b'/' ip (codes "32") h,
      split-Lacks b'/' (codes "32") (omega arith),
      range_parts_step ip (codes "32") (pos 32) atoi-32,
      e,
    )

pub ip_to_bin-single :
    (ip : Text) (x : List Cell)
    → Lacks b'/' ip
    → plain_ip_to_bin ip ≡ ok x
    → ip_to_bin (single ip) ≡ ok x
ip_to_bin-single ip x h e =
    unfold ip_to_bin in rw (one_slash ip h) (ip_range_to_bin-single ip x h e)
  where
    one_slash : (ip : Text) → Lacks b'/' ip → count (single ip) b'/' ≡ 1
    one_slash ip h =
        rw (count-append b'/' ip (codes "/32"), count-Lacks b'/' ip h) (unfold count in refl)
