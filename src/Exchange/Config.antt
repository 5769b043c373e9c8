-- ===== src/Exchange/Config.antt =====
-- What the recovery reads of the annotation that the exchange writes.
mod Tests
use kt_connect.Common.{
  ℕ, zero, suc, ◌+◌, ◌*◌, ◌-◌, ◌&&◌, ltb, Bool-cases, inl, inr, ◌≡◌, ◌≢◌, ◌≤◌, refl, sym, ap, ◌∙◌,
  subst, Bool, true, false, Option, none, some, List, [], ◌∷◌, ◌++◌, map, arith, leb, ◌==◌,
  if◌then◌else◌, Text, text_eq, codes, All,
}
use kt_connect.Common.Int.{ℤ, pos}
use kt_connect.Common.Dict.{Dict, lookup, put}
use kt_connect.Strings.{itoa, format_nat, read_digits, parse_nat, join, contains_byte}
use kt_connect.Strings.Split.{Lacks, Lacks-contains_byte}
use kt_connect.Strings.Number.{IsDigit, format_nat-IsDigit, parse_nat-format_nat}
use kt_connect.Collection.{GoMap, entries, read, put_all, string2map}
use kt_connect.Collection.Parse.{item_of, IsPlain, string2map-join}
use kt_connect.Recover.{
  config_of, parse_replicas, cut_int32, read_uint32, parse_uint32, max_int32, max_uint32, app_key,
  replicas_key,
}
use kt_connect.Exchange.{get_exchange_annotation}

digits-Lacks : (s : Text) → All IsDigit s → Lacks b',' s
digits-Lacks [] h = tt
digits-Lacks (c ∷ s) (hc, h) = (omega (arith, hc), digits-Lacks s h)

key-IsPlain :
    (k v : Text)
    → k ≢ []
    → contains_byte k b'=' ≡ false
    → contains_byte k b',' ≡ false
    → Lacks b',' v
    → IsPlain (k, v)
key-IsPlain k v ne he hk hv =
    (ne, (Lacks-contains_byte k b'=' he, (Lacks-contains_byte k b',' hk, hv)))

pairs-IsPlain :
    (origin : Text) (n : ℕ)
    → Lacks b',' origin
    → All IsPlain ((app_key, origin) ∷ (replicas_key, format_nat n) ∷ [])
pairs-IsPlain origin n h = (
  key-IsPlain app_key origin (λ e. cc e) (unfold contains_byte in refl)
      (unfold contains_byte in refl) h,
  (
    key-IsPlain replicas_key (format_nat n) (λ e. cc e) (unfold contains_byte in refl)
        (unfold contains_byte in refl) (digits-Lacks (format_nat n) (format_nat-IsDigit n)),
    tt,
  ),
)

config-join :
    (origin : Text) (n : ℕ)
    → config_of (get_exchange_annotation origin (pos n))
      ≡ string2map (join (map item_of ((app_key, origin) ∷ (replicas_key, format_nat n) ∷ [])) b',')
unfolding config_of get_exchange_annotation read lookup text_eq itoa join
config-join origin n = refl

config_lem :
    (origin : Text) (n : ℕ)
    → Lacks b',' origin
    → config_of (get_exchange_annotation origin (pos n))
      ≡ some (put_all ((app_key, origin) ∷ (replicas_key, format_nat n) ∷ []) [])
config_lem origin n h =
    config-join origin n
    ∙ string2map-join ((app_key, origin) ∷ (replicas_key, format_nat n) ∷ []) (λ e. cc e)
        (pairs-IsPlain origin n h)

-- The digits that follow make a number no smaller.
read_digits-grows : (s : Text) (acc n : ℕ) → read_digits acc s ≡ some n → acc ≤ n
unfolding read_digits
read_digits-grows [] acc n h = ground (arith, h)
read_digits-grows (c ∷ s) acc n h = elim (Bool-cases (leb b'0' c && leb c b'9')) [
  | inl digit ↦
      let rest = read_digits-grows s (acc * 10 + (c - b'0')) n (sym (rw digit refl) ∙ h) in
      omega (arith, rest)
  | inr other ↦ absurd (cc (other, h))
]

read_uint32-read_digits :
    (s : Text) (acc n : ℕ)
    → read_digits acc s ≡ some n
    → n ≤ max_uint32
    → read_uint32 acc s ≡ some n
unfolding read_digits read_uint32
read_uint32-read_digits [] acc n h small = h
read_uint32-read_digits (c ∷ s) acc n h small = elim (Bool-cases (leb b'0' c && leb c b'9')) [
  | inl digit ↦
      let tail : read_digits (acc * 10 + (c - b'0')) s ≡ some n = sym (rw digit refl) ∙ h in
      let grows = read_digits-grows s (acc * 10 + (c - b'0')) n tail in
      let fits : ltb max_uint32 (acc * 10 + (c - b'0')) ≡ false = ground (arith, grows, small) in
      rw (digit, fits) (read_uint32-read_digits s (acc * 10 + (c - b'0')) n tail small)
  | inr other ↦ absurd (cc (other, h))
]

-- A number of 32 bits is read as it is read without a bound.
parse_uint32-parse_nat :
    (s : Text) (n : ℕ) → parse_nat s ≡ some n → n ≤ max_uint32 → parse_uint32 s ≡ some n
unfolding parse_nat parse_uint32
parse_uint32-parse_nat [] n h small = absurd (cc h)
parse_uint32-parse_nat (c ∷ s) n h small = read_uint32-read_digits (c ∷ s) 0 n h small

parse_replicas-digits : (s : Text) → All IsDigit s → parse_replicas s ≡ cut_int32 (parse_uint32 s)
unfolding parse_replicas
parse_replicas-digits [] h = unfold cut_int32 parse_uint32 in refl
parse_replicas-digits (d ∷ s) (hd, h) =
    let no_minus : (d == b'-') ≡ false = ground (arith, hd) in
    let no_plus : (d == b'+') ≡ false = ground (arith, hd) in rw (no_minus, no_plus) refl

-- The annotation that an exchange writes for a deployment whose name holds no comma, with a number
-- of replicas of 32 bits, is read by the recovery as that name and that number.
pub config_of-get_exchange_annotation :
    (origin : Text) (n : ℕ)
    → Lacks b',' origin
    → n ≤ max_int32
    → (read (config_of (get_exchange_annotation origin (pos n))) app_key ≡ origin)
      × (parse_replicas (read (config_of (get_exchange_annotation origin (pos n))) replicas_key)
          ≡ n)
config_of-get_exchange_annotation origin n h bound =
    let config = config_lem origin n h in
    (
      ap (λ m. read m app_key) config ∙ app_of origin n,
      ap (λ m. parse_replicas (read m replicas_key)) config
          ∙ ap parse_replicas (replicas_of origin n)
          ∙ parse_replicas-digits (format_nat n) (format_nat-IsDigit n)
          ∙ ap cut_int32 (
              parse_uint32-parse_nat (format_nat n) n (parse_nat-format_nat n)
                (omega (arith, bound)))
          ∙ fits,
    )
  where
    app_of :
        (origin : Text) (n : ℕ)
        → read (some (put_all ((app_key, origin) ∷ (replicas_key, format_nat n) ∷ []) [])) app_key
          ≡ origin
    app_of origin n = unfold read put_all put lookup text_eq in refl

    replicas_of :
        (origin : Text) (n : ℕ)
        → read
            (some (put_all ((app_key, origin) ∷ (replicas_key, format_nat n) ∷ []) []))
            replicas_key
          ≡ format_nat n
    replicas_of origin n = unfold read put_all put lookup text_eq in refl

    fits : cut_int32 (some n) ≡ n
    fits = unfold cut_int32 in ground (arith, bound)
