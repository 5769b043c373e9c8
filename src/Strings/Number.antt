-- ===== src/Strings/Number.antt =====
-- Laws of `itoa` and `atoi`.
use kt_connect.Common.{
  ℕ, zero, suc, ◌+◌, ◌/◌, ◌%◌, ◌≤◌, ◌<◌, ◌≡◌, ◌≢◌, refl, sym, ◌∙◌, Option, none, some, [], ◌∷◌,
  arith, Text, ltb, All, Bool-cases, inl, inr, ◌==◌,
}
use kt_connect.Common.Int.{ℤ, pos, negsuc}
use kt_connect.Strings.{
  write_digits, format_nat, itoa, read_digits, parse_nat, positive, negative, atoi, max_int,
}

abbrev pub IsDigit : ℕ → Type 0
IsDigit c = (b'0' ≤ c) × (c ≤ b'9')

-- Reading the digits that were written gives the number, and goes on behind them.
read_digits-write_digits :
    (f n : ℕ) (out : Text) → n < f → read_digits 0 (write_digits f n out) ≡ read_digits n out
unfolding write_digits read_digits
read_digits-write_digits zero n out h = elim h [ ]
read_digits-write_digits (suc f) n out h =
    ground (arith, read_digits-write_digits f (n / 10) ((b'0' + n % 10) ∷ out))

write_digits-ne-nil : (f n : ℕ) (out : Text) → n < f → write_digits f n out ≢ []
unfolding write_digits
write_digits-ne-nil zero n out h = elim h [ ]
write_digits-ne-nil (suc f) n out h =
    ground (arith, write_digits-ne-nil f (n / 10) ((b'0' + n % 10) ∷ out))

write_digits-IsDigit : (f n : ℕ) (out : Text) → All IsDigit out → All IsDigit (write_digits f n out)
unfolding write_digits
write_digits-IsDigit zero n out h = h
write_digits-IsDigit (suc f) n out h = elim (Bool-cases (ltb n 10)) [
  | inl small ↦ rw small ((ground arith, ground arith), h)
  | inr big ↦
      rw big
        (write_digits-IsDigit f (n / 10) ((b'0' + n % 10) ∷ out) ((omega arith, omega arith), h))
]

pub format_nat-IsDigit : (n : ℕ) → All IsDigit (format_nat n)
unfolding format_nat
format_nat-IsDigit n = write_digits-IsDigit (suc n) n [] tt

parse_nat-read_digits : (s : Text) → s ≢ [] → parse_nat s ≡ read_digits 0 s
unfolding parse_nat
parse_nat-read_digits [] h = absurd (h refl)
parse_nat-read_digits (c ∷ s) h = refl

pub parse_nat-format_nat : (n : ℕ) → parse_nat (format_nat n) ≡ some n
unfolding format_nat
parse_nat-format_nat n =
    rw
      (
        parse_nat-read_digits _ (write_digits-ne-nil (suc n) n [] (omega arith)),
        read_digits-write_digits (suc n) n [] (omega arith),
      )
      (unfold read_digits in refl)

-- A text of digits is read as a natural number.
atoi-digits : (s : Text) → All IsDigit s → s ≢ [] → atoi s ≡ positive (parse_nat s)
atoi-digits [] h ne = absurd (ne refl)
atoi-digits (c ∷ s) h ne = unfold atoi in ground arith

format_nat-ne-nil : (n : ℕ) → format_nat n ≢ []
unfolding format_nat
format_nat-ne-nil n = write_digits-ne-nil (suc n) n [] (omega arith)

pub atoi-format_nat : (n : ℕ) → n ≤ max_int → atoi (format_nat n) ≡ some (pos n)
atoi-format_nat n h =
    rw
      (
        atoi-digits (format_nat n) (format_nat-IsDigit n) (format_nat-ne-nil n),
        parse_nat-format_nat n,
      )
      (unfold positive in ground arith)

abbrev pub InRange : ℤ → Type 0
InRange (pos n) = n ≤ max_int
InRange (negsuc n) = n ≤ max_int

-- Every int is read back from its print.
pub atoi-itoa : (z : ℤ) → InRange z → atoi (itoa z) ≡ some z
atoi-itoa (pos n) h = unfold itoa in atoi-format_nat n h
atoi-itoa (negsuc n) h =
    unfold itoa atoi in rw (parse_nat-format_nat (suc n)) (unfold negative in ground arith)

-- No text is read as a number above the largest one.
positive-bound : (o : Option ℕ) (n : ℕ) → positive o ≡ some (pos n) → n ≤ max_int
unfolding positive
positive-bound none n h = absurd (cc h)
positive-bound (some m) n h = ground arith

negative-bound : (o : Option ℕ) (n : ℕ) → negative o ≡ some (pos n) → n ≤ max_int
unfolding negative
negative-bound none n h = absurd (cc h)
negative-bound (some m) n h = ground arith

pub atoi-bound : (s : Text) (n : ℕ) → atoi s ≡ some (pos n) → n ≤ max_int
unfolding atoi
atoi-bound [] n h = absurd (cc h)
atoi-bound (c ∷ s) n h = elim (Bool-cases (c == b'-')) [
  | inl minus ↦ negative-bound (parse_nat s) n (sym (rw minus refl) ∙ h)
  | inr other ↦ elim (Bool-cases (c == b'+')) [
    | inl plus ↦ positive-bound (parse_nat s) n (sym (rw (other, plus) refl) ∙ h)
    | inr digit ↦ positive-bound (parse_nat (c ∷ s)) n (sym (rw (other, digit) refl) ∙ h)
  ]
]
