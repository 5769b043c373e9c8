-- ===== src/Strings.antt =====
-- The functions of Go's packages strings, strconv and fmt that the program calls, over bytes.
-- They belong to the language's standard library; the modules below hold their laws.
pub mod Split
pub mod Number
use kt_connect.Common.{
  ℕ, zero, suc, ◌+◌, ◌-◌, ◌*◌, ◌/◌, ◌%◌, ◌^◌, Bool, true, false, ◌&&◌, ◌||◌, Option, none, some,
  List, [], ◌∷◌, ◌++◌, Text, ltb, leb, ◌==◌, if◌then◌else◌, length, take, drop,
}
use kt_connect.Common.Int.{ℤ, pos, negsuc}

-- strings.Split(s, sep), at a separator of one byte
pub cons_head : ℕ → List Text → List Text
cons_head c [] = (c ∷ []) ∷ []
cons_head c (p ∷ ps) = (c ∷ p) ∷ ps

unfoldable pub split : Text → ℕ → List Text
unfolding cons_head
split [] sep = [] ∷ []
split (c ∷ s) sep = let rest = split s sep in if c == sep then [] ∷ rest else cons_head c rest

-- strings.Join(ps, sep), at a separator of one byte
unfoldable pub join : List Text → ℕ → Text
join [] sep = []
join (p ∷ []) sep = p
join (p ∷ q ∷ ps) sep = p ++ (sep ∷ join (q ∷ ps) sep)

-- strings.Count(s, c) at one byte
unfoldable pub count : Text → ℕ → ℕ
count [] c = 0
count (d ∷ s) c = if d == c then suc (count s c) else count s c

-- strings.Contains(s, c) at one byte
unfoldable pub contains_byte : Text → ℕ → Bool
contains_byte [] c = false
contains_byte (d ∷ s) c = d == c || contains_byte s c

-- strings.Index(s, c) at one byte; `none` is -1
unfoldable pub index_byte : Text → ℕ → Option ℕ
index_byte [] c = none
index_byte (d ∷ s) c =
    let rest = index_byte s c in
    if d == c then some 0 else elim rest [ none ↦ none | some i ↦ some (suc i) ]

-- strings.HasPrefix(s, prefix)
unfoldable pub has_prefix : Text → Text → Bool
has_prefix s [] = true
has_prefix [] (d ∷ p) = false
has_prefix (c ∷ s) (d ∷ p) = c == d && has_prefix s p

-- strings.HasSuffix(s, suffix): the tail of that length is the suffix
unfoldable pub has_suffix : Text → Text → Bool
unfolding has_prefix
has_suffix s p = leb (length p) (length s) && has_prefix (drop (length s - length p) s) p

-- strings.ReplaceAll(s, old, new), at one byte
unfoldable pub replace_byte : Text → ℕ → ℕ → Text
replace_byte [] old new = []
replace_byte (c ∷ s) old new = (if c == old then new else c) ∷ replace_byte s old new

-- strconv.Itoa at a natural number: the digits are written from the last one on.
unfoldable pub write_digits : ℕ → ℕ → Text → Text
write_digits zero n out = out
write_digits (suc f) n out =
    let rest = write_digits f (n / 10) ((b'0' + n % 10) ∷ out) in
    if ltb n 10 then (b'0' + n) ∷ out else rest

unfoldable pub format_nat : ℕ → Text
unfolding write_digits
format_nat n = write_digits (suc n) n []

-- strconv.Itoa
unfoldable pub itoa : ℤ → Text
unfolding format_nat
itoa (pos n) = format_nat n
itoa (negsuc n) = b'-' ∷ format_nat (suc n)

-- The value of a run of digits, behind the digits read so far.
unfoldable pub read_digits : ℕ → Text → Option ℕ
read_digits acc [] = some acc
read_digits acc (c ∷ s) =
    let rest = read_digits (acc * 10 + (c - b'0')) s in
    if leb b'0' c && leb c b'9' then rest else none

-- One or more digits.
unfoldable pub parse_nat : Text → Option ℕ
unfolding read_digits
parse_nat [] = none
parse_nat (c ∷ s) = read_digits 0 (c ∷ s)

abbrev pub max_int : ℕ
max_int = 2 ^ 63 - 1

positive : Option ℕ → Option ℤ
positive none = none
positive (some n) = if leb n max_int then some (pos n) else none

negative : Option ℕ → Option ℤ
negative none = none
negative (some zero) = some (pos zero)
negative (some (suc n)) = if leb n max_int then some (negsuc n) else none

-- strconv.Atoi, with `none` for a returned error: a sign, then digits, within 64 bits.
unfoldable pub atoi : Text → Option ℤ
unfolding parse_nat positive negative
atoi [] = none
atoi (c ∷ s) =
    if c == b'-'
    then negative (parse_nat s)
    else if c == b'+'
    then positive (parse_nat s)
    else positive (parse_nat (c ∷ s))
