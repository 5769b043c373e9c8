-- ===== src/Clean/Check/Age.antt =====
-- isExpired of pkg/kt/command/clean/common.go beside the age of a heart beat in whole seconds.
use kt_connect.Common.{
  ℕ, ◌+◌, ◌-◌, ◌*◌, ◌≡◌, ◌≤◌, refl, Bool, true, false, not, ◌&&◌, Option, none, some, ltb, leb,
  arith, Bool-cases, inl, inr,
}
use kt_connect.Common.Int.{ℤ, pos, negsuc, ◌-ℤ◌, ltb_ℤ, wrap64, wrap64-pos, wrap64-negsuc, sub_ℕ}
use kt_connect.Collection.{GoMap, read}
use kt_connect.Cluster.{kt_last_heart_beat}
use kt_connect.Strings.{atoi, max_int}
use kt_connect.Strings.Number.{atoi-bound}
use kt_connect.General.Lock.{parse_timestamp}
use kt_connect.Clean.{is_dead, is_expired}

-- The heart beat is a number of seconds that is not negative, and more than so many minutes ago. A
-- heart beat that is missing, that is no number or that is negative is not too old.
abbrev pub is_older : ℕ → ℕ → Option ℤ → Bool
is_older now minutes none = false
is_older now minutes (some (pos beat)) = ltb (beat + 60 * minutes) now
is_older now minutes (some (negsuc n)) = false

abbrev pub too_old : ℕ → ℕ → GoMap → Bool
too_old now minutes annotations = is_older now minutes (atoi (read annotations kt_last_heart_beat))

-- A difference of two moments stays within 64 bits.
wrap64-sub_ℕ :
    (now beat : ℕ) → now ≤ max_int → beat ≤ max_int → wrap64 (sub_ℕ now beat) ≡ sub_ℕ now beat
wrap64-sub_ℕ now beat h k = elim (Bool-cases (leb beat now)) [
  | inl later ↦ rw later (wrap64-pos (now - beat) (omega (arith, h)))
  | inr sooner ↦ rw sooner (wrap64-negsuc (beat - now - 1) (omega (arith, k)))
]

sub-pos : (now beat : ℕ) → pos now -ℤ pos beat ≡ sub_ℕ now beat
unfolding ◌-ℤ◌
sub-pos now beat = ground arith

no_less : (beat : ℕ) → ltb_ℤ (pos beat) (pos 0) ≡ false
no_less beat = ground arith

less : (n : ℕ) → ltb_ℤ (negsuc n) (pos 0) ≡ true
less n = ground arith

-- Of a heart beat that is not negative.
expired :
    (now beat minutes : ℕ)
    → now ≤ max_int
    → beat ≤ max_int
    → minutes * 60 ≤ max_int
    → is_expired (pos now) (pos beat) minutes ≡ ltb (beat + 60 * minutes) now
unfolding is_expired
expired now beat minutes h k small =
    rw
      (
        sub-pos now beat,
        wrap64-sub_ℕ now beat h k,
        wrap64-pos (minutes * 60) (omega (arith, small)),
      )
      (ground arith)

module _ (now minutes : ℕ) (clock : now ≤ max_int) (small : minutes * 60 ≤ max_int) where
  judged :
      (o : Option ℤ)
      → ((n : ℕ) → o ≡ some (pos n) → n ≤ max_int)
      → (let beat : ℤ = elim o [ none ↦ negsuc 0 | some unix_time ↦ unix_time ] in
          not (ltb_ℤ beat (pos 0)) && is_expired (pos now) beat minutes)
        ≡ is_older now minutes o
  judged none bound = refl
  judged (some (pos beat)) bound =
      rw (no_less beat) (expired now beat minutes clock (bound beat refl) small)
  judged (some (negsuc n)) bound = rw (less n) refl

  -- The code's test of a heart beat, of a clock and a threshold within 64 bits.
  pub is_dead-too_old :
      (annotations : GoMap)
      → is_dead (pos now) minutes annotations ≡ too_old now minutes annotations
  unfolding is_dead parse_timestamp
  is_dead-too_old annotations =
      judged (atoi (read annotations kt_last_heart_beat))
        (atoi-bound (read annotations kt_last_heart_beat))
