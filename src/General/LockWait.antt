-- ===== src/General/LockWait.antt =====
-- How often LockService of pkg/kt/command/general/lock.go looks at a lock that others hold.
use kt_connect.Common.{
  ℕ, zero, suc, ◌+◌, ◌≡◌, ◌≤◌, ◌<◌, refl, ap, ◌∙◌, true, false, none, some, leb, ltb, if◌then◌else◌,
  Text, arith, ◌⊎◌, inl, inr,
}
use kt_connect.Common.Int.{pos, ◌-ℤ◌, ltb_ℤ}
use kt_connect.Common.Dict.{lookup}
use kt_connect.Common.Exec.{ok, err, failed}
use kt_connect.Strings.{itoa, max_int}
use kt_connect.Collection.{entries}
use kt_connect.Cluster.{Api, Service, kt_lock}
use kt_connect.Shadow.Wait.Looks.{Sleeps, awake, asleep}
use kt_connect.General.Lock.{
  is_occupied, is_fresh, mark, get_timestamp, parse_timestamp, locked_or, lock_service,
  lock_service_first,
}
use kt_connect.General.Locking.{lock_waits, lock_marks, parse_timestamp-get_timestamp}

-- A service whose lock was taken at that second.
abbrev pub IsLockedAt : Service → ℕ → Type 0
IsLockedAt svc second =
    (lookup kt_lock (entries svc.annotations) ≡ some (itoa (pos second))) × (second ≤ max_int)

-- A service without a lock, or with one that is at least three minutes old.
abbrev pub IsFree : Service → ℕ → Type 0
IsFree svc now =
    (lookup kt_lock (entries svc.annotations) ≡ none)
    ⊎ ((second : ℕ) × (IsLockedAt svc second × (second + 180 ≤ now)))

-- At this moment the service is found with a lock that is less than three minutes old.
abbrev pub IsHeldAt : (c : Api) → Text → Text → c.World → Type 0
IsHeldAt c name ns w =
    (svc : Service) × ((second : ℕ) × ((now : ℕ) × ((c.get_service name ns w ≡ ok svc)
          × ((c.get_time w ≡ pos now) × (IsLockedAt svc second × (now < second + 180))))))

parse_timestamp-itoa : (n : ℕ) → n ≤ max_int → parse_timestamp (itoa (pos n)) ≡ pos n
unfolding get_timestamp
parse_timestamp-itoa n small = parse_timestamp-get_timestamp (pos n) small

fresh : (second now : ℕ) → now < second + 180 → ltb_ℤ (pos now -ℤ pos second) (pos 180) ≡ true
unfolding ◌-ℤ◌
fresh second now h = ground arith

stale : (second now : ℕ) → second + 180 ≤ now → ltb_ℤ (pos now -ℤ pos second) (pos 180) ≡ false
unfolding ◌-ℤ◌
stale second now h = ground arith

held_occupied :
    (svc : Service) (second now : ℕ)
    → IsLockedAt svc second
    → now < second + 180
    → is_occupied svc (pos now) ≡ true
unfolding is_occupied is_fresh
held_occupied svc second now (locked, small) soon =
    rw (locked, parse_timestamp-itoa second small) (fresh second now soon)

free_occupied : (svc : Service) (now : ℕ) → IsFree svc now → is_occupied svc (pos now) ≡ false
unfolding is_occupied is_fresh
free_occupied svc now (inl bare) = rw bare refl
free_occupied svc now (inr (second, ((locked, small), old))) =
    rw (locked, parse_timestamp-itoa second small) (stale second now old)

one_left : (n : ℕ) → ltb 0 (suc n) ≡ true
one_left n = ground arith

fewer : (k n : ℕ) → ltb (suc k) (suc n) ≡ ltb k n
fewer k n = ground arith

at_most_ten : (k : ℕ) → ltb k 11 ≡ leb k 10
at_most_ten k = ground arith

module _ (c : Api) (name ns : Text) where
  looks :
      (k n : ℕ) (u w v : c.World) (svc t : Service) (now : ℕ)
      → Sleeps c (IsHeldAt c name ns) 3 k u w
      → k ≤ n
      → c.get_service name ns w ≡ ok svc
      → c.get_time w ≡ pos now
      → IsFree svc now
      → c.update_service (mark svc (pos now)) w ≡ (ok t, v)
      → lock_service c n name ns u ≡ (if ltb k n then (ok t, v) else (err failed, w))
  looks zero zero u w v svc t now awake few there clock free wrote = unfold lock_service in refl
  looks zero (suc n) u w v svc t now awake few there clock free wrote =
      lock_marks c n name ns w svc (ok t) v there
        (ap (is_occupied svc) clock ∙ free_occupied svc now free)
        (ap (λ time. c.update_service (mark svc time) w) clock ∙ wrote)
      ∙ (unfold locked_or in rw (one_left n) refl)
  looks (suc k) zero u w v svc t now s few there clock free wrote = absurd (omega (arith, few))
  looks (suc k) (suc n) u w v svc t now (asleep {v = x} wait pause s) few there clock free wrote =
      let (held, (second, (time, (found, (shown, (locked, soon)))))) = wait in
      lock_waits c n name ns u held found
        (ap (is_occupied held) shown ∙ held_occupied held second time locked soon)
      ∙ rw (pause, fewer k n)
          (looks k n x w v svc t now s (omega (arith, few)) there clock free wrote)

-- If the lock of a service is less than three minutes old at each of k looks, behind each
-- of which LockService sleeps three seconds, and missing or at least three minutes old at the next
-- one, where the update is accepted, then LockService, called as from outside, returns the service
-- marked with the time of this look if k is at most ten; behind eleven sleeps it returns an error
-- instead.
pub lock_service_first_lem :
    (c : Api) (name ns : Text) (k : ℕ) (u w v : c.World) (svc t : Service) (now : ℕ)
    → Sleeps c (IsHeldAt c name ns) 3 k u w
    → k ≤ 11
    → c.get_service name ns w ≡ ok svc
    → c.get_time w ≡ pos now
    → IsFree svc now
    → c.update_service (mark svc (pos now)) w ≡ (ok t, v)
    → lock_service_first c name ns u ≡ (if leb k 10 then (ok t, v) else (err failed, w))
unfolding lock_service_first
lock_service_first_lem c name ns k u w v svc t now s few there clock free wrote =
    looks c name ns k 11 u w v svc t now s few there clock free wrote
    ∙ ap (λ b. if b then (ok t, v) else (err failed, w)) (at_most_ten k)
