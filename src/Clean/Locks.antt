-- ===== src/Clean/Locks.antt =====
-- The locks that clean takes away, against those that LockService respects.
mod Tests
use kt_connect.Common.{◌≡◌, Bool, true, false, Option, none, some, Text, arith, refl}
use kt_connect.Common.Int.{ℤ, ltb_ℤ}
use kt_connect.General.Lock.{is_fresh}
use kt_connect.Clean.{is_stale}

-- A lock that clean would take away is no lock that LockService would wait for at that time.
pub is_stale-is_fresh :
    (time : ℤ) (lock : Option Text) → is_stale time lock ≡ true → is_fresh lock time ≡ false
unfolding is_stale is_fresh
is_stale-is_fresh time none h = refl
is_stale-is_fresh time (some lock) h = ground arith
