-- ===== src/Clean/Locks/Tests.antt =====
-- An old lock, for clean and for LockService.
use kt_connect.Common.{◌≡◌, refl, false, some, codes}
use kt_connect.Common.Int.{pos, ◌-ℤ◌}
use kt_connect.Strings.{atoi}
use kt_connect.General.Lock.{is_fresh, parse_timestamp}
use kt_connect.Clean.{is_stale}
use kt_connect.Clean.Locks.{is_stale-is_fresh}

is_stale-is_fresh_example : is_fresh (some (codes "100")) (pos 1000) ≡ false
unfolding is_stale atoi parse_timestamp ◌-ℤ◌
is_stale-is_fresh_example = is_stale-is_fresh (pos 1000) (some (codes "100")) refl
