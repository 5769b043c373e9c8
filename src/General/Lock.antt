-- ===== src/General/Lock.antt =====
-- pkg/kt/command/general/lock.go, and ParseTimestamp and GetTimestamp of pkg/kt/util/system.go.
-- LockService calls itself with `times + 1`: the argument here counts the looks that are left.
use kt_connect.Common.{ℕ, zero, suc, Bool, false, Option, none, some, if◌then◌else◌, Text}
use kt_connect.Common.Int.{ℤ, pos, negsuc, ◌-ℤ◌, ltb_ℤ}
use kt_connect.Common.Dict.{lookup, put, delete}
use kt_connect.Common.Exec.{
  Reply, ok, err, panic, failed, ◌>>=◌, ◌>>◌, done, raise, ask, attempt, ignore,
}
use kt_connect.Strings.{atoi, itoa}
use kt_connect.Collection.{GoMap, entries}
use kt_connect.Cluster.{Api, Service, kt_lock}

-- ParseTimestamp
unfoldable pub parse_timestamp : Text → ℤ
parse_timestamp timestamp = elim (atoi timestamp) [ none ↦ negsuc 0 | some unix_time ↦ unix_time ]

-- GetTimestamp
unfoldable pub get_timestamp : ℤ → Text
get_timestamp time = itoa time

abbrev pub lock_timeout : ℕ
lock_timeout = 180

-- The test of a lock that may be missing. The age is a difference of integers; an int64 wraps around
-- only at a lock whose time is 2 ^ 63 seconds or more away.
unfoldable pub is_fresh : Option Text → ℤ → Bool
unfolding parse_timestamp
is_fresh none time = false
is_fresh (some lock) time = ltb_ℤ (time -ℤ parse_timestamp lock) (pos lock_timeout)

unfoldable pub is_occupied : Service → ℤ → Bool
unfolding is_fresh
is_occupied svc time = is_fresh (lookup kt_lock (entries svc.annotations)) time

-- `svc.Annotations[util.KtLock] = util.GetTimestamp()`, on a map that is made if it is nil.
unfoldable pub mark : Service → ℤ → Service
unfolding get_timestamp
mark svc time = record svc {
  annotations = some (put kt_lock (get_timestamp time) (entries svc.annotations));
}

-- `delete(m, key)`
unfoldable pub drop_key : Text → GoMap → GoMap
drop_key key none = none
drop_key key (some m) = some (delete key m)

module _ (c : Api) where
  open c use {World, get_service, update_service, get_time, sleep}

  -- What follows the update: a failed one is tried again.
  unfoldable pub locked_or :
      (World → Reply Service × World) → Reply Service → World → Reply Service × World
  locked_or again (ok svc) w = (ok svc, w)
  locked_or again (err e) w = again w
  locked_or again panic w = (panic, w)

  -- LockService
  unfoldable pub lock_service : ℕ → Text → Text → World → Reply Service × World
  unfolding is_occupied mark locked_or
  lock_service zero service_name namespace w = raise failed w
  lock_service (suc times) service_name namespace w =
      let again = lock_service times service_name namespace in
      (do
        svc ← ask (get_service service_name namespace)
        time ← ask (λ v. ok (get_time v))
        if is_occupied svc time
            then sleep 3 >> again
            else attempt (update_service (mark svc time)) >>= locked_or again)
        w

  -- LockService, as it is called from outside, with `times` = 0: `times > 10` ends the twelfth call.
  unfoldable pub lock_service_first : Text → Text → World → Reply Service × World
  lock_service_first = lock_service 11

  -- UnlockService, with the service found.
  unfoldable pub unlock_found : Reply Service → World → Reply (Unit {0}) × World
  unfolding drop_key
  unlock_found (ok svc) w = elim (lookup kt_lock (entries svc.annotations)) [
    | some _ ↦
        ignore (update_service (record svc { annotations = drop_key kt_lock svc.annotations })) w
    | none ↦ done tt w
  ]
  unlock_found (err e) w = done tt w
  unlock_found panic w = (panic, w)

  -- UnlockService
  unfoldable pub unlock_service : Text → Text → World → Reply (Unit {0}) × World
  unfolding unlock_found
  unlock_service service_name namespace w =
      (attempt (ask (get_service service_name namespace)) >>= unlock_found) w
