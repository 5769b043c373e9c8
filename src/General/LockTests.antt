-- ===== src/General/LockTests.antt =====
-- The properties of the lock at a concrete server and service.
use kt_connect.Common.{
  ℕ, ◌≡◌, refl, true, false, none, some, [], ◌∷◌, if◌then◌else◌, Text, text_eq, codes, arith, inr,
}
use kt_connect.Common.Int.{ℤ, pos, ◌+ℤ◌, ◌-ℤ◌, ltb_ℤ}
use kt_connect.Common.Dict.{lookup}
use kt_connect.Common.Exec.{ok}
use kt_connect.Collection.{entries}
use kt_connect.Strings.{itoa, format_nat, write_digits}
use kt_connect.Strings.Number.{InRange}
use kt_connect.Cluster.{Api, Service, kt_lock, SameMap, IsStore}
use kt_connect.Cluster.Example.{Objects, example_api, example-IsStore, find_service}
use kt_connect.Shadow.Wait.Looks.{awake, asleep}
use kt_connect.General.Lock.{is_occupied, lock_service, lock_service_first, unlock_service, mark}
use kt_connect.General.LockWait.{lock_service_first_lem}
use kt_connect.General.Locking.{lock_service_lem, unlock_service-lock_service}

abbrev api : Api
api = record (example_api none) { get_time = λ w. pos 1000 }

abbrev shop : Service
shop = record {
  name = codes "shop";
  namespace = codes "dev";
  labels = none;
  annotations = none;
  selector = some ((codes "app", codes "shop") ∷ []);
  ports = [];
  cluster_ip = codes "10.0.0.9";
  external = false;
}

abbrev start : Objects
start = record { service = some shop; pod = none; deployment = none; time = pos 0 }

abbrev locked : Service
locked = mark shop (pos 1000)

abbrev after_lock : Objects
after_lock = record start { service = some locked }

locked_run : lock_service api 11 (codes "shop") (codes "dev") start ≡ (ok locked, after_lock)
unfolding lock_service is_occupied mark find_service text_eq lookup
locked_run = refl

clocked : IsStore (example_api none) → IsStore api
clocked st = record { get_named = st.get_named; get_updated = st.get_updated }

small : InRange (pos 1000)
small = omega arith

-- A server whose clock goes while the program sleeps, and a lock of the second 820.
abbrev timed : Api
timed = record (example_api none) { sleep = λ n w. (ok tt, record w { time = w.time +ℤ pos n }) }

abbrev held : Service
held = record shop { annotations = some ((kt_lock, codes "820") ∷ []) }

abbrev at : ℕ → Objects
at n = record start { service = some held; time = pos n }

abbrev taken_late : Objects
taken_late = record (at 1001) { service = some (mark held (pos 1001)) }

lock_service_example :
    (v : Objects) × ((svc : Service) × ((find_service (codes "shop") (codes "dev") v.service
          ≡ ok svc)
        × ((is_occupied svc (pos 1000) ≡ false)
            × ((find_service (codes "shop") (codes "dev") after_lock.service ≡ ok locked)
                × (SameMap locked.selector svc.selector
                    × ((later : ℤ)
                        → ltb_ℤ (later -ℤ pos 1000) (pos 180) ≡ true
                        → is_occupied locked later ≡ true))))))
lock_service_example =
    lock_service_lem api (clocked (example-IsStore none)) (λ v. small) 11 (codes "shop")
      (codes "dev") start after_lock locked locked_run

lock_service_first_example :
    lock_service_first timed (codes "shop") (codes "dev") (at 995)
    ≡ (ok (mark held (pos 1001)), taken_late)
unfolding ◌+ℤ◌ find_service text_eq lookup itoa format_nat write_digits mark
lock_service_first_example =
    lock_service_first_lem timed (codes "shop") (codes "dev") 2 (at 995) (at 1001) taken_late held
      (mark held (pos 1001)) 1001
      (asleep (held, (820, (995, (refl, (refl, ((refl, omega arith), omega arith)))))) refl
        (asleep (held, (820, (998, (refl, (refl, ((refl, omega arith), omega arith)))))) refl
          awake))
      (omega arith) refl refl (inr (820, ((refl, omega arith), omega arith))) refl

unlock_service-lock_service_example :
    (v : Objects) × ((svc : Service) × ((find_service (codes "shop") (codes "dev") v.service
          ≡ ok svc)
        × ((w2 : Objects) × ((unlock_service api (codes "shop") (codes "dev") after_lock
                ≡ (ok tt, w2))
              × ((s : Service) × ((find_service (codes "shop") (codes "dev") w2.service ≡ ok s)
                    × (SameMap s.selector svc.selector
                        × ((k : Text)
                            → lookup k (entries s.annotations) ≡ (
                                if text_eq kt_lock k
                                then none
                                else lookup k (entries svc.annotations))))))))))
unlock_service-lock_service_example =
    unlock_service-lock_service api (clocked (example-IsStore none)) 11 (codes "shop") (codes "dev")
      start after_lock locked locked_run (λ s. (s, (record after_lock { service = some s }, refl)))
