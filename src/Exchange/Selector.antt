-- ===== src/Exchange/Selector.antt =====
-- pkg/kt/command/exchange/selector.go. The shadow pod with its tunnel, the store of the process and
-- the random names are parameters.
pub mod Refused
mod Tests
use kt_connect.Common.{Bool, some, [], ◌∷◌, ◌++◌, if◌then◌else◌, Text, codes}
use kt_connect.Common.Exec.{Reply, behind, failed, ◌>>=◌, ◌>>◌, raise}
use kt_connect.Collection.{GoMap, read}
use kt_connect.Cluster.{
  Api, Service, kt_config, kt_role, kt_target, kt_selector, role_exchange_shadow,
  exchange_pod_infix,
}
use kt_connect.General.Lock.{lock_service_first, unlock_service}
use kt_connect.General.Resource.{is_set, get_service_by_resource_name, update_service_selector}

module _ (c : Api) (remember : Text → c.World → Reply (Unit {0}) × c.World)
    (create_shadow : Text → GoMap → GoMap → Service → c.World → Reply (Unit {0}) × c.World)
    (is_exposed : Service → c.World → Bool) where
  open c use {World, random_string}

  -- BySelector, with the lock held. Of the two random texts the first is in lower case.
  unfoldable pub exchange_locked : Service → Text → World → Reply (Unit {0}) × World
  exchange_locked svc namespace w =
      if is_set (read svc.annotations kt_selector)
      then raise failed w
      else (do
        suffix ← random_string 5
        target ← random_string 20
        let labels : GoMap = some ((kt_role, role_exchange_shadow) ∷ (kt_target, target) ∷ [])
        create_shadow (svc.name ++ (exchange_pod_infix ++ suffix)) labels
            (some ((kt_config, codes "service=" ++ svc.name) ∷ [])) svc
        remember svc.name
        update_service_selector c svc.name namespace labels)
          w

  -- The deferred UnlockService runs behind the reply.
  unfoldable pub unlocked_behind : Text → Text → Reply (Unit {0}) × World → Reply (Unit {0}) × World
  unlocked_behind name namespace (r, w) =
      let (end, w') = unlock_service c name namespace w in (behind end r, w')

  -- BySelector
  unfoldable pub by_selector : Text → Text → World → Reply (Unit {0}) × World
  unfolding exchange_locked unlocked_behind
  by_selector resource_name namespace w =
      (do
        svc ← get_service_by_resource_name c resource_name namespace
        if is_exposed svc w
            then (do
              locked ← lock_service_first c svc.name namespace
              λ v. unlocked_behind locked.name namespace (exchange_locked locked namespace v))
            else raise failed)
        w
