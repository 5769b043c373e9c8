-- ===== src/General/Teardown.antt =====
-- pkg/kt/command/general/teardown.go: the way back to the original service.
use kt_connect.Common.{none, some, ◌++◌, Text}
use kt_connect.Common.Dict.{lookup}
use kt_connect.Common.Exec.{Reply, ok, err, panic, ◌>>=◌, ◌>>◌, done, ask, attempt, ignore}
use kt_connect.Collection.{GoMap, entries}
use kt_connect.Cluster.{Api, Service, kt_selector, stuntman_service_suffix}
use kt_connect.General.Lock.{drop_key}

module _ (c : Api) where
  open c use {World, get_service, update_service, remove_service, unmarshal}

  -- RecoverOriginalService, with the recorded selector read.
  unfoldable pub restore : Service → Reply GoMap → World → Reply (Unit {0}) × World
  unfolding drop_key
  restore svc (ok selector) w =
      ignore
        (update_service
          (record svc { selector = selector; annotations = drop_key kt_selector svc.annotations }))
        w
  restore svc (err e) w = done tt w
  restore svc panic w = (panic, w)

  -- RecoverOriginalService, with the service found.
  unfoldable pub restore_found : Reply Service → World → Reply (Unit {0}) × World
  unfolding restore
  restore_found (ok svc) w = elim (lookup kt_selector (entries svc.annotations)) [
    | none ↦ done tt w
    | some origin_selector ↦ restore svc (unmarshal origin_selector) w
  ]
  restore_found (err e) w = done tt w
  restore_found panic w = (panic, w)

  -- RecoverOriginalService
  unfoldable pub recover_original_service : Text → Text → World → Reply (Unit {0}) × World
  unfolding restore_found
  recover_original_service svc_name namespace w =
      (attempt (ask (get_service svc_name namespace)) >>= restore_found) w

  -- recoverService
  unfoldable pub recover_service : Text → Text → World → Reply (Unit {0}) × World
  unfolding recover_original_service
  recover_service origin_svc_name namespace w =
      (do
        recover_original_service origin_svc_name namespace
        ignore (remove_service (origin_svc_name ++ stuntman_service_suffix) namespace))
        w
