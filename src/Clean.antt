-- ===== src/Clean.antt =====
-- pkg/kt/command/clean/common.go: which resources of dead sessions are removed, and their removal.
pub mod Locks
pub mod Check
use kt_connect.Common.{
  ℕ, zero, suc, ◌+◌, ◌*◌, Bool, true, false, not, ◌&&◌, ◌||◌, Option, none, some, List, [], ◌∷◌,
  ◌++◌, leb, ltb, if◌then◌else◌, Text, text_eq, codes,
}
use kt_connect.Common.Int.{ℤ, pos, negsuc, ◌-ℤ◌, ltb_ℤ, wrap64}
use kt_connect.Common.Dict.{Dict, lookup, put}
use kt_connect.Common.Exec.{
  Reply, ok, err, panic, failed, ◌>>=◌, ◌>>◌, done, raise, ask, reply, attempt, ignore,
}
use kt_connect.Strings.{has_prefix}
use kt_connect.Collection.{GoMap, entries, read, string2map}
use kt_connect.Cluster.{
  Api, Service, Pod, Deployment, kt_role, kt_config, kt_lock, kt_selector, kt_last_heart_beat,
  role_router, role_exchange_shadow, router_pod_suffix, exchange_pod_infix,
}
use kt_connect.General.Lock.{drop_key, parse_timestamp, lock_timeout}
use kt_connect.General.Resource.{is_set}
use kt_connect.General.Teardown.{recover_original_service}
use kt_connect.Refs.{scale_to}
use kt_connect.Recover.{parse_replicas, app_key, replicas_key}

-- ResourceToClean
pub record ResourceToClean : Type 0 where
  pub pods_to_delete : List Text
  pub services_to_delete : List Text
  pub config_maps_to_delete : List Text
  pub deployments_to_delete : List Text
  pub deployments_to_scale : Dict ℕ
  pub services_to_recover : List Text
  pub services_to_unlock : List Text

-- isExpired, over int64: the product and the difference wrap around.
unfoldable pub is_expired : ℤ → ℤ → ℕ → Bool
unfolding wrap64
is_expired time last_heart_beat clean_threshold_in_minus =
    ltb_ℤ (wrap64 (pos (clean_threshold_in_minus * 60))) (wrap64 (time -ℤ last_heart_beat))

-- The test of a heart beat in the analyses: it is there, and it is too old.
unfoldable pub is_dead : ℤ → ℕ → GoMap → Bool
unfolding is_expired
is_dead time clean_threshold_in_minus annotations =
    let last_heart_beat = parse_timestamp (read annotations kt_last_heart_beat) in
    not (ltb_ℤ last_heart_beat (pos 0)) && is_expired time last_heart_beat clean_threshold_in_minus

-- analysisConfigAnnotation: the scale of an exchange.
unfoldable pub note_scale : Text → GoMap → ResourceToClean → ResourceToClean
note_scale role config r =
    if text_eq role role_exchange_shadow
      && (ltb 0 (parse_replicas (read config replicas_key)) && is_set (read config app_key))
    then record r {
      deployments_to_scale =
          put (read config app_key) (parse_replicas (read config replicas_key))
            r.deployments_to_scale;
    }
    else r

-- analysisConfigAnnotation: the service of a mesh or an exchange.
unfoldable pub note_service : Text → GoMap → ResourceToClean → ResourceToClean
note_service role config r =
    if text_eq role role_router || text_eq role role_exchange_shadow
    then elim (lookup (codes "service") (entries config)) [
      | some service ↦ record r { services_to_recover = r.services_to_recover ++ (service ∷ []) }
      | none ↦ r
    ]
    else r

-- analysisConfigAnnotation
unfoldable pub analysis_config_annotation : Text → GoMap → ResourceToClean → ResourceToClean
unfolding note_scale note_service
analysis_config_annotation role config r = note_service role config (note_scale role config r)

-- analysisExpiredPods
unfoldable pub analysis_expired_pods : ℤ → ℕ → Pod → ResourceToClean → ResourceToClean
unfolding is_dead analysis_config_annotation
analysis_expired_pods time threshold pod r =
    if is_dead time threshold pod.annotations
    then analysis_config_annotation (read pod.labels kt_role)
        (string2map (read pod.annotations kt_config))
        (if pod.terminating
          then r
          else record r { pods_to_delete = r.pods_to_delete ++ (pod.name ∷ []) })
    else r

-- analysisExpiredConfigmaps, of a name and its annotations
unfoldable pub analysis_expired_configmaps :
    ℤ → ℕ → Text → GoMap → ResourceToClean → ResourceToClean
unfolding is_dead
analysis_expired_configmaps time threshold name annotations r =
    if is_dead time threshold annotations
    then record r { config_maps_to_delete = r.config_maps_to_delete ++ (name ∷ []) }
    else r

-- analysisExpiredDeployments
unfoldable pub analysis_expired_deployments : ℤ → ℕ → Deployment → ResourceToClean → ResourceToClean
unfolding is_dead analysis_config_annotation
analysis_expired_deployments time threshold app r =
    if is_dead time threshold app.annotations
    then analysis_config_annotation (read app.labels kt_role)
        (string2map (read app.annotations kt_config))
        (record r { deployments_to_delete = r.deployments_to_delete ++ (app.name ∷ []) })
    else r

-- analysisExpiredServices
unfoldable pub analysis_expired_services : ℤ → ℕ → Service → ResourceToClean → ResourceToClean
unfolding is_dead
analysis_expired_services time threshold svc r =
    if is_dead time threshold svc.annotations
    then record r { services_to_delete = r.services_to_delete ++ (svc.name ∷ []) }
    else r

-- The loop of isShadowPodExist.
unfoldable pub any_named : Text → List Pod → Bool
any_named prefix [] = false
any_named prefix (pod ∷ pods) = has_prefix pod.name prefix || any_named prefix pods

-- A lock that is older than the timeout; the age is a difference of integers, as in LockService.
unfoldable pub is_stale : ℤ → Option Text → Bool
is_stale time none = false
is_stale time (some lock) = ltb_ℤ (pos lock_timeout) (time -ℤ parse_timestamp lock)

module _ (c : Api) where
  open c use {
    World, get_service, update_service, remove_service, get_pod, get_pods_by_label, remove_pod,
    remove_deployment, get_time,
  }

  -- isShadowPodExist, with the suffix kt-exchange
  unfoldable pub is_shadow_pod_exist : GoMap → Text → Text → World → Bool
  unfolding any_named
  is_shadow_pod_exist selector svc_name namespace w =
      elim (get_pods_by_label selector namespace w) [
        | ok pods ↦ any_named (svc_name ++ exchange_pod_infix) pods
        | err e ↦ false
        | panic ↦ false
      ]

  -- isRouterPodExist
  unfoldable pub is_router_pod_exist : Text → Text → World → Bool
  is_router_pod_exist svc_name namespace w =
      elim (get_pod (svc_name ++ router_pod_suffix) namespace w) [
        | ok pod ↦ true
        | err e ↦ false
        | panic ↦ false
      ]

  -- A changed service whose router or shadow pod is gone.
  unfoldable pub is_orphan : Service → World → Bool
  unfolding is_shadow_pod_exist is_router_pod_exist
  is_orphan svc w =
      is_set (read svc.annotations kt_selector)
      && (if text_eq (read svc.selector kt_role) role_router
          then not (is_router_pod_exist svc.name svc.namespace w)
          else not (is_shadow_pod_exist svc.selector svc.name svc.namespace w))

  -- One service of analysisLockAndOrphanServices.
  unfoldable pub note_lock_and_orphan : Service → World → ResourceToClean → ResourceToClean
  unfolding is_orphan is_stale
  note_lock_and_orphan svc w r =
      let unlocked : ResourceToClean =
        if is_stale (get_time w) (lookup kt_lock (entries svc.annotations))
        then record r { services_to_unlock = r.services_to_unlock ++ (svc.name ∷ []) }
        else r in
      if is_orphan svc w
      then record unlocked { services_to_recover = unlocked.services_to_recover ++ (svc.name ∷ []) }
      else unlocked

  -- analysisLockAndOrphanServices: a service without annotations adds nothing.
  unfoldable pub analysis_lock_and_orphan_services :
      List Service → World → ResourceToClean → ResourceToClean
  unfolding note_lock_and_orphan
  analysis_lock_and_orphan_services [] w r = r
  analysis_lock_and_orphan_services (svc ∷ svcs) w r =
      analysis_lock_and_orphan_services svcs w (note_lock_and_orphan svc w r)

  -- One action for each name, the errors passed over.
  unfoldable pub for_each :
      (Text → World → Reply (Unit {0}) × World) → List Text → World → Reply (Unit {0}) × World
  for_each act [] w = done tt w
  for_each act (name ∷ names) w = let rest = for_each act names in (act name >> rest) w

  unfoldable pub scale_each : Text → Dict ℕ → World → Reply (Unit {0}) × World
  scale_each namespace [] w = done tt w
  scale_each namespace ((name, replica) ∷ names) w =
      let rest = scale_each namespace names in
      (ignore (scale_to c name namespace (pos replica)) >> rest) w

  -- The removal of one lock, with the service found.
  unfoldable pub unlock_one : Reply Service → World → Reply (Unit {0}) × World
  unlock_one (ok app) w =
      ignore (update_service (record app { annotations = drop_key kt_lock app.annotations })) w
  unlock_one (err e) w = done tt w
  unlock_one panic w = (panic, w)

  -- TidyClusterResources; `remove_config_map` is the request of that name.
  unfoldable pub tidy_cluster_resources :
      (Text → Text → World → Reply (Unit {0}) × World)
      → Text
      → ResourceToClean
      → World
      → Reply (Unit {0}) × World
  unfolding for_each scale_each unlock_one
  tidy_cluster_resources remove_config_map namespace r w =
      (do
        for_each (λ name. ignore (remove_pod name namespace)) r.pods_to_delete
        for_each (λ name. ignore (remove_config_map name namespace)) r.config_maps_to_delete
        for_each (λ name. ignore (remove_deployment name namespace)) r.deployments_to_delete
        scale_each namespace r.deployments_to_scale
        for_each (λ name. ignore (remove_service name namespace)) r.services_to_delete
        for_each (λ name. recover_original_service c name namespace) r.services_to_recover
        for_each (λ name. attempt (ask (get_service name namespace)) >>= unlock_one)
            r.services_to_unlock)
        w
