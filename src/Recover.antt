-- ===== src/Recover.antt =====
-- pkg/kt/command/recover.go and pkg/kt/command/recover/common.go: the restore of a service that
-- exchange or mesh changed.
use kt_connect.Common.{
  ℕ, ◌+◌, ◌*◌, ◌-◌, Bool, true, false, not, ◌&&◌, Option, none, some, List, [], ◌∷◌, ◌++◌, leb, ltb,
  ◌==◌, if◌then◌else◌, Text, text_eq, codes,
}
use kt_connect.Common.Int.{pos}
use kt_connect.Common.Dict.{lookup}
use kt_connect.Common.Exec.{Reply, ok, err, panic, failed, ◌>>=◌, ◌>>◌, done, raise, ask, ignore}
use kt_connect.Strings.{has_prefix}
use kt_connect.Collection.{GoMap, entries, read, string2map}
use kt_connect.Cluster.{
  Api, Service, Pod, Deployment, control_by, kubernetes_toolkit, kt_role, kt_config, kt_lock,
  kt_selector, role_router, role_exchange_shadow, role_mesh_shadow, stuntman_service_suffix,
  mesh_pod_infix,
}
use kt_connect.General.Lock.{drop_key}
use kt_connect.General.Resource.{is_set}
use kt_connect.Refs.{scale_to}

-- What fetchTargetRole finds.
pub record Target : Type 0 where
  pub deployment : Option Deployment
  pub pod : Option Pod
  pub role : Text

abbrev pub no_target : Target
no_target = record { deployment = none; pod = none; role = [] }

-- The loops of fetchTargetRole.
unfoldable pub role_of_deployments : List Deployment → Target
role_of_deployments [] = no_target
role_of_deployments (app ∷ apps) = elim (lookup kt_role (entries app.labels)) [
  | some role ↦ record { deployment = some app; pod = none; role = role }
  | none ↦ role_of_deployments apps
]

unfoldable pub role_of_pods : List Pod → Target
role_of_pods [] = no_target
role_of_pods (pod ∷ pods) =
    let rest = role_of_pods pods in
    if pod.terminating then rest else elim (lookup kt_role (entries pod.labels)) [
      | some role ↦ record { deployment = none; pod = some pod; role = role }
      | none ↦ rest
    ]

-- fetchTargetRole
unfoldable pub fetch_target_role : List Deployment → List Pod → Target
unfolding role_of_deployments role_of_pods
fetch_target_role (app ∷ apps) pods = role_of_deployments (app ∷ apps)
fetch_target_role [] pods = role_of_pods pods

-- checkAndMarkUnlock
unfoldable pub check_and_mark_unlock : Service → Service × Bool
check_and_mark_unlock svc = elim (lookup kt_lock (entries svc.annotations)) [
  | some _ ↦ (record svc { annotations = drop_key kt_lock svc.annotations }, true)
  | none ↦ (svc, false)
]

abbrev pub max_int32 : ℕ
max_int32 = 2147483647

abbrev pub max_uint32 : ℕ
max_uint32 = 4294967295

-- strconv.ParseUint(s, 10, 32) behind the digits read so far: the reading ends at a number of more
-- than 32 bits, whatever comes behind it.
unfoldable pub read_uint32 : ℕ → Text → Option ℕ
read_uint32 acc [] = some acc
read_uint32 acc (c ∷ s) =
    let rest = read_uint32 (acc * 10 + (c - b'0')) s in
    if leb b'0' c && leb c b'9'
    then (if ltb max_uint32 (acc * 10 + (c - b'0')) then some max_uint32 else rest)
    else none

-- One or more digits.
unfoldable pub parse_uint32 : Text → Option ℕ
unfolding read_uint32
parse_uint32 [] = none
parse_uint32 (c ∷ s) = read_uint32 0 (c ∷ s)

-- strconv.ParseInt(s, 10, 32), whose error is dropped, as far as it is positive: a number is cut off
-- at 32 bits with the sign, and what is not a number is 0.
unfoldable pub cut_int32 : Option ℕ → ℕ
cut_int32 none = 0
cut_int32 (some n) = if leb n max_int32 then n else max_int32

unfoldable pub parse_replicas : Text → ℕ
unfolding cut_int32 parse_uint32
parse_replicas [] = 0
parse_replicas (d ∷ s) =
    if d == b'-' then 0 else cut_int32 (parse_uint32 (if d == b'+' then s else d ∷ s))

-- `config["replicas"]` and `config["app"]` of the shadow.
abbrev pub replicas_key : Text
replicas_key = codes "replicas"

abbrev pub app_key : Text
app_key = codes "app"

-- The configuration of a pod whose annotations are not nil.
unfoldable pub config_of : GoMap → GoMap
config_of none = some []
config_of annotations = string2map (read annotations kt_config)

-- The object that the client returns beside an error is empty, not nil.
unfoldable pub service_or_empty : Reply Service → Service
service_or_empty (ok svc) = svc
service_or_empty _ = record {
  name = [];
  namespace = [];
  labels = none;
  annotations = none;
  selector = none;
  ports = [];
  cluster_ip = [];
  external = false;
}

module _ (c : Api) where
  open c use {
    World, get_service, update_service, remove_service, get_pods_by_label, get_deployments_by_label,
    remove_pod, remove_deployment, sleep, unmarshal,
  }

  -- UnlockServiceOnly
  unfoldable pub unlock_service_only : Service → World → Reply (Unit {0}) × World
  unlock_service_only svc w = (update_service svc >> done tt) w

  -- The removal of a shadow pod that has annotations, and of a deployment if there is no
  -- configuration yet.
  unfoldable pub remove_shadow_pod : Option Pod → World → Reply GoMap × World
  unfolding config_of
  remove_shadow_pod none w = done (some []) w
  remove_shadow_pod (some pod) w = elim pod.annotations [
    | none ↦ done (some []) w
    | some _ ↦ (ignore (remove_pod pod.name pod.namespace) >> done (config_of pod.annotations)) w
  ]

  unfoldable pub remove_shadow_deployment : Option Deployment → GoMap → World → Reply GoMap × World
  unfolding config_of
  remove_shadow_deployment (some app) (some []) w = elim app.annotations [
    | none ↦ done (some []) w
    | some _ ↦
        (ignore (remove_deployment app.name app.namespace) >> done (config_of app.annotations)) w
  ]
  remove_shadow_deployment _ config w = done config w

  -- HandleExchangedByScaleService
  unfoldable pub handle_exchanged_by_scale_service :
      Service → Option Deployment → Option Pod → World → Reply (Unit {0}) × World
  unfolding remove_shadow_pod remove_shadow_deployment parse_replicas
  handle_exchanged_by_scale_service svc deployment pod w =
      (do
        update_service svc
        first ← remove_shadow_pod pod
        config ← remove_shadow_deployment deployment first
        if ltb 0 (parse_replicas (read config replicas_key)) && is_set (read config app_key)
            then scale_to c (read config app_key) svc.namespace
                (pos (parse_replicas (read config replicas_key)))
            else done tt)
        w

  unfoldable pub remove_deployment_of : Option Deployment → World → Reply (Unit {0}) × World
  remove_deployment_of none w = done tt w
  remove_deployment_of (some app) w = ignore (remove_deployment app.name app.namespace) w

  unfoldable pub remove_pod_of : Option Pod → World → Reply (Unit {0}) × World
  remove_pod_of none w = done tt w
  remove_pod_of (some pod) w = ignore (remove_pod pod.name pod.namespace) w

  -- HandleServiceSelectorAndRemotePods, HandleMeshedByManualService and
  -- HandleExchangedBySelectorService
  unfoldable pub handle_service_selector_and_remote_pods :
      Service → Option Deployment → Option Pod → World → Reply (Unit {0}) × World
  unfolding remove_deployment_of remove_pod_of
  handle_service_selector_and_remote_pods svc deployment pod w =
      (do update_service svc; remove_deployment_of deployment; remove_pod_of pod) w

  -- The removal of the shadow deployments of a service, with the names of those removed.
  unfoldable pub remove_mesh_deployments :
      Text → List Deployment → World → Reply (List Text) × World
  remove_mesh_deployments svc_name [] w = done [] w
  remove_mesh_deployments svc_name (app ∷ apps) w =
      let rest = remove_mesh_deployments svc_name apps in
      (if has_prefix app.name (svc_name ++ mesh_pod_infix)
          then (do
            ignore (remove_deployment app.name app.namespace)
            names ← rest
            done (app.name ∷ names))
          else rest)
        w

  unfoldable pub remove_mesh_pods : Text → List Pod → World → Reply (List Text) × World
  remove_mesh_pods svc_name [] w = done [] w
  remove_mesh_pods svc_name (pod ∷ pods) w =
      let rest = remove_mesh_pods svc_name pods in
      (if has_prefix pod.name (svc_name ++ mesh_pod_infix) && not pod.terminating
          then (do
            ignore (remove_pod pod.name pod.namespace)
            names ← rest
            done (pod.name ∷ names))
          else rest)
        w

  unfoldable pub remove_services : Text → List Text → World → Reply (Unit {0}) × World
  remove_services namespace [] w = done tt w
  remove_services namespace (name ∷ names) w =
      let rest = remove_services namespace names in
      (ignore (remove_service name namespace) >> rest) w

  -- A failed list is passed over.
  abbrev listed : {A : Type 0} → Reply (List A) → List A
  listed (ok xs) = xs
  listed (err e) = []
  listed panic = []

  abbrev pub mesh_shadow_labels : GoMap
  mesh_shadow_labels = some ((control_by, kubernetes_toolkit) ∷ (kt_role, role_mesh_shadow) ∷ [])

  -- HandleMeshedByAutoService, with the router pod.
  unfoldable pub recover_meshed : Service → Pod → World → Reply (Unit {0}) × World
  unfolding remove_mesh_deployments remove_mesh_pods remove_services
  recover_meshed svc pod w =
      (do
        ignore (remove_pod pod.name pod.namespace)
        sleep 1
        update_service svc
        ignore (remove_service (svc.name ++ stuntman_service_suffix) svc.namespace)
        apps ← ask (λ v. ok (listed (get_deployments_by_label mesh_shadow_labels svc.namespace v)))
        app_names ← remove_mesh_deployments svc.name apps
        pods ← ask (λ v. ok (listed (get_pods_by_label mesh_shadow_labels svc.namespace v)))
        pod_names ← remove_mesh_pods svc.name pods
        remove_services svc.namespace (app_names ++ pod_names))
        w

  -- HandleMeshedByAutoService
  unfoldable pub handle_meshed_by_auto_service :
      Service → Option Deployment → Option Pod → World → Reply (Unit {0}) × World
  unfolding recover_meshed
  handle_meshed_by_auto_service svc (some _) pod w = raise failed w
  handle_meshed_by_auto_service svc none none w = raise failed w
  handle_meshed_by_auto_service svc none (some pod) w = recover_meshed svc pod w

  -- Recover, with a recorded selector that was read.
  unfoldable pub recover_selector :
      Service → Target → Reply GoMap → World → Reply (Unit {0}) × World
  unfolding handle_meshed_by_auto_service handle_service_selector_and_remote_pods
  recover_selector svc target (ok selector) w =
      let restored : Service = record svc {
        selector = selector;
        annotations = drop_key kt_selector svc.annotations;
      } in
      if text_eq target.role role_router
      then handle_meshed_by_auto_service restored target.deployment target.pod w
      else handle_service_selector_and_remote_pods restored target.deployment target.pod w
  recover_selector svc target (err e) w = raise failed w
  recover_selector svc target panic w = (panic, w)

  -- Recover, behind the marks: with the recorded selector, if there is one.
  unfoldable pub recover_marked : Service → Bool → Target → World → Reply (Unit {0}) × World
  unfolding recover_selector handle_service_selector_and_remote_pods
      handle_exchanged_by_scale_service unlock_service_only
  recover_marked svc need_unlock target w = elim (lookup kt_selector (entries svc.annotations)) [
    | some origin_selector ↦ recover_selector svc target (unmarshal origin_selector) w
    | none ↦
        if text_eq target.role role_mesh_shadow
        then handle_service_selector_and_remote_pods svc target.deployment target.pod w
        else if text_eq target.role role_exchange_shadow
        then handle_exchanged_by_scale_service svc target.deployment target.pod w
        else if need_unlock
        then unlock_service_only svc w
        else done tt w
  ]

  -- The early return of Recover, for a service without annotations.
  unfoldable pub recover_found : Service → Target → World → Reply (Unit {0}) × World
  unfolding recover_marked check_and_mark_unlock
  recover_found svc target w = elim svc.annotations [
    | none ↦
        if text_eq target.role []
        then done tt w
        else recover_marked (record svc { annotations = some [] }) false target w
    | some _ ↦
        let (marked, need_unlock) = check_and_mark_unlock svc in
        recover_marked marked need_unlock target w
  ]

  -- Recover: it goes on behind an error of the first request.
  unfoldable pub recover : Text → Text → World → Reply (Unit {0}) × World
  unfolding recover_found fetch_target_role service_or_empty
  recover service_name namespace w =
      (do
        svc ← ask (λ v. ok (service_or_empty (get_service service_name namespace v)))
        apps ← ask (get_deployments_by_label svc.selector svc.namespace)
        pods ← ask (get_pods_by_label svc.selector svc.namespace)
        recover_found svc (fetch_target_role apps pods))
        w
