-- ===== src/General/Resource.antt =====
-- pkg/kt/command/general/resource.go: services and deployments by resource name, the ports of a
-- service, and the switch of its selector.
use kt_connect.Common.{
  ℕ, ◌-◌, Bool, true, false, not, ◌&&◌, ◌||◌, Option, none, some, List, [], ◌∷◌, ◌++◌,
  if◌then◌else◌, length, take, Text, text_eq, codes,
}
use kt_connect.Common.Exec.{
  Reply, ok, err, panic, failed, ◌>>=◌, ◌>>◌, done, raise, ask, reply, attempt, ignore,
}
use kt_connect.Strings.{split, format_nat, has_suffix}
use kt_connect.Collection.{GoMap, read, map_equals, map_contains, map_put}
use kt_connect.Cluster.{
  Api, Service, ServicePort, port_number, port_name, ContainerPort, Pod, Deployment, kt_selector,
  kt_role, kt_user, stuntman_service_suffix,
}

-- `s != ""`
unfoldable pub is_set : Text → Bool
is_set [] = false
is_set (_ ∷ _) = true

abbrev is_nil : GoMap → Bool
is_nil none = true
is_nil (some _) = false

-- isServiceChanged
unfoldable pub is_service_changed : Service → GoMap → Text → Bool
is_service_changed svc selector marshaled_selector =
    not (map_equals svc.selector selector)
    || (is_nil svc.annotations
        || not (text_eq (read svc.annotations kt_selector) marshaled_selector))

-- ParseResourceName, with its segments: the type and the name.
unfoldable pub name_of_segments : List Text → Text → Reply (Text × Text)
name_of_segments (_ ∷ _ ∷ _ ∷ _) resource_name = err failed
name_of_segments (resource_type ∷ name ∷ []) resource_name = ok (resource_type, name)
name_of_segments (_ ∷ []) resource_name = ok (codes "service", resource_name)
name_of_segments [] resource_name = ok (codes "service", resource_name)

-- ParseResourceName
unfoldable pub parse_resource_name : Text → Reply (Text × Text)
unfolding name_of_segments
parse_resource_name resource_name = name_of_segments (split resource_name b'/') resource_name

abbrev is_deployment_type : Text → Bool
is_deployment_type t = text_eq t (codes "deploy") || text_eq t (codes "deployment")

abbrev is_service_type : Text → Bool
is_service_type t = text_eq t (codes "svc") || text_eq t (codes "service")

-- The loop of getDeploymentByService.
unfoldable pub first_matching : GoMap → List Deployment → Reply Deployment
first_matching selector [] = err failed
first_matching selector (app ∷ apps) =
    if map_contains selector app.template_labels then ok app else first_matching selector apps

-- GetServicesBySelector of service.go, with the services of the namespace.
unfoldable pub matching_services : GoMap → List Service → List Service
matching_services match_labels [] = []
matching_services match_labels (svc ∷ svcs) =
    let rest = matching_services match_labels svcs in
    if map_contains svc.selector match_labels then svc ∷ rest else rest

-- The port numbers of the container ports of that name, in the order in which they are written.
unfoldable pub named_ports : Text → List ContainerPort → List (ℕ × Text) → List (ℕ × Text)
named_ports port [] out = out
named_ports port (cp ∷ cps) out =
    named_ports port cps (if text_eq cp.name port then (cp.container_port, cp.name) ∷ out else out)

unfoldable pub named_ports_in : Text → List (List ContainerPort) → List (ℕ × Text) → List (ℕ × Text)
unfolding named_ports
named_ports_in port [] out = out
named_ports_in port (c ∷ cs) out = named_ports_in port cs (named_ports port c out)

-- What GetTargetPorts fetches once, when the first named port is met.
unfoldable pub first_pod : Reply (List Pod) → Option Pod
first_pod (ok (p ∷ _)) = some p
first_pod _ = none

-- The loop of GetTargetPorts: a write to the map goes to the front of the list, which hides what it
-- held at that number. `none`: the pod is missing, and the result is the empty map.
unfoldable pub target_ports : Option Pod → List ServicePort → List (ℕ × Text) → List (ℕ × Text)
unfolding named_ports_in
target_ports pod [] out = out
target_ports pod (p ∷ ps) out = elim p.target_port [
  | port_number n ↦ target_ports pod ps ((n, codes "kt-" ++ format_nat n) ∷ out)
  | port_name s ↦ elim pod [
    | none ↦ []
    | some found ↦ target_ports pod ps (named_ports_in s found.containers out)
  ]
]

-- What UpdateServiceSelector records: the service to write and the marshaled selector.
unfoldable pub marshaled_of : Service → Reply Text → Reply (Service × Text)
marshaled_of svc (ok t) = ok (record svc { annotations = map_put svc.annotations kt_selector t }, t)
marshaled_of svc (err e) = err e
marshaled_of svc panic = panic

-- An object that is not found is reported with an error of the program's own.
abbrev pub plain_error : {A : Type 0} → Reply A → Reply A
plain_error (ok a) = ok a
plain_error (err e) = err failed
plain_error panic = panic

module _ (c : Api) where
  open c use {
    World, get_service, all_services, update_service, get_pods_by_label, get_deployment,
    get_deployments_by_label, all_deployments, marshal, sleep,
  }

  -- GetServicesBySelector
  unfoldable pub get_services_by_selector : GoMap → Text → World → Reply (List Service) × World
  unfolding matching_services
  get_services_by_selector match_labels namespace w =
      (do svcs ← ask (all_services namespace); done (matching_services match_labels svcs)) w

  -- The first service of getServiceByDeployment, or the one it is the stuntman of.
  unfoldable pub original_service : List Service → Text → World → Reply Service × World
  original_service [] namespace w = raise failed w
  original_service (svc ∷ _) namespace w =
      if has_suffix svc.name stuntman_service_suffix
      then ask
          (get_service (take (length svc.name - length stuntman_service_suffix) svc.name) namespace)
          w
      else done svc w

  -- getServiceByDeployment
  unfoldable pub get_service_by_deployment : Deployment → Text → World → Reply Service × World
  unfolding get_services_by_selector original_service
  get_service_by_deployment app namespace w =
      (do
        svcs ← get_services_by_selector app.match_labels namespace
        original_service svcs namespace)
        w

  -- GetServiceByResourceName
  unfoldable pub get_service_by_resource_name : Text → Text → World → Reply Service × World
  unfolding parse_resource_name get_service_by_deployment
  get_service_by_resource_name resource_name namespace w =
      (do
        (resource_type, name) ← reply (parse_resource_name resource_name)
        if is_deployment_type resource_type
            then (do
              app ← ask (λ v. plain_error (get_deployment name namespace v))
              get_service_by_deployment app namespace)
            else if is_service_type resource_type
            then ask (λ v. plain_error (get_service name namespace v))
            else raise failed)
        w

  -- getDeploymentByService
  unfoldable pub get_deployment_by_service : Service → Text → World → Reply Deployment × World
  unfolding first_matching
  get_deployment_by_service svc namespace w =
      (do apps ← ask (all_deployments namespace); reply (first_matching svc.selector apps)) w

  -- GetDeploymentByResourceName
  unfoldable pub get_deployment_by_resource_name : Text → Text → World → Reply Deployment × World
  unfolding parse_resource_name get_deployment_by_service
  get_deployment_by_resource_name resource_name namespace w =
      (do
        (resource_type, name) ← reply (parse_resource_name resource_name)
        if is_deployment_type resource_type
            then ask (λ v. plain_error (get_deployment name namespace v))
            else if is_service_type resource_type
            then (do
              svc ← ask (λ v. plain_error (get_service name namespace v))
              get_deployment_by_service svc namespace)
            else raise failed)
        w

  -- GetTargetPorts
  unfoldable pub get_target_ports : Service → Text → World → List (ℕ × Text)
  unfolding first_pod target_ports
  get_target_ports svc namespace w =
      target_ports (first_pod (get_pods_by_label svc.selector namespace w)) svc.ports []

  -- The user of the first pod or deployment, in GetOccupiedUser.
  unfoldable pub user_of : GoMap → Text
  unfolding is_set
  user_of annotations =
      if is_set (read annotations kt_user)
      then codes " (" ++ (read annotations kt_user ++ codes ")")
      else []

  unfoldable pub pod_user : Reply (List Pod) → Text
  unfolding user_of
  pod_user (ok (p ∷ _)) = user_of p.annotations
  pod_user _ = []

  unfoldable pub deployment_user : Reply (List Deployment) → Text
  unfolding user_of
  deployment_user (ok (d ∷ _)) = user_of d.annotations
  deployment_user _ = []

  -- GetOccupiedUser
  unfoldable pub get_occupied_user : GoMap → Text → World → Text
  unfolding pod_user deployment_user is_set
  get_occupied_user labels namespace w =
      let user = pod_user (get_pods_by_label labels namespace w) in
      if is_set user then user else deployment_user (get_deployments_by_label labels namespace w)

  -- UpdateServiceSelector, up to the recorded selector: that of the annotation, or the current one.
  unfoldable pub record_selector : Service → Reply (Service × Text)
  unfolding is_set marshaled_of
  record_selector svc =
      if is_set (read svc.annotations kt_selector)
      then ok (svc, read svc.annotations kt_selector)
      else if is_set (read svc.selector kt_role)
      then err failed
      else marshaled_of svc (marshal svc.selector)

  -- UpdateServiceSelector, without the watch that it starts.
  unfoldable pub update_service_selector : Text → Text → GoMap → World → Reply (Unit {0}) × World
  unfolding record_selector is_service_changed
  update_service_selector svc_name namespace selector w =
      (do
        svc ← ask (get_service svc_name namespace)
        (recorded, marshaled_selector) ← reply (record_selector svc)
        if is_service_changed recorded selector marshaled_selector
            then update_service (record recorded { selector = selector }) >> done tt
            else done tt)
        w

  -- The tests on the router pods before the watch acts.
  unfoldable pub is_router_alive : Reply (List Pod) → Bool
  is_router_alive (ok (p ∷ _)) = not p.terminating
  is_router_alive _ = false

  -- The watch's second look at the service.
  unfoldable pub rewrite_selector : GoMap → Text → Reply Service → World → Reply (Unit {0}) × World
  unfolding is_service_changed
  rewrite_selector selector marshaled_selector (ok svc) w =
      if is_service_changed svc selector marshaled_selector
      then ignore
          (update_service (record svc {
            selector = selector;
            annotations = map_put svc.annotations kt_selector marshaled_selector;
          }))
          w
      else done tt w
  rewrite_selector selector marshaled_selector (err e) w = done tt w
  rewrite_selector selector marshaled_selector panic w = (panic, w)

  -- The watch of UpdateServiceSelector, at a change of the service; `delay` is the random pause.
  unfoldable pub on_service_changed :
      Text → Text → GoMap → Text → ℕ → Service → World → Reply (Unit {0}) × World
  unfolding is_router_alive is_service_changed rewrite_selector
  on_service_changed svc_name namespace selector marshaled_selector delay new_svc w =
      if is_router_alive (get_pods_by_label selector namespace w)
        && is_service_changed new_svc selector marshaled_selector
      then (do
        sleep delay
        svc ← attempt (ask (get_service svc_name namespace))
        rewrite_selector selector marshaled_selector svc)
          w
      else done tt w
