-- ===== src/Mesh/Auto.antt =====
-- pkg/kt/command/mesh/auto.go and manual.go. The shadow with its tunnel (CreateShadowAndInbound) is a
-- parameter; it and the mesh write the store of the run.
pub mod Router
pub mod Leak
mod Tests
use kt_connect.Common.{
  ℕ, suc, Bool, true, false, ◌&&◌, Option, none, some, List, [], ◌∷◌, ◌++◌, ◌==◌, map,
  if◌then◌else◌, Text, text_eq, codes,
}
use kt_connect.Common.Dict.{put}
use kt_connect.Common.Exec.{
  Reply, ok, err, panic, behind, not_found, failed, ◌>>=◌, ◌>>◌, done, raise, ask, reply, attempt,
  ignore,
}
use kt_connect.Strings.{format_nat, join}
use kt_connect.Collection.{GoMap, entries, read}
use kt_connect.Cluster.{
  Api, Service, ServicePort, port_number, port_name, Pod, control_by, kubernetes_toolkit, kt_config,
  kt_ref_count, kt_role, kt_selector, kt_target, mesh_pod_infix, router_pod_suffix,
  stuntman_service_suffix, default_container, router_bin, role_exchange_shadow, role_mesh_shadow,
  role_router,
}
use kt_connect.General.Lock.{lock_service_first, unlock_service}
use kt_connect.General.Resource.{is_set, get_target_ports, update_service_selector}
use kt_connect.Refs.{count_of, increase_pod_ref}
use kt_connect.Session.{Store, Options, Machine, on_cluster, change_store}
use kt_connect.Shadow.Template.{SvcMetaAndSpec}
use kt_connect.Shadow.Wait.{wait_pod_terminated}
use kt_connect.Shadow.Create.{create_service_of, create_router_pod}
use kt_connect.Mesh.{get_version, get_mesh_labels, sanity_check, is_name_usable}

-- The number of the first port of that name, in AutoMesh.
unfoldable pub port_of_name : Text → List (ℕ × Text) → Option ℕ
port_of_name name [] = none
port_of_name name ((p, n) ∷ rest) = if text_eq n name then some p else port_of_name name rest

-- `ports[port] = target`
unfoldable pub put_port : ℕ → ℕ → List (ℕ × ℕ) → List (ℕ × ℕ)
put_port port target [] = (port, target) ∷ []
put_port port target ((p, t) ∷ ports) =
    let rest = put_port port target ports in
    if p == port then (port, target) ∷ ports else (p, t) ∷ rest

-- The loop over the ports of the service, in AutoMesh.
unfoldable pub mesh_ports : List (ℕ × Text) → List ServicePort → List (ℕ × ℕ) → Reply (List (ℕ × ℕ))
unfolding port_of_name put_port
mesh_ports port_to_names [] ports = ok ports
mesh_ports port_to_names (spec_port ∷ rest) ports = elim spec_port.target_port [
  | port_number target ↦ mesh_ports port_to_names rest (put_port spec_port.port target ports)
  | port_name name ↦ elim (port_of_name name port_to_names) [
    | none ↦ err failed
    | some pod_port ↦ mesh_ports port_to_names rest (put_port spec_port.port pod_port ports)
  ]
]

abbrev port_pair : ℕ × ℕ → Text
port_pair (k, v) = format_nat k ++ (b':' ∷ format_nat v)

-- toPortMapParameter
unfoldable pub to_port_map_parameter : List (ℕ × ℕ) → Text
to_port_map_parameter ports = join (map port_pair ports) b','

abbrev pub service_config : Text → (Text × Text)
service_config svc_name = (kt_config, codes "service=" ++ svc_name)

module _ (c : Api) (l : Machine c.World) (o : Options) where
  open c use {World, get_service, get_pod, heart_beat, exec_in_pod, random_string}

  -- The manifest of createShadowService and createStuntmanService.
  abbrev inner_service : Text → List (ℕ × ℕ) → GoMap → SvcMetaAndSpec
  inner_service name ports selectors = record {
    name = name;
    namespace = o.namespace;
    labels = some [];
    annotations = some [];
    external = false;
    ports = ports;
    selectors = selectors;
  }

  -- createShadowService
  unfoldable pub create_shadow_service :
      Text → List (ℕ × ℕ) → GoMap → Store × World → Reply (Unit {0}) × (Store × World)
  create_shadow_service shadow_svc_name ports selectors u =
      (do
        on_cluster (create_service_of c l o (inner_service shadow_svc_name ports selectors))
        change_store (λ s. record s { service = shadow_svc_name }))
        u

  -- createStuntmanService, with the stuntman looked for.
  unfoldable pub stuntman_behind :
      Service → List (ℕ × ℕ) → Text → Reply Service → World → Reply (Unit {0}) × World
  stuntman_behind svc ports name (ok stuntman) w =
      if text_eq (read stuntman.labels control_by) kubernetes_toolkit
      then ignore (heart_beat (codes "service") name o.namespace) w
      else raise failed w
  stuntman_behind svc ports name (err not_found) w =
      (do
        reply (sanity_check svc)
        create_service_of c l o (inner_service name ports svc.selector)
        done tt)
        w
  stuntman_behind svc ports name (err failed) w = raise failed w
  stuntman_behind svc ports name panic w = (panic, w)

  -- createStuntmanService
  unfoldable pub create_stuntman_service : Service → List (ℕ × ℕ) → World → Reply (Unit {0}) × World
  unfolding stuntman_behind
  create_stuntman_service svc ports w =
      let name = svc.name ++ stuntman_service_suffix in
      (attempt (ask (get_service name o.namespace)) >>= stuntman_behind svc ports name) w

  -- createRouter: the router pod, where one that ends is waited for
  unfoldable pub settled_router : Text → Reply Pod → World → Reply (Reply Pod) × World
  settled_router name (ok pod) w =
      if pod.terminating
      then attempt (wait_pod_terminated c name o.namespace) w
      else done (ok pod) w
  settled_router name (err e) w = done (err e) w
  settled_router name panic w = (panic, w)

  -- createRouter: a new router pod; the labels are those of the pod
  unfoldable pub setup_router :
      Text → Text → List (ℕ × ℕ) → List (Text × Text) → Text → World → Reply GoMap × World
  unfolding to_port_map_parameter
  setup_router name svc_name ports labels version_mark w =
      (do
        target ← random_string 20
        let targeted : GoMap = some (put kt_target target labels)
        create_router_pod c l o name targeted
            (some ((kt_ref_count, codes "1") ∷ service_config svc_name ∷ [])) ports
        exec_in_pod default_container name o.namespace (
            router_bin ∷ codes "setup" ∷ svc_name ∷ to_port_map_parameter ports ∷ version_mark ∷ [])
        done targeted)
        w

  -- createRouter: one more user of the router pod
  unfoldable pub join_router : Text → List (Text × Text) → Text → Pod → World → Reply GoMap × World
  unfolding count_of
  join_router name labels version_mark pod w =
      (do
        ignore (heart_beat (codes "pod") name o.namespace)
        _ ← reply (count_of (read pod.annotations kt_ref_count))
        increase_pod_ref c name o.namespace
        exec_in_pod default_container name o.namespace
            (router_bin ∷ codes "add" ∷ version_mark ∷ [])
        done (some (put kt_target (read pod.labels kt_target) labels)))
        w

  -- createRouter, with the router pod looked for.
  unfoldable pub router_behind :
      Text
      → Text
      → List (ℕ × ℕ)
      → List (Text × Text)
      → Text
      → Reply Pod
      → World
      → Reply GoMap × World
  unfolding setup_router join_router
  router_behind name svc_name ports labels version_mark (ok pod) w =
      join_router name labels version_mark pod w
  router_behind name svc_name ports labels version_mark (err not_found) w =
      setup_router name svc_name ports labels version_mark w
  router_behind name svc_name ports labels version_mark (err failed) w = raise failed w
  router_behind name svc_name ports labels version_mark panic w = (panic, w)

  -- createRouter; the labels it completes are returned.
  unfoldable pub create_router :
      Text
      → Text
      → List (ℕ × ℕ)
      → List (Text × Text)
      → Text
      → Store × World
      → Reply GoMap × (Store × World)
  unfolding settled_router router_behind
  create_router name svc_name ports labels version_mark u =
      (do
        labels' ← on_cluster (
            attempt (ask (get_pod name o.namespace))
            >>= settled_router name
            >>= router_behind name svc_name ports labels version_mark)
        change_store (λ s. record s { router = name })
        done labels')
        u

  -- The store after that many fields of a mesh are known.
  abbrev remember_mesh : Text → Store → Store
  remember_mesh version_mark s = record s { mesh = version_mark }

  module _
      (create_shadow_and_inbound : Text
        → Text
        → GoMap
        → GoMap
        → List (ℕ × Text)
        → Store × World
        → Reply (Unit {0}) × (Store × World)) where
    -- AutoMesh, with the ports, the version and the names.
    unfoldable pub mesh_service :
        Service
        → List (ℕ × Text)
        → List (ℕ × ℕ)
        → Text
        → Text
        → Store × World
        → Reply (Unit {0}) × (Store × World)
    unfolding create_stuntman_service create_shadow_service create_router
    mesh_service svc port_to_names ports version version_mark u =
        let shadow_name = svc.name ++ (mesh_pod_infix ++ version) in
        (do
          on_cluster (is_name_usable c 11 shadow_name o.namespace)
          on_cluster (create_stuntman_service svc ports)
          target ← on_cluster (random_string 20)
          let shadow_labels : GoMap = some ((kt_role, role_mesh_shadow) ∷ (kt_target, target) ∷ [])
          create_shadow_service shadow_name ports shadow_labels
          router_labels ←
              create_router (svc.name ++ router_pod_suffix) svc.name ports
                ((kt_role, role_router) ∷ []) version_mark
          on_cluster (update_service_selector c svc.name o.namespace router_labels)
          change_store (λ s. record s { origin = svc.name })
          create_shadow_and_inbound shadow_name o.mesh_expose shadow_labels
              (some (service_config shadow_name ∷ [])) port_to_names)
          u

    -- AutoMesh, with the lock held.
    unfoldable pub mesh_locked : Service → Store × World → Reply (Unit {0}) × (Store × World)
    unfolding mesh_service mesh_ports is_set
    mesh_locked svc u =
        if is_set (read svc.annotations kt_selector)
          && text_eq (read svc.selector kt_role) role_exchange_shadow
        then raise failed u
        else (do
          random ← on_cluster (random_string 5)
          let (mesh_key, version) = get_version random o.version_mark
          change_store (remember_mesh (mesh_key ++ (b':' ∷ version)))
          port_to_names ← on_cluster (λ w. done (get_target_ports c svc o.namespace w) w)
          ports ← reply (mesh_ports port_to_names svc.ports [])
          mesh_service svc port_to_names ports version (mesh_key ++ (b':' ∷ version)))
            u

    -- The deferred UnlockService runs behind the reply.
    unfoldable pub mesh_unlocked :
        Text → Reply (Unit {0}) × (Store × World) → Reply (Unit {0}) × (Store × World)
    mesh_unlocked name (r, (s, w)) =
        let (end, w') = unlock_service c name o.namespace w in (behind end r, (s, w'))

    -- AutoMesh
    unfoldable pub auto_mesh : Service → Store × World → Reply (Unit {0}) × (Store × World)
    unfolding mesh_locked mesh_unlocked
    auto_mesh svc u =
        (do
          locked ← on_cluster (lock_service_first c svc.name o.namespace)
          λ v. mesh_unlocked locked.name (mesh_locked locked v))
          u

    -- ManualMesh
    unfoldable pub manual_mesh : Service → Store × World → Reply (Unit {0}) × (Store × World)
    manual_mesh svc u =
        (do
          random ← on_cluster (random_string 5)
          let (mesh_key, version) = get_version random o.version_mark
          port_to_names ← on_cluster (λ w. done (get_target_ports c svc o.namespace w) w)
          create_shadow_and_inbound (svc.name ++ (mesh_pod_infix ++ version)) o.mesh_expose
              (get_mesh_labels mesh_key version svc) (some []) port_to_names)
          u
