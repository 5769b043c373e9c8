-- ===== src/Cluster.antt =====
-- The objects of the API server that the program reads and writes, with the fields it uses, the
-- labels and annotations it marks them with (pkg/kt/util/const.go), and the server itself: its
-- requests, the clock and the JSON codec are a parameter (`Api`) with the laws in `IsStore`.
pub mod Example
use kt_connect.Common.{ℕ, ◌≡◌, ◌≢◌, Bool, Option, List, [], ◌∷◌, Text, codes}
use kt_connect.Common.Int.{ℤ}
use kt_connect.Common.Dict.{lookup}
use kt_connect.Common.Exec.{Reply, ok}
use kt_connect.Collection.{GoMap, entries}

abbrev pub control_by : Text
control_by = codes "control-by"

abbrev pub kubernetes_toolkit : Text
kubernetes_toolkit = codes "kt"

abbrev pub kt_target : Text
kt_target = codes "kt-target"

abbrev pub kt_role : Text
kt_role = codes "kt-role"

abbrev pub kt_config : Text
kt_config = codes "kt-config"

abbrev pub kt_user : Text
kt_user = codes "kt-user"

abbrev pub kt_selector : Text
kt_selector = codes "kt-selector"

abbrev pub kt_ref_count : Text
kt_ref_count = codes "kt-ref-count"

abbrev pub kt_last_heart_beat : Text
kt_last_heart_beat = codes "kt-last-heart-beat"

abbrev pub kt_lock : Text
kt_lock = codes "kt-lock"

abbrev pub kt_lane : Text
kt_lane = codes "kt-lane"

abbrev pub kt_session : Text
kt_session = codes "kt-session"

abbrev pub stuntman_service_suffix : Text
stuntman_service_suffix = codes "-kt-stuntman"

abbrev pub router_pod_suffix : Text
router_pod_suffix = codes "-kt-router"

abbrev pub exchange_pod_infix : Text
exchange_pod_infix = codes "-kt-exchange-"

abbrev pub mesh_pod_infix : Text
mesh_pod_infix = codes "-kt-mesh-"

abbrev pub rectifier_pod_prefix : Text
rectifier_pod_prefix = codes "kt-rectifier-"

abbrev pub ssh_auth_key : Text
ssh_auth_key = codes "authorized"

abbrev pub ssh_auth_private_key : Text
ssh_auth_private_key = codes "privateKey"

abbrev pub default_container : Text
default_container = codes "standalone"

abbrev pub router_bin : Text
router_bin = codes "/usr/sbin/router"

abbrev pub role_connect_shadow : Text
role_connect_shadow = codes "shadow-connect"

abbrev pub role_exchange_shadow : Text
role_exchange_shadow = codes "shadow-exchange"

abbrev pub role_mesh_shadow : Text
role_mesh_shadow = codes "shadow-mesh"

abbrev pub role_router : Text
role_router = codes "router"

-- A port of a service that names its target by number, or by the name of a container's port.
pub data TargetPort : Type 0 where
  port_number : ℕ → TargetPort
  port_name : Text → TargetPort

pub record ServicePort : Type 0 where
  pub name : Text
  pub port : ℕ
  pub target_port : TargetPort

pub record Service : Type 0 where
  pub name : Text
  pub namespace : Text
  pub labels : GoMap
  pub annotations : GoMap
  pub selector : GoMap
  pub ports : List ServicePort
  pub cluster_ip : Text
  pub external : Bool

pub record ContainerPort : Type 0 where
  pub name : Text
  pub container_port : ℕ

-- `terminating`: the deletion timestamp is set; `running`: the phase is Running.
pub record Pod : Type 0 where
  pub name : Text
  pub namespace : Text
  pub labels : GoMap
  pub annotations : GoMap
  pub terminating : Bool
  pub running : Bool
  pub pod_ip : Text
  pub containers : List (List ContainerPort)

pub record Deployment : Type 0 where
  pub name : Text
  pub namespace : Text
  pub labels : GoMap
  pub annotations : GoMap
  pub match_labels : GoMap
  pub template_labels : GoMap
  pub replicas : ℤ
  pub ready_replicas : ℤ

pub record ConfigMap : Type 0 where
  pub name : Text
  pub namespace : Text
  pub labels : GoMap
  pub annotations : GoMap
  pub content : GoMap

pub record VolumeMount : Type 0 where
  pub name : Text
  pub mount_path : Text

-- A volume of a pod: the file of a key of a config map, or an empty directory.
pub data VolumeSource : Type 0 where
  of_config_map : (config_map key path : Text) → VolumeSource
  empty_dir : VolumeSource

pub record Volume : Type 0 where
  pub name : Text
  pub source : VolumeSource

-- A container to create; the quota and the security context are constants of the options.
pub record Container : Type 0 where
  pub name : Text
  pub image : Text
  pub always_pull : Bool
  pub command : List Text
  pub args : List Text
  pub envs : List (Text × Text)
  pub ports : List (Text × ℤ)
  pub volume_mounts : List VolumeMount

pub record PodSpec : Type 0 where
  pub service_account : Text
  pub containers : List Container
  pub init_containers : List Container
  pub volumes : List Volume
  pub image_pull_secret : Text
  pub node_selector : GoMap

-- A pod to create, and a deployment to create with the labels it selects by.
pub record PodManifest : Type 0 where
  pub name : Text
  pub namespace : Text
  pub labels : GoMap
  pub annotations : GoMap
  pub spec : PodSpec

pub record DeploymentManifest : Type 0 where
  pub name : Text
  pub namespace : Text
  pub labels : GoMap
  pub annotations : GoMap
  pub match_labels : GoMap
  pub template_labels : GoMap
  pub template_annotations : GoMap
  pub spec : PodSpec

-- The API server, the clock and the JSON codec of string maps. Others act on the cluster while the
-- program sleeps: `sleep` is any change of the world.
pub record Api : Type 1 where
  pub World : Type 0
  pub get_service : Text → Text → World → Reply Service
  pub all_services : Text → World → Reply (List Service)
  pub update_service : Service → World → Reply Service × World
  pub get_services_by_label : GoMap → Text → World → Reply (List Service)
  pub create_service : Service → World → Reply Service × World
  pub remove_service : Text → Text → World → Reply (Unit {0}) × World
  pub get_pod : Text → Text → World → Reply Pod
  pub get_pods_by_label : GoMap → Text → World → Reply (List Pod)
  pub update_pod : Pod → World → Reply Pod × World
  pub remove_pod : Text → Text → World → Reply (Unit {0}) × World
  pub create_pod : PodManifest → World → Reply (Unit {0}) × World
  pub get_deployment : Text → Text → World → Reply Deployment
  pub get_deployments_by_label : GoMap → Text → World → Reply (List Deployment)
  pub all_deployments : Text → World → Reply (List Deployment)
  pub update_deployment : Deployment → World → Reply Deployment × World
  pub remove_deployment : Text → Text → World → Reply (Unit {0}) × World
  pub create_deployment : DeploymentManifest → World → Reply (Unit {0}) × World
  pub get_config_map : Text → Text → World → Reply ConfigMap
  pub get_config_maps_by_label : GoMap → Text → World → Reply (List ConfigMap)
  pub create_config_map : ConfigMap → World → Reply ConfigMap × World
  pub remove_config_map : Text → Text → World → Reply (Unit {0}) × World
  pub heart_beat : Text → Text → Text → World → Reply (Unit {0}) × World
  pub exec_in_pod : Text → Text → Text → List Text → World → Reply (Unit {0}) × World
  pub get_time : World → ℤ
  pub sleep : ℕ → World → Reply (Unit {0}) × World
  pub random_string : ℕ → World → Reply Text × World
  pub marshal : GoMap → Reply Text
  pub unmarshal : Text → Reply GoMap

-- Two maps with the same keys and values.
abbrev pub SameMap : GoMap → GoMap → Type 0
SameMap m n = (k : Text) → lookup k (entries m) ≡ lookup k (entries n)

-- What the server stores of a service it accepts.
pub record SameService (s t : Service) : Type 0 where
  pub same_name : t.name ≡ s.name
  pub same_namespace : t.namespace ≡ s.namespace
  pub same_annotations : SameMap t.annotations s.annotations
  pub same_selector : SameMap t.selector s.selector

module _ (c : Api) where
  open c use {World, get_service, update_service, get_pod, update_pod, marshal, unmarshal}

  -- A service is found under its name, and after an update it is found as it was accepted.
  pub record IsStore : Type 0 where
    pub get_named :
        (n ns : Text) (w : World) (s : Service)
        → get_service n ns w ≡ ok s
        → (s.name ≡ n) × (s.namespace ≡ ns)
    pub get_updated :
        (s t : Service) (w w' : World)
        → update_service s w ≡ (ok t, w')
        → (get_service s.name s.namespace w' ≡ ok t) × SameService s t

  -- The same of pods: what is used of them is the annotations.
  pub record IsPodStore : Type 0 where
    pub get_named :
        (n ns : Text) (w : World) (p : Pod)
        → get_pod n ns w ≡ ok p
        → (p.name ≡ n) × (p.namespace ≡ ns)
    pub get_updated :
        (p q : Pod) (w w' : World)
        → update_pod p w ≡ (ok q, w')
        → (get_pod p.name p.namespace w' ≡ ok q) × SameMap q.annotations p.annotations

  -- The text of the map is not empty and is read back as the map.
  abbrev pub IsReadBack : GoMap → Type 0
  IsReadBack m =
      (t : Text)
      → marshal m ≡ ok t
      → (t ≢ []) × ((n : GoMap) × ((unmarshal t ≡ ok n) × SameMap n m))

  -- The server accepts every update in this world.
  abbrev pub IsWritable : World → Type 0
  IsWritable w = (s : Service) → (t : Service) × ((w' : World) × (update_service s w ≡ (ok t, w')))

  -- The server accepts every update of a pod.
  abbrev pub IsPodWritable : Type 0
  IsPodWritable = (p : Pod) (w : World) → (q : Pod) × ((w' : World) × (update_pod p w ≡ (ok q, w')))
