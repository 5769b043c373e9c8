-- ===== src/Shadow/Inputs.antt =====
-- pkg/kt/service/cluster/shadow_pod.go, extra_pod.go and configmap.go: what is computed for a pod to
-- create, and what is read of one that is there.
use kt_connect.Common.{ℕ, Option, none, some, List, [], ◌∷◌, ◌++◌, ◌==◌, if◌then◌else◌, Text, codes}
use kt_connect.Common.Int.{ℤ, pos, negsuc}
use kt_connect.Common.Dict.{Dict, lookup, put}
use kt_connect.Common.Exec.{Reply, ok, err, panic}
use kt_connect.Strings.{itoa, format_nat}
use kt_connect.Collection.{GoMap, entries, read, merge_map}
use kt_connect.Cluster.{
  Pod, ConfigMap, Container, kt_last_heart_beat, kt_lane, kt_session, ssh_auth_key,
  ssh_auth_private_key, default_container,
}
use kt_connect.General.Lock.{get_timestamp}
use kt_connect.Refs.{assign}
use kt_connect.Session.{Store, Options, Keys}
use kt_connect.Shadow.Ports.{parse_port_mapping}
use kt_connect.Shadow.Template.{PodMetaAndSpec, control_label}

-- `for key, val := range pairs { m[key] = val }`, which panics at the nil map.
unfoldable pub assign_all : List (Text × Text) → GoMap → Reply GoMap
unfolding assign
assign_all [] m = ok m
assign_all ((k, v) ∷ pairs) m = elim (assign m k v) [
  | ok m' ↦ assign_all pairs m'
  | err e ↦ err e
  | panic ↦ panic
]

-- `portNameDict[port]`
unfoldable pub name_of_port : List (ℕ × Text) → ℤ → Option Text
name_of_port [] port = none
name_of_port dict (negsuc n) = none
name_of_port ((p, name) ∷ dict) (pos n) = if p == n then some name else name_of_port dict (pos n)

abbrev port_label : Option Text → ℤ → Text
port_label none port = codes "http-" ++ itoa port
port_label (some name) port = name

-- One pair of the exposed ports in GetOrCreateShadow; an invalid one is skipped.
unfoldable pub exposed_port : List (ℕ × Text) → Reply (ℤ × ℤ) → Dict ℤ → Dict ℤ
unfolding name_of_port
exposed_port dict (ok (_, port)) ports = put (port_label (name_of_port dict port) port) port ports
exposed_port dict _ ports = ports

unfoldable pub exposed_ports : List (ℕ × Text) → List Text → Dict ℤ → Dict ℤ
unfolding exposed_port parse_port_mapping
exposed_ports dict [] ports = ports
exposed_ports dict (pair ∷ pairs) ports =
    exposed_ports dict pairs (exposed_port dict (parse_port_mapping pair) ports)

-- The single pod of a shared deployment, in tryGetExistingShadows.
unfoldable pub only_pod : Reply (List Pod) → Reply (Option Pod)
only_pod (ok (pod ∷ [])) = ok (some pod)
only_pod (ok _) = ok none
only_pod (err e) = err e
only_pod panic = panic

unfoldable pub found_pod : Reply Pod → Reply (Option Pod)
found_pod (ok pod) = ok (some pod)
found_pod (err e) = ok none
found_pod panic = panic

-- The labels of the store, in GetOrCreateShadow.
unfoldable pub store_label : Option Text → Text → Text
store_label none current = current
store_label (some value) current = value

unfoldable pub remember_lane : GoMap → Store → Store
unfolding store_label
remember_lane labels s = record s {
  lane = store_label (lookup kt_lane (entries labels)) s.lane;
  session = store_label (lookup kt_session (entries labels)) s.session;
}

unfoldable pub keys_of : ConfigMap → Text → Keys
keys_of cm path = record {
  private_key = read cm.content ssh_auth_private_key;
  public_key = read cm.content ssh_auth_key;
  private_key_path = path;
}

unfoldable pub ssh_config_map : ℤ → GoMap → Text → Text → Keys → ConfigMap
ssh_config_map time labels sshcm namespace generator = record {
  name = sshcm;
  namespace = namespace;
  labels = merge_map labels control_label;
  annotations = some ((kt_last_heart_beat, get_timestamp time) ∷ []);
  content =
      some
        ((ssh_auth_key, generator.public_key) ∷ (ssh_auth_private_key, generator.private_key) ∷ []);
}

-- The ports of the router pod, in CreateRouterPod.
unfoldable pub router_ports : List (ℕ × ℕ) → Dict ℤ → Dict ℤ
router_ports [] out = out
router_ports ((_, remote_port) ∷ ports) out =
    router_ports ports (put (codes "router-" ++ format_nat remote_port) (pos remote_port) out)

abbrev pub extra_pod : Options → Text → GoMap → GoMap → Text → Dict ℤ → PodMetaAndSpec
extra_pod o name labels annotations image ports = record {
  name = name;
  namespace = o.namespace;
  labels = labels;
  annotations = annotations;
  image = image;
  container_name = default_container;
  envs = [];
  ports = ports;
  main_container_command = [];
  main_container_args = [];
  main_container_volume_mounts = [];
  init_containers = [];
  additional_containers = [];
  volumes = [];
  template_annotations = none;
}

unfoldable pub with_command : List Text → List Container → List Container
with_command command [] = []
with_command command (main ∷ others) = record main { command = command } ∷ others
