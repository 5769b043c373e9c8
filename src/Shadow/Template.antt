-- ===== src/Shadow/Template.antt =====
-- pkg/kt/service/cluster/helper.go: the manifests of services, deployments and pods.
use kt_connect.Common.{
  ℕ, ◌-◌, ◌%◌, ◌^◌, ltb, Bool, ◌&&◌, none, some, List, [], ◌∷◌, ◌++◌, map, if◌then◌else◌, Text,
  text_eq, codes,
}
use kt_connect.Common.Int.{ℤ, pos, negsuc}
use kt_connect.Common.Exec.{Reply, ok, err, panic}
use kt_connect.Strings.{format_nat, has_prefix}
use kt_connect.Collection.{GoMap, entries, map_put, merge_map, put_all, string2map}
use kt_connect.Cluster.{
  Service, ServicePort, port_number, VolumeMount, Volume, of_config_map, empty_dir, Container,
  PodSpec, PodManifest, DeploymentManifest, control_by, kubernetes_toolkit, kt_ref_count,
  kt_last_heart_beat, ssh_auth_key,
}
use kt_connect.Session.{Options}
use kt_connect.General.Lock.{get_timestamp}
use kt_connect.General.Resource.{is_set}

-- ResourceMeta and SvcMetaAndSpec
pub record SvcMetaAndSpec : Type 0 where
  pub name : Text
  pub namespace : Text
  pub labels : GoMap
  pub annotations : GoMap
  pub external : Bool
  pub ports : List (ℕ × ℕ)
  pub selectors : GoMap

-- PodMetaAndSpec, with its ResourceMeta
pub record PodMetaAndSpec : Type 0 where
  pub name : Text
  pub namespace : Text
  pub labels : GoMap
  pub annotations : GoMap
  pub image : Text
  pub container_name : Text
  pub envs : List (Text × Text)
  pub ports : List (Text × ℤ)
  pub main_container_command : List Text
  pub main_container_args : List Text
  pub main_container_volume_mounts : List VolumeMount
  pub init_containers : List Container
  pub additional_containers : List Container
  pub volumes : List Volume
  pub template_annotations : GoMap

abbrev pub control_label : GoMap
control_label = some ((control_by, kubernetes_toolkit) ∷ [])

unfoldable pub service_port : ℕ × ℕ → ServicePort
service_port (src_port, target) = record {
  name = codes "kt-" ++ format_nat src_port;
  port = src_port;
  target_port = port_number target;
}

-- createService
unfoldable pub create_service_manifest : ℤ → SvcMetaAndSpec → Service
unfolding service_port
create_service_manifest time m = record {
  name = m.name;
  namespace = m.namespace;
  labels = merge_map m.labels control_label;
  annotations = map_put m.annotations kt_last_heart_beat (get_timestamp time);
  selector = m.selectors;
  ports = map service_port m.ports;
  cluster_ip = [];
  external = m.external;
}

-- The annotations that createDeployment and createPod add.
unfoldable pub counted_annotations : ℤ → GoMap → GoMap
counted_annotations time annotations =
    map_put (map_put annotations kt_ref_count (codes "1")) kt_last_heart_beat (get_timestamp time)

-- One mount of appendUniqueVolumeMounts: it takes the place of its equal, or comes last.
unfoldable pub put_mount : VolumeMount → List VolumeMount → List VolumeMount
put_mount mount [] = mount ∷ []
put_mount mount (current ∷ result) =
    let rest = put_mount mount result in
    if text_eq current.name mount.name && text_eq current.mount_path mount.mount_path
    then mount ∷ result
    else current ∷ rest

-- appendUniqueVolumeMounts
unfoldable pub append_unique_volume_mounts : List VolumeMount → List VolumeMount → List VolumeMount
unfolding put_mount
append_unique_volume_mounts base [] = base
append_unique_volume_mounts base (mount ∷ mounts) =
    append_unique_volume_mounts (put_mount mount base) mounts

-- One volume of appendUniqueVolumes.
unfoldable pub put_volume : Volume → List Volume → List Volume
put_volume volume [] = volume ∷ []
put_volume volume (current ∷ result) =
    let rest = put_volume volume result in
    if text_eq current.name volume.name then volume ∷ result else current ∷ rest

-- appendUniqueVolumes
unfoldable pub append_unique_volumes : List Volume → List Volume → List Volume
unfolding put_volume
append_unique_volumes base [] = base
append_unique_volumes base (volume ∷ volumes) =
    append_unique_volumes (put_volume volume base) volumes

-- `int32(port)`
unfoldable pub to_int32 : ℤ → ℤ
to_int32 (pos n) = let r = n % 2 ^ 32 in if ltb r (2 ^ 31) then pos r else negsuc (2 ^ 32 - 1 - r)
to_int32 (negsuc n) =
    let r = n % 2 ^ 32 in if ltb r (2 ^ 31) then negsuc r else pos (2 ^ 32 - 1 - r)

unfoldable pub port_entry : Text × ℤ → Text × ℤ
unfolding to_int32
port_entry (name, port) = (name, to_int32 port)

-- createContainer, without the quota and the security context
unfoldable pub create_container :
    Options → Text → Text → List Text → List (Text × Text) → List (Text × ℤ) → Container
unfolding port_entry
create_container o name image args envs ports = record {
  name = name;
  image = image;
  always_pull = o.force_update;
  command = [];
  args = args;
  envs = envs;
  ports = map port_entry ports;
  volume_mounts = [];
}

abbrev or_given : List Text → List Text → List Text
or_given [] base = base
or_given (t ∷ ts) base = t ∷ ts

-- createPodSpec; the secret and the node selector are set by createPod.
unfoldable pub create_pod_spec : Options → PodMetaAndSpec → PodSpec
unfolding create_container append_unique_volume_mounts
create_pod_spec o m =
    let main = create_container o m.container_name m.image [] m.envs m.ports in
    record {
      service_account = o.service_account;
      containers =
          record main {
            command = or_given m.main_container_command main.command;
            args = or_given m.main_container_args main.args;
            volume_mounts =
                append_unique_volume_mounts main.volume_mounts m.main_container_volume_mounts;
          }
          ∷ m.additional_containers;
      init_containers = m.init_containers;
      volumes = m.volumes;
      image_pull_secret = [];
      node_selector = none;
    }

-- createPod
unfoldable pub create_pod_manifest : Options → ℤ → PodMetaAndSpec → PodManifest
unfolding create_pod_spec counted_annotations is_set
create_pod_manifest o time m = record {
  name = m.name;
  namespace = m.namespace;
  labels = merge_map m.labels control_label;
  annotations = merge_map (counted_annotations time m.annotations) m.template_annotations;
  spec = record (create_pod_spec o m) {
    image_pull_secret = o.image_pull_secret;
    node_selector = if is_set o.node_selector then string2map o.node_selector else none;
  };
}

-- createDeployment: it selects by the labels without the mark of the program.
unfoldable pub create_deployment_manifest : Options → ℤ → PodMetaAndSpec → DeploymentManifest
unfolding create_pod_spec counted_annotations
create_deployment_manifest o time m =
    let annotations = merge_map (counted_annotations time m.annotations) m.template_annotations in
    let origin_labels : GoMap = some (put_all (entries m.labels) []) in
    record {
      name = m.name;
      namespace = m.namespace;
      labels = merge_map m.labels control_label;
      annotations = annotations;
      match_labels = origin_labels;
      template_labels = origin_labels;
      template_annotations = annotations;
      spec = create_pod_spec o m;
    }

-- getSSHVolume
unfoldable pub get_ssh_volume : Text → Volume
get_ssh_volume volume = record {
  name = codes "ssh-public-key";
  source = of_config_map volume ssh_auth_key (codes "authorized_keys");
}

abbrev pub ssh_mount : VolumeMount
ssh_mount = record { name = codes "ssh-public-key"; mount_path = codes "/root/" ++ ssh_auth_key }

-- `&podSpec.Containers[0]` panics where there is no container.
unfoldable pub mount_in_first : List Container → Reply (List Container)
unfolding append_unique_volume_mounts
mount_in_first [] = panic
mount_in_first (main ∷ others) = ok (
    record main { volume_mounts = append_unique_volume_mounts main.volume_mounts (ssh_mount ∷ []) }
    ∷ others)

-- The pod with the changed containers.
unfoldable pub with_ssh_volume : Text → PodSpec → Reply (List Container) → Reply PodSpec
unfolding append_unique_volumes get_ssh_volume
with_ssh_volume sshcm spec (ok containers) = ok (record spec {
  containers = containers;
  volumes = append_unique_volumes spec.volumes (get_ssh_volume sshcm ∷ []);
})
with_ssh_volume sshcm spec (err e) = err e
with_ssh_volume sshcm spec panic = panic

-- appendSshVolume of shadow_pod.go
unfoldable pub append_ssh_volume : Text → PodSpec → Reply PodSpec
unfolding mount_in_first with_ssh_volume
append_ssh_volume sshcm spec = with_ssh_volume sshcm spec (mount_in_first spec.containers)

-- filterSidecarAnnotations
unfoldable pub filter_sidecar : List (Text × Text) → List (Text × Text)
filter_sidecar [] = []
filter_sidecar ((key, value) ∷ m) =
    let rest = filter_sidecar m in
    if has_prefix key (codes "sidecar.istio.io/") then (key, value) ∷ rest else rest

abbrev keystore_mount : VolumeMount
keystore_mount = record {
  name = codes "kt-shadow-keystore";
  mount_path = codes "/var/kt-connect/keystore";
}

abbrev keystore_volume : Volume
keystore_volume = record { name = codes "kt-shadow-keystore"; source = empty_dir }

-- enableExplicitLaneShadowTemplate
unfoldable pub enable_explicit_lane_shadow_template : PodMetaAndSpec → PodMetaAndSpec
unfolding filter_sidecar append_unique_volume_mounts append_unique_volumes
enable_explicit_lane_shadow_template m = record m {
  template_annotations =
      merge_map m.template_annotations (some (filter_sidecar (entries m.annotations)));
  main_container_volume_mounts =
      append_unique_volume_mounts m.main_container_volume_mounts (keystore_mount ∷ ssh_mount ∷ []);
  volumes = append_unique_volumes m.volumes (keystore_volume ∷ []);
}
