-- ===== src/Shadow/Create.antt =====
-- pkg/kt/service/cluster/shadow_pod.go, extra_pod.go, configmap.go and CreateService of service.go:
-- the creation of pods and the reuse of a shared shadow.
use kt_connect.Common.{
  ℕ, Bool, ◌&&◌, ◌||◌, Option, none, some, List, [], ◌∷◌, if◌then◌else◌, Text, text_eq, codes,
}
use kt_connect.Common.Int.{ℤ}
use kt_connect.Common.Dict.{Dict}
use kt_connect.Common.Exec.{
  Reply, ok, err, panic, not_found, failed, ◌>>=◌, ◌>>◌, done, raise, ask, reply, attempt,
}
use kt_connect.Strings.{split}
use kt_connect.Collection.{GoMap, entries, read, merge_map, string2map}
use kt_connect.Cluster.{
  Api, Service, Pod, Deployment, ConfigMap, PodManifest, DeploymentManifest, control_by, kt_lane,
  kt_session, kt_user, ssh_auth_private_key,
}
use kt_connect.General.Lock.{drop_key}
use kt_connect.General.Resource.{is_set}
use kt_connect.Refs.{assign, increase_pod_ref, increase_deployment_ref}
use kt_connect.Session.{Store, Options, Keys, Machine, on_cluster, change_store}
use kt_connect.Shadow.Template.{
  SvcMetaAndSpec, PodMetaAndSpec, control_label, create_service_manifest, create_pod_manifest,
  create_deployment_manifest, append_ssh_volume, enable_explicit_lane_shadow_template,
}
use kt_connect.Shadow.Wait.{wait_pods_ready_in, wait_pod_ready_in, wait_pod_terminated}
use kt_connect.Shadow.Inputs.{
  assign_all, exposed_ports, only_pod, found_pod, remember_lane, keys_of, ssh_config_map,
  router_ports, extra_pod, with_command,
}

module _ (c : Api) (l : Machine c.World) (o : Options) where
  open c use {
    World, get_pod, get_pods_by_label, create_pod, get_deployment, create_deployment,
    get_config_map, create_config_map, create_service, get_time,
  }

  -- CreateService
  unfoldable pub create_service_of : SvcMetaAndSpec → World → Reply Service × World
  unfolding create_service_manifest
  create_service_of m w =
      (do
        l.setup_heart_beat (codes "service") m.name m.namespace
        λ v. create_service (create_service_manifest (get_time v) m) v)
        w

  -- createConfigMapWithSshKey
  unfoldable pub create_config_map_with_ssh_key :
      GoMap → Text → Text → Keys → World → Reply ConfigMap × World
  unfolding ssh_config_map
  create_config_map_with_ssh_key labels sshcm namespace generator w =
      (do
        l.setup_heart_beat (codes "configmap") sshcm namespace
        time ← ask (λ v. ok (get_time v))
        create_config_map (ssh_config_map time labels sshcm namespace generator))
        w

  -- createShadowPod
  unfoldable pub create_shadow_pod : PodMetaAndSpec → Text → World → Reply (Unit {0}) × World
  unfolding create_pod_manifest append_ssh_volume
  create_shadow_pod m sshcm w =
      let pod : PodManifest = create_pod_manifest o (get_time w) m in
      (do
        spec ← reply (append_ssh_volume sshcm pod.spec)
        create_pod (record pod { spec = spec })
        l.setup_heart_beat (codes "pod") m.name m.namespace)
        w

  -- createShadowDeployment
  unfoldable pub create_shadow_deployment : PodMetaAndSpec → Text → World → Reply (Unit {0}) × World
  unfolding create_deployment_manifest append_ssh_volume
  create_shadow_deployment m sshcm w =
      let deployment : DeploymentManifest = create_deployment_manifest o (get_time w) m in
      (do
        spec ← reply (append_ssh_volume sshcm deployment.spec)
        create_deployment (record deployment { spec = spec })
        l.setup_heart_beat (codes "deployment") m.name m.namespace)
        w

  -- `&pods[0]`
  unfoldable pub first_of : List Pod → Reply Pod
  first_of [] = panic
  first_of (pod ∷ _) = ok pod

  -- createAndGetPod
  unfoldable pub create_and_get_pod : PodMetaAndSpec → Text → World → Reply Pod × World
  unfolding create_shadow_pod create_shadow_deployment first_of drop_key
  create_and_get_pod m sshcm w =
      if o.use_shadow_deployment
      then (do
        create_shadow_deployment m sshcm
        pods ←
            wait_pods_ready_in c o.pod_creation_timeout
              (drop_key control_by (merge_map m.labels control_label)) m.namespace
        reply (first_of pods))
          w
      else (do
        create_shadow_pod m sshcm
        wait_pod_ready_in c o.pod_creation_timeout m.name m.namespace)
          w

  -- createShadow: the address, the name and the key file of the pod
  unfoldable pub create_shadow :
      PodMetaAndSpec → Text → Text → World → Reply (Text × (Text × Text)) × World
  unfolding create_config_map_with_ssh_key create_and_get_pod
  create_shadow m sshcm path w =
      (do
        generator ← l.generate path
        create_config_map_with_ssh_key m.labels sshcm m.namespace generator
        pod ← create_and_get_pod m sshcm
        done (pod.pod_ip, (pod.name, generator.private_key_path)))
        w

  -- The pod of a shared deployment, in tryGetExistingShadows.
  unfoldable pub pod_of_deployment : Text → Reply Deployment → World → Reply (Option Pod) × World
  unfolding only_pod
  pod_of_deployment namespace (ok app) w =
      (only_pod (get_pods_by_label app.match_labels namespace w), w)
  pod_of_deployment namespace (err e) w = done none w
  pod_of_deployment namespace panic w = (panic, w)

  -- tryGetExistingShadows: the pod
  unfoldable pub existing_pod : Text → Text → World → Reply (Option Pod) × World
  unfolding pod_of_deployment found_pod
  existing_pod name namespace w =
      if o.use_shadow_deployment
      then (attempt (ask (get_deployment name namespace)) >>= pod_of_deployment namespace) w
      else (found_pod (get_pod name namespace w), w)

  -- What the wait for the end of a pod without its config map comes to.
  unfoldable pub after_end : Reply Pod → World → Reply (Option ConfigMap) × World
  after_end (ok pod) w = done none w
  after_end (err not_found) w = done none w
  after_end (err failed) w = raise failed w
  after_end panic w = (panic, w)

  -- tryGetExistingShadows: the config map of the keys
  unfoldable pub existing_keys :
      Text → Text → Pod → Reply ConfigMap → World → Reply (Option ConfigMap) × World
  unfolding after_end
  existing_keys name namespace pod (ok cm) w = done (some cm) w
  existing_keys name namespace pod (err not_found) w =
      if pod.terminating
      then (attempt (wait_pod_terminated c name namespace) >>= after_end) w
      else raise not_found w
  existing_keys name namespace pod (err failed) w = raise failed w
  existing_keys name namespace pod panic w = (panic, w)

  -- tryGetExistingShadows: the pod and its keys found
  unfoldable pub reuse :
      Text → Text → Text → Pod → Option ConfigMap → World → Reply (Option (Pod × Keys)) × World
  unfolding keys_of
  reuse name namespace path pod none w = done none w
  reuse name namespace path pod (some cm) w =
      (do
        l.write_private_key path (read cm.content ssh_auth_private_key)
        (if o.use_shadow_deployment
            then increase_deployment_ref c name namespace
            else increase_pod_ref c name namespace)
        done (some (pod, keys_of cm path)))
        w

  unfoldable pub with_pod :
      Text → Text → Text → Text → Option Pod → World → Reply (Option (Pod × Keys)) × World
  unfolding existing_keys reuse
  with_pod name namespace sshcm path none w = done none w
  with_pod name namespace sshcm path (some pod) w =
      (do
        found ← attempt (ask (get_config_map sshcm namespace))
        keys ← existing_keys name namespace pod found
        reuse name namespace path pod keys)
        w

  -- tryGetExistingShadows
  unfoldable pub try_get_existing_shadows :
      Text → Text → Text → Text → World → Reply (Option (Pod × Keys)) × World
  unfolding existing_pod with_pod
  try_get_existing_shadows name namespace sshcm path w =
      (existing_pod name namespace >>= with_pod name namespace sshcm path) w

  -- The template of a shadow, in GetOrCreateShadow.
  unfoldable pub shadow_template :
      Text → GoMap → GoMap → List (Text × Text) → Dict ℤ → PodMetaAndSpec
  unfolding enable_explicit_lane_shadow_template is_set
  shadow_template name labels annotations envs ports =
      let m : PodMetaAndSpec = record (extra_pod o name labels annotations o.image ports) {
        container_name = codes "kt-connect-shadow";
        envs = envs;
      } in
      if is_set (read labels kt_lane) && is_set (read labels kt_session)
      then enable_explicit_lane_shadow_template m
      else m

  unfoldable pub reused_or :
      (World → Reply (Text × (Text × Text)) × World)
      → Option (Pod × Keys)
      → World
      → Reply (Text × (Text × Text)) × World
  reused_or create none w = create w
  reused_or create (some (pod, keys)) w = done (pod.pod_ip, (pod.name, keys.private_key_path)) w

  unfoldable pub is_shared : Store → GoMap → Bool
  unfolding is_set
  is_shared s labels =
      text_eq s.component (codes "connect") && (o.share_shadow || is_set (read labels kt_session))

  -- GetOrCreateShadow, with the labels and annotations complete.
  unfoldable pub shadow_with :
      Text
      → GoMap
      → GoMap
      → List (Text × Text)
      → Dict ℤ
      → Store
      → World
      → Reply (Text × (Text × Text)) × World
  unfolding shadow_template reused_or is_shared create_shadow try_get_existing_shadows
  shadow_with name labels annotations envs ports s w =
      let path = l.private_key_path name in
      let create = create_shadow (shadow_template name labels annotations envs ports) name path in
      if is_shared s labels
      then (try_get_existing_shadows name o.namespace name path >>= reused_or create) w
      else create w

  unfoldable pub ports_of : List (ℕ × Text) → Text → Dict ℤ
  unfolding exposed_ports is_set
  ports_of dict expose_ports =
      if is_set expose_ports then exposed_ports dict (split expose_ports b',') [] else []

  -- GetOrCreateShadow
  unfoldable pub get_or_create_shadow :
      Text
      → GoMap
      → GoMap
      → List (Text × Text)
      → Text
      → List (ℕ × Text)
      → Store × World
      → Reply (Text × (Text × Text)) × (Store × World)
  unfolding assign_all remember_lane shadow_with ports_of
  get_or_create_shadow name labels annotations envs expose_ports port_name_dict u =
      (do
        change_store (λ s. record s { shadow = name })
        labelled ← reply (assign_all (entries (string2map o.with_label)) labels)
        annotated ← reply (assign_all (entries (string2map o.with_annotation)) annotations)
        change_store (remember_lane labelled)
        owned ← reply (assign annotated kt_user l.local_user_name)
        λ v.
            on_cluster
              (shadow_with name labelled owned envs (ports_of port_name_dict expose_ports) v.0) v)
        u

  -- CreateRouterPod
  unfoldable pub create_router_pod : Text → GoMap → GoMap → List (ℕ × ℕ) → World → Reply Pod × World
  unfolding router_ports create_pod_manifest
  create_router_pod name labels annotations ports w =
      (do
        create_pod (
            create_pod_manifest o (get_time w)
              (extra_pod o name labels annotations o.router_image (router_ports ports [])))
        l.setup_heart_beat (codes "pod") name o.namespace
        wait_pod_ready_in c o.pod_creation_timeout name o.namespace)
        w

  -- CreateRectifierPod
  unfoldable pub create_rectifier_pod : Text → World → Reply Pod × World
  unfolding with_command create_pod_manifest
  create_rectifier_pod name w =
      let pod : PodManifest =
        create_pod_manifest o (get_time w) (extra_pod o name (some []) (some []) o.image []) in
      (do
        create_pod (record pod {
          spec = record pod.spec {
            containers =
                with_command (codes "tail" ∷ codes "-f" ∷ codes "/dev/null" ∷ [])
                  pod.spec.containers;
          };
        })
        wait_pod_ready_in c o.pod_creation_timeout name o.namespace)
        w
