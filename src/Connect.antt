-- ===== src/Connect.antt =====
-- pkg/kt/command/connect/common.go: the names, labels and annotations of a connect shadow and the
-- hosts of the services; and buildLaneWorkloadSelector of pkg/kt/service/cluster/lane.go.
pub mod Lane
pub mod Servers
mod Tests
use kt_connect.Common.{
  ℕ, zero, suc, Bool, true, false, not, ◌&&◌, ◌||◌, Option, none, some, List, [], ◌∷◌, ◌++◌, ◌==◌,
  leb, if◌then◌else◌, drop, ◌+◌, Text, text_eq, codes,
}
use kt_connect.Common.Int.{ℤ}
use kt_connect.Common.Dict.{Dict, lookup, put}
use kt_connect.Common.Exec.{Reply, ok, err, panic, failed, ◌>>=◌, ◌>>◌, done, raise, ask, reply}
use kt_connect.Strings.{split, count, contains_byte, index_byte, format_nat, has_prefix, atoi}
use kt_connect.Collection.{GoMap, entries, read, put_all, string2map}
use kt_connect.Cluster.{
  Api, Service, Pod, kt_role, kt_lane, kt_session, kt_target, role_connect_shadow,
}
use kt_connect.General.Lock.{get_timestamp}
use kt_connect.General.Resource.{is_set}
use kt_connect.Session.{Store, Options, Machine, on_cluster, change_store}
use kt_connect.Shadow.Create.{get_or_create_shadow}
use kt_connect.Shadow.Inputs.{assign_all}

-- The keys that buildLaneWorkloadSelector keeps.
abbrev lane_keys : List Text
lane_keys = kt_role ∷ kt_lane ∷ kt_session ∷ kt_target ∷ codes "sidecar.istio.io/inject" ∷ []

-- The loop of buildLaneWorkloadSelector.
unfoldable pub keep_set : List Text → GoMap → Dict Text → Dict Text
unfolding is_set
keep_set [] labels selector = selector
keep_set (key ∷ keys) labels selector =
    keep_set keys labels
      (if is_set (read labels key) then put key (read labels key) selector else selector)

-- buildLaneWorkloadSelector
unfoldable pub build_lane_workload_selector : GoMap → GoMap
unfolding keep_set
build_lane_workload_selector labels = some (keep_set lane_keys labels [])

-- buildShadowAnnotations
unfoldable pub build_shadow_annotations : Text → GoMap
unfolding is_set
build_shadow_annotations lane =
    if is_set lane
    then some (
        (codes "sidecar.istio.io/inject", codes "true")
        ∷ (codes "sidecar.istio.io/proxyCPU", codes "1000m")
        ∷ (codes "sidecar.istio.io/proxyCPULimit", codes "1500m")
        ∷ (codes "sidecar.istio.io/proxyMemory", codes "200Mi")
        ∷ (codes "sidecar.istio.io/proxyMemoryLimit", codes "500Mi")
        ∷ [])
    else some []

-- getEnvs; `local_domains` are those of the machine, `debug` is the option.
unfoldable pub get_envs : Options → Text → Bool → Dict Text
unfolding is_set
get_envs o local_domains debug =
    let domains : Dict Text =
      if is_set local_domains then (codes "KT_LOCAL_DOMAIN", local_domains) ∷ [] else [] in
    let protocol =
      put (codes "KT_DNS_PROTOCOL")
        (if has_prefix o.dns_mode (codes "localDNS") then codes "tcp" else codes "udp") domains in
    let level =
      put (codes "KT_LOG_LEVEL") (if debug then codes "debug" else codes "info") protocol in
    if is_set o.connect_lane then put (codes "KT_LANE") o.connect_lane level else level

-- The address of the first pod that has one, and the name of this pod, in getServiceHosts.
unfoldable pub first_pod_ip : List Pod → Text × List Text
unfolding is_set
first_pod_ip [] = ([], [])
first_pod_ip (p ∷ pods) =
    let rest = first_pod_ip pods in if is_set p.pod_ip then (p.pod_ip, p.name ∷ []) else rest

-- The names of one service, in getServiceHosts.
unfoldable pub put_hosts : Options → Bool → Text → Text → Text → Dict Text → Dict Text
put_hosts o short_domain_only namespace name ip hosts =
    if short_domain_only
    then put name ip hosts
    else put (name ++ (b'.' ∷ (namespace ++ (codes ".svc." ++ o.cluster_domain)))) ip (
        put (name ++ (b'.' ∷ namespace)) ip
          (if text_eq namespace o.namespace then put name ip hosts else hosts))

module _ (c : Api) (l : Machine c.World) (o : Options) where
  open c use {World, all_services, get_pods_by_label, random_string, get_time}

  -- One service of getServiceHosts: `none` for a headless one without pods.
  unfoldable pub host_ip : Text → Service → World → Option (Text × List Text)
  unfolding first_pod_ip is_set
  host_ip namespace svc w =
      if not (is_set svc.cluster_ip) || text_eq svc.cluster_ip (codes "None")
      then elim (get_pods_by_label svc.selector namespace w) [
        | ok (p ∷ pods) ↦ some (first_pod_ip (p ∷ pods))
        | _ ↦ none
      ]
      else some (svc.cluster_ip, [])

  unfoldable pub hosts_loop :
      Bool → Text → World → List Service → Dict Text × List Text → Dict Text × List Text
  unfolding host_ip put_hosts
  hosts_loop short namespace w [] out = out
  hosts_loop short namespace w (svc ∷ svcs) (hosts, pod_names) = elim (host_ip namespace svc w) [
    | none ↦ hosts_loop short namespace w svcs (hosts, pod_names)
    | some (ip, names) ↦
        hosts_loop short namespace w svcs
          (put_hosts o short namespace svc.name ip hosts, pod_names ++ names)
  ]

  -- getServiceHosts
  unfoldable pub get_service_hosts : Text → Bool → World → Dict Text × List Text
  unfolding hosts_loop
  get_service_hosts namespace short w = elim (all_services namespace w) [
    | ok svcs ↦ hosts_loop short namespace w svcs ([], [])
    | _ ↦ ([], [])
  ]

  -- The loop of dumpToHost, without its watches.
  unfoldable pub gather_hosts : List Text → World → Dict Text → Dict Text
  unfolding get_service_hosts
  gather_hosts [] w hosts = hosts
  gather_hosts (namespace ∷ namespaces) w hosts =
      gather_hosts namespaces w (put_all (get_service_hosts namespace false w).0 hosts)

  -- The hosts that dumpToHost dumps.
  unfoldable pub hosts_to_dump : Text → World → Dict Text
  unfolding gather_hosts is_set
  hosts_to_dump target_namespaces w =
      gather_hosts
        (if is_set target_namespaces then split target_namespaces b',' else o.namespace ∷ []) w []

  -- The session of the store, which is made up if there is none. The random texts are in lower case.
  unfoldable pub ensure_session : Store × World → Reply Text × (Store × World)
  unfolding is_set
  ensure_session (s, w) =
      if is_set s.session
      then done s.session (s, w)
      else (do
        random ← on_cluster (random_string 5)
        let session = b's' ∷ (get_timestamp (get_time w) ++ (b'-' ∷ random))
        change_store (λ t. record t { session = session })
        done session)
          (s, w)

  -- buildLaneShadowName
  unfoldable pub build_lane_shadow_name : Store × World → Reply Text × (Store × World)
  unfolding ensure_session
  build_lane_shadow_name u =
      (do
        session ← ensure_session
        done (
            codes "kt-connect-shadow-"
            ++ (o.namespace ++ (b'-' ∷ (o.connect_lane ++ (b'-' ∷ session))))))
        u

  -- getLabels: the labels of a lane
  unfoldable pub lane_labelled : Store × World → Reply (Dict Text) × (Store × World)
  unfolding ensure_session is_set
  lane_labelled u =
      if is_set o.connect_lane
      then (do
        session ← ensure_session
        done (
            (kt_role, role_connect_shadow)
            ∷ (kt_lane, o.connect_lane)
            ∷ (codes "sidecar.istio.io/inject", codes "true")
            ∷ (kt_session, session)
            ∷ []))
          u
      else done ((kt_role, role_connect_shadow) ∷ []) u

  -- getLabels
  unfoldable pub get_labels : Store × World → Reply GoMap × (Store × World)
  unfolding lane_labelled
  get_labels u =
      (do
        labels ← lane_labelled
        if o.use_shadow_deployment
            then (do
              target ← on_cluster (random_string 20)
              done (some (put kt_target target labels)))
            else done (some labels))
        u

  -- The name of the shadow, in getOrCreateShadow.
  unfoldable pub shadow_name : Store × World → Reply Text × (Store × World)
  unfolding build_lane_shadow_name is_set
  shadow_name u =
      (do
        random ← on_cluster (random_string 5)
        name ←
            (if is_set o.connect_lane
              then build_lane_shadow_name
              else done (codes "kt-connect-shadow-" ++ random))
        done (if o.share_shadow then codes "kt-connect-shadow-daemon" else name))
        u

  module _ (local_domains : Text) (debug : Bool)
      (apply_lane_envoy_filter : Text
        → Text
        → GoMap
        → Text
        → World
        → Reply (Unit {0}) × World) where
    -- The filter of a lane, in getOrCreateShadow.
    unfoldable pub filter_lane : GoMap → Store × World → Reply (Unit {0}) × (Store × World)
    unfolding is_set
    filter_lane labels (s, w) =
        if is_set o.connect_lane
        then (do
          on_cluster (
              apply_lane_envoy_filter (codes "kt-lane-" ++ s.session) o.namespace labels
                o.connect_lane)
          change_store (λ t. record t { lane_envoy_filter = codes "kt-lane-" ++ s.session }))
            (s, w)
        else done tt (s, w)

    -- getOrCreateShadow; GetOrCreateShadow writes the labels of WithLabel to the map it is given.
    unfoldable pub connect_shadow : Store × World → Reply (Text × (Text × Text)) × (Store × World)
    unfolding shadow_name build_shadow_annotations get_labels get_envs filter_lane
    connect_shadow u =
        (do
          name ← shadow_name
          labels ← get_labels
          shadow ←
              get_or_create_shadow c l o name labels (build_shadow_annotations o.connect_lane)
                (get_envs o local_domains debug) [] []
          labelled ← reply (assign_all (entries (string2map o.with_label)) labels)
          filter_lane labelled
          done shadow)
          u
