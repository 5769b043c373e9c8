-- ===== src/General/Workspace.antt =====
-- pkg/kt/command/general/teardown.go: what the end of a run takes away. Errors are logged only.
mod Tests
pub mod Shared
use kt_connect.Common.{
  ℕ, zero, suc, ◌/◌, Bool, true, false, not, ◌&&◌, ◌||◌, Option, none, some, List, [], ◌∷◌, ◌++◌,
  if◌then◌else◌, Text, text_eq, codes,
}
use kt_connect.Common.Int.{ℤ}
use kt_connect.Common.Exec.{Reply, ok, err, panic, ◌>>=◌, ◌>>◌, done, ask, attempt, ignore}
use kt_connect.Strings.{split, has_prefix}
use kt_connect.Collection.{GoMap, read, string2map}
use kt_connect.Cluster.{
  Api, Pod, Deployment, ConfigMap, kt_config, kt_role, kt_lane, kt_session, default_container,
  router_bin, role_connect_shadow,
}
use kt_connect.General.Resource.{is_set}
use kt_connect.General.Teardown.{recover_original_service, recover_service}
use kt_connect.Refs.{eq_ℤ, scale_to, decrease_pod_ref, decrease_deployment_ref}
use kt_connect.Session.{Store, Options, Machine}
use kt_connect.General.LaneSession.{
  should_clean_lane_envoy_filters, should_clean_lane_session_resources, for_items, deferred,
  clean_lane_session_envoy_filters, clean_lane_session_resources, lane_labels,
}

-- A request that fails is logged.
abbrev pub logged : Reply Bool → Bool
logged (ok b) = b
logged _ = false

module _ (c : Api) (l : Machine c.World) (o : Options) (s : Store) where
  open c use {
    World, get_pod, get_pods_by_label, remove_pod, get_deployment, get_deployments_by_label,
    remove_deployment, get_config_maps_by_label, remove_config_map, remove_service, exec_in_pod,
    sleep,
  }

  -- waitDeploymentRecoverComplete, with the deployment of one look.
  unfoldable pub recovered_or :
      (World → Reply Bool × World) → Reply Deployment → World → Reply Bool × World
  recovered_or again (ok deployment) w =
      if eq_ℤ deployment.ready_replicas s.replicas then done true w else (sleep 5 >> again) w
  recovered_or again (err e) w = done false w
  recovered_or again panic w = (panic, w)

  -- waitDeploymentRecoverComplete: the looks that are left, and whether the deployment recovered
  unfoldable pub wait_deployment_recover_complete : ℕ → World → Reply Bool × World
  unfolding recovered_or
  wait_deployment_recover_complete zero w = done false w
  wait_deployment_recover_complete (suc left) w =
      let again = wait_deployment_recover_complete left in
      (attempt (ask (get_deployment s.origin o.namespace)) >>= recovered_or again) w

  -- recoverExchangedTarget, in a run that no signal interrupts
  unfoldable pub recover_exchanged_target : World → Reply (Unit {0}) × World
  unfolding wait_deployment_recover_complete is_set
  recover_exchanged_target w =
      if not (is_set s.origin)
      then done tt w
      else if text_eq o.exchange_mode (codes "scale")
      then (do
        ignore (scale_to c s.origin o.namespace s.replicas)
        ignore (wait_deployment_recover_complete (o.recover_wait_time / 5)))
          w
      else if text_eq o.exchange_mode (codes "selector")
      then recover_original_service c s.origin o.namespace w
      else done tt w

  -- recoverAutoMeshRoute, with the count of the router pod.
  unfoldable pub leave_router : Pod → Reply Bool → World → Reply (Unit {0}) × World
  leave_router router_pod (ok true) w =
      (do
        recover_service c
            (read (string2map (read router_pod.annotations kt_config)) (codes "service"))
            o.namespace
        ignore (remove_pod s.router o.namespace))
        w
  leave_router router_pod (ok false) w =
      ignore
        (exec_in_pod default_container s.router o.namespace
          (router_bin ∷ codes "remove" ∷ s.mesh ∷ []))
        w
  leave_router router_pod (err e) w = done tt w
  leave_router router_pod panic w = (panic, w)

  -- recoverAutoMeshRoute, with the router pod.
  unfoldable pub leave_found_router : Reply Pod → World → Reply (Unit {0}) × World
  unfolding leave_router is_set
  leave_found_router (ok router_pod) w =
      (attempt (decrease_pod_ref c s.router o.namespace) >>= leave_router router_pod) w
  leave_found_router (err e) w =
      if is_set s.origin then recover_service c s.origin o.namespace w else done tt w
  leave_found_router panic w = (panic, w)

  -- recoverAutoMeshRoute
  unfoldable pub recover_auto_mesh_route : World → Reply (Unit {0}) × World
  unfolding leave_found_router is_set
  recover_auto_mesh_route w =
      if is_set s.router
      then (attempt (ask (get_pod s.router o.namespace)) >>= leave_found_router) w
      else done tt w

  -- cleanService
  unfoldable pub clean_service : World → Reply (Unit {0}) × World
  unfolding is_set
  clean_service w =
      if is_set s.service then ignore (remove_service s.service o.namespace) w else done tt w

  unfoldable pub remove_app : Text → World → Reply (Unit {0}) × World
  remove_app shadow w =
      if o.use_shadow_deployment
      then ignore (remove_deployment shadow o.namespace) w
      else ignore (remove_pod shadow o.namespace) w

  -- cleanShadowPodAndConfigMap: the removal of one shadow
  unfoldable pub remove_shadow : Text → World → Reply (Unit {0}) × World
  unfolding remove_app
  remove_shadow shadow w = (do ignore (remove_config_map shadow o.namespace); remove_app shadow) w

  -- cleanShadowPodAndConfigMap: the count of a shared shadow. A failure is logged.
  unfoldable pub release_shared : World → Reply Bool × World
  release_shared w =
      if o.share_shadow
      then (do
        counted ← attempt (
            if o.use_shadow_deployment
            then decrease_deployment_ref c s.shadow o.namespace
            else decrease_pod_ref c s.shadow o.namespace)
        done (logged counted))
          w
      else done false w

  -- cleanShadowPodAndConfigMap: the shadows. An ephemeral container is removed with its pod.
  unfoldable pub clean_shadows : World → Reply (Unit {0}) × World
  unfolding release_shared remove_shadow for_items is_set
  clean_shadows w =
      if is_set s.shadow
      then (do
        should_del_with_shared ← release_shared
        (if should_del_with_shared || not o.share_shadow
            then for_items remove_shadow (split s.shadow b',')
            else done tt)
        if text_eq o.exchange_mode (codes "ephemeral")
            then for_items (λ shadow. ignore (remove_pod shadow o.namespace)) (split s.shadow b',')
            else done tt)
          w
      else done tt w

  -- cleanShadowPodAndConfigMap
  unfoldable pub clean_shadow_pod_and_config_map : World → Reply (Unit {0}) × World
  unfolding should_clean_lane_session_resources should_clean_lane_envoy_filters
      clean_lane_session_resources clean_shadows deferred
  clean_shadow_pod_and_config_map w =
      if should_clean_lane_session_resources s
      then clean_lane_session_resources c l o s w
      else if should_clean_lane_envoy_filters s
      then deferred (clean_lane_session_envoy_filters c l o s (lane_labels s)) (clean_shadows w)
      else clean_shadows w

  -- recoverGlobalHostsAndProxy
  unfoldable pub recover_global_hosts_and_proxy : World → Reply (Unit {0}) × World
  recover_global_hosts_and_proxy w =
      (do
        (if has_prefix o.dns_mode (codes "hosts") || has_prefix o.dns_mode (codes "localDNS")
            then l.clear_hosts
            else done tt)
        if has_prefix o.dns_mode (codes "localDNS") then ignore l.restore_route else done tt)
        w

  -- shutdownTunDevice
  unfoldable pub shutdown_tun_device : World → Reply (Unit {0}) × World
  shutdown_tun_device w = if o.disable_tun_device then done tt w else ignore l.shutdown_tun w

  -- cleanLocalFiles: the pid file and the key files
  unfoldable pub clean_local_files : World → Reply (Unit {0}) × World
  unfolding for_items is_set
  clean_local_files w =
      if is_set s.component
      then (do
        ignore (l.remove_file (l.pid_file s.component))
        if is_set s.shadow
            then for_items (λ sshcm. ignore (l.remove_file (l.private_key_path sshcm)))
                (split s.shadow b',')
            else done tt)
          w
      else done tt w

  -- CleanupWorkspace: what the kind of run asks for
  unfoldable pub recover_component : World → Reply (Unit {0}) × World
  unfolding recover_exchanged_target recover_auto_mesh_route
  recover_component w =
      if text_eq s.component (codes "exchange")
      then recover_exchanged_target w
      else if text_eq s.component (codes "mesh")
      then recover_auto_mesh_route w
      else done tt w

  -- CleanupWorkspace
  unfoldable pub cleanup_workspace : World → Reply (Unit {0}) × World
  unfolding recover_component recover_global_hosts_and_proxy shutdown_tun_device clean_service
      clean_shadow_pod_and_config_map
  cleanup_workspace w =
      (do
        clean_local_files
        (if text_eq s.component (codes "connect")
            then recover_global_hosts_and_proxy >> shutdown_tun_device
            else done tt)
        recover_component
        clean_service
        clean_shadow_pod_and_config_map)
        w
