-- ===== src/Mesh/Auto/Leak.antt =====
-- A mesh whose command in the router pod fails: createRouter of pkg/kt/command/mesh/auto.go and
-- CleanupWorkspace of pkg/kt/command/general/teardown.go.
use kt_connect.Common.{
  ℕ, suc, ◌≡◌, refl, ◌∙◌, false, Bool-cases, inl, inr, List, [], arith, Text, text_eq, codes,
}
use kt_connect.Common.Dict.{Dict}
use kt_connect.Common.Exec.{Error, ok, err}
use kt_connect.Cluster.{Api, Pod, IsPodStore, IsPodWritable, default_container}
use kt_connect.General.Resource.{is_set}
use kt_connect.General.LaneSession.{
  should_clean_lane_session_resources, should_clean_lane_envoy_filters,
}
use kt_connect.General.Workspace.{
  clean_local_files, recover_component, recover_auto_mesh_route, clean_service, clean_shadows,
  clean_shadow_pod_and_config_map, cleanup_workspace,
}
use kt_connect.Refs.Release.{IsReleasedAfter, increased, decrease_pod_ref-IsReleasedAfter}
use kt_connect.Session.{Store, Options, Machine}
use kt_connect.Mesh.Auto.{create_router}
use kt_connect.Mesh.Auto.Router.{IsRouter, adds, not_joined}

-- The commands in a pod fail, and neither they nor the removal of a file or a service touches the pod.
pub record IsIdle (c : Api) (l : Machine c.World) (name ns : Text) : Type 0 where
  pub commands :
      (cmd : List Text) (w : c.World)
      → (e : Error) × ((v : c.World) × ((c.exec_in_pod default_container name ns cmd w ≡ (err e, v))
            × (c.get_pod name ns v ≡ c.get_pod name ns w)))
  pub files :
      (file : Text) (w : c.World)
      → (v : c.World) × ((l.remove_file file w ≡ (ok tt, v))
          × (c.get_pod name ns v ≡ c.get_pod name ns w))
  pub services :
      (svc_name : Text) (w : c.World)
      → (v : c.World) × ((c.remove_service svc_name ns w ≡ (ok tt, v))
          × (c.get_pod name ns v ≡ c.get_pod name ns w))

-- The store of a mesh that has neither a router nor a shadow yet.
pub record IsMeshRun (s : Store) : Type 0 where
  pub meshes : s.component ≡ codes "mesh"
  pub no_router : s.router ≡ []
  pub no_shadow : s.shadow ≡ []

module _ (c : Api) (l : Machine c.World) (o : Options) (s : Store) (run : IsMeshRun s) where
  files_cleaned :
      (v v' : c.World)
      → l.remove_file (l.pid_file (codes "mesh")) v ≡ (ok tt, v')
      → clean_local_files c l o s v ≡ (ok tt, v')
  unfolding clean_local_files is_set
  files_cleaned v v' removed = rw (run.meshes, removed, run.no_shadow) refl

  route_kept : (v : c.World) → recover_component c l o s v ≡ (ok tt, v)
  unfolding recover_component recover_auto_mesh_route is_set text_eq
  route_kept v = rw (run.meshes, run.no_router) refl

  shadow_kept : (v : c.World) → clean_shadow_pod_and_config_map c l o s v ≡ (ok tt, v)
  unfolding clean_shadow_pod_and_config_map should_clean_lane_session_resources
      should_clean_lane_envoy_filters clean_shadows is_set text_eq
  shadow_kept v = rw (run.meshes, run.no_shadow) refl

  no_connect : text_eq s.component (codes "connect") ≡ false
  unfolding text_eq
  no_connect = rw run.meshes refl

  -- The teardown of such a run removes its files and its service, and nothing else.
  workspace_cleaned :
      (v v' z : c.World)
      → l.remove_file (l.pid_file (codes "mesh")) v ≡ (ok tt, v')
      → clean_service c l o s v' ≡ (ok tt, z)
      → cleanup_workspace c l o s v ≡ (ok tt, z)
  unfolding cleanup_workspace
  workspace_cleaned v v' z removed served =
      rw (files_cleaned v v' removed, no_connect, route_kept v', served, shadow_kept z) refl

  service_cleaned :
      (name : Text)
      → IsIdle c l name o.namespace
      → (v : c.World)
      → (z : c.World) × ((clean_service c l o s v ≡ (ok tt, z))
          × (c.get_pod name o.namespace z ≡ c.get_pod name o.namespace v))
  unfolding clean_service
  service_cleaned name idle v = elim (Bool-cases (is_set s.service)) [
    | inl named ↦
        let (z, (removed, kept)) = idle.services s.service v in
        (z, (rw (named, removed) refl, kept))
    | inr unnamed ↦ (v, (rw unnamed refl, refl))
  ]

-- A mesh finds a router pod that takes k more teardowns until the next one is to remove it, and the
-- command in this pod fails: createRouter then returns the error with the store unchanged, the
-- teardown of the whole run returns, and behind it the router pod takes k + 1 more teardowns, so the
-- user that never joined stays counted. The run has no shadow yet, updates of pods are accepted, and
-- the removals of files and services return and leave the pod.
pub create_router_leak :
    (c : Api) (l : Machine c.World) (o : Options) (s : Store) (name svc_name version_mark : Text)
    (ports : List (ℕ × ℕ)) (labels : List (Text × Text)) (w u : c.World) (k : ℕ) (pod beaten : Pod)
    (d : Dict Text)
    → IsPodStore c
    → IsPodWritable c
    → IsRouter c name o.namespace k w u pod beaten d
    → IsIdle c l name o.namespace
    → IsMeshRun s
    → IsReleasedAfter c k name o.namespace w
      × ((e : Error) × ((v : c.World) × ((z : c.World) × ((create_router c l o name svc_name ports
                    labels version_mark
                    (s, w)
                  ≡ (err e, (s, v)))
                × ((cleanup_workspace c l o s v ≡ (ok tt, z))
                    × IsReleasedAfter c (suc k) name o.namespace z)))))
create_router_leak c l o s name svc_name version_mark ports labels w u k pod beaten d st accepts h
      idle run =
    let (a, (q, (more, (there, counted)))) =
      increased c st accepts k name o.namespace u beaten d h.room h.found_again h.kept
        h.counted_again in
    let (e, (v, (ran, kept))) = idle.commands (adds version_mark) a in
    let (v', (removed, kept')) = idle.files (l.pid_file (codes "mesh")) v in
    let (z, (served, kept'')) = service_cleaned c l o s run name idle v' in
    (
      decrease_pod_ref-IsReleasedAfter c st accepts k name o.namespace w pod (omega (arith, h.room))
          h.found h.counted,
      (
        e,
        (
          v,
          (
            z,
            (
              not_joined c l o s name svc_name version_mark ports labels w u a v e k pod beaten d h
                  more ran,
              (
                workspace_cleaned c l o s run v v' z removed served,
                decrease_pod_ref-IsReleasedAfter c st accepts (suc k) name o.namespace z q h.room
                    (kept'' ∙ kept' ∙ kept ∙ there) counted,
              ),
            ),
          ),
        ),
      ),
    )
