-- ===== src/Mesh/Auto/Router.antt =====
-- The users of a router pod: createRouter of pkg/kt/command/mesh/auto.go and recoverAutoMeshRoute of
-- pkg/kt/command/general/teardown.go.
use kt_connect.Common.{
  ℕ, suc, ◌≡◌, ◌≤◌, refl, ap, ◌∙◌, true, false, some, List, [], ◌∷◌, arith, Text, codes,
}
use kt_connect.Common.Int.{pos}
use kt_connect.Common.Dict.{Dict, put}
use kt_connect.Common.Exec.{Error, ok, err}
use kt_connect.Strings.{itoa, max_int}
use kt_connect.Collection.{GoMap, read}
use kt_connect.Cluster.{
  Api, Pod, IsPodStore, IsPodWritable, kt_ref_count, kt_target, default_container, router_bin,
}
use kt_connect.General.Resource.{is_set}
use kt_connect.General.Workspace.{recover_auto_mesh_route, leave_found_router, leave_router}
use kt_connect.Refs.{count_of, increase_pod_ref, decrease_pod_ref}
use kt_connect.Refs.Release.{
  IsReleasedAfter, count_of-itoa, increased, decreased, decrease_pod_ref-IsReleasedAfter,
}
use kt_connect.Session.{Store, Options, Machine}
use kt_connect.Mesh.Auto.{create_router, settled_router, router_behind, join_router}

abbrev pub adds : Text → List Text
adds version_mark = router_bin ∷ codes "add" ∷ version_mark ∷ []

abbrev removes : Text → List Text
removes version_mark = router_bin ∷ codes "remove" ∷ version_mark ∷ []

abbrev pub router_labels : Pod → List (Text × Text) → GoMap
router_labels pod labels = some (put kt_target (read pod.labels kt_target) labels)

-- A router pod that runs and counts k + 1 users, one more of which can be counted, also behind a
-- heart beat.
pub record IsRouter (c : Api) (name ns : Text) (k : ℕ) (w u : c.World) (pod beaten : Pod)
    (d : Dict Text) : Type 0 where
  pub found : c.get_pod name ns w ≡ ok pod
  pub stays : pod.terminating ≡ false
  pub counted : read pod.annotations kt_ref_count ≡ itoa (pos (suc k))
  pub beat : c.heart_beat (codes "pod") name ns w ≡ (ok tt, u)
  pub found_again : c.get_pod name ns u ≡ ok beaten
  pub kept : beaten.annotations ≡ some d
  pub counted_again : read beaten.annotations kt_ref_count ≡ itoa (pos (suc k))
  pub room : suc (suc k) ≤ max_int

module _ (c : Api) (l : Machine c.World) (o : Options) (s : Store)
    (name svc_name version_mark : Text) (ports : List (ℕ × ℕ)) (labels : List (Text × Text)) where
  joined :
      (w u v z : c.World) (k : ℕ) (pod beaten : Pod) (d : Dict Text)
      → IsRouter c name o.namespace k w u pod beaten d
      → increase_pod_ref c name o.namespace u ≡ (ok tt, v)
      → c.exec_in_pod default_container name o.namespace (adds version_mark) v ≡ (ok tt, z)
      → create_router c l o name svc_name ports labels version_mark (s, w)
        ≡ (ok (router_labels pod labels), (record s { router = name }, z))
  unfolding create_router settled_router router_behind join_router
  joined w u v z k pod beaten d h more ran =
      let count : count_of (read pod.annotations kt_ref_count) ≡ ok (pos (suc k)) =
        ap count_of h.counted ∙ count_of-itoa (pos (suc k)) (omega (arith, h.room)) in
      rw (h.found, h.stays, h.beat, count, more, ran) refl

  pub not_joined :
      (w u v z : c.World) (e : Error) (k : ℕ) (pod beaten : Pod) (d : Dict Text)
      → IsRouter c name o.namespace k w u pod beaten d
      → increase_pod_ref c name o.namespace u ≡ (ok tt, v)
      → c.exec_in_pod default_container name o.namespace (adds version_mark) v ≡ (err e, z)
      → create_router c l o name svc_name ports labels version_mark (s, w) ≡ (err e, (s, z))
  unfolding create_router settled_router router_behind join_router
  not_joined w u v z e k pod beaten d h more ran =
      let count : count_of (read pod.annotations kt_ref_count) ≡ ok (pos (suc k)) =
        ap count_of h.counted ∙ count_of-itoa (pos (suc k)) (omega (arith, h.room)) in
      rw (h.found, h.stays, h.beat, count, more, ran) refl

module _ (c : Api) (l : Machine c.World) (o : Options) (s : Store) where
  left :
      (v z t : c.World) (pod : Pod)
      → is_set s.router ≡ true
      → c.get_pod s.router o.namespace v ≡ ok pod
      → decrease_pod_ref c s.router o.namespace v ≡ (ok false, z)
      → c.exec_in_pod default_container s.router o.namespace (removes s.mesh) z ≡ (ok tt, t)
      → recover_auto_mesh_route c l o s v ≡ (ok tt, t)
  unfolding recover_auto_mesh_route leave_found_router leave_router
  left v z t pod named found less ran = rw (named, found, less, ran) refl

-- A command that runs in a pod changes no pod.
abbrev pub IsQuiet : (c : Api) (name ns : Text) → Type 0
IsQuiet c name ns =
    (cmd : List Text) (w : c.World)
    → (v : c.World) × ((c.exec_in_pod default_container name ns cmd w ≡ (ok tt, v))
        × (c.get_pod name ns v ≡ c.get_pod name ns w))

-- A mesh that joins a router pod of k + 1 users gets the kt-target label of this pod, and the store then names
-- the router; the teardown of its route returns, and behind it, as before the mesh, it takes k more
-- teardowns until the next one is to remove the router. Updates of pods are accepted, and the
-- commands in the router succeed and change no pod.
pub recover_auto_mesh_route-create_router :
    (c : Api) (l : Machine c.World) (o : Options) (s : Store) (name svc_name version_mark : Text)
    (ports : List (ℕ × ℕ)) (labels : List (Text × Text)) (w u : c.World) (k : ℕ) (pod beaten : Pod)
    (d : Dict Text)
    → IsPodStore c
    → IsPodWritable c
    → IsQuiet c name o.namespace
    → is_set name ≡ true
    → IsRouter c name o.namespace k w u pod beaten d
    → (v : c.World) × ((t : c.World) × ((create_router c l o name svc_name ports labels version_mark
              (s, w)
            ≡ (ok (router_labels pod labels), (record s { router = name }, v)))
          × ((recover_auto_mesh_route c l o (record s { router = name }) v ≡ (ok tt, t))
              × IsReleasedAfter c k name o.namespace t)))
recover_auto_mesh_route-create_router c l o s name svc_name version_mark ports labels w u k pod
      beaten d st accepts quiet named h =
    let (a, (q, (more, (there, counted)))) =
      increased c st accepts k name o.namespace u beaten d h.room h.found_again h.kept
        h.counted_again in
    let (v, (ran, kept)) = quiet (adds version_mark) a in
    let found : c.get_pod name o.namespace v ≡ ok q = kept ∙ there in
    let (b, (p, (less, (again, recounted)))) =
      decreased c st accepts k name o.namespace v q h.room found counted in
    let (t, (ran', kept')) = quiet (removes s.mesh) b in
    (
      v,
      (
        t,
        (
          joined c l o s name svc_name version_mark ports labels w u a v k pod beaten d h more ran,
          (
            left c l o (record s { router = name }) v b t q named found less ran',
            decrease_pod_ref-IsReleasedAfter c st accepts k name o.namespace t p
                (omega (arith, h.room)) (kept' ∙ again) recounted,
          ),
        ),
      ),
    )
