-- ===== src/General/Workspace/Shared.antt =====
-- The shadow that several runs of connect share: GetOrCreateShadow of
-- pkg/kt/service/cluster/shadow_pod.go and the teardown.
use kt_connect.Common.{ℕ, suc, ◌≡◌, ◌≤◌, refl, true, false, some, List, Text, text_eq, codes}
use kt_connect.Common.Int.{ℤ, pos}
use kt_connect.Common.Dict.{Dict}
use kt_connect.Common.Exec.{ok}
use kt_connect.Strings.{itoa, max_int}
use kt_connect.Collection.{GoMap, read}
use kt_connect.Cluster.{
  Api, Pod, ConfigMap, IsPodStore, IsPodWritable, kt_ref_count, ssh_auth_private_key,
}
use kt_connect.General.Resource.{is_set}
use kt_connect.Refs.{increase_pod_ref, decrease_pod_ref}
use kt_connect.Refs.Release.{IsReleasedAfter, increase_pod_ref-IsReleasedAfter}
use kt_connect.Session.{Store, Options, Machine}
use kt_connect.Shadow.Create.{
  shadow_with, is_shared, try_get_existing_shadows, existing_pod, with_pod, existing_keys, reuse,
  reused_or,
}
use kt_connect.Shadow.Inputs.{found_pod, keys_of}
use kt_connect.General.Workspace.{clean_shadow_pod_and_config_map, clean_shadows, release_shared}
use kt_connect.General.LaneSession.{
  should_clean_lane_session_resources, should_clean_lane_envoy_filters,
}

-- A run of connect without a lane, that shares the shadow pod of that name.
pub record IsSharing (o : Options) (s : Store) (name : Text) : Type 0 where
  pub connects : text_eq s.component (codes "connect") ≡ true
  pub shares : o.share_shadow ≡ true
  pub by_pod : o.use_shadow_deployment ≡ false
  pub plain : text_eq o.exchange_mode (codes "ephemeral") ≡ false
  pub no_lane : is_set s.lane ≡ false
  pub named : s.shadow ≡ name
  pub has_name : is_set name ≡ true

module _ (c : Api) (l : Machine c.World) (o : Options) (s : Store) (name : Text) where
  -- The teardown of a run that shares its shadow with others changes the count only.
  others_left :
      (w v : c.World)
      → IsSharing o s name
      → decrease_pod_ref c name o.namespace w ≡ (ok false, v)
      → clean_shadow_pod_and_config_map c l o s w ≡ (ok tt, v)
  unfolding clean_shadow_pod_and_config_map clean_shadows release_shared
      should_clean_lane_session_resources should_clean_lane_envoy_filters
  others_left w v h left =
      rw (h.connects, h.no_lane, h.named, h.has_name, h.shares, h.by_pod, left, h.plain) refl

  -- GetOrCreateShadow, where the pod and its keys are there.
  reused :
      (labels annotations : GoMap) (envs : List (Text × Text)) (ports : Dict ℤ) (w u v : c.World)
      (pod : Pod) (cm : ConfigMap)
      → IsSharing o s name
      → c.get_pod name o.namespace w ≡ ok pod
      → c.get_config_map name o.namespace w ≡ ok cm
      → l.write_private_key (l.private_key_path name) (read cm.content ssh_auth_private_key) w
        ≡ (ok tt, u)
      → increase_pod_ref c name o.namespace u ≡ (ok tt, v)
      → shadow_with c l o name labels annotations envs ports s w
        ≡ (ok (pod.pod_ip, (pod.name, l.private_key_path name)), v)
  unfolding shadow_with is_shared try_get_existing_shadows existing_pod found_pod with_pod
      existing_keys reuse reused_or keys_of
  reused labels annotations envs ports w u v pod cm h found keys wrote counted =
      rw (h.connects, h.shares, h.by_pod, found, keys, wrote, counted) refl

-- A run of connect that finds the shared shadow pod, with k + 1 users and its keys, gets its address,
-- name and key file, and its teardown returns and leaves the pod: as before the run it takes k more
-- teardowns until the next one is to remove it. Updates of pods are accepted, and the key file can
-- be written without a change of the pod.
pub clean_shadow_pod_and_config_map-shadow_with :
    (c : Api) (l : Machine c.World) (o : Options) (s : Store) (name : Text)
    (labels annotations : GoMap) (envs : List (Text × Text)) (ports : Dict ℤ) (k : ℕ)
    (w u : c.World) (pod : Pod) (cm : ConfigMap) (d : Dict Text)
    → IsPodStore c
    → IsPodWritable c
    → IsSharing o s name
    → suc (suc k) ≤ max_int
    → c.get_pod name o.namespace w ≡ ok pod
    → c.get_config_map name o.namespace w ≡ ok cm
    → pod.annotations ≡ some d
    → read pod.annotations kt_ref_count ≡ itoa (pos (suc k))
    → l.write_private_key (l.private_key_path name) (read cm.content ssh_auth_private_key) w
      ≡ (ok tt, u)
    → c.get_pod name o.namespace u ≡ ok pod
    → (v : c.World) × ((z : c.World) × ((shadow_with c l o name labels annotations envs ports s w
            ≡ (ok (pod.pod_ip, (pod.name, l.private_key_path name)), v))
          × ((clean_shadow_pod_and_config_map c l o s v ≡ (ok tt, z))
              × IsReleasedAfter c k name o.namespace z)))
clean_shadow_pod_and_config_map-shadow_with c l o s name labels annotations envs ports k w u pod cm
      d st accepts h bound found keys kept counted wrote still =
    let (v, (more, (z, (left, released)))) =
      increase_pod_ref-IsReleasedAfter c st accepts k name o.namespace u pod d bound still kept
        counted in
    (
      v,
      (
        z,
        (
          reused c l o s name labels annotations envs ports w u v pod cm h found keys wrote more,
          (others_left c l o s name v z h left, released),
        ),
      ),
    )
