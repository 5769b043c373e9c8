-- ===== src/General/LaneSession.antt =====
-- pkg/kt/command/general/teardown.go: what the end of a connect with a lane takes away of the lane's
-- session.
use kt_connect.Common.{
  Bool, not, ◌&&◌, some, List, [], ◌∷◌, ◌++◌, if◌then◌else◌, Text, text_eq, codes,
}
use kt_connect.Common.Exec.{Reply, ok, err, panic, behind, ◌>>◌, done, ignore}
use kt_connect.Collection.{GoMap, read}
use kt_connect.Cluster.{Api, kt_role, kt_lane, kt_session, role_connect_shadow}
use kt_connect.General.Resource.{is_set}
use kt_connect.Session.{Store, Options, Machine}

-- shouldCleanLaneSessionResources and shouldCleanLaneEnvoyFilters
unfoldable pub should_clean_lane_envoy_filters : Store → Bool
unfolding is_set
should_clean_lane_envoy_filters s =
    text_eq s.component (codes "connect") && (is_set s.lane && is_set s.session)

unfoldable pub should_clean_lane_session_resources : Store → Bool
unfolding is_set
should_clean_lane_session_resources s =
    text_eq s.component (codes "connect")
    && (is_set s.lane && (is_set s.session && not (is_set s.shadow)))

unfoldable pub lane_labels : Store → GoMap
lane_labels s =
    some ((kt_role, role_connect_shadow) ∷ (kt_lane, s.lane) ∷ (kt_session, s.session) ∷ [])

-- The selector text of cleanLaneSessionEnvoyFilters.
unfoldable pub filter_selector : GoMap → Text
filter_selector labels =
    kt_role
    ++ (b'='
        ∷ (read labels kt_role
            ++ (b','
                ∷ (kt_lane
                    ++ (b'='
                        ∷ (read labels kt_lane
                            ++ (b',' ∷ (kt_session ++ (b'=' ∷ read labels kt_session)))))))))

module _ {A W : Type 0} where
  -- A loop over what was listed.
  unfoldable pub for_items : (A → W → Reply (Unit {0}) × W) → List A → W → Reply (Unit {0}) × W
  for_items f [] w = done tt w
  for_items f (a ∷ rest) w = (f a >> for_items f rest) w

  unfoldable pub for_listed :
      (A → W → Reply (Unit {0}) × W) → Reply (List A) → W → Reply (Unit {0}) × W
  unfolding for_items
  for_listed f (ok items) w = for_items f items w
  for_listed f (err e) w = done tt w
  for_listed f panic w = (panic, w)

module _ {W : Type 0} where
  -- A deferred call runs behind the reply.
  unfoldable pub deferred : (W → Reply (Unit {0}) × W) → Reply (Unit {0}) × W → Reply (Unit {0}) × W
  deferred after (r, w) = let (end, w') = after w in (behind end r, w')

module _ (c : Api) (l : Machine c.World) (o : Options) (s : Store) where
  open c use {
    World, get_pod, get_pods_by_label, remove_pod, get_deployment, get_deployments_by_label,
    remove_deployment, get_config_maps_by_label, remove_config_map, remove_service, exec_in_pod,
    sleep,
  }

  -- cleanLaneSessionEnvoyFilters: the filter that the run created, and the others of its labels
  unfoldable pub delete_filters : GoMap → World → Reply (Unit {0}) × World
  unfolding for_listed filter_selector is_set
  delete_filters labels w =
      (do
        (if is_set s.lane_envoy_filter
            then ignore (l.delete_filter s.lane_envoy_filter o.namespace)
            else done tt)
        λ v.
            for_listed
              (λ item.
                if is_set s.lane_envoy_filter && text_eq item s.lane_envoy_filter
                then done tt
                else ignore (l.delete_filter item o.namespace))
              (l.list_filters (filter_selector labels) o.namespace v) v)
        w

  -- cleanLaneSessionEnvoyFilters
  unfoldable pub clean_lane_session_envoy_filters : GoMap → World → Reply (Unit {0}) × World
  unfolding delete_filters
  clean_lane_session_envoy_filters labels w =
      if l.has_rest_config
      then (elim l.filter_client [
        | ok client ↦ delete_filters labels w
        | err e ↦ done tt w
        | panic ↦ (panic, w)
      ])
      else done tt w

  -- cleanLaneSessionResources: the pods or deployments
  unfoldable pub clean_lane_apps : World → Reply (Unit {0}) × World
  unfolding lane_labels for_listed
  clean_lane_apps w =
      if o.use_shadow_deployment
      then for_listed (λ d. ignore (remove_deployment d.name o.namespace))
          (get_deployments_by_label (lane_labels s) o.namespace w) w
      else for_listed (λ p. ignore (remove_pod p.name o.namespace))
          (get_pods_by_label (lane_labels s) o.namespace w) w

  -- cleanLaneSessionResources
  unfoldable pub clean_lane_session_resources : World → Reply (Unit {0}) × World
  unfolding clean_lane_apps lane_labels for_listed deferred clean_lane_session_envoy_filters
  clean_lane_session_resources w = deferred (clean_lane_session_envoy_filters (lane_labels s)) (
      (for_listed (λ m. ignore (remove_config_map m.name o.namespace))
            (get_config_maps_by_label (lane_labels s) o.namespace w)
          >> clean_lane_apps)
        w)
