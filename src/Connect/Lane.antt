-- ===== src/Connect/Lane.antt =====
-- The labels of a lane's resources: what getLabels of pkg/kt/command/connect/common.go gives, what
-- GetOrCreateShadow remembers of it, and what the teardown looks for.
use kt_connect.Common.{◌≡◌, true, [], ◌∷◌, ◌++◌, Text, codes}
use kt_connect.Common.Dict.{Dict}
use kt_connect.Common.Exec.{Reply, ok, err, panic}
use kt_connect.Collection.{GoMap, map_contains}
use kt_connect.Cluster.{Api, kt_role, kt_lane, kt_session, role_connect_shadow}
use kt_connect.General.Lock.{get_timestamp}
use kt_connect.General.LaneSession.{lane_labels, should_clean_lane_envoy_filters}
use kt_connect.Session.{Store, Options, Machine}
use kt_connect.Shadow.Inputs.{remember_lane}

abbrev labels_of : Text → Text → Dict Text
labels_of lane session =
    (kt_role, role_connect_shadow)
    ∷ (kt_lane, lane)
    ∷ (codes "sidecar.istio.io/inject", codes "true")
    ∷ (kt_session, session)
    ∷ []

-- The teardown of a run of connect with this store acts on the lane, and looks for labels that are
-- among these.
abbrev pub IsFoundBy : GoMap → Store → Type 0
IsFoundBy labels s =
    (should_clean_lane_envoy_filters (remember_lane labels s) ≡ true)
    × (map_contains (lane_labels (remember_lane labels s)) labels ≡ true)

module _ (c : Api) (l : Machine c.World) (o : Options) where
  -- Of a reply: what it says of the labels, if there are any.
  abbrev IfLabelled : Reply GoMap × (Store × c.World) → Type 0
  IfLabelled (ok labels, (s, w)) = IsFoundBy labels s
  IfLabelled (err e, u) = Unit
  IfLabelled (panic, u) = Unit

  made_up : Text → c.World → Text
  made_up x w = b's' ∷ (get_timestamp (c.get_time w) ++ (b'-' ∷ x))
