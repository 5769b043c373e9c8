-- ===== src/Connect/Tests.antt =====
-- The order of name servers of dnsserver_test.go, and the labels of a lane.
use kt_connect.Common.{none, some, [], ◌∷◌, codes}
use kt_connect.Common.Int.{pos}
use kt_connect.Cluster.{kt_role, kt_lane, kt_session, role_connect_shadow}
use kt_connect.Cluster.Example.{Objects}
use kt_connect.Collection.{GoMap}
use kt_connect.Session.{Store, Options}
use kt_connect.Session.Example.{options, connect_run}

abbrev lane_options : Options
lane_options = record options { connect_lane = codes "gray" }

abbrev lane_run : Store
lane_run = record connect_run { session = codes "s1" }

abbrev start : Objects
start = record { service = none; pod = none; deployment = none; time = pos 0 }

abbrev labels : GoMap
labels = some (
    (kt_role, role_connect_shadow)
    ∷ (kt_lane, codes "gray")
    ∷ (codes "sidecar.istio.io/inject", codes "true")
    ∷ (kt_session, codes "s1")
    ∷ [])
