-- ===== src/General/Workspace/Tests.antt =====
-- The teardown at a shadow with two users.
use kt_connect.Common.{◌≡◌, refl, true, false, none, some, [], ◌∷◌, Text, text_eq, codes, arith}
use kt_connect.Common.Int.{pos}
use kt_connect.Common.Dict.{Dict, lookup}
use kt_connect.Common.Exec.{ok}
use kt_connect.Strings.{itoa, format_nat, write_digits}
use kt_connect.Collection.{read}
use kt_connect.Cluster.{Api, Pod, kt_ref_count}
use kt_connect.Cluster.Example.{Objects, example_api, example-IsPodStore, find_pod}
use kt_connect.Refs.Release.{IsReleasedAfter}
use kt_connect.Session.Example.{machine, options, connect_run}
use kt_connect.Shadow.Create.{shadow_with}
use kt_connect.General.Workspace.{clean_shadow_pod_and_config_map}
use kt_connect.General.Workspace.Shared.{clean_shadow_pod_and_config_map-shadow_with}

abbrev api : Api
api = example_api none

abbrev counts : Dict Text
counts = (kt_ref_count, codes "2") ∷ []

abbrev shadow : Pod
shadow = record {
  name = codes "kt-connect-shadow";
  namespace = codes "dev";
  labels = none;
  annotations = some counts;
  terminating = false;
  running = true;
  pod_ip = codes "10.1.0.1";
  containers = [];
}

abbrev start : Objects
start = record { service = none; pod = some shadow; deployment = none; time = pos 0 }

two : read (some counts) kt_ref_count ≡ itoa (pos 2)
unfolding itoa format_nat write_digits read lookup text_eq
two = refl

clean_shadow_pod_and_config_map-shadow_with_example :
    (v : Objects) × ((z : Objects) × ((shadow_with api machine options
            (codes "kt-connect-shadow")
            none
            none
            []
            []
            connect_run
            start
          ≡ (ok (codes "10.1.0.1", (codes "kt-connect-shadow", codes "kt-connect-shadow")), v))
        × ((clean_shadow_pod_and_config_map api machine options connect_run v ≡ (ok tt, z))
            × IsReleasedAfter api 1 (codes "kt-connect-shadow") (codes "dev") z)))
unfolding find_pod text_eq kt_connect.General.Resource.is_set
clean_shadow_pod_and_config_map-shadow_with_example =
    clean_shadow_pod_and_config_map-shadow_with api machine options connect_run
      (codes "kt-connect-shadow") none none [] [] 1 start start shadow
      (record {
        name = codes "kt-connect-shadow";
        namespace = codes "dev";
        labels = none;
        annotations = none;
        content = none;
      })
      counts (example-IsPodStore none) (λ p w. (p, (record w { pod = some p }, refl)))
      (record {
        connects = refl;
        shares = refl;
        by_pod = refl;
        plain = refl;
        no_lane = refl;
        named = refl;
        has_name = refl;
      })
      (omega arith) refl refl refl two refl refl
