-- ===== src/Refs/Tests.antt =====
-- The properties of the reference counts at a concrete pod.
use kt_connect.Common.{true, ◌≡◌, refl, false, none, some, [], ◌∷◌, Text, text_eq, codes, arith}
use kt_connect.Common.Int.{pos}
use kt_connect.Common.Dict.{Dict, lookup}
use kt_connect.Common.Exec.{ok}
use kt_connect.Strings.{itoa, format_nat, write_digits}
use kt_connect.Collection.{read}
use kt_connect.Cluster.{Api, Pod, kt_ref_count, IsPodStore, IsPodWritable}
use kt_connect.Cluster.Example.{Objects, example_api, example-IsPodStore}
use kt_connect.Refs.{increase_pod_ref}
use kt_connect.Refs.Release.{
  IsReleasedAfter, decrease_pod_ref-IsReleasedAfter, increase_pod_ref-IsReleasedAfter,
}

abbrev api : Api
api = example_api none

abbrev counts : Dict Text
counts = (kt_ref_count, codes "2") ∷ []

abbrev shadow : Pod
shadow = record {
  name = codes "shadow";
  namespace = codes "dev";
  labels = none;
  annotations = some counts;
  terminating = false;
  running = true;
  pod_ip = codes "10.1.0.1";
  containers = [];
}

abbrev start : Objects
start = record { service = none; pod = some shadow; deployment = none; time = pos 0 }

two : read (some counts) kt_ref_count ≡ itoa (pos 2)
unfolding itoa format_nat write_digits read lookup text_eq
two = refl

decrease_pod_ref-IsReleasedAfter_example :
    IsReleasedAfter api 1 (codes "shadow") (codes "dev") start
unfolding kt_connect.Cluster.Example.find_pod text_eq
decrease_pod_ref-IsReleasedAfter_example =
    decrease_pod_ref-IsReleasedAfter api (example-IsPodStore none)
      (λ p w. (p, (record w { pod = some p }, refl))) 1 (codes "shadow") (codes "dev") start shadow
      (omega arith) refl two

increase_pod_ref-IsReleasedAfter_example :
    (w' : Objects) × ((increase_pod_ref api (codes "shadow") (codes "dev") start ≡ (ok tt, w'))
      × IsReleasedAfter api 2 (codes "shadow") (codes "dev") w')
unfolding kt_connect.Cluster.Example.find_pod text_eq
increase_pod_ref-IsReleasedAfter_example =
    increase_pod_ref-IsReleasedAfter api (example-IsPodStore none)
      (λ p w. (p, (record w { pod = some p }, refl))) 1 (codes "shadow") (codes "dev") start shadow
      counts (omega arith) refl refl two
