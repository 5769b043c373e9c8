-- ===== src/Clean/Check/Tests.antt =====
-- The resources to clean of a cluster with one pod.
use kt_connect.Common.{◌≡◌, refl, true, false, arith, none, some, [], ◌∷◌, codes}
use kt_connect.Common.Int.{pos}
use kt_connect.Common.Exec.{ok}
use kt_connect.Cluster.{Api, Pod, kt_last_heart_beat}
use kt_connect.Cluster.Example.{Objects, example_api}
use kt_connect.Clean.{ResourceToClean}
use kt_connect.Clean.Check.{KtResources, get_kt_resources, check_cluster_resources}
use kt_connect.Clean.Check.Exact.{IsExact, check_cluster_resources-IsExact}

abbrev api : Api
api = example_api none

abbrev old : Pod
old = record {
  name = codes "shadow";
  namespace = codes "dev";
  labels = none;
  annotations = some ((kt_last_heart_beat, codes "100") ∷ []);
  terminating = false;
  running = true;
  pod_ip = codes "10.1.0.1";
  containers = [];
}

abbrev start : Objects
start = record { service = none; pod = some old; deployment = none; time = pos 9000 }

abbrev found : KtResources
found = record { pods = old ∷ []; config_maps = []; apps = []; services = [] }

listed_all : get_kt_resources api (codes "dev") start ≡ (ok found, start)
unfolding get_kt_resources
listed_all = refl

check_cluster_resources-IsExact_example :
    (r : ResourceToClean) × ((check_cluster_resources api 15 (codes "dev") start ≡ (ok r, start))
      × IsExact 9000 15 found r)
check_cluster_resources-IsExact_example =
    check_cluster_resources-IsExact api 15 (codes "dev") found start start 9000 listed_all refl
      (omega arith) (omega arith)
