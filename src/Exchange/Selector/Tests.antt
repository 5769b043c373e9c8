-- ===== src/Exchange/Selector/Tests.antt =====
-- An exchange of a service that is exchanged.
use kt_connect.Common.{
  ◌≡◌, refl, true, false, none, some, [], ◌∷◌, if◌then◌else◌, Text, text_eq, codes,
}
use kt_connect.Common.Int.{pos}
use kt_connect.Common.Dict.{lookup}
use kt_connect.Common.Exec.{ok, err, failed}
use kt_connect.Strings.{split}
use kt_connect.Collection.{entries, read}
use kt_connect.Cluster.{Api, Service, kt_lock, kt_selector, SameMap}
use kt_connect.Cluster.Example.{Objects, example_api, example-IsStore, find_service}
use kt_connect.General.Lock.{lock_service, is_occupied, is_fresh, mark}
use kt_connect.General.Resource.{
  is_set, get_service_by_resource_name, parse_resource_name, name_of_segments,
}
use kt_connect.Exchange.Selector.{by_selector}
use kt_connect.Exchange.Selector.Refused.{by_selector_refused}

abbrev api : Api
api = example_api none

abbrev shop : Service
shop = record {
  name = codes "shop";
  namespace = codes "dev";
  labels = none;
  annotations = some ((kt_selector, codes "{}") ∷ []);
  selector = some ((codes "app", codes "shop") ∷ []);
  ports = [];
  cluster_ip = codes "10.0.0.9";
  external = false;
}

abbrev start : Objects
start = record { service = some shop; pod = none; deployment = none; time = pos 1000 }

abbrev locked : Service
locked = mark shop (pos 1000)

abbrev after_lock : Objects
after_lock = record start { service = some locked }

found_run : get_service_by_resource_name api (codes "shop") (codes "dev") start ≡ (ok shop, start)
unfolding get_service_by_resource_name parse_resource_name name_of_segments split text_eq
    find_service
found_run = refl

locked_run : lock_service api 11 (codes "shop") (codes "dev") start ≡ (ok locked, after_lock)
unfolding lock_service is_occupied is_fresh lookup text_eq find_service
locked_run = refl

recorded : is_set (read locked.annotations kt_selector) ≡ true
unfolding is_set read mark kt_connect.Common.Dict.put lookup text_eq
recorded = refl

by_selector_refused_example :
    (w2 : Objects) × ((by_selector api
          (λ n w. (ok tt, w))
          (λ n a b s w. (ok tt, w))
          (λ s w. true)
          (codes "shop")
          (codes "dev")
          start
        ≡ (err failed, w2))
      × ((s : Service) × ((find_service (codes "shop") (codes "dev") w2.service ≡ ok s)
            × (SameMap s.selector locked.selector
                × ((k : Text)
                    → lookup k (entries s.annotations) ≡ (
                        if text_eq kt_lock k
                        then none
                        else lookup k (entries locked.annotations)))))))
by_selector_refused_example =
    by_selector_refused api (λ n w. (ok tt, w)) (λ n a b s w. (ok tt, w)) (λ s w. true)
      (codes "shop") (codes "dev") start start after_lock shop locked (example-IsStore none)
      (λ s. (s, (record after_lock { service = some s }, refl))) found_run refl locked_run recorded
