-- ===== src/General/Tests.antt =====
-- The properties of the service operations at a concrete server and service.
use kt_connect.Common.{false, ◌≡◌, refl, none, some, [], ◌∷◌, if◌then◌else◌, Text, text_eq, codes}
use kt_connect.Common.Int.{pos}
use kt_connect.Common.Dict.{Dict, lookup}
use kt_connect.Common.Exec.{ok}
use kt_connect.Collection.{GoMap, entries, read}
use kt_connect.Cluster.{Api, Service, kt_selector, kt_role, role_router, SameMap}
use kt_connect.Cluster.Example.{Objects, example_api, example-IsStore, find_service}
use kt_connect.General.Resource.{
  is_set, is_service_changed, record_selector, update_service_selector,
}
use kt_connect.General.Teardown.{recover_original_service}
use kt_connect.General.Selector.{
  recover_original_service-update_service_selector, update_service_selector_again,
}

abbrev original : GoMap
original = some ((codes "app", codes "shop") ∷ [])

abbrev api : Api
api = example_api original

abbrev shop : Service
shop = record {
  name = codes "shop";
  namespace = codes "dev";
  labels = none;
  annotations = none;
  selector = original;
  ports = [];
  cluster_ip = codes "10.0.0.9";
  external = false;
}

abbrev start : Objects
start = record { service = some shop; pod = none; deployment = none; time = pos 1000 }

abbrev router : Dict Text
router = (kt_role, role_router) ∷ []

abbrev switched : Objects
switched = (update_service_selector api (codes "shop") (codes "dev") (some router) start).1

switched_run :
    update_service_selector api (codes "shop") (codes "dev") (some router) start ≡ (ok tt, switched)
unfolding update_service_selector find_service text_eq record_selector is_service_changed
    kt_connect.Collection.map_equals kt_connect.Collection.map_put lookup
switched_run = refl

recover_original_service_example :
    ((s : Service) × ((find_service (codes "shop") (codes "dev") switched.service ≡ ok s)
        × SameMap s.selector (some router)))
    × ((w2 : Objects) × ((recover_original_service api (codes "shop") (codes "dev") switched
            ≡ (ok tt, w2))
          × ((s : Service) × ((find_service (codes "shop") (codes "dev") w2.service ≡ ok s)
                × (SameMap s.selector original
                    × ((k : Text)
                        → lookup k (entries s.annotations)
                          ≡ (if text_eq kt_selector k then none else lookup k (entries none))))))))
unfolding find_service text_eq read
recover_original_service_example =
    recover_original_service-update_service_selector api (example-IsStore original) (codes "shop")
      (codes "dev") start switched shop router refl (unfold lookup is_set in refl)
      (unfold lookup is_set in refl) ((unfold lookup in refl), tt) ((λ e. cc e), tt)
      ((unfold lookup in refl), tt)
      (λ t e. ((λ empty. cc (e, empty)), (original, (refl, λ k. refl)))) switched_run
      (λ s. (s, (record switched { service = some s }, refl)))

again_run :
    update_service_selector api (codes "shop") (codes "dev") (some router) switched
    ≡ (ok tt, switched)
unfolding update_service_selector find_service text_eq record_selector is_service_changed
    kt_connect.Collection.map_equals kt_connect.Collection.map_put lookup
again_run = refl

abbrev meshed : Service
meshed = record shop { annotations = some ((kt_selector, codes "{}") ∷ []); selector = some router }

abbrev meshed_start : Objects
meshed_start = record start { service = some meshed }

abbrev shadow : Dict Text
shadow = (kt_role, codes "shadow-mesh") ∷ []

abbrev remeshed : Objects
remeshed = (update_service_selector api (codes "shop") (codes "dev") (some shadow) meshed_start).1

remeshed_run :
    update_service_selector api (codes "shop") (codes "dev") (some shadow) meshed_start
    ≡ (ok tt, remeshed)
unfolding update_service_selector find_service text_eq record_selector is_service_changed
    kt_connect.Collection.map_equals lookup
remeshed_run = refl

update_service_selector_again_example :
    (s : Service) × ((find_service (codes "shop") (codes "dev") remeshed.service ≡ ok s)
      × (SameMap s.selector (some shadow) × SameMap s.annotations meshed.annotations))
unfolding find_service text_eq read
update_service_selector_again_example =
    update_service_selector_again api (example-IsStore original) (codes "shop") (codes "dev")
      meshed_start remeshed meshed shadow refl (unfold lookup is_set in refl)
      ((unfold lookup in refl), tt) ((λ e. cc e), tt) ((unfold lookup in refl), tt) remeshed_run
