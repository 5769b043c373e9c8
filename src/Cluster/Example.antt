-- ===== src/Cluster/Example.antt =====
-- A server that holds one service, one pod and one deployment, for runs at concrete inputs. Its
-- codec knows one map.
use kt_connect.Common.{
  ◌≡◌, refl, ap, ◌&&◌, Option, none, some, List, [], ◌∷◌, if◌then◌else◌, Text, text_eq, text_eq_iff,
  text_eq_refl, codes, &&_split, Bool-cases, inl, inr,
}
use kt_connect.Common.Int.{ℤ}
use kt_connect.Common.Exec.{Reply, ok, err, not_found}
use kt_connect.Collection.{GoMap}
use kt_connect.Cluster.{
  Api, Service, Pod, Deployment, ConfigMap, IsStore, SameService, IsPodStore, SameMap,
}

pub record Objects : Type 0 where
  pub service : Option Service
  pub pod : Option Pod
  pub deployment : Option Deployment
  pub time : ℤ

unfoldable pub find_service : Text → Text → Option Service → Reply Service
find_service n ns none = err not_found
find_service n ns (some s) =
    if text_eq s.name n && text_eq s.namespace ns then ok s else err not_found

unfoldable pub find_pod : Text → Text → Option Pod → Reply Pod
find_pod n ns none = err not_found
find_pod n ns (some p) = if text_eq p.name n && text_eq p.namespace ns then ok p else err not_found

unfoldable pub find_deployment : Text → Text → Option Deployment → Reply Deployment
find_deployment n ns none = err not_found
find_deployment n ns (some d) =
    if text_eq d.name n && text_eq d.namespace ns then ok d else err not_found

abbrev pub list_of {ℓ} : {A : Type ℓ} → Option A → List A
list_of none = []
list_of (some a) = a ∷ []

abbrev empty_config_map : Text → Text → ConfigMap
empty_config_map n ns = record {
  name = n;
  namespace = ns;
  labels = none;
  annotations = none;
  content = none;
}

abbrev pub write_service : Service → Objects → Reply Service × Objects
write_service s w = (ok s, record w { service = some s })

abbrev pub write_pod : Pod → Objects → Reply Pod × Objects
write_pod p w = (ok p, record w { pod = some p })

abbrev pub example_api : GoMap → Api
example_api known = record {
  World = Objects;
  get_service = λ n ns w. find_service n ns w.service;
  all_services = λ ns w. ok (list_of w.service);
  update_service = write_service;
  get_services_by_label = λ l ns w. ok (list_of w.service);
  create_service = write_service;
  create_pod = λ m w. (ok tt, w);
  create_deployment = λ m w. (ok tt, w);
  get_config_map = λ n ns w. ok (empty_config_map n ns);
  get_config_maps_by_label = λ l ns w. ok [];
  create_config_map = λ m w. (ok m, w);
  remove_config_map = λ n ns w. (ok tt, w);
  heart_beat = λ k n ns w. (ok tt, w);
  remove_service = λ n ns w. (ok tt, record w { service = none });
  get_pod = λ n ns w. find_pod n ns w.pod;
  get_pods_by_label = λ l ns w. ok (list_of w.pod);
  update_pod = write_pod;
  remove_pod = λ n ns w. (ok tt, record w { pod = none });
  get_deployment = λ n ns w. find_deployment n ns w.deployment;
  get_deployments_by_label = λ l ns w. ok (list_of w.deployment);
  all_deployments = λ ns w. ok (list_of w.deployment);
  update_deployment = λ d w. (ok d, record w { deployment = some d });
  remove_deployment = λ n ns w. (ok tt, record w { deployment = none });
  exec_in_pod = λ ct n ns cmd w. (ok tt, w);
  get_time = λ w. w.time;
  sleep = λ n w. (ok tt, w);
  random_string = λ n w. (ok (codes "abcde"), w);
  marshal = λ m. ok (codes "{}");
  unmarshal = λ t. ok known;
}

find_service_lem :
    (n ns : Text) (o : Option Service) (s : Service)
    → find_service n ns o ≡ ok s
    → (s.name ≡ n) × (s.namespace ≡ ns)
unfolding find_service
find_service_lem n ns none s h = absurd (cc h)
find_service_lem n ns (some t) s h =
    elim (Bool-cases (text_eq t.name n && text_eq t.namespace ns)) [
      | inl here ↦
          let (a, b) = &&_split (text_eq t.name n) (text_eq t.namespace ns) here in
          let same : t ≡ s = cc (h, here) in
          (cc (same, (text_eq_iff t.name n).0 a), cc (same, (text_eq_iff t.namespace ns).0 b))
      | inr gone ↦ absurd (cc (h, gone))
    ]

find_service_own : (s : Service) → find_service s.name s.namespace (some s) ≡ ok s
unfolding find_service
find_service_own s = rw (text_eq_refl s.name, text_eq_refl s.namespace) refl

pub example-IsStore : (known : GoMap) → IsStore (example_api known)
example-IsStore known = record {
  get_named = λ n ns w s h. find_service_lem n ns w.service s h;
  get_updated = λ s t w w' h. stored s t w w' h;
}
  where
    stored :
        (s t : Service) (w w' : Objects)
        → write_service s w ≡ (ok t, w')
        → (find_service s.name s.namespace w'.service ≡ ok t) × SameService s t
    stored s t w w' h =
        let same : s ≡ t = cc h in
        let there : some s ≡ w'.service = cc (ap (λ p. p.1.service) h) in
        (
          cc (there, same, find_service_own s),
          record {
            same_name = cc same;
            same_namespace = cc same;
            same_annotations = λ k. cc same;
            same_selector = λ k. cc same;
          },
        )

find_pod_lem :
    (n ns : Text) (o : Option Pod) (p : Pod)
    → find_pod n ns o ≡ ok p
    → (p.name ≡ n) × (p.namespace ≡ ns)
unfolding find_pod
find_pod_lem n ns none p h = absurd (cc h)
find_pod_lem n ns (some q) p h = elim (Bool-cases (text_eq q.name n && text_eq q.namespace ns)) [
  | inl here ↦
      let (a, b) = &&_split (text_eq q.name n) (text_eq q.namespace ns) here in
      let same : q ≡ p = cc (h, here) in
      (cc (same, (text_eq_iff q.name n).0 a), cc (same, (text_eq_iff q.namespace ns).0 b))
  | inr gone ↦ absurd (cc (h, gone))
]

find_pod_own : (p : Pod) → find_pod p.name p.namespace (some p) ≡ ok p
unfolding find_pod
find_pod_own p = rw (text_eq_refl p.name, text_eq_refl p.namespace) refl

pub example-IsPodStore : (known : GoMap) → IsPodStore (example_api known)
example-IsPodStore known = record {
  get_named = λ n ns w p h. find_pod_lem n ns w.pod p h;
  get_updated = λ p q w w' h. stored p q w w' h;
}
  where
    stored :
        (p q : Pod) (w w' : Objects)
        → write_pod p w ≡ (ok q, w')
        → (find_pod p.name p.namespace w'.pod ≡ ok q) × SameMap q.annotations p.annotations
    stored p q w w' h =
        let same : p ≡ q = cc h in
        let there : some p ≡ w'.pod = cc (ap (λ r. r.1.pod) h) in
        (cc (there, same, find_pod_own p), λ k. cc same)
