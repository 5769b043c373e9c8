-- ===== src/Exchange/Scale/Tests.antt =====
-- An exchange by scale of a deployment with two replicas.
use kt_connect.Common.{
  ◌≡◌, refl, ap, ◌&&◌, none, some, Option, Text, text_eq, text_eq_iff, text_eq_refl, codes,
  &&_split, Bool-cases, inl, inr, ◌/◌,
}
use kt_connect.Common.Int.{pos}
use kt_connect.Common.Exec.{ok, ignore}
use kt_connect.Strings.{split}
use kt_connect.Cluster.{Api, Deployment}
use kt_connect.Cluster.Example.{Objects, example_api, find_deployment}
use kt_connect.General.Resource.{
  is_set, get_deployment_by_resource_name, parse_resource_name, name_of_segments,
}
use kt_connect.General.Workspace.{recover_exchanged_target, wait_deployment_recover_complete}
use kt_connect.Session.{Store, Options}
use kt_connect.Session.Example.{machine, options, connect_run}
use kt_connect.Exchange.{by_scale}
use kt_connect.Exchange.Scale.{IsDeploymentStore, HasReplicas, recover_exchanged_target-by_scale}

abbrev api : Api
api = example_api none

find_deployment_lem :
    (n ns : Text) (o : Option Deployment) (d : Deployment)
    → find_deployment n ns o ≡ ok d
    → (d.name ≡ n) × (d.namespace ≡ ns)
unfolding find_deployment
find_deployment_lem n ns none d h = absurd (cc h)
find_deployment_lem n ns (some t) d h =
    elim (Bool-cases (text_eq t.name n && text_eq t.namespace ns)) [
      | inl here ↦
          let (a, b) = &&_split (text_eq t.name n) (text_eq t.namespace ns) here in
          let same : t ≡ d = cc (h, here) in
          (cc (same, (text_eq_iff t.name n).0 a), cc (same, (text_eq_iff t.namespace ns).0 b))
      | inr gone ↦ absurd (cc (h, gone))
    ]

find_deployment_own : (d : Deployment) → find_deployment d.name d.namespace (some d) ≡ ok d
unfolding find_deployment
find_deployment_own d = rw (text_eq_refl d.name, text_eq_refl d.namespace) refl

api-IsDeploymentStore : IsDeploymentStore api
api-IsDeploymentStore = record {
  get_named = λ n ns w d h. find_deployment_lem n ns w.deployment d h;
  get_updated = λ d e w w' h. stored d e w w' h;
}
  where
    stored :
        (d e : Deployment) (w w' : Objects)
        → api.update_deployment d w ≡ (ok e, w')
        → (find_deployment d.name d.namespace w'.deployment ≡ ok e) × (e.replicas ≡ d.replicas)
    stored d e w w' h =
        let same : d ≡ e = cc h in
        let there : some d ≡ w'.deployment = cc (ap (λ r. r.1.deployment) h) in
        (cc (there, same, find_deployment_own d), cc same)

abbrev app : Deployment
app = record {
  name = codes "app";
  namespace = codes "dev";
  labels = none;
  annotations = none;
  match_labels = none;
  template_labels = none;
  replicas = pos 2;
  ready_replicas = pos 2;
}

abbrev start : Objects
start = record { service = none; pod = none; deployment = some app; time = pos 0 }

abbrev scale_options : Options
scale_options = record options { exchange_mode = codes "scale" }

abbrev scale_run : Store
scale_run = record connect_run {
  component = codes "exchange";
  origin = codes "app";
  replicas = pos 2;
}

found_run :
    get_deployment_by_resource_name api (codes "deployment/app") (codes "dev") start
    ≡ (ok app, start)
unfolding get_deployment_by_resource_name parse_resource_name name_of_segments split text_eq
    find_deployment
found_run = refl

recover_exchanged_target-by_scale_example :
    (z : Objects) × ((by_scale api
          (λ n r w. (ok tt, w))
          (λ a b w. (ok tt, w))
          (codes "deployment/app")
          (codes "dev")
          start
        ≡ (ok tt, z))
      × (HasReplicas api (codes "app") (codes "dev") (pos 0) z
          × ((y : Objects) × (HasReplicas api (codes "app") (codes "dev") (pos 2) y
                × (recover_exchanged_target api machine scale_options scale_run z
                    ≡ ignore
                        (wait_deployment_recover_complete api machine scale_options scale_run
                          (scale_options.recover_wait_time / 5))
                        y)))))
unfolding is_set find_deployment text_eq
recover_exchanged_target-by_scale_example =
    recover_exchanged_target-by_scale api machine scale_options scale_run (λ n r w. (ok tt, w))
      (λ a b w. (ok tt, w)) (codes "deployment/app") start start start start app app
      api-IsDeploymentStore (λ d w. (d, (record w { deployment = some d }, refl))) refl refl refl
      refl found_run refl refl refl
