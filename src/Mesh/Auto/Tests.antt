-- ===== src/Mesh/Auto/Tests.antt =====
-- The users of a router pod, at one with two users.
use kt_connect.Common.{
  ◌≡◌, refl, true, false, none, some, List, [], ◌∷◌, Text, text_eq, codes, arith,
}
use kt_connect.Common.Int.{pos}
use kt_connect.Common.Dict.{Dict, lookup}
use kt_connect.Common.Exec.{Error, ok, err, failed}
use kt_connect.Strings.{itoa, format_nat, write_digits}
use kt_connect.Collection.{read}
use kt_connect.Cluster.{Api, Pod, kt_ref_count, kt_target, kt_role, role_router, IsPodStore}
use kt_connect.Cluster.Example.{Objects, example_api, example-IsPodStore, find_pod}
use kt_connect.General.Resource.{is_set}
use kt_connect.General.Workspace.{recover_auto_mesh_route, cleanup_workspace}
use kt_connect.Refs.Release.{IsReleasedAfter}
use kt_connect.Session.{Store}
use kt_connect.Session.Example.{machine, options, connect_run}
use kt_connect.Mesh.Auto.{create_router}
use kt_connect.Mesh.Auto.Leak.{create_router_leak}
use kt_connect.Mesh.Auto.Router.{IsRouter, router_labels, recover_auto_mesh_route-create_router}

abbrev api : Api
api = example_api none

-- A server whose pods run no command.
abbrev broken : Api
broken = record api { exec_in_pod = λ ct n ns cmd w. (err failed, w) }

abbrev mesh_run : Store
mesh_run = record connect_run {
  component = codes "mesh";
  shadow = [];
  service = codes "app-kt-mesh-v1";
}

abbrev counts : Dict Text
counts = (kt_ref_count, codes "2") ∷ []

abbrev router : Pod
router = record {
  name = codes "app-kt-router";
  namespace = codes "dev";
  labels = some ((kt_target, codes "t") ∷ []);
  annotations = some counts;
  terminating = false;
  running = true;
  pod_ip = codes "10.1.0.1";
  containers = [];
}

abbrev labels : List (Text × Text)
labels = (kt_role, role_router) ∷ []

abbrev of_pod : Pod → Objects
of_pod p = record { service = none; pod = some p; deployment = none; time = pos 0 }

abbrev more : Pod
more = record router { annotations = some ((kt_ref_count, codes "3") ∷ []) }

two : read (some counts) kt_ref_count ≡ itoa (pos 2)
unfolding itoa format_nat write_digits read lookup text_eq
two = refl

of_api :
    IsRouter api
      (codes "app-kt-router")
      (codes "dev")
      1
      (of_pod router)
      (of_pod router)
      router
      router
      counts
unfolding find_pod text_eq
of_api = record {
  found = refl;
  stays = refl;
  counted = two;
  beat = refl;
  found_again = refl;
  kept = refl;
  counted_again = two;
  room = omega arith;
}

of_broken :
    IsRouter broken
      (codes "app-kt-router")
      (codes "dev")
      1
      (of_pod router)
      (of_pod router)
      router
      router
      counts
unfolding find_pod text_eq
of_broken = record {
  found = refl;
  stays = refl;
  counted = two;
  beat = refl;
  found_again = refl;
  kept = refl;
  counted_again = two;
  room = omega arith;
}

recover_auto_mesh_route-create_router_example :
    (v : Objects) × ((t : Objects) × ((create_router api machine options
            (codes "app-kt-router")
            (codes "app")
            ((80, 8080) ∷ [])
            labels
            (codes "version:v1")
            (connect_run, of_pod router)
          ≡ (
            ok (router_labels router labels),
            (record connect_run { router = codes "app-kt-router" }, v),
          ))
        × ((recover_auto_mesh_route api machine options
                (record connect_run { router = codes "app-kt-router" })
                v
              ≡ (ok tt, t))
            × IsReleasedAfter api 1 (codes "app-kt-router") (codes "dev") t)))
unfolding is_set
recover_auto_mesh_route-create_router_example =
    recover_auto_mesh_route-create_router api machine options connect_run (codes "app-kt-router")
      (codes "app") (codes "version:v1") ((80, 8080) ∷ []) labels (of_pod router) (of_pod router) 1
      router router counts (example-IsPodStore none) (λ p w. (p, (record w { pod = some p }, refl)))
      (λ cmd w. (w, (refl, refl))) refl of_api

of_broken_store : IsPodStore api → IsPodStore broken
of_broken_store st = record { get_named = st.get_named; get_updated = st.get_updated }

create_router_leak_example :
    IsReleasedAfter broken 1 (codes "app-kt-router") (codes "dev") (of_pod router)
    × ((e : Error) × ((v : Objects) × ((z : Objects) × ((create_router broken machine options
                  (codes "app-kt-router")
                  (codes "app")
                  ((80, 8080) ∷ [])
                  labels
                  (codes "version:v1")
                  (mesh_run, of_pod router)
                ≡ (err e, (mesh_run, v)))
              × ((cleanup_workspace broken machine options mesh_run v ≡ (ok tt, z))
                  × IsReleasedAfter broken 2 (codes "app-kt-router") (codes "dev") z)))))
create_router_leak_example =
    create_router_leak broken machine options mesh_run (codes "app-kt-router") (codes "app")
      (codes "version:v1") ((80, 8080) ∷ []) labels (of_pod router) (of_pod router) 1 router router
      counts (of_broken_store (example-IsPodStore none))
      (λ p w. (p, (record w { pod = some p }, refl))) of_broken
      (record {
        commands = λ cmd w. (failed, (w, (refl, refl)));
        files = λ file w. (w, (refl, refl));
        services = λ svc_name w. (record w { service = none }, (refl, refl));
      })
      (record { meshes = refl; no_router = refl; no_shadow = refl })
