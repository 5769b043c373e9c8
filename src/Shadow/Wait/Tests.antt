-- ===== src/Shadow/Wait/Tests.antt =====
-- The waits at a pod that starts, or ends, as time passes.
use kt_connect.Common.{ℕ, ◌≡◌, refl, true, false, none, [], ◌∷◌, codes, arith, if◌then◌else◌}
use kt_connect.Common.Int.{pos, ◌+ℤ◌, ltb_ℤ}
use kt_connect.Common.Exec.{ok, err, failed, not_found}
use kt_connect.Cluster.{Api, Pod}
use kt_connect.Cluster.Example.{Objects, example_api}
use kt_connect.Shadow.Wait.{
  wait_pod_ready_in, wait_pods_ready_in, wait_pod_terminated, filter_running_pods,
}
use kt_connect.Shadow.Wait.Looks.{
  awake, asleep, AtMost, wait_pod_ready_lem, wait_pods_ready_lem, wait_pod_terminated_lem,
  wait_pod_ready-AtMost,
}

abbrev waking : Pod
waking = record {
  name = codes "shadow";
  namespace = codes "dev";
  labels = none;
  annotations = none;
  terminating = true;
  running = false;
  pod_ip = [];
  containers = [];
}

-- A server whose clock goes while the program sleeps.
abbrev timed : Api
timed = record (example_api none) { sleep = λ n w. (ok tt, record w { time = w.time +ℤ pos n }) }

abbrev starting : Api
starting = record timed {
  get_pod = λ n ns w. ok (record waking { running = ltb_ℤ (pos 11) w.time });
  get_pods_by_label = λ l ns w. ok (waking ∷ []);
}

abbrev ending : Api
ending = record timed {
  get_pod = λ n ns w. if ltb_ℤ (pos 11) w.time then err not_found else ok waking;
}

abbrev after : ℕ → Objects
after n = record { service = none; pod = none; deployment = none; time = pos n }

wait_pod_ready_example :
    wait_pod_ready_in starting 12 (codes "shadow") (codes "dev") (after 0)
    ≡ (ok (record waking { running = true }), after 12)
unfolding ◌+ℤ◌
wait_pod_ready_example =
    wait_pod_ready_lem starting (codes "shadow") (codes "dev") 12 2 (after 0) (after 12)
      (record waking { running = true })
      (asleep (waking, (refl, refl)) refl (asleep (waking, (refl, refl)) refl awake)) (omega arith)
      refl refl

wait_pods_ready_example :
    wait_pods_ready_in starting 6 none (codes "dev") (after 0) ≡ (err failed, after 2)
unfolding filter_running_pods ◌+ℤ◌
wait_pods_ready_example =
    wait_pods_ready_lem starting none (codes "dev") 6 (after 0) (after 2)
      (asleep (waking ∷ [], (refl, refl)) refl (asleep (waking ∷ [], (refl, refl)) refl awake))
      (waking ∷ [], (refl, refl))

wait_pod_terminated_example :
    wait_pod_terminated ending (codes "shadow") (codes "dev") (after 0) ≡ (err not_found, after 12)
unfolding ◌+ℤ◌
wait_pod_terminated_example =
    wait_pod_terminated_lem ending (codes "shadow") (codes "dev") 1 (after 0) (after 12)
      (asleep (waking, (refl, refl)) refl (asleep (waking, (refl, refl)) refl awake)) (omega arith)
      refl

wait_pod_ready-AtMost_example :
    AtMost starting 3
      (after 0)
      (wait_pod_ready_in starting 12 (codes "shadow") (codes "dev") (after 0)).1
wait_pod_ready-AtMost_example =
    wait_pod_ready-AtMost starting (codes "shadow") (codes "dev") 12 (after 0)
      (λ n w. (record w { time = w.time +ℤ pos n }, refl))
