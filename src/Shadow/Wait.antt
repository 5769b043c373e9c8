-- ===== src/Shadow/Wait.antt =====
-- pkg/kt/service/cluster/pod.go: the waits for pods to start and to end. A function counts the looks
-- that are left, where the program counts those done.
pub mod Looks
mod Tests
use kt_connect.Common.{
  ℕ, zero, suc, ◌+◌, ◌/◌, Bool, true, false, not, ◌&&◌, List, [], ◌∷◌, if◌then◌else◌, Text,
}
use kt_connect.Common.Exec.{Reply, ok, err, panic, failed, ◌>>=◌, ◌>>◌, done, raise, ask}
use kt_connect.Collection.{GoMap}
use kt_connect.Cluster.{Api, Pod}

-- filterRunningPods of shadow_pod.go
unfoldable pub filter_running_pods : List Pod → List Pod
filter_running_pods [] = []
filter_running_pods (pod ∷ pods) =
    let rest = filter_running_pods pods in
    if pod.running && not pod.terminating then pod ∷ rest else rest

abbrev pub start_interval : ℕ
start_interval = 6

-- The looks that a wait of that many seconds has.
abbrev pub looks_in : ℕ → ℕ
looks_in timeout = suc (timeout / start_interval)

module _ (c : Api) where
  open c use {World, get_pod, get_pods_by_label, sleep}

  -- waitPodsReady, with the running pods.
  unfoldable pub ready_or :
      (World → Reply (List Pod) × World) → List Pod → World → Reply (List Pod) × World
  ready_or again [] w = (sleep 1 >> again) w
  ready_or again (pod ∷ pods) w = done (pod ∷ pods) w

  -- waitPodsReady; after the last look it lists the pods once more for its message.
  unfoldable pub wait_pods_ready : ℕ → GoMap → Text → World → Reply (List Pod) × World
  unfolding ready_or filter_running_pods
  wait_pods_ready zero labels namespace w =
      (do _ ← ask (get_pods_by_label labels namespace); raise failed) w
  wait_pods_ready (suc left) labels namespace w =
      let again = wait_pods_ready left labels namespace in
      (do
        pods ← ask (get_pods_by_label labels namespace)
        ready_or again (filter_running_pods pods))
        w

  -- waitPodReady
  unfoldable pub wait_pod_ready : ℕ → Text → Text → World → Reply Pod × World
  wait_pod_ready zero name namespace w = raise failed w
  wait_pod_ready (suc left) name namespace w =
      let again = wait_pod_ready left name namespace in
      (do
        pod ← ask (get_pod name namespace)
        if pod.running then done pod else sleep start_interval >> again)
        w

  -- waitPodTerminate; the error "not found" says that the pod is gone.
  unfoldable pub wait_pod_terminate : ℕ → Text → Text → World → Reply Pod × World
  wait_pod_terminate zero name namespace w = raise failed w
  wait_pod_terminate (suc left) name namespace w =
      let again = wait_pod_terminate left name namespace in
      (do
        sleep start_interval
        pod ← ask (get_pod name namespace)
        if pod.terminating then again else done pod)
        w

  -- WaitPodsReady, WaitPodReady and WaitPodTerminate
  unfoldable pub wait_pods_ready_in : ℕ → GoMap → Text → World → Reply (List Pod) × World
  wait_pods_ready_in timeout = wait_pods_ready (looks_in timeout)

  unfoldable pub wait_pod_ready_in : ℕ → Text → Text → World → Reply Pod × World
  wait_pod_ready_in timeout = wait_pod_ready (looks_in timeout)

  unfoldable pub wait_pod_terminated : Text → Text → World → Reply Pod × World
  wait_pod_terminated = wait_pod_terminate 11
