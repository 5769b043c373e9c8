-- ===== src/Shadow/Wait/Looks.antt =====
-- How often the waits of pkg/kt/service/cluster/pod.go look, and how long they sleep.
use kt_connect.Common.{
  ℕ, zero, suc, ◌*◌, ◌/◌, ◌≡◌, ◌≤◌, ◌<◌, refl, ◌∙◌, true, false, List, [], Text, arith, Bool-cases,
  inl, inr,
}
use kt_connect.Common.Exec.{Error, ok, err, failed, not_found, Reply-cases}
use kt_connect.Collection.{GoMap}
use kt_connect.Cluster.{Api, Pod}
use kt_connect.Shadow.Wait.{
  filter_running_pods, ready_or, looks_in, wait_pods_ready, wait_pod_ready, wait_pod_terminate,
  wait_pods_ready_in, wait_pod_ready_in, wait_pod_terminated,
}

-- From one world to another by that many sleeps, before each of which the test holds.
pub data Sleeps (c : Api) (Waiting : c.World → Type 0) (seconds : ℕ)
    : ℕ → c.World → c.World → Type 0 where
  awake : {w : c.World} → Sleeps c Waiting seconds 0 w w
  asleep :
      {n : ℕ} {u v w : c.World}
      → Waiting u
      → c.sleep seconds u ≡ (ok tt, v)
      → Sleeps c Waiting seconds n v w
      → Sleeps c Waiting seconds (suc n) u w

-- A pause returns.
abbrev pub IsPause : Api → Type 0
IsPause c = (seconds : ℕ) (w : c.World) → (v : c.World) × (c.sleep seconds w ≡ (ok tt, v))

module _ (c : Api) (name namespace : Text) where
  -- The pod is there and does not run yet; it is there and ends.
  abbrev pub IsStarting : c.World → Type 0
  IsStarting w = (p : Pod) × ((c.get_pod name namespace w ≡ ok p) × (p.running ≡ false))

  abbrev pub IsEnding : c.World → Type 0
  IsEnding w = (p : Pod) × ((c.get_pod name namespace w ≡ ok p) × (p.terminating ≡ true))

module _ (c : Api) (name namespace : Text) where
  one_look :
      (n : ℕ) (u v : c.World)
      → IsStarting c name namespace u
      → c.sleep 6 u ≡ (ok tt, v)
      → wait_pod_ready c (suc n) name namespace u ≡ wait_pod_ready c n name namespace v
  unfolding wait_pod_ready
  one_look n u v (p, (there, off)) pause = rw (there, off, pause) refl

  last_look :
      (n : ℕ) (w : c.World) (p : Pod)
      → c.get_pod name namespace w ≡ ok p
      → p.running ≡ true
      → wait_pod_ready c (suc n) name namespace w ≡ (ok p, w)
  unfolding wait_pod_ready
  last_look n w p there on = rw (there, on) refl

  no_look : (w : c.World) → wait_pod_ready c 0 name namespace w ≡ (err failed, w)
  unfolding wait_pod_ready
  no_look w = refl

  found :
      (k n : ℕ) (u w : c.World) (p : Pod)
      → Sleeps c (IsStarting c name namespace) 6 k u w
      → k < n
      → c.get_pod name namespace w ≡ ok p
      → p.running ≡ true
      → wait_pod_ready c n name namespace u ≡ (ok p, w)
  found k zero u w p s less there on = absurd (omega (arith, less))
  found zero (suc n) u w p awake less there on = last_look n w p there on
  found (suc k) (suc n) u w p (asleep {v = v} wait pause s) less there on =
      one_look n u v wait pause ∙ found k n v w p s (omega (arith, less)) there on

  timed_out :
      (n : ℕ) (u w : c.World)
      → Sleeps c (IsStarting c name namespace) 6 n u w
      → wait_pod_ready c n name namespace u ≡ (err failed, w)
  timed_out zero u w awake = no_look w
  timed_out (suc n) u w (asleep {v = v} wait pause s) =
      one_look n u v wait pause ∙ timed_out n v w s

-- A pod that is seen to start at each look and runs after k sleeps of six seconds is returned if
-- these sleeps are no longer than the wait that is asked for.
pub wait_pod_ready_lem :
    (c : Api) (name namespace : Text) (timeout k : ℕ) (u w : c.World) (p : Pod)
    → Sleeps c (IsStarting c name namespace) 6 k u w
    → 6 * k ≤ timeout
    → c.get_pod name namespace w ≡ ok p
    → p.running ≡ true
    → wait_pod_ready_in c timeout name namespace u ≡ (ok p, w)
unfolding wait_pod_ready_in
wait_pod_ready_lem c name namespace timeout k u w p s short there on =
    found c name namespace k (looks_in timeout) u w p s (omega (arith, short)) there on

module _ (c : Api) (labels : GoMap) (namespace : Text) where
  -- No pod with these labels runs yet.
  abbrev pub HasNoneRunning : c.World → Type 0
  HasNoneRunning w =
      (ps : List Pod) × ((c.get_pods_by_label labels namespace w ≡ ok ps)
        × (filter_running_pods ps ≡ []))

  one_list :
      (n : ℕ) (u v : c.World)
      → HasNoneRunning u
      → c.sleep 1 u ≡ (ok tt, v)
      → wait_pods_ready c (suc n) labels namespace u ≡ wait_pods_ready c n labels namespace v
  unfolding wait_pods_ready ready_or
  one_list n u v (ps, (there, off)) pause = rw (there, off, pause) refl

  no_list :
      (w : c.World) → HasNoneRunning w → wait_pods_ready c 0 labels namespace w ≡ (err failed, w)
  unfolding wait_pods_ready
  no_list w (ps, (there, off)) = rw there refl

  all_listed :
      (n : ℕ) (u w : c.World)
      → Sleeps c HasNoneRunning 1 n u w
      → HasNoneRunning w
      → wait_pods_ready c n labels namespace u ≡ (err failed, w)
  all_listed zero u w awake off = no_list w off
  all_listed (suc n) u w (asleep {v = v} wait pause s) off =
      one_list n u v wait pause ∙ all_listed n v w s off

-- The wait for the pods of a deployment sleeps one second between its looks, not six: if no pod runs
-- yet it ends with an error after a sixth of the wait that is asked for, and one second.
pub wait_pods_ready_lem :
    (c : Api) (labels : GoMap) (namespace : Text) (timeout : ℕ) (u w : c.World)
    → Sleeps c (HasNoneRunning c labels namespace) 1 (suc (timeout / 6)) u w
    → HasNoneRunning c labels namespace w
    → wait_pods_ready_in c timeout labels namespace u ≡ (err failed, w)
unfolding wait_pods_ready_in
wait_pods_ready_lem c labels namespace timeout u w s off =
    all_listed c labels namespace (looks_in timeout) u w s off

module _ (c : Api) (name namespace : Text) where
  -- What a wait for the end of a pod comes to, behind a sleep.
  gone :
      (n : ℕ) (v w : c.World) (e : Error)
      → c.sleep 6 v ≡ (ok tt, w)
      → c.get_pod name namespace w ≡ err e
      → wait_pod_terminate c (suc n) name namespace v ≡ (err e, w)
  unfolding wait_pod_terminate
  gone n v w e pause there = rw (pause, there) refl

  still_there :
      (n : ℕ) (u v : c.World)
      → c.sleep 6 u ≡ (ok tt, v)
      → IsEnding c name namespace v
      → wait_pod_terminate c (suc n) name namespace u ≡ wait_pod_terminate c n name namespace v
  unfolding wait_pod_terminate
  still_there n u v pause (p, (there, ends)) = rw (pause, there, ends) refl

  gone_after :
      (k n : ℕ) (u w : c.World)
      → Sleeps c (IsEnding c name namespace) 6 (suc k) u w
      → k < n
      → c.get_pod name namespace w ≡ err not_found
      → wait_pod_terminate c n name namespace u ≡ (err not_found, w)
  gone_after k zero u w s less there = absurd (omega (arith, less))
  gone_after zero (suc n) u w (asleep wait pause awake) less there =
      gone n u w not_found pause there
  gone_after (suc k) (suc n) u w (asleep {v = v} wait pause (asleep wait' pause' s)) less there =
      still_there n u v pause wait'
      ∙ gone_after k n v w (asleep wait' pause' s) (omega (arith, less)) there

-- A pod that ends and is gone after at most eleven sleeps of six seconds is waited for: the error
-- is "not found", which the callers take for the end of the pod.
pub wait_pod_terminated_lem :
    (c : Api) (name namespace : Text) (k : ℕ) (u w : c.World)
    → Sleeps c (IsEnding c name namespace) 6 (suc k) u w
    → k ≤ 10
    → c.get_pod name namespace w ≡ err not_found
    → wait_pod_terminated c name namespace u ≡ (err not_found, w)
unfolding wait_pod_terminated
wait_pod_terminated_lem c name namespace k u w s few there =
    gone_after c name namespace k 11 u w s (omega (arith, few)) there

-- Any world.
abbrev AnyWorld : (c : Api) → c.World → Type 0
AnyWorld c w = Unit

-- So many sleeps at most lead from one world to another.
pub AtMost : (c : Api) (n : ℕ) (u v : c.World) → Type 0
AtMost c n u v = (k : ℕ) × ((k ≤ n) × Sleeps c (AnyWorld c) 6 k u v)

module _ (c : Api) (name namespace : Text) where
  at_once : (n : ℕ) (w : c.World) → AtMost c n w w
  unfolding AtMost
  at_once n w = (0, (omega arith, awake))

  after_one :
      (n : ℕ) (u v w : c.World) → c.sleep 6 u ≡ (ok tt, v) → AtMost c n v w → AtMost c (suc n) u w
  unfolding AtMost
  after_one n u v w pause (k, (few, s)) = (suc k, (omega (arith, few), asleep tt pause s))

  sleeps_of :
      (n : ℕ) (u : c.World) → IsPause c → AtMost c n u (wait_pod_ready c n name namespace u).1
  unfolding wait_pod_ready
  sleeps_of zero u pauses = at_once 0 u
  sleeps_of (suc n) u pauses = elim (Reply-cases (c.get_pod name namespace u)) [
    | inl (p, there) ↦ elim (Bool-cases p.running) [
      | inl on ↦ rw (there, on) (at_once (suc n) u)
      | inr off ↦
          let (v, pause) = pauses 6 u in
          rw (there, off, pause)
            (after_one n u v (wait_pod_ready c n name namespace v).1 pause (sleeps_of n v pauses))
    ]
    | inr (inl (e, there)) ↦ rw there (at_once (suc n) u)
    | inr (inr there) ↦ rw there (at_once (suc n) u)
  ]

-- Whatever the pod does, the wait for it ends after at most a sixth of the seconds that are asked
-- for, and one, sleeps of six seconds, if a sleep returns.
pub wait_pod_ready-AtMost :
    (c : Api) (name namespace : Text) (timeout : ℕ) (u : c.World)
    → IsPause c
    → AtMost c (suc (timeout / 6)) u (wait_pod_ready_in c timeout name namespace u).1
unfolding wait_pod_ready_in
wait_pod_ready-AtMost c name namespace timeout u pauses =
    sleeps_of c name namespace (looks_in timeout) u pauses
