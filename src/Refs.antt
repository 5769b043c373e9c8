-- ===== src/Refs.antt =====
-- The count of the users of a shared pod or deployment, and the scale of a deployment:
-- pkg/kt/service/cluster/pod.go, deployment.go and global.go.
pub mod Release
mod Tests
use kt_connect.Common.{
  ℕ, zero, suc, ◌+◌, Bool, true, false, not, ◌&&◌, ◌||◌, Option, none, some, List, [], ◌∷◌, ◌==◌,
  if◌then◌else◌, Text, text_eq, codes,
}
use kt_connect.Common.Int.{ℤ, pos, negsuc, ◌+ℤ◌, ◌-ℤ◌}
use kt_connect.Common.Dict.{Dict, lookup, put, delete}
use kt_connect.Common.Exec.{
  Reply, ok, err, panic, failed, ◌>>=◌, ◌>>◌, done, raise, ask, reply, attempt, ignore,
}
use kt_connect.Strings.{atoi, itoa, max_int}
use kt_connect.Collection.{GoMap, entries, read, map_put}
use kt_connect.Cluster.{Api, Pod, Deployment, kt_ref_count}

-- `count + 1` and `count - 1` on a 64-bit int
unfoldable pub next_int : ℤ → ℤ
next_int (pos n) = if n == max_int then negsuc max_int else pos (suc n)
next_int (negsuc n) = negsuc n +ℤ pos 1

unfoldable pub prev_int : ℤ → ℤ
prev_int (pos n) = pos n -ℤ pos 1
prev_int (negsuc n) = if n == max_int then pos max_int else negsuc (suc n)

-- strconv.Atoi, as a reply
unfoldable pub count_of : Text → Reply ℤ
count_of ref_count = elim (atoi ref_count) [ none ↦ err failed | some count ↦ ok count ]

-- decreaseRef
unfoldable pub decrease_ref : Text → Reply Text
unfolding count_of prev_int
decrease_ref ref_count = elim (count_of ref_count) [
  | ok count ↦ ok (itoa (prev_int count))
  | err e ↦ err e
  | panic ↦ panic
]

-- `m[k] = v`, which panics at the nil map.
unfoldable pub assign : GoMap → Text → Text → Reply GoMap
assign none k v = panic
assign (some m) k v = ok (some (put k v m))

-- int32 values compared
abbrev pub eq_ℤ : ℤ → ℤ → Bool
eq_ℤ (pos m) (pos n) = m == n
eq_ℤ (negsuc m) (negsuc n) = m == n
eq_ℤ _ _ = false

module _ (c : Api) where
  open c use {World, get_pod, update_pod, get_deployment, update_deployment}

  -- IncreasePodRef
  unfoldable pub increase_pod_ref : Text → Text → World → Reply (Unit {0}) × World
  unfolding count_of next_int assign
  increase_pod_ref name namespace w =
      (do
        pod ← ask (get_pod name namespace)
        count ← reply (count_of (read pod.annotations kt_ref_count))
        counted ← reply (assign pod.annotations kt_ref_count (itoa (next_int count)))
        update_pod (record pod { annotations = counted })
        done tt)
        w

  -- DecreasePodRef: the error of the update is dropped.
  unfoldable pub decrease_pod_ref : Text → Text → World → Reply Bool × World
  unfolding decrease_ref
  decrease_pod_ref name namespace w =
      (do
        pod ← ask (get_pod name namespace)
        if text_eq (read pod.annotations kt_ref_count) (codes "1") then done true else (do
          count ← reply (decrease_ref (read pod.annotations kt_ref_count))
          ignore
              (update_pod (record pod { annotations = map_put pod.annotations kt_ref_count count }))
          done false))
        w

  -- IncreaseDeploymentRef
  unfoldable pub increase_deployment_ref : Text → Text → World → Reply (Unit {0}) × World
  unfolding count_of next_int assign
  increase_deployment_ref name namespace w =
      (do
        app ← ask (get_deployment name namespace)
        count ← reply (count_of (read app.annotations kt_ref_count))
        counted ← reply (assign app.annotations kt_ref_count (itoa (next_int count)))
        update_deployment (record app { annotations = counted })
        done tt)
        w

  -- DecreaseDeploymentRef, with the new count: an unreadable one is (false, nil).
  unfoldable pub write_count : Deployment → Reply Text → World → Reply Bool × World
  write_count app (ok count) w =
      (do
        update_deployment (record app { annotations = map_put app.annotations kt_ref_count count })
        done false)
        w
  write_count app (err e) w = done false w
  write_count app panic w = (panic, w)

  -- DecreaseDeploymentRef
  unfoldable pub decrease_deployment_ref : Text → Text → World → Reply Bool × World
  unfolding decrease_ref write_count
  decrease_deployment_ref name namespace w =
      (do
        app ← ask (get_deployment name namespace)
        if text_eq (read app.annotations kt_ref_count) (codes "1")
            then done true
            else write_count app (decrease_ref (read app.annotations kt_ref_count)))
        w

  -- ScaleTo
  unfoldable pub scale_to : Text → Text → ℤ → World → Reply (Unit {0}) × World
  scale_to name namespace replicas w =
      (do
        deployment ← ask (get_deployment name namespace)
        if eq_ℤ deployment.replicas replicas
            then done tt
            else (do update_deployment (record deployment { replicas = replicas }); done tt))
        w
