-- ===== src/Refs/Release.antt =====
-- IncreasePodRef and DecreasePodRef: each user is counted, and the last one removes the pod.
use kt_connect.Common.{
  ℕ, zero, suc, ◌+◌, ◌-◌, ◌≡◌, ◌≢◌, ◌≤◌, refl, sym, ap, ◌∙◌, subst, Bool, true, false, not, ◌&&◌,
  ◌||◌, Option, none, some, List, [], ◌∷◌, arith, ◌==◌, if◌then◌else◌, Text, text_eq, text_eq_iff,
  text_eq_refl, codes, Bool-cases, inl, inr, ◌⊎◌, leb,
}
use kt_connect.Common.Int.{ℤ, pos, negsuc, ◌+ℤ◌, ◌-ℤ◌}
use kt_connect.Common.Dict.{Dict, lookup, put, lookup-put}
use kt_connect.Common.Exec.{ok, err, panic, failed}
use kt_connect.Strings.{atoi, itoa, max_int, format_nat, write_digits}
use kt_connect.Strings.Number.{InRange, atoi-itoa}
use kt_connect.Collection.{GoMap, entries, read, value_of, map_put}
use kt_connect.Cluster.{Api, Pod, kt_ref_count, IsPodStore, IsPodWritable, SameMap}
use kt_connect.General.Selector.{lookup-map_put}
use kt_connect.Refs.{
  next_int, prev_int, count_of, decrease_ref, assign, increase_pod_ref, decrease_pod_ref,
}

itoa_one : itoa (pos 1) ≡ codes "1"
unfolding itoa format_nat write_digits
itoa_one = refl

pub count_of-itoa : (z : ℤ) → InRange z → count_of (itoa z) ≡ ok z
unfolding count_of
count_of-itoa z range =
    ap (λ o. elim o [ none ↦ err failed | some count ↦ ok count ]) (atoi-itoa z range)

decrease_ref-itoa :
    (n : ℕ) → suc n ≤ max_int → decrease_ref (itoa (pos (suc n))) ≡ ok (itoa (pos n))
unfolding decrease_ref
decrease_ref-itoa n h =
    ap (λ r. elim r [ ok count ↦ ok (itoa (prev_int count)) | err e ↦ err e | panic ↦ panic ])
      (count_of-itoa (pos (suc n)) h)
    ∙ ap (λ z. ok (itoa z)) (prev n)
  where
    prev : (n : ℕ) → prev_int (pos (suc n)) ≡ pos n
    prev n = unfold prev_int kt_connect.Common.Int.◌-ℤ◌ in ground arith

-- Only the count of one is printed as "1".
itoa_not_one :
    (n : ℕ) → suc (suc n) ≤ max_int → text_eq (itoa (pos (suc (suc n)))) (codes "1") ≡ false
itoa_not_one n h = elim (Bool-cases (text_eq (itoa (pos (suc (suc n)))) (codes "1"))) [
  | inl same ↦
      let printed : itoa (pos (suc (suc n))) ≡ itoa (pos 1) =
        (text_eq_iff (itoa (pos (suc (suc n)))) (codes "1")).0 same ∙ sym itoa_one in
      let read_back : some (pos (suc (suc n))) ≡ some (pos 1) =
        sym (atoi-itoa (pos (suc (suc n))) h)
        ∙ ap atoi printed
        ∙ atoi-itoa (pos 1) (ground arith) in
      absurd (ground (arith, read_back))
  | inr differ ↦ differ
]

read-map_put : (m : GoMap) (k v : Text) → read (map_put m k v) k ≡ v
unfolding read
read-map_put m k v =
    ap value_of (
      lookup-map_put m k k v
      ∙ ap (λ b. if b then some v else lookup k (entries m)) (text_eq_refl k))

read-put : (d : Dict Text) (k v : Text) → read (some (put k v d)) k ≡ v
unfolding read
read-put d k v =
    ap value_of (lookup-put k k v d ∙ ap (λ b. if b then some v else lookup k d) (text_eq_refl k))

read-SameMap : (m n : GoMap) (k : Text) → SameMap m n → read m k ≡ read n k
unfolding read
read-SameMap m n k same = ap value_of (same k)

module _ (c : Api) where
  open c use {World, get_pod, update_pod}

  -- DecreasePodRef asks for the removal of the pod at the call after `k` others, and not before.
  abbrev pub IsReleasedAfter : ℕ → Text → Text → World → Type 0
  IsReleasedAfter zero name ns w = decrease_pod_ref c name ns w ≡ (ok true, w)
  IsReleasedAfter (suc k) name ns w =
      (w' : World) × ((decrease_pod_ref c name ns w ≡ (ok false, w'))
        × IsReleasedAfter k name ns w')

  last_user :
      (name ns : Text) (w : World) (pod : Pod)
      → get_pod name ns w ≡ ok pod
      → read pod.annotations kt_ref_count ≡ itoa (pos 1)
      → decrease_pod_ref c name ns w ≡ (ok true, w)
  last_user name ns w pod found counted =
      let one : text_eq (read pod.annotations kt_ref_count) (codes "1") ≡ true =
        (text_eq_iff (read pod.annotations kt_ref_count) (codes "1")).1 (counted ∙ itoa_one) in
      unfold decrease_pod_ref in rw (found, one) refl

  other_user :
      (name ns t : Text) (w w' : World) (pod q : Pod)
      → get_pod name ns w ≡ ok pod
      → text_eq (read pod.annotations kt_ref_count) (codes "1") ≡ false
      → decrease_ref (read pod.annotations kt_ref_count) ≡ ok t
      → update_pod (record pod { annotations = map_put pod.annotations kt_ref_count t }) w
        ≡ (ok q, w')
      → decrease_pod_ref c name ns w ≡ (ok false, w')
  other_user name ns t w w' pod q found several text wrote =
      unfold decrease_pod_ref in rw (found, several, text, wrote) refl

  -- Behind DecreasePodRef the pod is found with one user less, but for the last one.
  pub decreased :
      IsPodStore c
      → IsPodWritable c
      → (k : ℕ) (name ns : Text) (w : World) (pod : Pod) → suc (suc k) ≤ max_int
      → get_pod name ns w ≡ ok pod
      → read pod.annotations kt_ref_count ≡ itoa (pos (suc (suc k)))
      → (w' : World) × ((q : Pod) × ((decrease_pod_ref c name ns w ≡ (ok false, w'))
            × ((get_pod name ns w' ≡ ok q)
                × (read q.annotations kt_ref_count ≡ itoa (pos (suc k))))))
  decreased st accepts k name ns w pod bound found counted =
      let several : text_eq (read pod.annotations kt_ref_count) (codes "1") ≡ false =
        ap (λ t. text_eq t (codes "1")) counted ∙ itoa_not_one k bound in
      let text : decrease_ref (read pod.annotations kt_ref_count) ≡ ok (itoa (pos (suc k))) =
        ap decrease_ref counted ∙ decrease_ref-itoa (suc k) bound in
      let written : Pod = record pod {
        annotations = map_put pod.annotations kt_ref_count (itoa (pos (suc k)));
      } in
      let (q, (w', wrote)) = accepts written w in
      let (there, same) = st.get_updated written q w w' wrote in
      let (named, spaced) = st.get_named name ns w pod found in
      (
        w',
        (
          q,
          (
            other_user name ns (itoa (pos (suc k))) w w' pod q found several text wrote,
            (
              cc (there, named, spaced),
              read-SameMap q.annotations written.annotations kt_ref_count same
                  ∙ read-map_put pod.annotations kt_ref_count (itoa (pos (suc k))),
            ),
          ),
        ),
      )

  -- If a pod counts k + 1 users, a 64-bit number, and the server accepts updates of pods, then the
  -- first k calls of DecreasePodRef do not ask for the removal of the pod, and the next one does.
  pub decrease_pod_ref-IsReleasedAfter :
      IsPodStore c
      → IsPodWritable c
      → (k : ℕ) (name ns : Text) (w : World) (pod : Pod) → suc k ≤ max_int
      → get_pod name ns w ≡ ok pod
      → read pod.annotations kt_ref_count ≡ itoa (pos (suc k))
      → IsReleasedAfter k name ns w
  decrease_pod_ref-IsReleasedAfter st accepts zero name ns w pod bound found counted =
      last_user name ns w pod found counted
  decrease_pod_ref-IsReleasedAfter st accepts (suc k) name ns w pod bound found counted =
      let (w', (q, (less, (there, recount)))) =
        decreased st accepts k name ns w pod bound found counted in
      (
        w',
        (
          less,
          decrease_pod_ref-IsReleasedAfter st accepts k name ns w' q (omega arith) there recount,
        ),
      )

  increase_step :
      (name ns : Text) (w w' : World) (pod q : Pod) (d : Dict Text) (n : ℕ)
      → get_pod name ns w ≡ ok pod
      → pod.annotations ≡ some d
      → count_of (read pod.annotations kt_ref_count) ≡ ok (pos n)
      → update_pod
          (record pod { annotations = some (put kt_ref_count (itoa (next_int (pos n))) d) })
          w
        ≡ (ok q, w')
      → increase_pod_ref c name ns w ≡ (ok tt, w')
  increase_step name ns w w' pod q d n found kept counted wrote =
      unfold increase_pod_ref in rw (found, counted, kept, assign, wrote) refl

  -- Behind IncreasePodRef the pod is found with one more user.
  pub increased :
      IsPodStore c
      → IsPodWritable c
      → (k : ℕ) (name ns : Text) (w : World) (pod : Pod) (d : Dict Text) → suc (suc k) ≤ max_int
      → get_pod name ns w ≡ ok pod
      → pod.annotations ≡ some d
      → read pod.annotations kt_ref_count ≡ itoa (pos (suc k))
      → (w' : World) × ((q : Pod) × ((increase_pod_ref c name ns w ≡ (ok tt, w'))
            × ((get_pod name ns w' ≡ ok q)
                × (read q.annotations kt_ref_count ≡ itoa (pos (suc (suc k)))))))
  increased st accepts k name ns w pod d bound found kept counted =
      let one_more : next_int (pos (suc k)) ≡ pos (suc (suc k)) = unfold next_int in ground arith in
      let written : Pod = record pod {
        annotations = some (put kt_ref_count (itoa (next_int (pos (suc k)))) d);
      } in
      let count : count_of (read pod.annotations kt_ref_count) ≡ ok (pos (suc k)) =
        ap count_of counted ∙ count_of-itoa (pos (suc k)) (omega arith) in
      let (q, (w', wrote)) = accepts written w in
      let (there, same) = st.get_updated written q w w' wrote in
      let (named, spaced) = st.get_named name ns w pod found in
      let recount : read written.annotations kt_ref_count ≡ itoa (next_int (pos (suc k))) =
        read-put d kt_ref_count (itoa (next_int (pos (suc k)))) in
      (
        w',
        (
          q,
          (
            increase_step name ns w w' pod q d (suc k) found kept count wrote,
            (
              cc (there, named, spaced),
              read-SameMap q.annotations written.annotations kt_ref_count same
                  ∙ recount
                  ∙ ap itoa one_more,
            ),
          ),
        ),
      )

  -- If a pod counts k + 1 users and there is room for one more, and the server accepts updates of
  -- pods, then behind IncreasePodRef it takes k + 1 calls of DecreasePodRef before the next one asks
  -- for the removal of the pod.
  pub increase_pod_ref-IsReleasedAfter :
      IsPodStore c
      → IsPodWritable c
      → (k : ℕ) (name ns : Text) (w : World) (pod : Pod) (d : Dict Text) → suc (suc k) ≤ max_int
      → get_pod name ns w ≡ ok pod
      → pod.annotations ≡ some d
      → read pod.annotations kt_ref_count ≡ itoa (pos (suc k))
      → (w' : World) × ((increase_pod_ref c name ns w ≡ (ok tt, w'))
          × IsReleasedAfter (suc k) name ns w')
  increase_pod_ref-IsReleasedAfter st accepts k name ns w pod d bound found kept counted =
      let (w', (q, (more, (there, recount)))) =
        increased st accepts k name ns w pod d bound found kept counted in
      (
        w',
        (
          more,
          decrease_pod_ref-IsReleasedAfter st accepts (suc k) name ns w' q bound there recount,
        ),
      )
