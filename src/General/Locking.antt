-- ===== src/General/Locking.antt =====
-- LockService and UnlockService: who gets the lock, how long the wait is, and what remains of it.
use kt_connect.Common.{
  ℕ, zero, suc, ◌≡◌, refl, sym, ap, ◌∙◌, true, false, none, some, if◌then◌else◌, Text, text_eq,
  text_eq_refl, Bool-cases, inl, inr,
}
use kt_connect.Common.Int.{ℤ, pos, negsuc, ◌-ℤ◌, ltb_ℤ}
use kt_connect.Common.Dict.{lookup, lookup-put}
use kt_connect.Common.Exec.{Reply, ok, err, panic, Reply-cases, and_then, caught}
use kt_connect.Strings.Number.{InRange, atoi-itoa}
use kt_connect.Collection.{entries}
use kt_connect.Cluster.{Api, Service, kt_lock, SameMap, SameService, IsStore, IsWritable}
use kt_connect.General.Lock.{
  is_occupied, is_fresh, mark, get_timestamp, parse_timestamp, drop_key, lock_service, locked_or,
  unlock_found, unlock_service,
}
use kt_connect.General.Selector.{lookup-drop_key, found_updated}

pub lookup-mark :
    (svc : Service) (time : ℤ) (k : Text)
    → lookup k (entries (mark svc time).annotations) ≡ (
        if text_eq kt_lock k then some (get_timestamp time) else lookup k (entries svc.annotations))
unfolding mark
lookup-mark svc time k = lookup-put kt_lock k (get_timestamp time) (entries svc.annotations)

selector-mark :
    (svc t : Service) (time : ℤ) → SameService (mark svc time) t → SameMap t.selector svc.selector
unfolding mark
selector-mark svc t time same = same.same_selector

pub lock-mark :
    (svc t : Service) (time : ℤ)
    → SameService (mark svc time) t
    → lookup kt_lock (entries t.annotations) ≡ some (get_timestamp time)
lock-mark svc t time same =
    same.same_annotations kt_lock
    ∙ lookup-mark svc time kt_lock
    ∙ ap (λ b. if b then some (get_timestamp time) else lookup kt_lock (entries svc.annotations))
        (text_eq_refl kt_lock)

unlocked-mark :
    (svc t : Service) (time : ℤ)
    → SameService (mark svc time) t
    → (k : Text)
    → (if text_eq kt_lock k then none else lookup k (entries t.annotations))
      ≡ (if text_eq kt_lock k then none else lookup k (entries svc.annotations))
unlocked-mark svc t time same k = elim (Bool-cases (text_eq kt_lock k)) [
  | inl is_lock ↦ rw is_lock refl
  | inr differ ↦ rw (differ, same.same_annotations k, lookup-mark svc time k, differ) refl
]

pub parse_timestamp-get_timestamp :
    (time : ℤ) → InRange time → parse_timestamp (get_timestamp time) ≡ time
unfolding parse_timestamp get_timestamp
parse_timestamp-get_timestamp time range =
    ap (λ o. elim o [ none ↦ negsuc 0 | some unix_time ↦ unix_time ]) (atoi-itoa time range)

-- A service that carries the mark of a moment is occupied for the three minutes after it.
is_occupied-mark :
    (svc t : Service) (taken later : ℤ)
    → InRange taken
    → SameService (mark svc taken) t
    → ltb_ℤ (later -ℤ taken) (pos 180) ≡ true
    → is_occupied t later ≡ true
unfolding is_occupied is_fresh
is_occupied-mark svc t taken later range same soon =
    rw (lock-mark svc t taken same, parse_timestamp-get_timestamp taken range) soon

module _ (c : Api) where
  open c use {World, get_service, update_service, get_time, sleep}

  -- The moment at which the lock was taken: the service was not occupied, and the marked service was
  -- the last thing written.
  abbrev pub IsTaken : Text → Text → Service → World → Type 0
  IsTaken name ns t w' =
      (v : World) × ((svc : Service) × ((get_service name ns v ≡ ok svc)
          × ((is_occupied svc (get_time v) ≡ false)
              × (update_service (mark svc (get_time v)) v ≡ (ok t, w')))))

  -- The two ways of one call with the service found.
  pub lock_waits :
      (n : ℕ) (name ns : Text) (w : World) (svc : Service)
      → get_service name ns w ≡ ok svc
      → is_occupied svc (get_time w) ≡ true
      → lock_service c (suc n) name ns w
        ≡ and_then (sleep 3 w).0 (λ _. lock_service c n name ns) (sleep 3 w).1
  unfolding lock_service
  lock_waits n name ns w svc found busy = rw (found, lock_service, busy) refl

  pub lock_marks :
      (n : ℕ) (name ns : Text) (w : World) (svc : Service) (r : Reply Service) (v : World)
      → get_service name ns w ≡ ok svc
      → is_occupied svc (get_time w) ≡ false
      → update_service (mark svc (get_time w)) w ≡ (r, v)
      → lock_service c (suc n) name ns w
        ≡ and_then (caught r) (locked_or c (lock_service c n name ns)) v
  unfolding lock_service
  lock_marks n name ns w svc r v found free wrote = rw (found, lock_service, free, wrote) refl

  -- If LockService returns a service, the lock was missing or three minutes old when it was taken,
  -- and the last thing written is the service that was found then, marked with the time.
  pub lock_service-IsTaken :
      (n : ℕ) (name ns : Text) (w w' : World) (t : Service)
      → lock_service c n name ns w ≡ (ok t, w')
      → IsTaken name ns t w'
  lock_service-IsTaken zero name ns w w' t h = absurd (unfold lock_service in cc h)
  lock_service-IsTaken (suc n) name ns w w' t h = elim (Reply-cases (get_service name ns w)) [
    | inl (svc, found) ↦ elim (Bool-cases (is_occupied svc (get_time w))) [
      | inl busy ↦
          waited (λ v e. lock_service-IsTaken n name ns v w' t e) (sleep 3 w)
            (sym (lock_waits n name ns w svc found busy) ∙ h)
      | inr free ↦
          marked (λ v e. lock_service-IsTaken n name ns v w' t e) svc found free
            (update_service (mark svc (get_time w)) w).0
            (update_service (mark svc (get_time w)) w).1 refl
            (sym (lock_marks n name ns w svc _ _ found free refl) ∙ h)
    ]
    | inr (inl (e, bad)) ↦ absurd (unfold lock_service in cc (bad, h))
    | inr (inr bad) ↦ absurd (unfold lock_service in cc (bad, h))
  ]
    where
      waited :
          ((v : World) → lock_service c n name ns v ≡ (ok t, w') → IsTaken name ns t w')
          → (r : Reply (Unit {0}) × World)
          → and_then r.0 (λ _. lock_service c n name ns) r.1 ≡ (ok t, w')
          → IsTaken name ns t w'
      waited ih (ok _, v) e = ih v e
      waited ih (err f, v) e = absurd (cc e)
      waited ih (panic, v) e = absurd (cc e)

      marked :
          ((v : World) → lock_service c n name ns v ≡ (ok t, w') → IsTaken name ns t w')
          → (svc : Service) → get_service name ns w ≡ ok svc
          → is_occupied svc (get_time w) ≡ false
          → (r : Reply Service) (v : World) → update_service (mark svc (get_time w)) w ≡ (r, v)
          → and_then (caught r) (locked_or c (lock_service c n name ns)) v ≡ (ok t, w')
          → IsTaken name ns t w'
      marked ih svc found free (ok s) v wrote e =
          (w, (svc, (found, (free, wrote ∙ (unfold locked_or in e)))))
      marked ih svc found free (err f) v wrote e = ih v (unfold locked_or in e)
      marked ih svc found free panic v wrote e = absurd (unfold locked_or in cc e)

  -- If LockService returns a service, its lock was missing or three minutes old when it was taken, the
  -- service then stands in the cluster as it was returned, with the selector it had, and whoever looks
  -- at it in the next three minutes finds it occupied. The clock shows a 64-bit number.
  pub lock_service_lem :
      IsStore c
      → ((v : World) → InRange (get_time v))
      → (n : ℕ) (name ns : Text) (w w' : World) (t : Service)
      → lock_service c n name ns w ≡ (ok t, w')
      → (v : World) × ((svc : Service) × ((get_service name ns v ≡ ok svc)
            × ((is_occupied svc (get_time v) ≡ false)
                × ((get_service name ns w' ≡ ok t)
                    × (SameMap t.selector svc.selector
                        × ((later : ℤ)
                            → ltb_ℤ (later -ℤ get_time v) (pos 180) ≡ true
                            → is_occupied t later ≡ true))))))
  lock_service_lem st clock n name ns w w' t h =
      let (v, (svc, (found, (free, wrote)))) = lock_service-IsTaken n name ns w w' t h in
      let marked = mark svc (get_time v) in
      let (there, same) =
        found_updated c st name ns v w' svc marked t found (unfold mark in refl)
          (unfold mark in refl) wrote in
      (
        v,
        (
          svc,
          (
            found,
            (
              free,
              (
                there,
                (
                  selector-mark svc t (get_time v) same,
                  λ later soon. is_occupied-mark svc t (get_time v) later (clock v) same soon,
                ),
              ),
            ),
          ),
        ),
      )

  pub unlock_step :
      (name ns : Text) (w w2 : World) (t s : Service) (lock : Text)
      → get_service name ns w ≡ ok t
      → lookup kt_lock (entries t.annotations) ≡ some lock
      → update_service (record t { annotations = drop_key kt_lock t.annotations }) w ≡ (ok s, w2)
      → unlock_service c name ns w ≡ (ok tt, w2)
  unfolding unlock_service
  unlock_step name ns w w2 t s lock there locked wrote =
      rw (unlock_service, there, unlock_found, locked, wrote) refl

  -- UnlockService behind LockService, where the server accepts updates, leaves the service with the
  -- selector and the annotations it had when the lock was taken, without a lock.
  pub unlock_service-lock_service :
      IsStore c
      → (n : ℕ) (name ns : Text) (w w' : World) (t : Service)
      → lock_service c n name ns w ≡ (ok t, w')
      → IsWritable c w'
      → (v : World) × ((svc : Service) × ((get_service name ns v ≡ ok svc)
            × ((w2 : World) × ((unlock_service c name ns w' ≡ (ok tt, w2))
                  × ((s : Service) × ((get_service name ns w2 ≡ ok s)
                        × (SameMap s.selector svc.selector
                            × ((k : Text)
                                → lookup k (entries s.annotations) ≡ (
                                    if text_eq kt_lock k
                                    then none
                                    else lookup k (entries svc.annotations))))))))))
  unlock_service-lock_service st n name ns w w' t h accepts =
      let (v, (svc, (found, (free, wrote)))) = lock_service-IsTaken n name ns w w' t h in
      let marked = mark svc (get_time v) in
      let (there, same) =
        found_updated c st name ns v w' svc marked t found (unfold mark in refl)
          (unfold mark in refl) wrote in
      let cleared : Service = record t { annotations = drop_key kt_lock t.annotations } in
      let (s, (w2, wrote2)) = accepts cleared in
      let (there2, same2) = found_updated c st name ns w' w2 t cleared s there refl refl wrote2 in
      (
        v,
        (
          svc,
          (
            found,
            (
              w2,
              (
                unlock_step name ns w' w2 t s (get_timestamp (get_time v)) there
                    (lock-mark svc t (get_time v) same) wrote2,
                (
                  s,
                  (
                    there2,
                    (
                      (λ k. same2.same_selector k ∙ selector-mark svc t (get_time v) same k),
                      λ k.
                          same2.same_annotations k
                          ∙ lookup-drop_key t.annotations kt_lock k
                          ∙ unlocked-mark svc t (get_time v) same k,
                    ),
                  ),
                ),
              ),
            ),
          ),
        ),
      )
