-- ===== src/General/Race/Late.antt =====
-- What goes wrong if a client unlocks too late.
use kt_connect.Common.{
  ℕ, ◌+◌, ◌≡◌, ◌≤◌, ◌<◌, refl, ap, ◌∙◌, false, some, none, text_eq_refl, arith, if◌then◌else◌,
}
use kt_connect.Common.Int.{pos, ◌-ℤ◌}
use kt_connect.Common.Dict.{lookup}
use kt_connect.Strings.{max_int}
use kt_connect.Collection.{entries}
use kt_connect.Cluster.{Service, kt_lock}
use kt_connect.General.Lock.{is_fresh, is_occupied, mark, get_timestamp}
use kt_connect.General.Locking.{parse_timestamp-get_timestamp}
use kt_connect.General.Selector.{lookup-drop_key}
use kt_connect.General.Race.{
  holding, System, lock_of, unmark, tick, look, take, look_back, unlock, Reach, begin, next,
}
use kt_connect.General.Race.Invariant.{lock_of-mark}

pub unoccupied : (v : Service) (at : ℕ) → lock_of v ≡ none → is_occupied v (pos at) ≡ false
unfolding is_occupied is_fresh
unoccupied v at free = rw free refl

-- After three minutes a mark occupies the service no more.
stale :
    (v : Service) (z at : ℕ)
    → z ≤ max_int
    → z + 180 ≤ at
    → lock_of v ≡ some (get_timestamp (pos z))
    → is_occupied v (pos at) ≡ false
unfolding is_occupied is_fresh ◌-ℤ◌
stale v z at range old there =
    rw (there, parse_timestamp-get_timestamp (pos z) range) (ground arith)

lock_of-unmark : (v : Service) → lock_of (unmark v) ≡ none
unfolding unmark
lock_of-unmark v =
    lookup-drop_key v.annotations kt_lock kt_lock
    ∙ ap (λ b. if b then none else lookup kt_lock (entries v.annotations)) (text_eq_refl kt_lock)

-- A client that unlocks later than three minutes after its mark may take away the mark of another:
-- on every service without a lock there is a run in which two clients then hold fresh marks.
pub late_unlock :
    (svc : Service) (time : ℕ)
    → time + 190 ≤ max_int
    → lock_of svc ≡ none
    → (s : System) × (Reach 1000 svc time s
        × ((s.client 1 ≡ holding (time + 190))
            × ((s.client 2 ≡ holding (time + 190)) × (s.now ≡ time + 190))))
late_unlock svc time small free =
    let first = mark svc (pos time) in
    let second = mark first (pos (time + 190)) in
    let range : time ≤ max_int = omega (arith, small) in
    let later : time + 180 ≤ time + 190 = omega arith in
    let prompt : time + 190 < time + 1000 = omega arith in
    let r1 = next begin (look 0 refl (unoccupied svc time free)) in
    let r2 = next r1 (take 0 svc time refl) in
    let r3 = next r2 (tick 190 small) in
    let r4 =
      next r3 (look 1 refl (stale first time (time + 190) range later (lock_of-mark svc time))) in
    let r5 = next r4 (take 1 first (time + 190) refl) in
    let r6 = next r5 (look_back 0 time refl) in
    let r7 = next r6 (unlock 0 second time refl prompt) in
    let r8 =
      next r7 (look 2 refl (unoccupied (unmark second) (time + 190) (lock_of-unmark second))) in
    let r9 = next r8 (take 2 (unmark second) (time + 190) refl) in (_, (r9, (refl, (refl, refl))))
