-- ===== src/General/Race/Invariant.antt =====
-- Who holds which mark, and what a client that looked knows: the invariant of the interleavings,
-- and the fields on the marks.
use kt_connect.Common.{
  ℕ, ◌+◌, ◌≡◌, ◌≤◌, ◌<◌, refl, sym, ap, ◌∙◌, subst, true, false, Option, some, none, text_eq_refl,
  arith, ◌==◌, ==_iff, if◌then◌else◌, Bool-cases, inl, inr,
}
use kt_connect.Common.Int.{pos, ◌-ℤ◌}
use kt_connect.Common.Dict.{lookup}
use kt_connect.Strings.{max_int}
use kt_connect.Collection.{entries}
use kt_connect.Cluster.{Service, kt_lock}
use kt_connect.General.Lock.{is_fresh, is_occupied, mark, get_timestamp}
use kt_connect.General.Locking.{lookup-mark, parse_timestamp-get_timestamp}
use kt_connect.General.Race.{
  Client, idle, looked, holding, releasing, System, update, lock_of, Step, tick, look, take,
  refused, look_back, unlock, give_up, edit,
}

-- The time of the mark that a client has set and not taken away.
abbrev pub owner : Client → Option ℕ
owner idle = none
owner (looked v n at) = none
owner (holding z) = some z
owner (releasing v n z) = some z

pub lock_of-mark :
    (v : Service) (time : ℕ) → lock_of (mark v (pos time)) ≡ some (get_timestamp (pos time))
lock_of-mark v time =
    lookup-mark v (pos time) kt_lock
    ∙ ap
        (λ b. if b then some (get_timestamp (pos time)) else lookup kt_lock (entries v.annotations))
        (text_eq_refl kt_lock)

-- A fresh mark occupies the service.
pub occupied :
    (v : Service) (z at : ℕ)
    → z ≤ max_int
    → z ≤ at
    → at < z + 180
    → lock_of v ≡ some (get_timestamp (pos z))
    → is_occupied v (pos at) ≡ true
unfolding is_occupied is_fresh ◌-ℤ◌
occupied v z at range past soon there =
    rw (there, parse_timestamp-get_timestamp (pos z) range) (ground arith)

pub record Inv (s : System) : Type 0 where
  pub clock : s.now ≤ max_int
  pub past : (i z : ℕ) → owner (s.client i) ≡ some z → z ≤ s.now
  pub marked :
      (i z : ℕ)
      → owner (s.client i) ≡ some z
      → s.now < z + 180
      → lock_of s.svc ≡ some (get_timestamp (pos z))
  pub unique :
      (i j y z : ℕ)
      → owner (s.client i) ≡ some y
      → owner (s.client j) ≡ some z
      → s.now < y + 180
      → s.now < z + 180
      → i ≡ j
  pub seen :
      (i : ℕ) (v : Service) (n at : ℕ)
      → s.client i ≡ looked v n at
      → (at ≤ s.now)
        × ((n ≤ s.version)
            × (n ≡ s.version → (lock_of v ≡ lock_of s.svc) × (is_occupied v (pos at) ≡ false)))
  pub latest :
      (i : ℕ) (v : Service) (n at : ℕ)
      → s.client i ≡ looked v n at
      → n ≡ s.version
      → (j z : ℕ) → owner (s.client j) ≡ some z
      → z ≤ at

-- A client that has looked is not the one that has just become idle.
pub kept :
    (i j : ℕ) (client : ℕ → Client) (v : Service) (n at : ℕ)
    → update client i idle j ≡ looked v n at
    → client j ≡ looked v n at
kept i j client v n at e = ground arith

pub owned :
    (i j : ℕ) (client : ℕ → Client) (c : Client)
    → ((y : ℕ) → owner c ≡ some y → owner (client i) ≡ some y)
    → (z : ℕ) → owner (update client i c j) ≡ some z
    → owner (client j) ≡ some z
owned i j client c h z o = elim (Bool-cases (i == j)) [
  | inl own ↦
      let mine = h z (ap (λ b. owner (if b then c else client j)) (sym own) ∙ o) in
      subst (λ k. owner (client k) ≡ some z) ((==_iff i j).0 own) mine
  | inr other ↦ ap (λ b. owner (if b then c else client j)) (sym other) ∙ o
]

module _ (limit : ℕ) where
  pub Step-clock : {s t : System} → Step limit s t → Inv s → t.now ≤ max_int
  Step-clock (tick d h) inv = h
  Step-clock (look i a b) inv = inv.clock
  Step-clock (take i v at a) inv = inv.clock
  Step-clock (refused i v n at a b) inv = inv.clock
  Step-clock (look_back i z a) inv = inv.clock
  Step-clock (unlock i v z a b) inv = inv.clock
  Step-clock (give_up i v n z a b) inv = inv.clock
  Step-clock (edit v a) inv = inv.clock

  pub Step-past :
      {s t : System} → Step limit s t → Inv s → (j z : ℕ) → owner (t.client j) ≡ some z → z ≤ t.now
  Step-past (tick d h) inv j z e = omega (arith, inv.past j z e)
  Step-past (look i a b) inv j z e = ground (arith, inv.past j z)
  Step-past (take i v at a) inv j z e = ground (arith, inv.past j z)
  Step-past (refused i v n at a b) inv j z e = ground (arith, inv.past j z)
  Step-past (look_back i y a) inv j z e = ground (arith, inv.past j z, a)
  Step-past (unlock i v y a b) inv j z e = ground (arith, inv.past j z)
  Step-past (give_up i v n y a b) inv j z e = ground (arith, inv.past j z)
  Step-past (edit v a) inv j z e = inv.past j z e

  -- The mark that is about to be written meets no other fresh one.
  free :
      {s : System}
      → Inv s
      → (i : ℕ) (v : Service) (at : ℕ) → s.client i ≡ looked v s.version at
      → (j z : ℕ) → owner (s.client j) ≡ some z
      → s.now < z + 180
      → ⊥
  free {s} inv i v at a j z e soon =
      let (before, (_, same)) = inv.seen i v s.version at a in
      let (lock, unoccupied) = same refl in
      let there : lock_of v ≡ some (get_timestamp (pos z)) = lock ∙ inv.marked j z e soon in
      let busy : is_occupied v (pos at) ≡ true =
        occupied v z at (omega (arith, inv.past j z e, inv.clock))
          (inv.latest i v s.version at a refl j z e) (omega (arith, soon, before)) there in
      absurd (cc (busy, unoccupied))

  pub Step-marked :
      {s t : System}
      → limit ≤ 180
      → Step limit s t
      → Inv s
      → (j z : ℕ) → owner (t.client j) ≡ some z
      → t.now < z + 180
      → lock_of t.svc ≡ some (get_timestamp (pos z))
  Step-marked few (tick d h) inv j z e soon = inv.marked j z e (omega (arith, soon))
  Step-marked few (look i a b) inv j z e soon = ground (arith, inv.marked j z)
  Step-marked {s} few (take i v at a) inv j z e soon = elim (Bool-cases (i == j)) [
    | inl own ↦
        let same : s.now ≡ z = ground arith in
        lock_of-mark v s.now ∙ ap (λ n. some (get_timestamp (pos n))) same
    | inr other ↦
        let theirs : owner (s.client j) ≡ some z =
          ap (λ b. owner (if b then holding s.now else s.client j)) (sym other) ∙ e in
        absurd (free inv i v at a j z theirs soon)
  ]
  Step-marked few (refused i v n at a b) inv j z e soon = ground (arith, inv.marked j z)
  Step-marked few (look_back i y a) inv j z e soon = ground (arith, inv.marked j z, a)
  Step-marked {s} few (unlock i v y a b) inv j z e soon = elim (Bool-cases (i == j)) [
    | inl own ↦ absurd (ground arith)
    | inr other ↦
        let theirs : owner (s.client j) ≡ some z =
          ap (λ b. owner (if b then idle else s.client j)) (sym other) ∙ e in
        let mine : owner (s.client i) ≡ some y = ap owner a in
        let same : i ≡ j = inv.unique i j y z mine theirs (omega (arith, b, few)) soon in
        absurd (ground (arith, same, other))
  ]
  Step-marked few (give_up i v n y a b) inv j z e soon = ground (arith, inv.marked j z)
  Step-marked few (edit v a) inv j z e soon = a ∙ inv.marked j z e soon

  pub Step-unique :
      {s t : System}
      → Step limit s t
      → Inv s
      → (j k y z : ℕ) → owner (t.client j) ≡ some y
      → owner (t.client k) ≡ some z
      → t.now < y + 180
      → t.now < z + 180
      → j ≡ k
  Step-unique (tick d h) inv j k y z ey ez sy sz =
      inv.unique j k y z ey ez (omega (arith, sy)) (omega (arith, sz))
  Step-unique (look i a b) inv j k y z ey ez sy sz = ground (arith, inv.unique j k y z)
  Step-unique {s} (take i v at a) inv j k y z ey ez sy sz =
      let apart = free inv i v at a in ground (arith, inv.unique j k y z, apart j y, apart k z)
  Step-unique (refused i v n at a b) inv j k y z ey ez sy sz = ground (arith, inv.unique j k y z)
  Step-unique (look_back i x a) inv j k y z ey ez sy sz = ground (arith, inv.unique j k y z, a)
  Step-unique (unlock i v x a b) inv j k y z ey ez sy sz = ground (arith, inv.unique j k y z)
  Step-unique (give_up i v n x a b) inv j k y z ey ez sy sz = ground (arith, inv.unique j k y z)
  Step-unique (edit v a) inv j k y z ey ez sy sz = inv.unique j k y z ey ez sy sz
