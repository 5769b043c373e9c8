-- ===== src/General/Race/Reads.antt =====
-- What the clients that have looked know is kept by every step.
use kt_connect.Common.{
  ℕ, ◌≡◌, ◌≤◌, sym, ap, ◌∙◌, false, some, arith, ◌==◌, if◌then◌else◌, Bool-cases, inl, inr,
}
use kt_connect.Common.Int.{pos}
use kt_connect.Cluster.{Service}
use kt_connect.General.Lock.{is_occupied}
use kt_connect.General.Race.{
  idle, looked, holding, releasing, System, lock_of, Step, tick, look, take, refused, look_back,
  unlock, give_up, edit,
}
use kt_connect.General.Race.Invariant.{owner, Inv, kept, owned}

module _ (limit : ℕ) where
  pub Step-seen :
      {s t : System}
      → Step limit s t
      → Inv s
      → (j : ℕ) (v : Service) (n at : ℕ) → t.client j ≡ looked v n at
      → (at ≤ t.now)
        × ((n ≤ t.version)
            × (n ≡ t.version → (lock_of v ≡ lock_of t.svc) × (is_occupied v (pos at) ≡ false)))
  Step-seen (tick d h) inv j v n at e =
      let (before, rest) = inv.seen j v n at e in (omega (arith, before), rest)
  Step-seen {s} (look i a b) inv j v n at e = elim (Bool-cases (i == j)) [
    | inl own ↦
        let mine : looked s.svc s.version s.now ≡ looked v n at =
          ap (λ c. if c then looked s.svc s.version s.now else s.client j) (sym own) ∙ e in
        let svc : s.svc ≡ v = cc mine in
        let version : s.version ≡ n = cc mine in
        let now : s.now ≡ at = cc mine in
        (
          omega (arith, now),
          (omega (arith, version), λ _. (ap lock_of (sym svc), cc (b, svc, now))),
        )
    | inr other ↦
        inv.seen j v n at
          (ap (λ c. if c then looked s.svc s.version s.now else s.client j) (sym other) ∙ e)
  ]
  Step-seen {s} (take i w from a) inv j v n at e = elim (Bool-cases (i == j)) [
    | inl own ↦ absurd (ground arith)
    | inr other ↦
        let (before, (older, _)) =
          inv.seen j v n at (ap (λ c. if c then holding s.now else s.client j) (sym other) ∙ e) in
        (before, (omega (arith, older), λ same. absurd (omega (arith, older, same))))
  ]
  Step-seen {s} (refused i w m from a b) inv j v n at e =
      inv.seen j v n at (kept i j s.client v n at e)
  Step-seen {s} (look_back i y a) inv j v n at e = elim (Bool-cases (i == j)) [
    | inl own ↦ absurd (ground arith)
    | inr other ↦
        inv.seen j v n at
          (ap (λ c. if c then releasing s.svc s.version y else s.client j) (sym other) ∙ e)
  ]
  Step-seen {s} (unlock i w y a b) inv j v n at e =
      let (before, (older, _)) = inv.seen j v n at (kept i j s.client v n at e) in
      (before, (omega (arith, older), λ same. absurd (omega (arith, older, same))))
  Step-seen {s} (give_up i w m y a b) inv j v n at e =
      inv.seen j v n at (kept i j s.client v n at e)
  Step-seen {s} (edit w a) inv j v n at e =
      let (before, (older, _)) = inv.seen j v n at e in
      (before, (omega (arith, older), λ same. absurd (omega (arith, older, same))))

  pub Step-latest :
      {s t : System}
      → Step limit s t
      → Inv s
      → (i : ℕ) (v : Service) (n at : ℕ) → t.client i ≡ looked v n at
      → n ≡ t.version
      → (j z : ℕ) → owner (t.client j) ≡ some z
      → z ≤ at
  Step-latest (tick d h) inv k v n at e same j z o = inv.latest k v n at e same j z o
  Step-latest {s} (look i a b) inv k v n at e same j z o = elim (Bool-cases (i == k)) [
    | inl own ↦
        let mine : looked s.svc s.version s.now ≡ looked v n at =
          ap (λ c. if c then looked s.svc s.version s.now else s.client k) (sym own) ∙ e in
        let now : s.now ≡ at = cc mine in
        omega (
          arith,
          now,
          inv.past j z
              (owned i j s.client (looked s.svc s.version s.now) (λ y h. absurd (cc h)) z o),
        )
    | inr other ↦
        inv.latest k v n at
          (ap (λ c. if c then looked s.svc s.version s.now else s.client k) (sym other) ∙ e) same j
          z (owned i j s.client (looked s.svc s.version s.now) (λ y h. absurd (cc h)) z o)
  ]
  Step-latest {s} (take i w from a) inv k v n at e same j z o = elim (Bool-cases (i == k)) [
    | inl own ↦ absurd (ground arith)
    | inr other ↦
        let (_, (older, _)) =
          inv.seen k v n at (ap (λ c. if c then holding s.now else s.client k) (sym other) ∙ e) in
        absurd (omega (arith, older, same))
  ]
  Step-latest {s} (refused i w m from a b) inv k v n at e same j z o =
      inv.latest k v n at (kept i k s.client v n at e) same j z
        (owned i j s.client idle (λ y h. absurd (cc h)) z o)
  Step-latest {s} (look_back i x a) inv k v n at e same j z o = elim (Bool-cases (i == k)) [
    | inl own ↦ absurd (ground arith)
    | inr other ↦
        inv.latest k v n at
          (ap (λ c. if c then releasing s.svc s.version x else s.client k) (sym other) ∙ e) same j z
          (owned i j s.client (releasing s.svc s.version x) (λ y h. ap owner a ∙ h) z o)
  ]
  Step-latest {s} (unlock i w x a b) inv k v n at e same j z o =
      let (_, (older, _)) = inv.seen k v n at (kept i k s.client v n at e) in
      absurd (omega (arith, older, same))
  Step-latest {s} (give_up i w m x a b) inv k v n at e same j z o =
      inv.latest k v n at (kept i k s.client v n at e) same j z
        (owned i j s.client idle (λ y h. absurd (cc h)) z o)
  Step-latest {s} (edit w a) inv k v n at e same j z o =
      let (_, (older, _)) = inv.seen k v n at e in absurd (omega (arith, older, same))
