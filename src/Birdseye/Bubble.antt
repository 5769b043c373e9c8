-- ===== src/Birdseye/Bubble.antt =====
-- One pass of a bubble sort, on any type with a test "greater": the elements that stay, the one that
-- is carried to the end, and whether anything was swapped.
use kt_connect.Common.{
  suc, ◌≡◌, refl, sym, ap, ◌∙◌, Bool, true, false, List, [], ◌∷◌, ◌++◌, if◌then◌else◌, length, All,
  Bool-cases, inl, inr,
}
use mathlib.Core.List.{Perm}
use mathlib.Core.List.Perm

module _ {A : Type 0} (gt : A → A → Bool) where
  unfoldable pub carry : A → List A → List A × (A × Bool)
  carry a [] = ([], (a, false))
  carry a (b ∷ r) =
      if gt a b
      then (b ∷ (carry a r).0, ((carry a r).1.0, true))
      else (a ∷ (carry b r).0, ((carry b r).1.0, (carry b r).1.1))

  -- No element is greater than the next one.
  abbrev pub Sorted : List A → Type 0
  Sorted [] = Unit
  Sorted (a ∷ []) = Unit
  Sorted (a ∷ b ∷ r) = (gt a b ≡ false) × Sorted (b ∷ r)

  -- No element of the first list is greater than the head of the second.
  abbrev pub Below : List A → List A → Type 0
  Below pre [] = Unit
  Below pre (s ∷ suf) = All (λ p. gt p s ≡ false) pre

  pub swapped :
      (a b : A) (r : List A)
      → gt a b ≡ true
      → carry a (b ∷ r) ≡ (b ∷ (carry a r).0, ((carry a r).1.0, true))
  unfolding carry
  swapped a b r h = rw h refl

  pub kept :
      (a b : A) (r : List A)
      → gt a b ≡ false
      → carry a (b ∷ r) ≡ (a ∷ (carry b r).0, ((carry b r).1.0, (carry b r).1.1))
  unfolding carry
  kept a b r h = rw h refl

  pub Perm-carry : (a : A) (r : List A) → Perm (a ∷ r) ((carry a r).1.0 ∷ (carry a r).0)
  Perm-carry a [] = unfold carry in Perm.refl (a ∷ [])
  Perm-carry a (b ∷ r) = elim (Bool-cases (gt a b)) [
    | inl h ↦ rw (swapped a b r h) (
        Perm.trans (Perm.swap b a r)
          (Perm.trans (Perm.cons b (Perm-carry a r)) (Perm.swap (carry a r).1.0 b (carry a r).0)))
    | inr h ↦
        rw (kept a b r h)
          (Perm.trans (Perm.cons a (Perm-carry b r)) (Perm.swap (carry b r).1.0 a (carry b r).0))
  ]

  pub length-carry : (a : A) (r : List A) → length (carry a r).0 ≡ length r
  length-carry a [] = unfold carry in refl
  length-carry a (b ∷ r) = elim (Bool-cases (gt a b)) [
    | inl h ↦ rw (swapped a b r h) (ap suc (length-carry a r))
    | inr h ↦ rw (kept a b r h) (ap suc (length-carry b r))
  ]

  -- What holds of all holds of those that stay and of the one that is carried.
  pub All-carry :
      (P : A → Type 0) (a : A) (r : List A)
      → P a
      → All P r
      → All P (carry a r).0 × P (carry a r).1.0
  All-carry P a [] p ps = unfold carry in (tt, p)
  All-carry P a (b ∷ r) p (q, ps) = elim (Bool-cases (gt a b)) [
    | inl h ↦ let (s, t) = All-carry P a r p ps in rw (swapped a b r h) ((q, s), t)
    | inr h ↦ let (s, t) = All-carry P b r q ps in rw (kept a b r h) ((p, s), t)
  ]

  -- A pass that swaps nothing leaves a sorted list as it is.
  pub unswapped :
      (a : A) (r : List A)
      → (carry a r).1.1 ≡ false
      → ((carry a r).0 ++ ((carry a r).1.0 ∷ []) ≡ a ∷ r) × Sorted (a ∷ r)
  unswapped a [] h = unfold carry in (refl, tt)
  unswapped a (b ∷ r) h = elim (Bool-cases (gt a b)) [
    | inl g ↦
        let apart : true ≡ false = sym (ap (λ p. p.1.1) (swapped a b r g)) ∙ h in absurd (cc apart)
    | inr g ↦
        let (same, sorted) = unswapped b r (sym (ap (λ p. p.1.1) (kept a b r g)) ∙ h) in
        (rw (kept a b r g) (ap (λ l. a ∷ l) same), (g, sorted))
  ]

  pub Sorted-append :
      (pre suf : List A) → Sorted pre → Below pre suf → Sorted suf → Sorted (pre ++ suf)
  Sorted-append [] suf s b t = t
  Sorted-append (a ∷ []) [] s b t = tt
  Sorted-append (a ∷ []) (c ∷ suf) s b t = (b.0, t)
  Sorted-append (a ∷ c ∷ pre) [] (h, s) b t = (h, Sorted-append (c ∷ pre) [] s tt t)
  Sorted-append (a ∷ c ∷ pre) (d ∷ suf) (h, s) b t = (h, Sorted-append (c ∷ pre) (d ∷ suf) s b.1 t)

  module _ (asym : (a b : A) → gt a b ≡ true → gt b a ≡ false)
      (trans : (a b c : A) → gt a b ≡ false → gt b c ≡ false → gt a c ≡ false)
      (irrefl : (a : A) → gt a a ≡ false) where
    -- No element is greater than the one that is carried.
    pub carry-greatest :
        (a : A) (r : List A)
        → (gt a (carry a r).1.0 ≡ false) × All (λ y. gt y (carry a r).1.0 ≡ false) (carry a r).0
    carry-greatest a [] = unfold carry in (irrefl a, tt)
    carry-greatest a (b ∷ r) = elim (Bool-cases (gt a b)) [
      | inl h ↦
          let (first, others) = carry-greatest a r in
          rw (swapped a b r h) (first, (trans b a (carry a r).1.0 (asym a b h) first, others))
      | inr h ↦
          let (first, others) = carry-greatest b r in
          rw (kept a b r h)
            (trans a b (carry b r).1.0 h first, (trans a b (carry b r).1.0 h first, others))
    ]
