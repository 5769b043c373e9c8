-- ===== src/Collection/Equality.antt =====
-- MapEquals: on maps with no empty value it is equality of the maps.
use kt_connect.Common.{
  suc, ◌≡◌, ◌≢◌, ◌↔◌, refl, sym, ap, ◌∙◌, subst, true, false, ◌&&◌, Option, none, some, [], ◌∷◌,
  arith, ◌==◌, ==_iff, if◌then◌else◌, length, Text, text_eq, text_eq_iff, text_eq_refl, Bool-cases,
  inl, inr, &&_split,
}
use kt_connect.Common.Dict.{Dict, lookup, delete, lookup-delete}
use kt_connect.Collection.{value_of, contains_loop, map_equals}
use kt_connect.Collection.Maps.{IsUnique, IsFilled, lookup-cons}

delete_cons :
    (k j w : Text) (m : Dict Text)
    → delete k ((j, w) ∷ m) ≡ (if text_eq j k then delete k m else (j, w) ∷ delete k m)
unfolding delete
delete_cons k j w m = refl

delete-IsUnique : (k : Text) (m : Dict Text) → IsUnique m → IsUnique (delete k m)
delete-IsUnique k [] u = unfold delete in tt
delete-IsUnique k ((j, w) ∷ m) (fresh, u) = elim (Bool-cases (text_eq j k)) [
  | inl same ↦ rw (delete_cons k j w m, same) (delete-IsUnique k m u)
  | inr differ ↦
      rw (delete_cons k j w m, differ)
        ((rw (lookup-delete k j m, fresh) (ground arith)), delete-IsUnique k m u)
]

-- A key that is missing is not deleted.
length-delete_missing :
    (k : Text) (m : Dict Text) → lookup k m ≡ none → length (delete k m) ≡ length m
length-delete_missing k [] h = unfold delete in refl
length-delete_missing k ((j, w) ∷ m) h = elim (Bool-cases (text_eq j k)) [
  | inl same ↦ cc (lookup-cons k j w m, ap (λ b. if b then some w else lookup k m) same)
  | inr differ ↦
      let missing : lookup k m ≡ none =
        cc (lookup-cons k j w m, ap (λ b. if b then some w else lookup k m) differ) in
      rw (delete_cons k j w m, differ) (ap suc (length-delete_missing k m missing))
]

length-delete :
    (k v : Text) (m : Dict Text)
    → IsUnique m
    → lookup k m ≡ some v
    → length m ≡ suc (length (delete k m))
length-delete k v [] u h = absurd (unfold lookup in cc h)
length-delete k v ((j, w) ∷ m) (fresh, u) h = elim (Bool-cases (text_eq j k)) [
  | inl same ↦
      let missing : lookup k m ≡ none =
        subst (λ t. lookup t m ≡ none) ((text_eq_iff j k).0 same) fresh in
      rw (delete_cons k j w m, same) (ap suc (sym (length-delete_missing k m missing)))
  | inr differ ↦
      let there : lookup k m ≡ some v =
        cc (lookup-cons k j w m, ap (λ b. if b then some w else lookup k m) differ) in
      rw (delete_cons k j w m, differ) (ap suc (length-delete k v m u there))
]

contains_loop_cons :
    (k v : Text) (m e : Dict Text)
    → contains_loop ((k, v) ∷ m) (some e)
      ≡ (text_eq (value_of (lookup k e)) v && contains_loop m (some e))
unfolding contains_loop
contains_loop_cons k v m e = refl

value_of-some : (o : Option Text) (v : Text) → v ≢ [] → value_of o ≡ v → o ≡ some v
value_of-some none v h e = absurd (h (sym e))
value_of-some (some w) v h e = ap some e

-- Deleting a key that the subset lacks changes no answer.
contains_loop-delete :
    (k : Text) (m e : Dict Text)
    → lookup k m ≡ none
    → contains_loop m (some (delete k e)) ≡ contains_loop m (some e)
contains_loop-delete k [] e h = unfold contains_loop in refl
contains_loop-delete k ((j, w) ∷ m) e h = elim (Bool-cases (text_eq j k)) [
  | inl same ↦ cc (lookup-cons k j w m, ap (λ b. if b then some w else lookup k m) same)
  | inr differ ↦
      let missing : lookup k m ≡ none =
        cc (lookup-cons k j w m, ap (λ b. if b then some w else lookup k m) differ) in
      let other : text_eq k j ≡ false = ground (arith, text_eq_iff j k, text_eq_iff k j) in
      rw (
        contains_loop_cons j w m (delete k e),
        contains_loop_cons j w m e,
        lookup-delete k j e,
        other,
        contains_loop-delete k m e missing,
      )
]

-- A subset of as many filled entries is the whole map.
lookup-contains_loop :
    (d e : Dict Text) (j : Text)
    → IsUnique d
    → IsUnique e
    → IsFilled d
    → length d ≡ length e
    → contains_loop d (some e) ≡ true
    → lookup j d ≡ lookup j e
lookup-contains_loop [] [] j ud ue f l h = refl
lookup-contains_loop [] (_ ∷ e) j ud ue f l h = absurd (omega arith)
lookup-contains_loop ((k, v) ∷ d) e j (fresh, ud) ue (fv, f) l h =
    let (here, rest) =
      &&_split (text_eq (value_of (lookup k e)) v) _ (sym (contains_loop_cons k v d e) ∙ h) in
    let there : lookup k e ≡ some v =
      value_of-some (lookup k e) v fv ((text_eq_iff (value_of (lookup k e)) v).0 here) in
    let ih : lookup j d ≡ lookup j (delete k e) =
      lookup-contains_loop d (delete k e) j ud (delete-IsUnique k e ue) f
        (omega (arith, length-delete k v e ue there)) (contains_loop-delete k d e fresh ∙ rest) in
    rw (lookup-cons j k v d, ih, lookup-delete k j e)
      (elim (Bool-cases (text_eq k j)) [
        | inl same ↦
            let e' : lookup j e ≡ some v =
              subst (λ t. lookup t e ≡ some v) ((text_eq_iff k j).0 same) there in
            rw (same, e')
        | inr differ ↦ rw differ
      ])

lookup-head : (k v : Text) (m : Dict Text) → lookup k ((k, v) ∷ m) ≡ some v
lookup-head k v m = rw (lookup-cons k k v m, text_eq_refl k)

-- Maps with the same lookups have as many keys.
length-same_lookups :
    (d e : Dict Text)
    → IsUnique d
    → IsUnique e
    → ((j : Text) → lookup j d ≡ lookup j e)
    → length d ≡ length e
length-same_lookups [] [] ud ue h = refl
length-same_lookups [] ((k, v) ∷ e) ud ue h = absurd (unfold lookup in cc (h k, lookup-head k v e))
length-same_lookups ((k, v) ∷ d) e (fresh, ud) ue h =
    let there : lookup k e ≡ some v = sym (h k) ∙ lookup-head k v d in
    let same =
      length-same_lookups d (delete k e) ud (delete-IsUnique k e ue)
        (λ j. after k v d e j fresh (h j)) in
    omega (arith, same, length-delete k v e ue there)
  where
    after :
        (k v : Text) (d e : Dict Text) (j : Text)
        → lookup k d ≡ none
        → lookup j ((k, v) ∷ d) ≡ lookup j e
        → lookup j d ≡ lookup j (delete k e)
    after k v d e j fresh h = elim (Bool-cases (text_eq k j)) [
      | inl same ↦
          rw (lookup-delete k j e, same)
            (subst (λ t. lookup t d ≡ none) ((text_eq_iff k j).0 same) fresh)
      | inr differ ↦
          rw (lookup-delete k j e, differ)
            (ap (λ b. if b then some v else lookup j d) (sym differ)
              ∙ sym (lookup-cons j k v d)
              ∙ h)
    ]

-- Every entry that stands in the other map passes.
contains_loop-same_lookups :
    (d e : Dict Text)
    → IsUnique d
    → ((j v : Text) → lookup j d ≡ some v → lookup j e ≡ some v)
    → contains_loop d (some e) ≡ true
contains_loop-same_lookups [] e u h = unfold contains_loop in refl
contains_loop-same_lookups ((k, v) ∷ d) e (fresh, u) h =
    rw (contains_loop_cons k v d e, h k v (lookup-head k v d), text_eq_refl v)
      (contains_loop-same_lookups d e u (λ j w there. h j w (tail_lookup j w there)))
  where
    tail_lookup : (j w : Text) → lookup j d ≡ some w → lookup j ((k, v) ∷ d) ≡ some w
    tail_lookup j w there = elim (Bool-cases (text_eq k j)) [
      | inl same ↦
          absurd (cc (subst (λ t. lookup t d ≡ none) ((text_eq_iff k j).0 same) fresh, there))
      | inr differ ↦ rw (lookup-cons j k v d, differ) there
    ]

-- Between maps of which the first has no empty value, MapEquals holds exactly if every key has the
-- same value in both, or is missing from both.
pub map_equals_iff :
    (d e : Dict Text)
    → IsUnique d
    → IsUnique e
    → IsFilled d
    → (map_equals (some d) (some e) ≡ true) ↔ ((j : Text) → lookup j d ≡ lookup j e)
map_equals_iff d e ud ue f = (
  λ h.
      let (sizes, inside) =
        &&_split (length d == length e) (contains_loop d (some e)) (unfold map_equals in h) in
      λ j. lookup-contains_loop d e j ud ue f ((==_iff (length d) (length e)).0 sizes) inside,
  λ h.
      unfold map_equals in
      rw
        (
          length-same_lookups d e ud ue h,
          contains_loop-same_lookups d e ud (λ j v there. sym (h j) ∙ there),
        )
        (ground arith),
)

-- With an empty value MapEquals confuses a key that is missing with one whose value is empty: two
-- maps of one entry with different keys are equal to it.
pub map_equals_missing :
    (k1 k2 v : Text)
    → k1 ≢ k2
    → (map_equals (some ((k1, []) ∷ [])) (some ((k2, v) ∷ [])) ≡ true)
      × (lookup k1 ((k1, []) ∷ []) ≢ lookup k1 ((k2, v) ∷ []))
map_equals_missing k1 k2 v h =
    let other : text_eq k2 k1 ≡ false = ground (arith, text_eq_iff k2 k1) in
    let missing : lookup k1 ((k2, v) ∷ []) ≡ none =
      rw (lookup-cons k1 k2 v [], other) (unfold lookup in refl) in
    (
      unfold map_equals in
          rw (contains_loop_cons k1 [] [] ((k2, v) ∷ []), missing)
            (unfold contains_loop text_eq in refl),
      λ same. cc (missing, lookup-head k1 [] [], same),
    )
