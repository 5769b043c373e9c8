-- ===== src/Collection/Maps.antt =====
-- MapContains, MapEquals, MergeMap and String2Map: what they say of the keys of their maps.
use kt_connect.Common.{
  ◌≡◌, ◌≢◌, refl, ap, subst, Option, none, some, [], ◌∷◌, if◌then◌else◌, Text, text_eq, text_eq_iff,
  All, Bool-cases, inl, inr,
}
use kt_connect.Common.Dict.{Dict, lookup, put, lookup-put}
use kt_connect.Collection.{GoMap, entries, put_all, merge_map}

-- Each key stands once, as in every Go map.
abbrev pub IsUnique : Dict Text → Type 0
IsUnique [] = Unit
IsUnique ((k, v) ∷ m) = (lookup k m ≡ none) × IsUnique m

-- No entry has the empty value.
abbrev pub IsFilled : Dict Text → Type 0
IsFilled = All (λ e. e.1 ≢ [])

pub lookup-cons :
    (j k : Text) (v : Text) (m : Dict Text)
    → lookup j ((k, v) ∷ m) ≡ (if text_eq k j then some v else lookup j m)
unfolding lookup
lookup-cons j k v m = refl

abbrev pub or_else : Option Text → Option Text → Option Text
or_else none o = o
or_else (some v) o = some v

put_all_step : (k v : Text) (m cp : Dict Text) → put_all ((k, v) ∷ m) cp ≡ put_all m (put k v cp)
unfolding put_all
put_all_step k v m cp = refl

-- Entries with unique keys that are put into a map hide its own at their keys.
pub lookup-put_all :
    (j : Text) (m cp : Dict Text)
    → IsUnique m
    → lookup j (put_all m cp) ≡ or_else (lookup j m) (lookup j cp)
lookup-put_all j [] cp u = unfold put_all lookup in refl
lookup-put_all j ((k, v) ∷ m) cp (fresh, u) =
    rw
      (
        put_all_step k v m cp,
        lookup-put_all j m (put k v cp) u,
        lookup-put k j v cp,
        lookup-cons j k v m,
      )
      (elim (Bool-cases (text_eq k j)) [
        | inl same ↦
            let none_there : lookup j m ≡ none =
              subst (λ t. lookup t m ≡ none) ((text_eq_iff k j).0 same) fresh in
            rw (same, none_there)
        | inr differ ↦ rw differ
      ])

-- A key of the merged map has the value of the second map, if it stands there, or else that of the
-- first map.
pub lookup-merge_map :
    (j : Text) (m1 m2 : GoMap)
    → IsUnique (entries m1)
    → IsUnique (entries m2)
    → lookup j (entries (merge_map m1 m2)) ≡ or_else (lookup j (entries m2)) (lookup j (entries m1))
lookup-merge_map j m1 m2 u1 u2 =
    unfold merge_map in
    rw
      (
        lookup-put_all j (entries m2) (put_all (entries m1) []) u2,
        lookup-put_all j (entries m1) [] u1,
      )
      (ap (or_else (lookup j (entries m2))) (unfold lookup in or_else-none (lookup j (entries m1))))
  where
    or_else-none : (o : Option Text) → or_else o none ≡ o
    or_else-none none = refl
    or_else-none (some v) = refl
