-- ===== src/Collection/Tests.antt =====
-- Runs of the operations on maps and arrays, and the properties at concrete inputs.
use kt_connect.Common.{
  ◌+◌, ◌≡◌, ◌≢◌, ◌↔◌, refl, true, false, some, List, [], ◌∷◌, length, map, Text, codes, text_eq,
  ne-text_eq,
}
use kt_connect.Common.Dict.{Dict, lookup, put}
use kt_connect.Strings.{join, contains_byte}
use kt_connect.Strings.Split.{Lacks-contains_byte}
use kt_connect.Collection.{
  entries, map_equals, merge_map, put_all, string2map, contains, array_equals, count_item,
  array_delete,
}
use kt_connect.Collection.Maps.{or_else, lookup-merge_map}
use kt_connect.Collection.Equality.{map_equals_iff, map_equals_missing}
use kt_connect.Collection.Arrays.{array_delete_lem, array_equals_iff}
use kt_connect.Collection.Parse.{item_of, IsPlain, string2map-join}

abbrev labels : Dict Text
labels = (codes "app", codes "shop") ∷ (codes "env", codes "dev") ∷ []

abbrev swapped : Dict Text
swapped = (codes "env", codes "dev") ∷ (codes "app", codes "shop") ∷ []

abbrev override : Dict Text
override = (codes "env", codes "test") ∷ []

abbrev users : List Text
users = codes "a" ∷ codes "b" ∷ codes "a" ∷ []

array_delete_run : array_delete users (codes "a") ≡ codes "b" ∷ []
unfolding array_delete count_item text_eq
array_delete_run = refl

string2map_run :
    string2map (codes "k1=v1,=x,k2=a=b")
    ≡ some ((codes "k1", codes "v1") ∷ (codes "k2", codes "a=b") ∷ [])
unfolding string2map kt_connect.Strings.split kt_connect.Strings.index_byte put text_eq
string2map_run = refl

merge_map_example :
    lookup (codes "env") (entries (merge_map (some labels) (some override)))
    ≡ or_else (lookup (codes "env") override) (lookup (codes "env") labels)
unfolding text_eq
merge_map_example =
    lookup-merge_map (codes "env") (some labels) (some override)
      ((unfold lookup in refl), ((unfold lookup in refl), tt)) ((unfold lookup in refl), tt)

map_equals_example :
    (map_equals (some labels) (some swapped) ≡ true)
    ↔ ((j : Text) → lookup j labels ≡ lookup j swapped)
unfolding text_eq
map_equals_example =
    map_equals_iff labels swapped ((unfold lookup in refl), ((unfold lookup in refl), tt))
      ((unfold lookup in refl), ((unfold lookup in refl), tt)) ((λ e. cc e), ((λ e. cc e), tt))

map_equals_missing_example :
    (map_equals (some ((codes "a", []) ∷ [])) (some ((codes "b", codes "1") ∷ [])) ≡ true)
    × (lookup (codes "a") ((codes "a", []) ∷ []) ≢ lookup (codes "a") ((codes "b", codes "1") ∷ []))
map_equals_missing_example =
    map_equals_missing (codes "a") (codes "b") (codes "1")
      (ne-text_eq (codes "a") (codes "b") (unfold text_eq in refl))

array_delete_example :
    (contains (array_delete users (codes "a")) (codes "a") ≡ false)
    × (((other : Text)
          → other ≢ codes "a"
          → contains (array_delete users (codes "a")) other ≡ contains users other)
        × (length (array_delete users (codes "a")) + count_item users (codes "a") ≡ length users))
array_delete_example = array_delete_lem users (codes "a")

array_equals_example : (array_equals users (codes "b" ∷ codes "a" ∷ codes "b" ∷ []) ≡ true) ↔ (
    (length users ≡ length (codes "b" ∷ codes "a" ∷ codes "b" ∷ []))
    × ((t : Text)
        → contains users t ≡ true
        → contains (codes "b" ∷ codes "a" ∷ codes "b" ∷ []) t ≡ true))
array_equals_example = array_equals_iff users (codes "b" ∷ codes "a" ∷ codes "b" ∷ [])

string2map_example : string2map (join (map item_of labels) b',') ≡ some (put_all labels [])
unfolding contains_byte
string2map_example =
    string2map-join labels (λ e. cc e)
      (
        (plain (codes "app") (codes "shop") (λ e. cc e) refl refl refl),
        (plain (codes "env") (codes "dev") (λ e. cc e) refl refl refl, tt),
      )
  where
    plain :
        (k v : Text)
        → k ≢ []
        → contains_byte k b'=' ≡ false
        → contains_byte k b',' ≡ false
        → contains_byte v b',' ≡ false
        → IsPlain (k, v)
    plain k v ne he hk hv = (
      ne,
      (
        Lacks-contains_byte k b'=' he,
        (Lacks-contains_byte k b',' hk, Lacks-contains_byte v b',' hv),
      ),
    )
