-- ===== src/Collection.antt =====
-- pkg/kt/util/collection.go, and String2Map of pkg/kt/util/strings.go: maps and arrays of strings.
-- A map is an association list in the order of its iteration; `none` is the nil map.
pub mod Maps
pub mod Equality
pub mod Arrays
pub mod Parse
mod Tests
use kt_connect.Common.{
  ℕ, zero, suc, ◌+◌, ◌-◌, Bool, true, false, not, ◌&&◌, ◌||◌, Option, none, some, List, [], ◌∷◌,
  ◌++◌, ltb, ◌==◌, if◌then◌else◌, length, take, drop, Text, text_eq,
}
use kt_connect.Common.Dict.{Dict, lookup, put}
use kt_connect.Strings.{split, index_byte}

-- map[string]string
abbrev pub GoMap : Type 0
GoMap = Option (Dict Text)

-- The entries of a map that may be nil.
abbrev pub entries : GoMap → Dict Text
entries none = []
entries (some d) = d

-- `m[k]`: the empty text for a missing key, and for the nil map
abbrev pub value_of : Option Text → Text
value_of none = []
value_of (some v) = v

unfoldable pub read : GoMap → Text → Text
read m k = value_of (lookup k (entries m))

-- The loop of MapContains.
unfoldable pub contains_loop : Dict Text → GoMap → Bool
unfolding read
contains_loop [] fullset = true
contains_loop ((sk, sv) ∷ rest) fullset = text_eq (read fullset sk) sv && contains_loop rest fullset

-- MapContains
unfoldable pub map_contains : GoMap → GoMap → Bool
unfolding contains_loop
map_contains none fullset = false
map_contains (some subset) fullset = contains_loop subset fullset

-- MapEquals
unfoldable pub map_equals : GoMap → GoMap → Bool
unfolding map_contains
map_equals src target = length (entries src) == length (entries target) && map_contains src target

-- MapPut
unfoldable pub map_put : GoMap → Text → Text → GoMap
map_put none k v = some ((k, v) ∷ [])
map_put (some m) k v = some (put k v m)

-- The loops of MergeMap.
unfoldable pub put_all : Dict Text → Dict Text → Dict Text
put_all [] cp = cp
put_all ((key, value) ∷ m) cp = put_all m (put key value cp)

-- MergeMap
unfoldable pub merge_map : GoMap → GoMap → GoMap
unfolding put_all
merge_map m1 m2 = some (put_all (entries m2) (put_all (entries m1) []))

-- The inner loop of ArrayEquals, and Contains at a slice of strings.
unfoldable pub contains : List Text → Text → Bool
contains [] target = false
contains (t ∷ ts) target = text_eq t target || contains ts target

-- The outer loop of ArrayEquals.
unfoldable pub each_in : List Text → List Text → Bool
unfolding contains
each_in [] target = true
each_in (s ∷ src) target = contains target s && each_in src target

-- ArrayEquals
unfoldable pub array_equals : List Text → List Text → Bool
unfolding each_in
array_equals src target = length src == length target && each_in src target

-- The first loop of ArrayDelete.
unfoldable pub count_item : List Text → Text → ℕ
count_item [] item = 0
count_item (v ∷ arr) item =
    if text_eq v item then suc (count_item arr item) else count_item arr item

-- The second loop of ArrayDelete: the items that are written to the new array.
unfoldable pub keep_others : List Text → Text → List Text
keep_others [] item = []
keep_others (v ∷ arr) item =
    let rest = keep_others arr item in if text_eq v item then rest else v ∷ rest

-- ArrayDelete
unfoldable pub array_delete : List Text → Text → List Text
unfolding count_item keep_others
array_delete arr item = if count_item arr item == 0 then arr else keep_others arr item

-- One item of String2Map: what stands before the first `=`, which is not the first byte, is the key.
unfoldable pub put_item : Dict Text → Text → Dict Text
put_item res item = elim (index_byte item b'=') [
  | none ↦ res
  | some index ↦ if ltb 0 index then put (take index item) (drop (index + 1) item) res else res
]

unfoldable pub put_items : Dict Text → List Text → Dict Text
unfolding put_item
put_items res [] = res
put_items res (item ∷ items) = put_items (put_item res item) items

-- String2Map
unfoldable pub string2map : Text → GoMap
unfolding put_items
string2map str = some (put_items [] (split str b','))
