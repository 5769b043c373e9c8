-- ===== src/Collection/Parse.antt =====
-- String2Map of pkg/kt/util/strings.go: the text form of a map.
use kt_connect.Common.{
  ℕ, suc, ◌+◌, ◌≡◌, ◌≢◌, refl, ap, ◌∙◌, subst, true, some, [], ◌∷◌, ◌++◌, map, arith, ltb, length,
  take, drop, Text, All, All-append,
}
use kt_connect.Common.Dict.{Dict, put}
use kt_connect.Strings.{join, index_byte}
use kt_connect.Strings.Split.{Lacks, split-join}
use kt_connect.Collection.{put_all, put_item, put_items, string2map}

abbrev pub item_of : Text × Text → Text
item_of (k, v) = k ++ (b'=' ∷ v)

-- An entry that the text form can carry: a key that is not empty, no `=` in it, and no comma.
abbrev pub IsPlain : Text × Text → Type 0
IsPlain (k, v) = (k ≢ []) × (Lacks b'=' k × (Lacks b',' k × Lacks b',' v))

index_byte-append :
    (c : ℕ) (p rest : Text) → Lacks c p → index_byte (p ++ (c ∷ rest)) c ≡ some (length p)
unfolding index_byte
index_byte-append c [] rest h = ground arith
index_byte-append c (d ∷ p) rest (hd, hp) = rw (index_byte-append c p rest hp) (ground arith)

take_append : (p q : Text) → take (length p) (p ++ q) ≡ p
take_append [] q = refl
take_append (c ∷ p) q = ap (λ t. c ∷ t) (take_append p q)

drop_append : (p v : Text) (c : ℕ) → drop (length p + 1) (p ++ (c ∷ v)) ≡ v
drop_append [] v c = refl
drop_append (d ∷ p) v c =
    let one_more : suc (length p + 1) ≡ suc (length p) + 1 = omega arith in
    subst (λ n. drop n (d ∷ (p ++ (c ∷ v))) ≡ v) one_more (drop_append p v c)

nonempty : (p : Text) → p ≢ [] → ltb 0 (length p) ≡ true
nonempty [] h = absurd (h refl)
nonempty (c ∷ p) h = ground arith

put_item-item_of :
    (res : Dict Text) (k v : Text) → IsPlain (k, v) → put_item res (item_of (k, v)) ≡ put k v res
unfolding put_item put
put_item-item_of res k v (ne, (he, _)) =
    rw
      (
        index_byte-append b'=' k v he,
        put_item,
        nonempty k ne,
        take_append k (b'=' ∷ v),
        drop_append k v b'=',
      )
      refl

put_items-map : (d res : Dict Text) → All IsPlain d → put_items res (map item_of d) ≡ put_all d res
unfolding put_items put_all
put_items-map [] res h = refl
put_items-map ((k, v) ∷ d) res (hp, hs) =
    ap (λ r. put_items r (map item_of d)) (put_item-item_of res k v hp)
    ∙ put_items-map d (put k v res) hs

items-Lacks : (d : Dict Text) → All IsPlain d → All (Lacks b',') (map item_of d)
items-Lacks [] h = tt
items-Lacks ((k, v) ∷ d) ((_, (_, (hk, hv))), hs) =
    (All-append (λ c. c ≢ b',') k (b'=' ∷ v) hk ((λ e. absurd (omega arith)), hv), items-Lacks d hs)

-- String2Map reads the entries `k=v` that are joined by commas back into the map in which they are
-- put one after the other, if there is an entry, no key is empty or holds `=`, and no comma stands
-- in a key or value.
pub string2map-join :
    (d : Dict Text)
    → d ≢ []
    → All IsPlain d
    → string2map (join (map item_of d) b',') ≡ some (put_all d [])
unfolding string2map
string2map-join [] ne h = absurd (ne refl)
string2map-join (e ∷ d) ne h =
    rw
      (
        split-join b',' (map item_of (e ∷ d)) (cc) (items-Lacks (e ∷ d) h),
        put_items-map (e ∷ d) [] h,
      )
      refl
