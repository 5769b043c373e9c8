-- ===== src/Mesh.antt =====
-- pkg/kt/command/mesh: the version mark of a mesh, its labels, and the tests before it starts.
pub mod Auto
use kt_connect.Common.{
  ℕ, zero, suc, Bool, true, false, ◌&&◌, ◌||◌, some, List, [], ◌∷◌, leb, if◌then◌else◌, Text,
  text_eq, codes,
}
use kt_connect.Common.Dict.{put}
use kt_connect.Common.Exec.{Reply, ok, err, panic, failed, ◌>>=◌, ◌>>◌, done, raise, ask, attempt}
use kt_connect.Strings.{split}
use kt_connect.Collection.{GoMap, entries, read, put_all}
use kt_connect.Cluster.{Api, Service, Pod, kt_role, kt_selector, role_mesh_shadow}
use kt_connect.General.Resource.{is_set}

abbrev is_lower : ℕ → Bool
is_lower c = leb b'a' c && leb c b'z'

-- The expression `^[a-z][a-z0-9_-]*$`.
unfoldable pub is_key_tail : Text → Bool
is_key_tail [] = true
is_key_tail (c ∷ s) =
    (is_lower c
      || ((leb b'0' c && leb c b'9')
          || (text_eq (c ∷ []) (codes "_") || text_eq (c ∷ []) (codes "-"))))
    && is_key_tail s

-- isValidKey
unfoldable pub is_valid_key : Text → Bool
unfolding is_key_tail
is_valid_key [] = false
is_valid_key (c ∷ s) = is_lower c && is_key_tail s

-- getVersion, with the parts of the mark: the key and the value.
unfoldable pub version_of_parts : Text → List Text → Text × Text
unfolding is_valid_key is_set
version_of_parts random [] = (codes "version", random)
version_of_parts random (part ∷ []) = (codes "version", part)
version_of_parts random (key ∷ value ∷ _) =
    (if is_valid_key key then key else codes "version", if is_set value then value else random)

-- getVersion; `random` is the random value.
unfoldable pub get_version : Text → Text → Text × Text
unfolding version_of_parts
get_version random version_mark =
    if is_set version_mark
    then version_of_parts random (split version_mark b':')
    else (codes "version", random)

-- getMeshLabels
unfoldable pub get_mesh_labels : Text → Text → Service → GoMap
get_mesh_labels mesh_key mesh_version svc =
    some
      (put mesh_key mesh_version (put kt_role role_mesh_shadow (put_all (entries svc.selector) [])))

-- sanityCheck
unfoldable pub sanity_check : Service → Reply (Unit {0})
sanity_check svc =
    if is_set (read svc.annotations kt_selector)
    then err failed
    else if is_set (read svc.selector kt_role)
    then err failed
    else ok tt

module _ (c : Api) where
  open c use {World, get_pod, sleep}

  -- isNameUsable, with the pod found: one that runs is an error, one that ends is waited for.
  unfoldable pub usable_behind :
      (World → Reply (Unit {0}) × World) → Reply Pod → World → Reply (Unit {0}) × World
  usable_behind again (ok pod) w = if pod.terminating then (sleep 3 >> again) w else raise failed w
  usable_behind again (err e) w = done tt w
  usable_behind again panic w = (panic, w)

  -- isNameUsable: its argument, 11 at the call from outside, counts the looks that are left.
  unfoldable pub is_name_usable : ℕ → Text → Text → World → Reply (Unit {0}) × World
  unfolding usable_behind
  is_name_usable zero shadow_name namespace w = raise failed w
  is_name_usable (suc times) shadow_name namespace w =
      let again = is_name_usable times shadow_name namespace in
      (attempt (ask (get_pod shadow_name namespace)) >>= usable_behind again) w
