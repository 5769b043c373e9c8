-- ===== src/Shadow/Unique.antt =====
-- appendUniqueVolumes of pkg/kt/service/cluster/helper.go keeps the names of volumes distinct.
mod Tests
use kt_connect.Common.{
  ◌≡◌, refl, sym, ap, ◌∙◌, subst, Bool, true, false, Option, some, none, List, [], ◌∷◌,
  if◌then◌else◌, Text, text_eq, text_eq_iff, text_eq_refl, codes, All, Bool-cases, inl, inr, arith,
}
use kt_connect.Common.Exec.{ok}
use kt_connect.Cluster.{Volume, Container, PodSpec}
use kt_connect.Shadow.Template.{
  put_volume, append_unique_volumes, append_unique_volume_mounts, mount_in_first, with_ssh_volume,
  append_ssh_volume, get_ssh_volume, ssh_mount,
}

abbrev pub IsDistinct : List Volume → Type 0
IsDistinct [] = Unit
IsDistinct (v ∷ vs) = All (λ u. text_eq v.name u.name ≡ false) vs × IsDistinct vs

-- The first volume of that name.
unfoldable pub find_volume : Text → List Volume → Option Volume
find_volume n [] = none
find_volume n (v ∷ vs) = if text_eq v.name n then some v else find_volume n vs

text_eq_sym : (s t : Text) → text_eq s t ≡ false → text_eq t s ≡ false
text_eq_sym s t h = ground (arith, text_eq_iff s t, text_eq_iff t s, h)

replaced :
    (v c : Volume) (vs : List Volume)
    → text_eq c.name v.name ≡ true
    → put_volume v (c ∷ vs) ≡ v ∷ vs
unfolding put_volume
replaced v c vs h = rw h refl

passed :
    (v c : Volume) (vs : List Volume)
    → text_eq c.name v.name ≡ false
    → put_volume v (c ∷ vs) ≡ c ∷ put_volume v vs
unfolding put_volume
passed v c vs h = rw h refl

All-put_volume :
    (P : Volume → Type 0) (v : Volume) (vs : List Volume) → P v → All P vs → All P (put_volume v vs)
All-put_volume P v [] p ps = unfold put_volume in (p, tt)
All-put_volume P v (c ∷ vs) p (q, ps) = elim (Bool-cases (text_eq c.name v.name)) [
  | inl same ↦ rw (replaced v c vs same) (p, ps)
  | inr differ ↦ rw (passed v c vs differ) (q, All-put_volume P v vs p ps)
]

put_volume-IsDistinct :
    (v : Volume) (vs : List Volume) → IsDistinct vs → IsDistinct (put_volume v vs)
put_volume-IsDistinct v [] d = unfold put_volume in (tt, tt)
put_volume-IsDistinct v (c ∷ vs) (first, rest) = elim (Bool-cases (text_eq c.name v.name)) [
  | inl same ↦ rw (replaced v c vs same) (
    subst (λ n. All (λ u. text_eq n u.name ≡ false) vs) ((text_eq_iff c.name v.name).0 same) first,
    rest,
  )
  | inr differ ↦ rw (passed v c vs differ) (
    All-put_volume (λ u. text_eq c.name u.name ≡ false) v vs differ first,
    put_volume-IsDistinct v vs rest,
  )
]

find_volume-put_volume :
    (n : Text) (v : Volume) (vs : List Volume)
    → find_volume n (put_volume v vs) ≡ (if text_eq v.name n then some v else find_volume n vs)
unfolding find_volume put_volume
find_volume-put_volume n v [] = refl
find_volume-put_volume n v (c ∷ vs) = elim (Bool-cases (text_eq c.name v.name)) [
  | inl same ↦
      rw (same, ap (λ m. text_eq m n) ((text_eq_iff c.name v.name).0 same)) (again v c n vs)
  | inr differ ↦ ground (
    arith,
    differ,
    find_volume-put_volume n v vs,
    text_eq_iff c.name n,
    text_eq_iff v.name n,
    text_eq_iff c.name v.name,
  )
]
  where
    again :
        (v c : Volume) (n : Text) (vs : List Volume)
        → (if text_eq v.name n then some v else find_volume n vs) ≡ (
            if text_eq v.name n
            then some v
            else (if text_eq v.name n then some c else find_volume n vs))
    again v c n vs = ground arith

-- The pod that comes back carries the containers and the volumes that were changed.
mounted :
    (sshcm : Text) (spec : PodSpec) (main : Container) (others : List Container)
    → spec.containers ≡ main ∷ others
    → append_ssh_volume sshcm spec
      ≡ ok (record spec {
        containers =
            record main {
              volume_mounts = append_unique_volume_mounts main.volume_mounts (ssh_mount ∷ []);
            }
            ∷ others;
        volumes = put_volume (get_ssh_volume sshcm) spec.volumes;
      })
unfolding append_ssh_volume mount_in_first with_ssh_volume append_unique_volumes
mounted sshcm spec main others held = rw held refl

-- A pod with a container whose volumes have distinct names is returned with the volume of the keys,
-- without a second one of its name: the names stay distinct, the volume under this name is the one
-- of the config map, and what stands under other names stays.
pub append_ssh_volume-IsDistinct :
    (sshcm : Text) (spec : PodSpec) (main : Container) (others : List Container)
    → spec.containers ≡ main ∷ others
    → IsDistinct spec.volumes
    → (out : PodSpec) × ((append_ssh_volume sshcm spec ≡ ok out)
        × (IsDistinct out.volumes
            × ((n : Text)
                → find_volume n out.volumes ≡ (
                    if text_eq (codes "ssh-public-key") n
                    then some (get_ssh_volume sshcm)
                    else find_volume n spec.volumes))))
append_ssh_volume-IsDistinct sshcm spec main others held d = (
  _,
  (
    mounted sshcm spec main others held,
    (
      put_volume-IsDistinct (get_ssh_volume sshcm) spec.volumes d,
      λ n.
          find_volume-put_volume n (get_ssh_volume sshcm) spec.volumes
          ∙ (unfold get_ssh_volume in refl),
    ),
  ),
)
