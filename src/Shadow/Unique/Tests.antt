-- ===== src/Shadow/Unique/Tests.antt =====
-- The volume of the keys in a pod that has a container and a volume of that name.
use kt_connect.Common.{◌≡◌, refl, some, none, false, [], ◌∷◌, if◌then◌else◌, Text, text_eq, codes}
use kt_connect.Common.Exec.{ok}
use kt_connect.Cluster.{Container, PodSpec, empty_dir}
use kt_connect.Shadow.Template.{append_ssh_volume, get_ssh_volume}
use kt_connect.Shadow.Unique.{IsDistinct, find_volume, append_ssh_volume-IsDistinct}

abbrev standalone : Container
standalone = record {
  name = codes "standalone";
  image = codes "shadow:1";
  always_pull = false;
  command = [];
  args = [];
  envs = [];
  ports = [];
  volume_mounts = [];
}

abbrev spec : PodSpec
spec = record {
  service_account = codes "default";
  containers = standalone ∷ [];
  init_containers = [];
  volumes =
      record { name = codes "ssh-public-key"; source = empty_dir }
      ∷ record { name = codes "kt-shadow-keystore"; source = empty_dir }
      ∷ [];
  image_pull_secret = [];
  node_selector = none;
}

append_ssh_volume-IsDistinct_example :
    (out : PodSpec) × ((append_ssh_volume (codes "shadow") spec ≡ ok out)
      × (IsDistinct out.volumes
          × ((n : Text)
              → find_volume n out.volumes ≡ (
                  if text_eq (codes "ssh-public-key") n
                  then some (get_ssh_volume (codes "shadow"))
                  else find_volume n spec.volumes))))
unfolding text_eq
append_ssh_volume-IsDistinct_example =
    append_ssh_volume-IsDistinct (codes "shadow") spec standalone [] refl ((refl, tt), (tt, tt))
