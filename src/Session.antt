-- ===== src/Session.antt =====
-- The state of a run of ktctl (pkg/kt/command/options/store.go) and the options that the modelled
-- parts read.
pub mod Example
use kt_connect.Common.{ℕ, Bool, List, Text}
use kt_connect.Common.Int.{ℤ}
use kt_connect.Common.Exec.{Reply, ok}

-- RuntimeStore
pub record Store : Type 0 where
  pub component : Text
  pub shadow : Text
  pub router : Text
  pub mesh : Text
  pub origin : Text
  pub replicas : ℤ
  pub service : Text
  pub lane : Text
  pub session : Text
  pub lane_envoy_filter : Text

pub record Options : Type 0 where
  pub namespace : Text
  pub image : Text
  pub service_account : Text
  pub force_update : Bool
  pub image_pull_secret : Text
  pub node_selector : Text
  pub with_label : Text
  pub with_annotation : Text
  pub use_shadow_deployment : Bool
  pub pod_creation_timeout : ℕ
  pub share_shadow : Bool
  pub connect_lane : Text
  pub dns_mode : Text
  pub cluster_domain : Text
  pub disable_tun_device : Bool
  pub exchange_mode : Text
  pub recover_wait_time : ℕ
  pub version_mark : Text
  pub mesh_expose : Text
  pub router_image : Text

-- SSHGenerator of pkg/kt/util/ssh.go
pub record Keys : Type 0 where
  pub private_key : Text
  pub public_key : Text
  pub private_key_path : Text

-- What the program asks of the machine it runs on: key files, timers, the user, the hosts file, the
-- route table, and the dynamic client for the filters of a service mesh.
pub record Machine (W : Type 0) : Type 0 where
  pub generate : Text → W → Reply Keys × W
  pub write_private_key : Text → Text → W → Reply (Unit {0}) × W
  pub private_key_path : Text → Text
  pub setup_heart_beat : (kind name namespace : Text) → W → Reply (Unit {0}) × W
  pub local_user_name : Text
  pub pid_file : Text → Text
  pub remove_file : Text → W → Reply (Unit {0}) × W
  pub clear_hosts : W → Reply (Unit {0}) × W
  pub restore_route : W → Reply (Unit {0}) × W
  pub shutdown_tun : W → Reply (Unit {0}) × W
  pub has_rest_config : Bool
  pub filter_client : Reply (Unit {0})
  pub list_filters : (selector namespace : Text) → W → Reply (List Text)
  pub delete_filter : (name namespace : Text) → W → Reply (Unit {0}) × W

-- Steps on the store of the run and the world.
module _ {W A : Type 0} where
  abbrev pub on_cluster : (W → Reply A × W) → Store × W → Reply A × (Store × W)
  on_cluster m (s, w) = let (r, w') = m w in (r, (s, w'))

module _ {W : Type 0} where
  abbrev pub change_store : (Store → Store) → Store × W → Reply (Unit {0}) × (Store × W)
  change_store f (s, w) = (ok tt, (f s, w))
