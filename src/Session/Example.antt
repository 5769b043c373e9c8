-- ===== src/Session/Example.antt =====
-- A machine that does nothing but name key files, and the options and the store of a run of connect.
use kt_connect.Common.{true, false, [], codes}
use kt_connect.Common.Int.{pos}
use kt_connect.Common.Exec.{ok}
use kt_connect.Cluster.Example.{Objects}
use kt_connect.Session.{Store, Options, Machine}

abbrev pub machine : Machine Objects
machine = record {
  generate = λ p w. (ok (record { private_key = []; public_key = []; private_key_path = p }), w);
  write_private_key = λ p k w. (ok tt, w);
  private_key_path = λ n. n;
  setup_heart_beat = λ k n ns w. (ok tt, w);
  local_user_name = codes "me";
  pid_file = λ n. n;
  remove_file = λ n w. (ok tt, w);
  clear_hosts = λ w. (ok tt, w);
  restore_route = λ w. (ok tt, w);
  shutdown_tun = λ w. (ok tt, w);
  has_rest_config = false;
  filter_client = ok tt;
  list_filters = λ s n w. ok [];
  delete_filter = λ n ns w. (ok tt, w);
}

abbrev pub options : Options
options = record {
  namespace = codes "dev";
  image = codes "shadow:1";
  service_account = codes "default";
  force_update = false;
  image_pull_secret = [];
  node_selector = [];
  with_label = [];
  with_annotation = [];
  use_shadow_deployment = false;
  pod_creation_timeout = 60;
  share_shadow = true;
  connect_lane = [];
  dns_mode = codes "localDNS";
  cluster_domain = codes "cluster.local";
  disable_tun_device = false;
  exchange_mode = codes "selector";
  recover_wait_time = 120;
  version_mark = [];
  mesh_expose = [];
  router_image = codes "router:1";
}

abbrev pub connect_run : Store
connect_run = record {
  component = codes "connect";
  shadow = codes "kt-connect-shadow";
  router = [];
  mesh = [];
  origin = [];
  replicas = pos 0;
  service = [];
  lane = [];
  session = [];
  lane_envoy_filter = [];
}
