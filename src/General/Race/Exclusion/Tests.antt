-- ===== src/General/Race/Exclusion/Tests.antt =====
-- The mutual exclusion at a run of one client, and the late unlock at a service.
use kt_connect.Common.{false, ℕ, ◌≡◌, refl, none, some, [], ◌∷◌, codes, arith}
use kt_connect.Common.Int.{pos}
use kt_connect.Common.Dict.{lookup}
use kt_connect.Cluster.{Service}
use kt_connect.General.Lock.{mark, get_timestamp}
use kt_connect.General.Race.{
  System, Client, look, take, holding, lock_of, Reach, begin, next, start, update,
}
use kt_connect.General.Race.Exclusion.{mutual_exclusion}
use kt_connect.General.Race.Late.{unoccupied, late_unlock}

abbrev shop : Service
shop = record {
  name = codes "shop";
  namespace = codes "dev";
  labels = none;
  annotations = none;
  selector = some ((codes "app", codes "shop") ∷ []);
  ports = [];
  cluster_ip = codes "10.0.0.9";
  external = false;
}

abbrev held : System
held = record {
  svc = mark shop (pos 1000);
  version = 1;
  now = 1000;
  client = update (update (start shop 1000).client 0 (Client.looked shop 0 1000)) 0 (holding 1000);
}

held_reached : Reach 180 shop 1000 held
held_reached =
    next (next begin (look 0 refl (unoccupied shop 1000 (unfold lookup in refl))))
      (take 0 shop 1000 refl)

mutual_exclusion_example :
    (◌≡◌ {A = ℕ} 0 0) × (lock_of (mark shop (pos 1000)) ≡ some (get_timestamp (pos 1000)))
mutual_exclusion_example =
    mutual_exclusion 180 shop 1000 held (omega arith) (omega arith) held_reached 0 0 1000 1000 refl
      refl (omega arith) (omega arith)

late_unlock_example :
    (s : System) × (Reach 1000 shop 1000 s
      × ((s.client 1 ≡ holding 1190) × ((s.client 2 ≡ holding 1190) × (s.now ≡ 1190))))
late_unlock_example = late_unlock shop 1000 (omega arith) (unfold lookup in refl)
