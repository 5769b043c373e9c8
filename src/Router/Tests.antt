-- ===== src/Router/Tests.antt =====
-- The properties of the router at a concrete disk.
use kt_connect.Common.{◌≡◌, refl, ap, Option, none, some, List, [], ◌∷◌, Text, text_eq, codes}
use kt_connect.Common.Exec.{Reply, ok}
use kt_connect.Collection.{count_item}
use kt_connect.Router.{
  KtConf, Files, Action, action_add, action_remove, change, update_route, IsDisk,
}
use kt_connect.Router.Bag.{bag_of, bag_changes, serve, bag_of-serve}
use kt_connect.Router.Versions.{IsStored, update_route-IsStored, update_route_add_remove}

pub record Disk : Type 0 where
  pub conf : KtConf
  pub route : Option KtConf

abbrev write_conf : KtConf → Disk → Reply (Unit {0}) × Disk
write_conf c w = (ok tt, record w { conf = c })

abbrev write_route : KtConf → Disk → Reply (Unit {0}) × Disk
write_route c w = (ok tt, record w { route = some c })

abbrev remove_route : Disk → Reply (Unit {0}) × Disk
remove_route w = (ok tt, record w { route = none })

abbrev reload : Disk → Reply (Unit {0}) × Disk
reload w = (ok tt, w)

abbrev files : Files
files = record {
  World = Disk;
  route_conf = λ w. w.route;
  read_kt_conf = λ w. ok w.conf;
  write_kt_conf = write_conf;
  write_route_conf = write_route;
  remove_route_conf = remove_route;
  reload_route_conf = reload;
}

files-IsDisk : IsDisk files
files-IsDisk = record {
  kt_conf_written = λ c w w' h. ap (λ p. ok (p.1.conf)) (back h);
  route_conf_written = λ c w w' h. (ap (λ p. p.1.route) (back h), ap (λ p. ok (p.1.conf)) (back h));
  route_conf_removed = λ w w' h. (ap (λ p. p.1.route) (back h), ap (λ p. ok (p.1.conf)) (back h));
  reloaded = λ w w' h. (ap (λ p. p.1.route) (back h), ap (λ p. ok (p.1.conf)) (back h));
}
  where
    back : {p q : Reply (Unit {0}) × Disk} → p ≡ q → q ≡ p
    back h = cc h

abbrev first : KtConf
first = record {
  service = codes "shop";
  ports = (codes "80" ∷ codes "8080" ∷ []) ∷ [];
  header = codes "version";
  versions = codes "v1" ∷ [];
}

abbrev start : Disk
start = record { conf = first; route = some first }

abbrev grown : Disk
grown = (update_route files (codes "version") (codes "v2") action_add start).1

abbrev shrunk : Disk
shrunk = (update_route files (codes "version") (codes "v2") action_remove grown).1

add_run : update_route files (codes "version") (codes "v2") action_add start ≡ (ok tt, grown)
unfolding update_route change text_eq kt_connect.Router.write_and_reload_route_conf
add_run = refl

remove_run : update_route files (codes "version") (codes "v2") action_remove grown ≡ (ok tt, shrunk)
unfolding update_route change text_eq kt_connect.Router.remove_first
    kt_connect.Router.write_and_reload_route_conf
remove_run = refl

update_route-IsStored_example :
    (first.header ≡ codes "version") × IsStored files (change action_add first (codes "v2")) grown
update_route-IsStored_example =
    update_route-IsStored files files-IsDisk (codes "version") (codes "v2") action_add start grown
      first refl add_run

update_route_add_remove_example :
    (conf2 : KtConf) × (IsStored files conf2 shrunk
      × ((record conf2 { versions = first.versions } ≡ first)
          × ((x : Text) → count_item conf2.versions x ≡ count_item first.versions x)))
update_route_add_remove_example =
    update_route_add_remove files files-IsDisk (codes "version") (codes "v2") start grown shrunk
      first refl add_run remove_run

abbrev commands : List (Action × Text)
commands = (action_add, codes "v2") ∷ (action_remove, codes "v2") ∷ []

serve_run : serve files (codes "version") commands start ≡ (ok tt, shrunk)
unfolding serve update_route change text_eq kt_connect.Router.remove_first
    kt_connect.Router.write_and_reload_route_conf
serve_run = refl

bag_of-serve_example :
    (conf' : KtConf) × (IsStored files conf' shrunk
      × ((bag_of conf'.versions ≡ bag_changes commands (bag_of first.versions))
          × ((vs : List Text) → record conf' { versions = vs } ≡ record first { versions = vs })))
bag_of-serve_example =
    bag_of-serve files files-IsDisk (codes "version") commands start shrunk first (refl, refl)
      serve_run
