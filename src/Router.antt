-- ===== src/Router.antt =====
-- cmd/router/main.go and pkg/router: the router's configuration, its route file, and the commands
-- that change them. The JSON codec, the files and the signal to the server are a parameter.
pub mod Versions
pub mod Bag
mod Tests
use kt_connect.Common.{
  ℕ, zero, suc, ◌≡◌, Bool, true, false, not, ◌&&◌, ◌||◌, Option, none, some, List, [], ◌∷◌, ◌++◌,
  map, ltb, ◌==◌, if◌then◌else◌, length, Text, text_eq, codes,
}
use kt_connect.Common.Exec.{Reply, ok, err, panic, failed, ◌>>=◌, ◌>>◌, done, raise, ask, reply}
use kt_connect.Strings.{split, replace_byte}

-- KtConf
pub record KtConf : Type 0 where
  pub service : Text
  pub ports : List (List Text)
  pub header : Text
  pub versions : List Text

-- The files of the router pod: /etc/kt.conf, the route file with the configuration it was rendered
-- for, and the signal to the first process.
pub record Files : Type 1 where
  pub World : Type 0
  pub route_conf : World → Option KtConf
  pub read_kt_conf : World → Reply KtConf
  pub write_kt_conf : KtConf → World → Reply (Unit {0}) × World
  pub write_route_conf : KtConf → World → Reply (Unit {0}) × World
  pub remove_route_conf : World → Reply (Unit {0}) × World
  pub reload_route_conf : World → Reply (Unit {0}) × World

-- splitVersionMark: `splits[1]` is out of range without a colon.
unfoldable pub mark_of_splits : List Text → Reply (Text × Text)
mark_of_splits (header ∷ version ∷ _) = ok (replace_byte header b'-' b'_', version)
mark_of_splits _ = panic

unfoldable pub split_version_mark : Text → Reply (Text × Text)
unfolding mark_of_splits
split_version_mark mark = mark_of_splits (split mark b':')

-- getPorts
unfoldable pub get_ports : Text → List (List Text)
get_ports ports_parameter = map (λ pp. split pp b':') (split ports_parameter b',')

-- The loop of updateRoute for a removal: the first version that is equal goes.
unfoldable pub remove_first : List Text → Text → List Text
remove_first [] version = []
remove_first (v ∷ versions) version =
    if text_eq v version then versions else v ∷ remove_first versions version

pub data Action : Type 0 where
  action_add : Action
  action_remove : Action

unfoldable pub change : Action → KtConf → Text → KtConf
unfolding remove_first
change action_add conf version = record conf { versions = conf.versions ++ (version ∷ []) }
change action_remove conf version = record conf { versions = remove_first conf.versions version }

module _ (f : Files) where
  open f use {
    World, route_conf, read_kt_conf, write_kt_conf, write_route_conf, remove_route_conf,
    reload_route_conf,
  }

  -- WriteAndReloadRouteConf
  unfoldable pub write_and_reload_route_conf : KtConf → World → Reply (Unit {0}) × World
  write_and_reload_route_conf conf w =
      ((if ltb 0 (length conf.versions) then write_route_conf conf else remove_route_conf)
          >> reload_route_conf)
        w

  -- updateRoute
  unfoldable pub update_route : Text → Text → Action → World → Reply (Unit {0}) × World
  unfolding change write_and_reload_route_conf
  update_route header version action w =
      (do
        conf ← ask read_kt_conf
        if text_eq conf.header header
            then write_kt_conf (change action conf version)
              >> write_and_reload_route_conf (change action conf version)
            else raise failed)
        w

  -- setup: too few arguments print the usage.
  unfoldable pub setup : List Text → World → Reply (Unit {0}) × World
  unfolding split_version_mark get_ports write_and_reload_route_conf
  setup (service ∷ ports ∷ mark ∷ _) w =
      (do
        (header, version) ← reply (split_version_mark mark)
        let conf : KtConf = record {
          service = service;
          ports = get_ports ports;
          header = header;
          versions = version ∷ [];
        }
        write_kt_conf conf
        write_and_reload_route_conf conf)
        w
  setup _ w = done tt w

  -- add and remove
  unfoldable pub add : Text → World → Reply (Unit {0}) × World
  unfolding split_version_mark update_route
  add mark w =
      (do
        (header, version) ← reply (split_version_mark mark)
        update_route header version action_add)
        w

  unfoldable pub remove : Text → World → Reply (Unit {0}) × World
  unfolding split_version_mark update_route
  remove mark w =
      (do
        (header, version) ← reply (split_version_mark mark)
        update_route header version action_remove)
        w

  -- main, behind the lock: too few arguments, and an unknown action, print the usage.
  unfoldable pub run : List Text → World → Reply (Unit {0}) × World
  unfolding setup add remove
  run (action ∷ arg ∷ args) w =
      if text_eq action (codes "setup")
      then setup (arg ∷ args) w
      else if text_eq action (codes "add")
      then add arg w
      else if text_eq action (codes "remove")
      then remove arg w
      else done tt w
  run _ w = done tt w

  -- A file that is written is read back, and the other files keep what they hold.
  pub record IsDisk : Type 0 where
    pub kt_conf_written :
        (c : KtConf) (w w' : World) → write_kt_conf c w ≡ (ok tt, w') → read_kt_conf w' ≡ ok c
    pub route_conf_written :
        (c : KtConf) (w w' : World)
        → write_route_conf c w ≡ (ok tt, w')
        → (route_conf w' ≡ some c) × (read_kt_conf w' ≡ read_kt_conf w)
    pub route_conf_removed :
        (w w' : World)
        → remove_route_conf w ≡ (ok tt, w')
        → (route_conf w' ≡ none) × (read_kt_conf w' ≡ read_kt_conf w)
    pub reloaded :
        (w w' : World)
        → reload_route_conf w ≡ (ok tt, w')
        → (route_conf w' ≡ route_conf w) × (read_kt_conf w' ≡ read_kt_conf w)
