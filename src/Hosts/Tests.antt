-- ===== src/Hosts/Tests.antt =====
-- Runs of DumpHosts and DropHosts, and their property at a concrete file.
use kt_connect.Common.{◌≡◌, refl, false, List, [], ◌∷◌, Text, text_eq, codes}
use kt_connect.Common.Dict.{Dict}
use kt_connect.Common.Outcome.{ok}
use kt_connect.Hosts.{Options, records_of, dump_hosts_to_file, drop_hosts_of_file}
use kt_connect.Hosts.Block.{file_of}
use kt_connect.Hosts.Cycle.{own_lines, drop_hosts-dump_hosts}

abbrev opts : Options
opts = record {
  namespace = codes "dev";
  cluster_domain = codes "cluster.local";
  is_short_domain = λ l. false;
}

abbrev lines : List Text
lines = codes "127.0.0.1 localhost" ∷ [] ∷ [] ∷ codes "10.0.0.1 db" ∷ []

abbrev hosts : Dict Text
hosts = (codes "shop", codes "10.1.1.1") ∷ (codes "gone", []) ∷ []

drop_hosts-dump_hosts_example :
    (file : List Text) × ((dump_hosts_to_file opts false hosts (codes "dev") lines ≡ ok file)
      × ((file ≡ file_of (own_lines lines) (records_of hosts) ([] ∷ []))
          × ((drop_hosts_of_file opts file).0 ≡ own_lines lines)))
unfolding text_eq records_of
drop_hosts-dump_hosts_example =
    drop_hosts-dump_hosts opts hosts (codes "dev") lines
      ((refl, refl), ((refl, refl), ((refl, refl), ((refl, refl), tt)))) ((refl, refl), tt)
