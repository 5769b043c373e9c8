-- ===== src/Exchange/Config/Tests.antt =====
-- The exchange's annotation at a concrete deployment.
use kt_connect.Common.{◌≡◌, refl, arith, codes}
use kt_connect.Common.Int.{pos}
use kt_connect.Strings.{contains_byte}
use kt_connect.Strings.Split.{Lacks-contains_byte}
use kt_connect.Collection.{read}
use kt_connect.Recover.{config_of, parse_replicas, app_key, replicas_key}
use kt_connect.Exchange.{get_exchange_annotation}
use kt_connect.Exchange.Config.{config_of-get_exchange_annotation}

config_of-get_exchange_annotation_example :
    (read (config_of (get_exchange_annotation (codes "shop") (pos 3))) app_key ≡ codes "shop")
    × (parse_replicas
          (read (config_of (get_exchange_annotation (codes "shop") (pos 3))) replicas_key)
        ≡ 3)
config_of-get_exchange_annotation_example =
    config_of-get_exchange_annotation (codes "shop") 3
      (Lacks-contains_byte (codes "shop") b',' (unfold contains_byte in refl)) (omega arith)
