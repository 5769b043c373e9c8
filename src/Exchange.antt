-- ===== src/Exchange.antt =====
-- pkg/kt/command/exchange/scale.go: the exchange that scales the original deployment down. The
-- store of the process and the shadow pod with its tunnel are parameters.
pub mod Config
pub mod Selector
pub mod Scale
use kt_connect.Common.{
  ℕ, Bool, true, false, Option, none, some, List, [], ◌∷◌, ◌++◌, if◌then◌else◌, Text, codes,
}
use kt_connect.Common.Int.{ℤ, pos}
use kt_connect.Common.Dict.{Dict, put}
use kt_connect.Common.Exec.{Reply, ok, ◌>>=◌, ◌>>◌, done, ask}
use kt_connect.Strings.{itoa}
use kt_connect.Collection.{GoMap, entries, put_all}
use kt_connect.Cluster.{Api, Deployment, kt_config, kt_role, role_exchange_shadow}
use kt_connect.General.Resource.{get_deployment_by_resource_name}
use kt_connect.Refs.{scale_to}

-- getExchangeAnnotation
unfoldable pub get_exchange_annotation : Text → ℤ → GoMap
get_exchange_annotation origin replicas =
    some ((kt_config, codes "app=" ++ (origin ++ (codes ",replicas=" ++ itoa replicas))) ∷ [])

-- getExchangeLabels
unfoldable pub get_exchange_labels : Deployment → GoMap
get_exchange_labels origin =
    some (put_all (entries origin.match_labels) ((kt_role, role_exchange_shadow) ∷ []))

module _ (c : Api) (remember : Text → ℤ → c.World → Reply (Unit {0}) × c.World)
    (create_shadow : GoMap → GoMap → c.World → Reply (Unit {0}) × c.World) where
  open c use {World}

  -- ByScale: what the way back needs is remembered before anything is created.
  unfoldable pub by_scale : Text → Text → World → Reply (Unit {0}) × World
  unfolding get_exchange_annotation get_exchange_labels
  by_scale resource_name namespace w =
      (do
        app ← get_deployment_by_resource_name c resource_name namespace
        remember app.name app.replicas
        create_shadow (get_exchange_labels app) (get_exchange_annotation app.name app.replicas)
        scale_to c app.name namespace (pos 0))
        w
