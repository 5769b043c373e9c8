-- ===== src/Clean/Check.antt =====
-- CheckClusterResources of pkg/kt/command/clean/common.go and GetKtResources of
-- pkg/kt/service/cluster/global.go.
pub mod Steps
pub mod Age
pub mod Exact
mod Tests
use kt_connect.Common.{ℕ, Bool, some, List, [], ◌∷◌, Text}
use kt_connect.Common.Int.{ℤ}
use kt_connect.Common.Exec.{Reply, ok, err, panic, ◌>>=◌, done, ask}
use kt_connect.Collection.{GoMap}
use kt_connect.Cluster.{Api, Service, Pod, Deployment, ConfigMap, control_by, kubernetes_toolkit}
use kt_connect.Clean.{
  ResourceToClean, analysis_expired_pods, analysis_expired_configmaps, analysis_expired_deployments,
  analysis_expired_services, analysis_lock_and_orphan_services,
}

abbrev pub nothing : ResourceToClean
nothing = record {
  pods_to_delete = [];
  services_to_delete = [];
  config_maps_to_delete = [];
  deployments_to_delete = [];
  deployments_to_scale = [];
  services_to_recover = [];
  services_to_unlock = [];
}

-- The objects of the program in a namespace.
pub record KtResources : Type 0 where
  pub pods : List Pod
  pub config_maps : List ConfigMap
  pub apps : List Deployment
  pub services : List Service

abbrev kt_label : GoMap
kt_label = some ((control_by, kubernetes_toolkit) ∷ [])

-- A loop of CheckClusterResources.
unfoldable pub each {ℓ} :
    {A : Type ℓ}
    → (A → ResourceToClean → ResourceToClean)
    → List A
    → ResourceToClean
    → ResourceToClean
each analysis [] r = r
each analysis (a ∷ items) r = each analysis items (analysis a r)

-- The list that comes with an error is empty.
abbrev pub listed : Reply (List Service) → List Service
listed (ok svcs) = svcs
listed _ = []

module _ (c : Api) where
  open c use {
    World, get_pods_by_label, get_config_maps_by_label, get_deployments_by_label,
    get_services_by_label, all_services, get_time,
  }

  -- GetKtResources
  unfoldable pub get_kt_resources : Text → World → Reply KtResources × World
  get_kt_resources namespace w =
      (do
        pods ← ask (get_pods_by_label kt_label namespace)
        config_maps ← ask (get_config_maps_by_label kt_label namespace)
        apps ← ask (get_deployments_by_label kt_label namespace)
        services ← ask (get_services_by_label kt_label namespace)
        let found : KtResources = record {
          pods = pods;
          config_maps = config_maps;
          apps = apps;
          services = services;
        }
        done found)
        w

  -- CheckClusterResources: the analyses
  unfoldable pub analysed : ℕ → Text → KtResources → World → ResourceToClean
  unfolding each
  analysed threshold namespace k w =
      let time = get_time w in
      let pods = each (analysis_expired_pods time threshold) k.pods nothing in
      let config_maps =
        each (λ cf. analysis_expired_configmaps time threshold cf.name cf.annotations) k.config_maps
          pods in
      let apps = each (analysis_expired_deployments time threshold) k.apps config_maps in
      let services = each (analysis_expired_services time threshold) k.services apps in
      analysis_lock_and_orphan_services c (listed (all_services namespace w)) w services

  -- CheckClusterResources
  unfoldable pub check_cluster_resources : ℕ → Text → World → Reply ResourceToClean × World
  unfolding get_kt_resources analysed
  check_cluster_resources threshold namespace w =
      (get_kt_resources namespace >>= λ k v. done (analysed threshold namespace k v) v) w
