-- ===== src/Clean/Check/Exact.antt =====
-- What CheckClusterResources lists for removal: the objects whose heart beat is too old, and no other.
use kt_connect.Common.{ℕ, ◌*◌, ◌≤◌, ◌≡◌, refl, ap, ◌∙◌, subst, Bool, not, ◌&&◌, ◌++◌, Text}
use kt_connect.Common.Int.{pos}
use kt_connect.Strings.{max_int}
use kt_connect.Collection.{GoMap}
use kt_connect.Common.Exec.{ok}
use kt_connect.Cluster.{Api, ConfigMap}
use kt_connect.Clean.{
  ResourceToClean, is_dead, analysis_expired_pods, analysis_expired_configmaps,
  analysis_expired_deployments, analysis_expired_services,
}
use kt_connect.Clean.Check.{
  KtResources, each, listed, nothing, analysed, get_kt_resources, check_cluster_resources,
}
use kt_connect.Clean.Check.Age.{too_old, is_dead-too_old}
use kt_connect.Clean.Check.Steps.{
  names_of, locks-Same, each_kept, each_grown, dead_pod, pod_step, config_map_step, app_step,
  service_step,
}

-- Behind the analyses the lists for removal are, in this order, the pods whose annotations pass a test
-- and that do not end already, and the config maps, deployments and services whose annotations pass it.
abbrev Lists : (GoMap → Bool) → KtResources → ResourceToClean → Type 0
Lists test k r =
    (r.pods_to_delete
      ≡ names_of (λ p. p.name) (λ p. test p.annotations && not p.terminating) k.pods)
    × ((r.config_maps_to_delete ≡ names_of (λ m. m.name) (λ m. test m.annotations) k.config_maps)
        × ((r.deployments_to_delete ≡ names_of (λ d. d.name) (λ d. test d.annotations) k.apps)
            × (r.services_to_delete ≡ names_of (λ s. s.name) (λ s. test s.annotations) k.services)))

-- The lists hold what has a heart beat that is more than so many minutes old at a moment.
abbrev pub IsExact : ℕ → ℕ → KtResources → ResourceToClean → Type 0
IsExact now minutes k r = Lists (too_old now minutes) k r

module _ (c : Api) (threshold : ℕ) (namespace : Text) (k : KtResources) (w : c.World) where
  analysed-Lists : Lists (is_dead (c.get_time w) threshold) k (analysed c threshold namespace k w)
  unfolding analysed
  analysed-Lists =
      let time = c.get_time w in
      let f = analysis_expired_pods time threshold in
      let g : ConfigMap → ResourceToClean → ResourceToClean =
        λ cf. analysis_expired_configmaps time threshold cf.name cf.annotations in
      let h = analysis_expired_deployments time threshold in
      let e = analysis_expired_services time threshold in
      let r1 = each f k.pods nothing in
      let r2 = each g k.config_maps r1 in
      let r3 = each h k.apps r2 in
      let r4 = each e k.services r3 in
      let end = locks-Same c w (listed (c.all_services namespace w)) r4 in
      (
        end.pods
            ∙ each_kept e (λ r. r.pods_to_delete) (λ s r. (service_step time threshold s r).pods)
                k.services r3
            ∙ each_kept h (λ r. r.pods_to_delete) (λ d r. (app_step time threshold d r).pods) k.apps
                r2
            ∙ each_kept g (λ r. r.pods_to_delete) (λ m r. (config_map_step time threshold m r).pods)
                k.config_maps r1
            ∙ each_grown f (λ r. r.pods_to_delete) (λ p. p.name) (dead_pod time threshold)
                (λ p r. (pod_step time threshold p r).pods) k.pods nothing,
        (
          end.config_maps
              ∙ each_kept e (λ r. r.config_maps_to_delete)
                  (λ s r. (service_step time threshold s r).config_maps) k.services r3
              ∙ each_kept h (λ r. r.config_maps_to_delete)
                  (λ d r. (app_step time threshold d r).config_maps) k.apps r2
              ∙ each_grown g (λ r. r.config_maps_to_delete) (λ m. m.name)
                  (λ m. is_dead time threshold m.annotations)
                  (λ m r. (config_map_step time threshold m r).config_maps) k.config_maps r1
              ∙ ap
                  (λ l.
                    l
                    ++ names_of (λ m. m.name) (λ m. is_dead time threshold m.annotations)
                        k.config_maps)
                  (each_kept f (λ r. r.config_maps_to_delete)
                    (λ p r. (pod_step time threshold p r).config_maps) k.pods nothing),
          (
            end.deployments
                ∙ each_kept e (λ r. r.deployments_to_delete)
                    (λ s r. (service_step time threshold s r).deployments) k.services r3
                ∙ each_grown h (λ r. r.deployments_to_delete) (λ d. d.name)
                    (λ d. is_dead time threshold d.annotations)
                    (λ d r. (app_step time threshold d r).deployments) k.apps r2
                ∙ ap
                    (λ l.
                      l
                      ++ names_of (λ d. d.name) (λ d. is_dead time threshold d.annotations) k.apps)
                    (each_kept g (λ r. r.deployments_to_delete)
                        (λ m r. (config_map_step time threshold m r).deployments) k.config_maps r1
                      ∙ each_kept f (λ r. r.deployments_to_delete)
                          (λ p r. (pod_step time threshold p r).deployments) k.pods nothing),
            end.services
                ∙ each_grown e (λ r. r.services_to_delete) (λ s. s.name)
                    (λ s. is_dead time threshold s.annotations)
                    (λ s r. (service_step time threshold s r).services) k.services r3
                ∙ ap
                    (λ l.
                      l
                      ++ names_of (λ s. s.name) (λ s. is_dead time threshold s.annotations)
                          k.services)
                    (each_kept h (λ r. r.services_to_delete)
                        (λ d r. (app_step time threshold d r).services) k.apps r2
                      ∙ each_kept g (λ r. r.services_to_delete)
                          (λ m r. (config_map_step time threshold m r).services) k.config_maps r1
                      ∙ each_kept f (λ r. r.services_to_delete)
                          (λ p r. (pod_step time threshold p r).services) k.pods nothing),
          ),
        ),
      )

-- If the API server lists the objects of the program, CheckClusterResources returns a result whose
-- lists for removal are exactly the pods that do not end already, the config maps, the deployments
-- and the services whose heart beat is a number of seconds, not negative, that lies more than the
-- threshold of minutes before now. The clock and the seconds of the threshold are 64-bit numbers.
pub check_cluster_resources-IsExact :
    (c : Api) (threshold : ℕ) (namespace : Text) (k : KtResources) (w w' : c.World) (now : ℕ)
    → get_kt_resources c namespace w ≡ (ok k, w')
    → c.get_time w' ≡ pos now
    → now ≤ max_int
    → threshold * 60 ≤ max_int
    → (r : ResourceToClean) × ((check_cluster_resources c threshold namespace w ≡ (ok r, w'))
        × IsExact now threshold k r)
check_cluster_resources-IsExact c threshold namespace k w w' now found clock early small =
    let r = analysed c threshold namespace k w' in
    let same : is_dead (c.get_time w') threshold ≡ too_old now threshold = λ i annotations.
      (ap (λ time. is_dead time threshold annotations) clock
          ∙ is_dead-too_old now threshold early small annotations)
        i in
    (
      r,
      (
        unfold check_cluster_resources in rw found refl,
        subst (λ test. Lists test k r) same (analysed-Lists c threshold namespace k w'),
      ),
    )
