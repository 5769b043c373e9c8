-- ===== src/Clean/Check/Steps.antt =====
-- What each analysis of CheckClusterResources adds to the lists for removal.
use kt_connect.Common.{
  ℕ, ◌≡◌, refl, sym, ap, ◌∙◌, Bool, true, false, not, ◌&&◌, ◌||◌, ltb, Option, none, some, List, [],
  ◌∷◌, ◌++◌, append_assoc, append-nil, if◌then◌else◌, Text, text_eq, codes, Bool-cases, inl, inr,
}
use kt_connect.Common.Int.{ℤ}
use kt_connect.Common.Dict.{lookup}
use kt_connect.Collection.{GoMap, entries, read, string2map}
use kt_connect.Cluster.{
  Api, Service, Pod, Deployment, ConfigMap, kt_role, kt_lock, kt_config, role_router,
  role_exchange_shadow,
}
use kt_connect.General.Resource.{is_set}
use kt_connect.Recover.{parse_replicas, app_key, replicas_key}
use kt_connect.Clean.{
  ResourceToClean, is_dead, note_scale, note_service, analysis_config_annotation,
  analysis_expired_pods, analysis_expired_configmaps, analysis_expired_deployments,
  analysis_expired_services, is_stale, is_orphan, note_lock_and_orphan,
  analysis_lock_and_orphan_services,
}
use kt_connect.Clean.Check.{each}

-- The names of the items that pass a test.
abbrev pub names_of {ℓ} : {A : Type ℓ} → (A → Text) → (A → Bool) → List A → List Text
names_of name test [] = []
names_of name test (a ∷ items) =
    let rest = names_of name test items in if test a then name a ∷ rest else rest

-- Two results that list the same for removal.
pub record Same (r s : ResourceToClean) : Type 0 where
  pub pods : r.pods_to_delete ≡ s.pods_to_delete
  pub services : r.services_to_delete ≡ s.services_to_delete
  pub config_maps : r.config_maps_to_delete ≡ s.config_maps_to_delete
  pub deployments : r.deployments_to_delete ≡ s.deployments_to_delete

same : (r : ResourceToClean) → Same r r
same r = record { pods = refl; services = refl; config_maps = refl; deployments = refl }

chained : {r s t : ResourceToClean} → Same r s → Same s t → Same r t
chained h k = record {
  pods = h.pods ∙ k.pods;
  services = h.services ∙ k.services;
  config_maps = h.config_maps ∙ k.config_maps;
  deployments = h.deployments ∙ k.deployments;
}

-- A test that may change the result otherwise.
if-Same : (b : Bool) (r s t : ResourceToClean) → Same r t → Same s t → Same (if b then r else s) t
if-Same true r s t h k = h
if-Same false r s t h k = k

note_scale-Same :
    (role : Text) (config : GoMap) (r : ResourceToClean) → Same (note_scale role config r) r
unfolding note_scale
note_scale-Same role config r =
    if-Same
      (text_eq role role_exchange_shadow
        && (ltb 0 (parse_replicas (read config replicas_key)) && is_set (read config app_key)))
      _ r r (record { pods = refl; services = refl; config_maps = refl; deployments = refl })
      (same r)

service-Same :
    (found : Option Text) (r : ResourceToClean)
    → Same
        (elim found [
          | some service ↦ record r {
            services_to_recover = r.services_to_recover ++ (service ∷ []);
          }
          | none ↦ r
        ])
        r
service-Same (some service) r = record {
  pods = refl;
  services = refl;
  config_maps = refl;
  deployments = refl;
}
service-Same none r = same r

note_service-Same :
    (role : Text) (config : GoMap) (r : ResourceToClean) → Same (note_service role config r) r
unfolding note_service
note_service-Same role config r =
    if-Same (text_eq role role_router || text_eq role role_exchange_shadow) _ r r
      (service-Same (lookup (codes "service") (entries config)) r) (same r)

config-Same :
    (role : Text) (config : GoMap) (r : ResourceToClean)
    → Same (analysis_config_annotation role config r) r
unfolding analysis_config_annotation
config-Same role config r =
    chained (note_service-Same role config (note_scale role config r))
      (note_scale-Same role config r)

module _ (c : Api) (w : c.World) where
  lock-Same : (svc : Service) (r : ResourceToClean) → Same (note_lock_and_orphan c svc w r) r
  unfolding note_lock_and_orphan
  lock-Same svc r =
      let unlocked : ResourceToClean =
        if is_stale (c.get_time w) (lookup kt_lock (entries svc.annotations))
        then record r { services_to_unlock = r.services_to_unlock ++ (svc.name ∷ []) }
        else r in
      let first : Same unlocked r =
        if-Same (is_stale (c.get_time w) (lookup kt_lock (entries svc.annotations))) _ r r
          (record { pods = refl; services = refl; config_maps = refl; deployments = refl })
          (same r) in
      if-Same (is_orphan c svc w) _ unlocked r
        (record {
          pods = first.pods;
          services = first.services;
          config_maps = first.config_maps;
          deployments = first.deployments;
        })
        first

  pub locks-Same :
      (svcs : List Service) (r : ResourceToClean)
      → Same (analysis_lock_and_orphan_services c svcs w r) r
  unfolding analysis_lock_and_orphan_services
  locks-Same [] r = same r
  locks-Same (svc ∷ svcs) r =
      chained (locks-Same svcs (note_lock_and_orphan c svc w r)) (lock-Same svc r)

module _ {A : Type 0} (analysis : A → ResourceToClean → ResourceToClean)
    (π : ResourceToClean → List Text) where
  pub each_kept :
      ((a : A) (r : ResourceToClean) → π (analysis a r) ≡ π r)
      → (items : List A) (r : ResourceToClean) → π (each analysis items r) ≡ π r
  unfolding each
  each_kept step [] r = refl
  each_kept step (a ∷ items) r = each_kept step items (analysis a r) ∙ step a r

  module _ (name : A → Text) (test : A → Bool) where
    pub each_grown :
        ((a : A) (r : ResourceToClean)
          → π (analysis a r) ≡ π r ++ (if test a then name a ∷ [] else []))
        → (items : List A) (r : ResourceToClean)
        → π (each analysis items r) ≡ π r ++ names_of name test items
    unfolding each
    each_grown step [] r = sym (append-nil (π r))
    each_grown step (a ∷ items) r =
        each_grown step items (analysis a r)
        ∙ ap (λ l. l ++ names_of name test items) (step a r)
        ∙ append_assoc (π r) (if test a then name a ∷ [] else []) (names_of name test items)
        ∙ ap (λ l. π r ++ l) (joined (test a) (name a) (names_of name test items))
      where
        joined :
            (b : Bool) (t : Text) (l : List Text)
            → (if b then t ∷ [] else []) ++ l ≡ (if b then t ∷ l else l)
        joined true t l = refl
        joined false t l = refl

module _ (time : ℤ) (threshold : ℕ) where
  abbrev pub dead_pod : Pod → Bool
  dead_pod pod = is_dead time threshold pod.annotations && not pod.terminating

  pub pod_step :
      (pod : Pod) (r : ResourceToClean)
      → Same (analysis_expired_pods time threshold pod r) (record r {
        pods_to_delete = r.pods_to_delete ++ (if dead_pod pod then pod.name ∷ [] else []);
      })
  unfolding analysis_expired_pods
  pod_step pod r =
      of_tests (is_dead time threshold pod.annotations) pod.terminating pod.name
        (read pod.labels kt_role) (string2map (read pod.annotations kt_config)) r
    where
      of_tests :
          (dead ends : Bool) (name role : Text) (config : GoMap) (r : ResourceToClean)
          → Same
              (if dead
                then analysis_config_annotation role config (
                    if ends
                    then r
                    else record r { pods_to_delete = r.pods_to_delete ++ (name ∷ []) })
                else r)
              (record r {
                pods_to_delete = r.pods_to_delete ++ (if dead && not ends then name ∷ [] else []);
              })
      of_tests true true name role config r = chained (config-Same role config r) (record {
        pods = sym (append-nil r.pods_to_delete);
        services = refl;
        config_maps = refl;
        deployments = refl;
      })
      of_tests true false name role config r =
          config-Same role config (record r { pods_to_delete = r.pods_to_delete ++ (name ∷ []) })
      of_tests false ends name role config r = record {
        pods = sym (append-nil r.pods_to_delete);
        services = refl;
        config_maps = refl;
        deployments = refl;
      }

  pub config_map_step :
      (cf : ConfigMap) (r : ResourceToClean)
      → Same (analysis_expired_configmaps time threshold cf.name cf.annotations r) (record r {
        config_maps_to_delete =
            r.config_maps_to_delete
            ++ (if is_dead time threshold cf.annotations then cf.name ∷ [] else []);
      })
  unfolding analysis_expired_configmaps
  config_map_step cf r = elim (Bool-cases (is_dead time threshold cf.annotations)) [
    | inl dead ↦
        rw dead
          (same (record r { config_maps_to_delete = r.config_maps_to_delete ++ (cf.name ∷ []) }))
    | inr alive ↦
        rw (alive, append-nil r.config_maps_to_delete)
          (record { pods = refl; services = refl; config_maps = refl; deployments = refl })
  ]

  pub app_step :
      (app : Deployment) (r : ResourceToClean)
      → Same (analysis_expired_deployments time threshold app r) (record r {
        deployments_to_delete =
            r.deployments_to_delete
            ++ (if is_dead time threshold app.annotations then app.name ∷ [] else []);
      })
  unfolding analysis_expired_deployments
  app_step app r = elim (Bool-cases (is_dead time threshold app.annotations)) [
    | inl dead ↦ rw dead (
        config-Same (read app.labels kt_role) (string2map (read app.annotations kt_config))
          (record r { deployments_to_delete = r.deployments_to_delete ++ (app.name ∷ []) }))
    | inr alive ↦
        rw (alive, append-nil r.deployments_to_delete)
          (record { pods = refl; services = refl; config_maps = refl; deployments = refl })
  ]

  pub service_step :
      (svc : Service) (r : ResourceToClean)
      → Same (analysis_expired_services time threshold svc r) (record r {
        services_to_delete =
            r.services_to_delete
            ++ (if is_dead time threshold svc.annotations then svc.name ∷ [] else []);
      })
  unfolding analysis_expired_services
  service_step svc r = elim (Bool-cases (is_dead time threshold svc.annotations)) [
    | inl dead ↦
        rw dead (same (record r { services_to_delete = r.services_to_delete ++ (svc.name ∷ []) }))
    | inr alive ↦
        rw (alive, append-nil r.services_to_delete)
          (record { pods = refl; services = refl; config_maps = refl; deployments = refl })
  ]
