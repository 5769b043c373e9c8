-- ===== src/Exchange/Scale.antt =====
-- An exchange by scale and the teardown of its run: pkg/kt/command/exchange/scale.go, and
-- recoverExchangedTarget of pkg/kt/command/general/teardown.go.
mod Tests
use kt_connect.Common.{
  ℕ, ◌/◌, ◌≡◌, refl, sym, ap, ◌∙◌, subst, Bool, true, false, Text, text_eq, text_eq_refl, codes,
  ◌==◌, ==_iff, Bool-cases, inl, inr,
}
use kt_connect.Common.Int.{ℤ, pos, negsuc}
use kt_connect.Common.Exec.{Reply, ok, ignore}
use kt_connect.Collection.{GoMap}
use kt_connect.Cluster.{Api, Deployment}
use kt_connect.General.Resource.{is_set, get_deployment_by_resource_name}
use kt_connect.General.Workspace.{recover_exchanged_target, wait_deployment_recover_complete}
use kt_connect.Refs.{eq_ℤ, scale_to}
use kt_connect.Session.{Store, Options, Machine}
use kt_connect.Exchange.{by_scale, get_exchange_annotation, get_exchange_labels}

eq_ℤ_sound : (m n : ℤ) → eq_ℤ m n ≡ true → m ≡ n
eq_ℤ_sound (pos m) (pos n) h = ap pos ((==_iff m n).0 h)
eq_ℤ_sound (pos m) (negsuc n) h = absurd (cc h)
eq_ℤ_sound (negsuc m) (pos n) h = absurd (cc h)
eq_ℤ_sound (negsuc m) (negsuc n) h = ap negsuc ((==_iff m n).0 h)

-- A deployment is found under its name, and after an update with the number of replicas written.
pub record IsDeploymentStore (c : Api) : Type 0 where
  pub get_named :
      (n ns : Text) (w : c.World) (d : Deployment)
      → c.get_deployment n ns w ≡ ok d
      → (d.name ≡ n) × (d.namespace ≡ ns)
  pub get_updated :
      (d e : Deployment) (w w' : c.World)
      → c.update_deployment d w ≡ (ok e, w')
      → (c.get_deployment d.name d.namespace w' ≡ ok e) × (e.replicas ≡ d.replicas)

-- The server accepts every update of a deployment.
abbrev pub IsDeploymentWritable : Api → Type 0
IsDeploymentWritable c =
    (d : Deployment) (w : c.World)
    → (e : Deployment) × ((w' : c.World) × (c.update_deployment d w ≡ (ok e, w')))

-- The deployment of that name has that number of replicas.
abbrev pub HasReplicas : (c : Api) → Text → Text → ℤ → c.World → Type 0
HasReplicas c name ns n w =
    (d : Deployment) × ((c.get_deployment name ns w ≡ ok d) × (d.replicas ≡ n))

module _ (c : Api) where
  open c use {World, get_deployment, update_deployment}

  scale_kept :
      (name ns : Text) (n : ℤ) (w : World) (d : Deployment)
      → get_deployment name ns w ≡ ok d
      → eq_ℤ d.replicas n ≡ true
      → scale_to c name ns n w ≡ (ok tt, w)
  unfolding scale_to
  scale_kept name ns n w d found same = rw (found, same) refl

  scale_written :
      (name ns : Text) (n : ℤ) (w w' : World) (d e : Deployment)
      → get_deployment name ns w ≡ ok d
      → eq_ℤ d.replicas n ≡ false
      → update_deployment (record d { replicas = n }) w ≡ (ok e, w')
      → scale_to c name ns n w ≡ (ok tt, w')
  unfolding scale_to
  scale_written name ns n w w' d e found differ wrote = rw (found, differ, wrote) refl

  scaled :
      IsDeploymentStore c
      → IsDeploymentWritable c
      → (name ns : Text) (n : ℤ) (w : World) (d : Deployment) → get_deployment name ns w ≡ ok d
      → (v : World) × ((scale_to c name ns n w ≡ (ok tt, v)) × HasReplicas c name ns n v)
  scaled st accepts name ns n w d found = elim (Bool-cases (eq_ℤ d.replicas n)) [
    | inl same ↦
        (w, (scale_kept name ns n w d found same, (d, (found, eq_ℤ_sound d.replicas n same))))
    | inr differ ↦
        let (e, (v, wrote)) = accepts (record d { replicas = n }) w in
        let (there, count) = st.get_updated (record d { replicas = n }) e w v wrote in
        let (named, spaced) = st.get_named name ns w d found in
        (
          v,
          (
            scale_written name ns n w v d e found differ wrote,
            (e, (cc (there, named, spaced), count)),
          ),
        )
  ]

module _ (c : Api) (l : Machine c.World) (o : Options) (s : Store) where
  scaled_back :
      (w v : c.World)
      → is_set s.origin ≡ true
      → o.exchange_mode ≡ codes "scale"
      → scale_to c s.origin o.namespace s.replicas w ≡ (ok tt, v)
      → recover_exchanged_target c l o s w
        ≡ ignore (wait_deployment_recover_complete c l o s (o.recover_wait_time / 5)) v
  unfolding recover_exchanged_target
  scaled_back w v named mode back = rw (named, mode, text_eq_refl (codes "scale"), back) refl

module _ (c : Api) (remember : Text → ℤ → c.World → Reply (Unit {0}) × c.World)
    (create_shadow : GoMap → GoMap → c.World → Reply (Unit {0}) × c.World) where
  scaled_down :
      (resource_name ns : Text) (w v u t z : c.World) (app : Deployment)
      → get_deployment_by_resource_name c resource_name ns w ≡ (ok app, v)
      → remember app.name app.replicas v ≡ (ok tt, u)
      → create_shadow (get_exchange_labels app) (get_exchange_annotation app.name app.replicas) u
        ≡ (ok tt, t)
      → scale_to c app.name ns (pos 0) t ≡ (ok tt, z)
      → by_scale c remember create_shadow resource_name ns w ≡ (ok tt, z)
  unfolding by_scale
  scaled_down resource_name ns w v u t z app found kept created down =
      rw (found, kept, created, down) refl

-- An exchange by scale of a deployment that stands behind the creation of the shadow leaves it with
-- no replica, and the teardown of a run whose store remembers its name and its replicas sets it back
-- to this number before it waits for it. Updates of deployments are accepted.
pub recover_exchanged_target-by_scale :
    (c : Api) (l : Machine c.World) (o : Options) (s : Store)
    (remember : Text → ℤ → c.World → Reply (Unit {0}) × c.World)
    (create_shadow : GoMap → GoMap → c.World → Reply (Unit {0}) × c.World) (resource_name : Text)
    (w v u t : c.World) (app d : Deployment)
    → IsDeploymentStore c
    → IsDeploymentWritable c
    → o.exchange_mode ≡ codes "scale"
    → s.origin ≡ app.name
    → s.replicas ≡ app.replicas
    → is_set app.name ≡ true
    → get_deployment_by_resource_name c resource_name o.namespace w ≡ (ok app, v)
    → remember app.name app.replicas v ≡ (ok tt, u)
    → create_shadow (get_exchange_labels app) (get_exchange_annotation app.name app.replicas) u
      ≡ (ok tt, t)
    → c.get_deployment app.name o.namespace t ≡ ok d
    → (z : c.World) × ((by_scale c remember create_shadow resource_name o.namespace w ≡ (ok tt, z))
        × (HasReplicas c app.name o.namespace (pos 0) z
            × ((y : c.World) × (HasReplicas c app.name o.namespace app.replicas y
                  × (recover_exchanged_target c l o s z
                      ≡ ignore
                          (wait_deployment_recover_complete c l o s (o.recover_wait_time / 5))
                          y)))))
recover_exchanged_target-by_scale c l o s remember create_shadow resource_name w v u t app d st
      accepts mode origin replicas named found kept created there =
    let (z, (down, (e, (empty, none_left)))) =
      scaled c st accepts app.name o.namespace (pos 0) t d there in
    let (y, (up, full)) = scaled c st accepts app.name o.namespace app.replicas z e empty in
    let back : scale_to c s.origin o.namespace s.replicas z ≡ (ok tt, y) =
      ap (λ n. scale_to c n o.namespace s.replicas z) origin
      ∙ ap (λ r. scale_to c app.name o.namespace r z) replicas
      ∙ up in
    (
      z,
      (
        scaled_down c remember create_shadow resource_name o.namespace w v u t z app found kept
            created down,
        (
          (e, (empty, none_left)),
          (y, (full, scaled_back c l o s z y (ap is_set origin ∙ named) mode back)),
        ),
      ),
    )
