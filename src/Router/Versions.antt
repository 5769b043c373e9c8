-- ===== src/Router/Versions.antt =====
-- The versions of the router: what `add` and `remove` leave in the files.
use kt_connect.Common.{
  suc, ◌≡◌, refl, sym, ap, ◌∙◌, true, none, some, List, [], ◌∷◌, ◌++◌, arith, ltb, if◌then◌else◌,
  length, Text, text_eq, text_eq_iff, Bool-cases, inl, inr,
}
use kt_connect.Common.Exec.{Reply, ok, err, panic, and_then}
use kt_connect.Collection.{count_item}
use kt_connect.Router.{
  KtConf, Files, Action, action_add, action_remove, change, remove_first,
  write_and_reload_route_conf, update_route, IsDisk,
}

count_item-remove_first :
    (vs : List Text) (v x : Text) → count_item (remove_first (vs ++ (v ∷ [])) v) x ≡ count_item vs x
unfolding remove_first count_item
count_item-remove_first [] v x = ground (arith, text_eq_iff v v, text_eq_iff v x)
count_item-remove_first (u ∷ vs) v x = elim (Bool-cases (text_eq u v)) [
  | inl same ↦ rw same (appended vs u v x ((text_eq_iff u v).0 same))
  | inr differ ↦ rw differ (ground (arith, count_item-remove_first vs v x))
]
  where
    appended :
        (vs : List Text) (u v x : Text)
        → u ≡ v
        → count_item (vs ++ (v ∷ [])) x
          ≡ (if text_eq u x then suc (count_item vs x) else count_item vs x)
    appended [] u v x e = rw e (ground arith)
    appended (y ∷ vs) u v x e = ground (arith, appended vs u v x e)

module _ (f : Files) where
  open f use {
    World, route_conf, read_kt_conf, write_kt_conf, write_route_conf, remove_route_conf,
    reload_route_conf,
  }

  -- Both files stand for the configuration: no route file without a version.
  abbrev pub IsStored : KtConf → World → Type 0
  IsStored conf w =
      (read_kt_conf w ≡ ok conf)
      × (route_conf w ≡ (if ltb 0 (length conf.versions) then some conf else none))

  -- A chain that succeeds is two calls that succeed.
  pub two_steps :
      {A B : Type 0} (r : Reply A × World) (k : World → Reply B × World) (b : B) (w' : World)
      → and_then r.0 (λ _. k) r.1 ≡ (ok b, w')
      → (a : A) × ((v : World) × ((r ≡ (ok a, v)) × (k v ≡ (ok b, w'))))
  two_steps (ok a, v) k b w' h = (a, (v, (refl, h)))
  two_steps (err e, v) k b w' h = absurd (cc h)
  two_steps (panic, v) k b w' h = absurd (cc h)

  written :
      IsDisk f
      → (conf : KtConf) (w v w' : World) → read_kt_conf w ≡ ok conf
      → (if ltb 0 (length conf.versions) then write_route_conf conf else remove_route_conf) w
        ≡ (ok tt, v)
      → reload_route_conf v ≡ (ok tt, w')
      → IsStored conf w'
  written disk conf w v w' stands wrote reloaded =
      let (route, kept) = disk.reloaded v w' reloaded in
      elim (Bool-cases (ltb 0 (length conf.versions))) [
        | inl some_left ↦
            let (there, same) = disk.route_conf_written conf w v (
              ap (λ b. (if b then write_route_conf conf else remove_route_conf) w) (sym some_left)
              ∙ wrote) in
            (kept ∙ same ∙ stands, rw some_left (route ∙ there))
        | inr none_left ↦
            let (there, same) = disk.route_conf_removed w v (
              ap (λ b. (if b then write_route_conf conf else remove_route_conf) w) (sym none_left)
              ∙ wrote) in
            (kept ∙ same ∙ stands, rw none_left (route ∙ there))
      ]

  write_and_reload-IsStored :
      IsDisk f
      → (conf : KtConf) (w w' : World) → read_kt_conf w ≡ ok conf
      → write_and_reload_route_conf f conf w ≡ (ok tt, w')
      → IsStored conf w'
  write_and_reload-IsStored disk conf w w' stands h =
      let (_, (v, (wrote, reloaded))) =
        two_steps
          ((if ltb 0 (length conf.versions) then write_route_conf conf else remove_route_conf) w)
          reload_route_conf tt w' (unfold write_and_reload_route_conf in h) in
      written disk conf w v w' stands wrote reloaded

  -- If updateRoute succeeds, the header was that of the configuration, and both files stand for the
  -- changed configuration: the route file is there exactly if a version is left.
  pub update_route-IsStored :
      IsDisk f
      → (header version : Text) (a : Action) (w w' : World) (conf : KtConf)
      → read_kt_conf w ≡ ok conf
      → update_route f header version a w ≡ (ok tt, w')
      → (conf.header ≡ header) × IsStored (change a conf version) w'
  update_route-IsStored disk header version a w w' conf found h =
      elim (Bool-cases (text_eq conf.header header)) [
        | inl same ↦
            let (_, (v, (wrote, rest))) =
              two_steps (write_kt_conf (change a conf version) w)
                (write_and_reload_route_conf f (change a conf version)) tt w'
                (sym (updated same) ∙ h) in
            (
              (text_eq_iff conf.header header).0 same,
              write_and_reload-IsStored disk (change a conf version) v w'
                  (disk.kt_conf_written (change a conf version) w v wrote) rest,
            )
        | inr differ ↦ absurd (unfold update_route in cc (found, differ, h))
      ]
    where
      updated :
          text_eq conf.header header ≡ true
          → update_route f header version a w
            ≡ and_then
                (write_kt_conf (change a conf version) w).0
                (λ _. write_and_reload_route_conf f (change a conf version))
                (write_kt_conf (change a conf version) w).1
      updated same = unfold update_route in rw (found, same) refl

  -- If `add` and then `remove` of the same version succeed, the files stand for a configuration
  -- with the service, ports and header of the first, in which every version stands as often.
  pub update_route_add_remove :
      IsDisk f
      → (header version : Text) (w w1 w2 : World) (conf : KtConf) → read_kt_conf w ≡ ok conf
      → update_route f header version action_add w ≡ (ok tt, w1)
      → update_route f header version action_remove w1 ≡ (ok tt, w2)
      → (conf2 : KtConf) × (IsStored conf2 w2
          × ((record conf2 { versions = conf.versions } ≡ conf)
              × ((x : Text) → count_item conf2.versions x ≡ count_item conf.versions x)))
  update_route_add_remove disk header version w w1 w2 conf found added removed =
      let (_, stored1) =
        update_route-IsStored disk header version action_add w w1 conf found added in
      let (_, stored2) =
        update_route-IsStored disk header version action_remove w1 w2
          (change action_add conf version) (stored1.0) removed in
      (
        change action_remove (change action_add conf version) version,
        (
          stored2,
          (
            (unfold change in refl),
            λ x. unfold change in count_item-remove_first conf.versions version x,
          ),
        ),
      )
