-- ===== src/Router/Bag.antt =====
-- The router's versions as a bag, and its commands as changes of this bag.
use kt_connect.Common.{
  ℕ, suc, ◌-◌, ◌≡◌, refl, ap, ◌∙◌, subst, List, [], ◌∷◌, ◌++◌, if◌then◌else◌, Text, text_eq,
  text_eq_iff, arith,
}
use kt_connect.Common.Exec.{Reply, ok, ◌>>◌, done}
use kt_connect.Collection.{count_item}
use kt_connect.Router.{
  KtConf, Files, Action, action_add, action_remove, remove_first, change, update_route, IsDisk,
}
use kt_connect.Router.Versions.{IsStored, two_steps, update_route-IsStored}

-- How often each version is served.
abbrev pub Bag : Type 0
Bag = Text → ℕ

abbrev pub bag_of : List Text → Bag
bag_of versions x = count_item versions x

abbrev pub bag_change : Action → Text → Bag → Bag
bag_change action_add version b x = if text_eq version x then suc (b x) else b x
bag_change action_remove version b x = if text_eq version x then b x - 1 else b x

abbrev pub bag_changes : List (Action × Text) → Bag → Bag
bag_changes [] b = b
bag_changes ((a, version) ∷ commands) b = bag_changes commands (bag_change a version b)

count_item-snoc :
    (vs : List Text) (v x : Text)
    → count_item (vs ++ (v ∷ [])) x
      ≡ (if text_eq v x then suc (count_item vs x) else count_item vs x)
unfolding count_item
count_item-snoc [] v x = ground arith
count_item-snoc (u ∷ vs) v x = ground (arith, count_item-snoc vs v x)

count_item-remove :
    (vs : List Text) (v x : Text)
    → count_item (remove_first vs v) x
      ≡ (if text_eq v x then count_item vs x - 1 else count_item vs x)
unfolding count_item remove_first
count_item-remove [] v x = ground arith
count_item-remove (u ∷ vs) v x =
    ground (arith, count_item-remove vs v x, text_eq_iff u v, text_eq_iff u x, text_eq_iff v x)

bag_of-change :
    (a : Action) (conf : KtConf) (v : Text)
    → bag_of (change a conf v).versions ≡ bag_change a v (bag_of conf.versions)
unfolding change
bag_of-change action_add conf v i x = count_item-snoc conf.versions v x i
bag_of-change action_remove conf v i x = count_item-remove conf.versions v x i

others_kept :
    (a : Action) (conf : KtConf) (v : Text) (vs : List Text)
    → record (change a conf v) { versions = vs } ≡ record conf { versions = vs }
unfolding change
others_kept action_add conf v vs = refl
others_kept action_remove conf v vs = refl

module _ (f : Files) where
  open f use {World, read_kt_conf}

  -- The commands add and remove, one run of the router's program after the other.
  unfoldable pub serve : Text → List (Action × Text) → World → Reply (Unit {0}) × World
  serve header [] w = done tt w
  serve header ((a, version) ∷ commands) w =
      (update_route f header version a >> serve header commands) w

  -- If the router's configuration and route file stand for some versions, and a sequence of commands
  -- succeeds, then afterwards they stand for a configuration with the same service, ports and header
  -- whose bag of versions is what the commands make of the first bag: one more of each version
  -- added, one less of each removed.
  pub bag_of-serve :
      IsDisk f
      → (header : Text) (commands : List (Action × Text)) (w w' : World) (conf : KtConf)
      → IsStored f conf w
      → serve header commands w ≡ (ok tt, w')
      → (conf' : KtConf) × (IsStored f conf' w'
          × ((bag_of conf'.versions ≡ bag_changes commands (bag_of conf.versions))
              × ((vs : List Text)
                  → record conf' { versions = vs } ≡ record conf { versions = vs })))
  bag_of-serve disk header [] w w' conf stored h =
      let same : w ≡ w' = unfold serve in ap (λ p. p.1) h in
      (conf, (subst (IsStored f conf) same stored, (refl, λ vs. refl)))
  bag_of-serve disk header ((a, version) ∷ commands) w w' conf stored h =
      let (_, (v, (first, rest))) =
        two_steps f (update_route f header version a w) (serve header commands) tt w'
          (unfold serve in h) in
      let (_, stored1) = update_route-IsStored f disk header version a w v conf stored.0 first in
      let (conf', (stored2, (same, kept))) =
        bag_of-serve disk header commands v w' (change a conf version) stored1 rest in
      (
        conf',
        (
          stored2,
          (
            same ∙ ap (bag_changes commands) (bag_of-change a conf version),
            λ vs. kept vs ∙ others_kept a conf version vs,
          ),
        ),
      )
