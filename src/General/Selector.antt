-- ===== src/General/Selector.antt =====
-- UpdateServiceSelector and RecoverOriginalService: the switch of a service and its way back.
use kt_connect.Common.{
  ◌≡◌, ◌≢◌, refl, sym, ap, ◌∙◌, subst, true, false, none, some, [], ◌∷◌, arith, if◌then◌else◌, Text,
  text_eq, text_eq_refl, Bool-cases, inl, inr,
}
use kt_connect.Common.Dict.{Dict, lookup, lookup-put, lookup-delete}
use kt_connect.Common.Exec.{Reply, ok, err, panic, done, Reply-cases, and_then}
use kt_connect.Collection.{GoMap, entries, read, map_equals, map_contains, map_put}
use kt_connect.Collection.Maps.{IsUnique, IsFilled}
use kt_connect.Collection.Equality.{map_equals_iff}
use kt_connect.Cluster.{
  Api, Service, kt_selector, kt_role, SameMap, SameService, IsStore, IsReadBack, IsWritable,
}
use kt_connect.General.Lock.{drop_key}
use kt_connect.General.Resource.{
  is_set, is_service_changed, record_selector, marshaled_of, update_service_selector,
}
use kt_connect.General.Teardown.{restore, restore_found, recover_original_service}

pub set-nonempty : (t : Text) → t ≢ [] → is_set t ≡ true
unfolding is_set
set-nonempty [] h = absurd (h refl)
set-nonempty (b ∷ t) h = refl

pub lookup-map_put :
    (m : GoMap) (k j v : Text)
    → lookup j (entries (map_put m k v)) ≡ (if text_eq k j then some v else lookup j (entries m))
unfolding map_put
lookup-map_put none k j v = unfold lookup in refl
lookup-map_put (some d) k j v = lookup-put k j v d

pub lookup-drop_key :
    (m : GoMap) (k j : Text)
    → lookup j (entries (drop_key k m)) ≡ (if text_eq k j then none else lookup j (entries m))
unfolding drop_key
lookup-drop_key none k j = unfold lookup in ground arith
lookup-drop_key (some d) k j = lookup-delete k j d

-- A selector without a role differs from one with a role.
differs :
    (m : GoMap) (sel : Dict Text)
    → IsUnique (entries m)
    → IsFilled (entries m)
    → IsUnique sel
    → is_set (read m kt_role) ≡ false
    → is_set (read (some sel) kt_role) ≡ true
    → map_equals m (some sel) ≡ false
differs none sel u f us h hs = unfold map_equals map_contains in ground arith
differs (some d) sel u f us h hs = elim (Bool-cases (map_equals (some d) (some sel))) [
  | inl same ↦
      let at_role : lookup kt_role d ≡ lookup kt_role sel =
        (map_equals_iff d sel u us f).0 same kt_role in
      absurd (unfold read in cc (h, hs, at_role))
  | inr differ ↦ differ
]

module _ (c : Api) where
  open c use {World, get_service, update_service, marshal, unmarshal}

  updated :
      (r : Reply Service × World) (w1 : World)
      → and_then r.0 (λ _. done tt) r.1 ≡ (ok tt, w1)
      → (t : Service) × (r ≡ (ok t, w1))
  updated (ok t, w) w1 h = (t, ap (λ p. (ok t, p.1)) h)
  updated (err e, w) w1 h = absurd (cc h)
  updated (panic, w) w1 h = absurd (cc h)

  -- The first switch writes the new selector and the recorded one.
  first_switch :
      (name ns : Text) (w w1 : World) (svc : Service) (sel : Dict Text)
      → get_service name ns w ≡ ok svc
      → is_set (read svc.annotations kt_selector) ≡ false
      → is_set (read (some sel) kt_role) ≡ true
      → IsUnique (entries svc.selector)
      → IsFilled (entries svc.selector)
      → IsUnique sel
      → update_service_selector c name ns (some sel) w ≡ (ok tt, w1)
      → (t : Text) × ((marshal svc.selector ≡ ok t)
          × ((s : Service) × (update_service
                  (record svc {
                    annotations = map_put svc.annotations kt_selector t;
                    selector = some sel;
                  })
                  w
                ≡ (ok s, w1))))
  unfolding update_service_selector record_selector
  first_switch name ns w w1 svc sel found fresh role u f us h =
      elim (Bool-cases (is_set (read svc.selector kt_role))) [
        | inl has_role ↦ absurd (cc (found, fresh, has_role, h))
        | inr no_role ↦ elim (Reply-cases (marshal svc.selector)) [
          | inl (t, text) ↦
              let recorded : Service = record svc {
                annotations = map_put svc.annotations kt_selector t;
              } in
              let changed : is_service_changed recorded (some sel) t ≡ true =
                unfold is_service_changed in
                rw (differs svc.selector sel u f us no_role role) refl in
              let wrote = update_service (record recorded { selector = some sel }) w in
              let step : and_then wrote.0 (λ _. done tt) wrote.1 ≡ (ok tt, w1) =
                sym (stepped t found fresh no_role text changed) ∙ h in
              (t, (text, updated wrote w1 step))
          | inr (inl (e, bad)) ↦ absurd (cc (found, fresh, no_role, bad, h))
          | inr (inr bad) ↦ absurd (cc (found, fresh, no_role, bad, h))
        ]
      ]
    where
      stepped :
          (t : Text)
          → get_service name ns w ≡ ok svc
          → is_set (read svc.annotations kt_selector) ≡ false
          → is_set (read svc.selector kt_role) ≡ false
          → marshal svc.selector ≡ ok t
          → is_service_changed
              (record svc { annotations = map_put svc.annotations kt_selector t })
              (some sel)
              t
            ≡ true
          → update_service_selector c name ns (some sel) w
            ≡ and_then
                (update_service
                  (record svc {
                    annotations = map_put svc.annotations kt_selector t;
                    selector = some sel;
                  })
                  w).0
                (λ _. done tt)
                (update_service
                  (record svc {
                    annotations = map_put svc.annotations kt_selector t;
                    selector = some sel;
                  })
                  w).1
      stepped t found fresh no_role text changed =
          rw
            (
              update_service_selector, found, record_selector, fresh, no_role, text, marshaled_of,
              changed,
            )
            refl

  -- The server's copy of what was written, under the name of the service that was found.
  pub found_updated :
      IsStore c
      → (name ns : Text) (w w1 : World) (svc written t : Service) → get_service name ns w ≡ ok svc
      → written.name ≡ svc.name
      → written.namespace ≡ svc.namespace
      → update_service written w ≡ (ok t, w1)
      → (get_service name ns w1 ≡ ok t) × SameService written t
  found_updated st name ns w w1 svc written t found en es wrote =
      let (named, spaced) = st.get_named name ns w svc found in
      let (found1, same1) = st.get_updated written t w w1 wrote in
      (cc (found1, en, es, named, spaced), same1)

  -- If UpdateServiceSelector returns without an error for a service that records a selector, and
  -- whose selector has unique keys and no empty value, then the service selects by the new selector,
  -- whose keys are unique, and keeps its annotations, the recorded selector among them.
  pub update_service_selector_again :
      IsStore c
      → (name ns : Text) (w w1 : World) (svc : Service) (sel : Dict Text)
      → get_service name ns w ≡ ok svc
      → is_set (read svc.annotations kt_selector) ≡ true
      → IsUnique (entries svc.selector)
      → IsFilled (entries svc.selector)
      → IsUnique sel
      → update_service_selector c name ns (some sel) w ≡ (ok tt, w1)
      → (s : Service) × ((get_service name ns w1 ≡ ok s)
          × (SameMap s.selector (some sel) × SameMap s.annotations svc.annotations))
  unfolding update_service_selector record_selector
  update_service_selector_again st name ns w w1 svc sel found taken u f us h =
      elim (Bool-cases (is_service_changed svc (some sel) (read svc.annotations kt_selector))) [
        | inl changed ↦
            let written : Service = record svc { selector = some sel } in
            let wrote = update_service written w in
            let step : and_then wrote.0 (λ _. done tt) wrote.1 ≡ (ok tt, w1) =
              sym (rewritten changed) ∙ h in
            let (t, wrote1) = updated wrote w1 step in
            let (found1, same1) =
              found_updated st name ns w w1 svc written t found refl refl wrote1 in
            (t, (found1, (same1.same_selector, same1.same_annotations)))
        | inr same ↦
            let stays : (ok tt, w) ≡ (ok tt, w1) = sym (kept same) ∙ h in
            (
              svc,
              (
                subst (λ v. get_service name ns v ≡ ok svc) (ap (λ p. p.1) stays) found,
                (unchanged svc.selector u f same, λ k. refl),
              ),
            )
      ]
    where
      rewritten :
          is_service_changed svc (some sel) (read svc.annotations kt_selector) ≡ true
          → update_service_selector c name ns (some sel) w
            ≡ and_then
                (update_service (record svc { selector = some sel }) w).0
                (λ _. done tt)
                (update_service (record svc { selector = some sel }) w).1
      rewritten changed = rw (update_service_selector, found, record_selector, taken, changed) refl

      kept :
          is_service_changed svc (some sel) (read svc.annotations kt_selector) ≡ false
          → update_service_selector c name ns (some sel) w ≡ (ok tt, w)
      kept same = rw (update_service_selector, found, record_selector, taken, same) refl

      unchanged :
          (m : GoMap)
          → IsUnique (entries m)
          → IsFilled (entries m)
          → is_service_changed
              (record svc { selector = m })
              (some sel)
              (read svc.annotations kt_selector)
            ≡ false
          → SameMap m (some sel)
      unchanged none u f same =
          absurd (unfold is_service_changed map_equals map_contains in ground arith)
      unchanged (some d) u f same =
          (map_equals_iff d sel u us f).0 (unfold is_service_changed in ground arith)

  -- The way back writes the selector that the annotation's text is read as.
  pub recover_step :
      (name ns t : Text) (w w2 : World) (svc s2 : Service) (m : GoMap)
      → get_service name ns w ≡ ok svc
      → lookup kt_selector (entries svc.annotations) ≡ some t
      → unmarshal t ≡ ok m
      → update_service
          (record svc { selector = m; annotations = drop_key kt_selector svc.annotations })
          w
        ≡ (ok s2, w2)
      → recover_original_service c name ns w ≡ (ok tt, w2)
  unfolding recover_original_service
  recover_step name ns t w w2 svc s2 m found recorded text wrote =
      rw (recover_original_service, found, restore_found, recorded, text, restore, wrote) refl

  -- For a service that records no selector, whose selector has unique keys and no empty value, and
  -- for a new selector with unique keys and a role: if UpdateServiceSelector returns without an
  -- error, the service selects by the new selector, and RecoverOriginalService, where the server
  -- accepts updates, then returns and leaves the service with its first selector and without the
  -- recorded one, its other annotations unchanged. The text of the selector is read back as it.
  pub recover_original_service-update_service_selector :
      IsStore c
      → (name ns : Text) (w w1 : World) (svc : Service) (sel : Dict Text)
      → get_service name ns w ≡ ok svc
      → is_set (read svc.annotations kt_selector) ≡ false
      → is_set (read (some sel) kt_role) ≡ true
      → IsUnique (entries svc.selector)
      → IsFilled (entries svc.selector)
      → IsUnique sel
      → IsReadBack c svc.selector
      → update_service_selector c name ns (some sel) w ≡ (ok tt, w1)
      → IsWritable c w1
      → ((s : Service) × ((get_service name ns w1 ≡ ok s) × SameMap s.selector (some sel)))
        × ((w2 : World) × ((recover_original_service c name ns w1 ≡ (ok tt, w2))
              × ((s : Service) × ((get_service name ns w2 ≡ ok s)
                    × (SameMap s.selector svc.selector
                        × ((k : Text)
                            → lookup k (entries s.annotations) ≡ (
                                if text_eq kt_selector k
                                then none
                                else lookup k (entries svc.annotations))))))))
  recover_original_service-update_service_selector st name ns w w1 svc sel found fresh role u f us
        codec h accepts =
      let (t, (text, (s1, wrote1))) = first_switch name ns w w1 svc sel found fresh role u f us h in
      let (_, (m, (parsed, same_m))) = codec t text in
      let switched : Service = record svc {
        annotations = map_put svc.annotations kt_selector t;
        selector = some sel;
      } in
      let (found1, same1) = found_updated st name ns w w1 svc switched s1 found refl refl wrote1 in
      let recorded : lookup kt_selector (entries s1.annotations) ≡ some t =
        same1.same_annotations kt_selector
        ∙ lookup-map_put svc.annotations kt_selector kt_selector t
        ∙ ap (λ b. if b then some t else lookup kt_selector (entries svc.annotations))
            (text_eq_refl kt_selector) in
      let restored : Service = record s1 {
        selector = m;
        annotations = drop_key kt_selector s1.annotations;
      } in
      let (s2, (w2, wrote2)) = accepts restored in
      let (found2, same2) = found_updated st name ns w1 w2 s1 restored s2 found1 refl refl wrote2 in
      (
        (s1, (found1, same1.same_selector)),
        (
          w2,
          (
            recover_step name ns t w1 w2 s1 s2 m found1 recorded parsed wrote2,
            (
              s2,
              (
                found2,
                (
                  (λ k. same2.same_selector k ∙ same_m k),
                  λ k.
                      same2.same_annotations k
                      ∙ lookup-drop_key s1.annotations kt_selector k
                      ∙ ap (λ o. if text_eq kt_selector k then none else o)
                          (same1.same_annotations k)
                      ∙ without svc.annotations k t,
                ),
              ),
            ),
          ),
        ),
      )
    where
      without :
          (m : GoMap) (k t : Text)
          → (if text_eq kt_selector k then none else lookup k (entries (map_put m kt_selector t)))
            ≡ (if text_eq kt_selector k then none else lookup k (entries m))
      without m k t = elim (Bool-cases (text_eq kt_selector k)) [
        | inl same ↦ rw same refl
        | inr differ ↦ rw (lookup-map_put m kt_selector k t, differ) refl
      ]
