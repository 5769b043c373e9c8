-- ===== src/Exchange/Selector/Refused.antt =====
-- An exchange by selector of a service that another one exchanges already.
use kt_connect.Common.{◌≡◌, refl, ap, ◌∙◌, Bool, true, none, if◌then◌else◌, Text, text_eq}
use kt_connect.Common.Dict.{lookup}
use kt_connect.Common.Exec.{Reply, ok, err, failed}
use kt_connect.Collection.{GoMap, entries, read}
use kt_connect.Cluster.{Api, Service, kt_lock, kt_selector, IsStore, IsWritable, SameMap}
use kt_connect.General.Lock.{
  lock_service, lock_service_first, unlock_service, mark, get_timestamp, drop_key,
}
use kt_connect.General.Locking.{lock_service-IsTaken, lock-mark, unlock_step}
use kt_connect.General.Resource.{is_set, get_service_by_resource_name}
use kt_connect.General.Selector.{lookup-drop_key, found_updated}
use kt_connect.Exchange.Selector.{by_selector, exchange_locked, unlocked_behind}

module _ (c : Api) where
  open c use {World, get_service, get_time}

  -- UnlockService behind LockService: the service keeps all but the lock.
  unlocked :
      IsStore c
      → (name ns : Text) (v w' : World) (t : Service) → lock_service c 11 name ns v ≡ (ok t, w')
      → IsWritable c w'
      → (t.name ≡ name)
        × ((w2 : World) × ((unlock_service c name ns w' ≡ (ok tt, w2))
              × ((s : Service) × ((get_service name ns w2 ≡ ok s)
                    × (SameMap s.selector t.selector
                        × ((k : Text)
                            → lookup k (entries s.annotations) ≡ (
                                if text_eq kt_lock k
                                then none
                                else lookup k (entries t.annotations))))))))
  unlocked st name ns v w' t h accepts =
      let (u, (svc, (found, (free, wrote)))) = lock_service-IsTaken c 11 name ns v w' t h in
      let (there, same) =
        found_updated c st name ns u w' svc (mark svc (get_time u)) t found (unfold mark in refl)
          (unfold mark in refl) wrote in
      let cleared : Service = record t { annotations = drop_key kt_lock t.annotations } in
      let (s, (w2, wrote2)) = accepts cleared in
      let (there2, same2) = found_updated c st name ns w' w2 t cleared s there refl refl wrote2 in
      let (named, _) = st.get_named name ns w' t there in
      (
        named,
        (
          w2,
          (
            unlock_step c name ns w' w2 t s (get_timestamp (get_time u)) there
                (lock-mark svc t (get_time u) same) wrote2,
            (
              s,
              (
                there2,
                (
                  same2.same_selector,
                  λ k. same2.same_annotations k ∙ lookup-drop_key t.annotations kt_lock k,
                ),
              ),
            ),
          ),
        ),
      )

module _ (c : Api) (remember : Text → c.World → Reply (Unit {0}) × c.World)
    (create_shadow : Text → GoMap → GoMap → Service → c.World → Reply (Unit {0}) × c.World)
    (is_exposed : Service → c.World → Bool) where
  open c use {World, get_service}

  refused :
      (resource_name ns : Text) (w v w' w2 : World) (svc t : Service)
      → get_service_by_resource_name c resource_name ns w ≡ (ok svc, v)
      → is_exposed svc w ≡ true
      → lock_service c 11 svc.name ns v ≡ (ok t, w')
      → is_set (read t.annotations kt_selector) ≡ true
      → unlock_service c t.name ns w' ≡ (ok tt, w2)
      → by_selector c remember create_shadow is_exposed resource_name ns w ≡ (err failed, w2)
  unfolding by_selector exchange_locked unlocked_behind lock_service_first
  refused resource_name ns w v w' w2 svc t found exposed lock recorded unlock =
      rw (found, exposed, lock, recorded, unlock) refl

-- An exchange by selector that gets the lock of a service which records a selector already, because
-- somebody exchanges it, returns an error, and the service keeps its selector and its annotations;
-- the lock is gone. The server accepts updates.
pub by_selector_refused :
    (c : Api) (remember : Text → c.World → Reply (Unit {0}) × c.World)
    (create_shadow : Text → GoMap → GoMap → Service → c.World → Reply (Unit {0}) × c.World)
    (is_exposed : Service → c.World → Bool) (resource_name ns : Text) (w v w' : c.World)
    (svc t : Service)
    → IsStore c
    → IsWritable c w'
    → get_service_by_resource_name c resource_name ns w ≡ (ok svc, v)
    → is_exposed svc w ≡ true
    → lock_service c 11 svc.name ns v ≡ (ok t, w')
    → is_set (read t.annotations kt_selector) ≡ true
    → (w2 : c.World) × ((by_selector c remember create_shadow is_exposed resource_name ns w
          ≡ (err failed, w2))
        × ((s : Service) × ((c.get_service svc.name ns w2 ≡ ok s)
              × (SameMap s.selector t.selector
                  × ((k : Text)
                      → lookup k (entries s.annotations) ≡ (
                          if text_eq kt_lock k then none else lookup k (entries t.annotations)))))))
by_selector_refused c remember create_shadow is_exposed resource_name ns w v w' svc t st accepts
      found exposed lock recorded =
    let (named, (w2, (unlock, left))) = unlocked c st svc.name ns v w' t lock accepts in
    let by_name : unlock_service c t.name ns w' ≡ (ok tt, w2) =
      ap (λ n. unlock_service c n ns w') named ∙ unlock in
    (
      w2,
      (
        refused c remember create_shadow is_exposed resource_name ns w v w' w2 svc t found exposed
            lock recorded by_name,
        left,
      ),
    )
