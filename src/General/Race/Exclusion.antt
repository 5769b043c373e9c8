-- ===== src/General/Race/Exclusion.antt =====
-- Of all clients at most one holds a fresh mark on the service.
mod Tests
use kt_connect.Common.{
  ℕ, zero, suc, ◌+◌, ◌-◌, ◌≡◌, ◌≢◌, ◌≤◌, ◌<◌, refl, sym, ap, ◌∙◌, subst, Bool, true, false, Option,
  some, none, Text, text_eq_refl, arith, ◌==◌, ==_iff, if◌then◌else◌, Bool-cases, inl, inr,
}
use kt_connect.Common.Int.{ℤ, pos, ◌-ℤ◌, ltb_ℤ}
use kt_connect.Common.Dict.{lookup}
use kt_connect.Strings.{max_int}
use kt_connect.Collection.{entries}
use kt_connect.Cluster.{Service, kt_lock}
use kt_connect.General.Lock.{is_fresh, is_occupied, mark, get_timestamp, parse_timestamp}
use kt_connect.General.Locking.{lookup-mark, parse_timestamp-get_timestamp}
use kt_connect.General.Selector.{lookup-drop_key}
use kt_connect.General.Race.{
  Client, idle, looked, holding, releasing, System, update, lock_of, unmark, Step, tick, look, take,
  refused, look_back, unlock, give_up, edit, start, Reach, begin, next,
}
use kt_connect.General.Race.Invariant.{owner, Inv, Step-clock, Step-past, Step-marked, Step-unique}
use kt_connect.General.Race.Reads.{Step-seen, Step-latest}

module _ (limit : ℕ) where
  Step-Inv : {s t : System} → limit ≤ 180 → Step limit s t → Inv s → Inv t
  Step-Inv few st inv = record {
    clock = Step-clock limit st inv;
    past = Step-past limit st inv;
    marked = Step-marked limit few st inv;
    unique = Step-unique limit st inv;
    seen = Step-seen limit st inv;
    latest = Step-latest limit st inv;
  }

  Reach-Inv :
      {svc : Service} {time : ℕ} {s : System}
      → limit ≤ 180
      → time ≤ max_int
      → Reach limit svc time s
      → Inv s
  Reach-Inv few small begin = record {
    clock = small;
    past = λ i z e. absurd (cc e);
    marked = λ i z e. absurd (cc e);
    unique = λ i j y z e. absurd (cc e);
    seen = λ i v n at e. absurd (cc e);
    latest = λ i v n at e. absurd (cc e);
  }
  Reach-Inv few small (next r st) = Step-Inv few st (Reach-Inv few small r)

-- However the requests of the clients interleave, at most one of them holds a mark younger than
-- three minutes, and the service then carries this mark: if each unlocks within three minutes, the
-- server refuses updates of services that were read at an older version, edits by others keep the
-- lock, and the clock is a 64-bit number of seconds.
pub mutual_exclusion :
    (limit : ℕ) (svc : Service) (time : ℕ) (s : System)
    → limit ≤ 180
    → time ≤ max_int
    → Reach limit svc time s
    → (i j y z : ℕ) → owner (s.client i) ≡ some y
    → owner (s.client j) ≡ some z
    → s.now < y + 180
    → s.now < z + 180
    → (i ≡ j) × (lock_of s.svc ≡ some (get_timestamp (pos y)))
mutual_exclusion limit svc time s few small r i j y z ey ez sy sz =
    let inv = Reach-Inv limit few small r in (inv.unique i j y z ey ez sy sz, inv.marked i y ey sy)
