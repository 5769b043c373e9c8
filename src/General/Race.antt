-- ===== src/General/Race.antt =====
-- Clients of pkg/kt/command/general/lock.go on one service, a request at a time. The server refuses
-- an update of a service that was read at an older version than the one it holds.
pub mod Invariant
pub mod Reads
pub mod Exclusion
pub mod Late
use kt_connect.Common.{
  ℕ, suc, ◌+◌, ◌≡◌, ◌≢◌, ◌≤◌, ◌<◌, false, Option, some, none, Text, ◌==◌, if◌then◌else◌,
}
use kt_connect.Common.Int.{pos}
use kt_connect.Common.Dict.{lookup}
use kt_connect.Strings.{max_int}
use kt_connect.Collection.{entries}
use kt_connect.Cluster.{Service, kt_lock}
use kt_connect.General.Lock.{is_occupied, mark, drop_key}

-- Where a client stands: in LockService behind the test of the lock, with the service it read, its
-- version and the time; between LockService and UnlockService, with the time of its mark; in
-- UnlockService behind its read.
pub data Client : Type 0 where
  idle : Client
  looked : Service → ℕ → ℕ → Client
  holding : ℕ → Client
  releasing : Service → ℕ → ℕ → Client

pub record System : Type 0 where
  pub svc : Service
  pub version : ℕ
  pub now : ℕ
  pub client : ℕ → Client

abbrev pub update {ℓ} : {A : Type ℓ} → (ℕ → A) → ℕ → A → ℕ → A
update f i a j = if i == j then a else f j

abbrev pub lock_of : Service → Option Text
lock_of svc = lookup kt_lock (entries svc.annotations)

-- UnlockService's change
unfoldable pub unmark : Service → Service
unfolding drop_key
unmark svc = record svc { annotations = drop_key kt_lock svc.annotations }

-- One step: time passes, a client makes one request, or someone edits the service and keeps its
-- lock. A client unlocks within `limit` seconds after its mark.
pub data Step (limit : ℕ) (s : System) : System → Type 0 where
  tick : (d : ℕ) → s.now + d ≤ max_int → Step limit s (record s { now = s.now + d })
  look :
      (i : ℕ)
      → s.client i ≡ idle
      → is_occupied s.svc (pos s.now) ≡ false
      → Step limit s (record s { client = update s.client i (looked s.svc s.version s.now) })
  take :
      (i : ℕ) (v : Service) (at : ℕ)
      → s.client i ≡ looked v s.version at
      → Step limit s (record s {
        svc = mark v (pos s.now);
        version = suc s.version;
        client = update s.client i (holding s.now);
      })
  refused :
      (i : ℕ) (v : Service) (n at : ℕ)
      → s.client i ≡ looked v n at
      → n ≢ s.version
      → Step limit s (record s { client = update s.client i idle })
  look_back :
      (i z : ℕ)
      → s.client i ≡ holding z
      → Step limit s (record s { client = update s.client i (releasing s.svc s.version z) })
  unlock :
      (i : ℕ) (v : Service) (z : ℕ)
      → s.client i ≡ releasing v s.version z
      → s.now < z + limit
      → Step limit s
          (record s { svc = unmark v; version = suc s.version; client = update s.client i idle })
  give_up :
      (i : ℕ) (v : Service) (n z : ℕ)
      → s.client i ≡ releasing v n z
      → n ≢ s.version
      → Step limit s (record s { client = update s.client i idle })
  edit :
      (v : Service)
      → lock_of v ≡ lock_of s.svc
      → Step limit s (record s { svc = v; version = suc s.version })

abbrev pub start : Service → ℕ → System
start svc time = record { svc = svc; version = 0; now = time; client = λ i. idle }

pub data Reach (limit : ℕ) (svc : Service) (time : ℕ) : System → Type 0 where
  begin : Reach limit svc time (start svc time)
  next : {s t : System} → Reach limit svc time s → Step limit s t → Reach limit svc time t
