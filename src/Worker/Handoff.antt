-- ===== src/Worker/Handoff.antt =====
-- worker.rs, the handoff of one object between any number of workers, as steps that run `release`
-- and `admit`. The deeds that were cut stay in flight: each may arrive never, late or repeatedly.
-- Every step runs on a store and a schedule of its own, so a worker may meet any state of the store.
-- Workers do not restart, surrender an object or adopt it on a durable claim, and the mode of the
-- primary log is off.
pub mod Single
pub mod Back
pub mod Unique
use fafo.Prelude.{
  ℕ, ◌+◌, ◌≡◌, refl, Bool, true, false, Option, none, some, List, [], ◌∷◌, nat_beq, if◌then◌else◌,
  Map, lookup,
}
use mathlib.Core.List.{Memᴰ}
use fafo.Prelude.Bytes.{Bytes, bytes_eq}
use fafo.Store.{MemInner}
use fafo.Objlog.Io.{run, Schedule}
use fafo.Cluster.Claims.{Checkpoint}
use fafo.Worker.State.{Worker, TransferMeta}
use fafo.Worker.Transfer.{release, admit}

-- The workers by their index, and the deeds with the workers that they are for.
pub record System : Type 0 where
  pub workers : ℕ → Worker
  pub deeds : List (ℕ × TransferMeta)

abbrev pub set_worker : ℕ → Worker → (ℕ → Worker) → ℕ → Worker
set_worker i w ws j = if nat_beq i j then w else ws j

module _ (to_vec : Checkpoint → Bytes) (from_slice : Bytes → Option Checkpoint)
    (file_len : Bytes → Option ℕ) (object : Bytes) where
  pub data Step : System → System → Type 0 where
    -- An owner releases the object to a worker, and the write of its checkpoint is confirmed.
    cut :
        (sys : System) (i dest g : ℕ) (tm : TransferMeta) (w' : Worker) (ts : Schedule)
        (s : MemInner)
        → lookup object (sys.workers i).owned ≡ some g
        → (run (release to_vec file_len (sys.workers i) object (some dest)) ts s).0
          ≡ some (some tm, w')
        → Step sys
            (record { workers = set_worker i w' sys.workers; deeds = (dest, tm) ∷ sys.deeds })
    -- An owner tries to release the object, and the write is not confirmed.
    held :
        (sys : System) (i dest : ℕ) (w' : Worker) (ts : Schedule) (s : MemInner)
        → (run (release to_vec file_len (sys.workers i) object (some dest)) ts s).0
          ≡ some (none, w')
        → Step sys (record { workers = set_worker i w' sys.workers; deeds = sys.deeds })
    -- An owner releases the object to a worker that no longer waits for it, and admits its own deed at
    -- the generation after it.
    taken_back :
        (sys : System) (i dest g : ℕ) (tm : TransferMeta) (b : Bool) (w' w'' : Worker)
        (ts ts' : Schedule) (s s' : MemInner)
        → lookup object (sys.workers i).owned ≡ some g
        → (run (release to_vec file_len (sys.workers i) object (some dest)) ts s).0
          ≡ some (some tm, w')
        → (run
            (admit to_vec from_slice false w' object (record tm { generation = tm.generation + 1 }))
            ts'
            s').0
          ≡ some (b, w'')
        → Step sys (record { workers = set_worker i w'' sys.workers; deeds = sys.deeds })
    -- A deed arrives, and is taken or refused.
    delivered :
        (sys : System) (i : ℕ) (tm : TransferMeta) (b : Bool) (w' : Worker) (ts : Schedule)
        (s : MemInner)
        → Memᴰ (i, tm) sys.deeds
        → (run (admit to_vec from_slice false (sys.workers i) object tm) ts s).0 ≡ some (b, w')
        → Step sys (record { workers = set_worker i w' sys.workers; deeds = sys.deeds })

  pub data Steps : System → System → Type 0 where
    start : (sys : System) → Steps sys sys
    next : (a b c : System) → Steps a b → Step b c → Steps a c
