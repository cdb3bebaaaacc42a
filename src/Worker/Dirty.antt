-- ===== src/Worker/Dirty.antt =====
-- worker.rs, the parts of `run_and_complete` that keep the worker's accounts: the meta of objects, the
-- unshipped bytes, and the transactions that wait for a boat.
use fafo.Prelude.{
  ℕ, ◌+◌, Bool, ◌&&◌, Option, none, some, List, [], ◌∷◌, ◌++◌, leb, nat_eq, if◌then◌else◌, lookup,
  insert,
}
use fafo.Prelude.Bytes.{Bytes, bytes_eq}
use fafo.Store.{is_some, or_zero}
use fafo.Disk as Disk
use fafo.Worker.State.{Worker, acked, live_path}
use fafo.Worker.Queues.{say}

-- `self.meta.entry(object).or_insert(..)`
unfoldable pub enter_meta : Worker → List Bytes → Worker
enter_meta w [] = w
enter_meta w (o ∷ os) =
    enter_meta
      (elim (lookup o w.meta) [
        | some m ↦ w
        | none ↦ record w {
          meta = insert o (record { arrived_at = w.clock; return_to = none; visit = none }) w.meta;
        }
      ])
      os

-- An object that a write changed is dirty, from its first change on.
unfoldable pub mark_one : (Bytes → Option ℕ) → Worker → Bytes → Worker
unfolding live_path
mark_one file_len w o =
    let bytes = if is_some (lookup o w.objects) then or_zero (file_len (live_path w o)) else 0 in
    if is_some (lookup o w.dirty) then w else record w {
      dirty = insert o bytes w.dirty;
      dirty_bytes = w.dirty_bytes + bytes;
      disk = Disk.touch w.disk (live_path w o) bytes;
    }

unfoldable pub mark_dirty : (Bytes → Option ℕ) → Worker → List Bytes → Worker
unfolding mark_one
mark_dirty file_len w [] = w
mark_dirty file_len w (o ∷ os) = mark_dirty file_len (mark_one file_len w o) os

-- The transaction waits for its boat, or, optimistic and below the watermark, is answered now.
unfoldable pub enlist : ℕ → Worker → Bool → ℕ → List Bytes → Worker
enlist max_unshipped w optimistic resp changed =
    let now = optimistic && leb w.dirty_bytes max_unshipped in
    let w1 = if now then say w (acked resp ∷ []) else w in
    let waiter = if now then none else some resp in
    record w1 {
      pending_txns = w1.pending_txns ++ record { participants = changed; waiter = waiter } ∷ [];
    }
