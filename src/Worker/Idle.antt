-- ===== src/Worker/Idle.antt =====
-- worker.rs, the handler of `Shed`, up to the enforcement of the disk budget that it calls for.
use fafo.Prelude.{
  ℕ, Bool, true, false, ◌||◌, Option, List, [], ◌∷◌, map, if◌then◌else◌, lookup, remove,
}
use fafo.Prelude.Bytes.{Bytes, bytes_eq}
use fafo.Store.{is_some}
use fafo.Disk as Disk
use fafo.Worker.State.{Worker, unshipped, live_path}

abbrev pub is_busy : Worker → Bytes → Bool
is_busy w object = unshipped w object || is_some (lookup object w.queues)

-- One object of the loop, which is live: only one that is clean and has no queue is let go.
unfoldable pub shed_one : (Bytes → Option ℕ) → Bytes → Bool × Worker → Bool × Worker
unfolding live_path unshipped
shed_one file_len object (shed_any, w) = if is_busy w object then (shed_any, w) else (
  true,
  record w {
    objects = remove object w.objects;
    manifests = remove object w.manifests;
    disk = Disk.set_cache w.disk (live_path w object) (file_len (live_path w object)) w.id;
  },
)

unfoldable pub shed_each : (Bytes → Option ℕ) → List Bytes → Bool × Worker → Bool × Worker
unfolding shed_one
shed_each file_len [] state = state
shed_each file_len (object ∷ objects) state =
    shed_each file_len objects (shed_one file_len object state)

unfoldable pub shed : (Bytes → Option ℕ) → Worker → Bool × Worker
unfolding shed_each
shed file_len w = shed_each file_len (map (λ p. p.0) w.objects) (false, w)
