-- ===== src/Examples/Net.antt =====
-- The theorems on the tasks between nodes and on the boot's claims at concrete inputs.
use fafo.Prelude.{List, arith, ℕ, ◌+◌, ◌≤◌, ◌<◌, ◌≡◌, Bool, true, false, none, [], ◌∷◌, All, Map}
use fafo.Prelude.Bytes.{Bytes, codes, bytes_eq}
use fafo.Store.{empty_store, effects, version, put_cas, swapping, deleting, creating}
use fafo.Objlog.Io.{Fault, Schedule, quiet}
use fafo.Cluster.Nonce.{Round, draw_nonce, boot_key, boot_tag, default_version, default_put_cas}
use fafo.Cluster.Nonce.Rising.{boot_tags_by_store}
use fafo.Cluster.Claims.{unclaimed}
use fafo.Cluster.Leases.{LeaseState, lease_key}
use fafo.Cluster.Claiming.{Claiming}
use fafo.Objlog.Io as Io
use fafo.Net.Rpc.{Txn, err, internal}
use fafo.Net.Task.{World, run}
use fafo.Net.Submit.{Node, submit_at}
use fafo.Net.Submit.Spending.{calls_in, reads_in, submits_in}
use fafo.Net.Submit.Hops.{reads_allowed, submit_at_bounded}
use fafo.Net.Take.{take_task, take_retries}
use fafo.Net.Take.Doors.{Concluded, knocks_in, IsFit, take_task_ends}

-- Nobody answers, and nothing is known.
abbrev silent : World
silent = record {
  calls = λ h base req. err (codes "down");
  submits = λ h v t. none;
  takes = λ h v o u. none;
  leases = λ h b. none;
  claims = λ h o. unclaimed;
  reads = λ h t. err (internal (codes "unread"));
}

-- A node that holds no block, of a cluster of two.
abbrev alone : Node
alone = record {
  routing = record { logical = 4; blocks = 2; exceptions = []; addrs = (1, codes "n2") ∷ [] };
  epochs = (0, 1) ∷ [];
  advertise = codes "n1";
  clock = 3;
  total_txns = 0;
}

abbrev read_one : Txn
read_one = record {
  objects = codes "doc" ∷ [];
  ops = [];
  read_only = true;
  optimistic = false;
  cap = none;
}

take_task_ends_example :
    let r = run silent [] (take_task 0 (codes "doc") alone) in
    Concluded 0 (codes "doc") r.0.0
    × (knocks_in r.1 ≤ take_retries)
    × All (IsFit 0 (codes "doc")) r.1
take_task_ends_example = take_task_ends 0 (codes "doc") alone silent

submit_at_bounded_example :
    let h = (run silent [] (submit_at true alone 3 read_one)).1 in
    (calls_in h ≤ 2) × (reads_in h ≤ reads_allowed true read_one) × (submits_in h ≤ 1)
submit_at_bounded_example = submit_at_bounded true alone 3 read_one silent

-- A released lease, one of a holder that answers, and a block that nobody holds.
abbrev held_leases : Map ℕ LeaseState
held_leases =
    (0, record { addr = codes "n2"; epoch = 4; released = true })
    ∷ (1, record { addr = codes "n2"; epoch = 2; released = false })
    ∷ []

abbrev same : Bytes → Bytes
same b = b

abbrev answers : Bytes → Bool
answers addr = true

abbrev clock_at : ℕ → ℕ
clock_at b = 10 + b

-- Another node takes the free block first; the released one is won.
abbrev rival : Schedule
rival =
    quiet ∷ record { before = creating (lease_key 2 1) (codes "n3") ∷ []; fault = Fault.sound } ∷ []

-- A round in which another task swaps first, and one that loses its answer.
abbrev disturbed : List Round
disturbed =
    record {
      before_read = [];
      read_fails = false;
      before_swap = swapping (codes "_boot/x") 0 (codes "n9") ∷ [];
      swap = Fault.refused;
    }
    ∷ record { before_read = []; read_fails = true; before_swap = []; swap = Fault.lost }
    ∷ []

boot_tags_by_store_example :
    (let r1 = draw_nonce version put_cas (codes "n1") disturbed empty_store in
      let r2 =
        draw_nonce version put_cas
          (codes "n1")
          []
          (effects r1.1 (deleting (boot_key (codes "n1")) ∷ [])) in
      (0 < r1.0) × (r1.0 < r2.0))
    × (let r1 = draw_nonce default_version default_put_cas (codes "n1") [] empty_store in
        let r2 =
          draw_nonce default_version default_put_cas
            (codes "n1")
            []
            (effects r1.1 (deleting (boot_key (codes "n1")) ∷ [])) in
        boot_tag (codes "n1") r1.0 ≡ boot_tag (codes "n1") r2.0)
boot_tags_by_store_example =
    boot_tags_by_store (codes "n1") disturbed [] (deleting (boot_key (codes "n1")) ∷ []) empty_store
      (omega arith) (omega arith)
