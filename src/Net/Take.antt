-- ===== src/Net/Take.antt =====
-- worker.rs, `take_task`: a worker asks for an object, from door to door, and `send_adopt`. The waits
-- between the tries are left out, as they change nothing that is asked.
pub mod Doors
use fafo.Prelude.{
  ℕ, zero, suc, ◌+◌, ◌≡◌, Bool, true, false, not, ◌&&◌, Option, none, some, List, [], ◌∷◌, nat_beq,
  if◌then◌else◌,
}
use fafo.Prelude.Bytes.{Bytes}
use fafo.Cluster.Claims.{Claim, u64_max}
use fafo.Routing.Placement.{owner_of, addr_of_worker}
use fafo.Worker.State.{TransferMeta, TakeError, not_mine, take_failed}
use fafo.Worker.Acquire.{TakenResult, got, already_local, take_error}
use fafo.Net.Rpc.{Outcome, ok, err, Request, Called, taken_over, adopted}
use fafo.Net.Rpc as Rpc
use fafo.Net.Task.{Net, ret, call, take, claim, ◌>>=◌}
use fafo.Net.Submit.{Node, hosts, resolve_addr, ensure_local_sender}

abbrev pub take_retries : ℕ
take_retries = 8

-- What goes to the worker that asked: the deed of its own durable claim, and the end of the take.
pub data Told : Type 0 where
  adopt : Bytes → TransferMeta → Told
  taken : (from : ℕ) → TakenResult → Told

-- Where to knock, or that the ledger says the object is ours, at a generation.
pub data Door : Type 0 where
  knock : ℕ → Door
  ours : (generation : ℕ) → Door

-- A claim that names a worker and not the answer of a failed listing.
unfoldable pub door_of : Node → ℕ → Bytes → Claim → Door
unfolding owner_of
door_of node me object (Claim.owned v g) =
    if nat_beq v u64_max
    then knock (owner_of node.routing object)
    else if nat_beq v me
    then ours g
    else knock v
door_of node me object (Claim.transit v g) =
    if nat_beq v u64_max
    then knock (owner_of node.routing object)
    else if nat_beq v me
    then ours g
    else knock v
door_of node me object Claim.unclaimed = knock (owner_of node.routing object)

-- A hint is followed; one that names us is checked with the ledger.
unfoldable pub next_door : Node → ℕ → Bytes → Option ℕ → Net Door
unfolding door_of owner_of
next_door node me object none = ret (knock (owner_of node.routing object))
next_door node me object (some h) =
    if nat_beq h me then claim object (λ c. ret (door_of node me object c)) else ret (knock h)

-- The inner answer of a try: `none` is its error.
abbrev pub Tried : Type 0
Tried = Option (Outcome TransferMeta TakeError)

-- A take of a peer, after its call; a stale address is read again.
unfoldable pub after_call :
    Node → ℕ → Outcome (Outcome TransferMeta TakeError) Bytes → Net (Tried × Node)
unfolding resolve_addr
after_call node owner (ok r) = ret (some r, node)
after_call node owner (err e) = do r ← resolve_addr node owner; ret (none, r.1)

unfoldable pub ask_peer : ℕ → Bytes → ℕ → Option Bytes × Node → Net (Tried × Node)
unfolding after_call taken_over
ask_peer me object owner (none, node) = ret (none, node)
ask_peer me object owner (some addr, node) =
    call addr (Request.take owner object me) (λ x. after_call node owner (taken_over x))

unfoldable pub ask : ℕ → Bytes → ℕ → Bool × Node → Net (Tried × Node)
unfolding ask_peer resolve_addr
ask me object owner (true, node) = take owner object me (λ x. ret (x, node))
ask me object owner (false, node) = elim (addr_of_worker node.routing owner) [
  | some addr ↦ ask_peer me object owner (some addr, node)
  | none ↦ (do r ← resolve_addr node owner; ask_peer me object owner r)
]

-- What a try leaves: a deed, or the hint for the next.
unfoldable pub hint_after : Tried → Option ℕ
hint_after none = none
hint_after (some (ok meta)) = none
hint_after (some (err (not_mine hint))) = hint
hint_after (some (err take_failed)) = none

abbrev pub local_deed : ℕ → ℕ → TransferMeta
local_deed me g = record { settled = false; home = me; visit = none; generation = g }

-- The answer of a try; `rest` are the tries after it.
unfoldable pub conclude :
    ℕ → (Option ℕ → Node → Net (List Told × Node)) → Tried × Node → Net (List Told × Node)
unfolding hint_after
conclude owner rest (some (ok meta), node) = ret (taken owner (got meta) ∷ [], node)
conclude owner rest (some (err e), node) = rest (hint_after (some (err e))) node
conclude owner rest (none, node) = rest none node

unfoldable pub try_door :
    ℕ → Bytes → Node → (Option ℕ → Node → Net (List Told × Node)) → Door → Net (List Told × Node)
unfolding ensure_local_sender ask conclude
try_door me object node rest (ours g) =
    ret (adopt object (local_deed me g) ∷ taken me already_local ∷ [], node)
try_door me object node rest (knock owner) =
    if nat_beq owner me then ret (taken me already_local ∷ [], node) else do
      here ← ensure_local_sender node owner
      tried ← ask me object owner here
      conclude owner rest tried

-- The loop, on the tries that are left.
unfoldable pub knock_on : ℕ → ℕ → Bytes → Option ℕ → Node → Net (List Told × Node)
unfolding next_door try_door
knock_on zero me object chase node = ret (taken me take_error ∷ [], node)
knock_on (suc tries) me object chase node = do
  door ← next_door node me object chase
  try_door me object node (knock_on tries me object) door

unfoldable pub take_task : ℕ → Bytes → Node → Net (List Told × Node)
unfolding knock_on
take_task me object node = knock_on take_retries me object none node

-- `send_adopt`: whether the home was told; a return that failed rests in transit.
unfoldable pub send_adopt : Node → ℕ → Bytes → TransferMeta → Net Bool
unfolding hosts adopted
send_adopt node home object meta =
    if hosts node home then ret true else elim (addr_of_worker node.routing home) [
      | none ↦ ret false
      | some addr ↦ call addr (Request.adopt home object meta) (λ x. ret (is_ok (adopted x)))
    ]
  where
    is_ok : Outcome (Unit {0}) Bytes → Bool
    is_ok (ok u) = true
    is_ok (err e) = false
