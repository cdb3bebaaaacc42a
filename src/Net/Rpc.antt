-- ===== src/Net/Rpc.antt =====
-- rpc.rs, the messages between nodes and what each caller makes of an answer. HTTP and serde_json
-- are outside: a call gives the decoded response, or the text of its error. api.rs has `ApiError`.
use fafo.Prelude.{
  ℕ, ◌≡◌, ◌≤◌, ◌<◌, ◌↔◌, ap, Bool, ◌&&◌, Option, List, ◌++◌, leb, ltb, arith, if◌then◌else◌,
}
use fafo.Prelude.Bytes.{Bytes, codes}
use fafo.Grants.Tokens.{Capability}
use fafo.Cluster.Requests.{Op}
use fafo.Worker.State.{TransferMeta, TakeError, take_failed}
use fafo.Worker.Polls.{OpResult}

pub record ApiError : Type 0 where
  pub status : ℕ
  pub message : Bytes

abbrev pub bad_request : Bytes → ApiError
bad_request message = record { status = 400; message = message }

abbrev pub internal : Bytes → ApiError
internal message = record { status = 500; message = message }

pub record TxnResponse : Type 0 where
  pub txn_id : Bytes
  pub results : List OpResult
  pub hash : Option Bytes

-- A `Result`.
pub data Outcome (A E : Type 0) : Type 0 where
  ok : A → Outcome A E
  err : E → Outcome A E

pub record Txn : Type 0 where
  pub objects : List Bytes
  pub ops : List (Op Bytes)
  pub read_only : Bool
  pub optimistic : Bool
  pub cap : Option Capability

pub data Request : Type 0 where
  txn : Txn → Request
  take : (worker : ℕ) → Bytes → (taker : ℕ) → Request
  adopt : (worker : ℕ) → Bytes → TransferMeta → Request

pub record WireError : Type 0 where
  pub status : ℕ
  pub message : Bytes

pub data Response : Type 0 where
  ok_response : Response
  txn_response : Outcome TxnResponse WireError → Response
  take_response : Outcome TransferMeta TakeError → Response
  err_response : Bytes → Response

unfoldable pub to_wire : ApiError → WireError
to_wire e = record { status = e.status; message = e.message }

-- `StatusCode::from_u16` takes the codes of three digits.
abbrev is_status : ℕ → Bool
is_status code = leb 100 code && ltb code 1000

unfoldable pub from_wire : WireError → ApiError
from_wire e = record { status = if is_status e.status then e.status else 500; message = e.message }

-- An error of the API crosses the wire unchanged; a status that a peer invents becomes 500.
pub from_wire-to_wire :
    (e : ApiError) → (from_wire (to_wire e) ≡ e) ↔ (100 ≤ e.status) × (e.status < 1000)
unfolding from_wire to_wire
from_wire-to_wire e = (λ h. ground (arith, ap (λ (x : ApiError). x.status) h), λ h. ground arith)

-- `anyhow::Result<Response>` of a call.
abbrev pub Called : Type 0
Called = Outcome Response Bytes

abbrev pub rpc_to : Bytes
rpc_to = codes "rpc to "

unfoldable pub map_wire : Outcome TxnResponse WireError → Outcome TxnResponse ApiError
unfolding from_wire
map_wire (ok r) = ok r
map_wire (err e) = err (from_wire e)

abbrev mismatch : Bytes
mismatch = codes "rpc protocol mismatch"

-- `forward_txn`, after its call.
unfoldable pub forwarded : Bytes → Called → Outcome TxnResponse ApiError
unfolding map_wire
forwarded base (ok (txn_response result)) = map_wire result
forwarded base (ok (err_response e)) = err (internal e)
forwarded base (ok ok_response) = err (internal mismatch)
forwarded base (ok (take_response r)) = err (internal mismatch)
forwarded base (err e) = err (internal (rpc_to ++ (base ++ (codes " failed: " ++ e))))

-- `take`, after its call; the outer error is that of `?` and of `bail!`.
unfoldable pub taken_over : Called → Outcome (Outcome TransferMeta TakeError) Bytes
taken_over (ok (take_response result)) = ok result
taken_over (ok (err_response e)) = ok (err take_failed)
taken_over (ok ok_response) = err mismatch
taken_over (ok (txn_response r)) = err mismatch
taken_over (err e) = err e

-- `adopt`, after its call.
unfoldable pub adopted : Called → Outcome (Unit {0}) Bytes
adopted (ok ok_response) = ok tt
adopted (ok (err_response e)) = err e
adopted (ok (txn_response r)) = err mismatch
adopted (ok (take_response r)) = err mismatch
adopted (err e) = err e
