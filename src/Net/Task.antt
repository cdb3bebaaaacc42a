-- ===== src/Net/Task.antt =====
-- A task that talks: it calls peers, asks workers of its own node and reads the durable state, one
-- action after the other. What is done is listed in order. A `World` answers each action, and may do
-- so by all that was done before it; so it stands for peers, workers and stores of any behaviour.
use fafo.Prelude.{ℕ, Option, List, [], ◌∷◌, ◌++◌}
use fafo.Prelude.Bytes.{Bytes}
use fafo.Cluster.Claims.{Claim}
use fafo.Cluster.Leases.{LeaseState}
use fafo.Worker.State.{TransferMeta, TakeError}
use fafo.Net.Rpc.{Request, Called, Txn, TxnResponse, ApiError, Outcome}

pub data Act : Type 0 where
  -- `transport.call`
  call : Bytes → Request → Act
  -- a transaction, or a take, for a worker of this node
  submit : ℕ → Txn → Act
  take : ℕ → Bytes → ℕ → Act
  -- `latest_lease`, `durable_claim`, `durable_read`
  lease : ℕ → Act
  claim : Bytes → Act
  durable : Txn → Act

-- `none` as an answer of a worker is that it is gone, or dropped its reply channel.
pub data Net (A : Type 0) : Type 0 where
  ret : A → Net A
  call : Bytes → Request → (Called → Net A) → Net A
  submit : ℕ → Txn → (Option (Outcome TxnResponse ApiError) → Net A) → Net A
  take : ℕ → Bytes → ℕ → (Option (Outcome TransferMeta TakeError) → Net A) → Net A
  lease : ℕ → (Option LeaseState → Net A) → Net A
  claim : Bytes → (Claim → Net A) → Net A
  durable : Txn → (Outcome TxnResponse ApiError → Net A) → Net A

infixl 5 ◌>>=◌
unfoldable pub ◌>>=◌ : {A B : Type 0} → Net A → (A → Net B) → Net B
ret a >>= f = f a
call base req k >>= f = call base req (λ x. k x >>= f)
submit w t k >>= f = submit w t (λ x. k x >>= f)
take w o v k >>= f = take w o v (λ x. k x >>= f)
lease b k >>= f = lease b (λ x. k x >>= f)
claim o k >>= f = claim o (λ x. k x >>= f)
durable t k >>= f = durable t (λ x. k x >>= f)

pub record World : Type 0 where
  pub calls : List Act → Bytes → Request → Called
  pub submits : List Act → ℕ → Txn → Option (Outcome TxnResponse ApiError)
  pub takes : List Act → ℕ → Bytes → ℕ → Option (Outcome TransferMeta TakeError)
  pub leases : List Act → ℕ → Option LeaseState
  pub claims : List Act → Bytes → Claim
  pub reads : List Act → Txn → Outcome TxnResponse ApiError

-- What comes out, and what was done on top of what had been done.
unfoldable pub run : {A : Type 0} → World → List Act → Net A → A × List Act
run w past (ret a) = (a, past)
run w past (call base req k) = run w (past ++ Act.call base req ∷ []) (k (w.calls past base req))
run w past (submit v t k) = run w (past ++ Act.submit v t ∷ []) (k (w.submits past v t))
run w past (take v o u k) = run w (past ++ Act.take v o u ∷ []) (k (w.takes past v o u))
run w past (lease b k) = run w (past ++ Act.lease b ∷ []) (k (w.leases past b))
run w past (claim o k) = run w (past ++ Act.claim o ∷ []) (k (w.claims past o))
run w past (durable t k) = run w (past ++ Act.durable t ∷ []) (k (w.reads past t))

-- Whatever the answers, the task ends, and what was done and what comes out satisfies `P`.
abbrev pub Always : {A : Type 0} → (List Act → A → Type 0) → List Act → Net A → Type 0
Always P past (ret a) = P past a
Always P past (call base req k) = (x : Called) → Always P (past ++ Act.call base req ∷ []) (k x)
Always P past (submit w t k) =
    (x : Option (Outcome TxnResponse ApiError)) → Always P (past ++ Act.submit w t ∷ []) (k x)
Always P past (take w o v k) =
    (x : Option (Outcome TransferMeta TakeError)) → Always P (past ++ Act.take w o v ∷ []) (k x)
Always P past (lease b k) = (x : Option LeaseState) → Always P (past ++ Act.lease b ∷ []) (k x)
Always P past (claim o k) = (x : Claim) → Always P (past ++ Act.claim o ∷ []) (k x)
Always P past (durable t k) =
    (x : Outcome TxnResponse ApiError) → Always P (past ++ Act.durable t ∷ []) (k x)

pub run-Always :
    {A : Type 0} (P : List Act → A → Type 0) (m : Net A) (w : World) (past : List Act)
    → Always P past m
    → P (run w past m).1 (run w past m).0
unfolding run
run-Always P (ret a) w past h = h
run-Always P (call base req k) w past h =
    run-Always P (k _) w (past ++ Act.call base req ∷ []) (h _)
run-Always P (submit v t k) w past h = run-Always P (k _) w (past ++ Act.submit v t ∷ []) (h _)
run-Always P (take v o u k) w past h = run-Always P (k _) w (past ++ Act.take v o u ∷ []) (h _)
run-Always P (lease b k) w past h = run-Always P (k _) w (past ++ Act.lease b ∷ []) (h _)
run-Always P (claim o k) w past h = run-Always P (k _) w (past ++ Act.claim o ∷ []) (h _)
run-Always P (durable t k) w past h = run-Always P (k _) w (past ++ Act.durable t ∷ []) (h _)

-- Two parts in turn.
pub Always-bind :
    {A B : Type 0} (Q : List Act → A → Type 0) (P : List Act → B → Type 0) (m : Net A)
    (f : A → Net B) (past : List Act)
    → Always Q past m
    → ((h : List Act) (a : A) → Q h a → Always P h (f a))
    → Always P past (m >>= f)
unfolding ◌>>=◌
Always-bind Q P (ret a) f past h k = k past a h
Always-bind Q P (call base req g) f past h k =
    λ x. Always-bind Q P (g x) f (past ++ Act.call base req ∷ []) (h x) k
Always-bind Q P (submit w t g) f past h k =
    λ x. Always-bind Q P (g x) f (past ++ Act.submit w t ∷ []) (h x) k
Always-bind Q P (take w o v g) f past h k =
    λ x. Always-bind Q P (g x) f (past ++ Act.take w o v ∷ []) (h x) k
Always-bind Q P (lease b g) f past h k =
    λ x. Always-bind Q P (g x) f (past ++ Act.lease b ∷ []) (h x) k
Always-bind Q P (claim o g) f past h k =
    λ x. Always-bind Q P (g x) f (past ++ Act.claim o ∷ []) (h x) k
Always-bind Q P (durable t g) f past h k =
    λ x. Always-bind Q P (g x) f (past ++ Act.durable t ∷ []) (h x) k

pub Always-weaken :
    {A : Type 0} (P Q : List Act → A → Type 0) (m : Net A) (past : List Act)
    → ((h : List Act) (a : A) → P h a → Q h a)
    → Always P past m
    → Always Q past m
Always-weaken P Q (ret a) past k h = k past a h
Always-weaken P Q (call base req g) past k h =
    λ x. Always-weaken P Q (g x) (past ++ Act.call base req ∷ []) k (h x)
Always-weaken P Q (submit w t g) past k h =
    λ x. Always-weaken P Q (g x) (past ++ Act.submit w t ∷ []) k (h x)
Always-weaken P Q (take w o v g) past k h =
    λ x. Always-weaken P Q (g x) (past ++ Act.take w o v ∷ []) k (h x)
Always-weaken P Q (lease b g) past k h =
    λ x. Always-weaken P Q (g x) (past ++ Act.lease b ∷ []) k (h x)
Always-weaken P Q (claim o g) past k h =
    λ x. Always-weaken P Q (g x) (past ++ Act.claim o ∷ []) k (h x)
Always-weaken P Q (durable t g) past k h =
    λ x. Always-weaken P Q (g x) (past ++ Act.durable t ∷ []) k (h x)
