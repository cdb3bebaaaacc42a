-- ===== src/Net/Submit/Spending.antt =====
-- Accounts of what a task of Net/Task.antt spends: calls to peers, reads of the log, and transactions
-- handed to workers of its node.
use fafo.Prelude.{ℕ, ◌+◌, ◌≡◌, ◌≤◌, List, [], ◌∷◌, ◌++◌, arith}
use fafo.Net.Task.{Act, Net, Always, Always-bind, Always-weaken, ◌>>=◌}

-- The calls to peers, the reads of the log, and the transactions handed to workers of this node.
abbrev pub calls_in : List Act → ℕ
calls_in [] = 0
calls_in (Act.call base req ∷ h) = 1 + calls_in h
calls_in (Act.submit w t ∷ h) = calls_in h
calls_in (Act.take w o v ∷ h) = calls_in h
calls_in (Act.lease b ∷ h) = calls_in h
calls_in (Act.claim o ∷ h) = calls_in h
calls_in (Act.durable t ∷ h) = calls_in h

abbrev pub reads_in : List Act → ℕ
reads_in [] = 0
reads_in (Act.call base req ∷ h) = reads_in h
reads_in (Act.submit w t ∷ h) = reads_in h
reads_in (Act.take w o v ∷ h) = reads_in h
reads_in (Act.lease b ∷ h) = reads_in h
reads_in (Act.claim o ∷ h) = reads_in h
reads_in (Act.durable t ∷ h) = 1 + reads_in h

abbrev pub submits_in : List Act → ℕ
submits_in [] = 0
submits_in (Act.call base req ∷ h) = submits_in h
submits_in (Act.submit w t ∷ h) = 1 + submits_in h
submits_in (Act.take w o v ∷ h) = submits_in h
submits_in (Act.lease b ∷ h) = submits_in h
submits_in (Act.claim o ∷ h) = submits_in h
submits_in (Act.durable t ∷ h) = submits_in h

calls-snoc : (h : List Act) (a : Act) → calls_in (h ++ a ∷ []) ≡ calls_in h + calls_in (a ∷ [])
calls-snoc [] a = omega arith
calls-snoc (Act.call base req ∷ h) a = omega (arith, calls-snoc h a)
calls-snoc (Act.submit w t ∷ h) a = calls-snoc h a
calls-snoc (Act.take w o v ∷ h) a = calls-snoc h a
calls-snoc (Act.lease b ∷ h) a = calls-snoc h a
calls-snoc (Act.claim o ∷ h) a = calls-snoc h a
calls-snoc (Act.durable t ∷ h) a = calls-snoc h a

reads-snoc : (h : List Act) (a : Act) → reads_in (h ++ a ∷ []) ≡ reads_in h + reads_in (a ∷ [])
reads-snoc [] a = omega arith
reads-snoc (Act.call base req ∷ h) a = reads-snoc h a
reads-snoc (Act.submit w t ∷ h) a = reads-snoc h a
reads-snoc (Act.take w o v ∷ h) a = reads-snoc h a
reads-snoc (Act.lease b ∷ h) a = reads-snoc h a
reads-snoc (Act.claim o ∷ h) a = reads-snoc h a
reads-snoc (Act.durable t ∷ h) a = omega (arith, reads-snoc h a)

submits-snoc :
    (h : List Act) (a : Act) → submits_in (h ++ a ∷ []) ≡ submits_in h + submits_in (a ∷ [])
submits-snoc [] a = omega arith
submits-snoc (Act.call base req ∷ h) a = submits-snoc h a
submits-snoc (Act.submit w t ∷ h) a = omega (arith, submits-snoc h a)
submits-snoc (Act.take w o v ∷ h) a = submits-snoc h a
submits-snoc (Act.lease b ∷ h) a = submits-snoc h a
submits-snoc (Act.claim o ∷ h) a = submits-snoc h a
submits-snoc (Act.durable t ∷ h) a = submits-snoc h a

-- At most so many calls, reads of the log and submissions more than before.
abbrev pub Spent : ℕ → ℕ → ℕ → List Act → List Act → Type 0
Spent c r s past h =
    (calls_in h ≤ calls_in past + c)
    × (reads_in h ≤ reads_in past + r)
    × (submits_in h ≤ submits_in past + s)

abbrev pub Within : {A : Type 0} → ℕ → ℕ → ℕ → List Act → Net A → Type 0
Within c r s past m = Always (λ h a. Spent c r s past h) past m

pub Within-then :
    {A B : Type 0} (c r s c' r' s' : ℕ) (past : List Act) (m : Net A) (f : A → Net B)
    → Within c r s past m
    → ((h : List Act) (a : A) → Within c' r' s' h (f a))
    → Within (c + c') (r + r') (s + s') past (m >>= f)
Within-then c r s c' r' s' past m f h k =
    Always-bind (λ h a. Spent c r s past h) (λ h a. Spent (c + c') (r + r') (s + s') past h) m f
      past h
      (λ g a q.
        Always-weaken (λ h b. Spent c' r' s' g h) (λ h b. Spent (c + c') (r + r') (s + s') past h)
          (f a) g (λ h b p. (omega arith, omega arith, omega arith)) (k g a))

pub Within-more :
    {A : Type 0} (c r s c' r' s' : ℕ) (past : List Act) (m : Net A)
    → c ≤ c'
    → r ≤ r'
    → s ≤ s'
    → Within c r s past m
    → Within c' r' s' past m
Within-more c r s c' r' s' past m x y z h =
    Always-weaken (λ h a. Spent c r s past h) (λ h a. Spent c' r' s' past h) m past
      (λ h a p. (omega arith, omega arith, omega arith)) h

pub Within-sum :
    {A B : Type 0} (c r s c' r' s' x y z : ℕ) (past : List Act) (m : Net A) (f : A → Net B)
    → c + c' ≤ x
    → r + r' ≤ y
    → s + s' ≤ z
    → Within c r s past m
    → ((h : List Act) (a : A) → Within c' r' s' h (f a))
    → Within x y z past (m >>= f)
Within-sum c r s c' r' s' x y z past m f p q o h k =
    Within-more (c + c') (r + r') (s + s') x y z past (m >>= f) p q o
      (Within-then c r s c' r' s' past m f h k)

pub nothing : (past : List Act) → Spent 0 0 0 past past
nothing past = (omega arith, omega arith, omega arith)

pub after_one :
    (past : List Act) (a : Act)
    → Spent (calls_in (a ∷ [])) (reads_in (a ∷ [])) (submits_in (a ∷ [])) past (past ++ a ∷ [])
after_one past a = (
  omega (arith, calls-snoc past a),
  omega (arith, reads-snoc past a),
  omega (arith, submits-snoc past a),
)

pub Spent-within :
    {c r s : ℕ} (past : List Act) (a : Act)
    → calls_in (a ∷ []) ≤ c
    → reads_in (a ∷ []) ≤ r
    → submits_in (a ∷ []) ≤ s
    → Spent c r s past (past ++ a ∷ [])
Spent-within past a x y z = (
  omega (arith, calls-snoc past a),
  omega (arith, reads-snoc past a),
  omega (arith, submits-snoc past a),
)
