-- ===== src/Cluster/Leases/Guard.antt =====
-- cluster.rs, `verify_leases` and the choice of the current lease.
use fafo.Prelude.{
  ℕ, ◌≤◌, ◌≡◌, ◌↔◌, refl, ap, true, false, inl, inr, some, List, [], ◌∷◌, arith, ltb, nat_eq,
  nat_beq, subst, Map, lookup, insert, lookup-insert, All, Bool-cases, Option-cases, some_inj,
}
use fafo.Prelude.Bytes.{Bytes}
use fafo.Store.{or_zero}
use fafo.Cluster.Leases.{parse_lease_key, latest_of, max_epochs, Guarded, check_held, verify_listed}

-- The key is no lease of the block with an epoch above `mine`.
abbrev pub NotNewer : ℕ → ℕ → Bytes → Type 0
NotNewer block mine key = (epoch : ℕ) → parse_lease_key key ≡ some (block, epoch) → epoch ≤ mine

-- No key of the listing supersedes a lease held.
abbrev pub AllCurrent : List Bytes → List (ℕ × ℕ) → Type 0
AllCurrent keys held = All (λ (h : ℕ × ℕ). All (NotNewer h.0 h.1) keys) held

latest_le :
    (m : Map ℕ ℕ) (b block e mine : ℕ)
    → (or_zero (lookup block (insert b (latest_of (lookup b m) e) m)) ≤ mine)
      ↔ ((or_zero (lookup block m) ≤ mine) × (b ≡ block → e ≤ mine))
unfolding latest_of
latest_le m b block e mine = elim (Bool-cases (nat_beq b block)) [
  | inl p ↦
      let same : b ≡ block = ground arith in
      let shared : lookup b m ≡ lookup block m = ap (λ x. lookup x m) same in
      rw (lookup-insert b block (latest_of (lookup b m) e) m, p)
        (elim (Option-cases (lookup block m)) [
          | inl n ↦
              rw (shared, n) (λ h. (omega arith, λ _. omega arith), λ h. omega (arith, h.1 same))
          | inr (x, n) ↦
              rw (shared, n)
                (λ h. (omega arith, λ _. omega arith), λ h. omega (arith, h.0, h.1 same))
        ])
  | inr p ↦
      rw (lookup-insert b block (latest_of (lookup b m) e) m, p)
        (λ h. (h, λ q. absurd (ground arith)), λ h. h.0)
]

max_epochs-le :
    (keys : List Bytes) (m : Map ℕ ℕ) (block mine : ℕ)
    → (or_zero (lookup block (max_epochs keys m)) ≤ mine)
      ↔ ((or_zero (lookup block m) ≤ mine) × All (NotNewer block mine) keys)
unfolding max_epochs
max_epochs-le [] m block mine = (λ h. (h, tt), λ h. h.0)
max_epochs-le (key ∷ keys) m block mine = elim (Option-cases (parse_lease_key key)) [
  | inl n ↦
      let ih = max_epochs-le keys m block mine in
      rw (n, max_epochs) (λ h. ((ih.0 h).0, ((λ e p. cc p), (ih.0 h).1)), λ h. ih.1 (h.0, h.1.1))
  | inr ((b, e), p) ↦
      let ih = max_epochs-le keys (insert b (latest_of (lookup b m) e) m) block mine in
      let step = latest_le m b block e mine in
      rw (p, max_epochs)
        (
          λ h.
              let (low, rest) = ih.0 h in
              let (old, new) = step.0 low in
              (
                old,
                (
                  λ e' q.
                      let same : (b, e) ≡ (block, e') = some_inj q in
                      subst (λ x. x ≤ mine) (ap (λ (x : ℕ × ℕ). x.1) same)
                        (new (ap (λ (x : ℕ × ℕ). x.0) same)),
                  rest,
                ),
              ),
          λ h. ih.1 (step.1 (h.0, λ same. h.1.0 e (ap some (ap (λ x. (x, e)) same))), h.1.1),
        )
]

check_held_iff :
    (keys : List Bytes) (held : List (ℕ × ℕ))
    → (check_held (max_epochs keys []) held ≡ true) ↔ AllCurrent keys held
unfolding check_held
check_held_iff keys [] = (λ _. tt, λ _. refl)
check_held_iff keys ((block, mine) ∷ held) =
    let here = max_epochs-le keys [] block mine in
    let ih = check_held_iff keys held in
    elim (Bool-cases (ltb mine (or_zero (lookup block (max_epochs keys []))))) [
      | inl newer ↦
          rw newer
            (λ h. cc, λ h. absurd (ground (arith, here.1 (unfold lookup in omega arith, h.0))))
      | inr current ↦ rw current (λ h. ((here.0 (ground arith)).1, ih.0 h), λ h. ih.1 h.1)
    ]

-- The guard's check of a listing passes exactly when no listed lease key of a block that the node
-- holds has an epoch above the node's. When it passes the stamps are those of this check and the
-- fence is as it was; when it does not, the node is fenced and its stamps are as they were.
pub verify_listed_iff :
    (node : Guarded) (mono wall : ℕ) (keys : List Bytes)
    → let (passed, after) = verify_listed node mono wall (some keys) in
      ((passed ≡ true) ↔ AllCurrent keys node.epochs)
      × (passed ≡ true → (after.verified ≡ (mono, wall)) × (after.fenced ≡ node.fenced))
      × (passed ≡ false → (after.verified ≡ node.verified) × (after.fenced ≡ true))
unfolding verify_listed
verify_listed_iff node mono wall keys =
    let iff = check_held_iff keys node.epochs in
    elim (Bool-cases (check_held (max_epochs keys []) node.epochs)) [
      | inl p ↦ rw p ((λ _. iff.0 p, λ _. refl), (λ _. (refl, refl)), λ h. cc)
      | inr p ↦ rw p ((λ h. cc, λ h. cc (p, iff.1 h)), (λ h. cc), λ _. (refl, refl))
    ]
