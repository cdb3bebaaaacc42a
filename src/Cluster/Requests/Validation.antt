-- ===== src/Cluster/Requests/Validation.antt =====
-- cluster.rs, what `validate_txn` accepts and what it returns.
use fafo.Prelude.{
  ◌≡◌, ◌≢◌, ◌↔◌, refl, sym, ap, ◌∙◌, Bool, true, ◌&&◌, ◌||◌, inl, inr, none, List, [], ◌∷◌, arith,
  any, all, Bool-cases, Option-cases,
}
use fafo.Prelude.Bytes.{Bytes, bytes_beq, bytes_beq_iff}
use fafo.Objlog.Protocol.{sort, sort_insert}
use fafo.Cluster.Requests.{
  valid_id, Op, Validated, validated, rejected, dedup, first_invalid, declared, first_undeclared,
  validate_txn,
}

all-sort_insert :
    (p : Bytes → Bool) (k : Bytes) (ks : List Bytes) → all p (sort_insert k ks) ≡ p k && all p ks
unfolding sort_insert
all-sort_insert p k [] = refl
all-sort_insert p k (j ∷ ks) = ground (arith, all-sort_insert p k ks)

all-sort : (p : Bytes → Bool) (ks : List Bytes) → all p (sort ks) ≡ all p ks
unfolding sort
all-sort p [] = refl
all-sort p (k ∷ ks) = all-sort_insert p k (sort ks) ∙ ap (λ b. p k && b) (all-sort p ks)

all-dedup : (p : Bytes → Bool) (ks : List Bytes) → all p (dedup ks) ≡ all p ks
unfolding dedup
all-dedup p [] = refl
all-dedup p (k ∷ []) = refl
all-dedup p (k ∷ (j ∷ ks)) = elim (Bool-cases (bytes_beq k j)) [
  | inl e ↦
      let same : p k ≡ p j = ap p ((bytes_beq_iff k j).0 e) in
      rw (e, all-dedup p (j ∷ ks)) (ground (arith, same))
  | inr e ↦ rw (e, all-dedup p (j ∷ ks)) refl
]

any-sort_insert :
    (p : Bytes → Bool) (k : Bytes) (ks : List Bytes) → any p (sort_insert k ks) ≡ p k || any p ks
unfolding sort_insert
any-sort_insert p k [] = refl
any-sort_insert p k (j ∷ ks) = ground (arith, any-sort_insert p k ks)

any-sort : (p : Bytes → Bool) (ks : List Bytes) → any p (sort ks) ≡ any p ks
unfolding sort
any-sort p [] = refl
any-sort p (k ∷ ks) = any-sort_insert p k (sort ks) ∙ ap (λ b. p k || b) (any-sort p ks)

any-dedup : (p : Bytes → Bool) (ks : List Bytes) → any p (dedup ks) ≡ any p ks
unfolding dedup
any-dedup p [] = refl
any-dedup p (k ∷ []) = refl
any-dedup p (k ∷ (j ∷ ks)) = elim (Bool-cases (bytes_beq k j)) [
  | inl e ↦
      let same : p k ≡ p j = ap p ((bytes_beq_iff k j).0 e) in
      rw (e, any-dedup p (j ∷ ks)) (ground (arith, same))
  | inr e ↦ rw (e, any-dedup p (j ∷ ks)) refl
]

first_invalid-none : (ids : List Bytes) → (first_invalid ids ≡ none) ↔ (all valid_id ids ≡ true)
unfolding first_invalid
first_invalid-none [] = (λ _. refl, λ _. refl)
first_invalid-none (id ∷ ids) = ground (arith, first_invalid-none ids)

module _ {Value : Type 0} where
  first_undeclared-none :
      (ids : List Bytes) (ops : List (Op Value))
      → (first_undeclared ids ops ≡ none) ↔ (all (λ op. declared ids op.object) ops ≡ true)
  unfolding first_undeclared
  first_undeclared-none ids [] = (λ _. refl, λ _. refl)
  first_undeclared-none ids (op ∷ ops) = ground (arith, first_undeclared-none ids ops)

  all-declared :
      (objects : List Bytes) (ops : List (Op Value))
      → all (λ op. declared (dedup (sort objects)) op.object) ops
        ≡ all (λ op. declared objects op.object) ops
  all-declared objects [] = refl
  all-declared objects (op ∷ ops) =
      rw
        (
          any-dedup (bytes_beq op.object) (sort objects),
          any-sort (bytes_beq op.object) objects,
          all-declared objects ops,
        )
        refl

  -- A transaction is accepted exactly when it declares an object, every declared name is valid and
  -- every operation is on a declared object; the names returned are the declared ones after the
  -- sort and the removal of repetitions.
  pub validate_txn_iff :
      (objects ids : List Bytes) (ops : List (Op Value))
      → (validate_txn objects ops ≡ validated ids) ↔ (
          (objects ≢ [])
          × (all valid_id objects ≡ true)
          × (all (λ op. declared objects op.object) ops ≡ true)
          × (ids ≡ dedup (sort objects)))
  unfolding validate_txn
  validate_txn_iff [] ids ops = (λ h. cc, λ h. absurd (h.0 refl))
  validate_txn_iff (o ∷ os) ids ops =
      let objects = o ∷ os in
      let sorted = dedup (sort objects) in
      let valid = first_invalid-none sorted in
      let covered = first_undeclared-none sorted ops in
      let same_valid : all valid_id sorted ≡ all valid_id objects =
        all-dedup valid_id (sort objects) ∙ all-sort valid_id objects in
      let same_declared = all-declared objects ops in
      elim (Option-cases (first_invalid sorted)) [
        | inr (id, e) ↦
            rw (e, validate_txn) (λ h. cc h, λ h. absurd (cc (e, valid.1 (same_valid ∙ h.1))))
        | inl e ↦ elim (Option-cases (first_undeclared sorted ops)) [
          | inr (x, u) ↦
              rw (e, u, validate_txn)
                (λ h. cc h, λ h. absurd (cc (u, covered.1 (same_declared ∙ h.2))))
          | inl u ↦
              rw (e, u, validate_txn)
                (
                  λ h. (
                    λ q. cc q,
                    sym same_valid ∙ valid.0 e,
                    sym same_declared ∙ covered.0 u,
                    sym (ap names h),
                  ),
                  λ h. ap validated (sym h.3),
                )
        ]
      ]
    where
      names : Validated → List Bytes
      names (validated ids) = ids
      names (rejected r) = []
