-- ===== src/Worker/Boats/Payload.antt =====
-- worker.rs, what `ship_payload` puts on the boat.
use fafo.Prelude.{
  ℕ, ◌+◌, ◌/◌, ◌≤◌, ◌<◌, ◌^◌, ◌≡◌, refl, sym, ap, subst, ◌∙◌, Bool, true, false, ◌||◌, some, [],
  ltb, length, arith, Bool-cases, Option-cases, Map, lookup, insert, lookup-insert, ◌⊎◌, inl, inr,
  some_inj,
}
use mathlib.Core.List.{append-nil}
use fafo.Prelude.Bytes.{Bytes, bytes_eq, bytes_beq}
use fafo.Delta.{Manifest, Delta, manifest_of, diff, encode, decode, apply, page_size, chunks}
use fafo.Delta.Codec.{IsEncodable, decode-encode}
use fafo.Delta.Diff.{NoCollision, apply-diff}
use fafo.Worker.Ship.{ShipPayload, snapshot, delta}
use fafo.Worker.Boats.{
  compact_chain, compact_fraction_denom, delta_size, delta_min_bytes, against, ship_payload,
}

-- Whoever has the old file gets the new one out of the payload.
abbrev pub Carries : Bytes → Bytes → ShipPayload → Type 0
Carries old new (snapshot bytes gc) = bytes ≡ new
Carries old new (delta counter bytes) = (d : Delta) × (decode bytes ≡ some d) × (apply old d ≡ new)

module _ (hash_page : Bytes → ℕ) where
  -- The two ways to ship against a manifest.
  against-cases :
      (m : Manifest) (new : Bytes)
      → let r = diff hash_page m new in
        (against hash_page m new ≡ (snapshot new true, record r.0 { chain_len = 0 }))
        ⊎ ((against hash_page m new
              ≡ (delta r.1.counter (encode r.1), record r.0 { chain_len = r.0.chain_len + 1 }))
            × (r.0.chain_len + 1 ≤ compact_chain))
  unfolding against
  against-cases m new =
      let r = diff hash_page m new in
      let long = ltb compact_chain (r.0.chain_len + 1) in
      let large = ltb (length new / compact_fraction_denom) (delta_size r.1.pages) in
      elim (Bool-cases (long || large)) [
        | inl y ↦ inl (rw y refl)
        | inr n ↦ inr (rw n refl, not_long long large (r.0.chain_len + 1) refl n)
      ]
    where
      not_long :
          (long large : Bool) (k : ℕ)
          → long ≡ ltb compact_chain k
          → long || large ≡ false
          → k ≤ compact_chain
      not_long long large k e n = ground arith

  against-Carries :
      (old new : Bytes) (chain_len : ℕ)
      → let d = (diff hash_page (manifest_of hash_page old chain_len) new).1 in
        IsEncodable d
        → apply old d ≡ new
        → Carries old new (against hash_page (manifest_of hash_page old chain_len) new).0
  against-Carries old new chain_len fits same =
      let m = manifest_of hash_page old chain_len in
      let d = (diff hash_page m new).1 in
      elim (against-cases m new) [
        | inl e ↦ subst (Carries old new) (sym (ap (λ x. x.0) e)) refl
        | inr (e, short) ↦
            subst (Carries old new) (sym (ap (λ x. x.0) e))
              (d, ap decode (sym (append-nil (encode d))) ∙ decode-encode d [] fits, same)
      ]

  against_chain :
      (m : Manifest) (new : Bytes) → (against hash_page m new).1.chain_len ≤ compact_chain
  against_chain m new = elim (against-cases m new) [
    | inl e ↦
        subst (λ (x : ShipPayload × Manifest). x.1.chain_len ≤ compact_chain) (sym e) (omega arith)
    | inr (e, short) ↦
        subst (λ (x : ShipPayload × Manifest). x.1.chain_len ≤ compact_chain) (sym e) short
  ]

  -- No chain of the manifests is longer than the bound.
  abbrev pub Bounded : Map Bytes Manifest → Type 0
  Bounded manifests =
      (o : Bytes) (m : Manifest) → lookup o manifests ≡ some m → m.chain_len ≤ compact_chain

  Bounded-insert :
      (manifests : Map Bytes Manifest) (object : Bytes) (m : Manifest)
      → Bounded manifests
      → m.chain_len ≤ compact_chain
      → Bounded (insert object m manifests)
  Bounded-insert manifests object m h le o n e = elim (Bool-cases (bytes_beq object o)) [
    | inl y ↦
        let same : m ≡ n = some_inj (sym (lookup-insert object o m manifests ∙ rw y refl) ∙ e) in
        subst (λ (x : Manifest). x.chain_len ≤ compact_chain) same le
    | inr d ↦ h o n (sym (lookup-insert object o m manifests ∙ rw d refl) ∙ e)
  ]

  -- No object's chain of deltas grows past the bound, whatever file is shipped.
  pub ship_payload-Bounded :
      (log_primary : Bool) (manifests : Map Bytes Manifest) (object new : Bytes)
      → Bounded manifests
      → Bounded (ship_payload hash_page log_primary manifests object new).1
  unfolding ship_payload
  ship_payload-Bounded true manifests object new h = h
  ship_payload-Bounded false manifests object new h =
      elim (Bool-cases (ltb (length new) delta_min_bytes)) [
        | inl small ↦ rw small h
        | inr large ↦ elim (Option-cases (lookup object manifests)) [
          | inl n ↦
              rw (large, n)
                (Bounded-insert manifests object (manifest_of hash_page new 0) h (omega arith))
          | inr (m, e) ↦
              rw (large, e)
                (Bounded-insert manifests object (against hash_page m new).1 h
                  (against_chain m new))
        ]
      ]

  -- A payload carries the new file: to whoever has the file that the worker shipped last, when the
  -- manifest is of that file. That is under the conditions on which a diff is exact and fits its
  -- encoding: no page hash collides, and sizes, page numbers and the counter are in range.
  pub ship_payload-Carries :
      (log_primary : Bool) (manifests : Map Bytes Manifest) (object old new : Bytes) (chain_len : ℕ)
      → lookup object manifests ≡ some (manifest_of hash_page old chain_len)
      → 0 < page_size old
      → page_size old < 2 ^ 32
      → NoCollision hash_page (chunks (page_size old) old) (chunks (page_size old) new)
      → length (chunks (page_size old) new) ≤ 2 ^ 32
      → IsEncodable (diff hash_page (manifest_of hash_page old chain_len) new).1
      → Carries old new (ship_payload hash_page log_primary manifests object new).0
  unfolding ship_payload
  ship_payload-Carries true manifests object old new chain_len e pos fits distinct count enc = refl
  ship_payload-Carries false manifests object old new chain_len e pos fits distinct count enc =
      elim (Bool-cases (ltb (length new) delta_min_bytes)) [
        | inl small ↦ rw small refl
        | inr large ↦
            rw (large, e)
              (against-Carries old new chain_len enc
                (apply-diff hash_page old new chain_len pos fits distinct count).0)
      ]
