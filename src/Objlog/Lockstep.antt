-- ===== src/Objlog/Lockstep.antt =====
-- objlog.rs, `committed_seq` against `fold_committed`.
use mathlib.Core.Path.{fun_ext}
use fafo.Prelude.{
  ℕ, ◌+◌, ◌≡◌, refl, sym, ap, ◌∙◌, inl, inr, Option, none, some, List, [], ◌∷◌, if◌then◌else◌,
  nat_beq, leb, Bool-cases,
}
use fafo.Prelude.Bytes.{Bytes}
use fafo.Objlog.Hoare.{bind_assoc}
use fafo.Objlog.Keys.{parse_log_seq}
use fafo.Objlog.Entry.{LogEntry, LogPayload}
use fafo.Objlog.Io.{Io, ret, ◌>>=◌}
use fafo.Objlog.Protocol.{entry_at, walk_seq, walk_fold}

-- The number, of a result and its number.
unfoldable pub second : {A B : Type 0} → A × B → Io B
second p = ret p.1

-- From any base and any place in the list of keys, the walk that counts the committed prefix is the
-- walk that collects its payloads with the payloads dropped: the same calls in the same order, and
-- the same sequence number.
pub walk_seq-eq-walk_fold :
    (id : Bytes) (base seq : ℕ) (ks : List Bytes)
    → walk_seq id base seq ks ≡ (walk_fold id base seq ks >>= second)
unfolding walk_seq walk_fold second ◌>>=◌
walk_seq-eq-walk_fold id base seq [] = refl
walk_seq-eq-walk_fold id base seq (k ∷ ks) =
    by_seq (parse_log_seq k id) (λ n. walk_seq-eq-walk_fold id base n ks)
  where
    found_seq : ℕ → Option LogEntry → Io ℕ
    found_seq n found = elim found [ none ↦ ret seq | some e ↦ walk_seq id base n ks ]

    found_fold : ℕ → Option LogEntry → Io (List LogPayload × ℕ)
    found_fold n found = elim found [
      | none ↦ ret ([], seq)
      | some e ↦ (walk_fold id base n ks >>= λ rest. ret (e.payload ∷ rest.0, rest.1))
    ]

    after_entry :
        (n : ℕ)
        → walk_seq id base n ks ≡ (walk_fold id base n ks >>= second)
        → (found : Option LogEntry) → found_seq n found ≡ (found_fold n found >>= second)
    after_entry n ih none = refl
    after_entry n ih (some e) = ih ∙ sym (bind_assoc (walk_fold id base n ks) _ second)

    at_entry :
        (n : ℕ)
        → walk_seq id base n ks ≡ (walk_fold id base n ks >>= second)
        → (entry_at k >>= found_seq n) ≡ ((entry_at k >>= found_fold n) >>= second)
    at_entry n ih =
        ap (λ f. entry_at k >>= f) (fun_ext (after_entry n ih))
        ∙ sym (bind_assoc (entry_at k) (found_fold n) second)

    by_seq :
        (o : Option ℕ)
        → ((n : ℕ) → walk_seq id base n ks ≡ (walk_fold id base n ks >>= second))
        → elim o [
          | none ↦ walk_seq id base seq ks
          | some n ↦
              if leb n base
              then walk_seq id base seq ks
              else if nat_beq n (seq + 1)
              then (entry_at k >>= found_seq n)
              else ret seq
        ]
          ≡ (elim o [
            | none ↦ walk_fold id base seq ks
            | some n ↦
                if leb n base
                then walk_fold id base seq ks
                else if nat_beq n (seq + 1)
                then (entry_at k >>= found_fold n)
                else ret ([], seq)
          ]
              >>= second)
    by_seq none ih = ih seq
    by_seq (some n) ih = elim (Bool-cases (leb n base)) [
      | inl p ↦ rw p (ih seq)
      | inr p ↦ elim (Bool-cases (nat_beq n (seq + 1))) [
        | inl q ↦ rw (p, q) (at_entry n (ih n))
        | inr q ↦ rw (p, q) refl
      ]
    ]
