-- ===== src/Objlog/Gentle.antt =====
-- objlog.rs, which programs never delete or overwrite a blob: those that read, and `compact`, which
-- only creates.
use fafo.Prelude.{
  ℕ, zero, suc, ◌+◌, Bool, true, false, Option, none, some, List, [], ◌∷◌, leb, ltb, nat_beq,
  if◌then◌else◌, Option-cases, inl, inr,
}
use fafo.Prelude.Bytes.{Bytes}
use fafo.Objlog.Io.{
  Io, ret, fail, get, list, create, delete, put, get_range, get?, list?, create?, ◌>>=◌, attempt,
}
use fafo.Objlog.Hoare.{IsGentle}
use fafo.Objlog.Outcome.{committed-IsGentle}
use fafo.Objlog.Keys.{parse_log_seq, log_prefix, base_seq_key}
use fafo.Objlog.Entry.{LogPayload, LogEntry, decode_entry}
use fafo.Objlog.Protocol.{
  base_image, read_base, committed, entry_at, walk_fold, fold_committed_within, fold_committed,
  compact,
}

module _ (key : Bytes) where
  pub IsGentle-bind :
      {A B : Type 0} (m : Io A) (f : A → Io B)
      → IsGentle key m
      → ((a : A) → IsGentle key (f a))
      → IsGentle key (m >>= f)
  unfolding ◌>>=◌
  IsGentle-bind (ret a) f h k = k a
  IsGentle-bind fail f h k = tt
  IsGentle-bind (get j g) f h k = λ r. IsGentle-bind (g r) f (h r) k
  IsGentle-bind (list j g) f h k = λ r. IsGentle-bind (g r) f (h r) k
  IsGentle-bind (create j b g) f h k = λ r. IsGentle-bind (g r) f (h r) k
  IsGentle-bind (delete j g) f h k = (h.0, λ r. IsGentle-bind (g r) f (h.1 r) k)
  IsGentle-bind (put j b g) f h k = (h.0, λ r. IsGentle-bind (g r) f (h.1 r) k)
  IsGentle-bind (get_range j n m g) f h k = λ r. IsGentle-bind (g r) f (h r) k

  pub IsGentle-attempt : {A : Type 0} (m : Io A) → IsGentle key m → IsGentle key (attempt m)
  unfolding attempt
  IsGentle-attempt (ret a) h = tt
  IsGentle-attempt fail h = tt
  IsGentle-attempt (get j g) h = λ r. IsGentle-attempt (g r) (h r)
  IsGentle-attempt (list j g) h = λ r. IsGentle-attempt (g r) (h r)
  IsGentle-attempt (create j b g) h = λ r. IsGentle-attempt (g r) (h r)
  IsGentle-attempt (delete j g) h = (h.0, λ r. IsGentle-attempt (g r) (h.1 r))
  IsGentle-attempt (put j b g) h = (h.0, λ r. IsGentle-attempt (g r) (h.1 r))
  IsGentle-attempt (get_range j n m g) h = λ r. IsGentle-attempt (g r) (h r)

  pub if-IsGentle :
      {A : Type 0} (b : Bool) (m n : Io A)
      → IsGentle key m
      → IsGentle key n
      → IsGentle key (if b then m else n)
  if-IsGentle true m n h k = h
  if-IsGentle false m n h k = k

  get?-IsGentle : (k : Bytes) → IsGentle key (get? k)
  get?-IsGentle k none = tt
  get?-IsGentle k (some o) = tt

  pub list?-IsGentle : (k : Bytes) → IsGentle key (list? k)
  list?-IsGentle k none = tt
  list?-IsGentle k (some o) = tt

  create?-IsGentle : (k b : Bytes) → IsGentle key (create? k b)
  create?-IsGentle k b none = tt
  create?-IsGentle k b (some o) = tt

  base_image-IsGentle : (id : Bytes) (best : Option ℕ) → IsGentle key (base_image id best)
  unfolding base_image
  base_image-IsGentle id none = tt
  base_image-IsGentle id (some seq) =
      IsGentle-bind (get? (base_seq_key id seq)) _ (get?-IsGentle (base_seq_key id seq)) (λ img. tt)

  read_base-IsGentle : (id : Bytes) → IsGentle key (read_base id)
  unfolding read_base ◌>>=◌
  read_base-IsGentle id none = tt
  read_base-IsGentle id (some keys) = base_image-IsGentle id _

  entry_at-IsGentle : (k : Bytes) → IsGentle key (entry_at k)
  unfolding entry_at ◌>>=◌
  entry_at-IsGentle k none = tt
  entry_at-IsGentle k (some none) = tt
  entry_at-IsGentle k (some (some bytes)) =
      let next : Option LogEntry → Io (Option LogEntry) = λ o. elim o [
        | none ↦ ret none
        | some entry ↦ (do done ← committed entry.txn; if done then ret (some entry) else ret none)
      ] in
      elim (decode_entry bytes) as (λ o. IsGentle key (next o)) [
        | none ↦ tt
        | some entry ↦
            IsGentle-bind (committed entry.txn) _ (committed-IsGentle key entry.txn)
              (λ done. if-IsGentle done _ _ tt tt)
      ]

  -- The continuation of the walk at an entry: the end of the prefix, or one more payload.
  walked :
      (id : Bytes) (base seq this_seq : ℕ) (ks : List Bytes)
      → IsGentle key (walk_fold id base this_seq ks)
      → (found : Option LogEntry)
      → IsGentle {A = List LogPayload × ℕ} key (elim found [
        | none ↦ ret ([], seq)
        | some e ↦ (do rest ← walk_fold id base this_seq ks; ret (e.payload ∷ rest.0, rest.1))
      ])
  walked id base seq this_seq ks h none = tt
  walked id base seq this_seq ks h (some e) =
      IsGentle-bind (walk_fold id base this_seq ks) _ h (λ rest. tt)

  walk_fold-IsGentle :
      (id : Bytes) (base seq : ℕ) (ks : List Bytes) → IsGentle key (walk_fold id base seq ks)
  unfolding walk_fold parse_log_seq
  walk_fold-IsGentle id base seq [] = tt
  walk_fold-IsGentle id base seq (k ∷ ks) = elim (Option-cases (parse_log_seq k id)) [
    | inl n ↦ rw n (walk_fold-IsGentle id base seq ks)
    | inr (this_seq, e) ↦ rw e (
        if-IsGentle (leb this_seq base) _ _ (walk_fold-IsGentle id base seq ks) (
          if-IsGentle (nat_beq this_seq (seq + 1)) _ _
            (IsGentle-bind (entry_at k) _ (entry_at-IsGentle k)
              (walked id base seq this_seq ks (walk_fold-IsGentle id base this_seq ks)))
            tt))
  ]

  folded-IsGentle :
      (o : Option Bytes) (seq : ℕ)
      → IsGentle {A = Bytes × ℕ} key (elim o [ none ↦ fail | some image ↦ ret (image, seq) ])
  folded-IsGentle none seq = tt
  folded-IsGentle (some image) seq = tt

  fold_committed_within-IsGentle : (n : ℕ) (id : Bytes) → IsGentle key (fold_committed_within n id)
  unfolding fold_committed_within
  fold_committed_within-IsGentle zero id = tt
  fold_committed_within-IsGentle (suc n) id =
      IsGentle-bind (read_base id) _ (read_base-IsGentle id) (λ base.
        IsGentle-bind (list? (log_prefix id)) _ (list?-IsGentle (log_prefix id)) (λ keys.
          IsGentle-bind (walk_fold id base.1 base.1 _) _ (walk_fold-IsGentle id base.1 base.1 _)
            (λ w. IsGentle-bind (read_base id) _ (read_base-IsGentle id) (λ now.
              if-IsGentle (ltb w.1 now.1) _ _ (fold_committed_within-IsGentle n id)
                (folded-IsGentle _ w.1)))))

  pub fold_committed-IsGentle : (id : Bytes) → IsGentle key (fold_committed id)
  unfolding fold_committed
  fold_committed-IsGentle id = fold_committed_within-IsGentle 16 id

  pub compact-IsGentle : (id : Bytes) (keep : ℕ) → IsGentle key (compact id keep)
  unfolding compact
  compact-IsGentle id keep =
      IsGentle-bind (fold_committed id) _ (fold_committed-IsGentle id) (λ folded.
        IsGentle-bind (read_base id) _ (read_base-IsGentle id) (λ base.
          if-IsGentle (ltb folded.1 (base.1 + keep)) _ _ tt (
            IsGentle-bind (create? (base_seq_key id folded.1) folded.0) _
              (create?-IsGentle (base_seq_key id folded.1) folded.0) (λ made. tt))))
