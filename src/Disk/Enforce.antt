-- ===== src/Disk/Enforce.antt =====
-- limits.rs, `enforce`: what it deletes and where it ends.
use fafo.Prelude.{
  ℕ, zero, suc, ◌+◌, ◌≤◌, ◌<◌, ◌≡◌, ◌≢◌, refl, subst, some_inj, ◌∙◌, true, false, ◌⊎◌, inl, inr,
  none, some, List, [], ◌∷◌, arith, ltb, length, Map, lookup, insert, remove, lookup-remove, IsMap,
  Bool-cases, Option-cases, nat_eq, list_eq, list_beq_iff, ==_refl,
}
use fafo.Prelude.Bytes.{Bytes}
use fafo.Disk.{
  Entry, DiskLedger, bytes_at, drop_file, is_cache, victim, enforce_within, live_by_worker,
  heaviest, enforce,
}
use fafo.Disk.Ledger.{total, IsBalanced, bytes_at_le, drop_file-IsBalanced, length-remove}

-- No file of the ledger is a cache.
abbrev pub NoCache : Map Bytes Entry → Type 0
NoCache [] = Unit
NoCache ((p, e) ∷ files) = (is_cache e.state ≡ false) × NoCache files

victim-none : (files : Map Bytes Entry) → victim files ≡ none → NoCache files
unfolding victim
victim-none [] h = tt
victim-none ((p, e) ∷ files) h = (ground arith, victim-none files (ground arith))

-- Every cached file was touched at `t` or later.
abbrev pub NoOlder : ℕ → Map Bytes Entry → Type 0
NoOlder t [] = Unit
NoOlder t ((p, e) ∷ files) = (is_cache e.state ≡ true → t ≤ e.touched) × NoOlder t files

NoOlder-le : (t u : ℕ) (files : Map Bytes Entry) → t ≤ u → NoOlder u files → NoOlder t files
NoOlder-le t u [] h o = tt
NoOlder-le t u ((p, e) ∷ files) h o = (λ c. omega (arith, o.0 c), NoOlder-le t u files h o.1)

NoOlder-none : (t : ℕ) (files : Map Bytes Entry) → NoCache files → NoOlder t files
NoOlder-none t [] h = tt
NoOlder-none t ((p, e) ∷ files) h = (λ c. cc, NoOlder-none t files h.1)

-- What `victim` finds: a cached file of the map, and none was touched before it.
abbrev IsOldest : Map Bytes Entry → Bytes → ℕ → Type 0
IsOldest files p t =
    (e : Entry) × (lookup p files ≡ some e)
    × (is_cache e.state ≡ true)
    × (e.touched ≡ t)
    × NoOlder t files

lookup-tail :
    (q p : Bytes) (f e : Entry) (files : Map Bytes Entry)
    → lookup q files ≡ none
    → lookup p files ≡ some e
    → lookup p ((q, f) ∷ files) ≡ some e
unfolding lookup
lookup-tail q p f e files absent there = ground (arith, list_beq_iff q p)

victim-IsOldest :
    (files : Map Bytes Entry) {p : Bytes} {t : ℕ}
    → IsMap files
    → victim files ≡ some (p, t)
    → IsOldest files p t
unfolding victim lookup
victim-IsOldest [] m h = absurd (ground arith)
victim-IsOldest ((q, f) ∷ files) {p} {t} m h = elim (Option-cases (victim files)) [
  | inl n ↦
      let cached : is_cache f.state ≡ true = ground arith in
      chosen (some_inj (rw (cached, n) at h)) (
        f,
        rw (==_refl q) refl,
        cached,
        refl,
        ((λ c. omega arith), NoOlder-none f.touched files (victim-none files n)),
      )
  | inr ((p', t'), v) ↦
      let (e, at, cached, when, old) : IsOldest files p' t' = victim-IsOldest files m.1 v in
      let there : lookup p' ((q, f) ∷ files) ≡ some e = lookup-tail q p' f e files m.0 at in
      elim (Bool-cases (is_cache f.state)) [
        | inl c ↦ elim (Bool-cases (ltb t' f.touched)) [
          | inl lt ↦
              chosen (some_inj (rw (c, v, lt) at h))
                (e, there, cached, when, ((λ _. ground arith), old))
          | inr ge ↦ chosen (some_inj (rw (c, v, ge) at h)) (
            f,
            rw (==_refl q) refl,
            c,
            refl,
            ((λ _. omega arith), NoOlder-le f.touched t' files (ground arith) old),
          )
        ]
        | inr c ↦ chosen (some_inj (rw (c, v) at h)) (e, there, cached, when, ((λ d. cc), old))
      ]
]
  where
    chosen :
        {p' : Bytes} {t' : ℕ}
        → ◌≡◌ {A = Bytes × ℕ} (p', t') (p, t)
        → IsOldest ((q, f) ∷ files) p' t'
        → IsOldest ((q, f) ∷ files) p t
    chosen e o = subst (λ (x : Bytes × ℕ). IsOldest ((q, f) ∷ files) x.0 x.1) e o

-- What a round takes off the account.
total_drop :
    (l : DiskLedger) (p : Bytes)
    → IsBalanced l
    → bytes_at (lookup p l.files) + (drop_file l p).used ≡ l.used
unfolding drop_file
total_drop l p h = omega (arith, h.1, bytes_at_le p l.files)

shorter :
    (l : DiskLedger) (p : Bytes) {e : Entry} (n : ℕ)
    → IsBalanced l
    → lookup p l.files ≡ some e
    → length l.files ≤ suc n
    → length (drop_file l p).files ≤ n
unfolding drop_file
shorter l p n h at k = omega (arith, length-remove p l.files h.0 at)

-- The account is right, the bytes deleted are off it, and either the budget is kept or no cache file
-- is left.
abbrev Settled : DiskLedger → ℕ → DiskLedger × ℕ × List Bytes → Type 0
Settled l deleted r =
    IsBalanced r.0
    × (r.0.budget ≡ l.budget)
    × (r.1 + r.0.used ≡ deleted + l.used)
    × ((r.0.used ≤ r.0.budget) ⊎ NoCache r.0.files)

no_files : (files : Map Bytes Entry) → length files ≡ 0 → NoCache files
no_files [] e = tt
no_files (f ∷ files) e = absurd (omega arith)

same_budget : (l : DiskLedger) (p : Bytes) → (drop_file l p).budget ≡ l.budget
unfolding drop_file
same_budget l p = refl

enforce_within-Settled :
    (n : ℕ) (l : DiskLedger) (deleted : ℕ)
    → length l.files ≤ n
    → IsBalanced l
    → Settled l deleted (enforce_within n l deleted)
unfolding enforce_within
enforce_within-Settled zero l deleted k h = (h, refl, refl, inr (no_files l.files (omega arith)))
enforce_within-Settled (suc n) l deleted k h = elim (Option-cases (victim l.files)) [
  | inl v ↦ rw (v, enforce_within) (h, refl, refl, inr (victim-none l.files v))
  | inr ((p, t), v) ↦
      let (e, at, cached, when, old) : IsOldest l.files p t = victim-IsOldest l.files h.0 v in
      let ih =
        enforce_within-Settled n (drop_file l p) (deleted + bytes_at (lookup p l.files))
          (shorter l p n h at k) (drop_file-IsBalanced l p h) in
      elim (Bool-cases (ltb l.budget l.used)) [
        | inl over ↦
            rw (v, over, enforce_within)
              (ih.0, ih.1 ∙ same_budget l p, omega (arith, ih.2, total_drop l p h), ih.3)
        | inr under ↦ rw (v, under, enforce_within) (h, refl, refl, inl (ground arith))
      ]
]

-- A live file stays as it is.
enforce_within-live :
    (n : ℕ) (l : DiskLedger) (deleted : ℕ) (p : Bytes) {e : Entry}
    → IsBalanced l
    → lookup p l.files ≡ some e
    → is_cache e.state ≡ false
    → lookup p (enforce_within n l deleted).0.files ≡ some e
unfolding enforce_within
enforce_within-live zero l deleted p h at live = at
enforce_within-live (suc n) l deleted p {e} h at live = elim (Option-cases (victim l.files)) [
  | inl v ↦ rw (v, enforce_within) at
  | inr ((q, t), v) ↦
      let (f, there, cached, when, old) : IsOldest l.files q t = victim-IsOldest l.files h.0 v in
      elim (Bool-cases (ltb l.budget l.used)) [
        | inl over ↦
            rw (v, over, enforce_within)
              (enforce_within-live n (drop_file l q) (deleted + bytes_at (lookup q l.files)) p
                (drop_file-IsBalanced l q h) (unfold drop_file in kept q there cached) live)
        | inr under ↦ rw (v, under, enforce_within) at
      ]
]
  where
    kept :
        (q : Bytes) {f : Entry}
        → lookup q l.files ≡ some f
        → is_cache f.state ≡ true
        → lookup p (remove q l.files) ≡ some e
    kept q there cached = ground (arith, lookup-remove q p l.files, list_beq_iff q p)

insert_nonempty : (w b : ℕ) (loads : Map ℕ ℕ) → insert w b loads ≢ []
unfolding insert
insert_nonempty w b [] e = cc
insert_nonempty w b ((v, c) ∷ loads) e = ground arith

live_by_worker_nonempty :
    (files : Map Bytes Entry) (loads : Map ℕ ℕ) → live_by_worker files loads ≡ [] → loads ≡ []
unfolding live_by_worker
live_by_worker_nonempty [] loads e = e
live_by_worker_nonempty ((p, f) ∷ files) loads e = elim (Bool-cases (is_cache f.state)) [
  | inl c ↦ live_by_worker_nonempty files loads (rw (c, live_by_worker) at e)
  | inr c ↦ absurd (
      insert_nonempty f.worker _ loads
        (live_by_worker_nonempty files (insert f.worker _ loads) (rw (c, live_by_worker) at e)))
]

heaviest-none : (loads : Map ℕ ℕ) → heaviest loads ≡ none → loads ≡ []
unfolding heaviest
heaviest-none [] h = refl
heaviest-none ((w, b) ∷ loads) h = absurd (ground arith)

-- A ledger over its budget without a cache file names a worker.
sheds :
    (files : Map Bytes Entry)
    → NoCache files
    → 0 < total files
    → heaviest (live_by_worker files []) ≢ none
unfolding live_by_worker total lookup
sheds [] n k e = absurd (omega arith)
sheds ((p, f) ∷ files) n k e =
    let loads = live_by_worker ((p, f) ∷ files) [] in
    let none_left : loads ≡ [] = heaviest-none loads e in
    let empty : live_by_worker files (insert f.worker (0 + f.bytes) []) ≡ [] =
      rw (n.0, live_by_worker) at none_left in
    insert_nonempty f.worker (0 + f.bytes) [] (live_by_worker_nonempty files _ empty)

-- `enforce` on a ledger whose account is right leaves one whose account is right, with the deleted
-- bytes taken off it. Either it ends within the budget and asks no worker, or no cache file is left
-- and it names a worker to shed.
pub enforce_settles :
    (l : DiskLedger)
    → IsBalanced l
    → let (l', result, unlinked) = enforce l in
      IsBalanced l'
      × (result.deleted_cache_bytes + l'.used ≡ l.used)
      × (((l'.used ≤ l.budget) × (result.shed_from_worker ≡ none))
          ⊎ ((l.budget < l'.used) × NoCache l'.files × (result.shed_from_worker ≢ none)))
unfolding enforce
enforce_settles l h =
    let r = enforce_within (length l.files) l 0 in
    let s = enforce_within-Settled (length l.files) l 0 (omega arith) h in
    (
      s.0,
      omega (arith, s.2),
      elim (Bool-cases (ltb r.0.budget r.0.used)) [
        | inl over ↦ elim s.3 [
          | inl within ↦ absurd (ground arith)
          | inr bare ↦ elim (Option-cases (heaviest (live_by_worker r.0.files []))) [
            | inl e ↦ absurd (sheds r.0.files bare (ground (arith, s.0.1)) e)
            | inr (x, e) ↦ rw (over, e) (inr (ground (arith, s.1), bare, λ q. cc))
          ]
        ]
        | inr under ↦ rw under (inl (ground (arith, s.1), refl))
      ],
    )

-- `enforce` leaves every live file of a ledger whose account is right as it is.
pub enforce-live :
    (l : DiskLedger) (p : Bytes) {e : Entry}
    → IsBalanced l
    → lookup p l.files ≡ some e
    → is_cache e.state ≡ false
    → lookup p (enforce l).0.files ≡ some e
unfolding enforce
enforce-live l p h at live = enforce_within-live (length l.files) l 0 p h at live
