-- ===== src/Worker/Components/Links.antt =====
-- worker.rs, the unions of `txn_components`: two transactions get one root exactly when they are
-- linked.
use fafo.Prelude.{
  ℕ, suc, ◌≤◌, ◌<◌, ◌≡◌, refl, ap, subst, none, some, List, arith, nat_beq, Bool-cases, inl, inr,
  get_elem?, Map, lookup, insert, lookup-insert, Option-cases,
}
use mathlib.Core.List.{Memᴰ}
use fafo.Prelude.Bytes.{Bytes, bytes_eq, bytes_beq, bytes_beq_refl}
use fafo.Worker.State.{AppliedTxn}
use fafo.Worker.Components.{unite, Linking, link_object}
use fafo.Worker.Components.Forest.{IsForest, merged, unite-IsForest}

-- The transaction at an index has an object.
abbrev pub Touches : List AppliedTxn → ℕ → Bytes → Type 0
Touches pending k object =
    (t : AppliedTxn) × (get_elem? pending k ≡ some t) × Memᴰ object t.participants

-- Two transactions must land together: a chain leads from one to the other, of transactions that
-- share an object with the next.
pub data Linked (pending : List AppliedTxn) : ℕ → ℕ → Type 0 where
  itself : {k : ℕ} → Linked pending k k
  shares :
      {i j : ℕ} (object : Bytes)
      → Touches pending i object
      → Touches pending j object
      → Linked pending i j
  back : {i j : ℕ} → Linked pending i j → Linked pending j i
  onward : {i j k : ℕ} → Linked pending i j → Linked pending j k → Linked pending i k

-- What the parents and the map of the first transactions say on the way.
pub record Links (pending : List AppliedTxn) (size bound : ℕ) (s : Linking) : Type 0 where
  pub root : ℕ → ℕ
  pub height : ℕ → ℕ
  pub forest : IsForest size bound root height s.0
  pub first_in : (o : Bytes) (j : ℕ) → lookup o s.1 ≡ some j → (j < size) × Touches pending j o
  pub sound : (x y : ℕ) → root x ≡ root y → Linked pending x y

-- The object has a first transaction, and that is in the class of `i`.
abbrev pub Covered : (ℕ → ℕ) → Map Bytes ℕ → ℕ → Bytes → Type 0
Covered root first i object = (j : ℕ) × (lookup object first ≡ some j) × (root i ≡ root j)

-- Classes only grow, and a first transaction stays.
abbrev pub Grows : (ℕ → ℕ) → Map Bytes ℕ → (ℕ → ℕ) → Map Bytes ℕ → Type 0
Grows root first root' first' =
    ((x y : ℕ) → root x ≡ root y → root' x ≡ root' y)
    × ((o : Bytes) (j : ℕ) → lookup o first ≡ some j → lookup o first' ≡ some j)

pub Covered-Grows :
    (root root' : ℕ → ℕ) (first first' : Map Bytes ℕ) (i : ℕ) (o : Bytes)
    → Grows root first root' first'
    → Covered root first i o
    → Covered root' first' i o
Covered-Grows root root' first first' i o g (j, here, same) = (j, g.1 o j here, g.0 i j same)

-- The links of a bound hold for a larger one.
pub wider-IsForest :
    {size bound : ℕ} {root height : ℕ → ℕ} (bound' : ℕ) (p : List ℕ)
    → IsForest size bound root height p
    → bound ≤ bound'
    → IsForest size bound' root height p
wider-IsForest bound' p f h = record {
  sized = f.sized;
  edge = f.edge;
  top = f.top;
  rooted = f.rooted;
  falls = f.falls;
  inside = f.inside;
  low = λ x. omega (arith, f.low x);
  closed = f.closed;
}

-- What a piece of the loop gives: new links, grown ones, in which `What` holds.
pub record After (pending : List AppliedTxn) (size bound : ℕ) (s : Linking)
    (l : Links pending size bound s) (bound' : ℕ) (s' : Linking)
    (What : (ℕ → ℕ) → Map Bytes ℕ → Type 0) : Type 0 where
  pub links : Links pending size bound' s'
  pub grows : Grows l.root s.1 links.root s'.1
  pub done : What links.root s'.1

fresh_link :
    (pending : List AppliedTxn) (size bound i : ℕ) (o : Bytes) (p : List ℕ) (first : Map Bytes ℕ)
    (l : Links pending size bound (p, first))
    → Touches pending i o
    → i < size
    → lookup o first ≡ none
    → After pending size bound
        (p, first)
        l
        (suc bound)
        (p, insert o i first)
        (λ root first. Covered root first i o)
fresh_link pending size bound i o p first l t lt none_yet = record {
  links = record {
    root = l.root;
    height = l.height;
    forest = wider-IsForest (suc bound) p l.forest (omega arith);
    first_in = λ u j e. elim (Bool-cases (bytes_beq o u)) [
      | inl y ↦
          let ou : o ≡ u = (bytes_eq.eqb_iff o u).0 y in
          let ij : i ≡ j = ground (arith, lookup-insert o u i first) in
          (
            subst (λ k. k < size) ij lt,
            subst (λ k. Touches pending k u) ij (subst (λ v. Touches pending i v) ou t),
          )
      | inr n ↦ l.first_in u j (ground (arith, lookup-insert o u i first))
    ];
    sound = l.sound;
  };
  grows = (
    λ x y e. e,
    λ u j e. elim (Bool-cases (bytes_beq o u)) [
      | inl y ↦ let ou : o ≡ u = (bytes_eq.eqb_iff o u).0 y in cc (ap (λ v. lookup v first) ou)
      | inr n ↦ ground (arith, lookup-insert o u i first)
    ],
  );
  done = (i, ground (arith, lookup-insert o o i first, bytes_beq_refl o), refl);
}

-- Two of a merged class are linked by way of the two that were merged.
merged_sound :
    (pending : List AppliedTxn) (root : ℕ → ℕ) (i j : ℕ)
    → ((x y : ℕ) → root x ≡ root y → Linked pending x y)
    → Linked pending i j
    → (x y : ℕ) → merged (root i) (root j) root x ≡ merged (root i) (root j) root y
    → Linked pending x y
merged_sound pending root i j sound joined x y e = elim (Bool-cases (nat_beq (root x) (root i))) [
  | inl xi ↦ elim (Bool-cases (nat_beq (root y) (root i))) [
    | inl yi ↦ sound x y (ground arith)
    | inr yo ↦ onward (sound x i (ground arith)) (onward joined (sound j y (ground arith)))
  ]
  | inr xo ↦ elim (Bool-cases (nat_beq (root y) (root i))) [
    | inl yi ↦ onward (sound x j (ground arith)) (onward (back joined) (sound i y (ground arith)))
    | inr yo ↦ sound x y (ground arith)
  ]
]

old_link :
    (pending : List AppliedTxn) (size bound i j fuel : ℕ) (o : Bytes) (p : List ℕ)
    (first : Map Bytes ℕ) (l : Links pending size bound (p, first))
    → Touches pending i o
    → i < size
    → bound < fuel
    → lookup o first ≡ some j
    → After pending size bound
        (p, first)
        l
        (suc bound)
        (unite fuel p i j, first)
        (λ root first. Covered root first i o)
old_link pending size bound i j fuel o p first l t lt enough old =
    let (jlt, tj) = l.first_in o j old in
    let joined : Linked pending i j = shares o t tj in
    record {
      links = record {
        root = merged (l.root i) (l.root j) l.root;
        height = _;
        forest = unite-IsForest fuel p i j l.forest lt jlt enough;
        first_in = l.first_in;
        sound = λ x y e. merged_sound pending l.root i j l.sound joined x y e;
      };
      grows = (λ x y e. ground arith, λ u k e. e);
      done = (j, old, ground arith);
    }

pub link_object_lem :
    (pending : List AppliedTxn) (size bound i fuel : ℕ) (o : Bytes) (s : Linking)
    (l : Links pending size bound s)
    → Touches pending i o
    → i < size
    → bound < fuel
    → After pending size bound s l
        (suc bound)
        (link_object fuel i o s)
        (λ root first. Covered root first i o)
unfolding link_object
link_object_lem pending size bound i fuel o (p, first) l t lt enough =
    elim (Option-cases (lookup o first)) [
      | inl none_yet ↦
          rw (none_yet, link_object) (fresh_link pending size bound i o p first l t lt none_yet)
      | inr (j, old) ↦
          rw (old, link_object) (old_link pending size bound i j fuel o p first l t lt enough old)
    ]
