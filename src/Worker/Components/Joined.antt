-- ===== src/Worker/Components/Joined.antt =====
-- worker.rs, the unions of `txn_components` from their start to their end.
use fafo.Prelude.{
  ℕ, zero, suc, ◌+◌, ◌≡◌, refl, sym, ap, subst, ◌∙◌, none, some, List, [], ◌∷◌, arith, ltb,
  some_inj, ◌↔◌, Bool-cases, inl, inr, if◌then◌else◌, length, get_elem?, Map, lookup, All,
}
use mathlib.Core.List.{Memᴰ}
use fafo.Prelude.Bytes.{Bytes, bytes_eq}
use fafo.Worker.State.{AppliedTxn}
use fafo.Worker.Revert.{participants_of}
use fafo.Worker.Components.{parent_of, link_txns, indices, find_fuel}
use fafo.Worker.Components.Forest.{IsForest}
use fafo.Worker.Components.Links.{Touches, Linked, itself, shares, back, onward, Links, Covered}
use fafo.Worker.Components.Linking.{AllCovered, AllTouch, link_txns_lem}

get_elem?-indices :
    (start count k : ℕ)
    → get_elem? (indices start count) k ≡ (if ltb k count then some (start + k) else none)
get_elem?-indices start zero k = ground arith
get_elem?-indices start (suc count) zero = ground arith
get_elem?-indices start (suc count) (suc k) = ground (arith, get_elem?-indices (suc start) count k)

pub length-indices : (start count : ℕ) → length (indices start count) ≡ count
length-indices start zero = refl
length-indices start (suc count) = ap suc (length-indices (suc start) count)

-- At the start every transaction is its own root.
parent_of-indices : (count k : ℕ) → parent_of (indices 0 count) k ≡ k
parent_of-indices count k =
    rw (get_elem?-indices 0 count k, parent_of)
      (elim (Bool-cases (ltb k count)) [ inl y ↦ rw y (omega arith) | inr n ↦ rw n refl ])

start-Links :
    (pending : List AppliedTxn) → Links pending (length pending) 0 (indices 0 (length pending), [])
unfolding lookup
start-Links pending =
    let n = length pending in
    let own = parent_of-indices n in
    record {
      root = λ x. x;
      height = λ x. 0;
      forest = record {
        sized = length-indices 0 n;
        edge = own;
        top = λ x h. (refl, refl);
        rooted = own;
        falls = λ x h. absurd (h (own x));
        inside = λ x h. h;
        low = λ x. omega arith;
        closed = λ x h. rw (own x) h;
      };
      first_in = λ o j e. cc;
      sound = λ x y e. subst (λ z. Linked pending x z) e itself;
    }

touch_each :
    (pending : List AppliedTxn) (i : ℕ) (t : AppliedTxn) (os : List Bytes)
    → get_elem? pending i ≡ some t
    → ((o : Bytes) → Memᴰ o os → Memᴰ o t.participants)
    → All (Touches pending i) os
touch_each pending i t [] e m = tt
touch_each pending i t (o ∷ os) e m =
    ((t, e, m o (Memᴰ.head refl)), touch_each pending i t os e (λ u h. m u (Memᴰ.tail h)))

touch_all :
    (pending : List AppliedTxn) (i : ℕ) (ts : List AppliedTxn)
    → ((k : ℕ) → get_elem? pending (i + k) ≡ get_elem? ts k)
    → AllTouch pending i ts
touch_all pending i [] h = tt
touch_all pending i (t ∷ ts) h = (
  touch_each pending i t t.participants
      (subst (λ k. get_elem? pending k ≡ some t) (omega arith) (h 0)) (λ o m. m),
  touch_all pending (suc i) ts
      (λ k. subst (λ z. get_elem? pending z ≡ get_elem? ts k) (omega arith) (h (suc k))),
)

Covered-one :
    (root : ℕ → ℕ) (first : Map Bytes ℕ) (i : ℕ) (o : Bytes) (os : List Bytes)
    → All (Covered root first i) os
    → Memᴰ o os
    → Covered root first i o
Covered-one root first i o [] h m = elim m [ ]
Covered-one root first i o (u ∷ os) h (Memᴰ.head e) = subst (Covered root first i) (sym e) h.0
Covered-one root first i o (u ∷ os) h (Memᴰ.tail m) = Covered-one root first i o os h.1 m

Covered-at :
    (root : ℕ → ℕ) (first : Map Bytes ℕ) (i k : ℕ) (ts : List AppliedTxn) (t : AppliedTxn)
    (o : Bytes)
    → AllCovered i root first ts
    → get_elem? ts k ≡ some t
    → Memᴰ o t.participants
    → Covered root first (i + k) o
Covered-at root first i k [] t o h e m = cc
Covered-at root first i zero (u ∷ ts) t o h e m =
    subst (λ z. Covered root first z o) (omega arith)
      (Covered-one root first i o u.participants h.0
        (subst (λ (v : AppliedTxn). Memᴰ o v.participants) (sym (some_inj e)) m))
Covered-at root first i (suc k) (u ∷ ts) t o h e m =
    subst (λ z. Covered root first z o) (omega arith)
      (Covered-at root first (suc i) k ts t o h.1 e m)

-- The linked have one root.
Linked-root :
    (pending : List AppliedTxn) (root : ℕ → ℕ) (first : Map Bytes ℕ) {x y : ℕ}
    → AllCovered 0 root first pending
    → Linked pending x y
    → root x ≡ root y
Linked-root pending root first h itself = refl
Linked-root pending root first {x} {y} h (shares o (t, et, mt) (u, eu, mu)) =
    let (j, ej, sj) = Covered-at root first 0 x pending t o h et mt in
    let (k, ek, sk) = Covered-at root first 0 y pending u o h eu mu in
    let jk : j ≡ k = ground (arith) in
    let sj' : root x ≡ root j = subst (λ z. root z ≡ root j) (omega arith) sj in
    let sk' : root y ≡ root k = subst (λ z. root z ≡ root k) (omega arith) sk in
    sj' ∙ ap root jk ∙ sym sk'
Linked-root pending root first h (back l) = sym (Linked-root pending root first h l)
Linked-root pending root first h (onward l k) =
    Linked-root pending root first h l ∙ Linked-root pending root first h k

-- After the unions, the parents are a forest whose roots tell which transactions are linked.
pub record Joined (pending : List AppliedTxn) (p : List ℕ) : Type 0 where
  pub root : ℕ → ℕ
  pub height : ℕ → ℕ
  pub forest : IsForest (length pending) (length (participants_of pending)) root height p
  pub root_iff : (x y : ℕ) → (root x ≡ root y) ↔ Linked pending x y

pub link_txns-Joined :
    (pending : List AppliedTxn)
    → Joined pending (link_txns (find_fuel pending) 0 pending (indices 0 (length pending), [])).0
link_txns-Joined pending =
    let n = length pending in
    let all = length (participants_of pending) in
    let r =
      link_txns_lem pending n 0 all 0 (find_fuel pending) pending (indices 0 n, [])
        (start-Links pending)
        (touch_all pending 0 pending (λ k. ap (get_elem? pending) (omega arith))) (omega arith)
        (omega arith) (omega arith) in
    let s = link_txns (find_fuel pending) 0 pending (indices 0 n, []) in
    record {
      root = r.links.root;
      height = r.links.height;
      forest = r.links.forest;
      root_iff = λ x y. (r.links.sound x y, Linked-root pending r.links.root s.1 r.done);
    }
