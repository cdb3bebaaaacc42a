-- ===== src/Worker/Components/Linking.antt =====
-- worker.rs, the loops of `txn_components` that link the pending transactions.
use fafo.Prelude.{ℕ, suc, ◌+◌, ◌≤◌, ◌<◌, List, [], ◌∷◌, arith, length, Map, length-append, All}
use fafo.Prelude.Bytes.{Bytes, bytes_eq}
use fafo.Worker.State.{AppliedTxn}
use fafo.Worker.Revert.{participants_of}
use fafo.Worker.Components.{Linking, link_object, link_objects, link_txns}
use fafo.Worker.Components.Links.{
  Touches, Links, Covered, Grows, Covered-Grows, wider-IsForest, After, link_object_lem,
}

Covered-all :
    (root root' : ℕ → ℕ) (first first' : Map Bytes ℕ) (i : ℕ) (os : List Bytes)
    → Grows root first root' first'
    → All (Covered root first i) os
    → All (Covered root' first' i) os
Covered-all root root' first first' i [] g h = tt
Covered-all root root' first first' i (o ∷ os) g h = (
  Covered-Grows root root' first first' i o g h.0,
  Covered-all root root' first first' i os g h.1,
)

-- Nothing is done.
rest_here :
    (pending : List AppliedTxn) (size bound bound' : ℕ) (s : Linking)
    (l : Links pending size bound s)
    → bound ≤ bound'
    → After pending size bound s l bound' s (λ root first. Unit {0})
rest_here pending size bound bound' s l h = record {
  links = record {
    root = l.root;
    height = l.height;
    forest = wider-IsForest bound' s.0 l.forest h;
    first_in = l.first_in;
    sound = l.sound;
  };
  grows = (λ x y e. e, λ o j e. e);
  done = tt;
}

link_objects_lem :
    (pending : List AppliedTxn) (size bound bound' i fuel : ℕ) (os : List Bytes) (s : Linking)
    (l : Links pending size bound s)
    → All (Touches pending i) os
    → i < size
    → bound + length os ≤ bound'
    → bound' < fuel
    → After pending size bound s l bound'
        (link_objects fuel i os s)
        (λ root first. All (Covered root first i) os)
unfolding link_objects
link_objects_lem pending size bound bound' i fuel [] s l ts lt room enough =
    let r = rest_here pending size bound bound' s l (omega arith) in
    record { links = r.links; grows = r.grows; done = tt }
link_objects_lem pending size bound bound' i fuel (o ∷ os) s l ts lt room enough =
    let now = link_object_lem pending size bound i fuel o s l ts.0 lt (omega arith) in
    let s' = link_object fuel i o s in
    let later =
      link_objects_lem pending size (suc bound) bound' i fuel os s' now.links ts.1 lt (omega arith)
        enough in
    let s'' = link_objects fuel i os s' in
    record {
      links = later.links;
      grows = (
        λ x y e. later.grows.0 x y (now.grows.0 x y e),
        λ u j e. later.grows.1 u j (now.grows.1 u j e),
      );
      done = (
        Covered-Grows now.links.root later.links.root s'.1 s''.1 i o later.grows now.done,
        later.done,
      );
    }

-- Every transaction of a list, numbered from `i`, is covered.
abbrev pub AllCovered : ℕ → (ℕ → ℕ) → Map Bytes ℕ → List AppliedTxn → Type 0
AllCovered i root first [] = Unit
AllCovered i root first (t ∷ ts) =
    All (Covered root first i) t.participants × AllCovered (suc i) root first ts

abbrev pub AllTouch : List AppliedTxn → ℕ → List AppliedTxn → Type 0
AllTouch pending i [] = Unit
AllTouch pending i (t ∷ ts) = All (Touches pending i) t.participants × AllTouch pending (suc i) ts

pub link_txns_lem :
    (pending : List AppliedTxn) (size bound bound' i fuel : ℕ) (ts : List AppliedTxn) (s : Linking)
    (l : Links pending size bound s)
    → AllTouch pending i ts
    → i + length ts ≤ size
    → bound + length (participants_of ts) ≤ bound'
    → bound' < fuel
    → After pending size bound s l bound'
        (link_txns fuel i ts s)
        (λ root first. AllCovered i root first ts)
unfolding link_txns
link_txns_lem pending size bound bound' i fuel [] s l touch within room enough =
    let r = rest_here pending size bound bound' s l (omega arith) in
    record { links = r.links; grows = r.grows; done = tt }
link_txns_lem pending size bound bound' i fuel (t ∷ ts) s l touch within room enough =
    let long = length-append t.participants (participants_of ts) in
    let half : ℕ = bound + length t.participants in
    let now =
      link_objects_lem pending size bound half i fuel t.participants s l touch.0 (omega arith)
        (omega arith) (omega arith) in
    let s' = link_objects fuel i t.participants s in
    let later =
      link_txns_lem pending size half bound' (suc i) fuel ts s' now.links touch.1 (omega arith)
        (omega arith) enough in
    let s'' = link_txns fuel (suc i) ts s' in
    record {
      links = later.links;
      grows = (
        λ x y e. later.grows.0 x y (now.grows.0 x y e),
        λ u j e. later.grows.1 u j (now.grows.1 u j e),
      );
      done = (
        Covered-all now.links.root later.links.root s'.1 s''.1 i t.participants later.grows
            now.done,
        later.done,
      );
    }
