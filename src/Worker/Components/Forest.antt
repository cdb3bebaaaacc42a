-- ===== src/Worker/Components/Forest.antt =====
-- worker.rs, the union-find of `txn_components`: what its parents say.
use fafo.Prelude.{
  ℕ, zero, suc, ◌≤◌, ◌<◌, ◌≡◌, ◌≢◌, refl, sym, ap, subst, ◌∙◌, inl, inr, some, List, [], ◌∷◌,
  nat_beq, arith, length, get_elem?, set, if◌then◌else◌, Bool-cases,
}
use fafo.Worker.Components.{parent_of, find, unite}

pub length-set : (xs : List ℕ) (i v : ℕ) → length (set xs i v) ≡ length xs
length-set [] i v = refl
length-set (x ∷ xs) zero v = refl
length-set (x ∷ xs) (suc i) v = ap suc (length-set xs i v)

pub get_elem?-set :
    (xs : List ℕ) (i j v : ℕ)
    → i < length xs
    → get_elem? (set xs i v) j ≡ (if nat_beq i j then some v else get_elem? xs j)
get_elem?-set [] i j v h = elim h [ ]
get_elem?-set (x ∷ xs) zero zero v h = refl
get_elem?-set (x ∷ xs) zero (suc j) v h = ground arith
get_elem?-set (x ∷ xs) (suc i) zero v h = ground arith
get_elem?-set (x ∷ xs) (suc i) (suc j) v h = ground (arith, get_elem?-set xs i j v)

pub parent_of-set :
    (p : List ℕ) (i j v : ℕ)
    → i < length p
    → parent_of (set p i v) j ≡ (if nat_beq i j then v else parent_of p j)
parent_of-set p i j v h =
    rw (get_elem?-set p i j v h, parent_of)
      (elim (Bool-cases (nat_beq i j)) [ inl y ↦ rw y refl | inr n ↦ rw n refl ])

-- The parents are a forest with the roots `root`; `height` falls along every edge, and is at most
-- `bound`.
pub record IsForest (size bound : ℕ) (root height : ℕ → ℕ) (p : List ℕ) : Type 0 where
  pub sized : length p ≡ size
  pub edge : (x : ℕ) → root (parent_of p x) ≡ root x
  pub top : (x : ℕ) → parent_of p x ≡ x → (root x ≡ x) × (height x ≡ 0)
  pub rooted : (x : ℕ) → parent_of p (root x) ≡ root x
  pub falls : (x : ℕ) → parent_of p x ≢ x → height (parent_of p x) < height x
  pub inside : (x : ℕ) → x < size → root x < size
  pub low : (x : ℕ) → height x ≤ bound
  pub closed : (x : ℕ) → x < size → parent_of p x < size

-- A parent may be replaced by the root, as the compression does.
compress-IsForest :
    {size bound : ℕ} {root height : ℕ → ℕ} (p : List ℕ) (x : ℕ)
    → IsForest size bound root height p
    → x < size
    → parent_of p x ≢ x
    → IsForest size bound root height (set p x (root x))
compress-IsForest {size} {bound} {root} {height} p x f lt ne =
    let at : (y : ℕ)
        → parent_of (set p x (root x)) y ≡ (if nat_beq x y then root x else parent_of p y) =
      λ y. parent_of-set p x y (root x) (omega (arith, f.sized)) in
    let flat : height (root x) ≡ 0 = (f.top (root x) (f.rooted x)).1 in
    let high : 0 < height x = omega (arith, f.falls x ne) in
    let again : root (root x) ≡ root x = (f.top (root x) (f.rooted x)).0 in
    record {
      sized = length-set p x (root x) ∙ f.sized;
      edge = λ y. elim (Bool-cases (nat_beq x y)) [
        | inl e ↦ let xy : x ≡ y = ground arith in rw (at y) (rw e (rw (← xy) again))
        | inr n ↦ rw (at y) (rw n (f.edge y))
      ];
      top = λ y s. elim (Bool-cases (nat_beq x y)) [
        | inl e ↦ let xy : x ≡ y = ground arith in ground (arith, at y, ap height xy, ap root xy)
        | inr n ↦ f.top y (ground (arith, at y))
      ];
      rooted = λ y. elim (Bool-cases (nat_beq x (root y))) [
        | inl e ↦
            let xy : x ≡ root y = ground arith in
            absurd (ne (subst (λ z. parent_of p z ≡ z) (sym xy) (f.rooted y)))
        | inr n ↦ rw (at (root y)) (rw n (f.rooted y))
      ];
      falls = λ y s. elim (Bool-cases (nat_beq x y)) [
        | inl e ↦ let xy : x ≡ y = ground arith in rw (at y) (rw e (rw (← xy) (omega arith)))
        | inr n ↦ rw (at y) (rw n (f.falls y (λ q. s (at y ∙ ground arith))))
      ];
      inside = f.inside;
      low = f.low;
      closed = λ y h. elim (Bool-cases (nat_beq x y)) [
        | inl e ↦ rw (at y) (rw e (f.inside x lt))
        | inr n ↦ rw (at y) (rw n (f.closed y h))
      ];
    }

pub find_lem :
    {size bound : ℕ} {root height : ℕ → ℕ} (fuel : ℕ) (p : List ℕ) (x : ℕ)
    → IsForest size bound root height p
    → x < size
    → height x < fuel
    → IsForest size bound root height (find fuel p x).0 × ((find fuel p x).1 ≡ root x)
unfolding find
find_lem zero p x f lt h = elim h [ ]
find_lem {root} {height} (suc fuel) p x f lt h = elim (Bool-cases (nat_beq (parent_of p x) x)) [
  | inl y ↦ let here : parent_of p x ≡ x = ground arith in rw y (f, here ∙ sym (f.top x here).0)
  | inr n ↦
      let ne : parent_of p x ≢ x = λ e. ground arith in
      let less : height (parent_of p x) < fuel = omega (arith, f.falls x ne) in
      let deeper = find_lem fuel p (parent_of p x) f (f.closed x lt) less in
      let found : (find fuel p (parent_of p x)).1 ≡ root x = deeper.1 ∙ f.edge x in
      let up : parent_of (find fuel p (parent_of p x)).0 x ≢ x =
        λ e. ne (subst (λ z. parent_of p z ≡ z) (deeper.0.top x e).0 (f.rooted x)) in
      let size_ok : x < length (find fuel p (parent_of p x)).0 = omega (arith, deeper.0.sized) in
      rw n (
        rw found (
          compress-IsForest (find fuel p (parent_of p x)).0 x deeper.0 lt up,
          ground (arith, parent_of-set (find fuel p (parent_of p x)).0 x x (root x) size_ok),
        ))
]

-- One union: the tree of `a` hangs under `b`.
abbrev pub merged : ℕ → ℕ → (ℕ → ℕ) → ℕ → ℕ
merged a b root x = if nat_beq (root x) a then b else root x

abbrev raised : ℕ → ℕ → (ℕ → ℕ) → (ℕ → ℕ) → ℕ → ℕ
raised a b root height x =
    if nat_beq a b then height x else if nat_beq (root x) a then suc (height x) else height x

hang-IsForest :
    {size bound : ℕ} {root height : ℕ → ℕ} (p : List ℕ) (a b : ℕ)
    → IsForest size bound root height p
    → a < size
    → b < size
    → root a ≡ a
    → root b ≡ b
    → IsForest size (suc bound) (merged a b root) (raised a b root height) (set p a b)
hang-IsForest {size} {bound} {root} {height} p a b f la lb ra rb =
    let at : (y : ℕ) → parent_of (set p a b) y ≡ (if nat_beq a y then b else parent_of p y) =
      λ y. parent_of-set p a y b (omega (arith, f.sized)) in
    record {
      sized = length-set p a b ∙ f.sized;
      edge = λ y. ground (arith, at y, f.edge y, ra, rb, ap root rb);
      top = λ y s. ground (arith, at y, f.top y, f.top a, f.rooted a);
      rooted = λ y. ground (arith, at (root y), at b, at a, f.rooted y, rb, ra, f.rooted b);
      falls = λ y s.
          ground (arith, at y, f.falls y, f.edge y, f.top b, f.rooted b, f.top a, f.rooted a);
      inside = λ y l. ground (arith, f.inside y l);
      low = λ y. ground (arith, f.low y);
      closed = λ y l. ground (arith, at y, f.closed y l);
    }

-- `unite` joins the classes of its two arguments.
pub unite-IsForest :
    {size bound : ℕ} {root height : ℕ → ℕ} (fuel : ℕ) (p : List ℕ) (i j : ℕ)
    → IsForest size bound root height p
    → i < size
    → j < size
    → bound < fuel
    → IsForest size
        (suc bound)
        (merged (root i) (root j) root)
        (raised (root i) (root j) root height)
        (unite fuel p i j)
unfolding unite
unite-IsForest {root} {height} fuel p i j f li lj h =
    let a = find_lem fuel p i f li (omega (arith, f.low i)) in
    let b = find_lem fuel (find fuel p i).0 j a.0 lj (omega (arith, f.low j)) in
    rw (a.1, b.1)
      (hang-IsForest (find fuel (find fuel p i).0 j).0 (root i) (root j) b.0 (f.inside i li)
        (f.inside j lj) (f.top (root i) (f.rooted i)).0 (f.top (root j) (f.rooted j)).0)
