-- ===== src/Routing/Blocks.antt =====
-- cluster.rs, `block_of` and `block_range`: the lease blocks over the worker space. `usize` is 64 bits.
use fafo.Prelude.{
  ℕ, ◌+◌, ◌*◌, ◌/◌, ◌%◌, ◌^◌, ◌≤◌, ◌<◌, ◌≡◌, ◌↔◌, inl, inr, Bool-cases, tests, ltb→lt, arith, ltb,
  false, if◌then◌else◌,
}
use native.Mathlib.Decide.{dec_le, dec_lt}
use native.Mathlib.Nat.{
  div-add-mod', mul-le-mul_right, le-div_iff_mul-le, div-lt_iff_lt-mul, mod-lt,
}

abbrev pub usize : ℕ → ℕ
usize n = n % 2 ^ 64

-- `a.div_ceil(b)`
unfoldable pub div_ceil : ℕ → ℕ → ℕ
div_ceil a b = if ltb 0 (a % b) then a / b + 1 else a / b

unfoldable pub block_of : ℕ → ℕ → ℕ → ℕ
block_of worker logical blocks = usize (worker * blocks) / logical

unfoldable pub block_range : ℕ → ℕ → ℕ → ℕ × ℕ
unfolding div_ceil
block_range block logical blocks =
    (div_ceil (usize (block * logical)) blocks, div_ceil (usize ((block + 1) * logical)) blocks)

mul-lt_of_lt : {q w : ℕ} (b : ℕ) → q < w → q * b + b ≤ w * b
mul-lt_of_lt {q} b h = omega (arith, mul-le-mul_right b h)

le_of_mul-lt : (q w b : ℕ) → q * b < w * b + b → q ≤ w
le_of_mul-lt q w b h = elim (dec_le q w) [
  | yes p ↦ p
  | no n ↦ absurd (omega (arith, mul-lt_of_lt {q = w} {w = q} b (omega arith)))
]

zero_of_ltb : (r : ℕ) → ltb 0 r ≡ false → r ≡ 0
zero_of_ltb r h = ground arith

div_ceil-le_iff : (a b w : ℕ) → 0 < b → (div_ceil a b ≤ w) ↔ (a ≤ w * b)
unfolding div_ceil
div_ceil-le_iff a b w h = (forward, backward)
  where
    whole : a / b * b + a % b ≡ a
    whole = div-add-mod' a b

    short : a % b < b
    short = mod-lt a h

    forward : div_ceil a b ≤ w → a ≤ w * b
    forward e = elim (Bool-cases (ltb 0 (a % b))) [
      | inl p ↦ omega (arith, whole, short, mul-lt_of_lt {q = a / b} {w = w} b (ground arith))
      | inr p ↦
          omega (arith, whole, zero_of_ltb (a % b) p, mul-le-mul_right b (rw (p, div_ceil) at e))
    ]

    backward : a ≤ w * b → div_ceil a b ≤ w
    backward e = elim (Bool-cases (ltb 0 (a % b))) [
      | inl p ↦
          rw (p, div_ceil) (le_of_mul-lt (a / b + 1) w b (omega (tests, whole, ltb→lt 0 (a % b) p)))
      | inr p ↦ rw (p, div_ceil) (le_of_mul-lt (a / b) w b (omega (arith, whole)))
    ]

lt-div_ceil_iff : (a b w : ℕ) → 0 < b → (w < div_ceil a b) ↔ (w * b < a)
lt-div_ceil_iff a b w h = (forward, backward)
  where
    forward : w < div_ceil a b → w * b < a
    forward p = elim (dec_lt (w * b) a) [
      | yes q ↦ q
      | no n ↦ absurd (omega (arith, (div_ceil-le_iff a b w h).1 (omega arith)))
    ]

    backward : w * b < a → w < div_ceil a b
    backward p = elim (dec_lt w (div_ceil a b)) [
      | yes q ↦ q
      | no n ↦ absurd (omega (arith, (div_ceil-le_iff a b w h).0 (omega arith)))
    ]

tile :
    (w b L B : ℕ)
    → 0 < L
    → 0 < B
    → (w * B / L ≡ b) ↔ ((div_ceil (b * L) B ≤ w) × (w < div_ceil ((b + 1) * L) B))
tile w b L B hL hB = (forward, backward)
  where
    forward : w * B / L ≡ b → (div_ceil (b * L) B ≤ w) × (w < div_ceil ((b + 1) * L) B)
    forward e = (
      (div_ceil-le_iff (b * L) B w hB).1 ((le-div_iff_mul-le hL).0 (omega (arith, e))),
      (lt-div_ceil_iff ((b + 1) * L) B w hB).1 ((div-lt_iff_lt-mul hL).0 (omega (arith, e))),
    )

    backward : (div_ceil (b * L) B ≤ w) × (w < div_ceil ((b + 1) * L) B) → w * B / L ≡ b
    backward (p, q) =
        let low : b ≤ w * B / L = (le-div_iff_mul-le hL).1 ((div_ceil-le_iff (b * L) B w hB).0 p) in
        let high : w * B / L < b + 1 =
          (div-lt_iff_lt-mul hL).1 ((lt-div_ceil_iff ((b + 1) * L) B w hB).0 q) in
        omega arith

-- The range that a block covers is exactly the set of workers that the frozen mapping sends to that
-- block, also where the blocks do not divide the workers evenly. There are workers and blocks, and
-- the products do not wrap around.
pub block_of-iff-block_range :
    (worker block logical blocks : ℕ)
    → 0 < logical
    → 0 < blocks
    → worker * blocks < 2 ^ 64
    → (block + 1) * logical < 2 ^ 64
    → (block_of worker logical blocks ≡ block) ↔ (
        ((block_range block logical blocks).0 ≤ worker)
        × (worker < (block_range block logical blocks).1))
unfolding block_of block_range
block_of-iff-block_range w b L B hL hB hw hb =
    let worker_fits : usize (w * B) ≡ w * B = omega arith in
    let low : usize (b * L) ≡ b * L = omega arith in
    let high : usize ((b + 1) * L) ≡ (b + 1) * L = omega arith in
    rw (worker_fits, low, high) (unfold div_ceil in tile w b L B hL hB)

-- A block's range does not end before it starts.
pub block_range_ordered :
    (block logical blocks : ℕ)
    → 0 < blocks
    → (block + 1) * logical < 2 ^ 64
    → (block_range block logical blocks).0 ≤ (block_range block logical blocks).1
unfolding block_range
block_range_ordered b L B h fits =
    let top = div_ceil (usize ((b + 1) * L)) B in
    (div_ceil-le_iff (usize (b * L)) B top h).1
      (omega (arith, (div_ceil-le_iff (usize ((b + 1) * L)) B top h).0 (omega arith)))
