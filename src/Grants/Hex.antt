-- ===== src/Grants/Hex.antt =====
-- grants.rs, `hex` and `unhex`.
use fafo.Prelude.{
  ℕ, ◌+◌, ◌-◌, ◌*◌, ◌/◌, ◌%◌, ◌<◌, ◌≡◌, ◌≢◌, refl, Bool, true, ◌&&◌, ◌||◌, Option, none, some, [],
  ◌∷◌, arith, ltb, leb, nat_beq, nat_beq_iff, if◌then◌else◌, ◌>>=◌, All, length,
}
use fafo.Prelude.Bytes.{Bytes, IsByte}

-- What a function that may panic does.
pub data Panics {ℓ} (A : Type ℓ) : Type ℓ where
  returned : A → Panics A
  panicked : Panics A

-- One digit of `{b:02x}`.
unfoldable pub hex_digit : ℕ → ℕ
hex_digit n = if ltb n 10 then b'0' + n else b'a' + n - 10

unfoldable pub hex : Bytes → Bytes
unfolding hex_digit
hex [] = []
hex (b ∷ bs) = hex_digit (b / 16) ∷ hex_digit (b % 16) ∷ hex bs

-- `char::to_digit(16)`
to_digit : ℕ → Option ℕ
to_digit c =
    if leb b'0' c && leb c b'9'
    then some (c - b'0')
    else if leb b'a' c && leb c b'f'
    then some (c - b'a' + 10)
    else if leb b'A' c && leb c b'F'
    then some (c - b'A' + 10)
    else none

-- `u8::from_str_radix(_, 16)` on two bytes: one leading `+` is accepted, as the standard library does.
from_str_radix : ℕ → ℕ → Option ℕ
unfolding to_digit
from_str_radix a b =
    if nat_beq a b'+'
    then to_digit b
    else (do hi ← to_digit a; lo ← to_digit b; some (hi * 16 + lo))

-- `s.is_char_boundary(i)` by the rest of the text at `i`: no UTF-8 continuation byte stands there.
is_boundary : Bytes → Bool
is_boundary [] = true
is_boundary (c ∷ s) = ltb c 0x80 || leb 0xc0 c

cons_byte : ℕ → Panics (Option Bytes) → Panics (Option Bytes)
cons_byte b (returned (some bs)) = returned (some (b ∷ bs))
cons_byte b (returned none) = returned none
cons_byte b panicked = panicked

-- The iteration over `(0..s.len()).step_by(2)`: `&s[i..i + 2]` panics off a character boundary, and
-- `collect` into an `Option` stops at the first byte that does not parse.
unhex_pairs : Bytes → Panics (Option Bytes)
unfolding is_boundary from_str_radix cons_byte
unhex_pairs [] = returned (some [])
unhex_pairs (a ∷ []) = returned none
unhex_pairs (a ∷ (b ∷ s)) =
    let rest = unhex_pairs s in
    if is_boundary s
    then elim (from_str_radix a b) [ none ↦ returned none | some v ↦ cons_byte v rest ]
    else panicked

unfoldable pub unhex : Bytes → Panics (Option Bytes)
unfolding unhex_pairs
unhex s = if nat_beq (length s % 2) 0 then unhex_pairs s else returned none

length-hex : (bs : Bytes) → length (hex bs) ≡ 2 * length bs
unfolding hex
length-hex [] = omega arith
length-hex (b ∷ bs) = omega (arith, length-hex bs)

is_boundary-hex : (bs : Bytes) → All IsByte bs → is_boundary (hex bs) ≡ true
unfolding hex is_boundary
is_boundary-hex [] h = refl
is_boundary-hex (b ∷ bs) h = ground arith

from_str_radix-hex_digit :
    (b : ℕ) → b < 256 → from_str_radix (hex_digit (b / 16)) (hex_digit (b % 16)) ≡ some b
unfolding hex_digit from_str_radix
from_str_radix-hex_digit b h = ground arith

unhex_pairs-hex : (bs : Bytes) → All IsByte bs → unhex_pairs (hex bs) ≡ returned (some bs)
unfolding hex unhex_pairs
unhex_pairs-hex [] h = refl
unhex_pairs-hex (b ∷ bs) h =
    rw (is_boundary-hex bs h.1, from_str_radix-hex_digit b h.0, unhex_pairs-hex bs h.1) refl

-- Hexadecimal printing is undone by parsing.
pub unhex-hex : (bs : Bytes) → All IsByte bs → unhex (hex bs) ≡ returned (some bs)
unfolding unhex
unhex-hex bs h =
    rw ((nat_beq_iff (length (hex bs) % 2) 0).1 (omega (arith, length-hex bs)))
      (unhex_pairs-hex bs h)

pub hex-no_dot : (bs : Bytes) → All IsByte bs → All (λ c. c ≢ b'.') (hex bs)
unfolding hex
hex-no_dot [] h = tt
hex-no_dot (b ∷ bs) h = (ground arith, (ground arith, hex-no_dot bs h.1))
