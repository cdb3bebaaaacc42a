-- ===== src/Prelude/Words.antt =====
-- Fixed-width integers as bytes: `to_le_bytes`, `to_be_bytes` and back.
use Prim.Native.Nat.{ℕ, zero, suc, ◌+◌, ◌*◌, ◌/◌, ◌%◌, ◌^◌, ◌<◌}
use mathlib.Core.Path.{◌≡◌, refl, ap, ◌∙◌}
use mathlib.Core.List.{[], ◌∷◌, reverse, reverse-reverse, reverse-append}
use native.Mathlib.Omega.{arith}
use native.Mathlib.Nat.{pow-suc, div-lt_iff_lt-mul}
use fafo.Prelude.Lists.{length, length-append}
use fafo.Prelude.Bytes.{Bytes}

-- `(x as uN).to_le_bytes()`, `w` bytes of it: what does not fit is cut off.
unfoldable pub to_le_bytes : ℕ → ℕ → Bytes
to_le_bytes zero x = []
to_le_bytes (suc w) x = (x % 256) ∷ to_le_bytes w (x / 256)

unfoldable pub from_le_bytes : Bytes → ℕ
from_le_bytes [] = 0
from_le_bytes (b ∷ bs) = b + 256 * from_le_bytes bs

unfoldable pub to_be_bytes : ℕ → ℕ → Bytes
unfolding to_le_bytes
to_be_bytes w x = reverse (to_le_bytes w x)

unfoldable pub from_be_bytes : Bytes → ℕ
unfolding from_le_bytes
from_be_bytes bs = from_le_bytes (reverse bs)

pub length-to_le_bytes : (w x : ℕ) → length (to_le_bytes w x) ≡ w
unfolding to_le_bytes
length-to_le_bytes zero x = refl
length-to_le_bytes (suc w) x = ap suc (length-to_le_bytes w (x / 256))

pub from_le_bytes-to_le_bytes : (w x : ℕ) → x < 256 ^ w → from_le_bytes (to_le_bytes w x) ≡ x
unfolding to_le_bytes from_le_bytes
from_le_bytes-to_le_bytes zero x h = omega arith
from_le_bytes-to_le_bytes (suc w) x h =
    let small : x / 256 < 256 ^ w =
      (div-lt_iff_lt-mul {k = 256} {x = x} {y = 256 ^ w} (omega arith)).1
        (rw (pow-suc 256 w) at h) in
    omega (arith, from_le_bytes-to_le_bytes w (x / 256) small)

length-reverse : (bs : Bytes) → length (reverse bs) ≡ length bs
length-reverse [] = refl
length-reverse (b ∷ bs) =
    rw (reverse-append (b ∷ []) bs)
      (omega (arith, length-append (reverse bs) (b ∷ []), length-reverse bs))

pub length-to_be_bytes : (w x : ℕ) → length (to_be_bytes w x) ≡ w
unfolding to_be_bytes
length-to_be_bytes w x = length-reverse (to_le_bytes w x) ∙ length-to_le_bytes w x

pub from_be_bytes-to_be_bytes : (w x : ℕ) → x < 256 ^ w → from_be_bytes (to_be_bytes w x) ≡ x
unfolding to_be_bytes from_be_bytes
from_be_bytes-to_be_bytes w x h = rw reverse-reverse (from_le_bytes-to_le_bytes w x h)
