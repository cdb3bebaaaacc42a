-- ===== src/Routing/Hash.antt =====
-- cluster.rs, `fnv1a` and `default_worker`. `usize` is 64 bits, as `u64`.
use Prim.Native.Nat.{bit_xor}
use fafo.Prelude.{ℕ, ◌*◌, ◌%◌, ◌^◌, ◌<◌, ◌≡◌, refl, [], ◌∷◌, ◌++◌, arith}
use fafo.Prelude.Bytes.{Bytes}

abbrev pub offset_basis : ℕ
offset_basis = 0xcbf29ce484222325

abbrev pub fnv_prime : ℕ
fnv_prime = 0x100000001b3

-- The body of the loop; `wrapping_mul` is modulo 2^64.
hash_byte : ℕ → ℕ → ℕ
hash_byte h b = (bit_xor h b * fnv_prime) % 2 ^ 64

hash_from : ℕ → Bytes → ℕ
hash_from h [] = h
hash_from h (b ∷ bs) = hash_from (hash_byte h b) bs

unfoldable pub fnv1a : Bytes → ℕ
unfolding hash_byte hash_from
fnv1a bytes = hash_from offset_basis bytes

unfoldable pub default_worker : Bytes → ℕ → ℕ
default_worker object logical = fnv1a object % logical

hash_from-append : (h : ℕ) (a b : Bytes) → hash_from h (a ++ b) ≡ hash_from (hash_from h a) b
unfolding hash_from
hash_from-append h [] b = refl
hash_from-append h (x ∷ a) b = hash_from-append (hash_byte h x) a b

hash_from-lt : (h : ℕ) (bs : Bytes) → h < 2 ^ 64 → hash_from h bs < 2 ^ 64
unfolding hash_from hash_byte
hash_from-lt h [] l = l
hash_from-lt h (b ∷ bs) l = hash_from-lt (hash_byte h b) bs (omega arith)

-- Every object has a home among the workers, where there are any.
pub default_worker-lt :
    (object : Bytes) (logical : ℕ) → 0 < logical → default_worker object logical < logical
unfolding default_worker
default_worker-lt object logical h = omega arith
