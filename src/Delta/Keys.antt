-- ===== src/Delta/Keys.antt =====
-- delta.rs, the keys of deltas: change counters are printed with 10 digits.
use fafo.Prelude.{ℕ, ◌^◌, ◌<◌, ◌≡◌, refl, true, Option, some, ◌++◌, arith, ltb, ◌>>=◌, ◌>>◌, guard}
use fafo.Prelude.Bytes.{Bytes, codes, strip_prefix, strip_prefix-append}
use fafo.Objlog.Keys.{padded, parse_u64, parse_u64-padded}

unfoldable pub delta_prefix : Bytes → Bytes
delta_prefix object = codes "objects/" ++ (object ++ codes ".d.")

unfoldable pub delta_key : Bytes → ℕ → Bytes
unfolding delta_prefix
delta_key object counter = delta_prefix object ++ padded 10 counter

-- `s.parse::<u32>()`: a number of 64 bits that fits in 32.
unfoldable pub parse_u32 : Bytes → Option ℕ
parse_u32 s = do n ← parse_u64 s; guard (ltb n (2 ^ 32)); some n

unfoldable pub parse_delta_counter : Bytes → Bytes → Option ℕ
unfolding delta_prefix parse_u32
parse_delta_counter key object = strip_prefix (delta_prefix object) key >>= parse_u32

-- A change counter of 32 bits is read back from the delta key that is made for it.
pub parse_delta_counter-delta_key :
    (object : Bytes) (counter : ℕ)
    → counter < 2 ^ 32
    → parse_delta_counter (delta_key object counter) object ≡ some counter
unfolding parse_delta_counter delta_key parse_u32
parse_delta_counter-delta_key object counter h =
    let fits : ltb counter (2 ^ 32) ≡ true = ground arith in
    rw
      (
        strip_prefix-append (delta_prefix object) (padded 10 counter),
        parse_u64-padded 10 counter (omega arith) (omega arith) (omega arith),
        fits,
      )
      refl
