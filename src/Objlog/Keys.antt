-- ===== src/Objlog/Keys.antt =====
-- objlog.rs, the keys: sequence numbers are printed with 20 digits, so that the order of the keys is
-- the order of the sequence numbers.
use fafo.Prelude.{
  ℕ, zero, suc, ◌+◌, ◌-◌, ◌*◌, ◌/◌, ◌%◌, ◌^◌, ◌<◌, ◌≡◌, refl, ap, ◌∙◌, true, false, ◌&&◌, Option,
  none, some, [], ◌∷◌, ◌++◌, arith, ltb, leb, nat_beq, if◌then◌else◌, length, length-append, All,
  ◌>>=◌, ◌>>◌, guard,
}
use fafo.Prelude.Bytes.{Bytes, codes, strip_prefix, strip_prefix-append}
use native.Mathlib.Nat.{pow-suc, div-lt_iff_lt-mul}
use fafo.Store.{bytes_lt}

-- `{n:0w}` for a number of at most `w` digits.
unfoldable pub padded : ℕ → ℕ → Bytes
padded zero n = []
padded (suc w) n = padded w (n / 10) ++ (b'0' + n % 10) ∷ []

-- One more digit; `u64` checks for overflow.
push_digit : ℕ → ℕ → Option ℕ
push_digit acc c = do
  guard (leb b'0' c && leb c b'9')
  let n = acc * 10 + (c - b'0')
  guard (ltb n (2 ^ 64))
  some n

parse_digits : ℕ → Bytes → Option ℕ
unfolding push_digit
parse_digits acc [] = some acc
parse_digits acc (c ∷ s) = push_digit acc c >>= λ n. parse_digits n s

-- `s.parse::<u64>()`: one leading `+` is accepted, an empty text is not.
unfoldable pub parse_u64 : Bytes → Option ℕ
unfolding parse_digits
parse_u64 [] = none
parse_u64 (c ∷ []) = parse_digits 0 (c ∷ [])
parse_u64 (c ∷ (d ∷ s)) =
    if nat_beq c b'+' then parse_digits 0 (d ∷ s) else parse_digits 0 (c ∷ (d ∷ s))

unfoldable pub log_prefix : Bytes → Bytes
log_prefix id = codes "objects/" ++ (id ++ codes ".L.")

unfoldable pub log_key : Bytes → ℕ → Bytes
unfolding log_prefix
log_key id seq = log_prefix id ++ padded 20 seq

unfoldable pub parse_log_seq : Bytes → Bytes → Option ℕ
unfolding log_prefix parse_u64
parse_log_seq key id = strip_prefix (log_prefix id) key >>= parse_u64

unfoldable pub base_prefix : Bytes → Bytes
base_prefix id = codes "objects/" ++ (id ++ codes ".B.")

unfoldable pub base_seq_key : Bytes → ℕ → Bytes
unfolding base_prefix padded
base_seq_key id seq = base_prefix id ++ padded 20 seq

unfoldable pub parse_base_seq : Bytes → Bytes → Option ℕ
unfolding base_prefix parse_u64
parse_base_seq key id = strip_prefix (base_prefix id) key >>= parse_u64

unfoldable pub seq_key : Bytes → Bytes
seq_key id = codes "objects/" ++ (id ++ codes ".SEQ")

unfoldable pub outcome_key : Bytes → Bytes
outcome_key txn = codes "txns/" ++ (txn ++ codes ".O")

parse_digits-append :
    (acc : ℕ) (xs ys : Bytes)
    → parse_digits acc (xs ++ ys) ≡ (parse_digits acc xs >>= λ n. parse_digits n ys)
unfolding parse_digits
parse_digits-append acc [] ys = refl
parse_digits-append acc (c ∷ xs) ys =
    after_push (push_digit acc c) (λ n. parse_digits-append n xs ys)
  where
    after_push :
        (o : Option ℕ)
        → ((n : ℕ) → parse_digits n (xs ++ ys) ≡ (parse_digits n xs >>= λ m. parse_digits m ys))
        → (o >>= λ n. parse_digits n (xs ++ ys))
          ≡ ((o >>= λ n. parse_digits n xs) >>= λ m. parse_digits m ys)
    after_push none ih = refl
    after_push (some n) ih = ih n

last_digit : (n : ℕ) → n < 2 ^ 64 → parse_digits (n / 10) ((b'0' + n % 10) ∷ []) ≡ some n
unfolding parse_digits
last_digit n k = ground arith

parse_digits-padded : (w n : ℕ) → n < 10 ^ w → n < 2 ^ 64 → parse_digits 0 (padded w n) ≡ some n
unfolding padded
parse_digits-padded zero n h k = unfold parse_digits in ap some (omega arith)
parse_digits-padded (suc w) n h k =
    let small : n / 10 < 10 ^ w =
      (div-lt_iff_lt-mul {k = 10} {x = n} {y = 10 ^ w} (omega arith)).1 (rw (pow-suc 10 w) at h) in
    parse_digits-append 0 (padded w (n / 10)) ((b'0' + n % 10) ∷ [])
    ∙ rw (parse_digits-padded w (n / 10) small (omega arith)) (last_digit n k)

length-padded : (w n : ℕ) → length (padded w n) ≡ w
unfolding padded
length-padded zero n = refl
length-padded (suc w) n =
    omega
      (arith, length-append (padded w (n / 10)) ((b'0' + n % 10) ∷ []), length-padded w (n / 10))

-- The order of bytes on texts of one length, by the last byte.
bytes_lt-append :
    (a b : Bytes) (c d : ℕ)
    → length a ≡ length b
    → bytes_lt (a ++ c ∷ []) (b ++ d ∷ [])
      ≡ (if bytes_lt a b then true else if bytes_lt b a then false else ltb c d)
unfolding bytes_lt
bytes_lt-append [] [] c d h = ground arith
bytes_lt-append [] (y ∷ b) c d h = absurd (omega arith)
bytes_lt-append (x ∷ a) [] c d h = absurd (omega arith)
bytes_lt-append (x ∷ a) (y ∷ b) c d h = ground (arith, bytes_lt-append a b c d (omega arith))

bytes_lt-padded :
    (w n m : ℕ) → n < 10 ^ w → m < 10 ^ w → bytes_lt (padded w n) (padded w m) ≡ ltb n m
unfolding padded
bytes_lt-padded zero n m h k = unfold bytes_lt in ground arith
bytes_lt-padded (suc w) n m h k =
    let n' : n / 10 < 10 ^ w =
      (div-lt_iff_lt-mul {k = 10} {x = n} {y = 10 ^ w} (omega arith)).1 (rw (pow-suc 10 w) at h) in
    let m' : m / 10 < 10 ^ w =
      (div-lt_iff_lt-mul {k = 10} {x = m} {y = 10 ^ w} (omega arith)).1 (rw (pow-suc 10 w) at k) in
    bytes_lt-append (padded w (n / 10)) (padded w (m / 10)) (b'0' + n % 10) (b'0' + m % 10)
      (omega (arith, length-padded w (n / 10), length-padded w (m / 10)))
    ∙ rw (bytes_lt-padded w (n / 10) (m / 10) n' m', bytes_lt-padded w (m / 10) (n / 10) m' n')
        (ground arith)

bytes_lt-prefix : (p a b : Bytes) → bytes_lt (p ++ a) (p ++ b) ≡ bytes_lt a b
unfolding bytes_lt
bytes_lt-prefix [] a b = refl
bytes_lt-prefix (c ∷ p) a b = ground (arith, bytes_lt-prefix p a b)

All-snoc :
    (xs : Bytes) {c : ℕ} → All (λ d. b'+' < d) xs → b'+' < c → All (λ d. b'+' < d) (xs ++ c ∷ [])
All-snoc [] h p = (p, tt)
All-snoc (x ∷ xs) h p = (h.0, All-snoc xs h.1 p)

padded-digits : (w n : ℕ) → All (λ c. b'+' < c) (padded w n)
unfolding padded
padded-digits zero n = tt
padded-digits (suc w) n = All-snoc (padded w (n / 10)) (padded-digits w (n / 10)) (omega arith)

parse_u64_digits :
    (s : Bytes) → All (λ c. b'+' < c) s → 0 < length s → parse_u64 s ≡ parse_digits 0 s
unfolding parse_u64
parse_u64_digits [] h p = absurd (omega arith)
parse_u64_digits (c ∷ []) h p = refl
parse_u64_digits (c ∷ (d ∷ s)) h p =
    let other : nat_beq c b'+' ≡ false = ground (arith, h.0) in rw other refl

-- A sequence number of 64 bits is read back from the log key that is made for it.
pub parse_log_seq-log_key :
    (id : Bytes) (seq : ℕ) → seq < 2 ^ 64 → parse_log_seq (log_key id seq) id ≡ some seq
unfolding parse_log_seq log_key
parse_log_seq-log_key id seq h = rw (strip_prefix-append (log_prefix id) (padded 20 seq)) (
    parse_u64_digits (padded 20 seq) (padded-digits 20 seq) (omega (arith, length-padded 20 seq))
    ∙ parse_digits-padded 20 seq (omega arith) h)

-- Log keys of one object are ordered as their sequence numbers, where these have 64 bits.
pub log_key-lt :
    (id : Bytes) (a b : ℕ)
    → a < 2 ^ 64
    → b < 2 ^ 64
    → bytes_lt (log_key id a) (log_key id b) ≡ ltb a b
unfolding log_key
log_key-lt id a b h k =
    bytes_lt-prefix (log_prefix id) (padded 20 a) (padded 20 b)
    ∙ bytes_lt-padded 20 a b (omega arith) (omega arith)

-- A number that fits is read back from its digits.
pub parse_u64-padded : (w n : ℕ) → 0 < w → n < 10 ^ w → n < 2 ^ 64 → parse_u64 (padded w n) ≡ some n
parse_u64-padded w n p h k =
    parse_u64_digits (padded w n) (padded-digits w n) (omega (arith, length-padded w n))
    ∙ parse_digits-padded w n h k
