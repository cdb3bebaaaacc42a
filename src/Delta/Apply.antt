-- ===== src/Delta/Apply.antt =====
-- What the loop of delta.rs, `apply`, does to a file image, one page at a time.
use fafo.Prelude.{
  ℕ, zero, suc, ◌+◌, ◌-◌, ◌*◌, ◌≤◌, ◌<◌, ◌≡◌, refl, ap, List, [], ◌∷◌, ◌++◌, arith, lt→ltb, length,
  take, drop, length-append, length-take, length-replicate, take-append, replicate, min,
}
use native.Mathlib.Nat.{zero-add, suc-add, sub-zero}
use fafo.Prelude.Bytes.{Bytes}
use fafo.Delta.{resize, write_page}

pub length-resize : (n : ℕ) (file : Bytes) → length (resize n file) ≡ n
unfolding resize
length-resize n file = omega (
  arith,
  length-append (take n file) (replicate (n - length file) 0),
  length-take n file,
  length-replicate {A = ℕ} (n - length file) 0,
)

resize-nil : (n : ℕ) → resize n [] ≡ replicate n 0
unfolding resize
resize-nil zero = refl
resize-nil (suc n) = rw (sub-zero (suc n)) refl

drop-replicate : (k n : ℕ) → drop k (replicate n 0) ≡ replicate {A = ℕ} (n - k) 0
drop-replicate zero n = rw (sub-zero n) refl
drop-replicate (suc k) zero = let e : 0 - suc k ≡ 0 = omega arith in rw e refl
drop-replicate (suc k) (suc n) =
    let e : suc n - suc k ≡ n - k = omega arith in rw e (drop-replicate k n)

drop-add : {A : Type 0} (xs ys : List A) (n : ℕ) → drop (length xs + n) (xs ++ ys) ≡ drop n ys
drop-add [] ys n = rw (zero-add n) refl
drop-add (x ∷ xs) ys n = rw (suc-add (length xs) n) (drop-add xs ys n)

pub take_all : {A : Type 0} (n : ℕ) (xs : List A) → length xs ≤ n → take n xs ≡ xs
take_all zero [] h = refl
take_all zero (x ∷ xs) h = absurd (omega arith)
take_all (suc n) [] h = refl
take_all (suc n) (x ∷ xs) h = ap (λ l. x ∷ l) (take_all n xs (omega arith))

-- Cutting off the front of a resized file.
pub drop-resize :
    (k n : ℕ) (file : Bytes) → k ≤ n → drop k (resize n file) ≡ resize (n - k) (drop k file)
unfolding resize
drop-resize zero n file h = rw (sub-zero n) refl
drop-resize (suc k) zero file h = absurd (omega arith)
drop-resize (suc k) (suc n) [] h =
    let e : suc n - suc k ≡ n - k = omega arith in
    rw (e, resize-nil (n - k)) (unfold resize in rw (sub-zero (suc n)) (drop-replicate k n))
drop-resize (suc k) (suc n) (b ∷ file) h =
    let e : suc n - suc (length file) ≡ n - length file = omega arith in
    let f : suc n - suc k ≡ n - k = omega arith in rw (e, f) (drop-resize k n file (omega arith))

pub resize-zero : (file : Bytes) → resize 0 file ≡ []
unfolding resize
resize-zero file = let e : 0 - length file ≡ 0 = omega arith in rw e refl

-- A front that the file has is kept.
pub resize-append :
    (n : ℕ) (front file : Bytes)
    → length front ≤ n
    → resize n (front ++ file) ≡ front ++ resize (n - length front) file
unfolding resize
resize-append n [] file h = rw (sub-zero n) refl
resize-append zero (b ∷ front) file h = absurd (omega arith)
resize-append (suc n) (b ∷ front) file h =
    let e : suc n - suc (length (front ++ file)) ≡ n - length (front ++ file) = omega arith in
    let f : suc n - suc (length front) ≡ n - length front = omega arith in
    rw (e, f) (ap (λ l. b ∷ l) (resize-append n front file (omega arith)))

-- A page that starts where the finished part ends, and fits, replaces what stood there.
pub write_page-append :
    (ps i : ℕ) (done page rest : Bytes)
    → length done ≡ i * ps
    → 0 < length rest
    → length page ≤ length rest
    → write_page ps (done ++ rest) (i, page) ≡ done ++ (page ++ drop (length page) rest)
unfolding write_page
write_page-append ps i done page rest at h fits =
    let whole : length (done ++ rest) ≡ length done + length rest = length-append done rest in
    let end : min (length done + length page) (length (done ++ rest)) ≡ length done + length page =
      omega (arith, whole) in
    let size : length done + length page - length done ≡ length page = omega arith in
    rw
      (
        ← at,
        lt→ltb (length done) (length (done ++ rest)) (omega (arith, whole)),
        end,
        size,
        take-append done rest,
        take_all (length page) page (omega arith),
        drop-add done rest (length page),
      )
      refl
