-- ===== src/Prelude/Bytes.antt =====
-- Bytes, and text as its bytes: constants, prefixes and suffixes, as `str` has them.
use Prim.Native.Nat.{ℕ, ◌<◌}
use Prim.Native.Char.{code}
use Prim.Native.String.{String}
use mathlib.Core.Path.{◌≡◌, refl}
use mathlib.Core.Logic.{◌≢◌, ◌↔◌, inl, inr}
use mathlib.Core.Bool.{Bool, true, false}
use mathlib.Core.List.{List, [], ◌∷◌, ◌++◌}
use mathlib.Core.Option.{Option, none, some}
use native.Mathlib.Omega.{arith}
use fafo.Prelude.Tests.{
  Eq, nat_eq, list_beq, list_beq_iff, nat_beq, nat_beq_iff, Bool-cases, Option-cases, if◌then◌else◌,
}
use fafo.Prelude.Lists.{All}

abbrev pub Bytes : Type 0
Bytes = List ℕ

-- The bytes of an ASCII literal.
abbrev pub codes : String → Bytes
codes String.[] = []
codes (String.◌∷◌ c s) = code c ∷ codes s

-- `==` of byte strings.
unfoldable pub bytes_beq : Bytes → Bytes → Bool
bytes_beq = list_beq

pub bytes_beq_iff : (a b : Bytes) → (bytes_beq a b ≡ true) ↔ (a ≡ b)
unfolding bytes_beq
bytes_beq_iff = list_beq_iff

pub bytes_beq_refl : (a : Bytes) → bytes_beq a a ≡ true
bytes_beq_refl a = (bytes_beq_iff a a).1 refl

instance abbrev pub bytes_eq : Eq Bytes
bytes_eq = record { eqb = bytes_beq; eqb_iff = bytes_beq_iff }

abbrev pub IsByte : ℕ → Type 0
IsByte b = b < 256

-- `s.strip_prefix(p)`
abbrev pub strip_prefix : Bytes → Bytes → Option Bytes
strip_prefix [] s = some s
strip_prefix (c ∷ p) [] = none
strip_prefix (c ∷ p) (d ∷ s) = if nat_beq c d then strip_prefix p s else none

-- `s.starts_with(p)`
abbrev pub starts_with : Bytes → Bytes → Bool
starts_with [] s = true
starts_with (c ∷ p) [] = false
starts_with (c ∷ p) (d ∷ s) = if nat_beq c d then starts_with p s else false

pub strip_prefix-append : (p s : Bytes) → strip_prefix p (p ++ s) ≡ some s
strip_prefix-append [] s = refl
strip_prefix-append (c ∷ p) s = ground (arith, strip_prefix-append p s)

pub strip_prefix_sound : (p s : Bytes) {r : Bytes} → strip_prefix p s ≡ some r → s ≡ p ++ r
strip_prefix_sound [] s h = ground arith
strip_prefix_sound (c ∷ p) [] h = ground arith
strip_prefix_sound (c ∷ p) (d ∷ s) {r} h =
    ground (arith, nat_beq_iff c d, strip_prefix_sound p s {r = r})

pub starts_with-append : (p s : Bytes) → starts_with p (p ++ s) ≡ true
starts_with-append [] s = refl
starts_with-append (c ∷ p) s = ground (arith, starts_with-append p s)

pub starts_with_sound : (p s : Bytes) → starts_with p s ≡ true → (r : Bytes) × (s ≡ p ++ r)
starts_with_sound [] s h = (s, refl)
starts_with_sound (c ∷ p) [] h = ground arith
starts_with_sound (c ∷ p) (d ∷ s) h = elim (Bool-cases (nat_beq c d)) [
  | inl e ↦
      let (r, q) = starts_with_sound p s (ground arith) in (r, ground (arith, nat_beq_iff c d))
  | inr e ↦ absurd (ground arith)
]

-- `s.strip_suffix(c)` for one character.
abbrev pub strip_suffix_byte : ℕ → Bytes → Option Bytes
strip_suffix_byte c [] = none
strip_suffix_byte c (d ∷ []) = if nat_beq c d then some [] else none
strip_suffix_byte c (d ∷ (e ∷ s)) = elim (strip_suffix_byte c (e ∷ s)) [
  | none ↦ none
  | some r ↦ some (d ∷ r)
]

-- `s.strip_suffix(p)`
unfoldable pub strip_suffix : Bytes → Bytes → Option Bytes
unfolding bytes_beq
strip_suffix p [] = if bytes_beq [] p then some [] else none
strip_suffix p (c ∷ s) =
    let rest = strip_suffix p s in
    if bytes_beq (c ∷ s) p then some [] else elim rest [ none ↦ none | some r ↦ some (c ∷ r) ]

-- `s.split_once(c)` for one character.
abbrev pub split_once : ℕ → Bytes → Option (Bytes × Bytes)
split_once c [] = none
split_once c (d ∷ s) =
    let rest = split_once c s in
    if nat_beq c d then some ([], s) else elim rest [ none ↦ none | some (a, b) ↦ some (d ∷ a, b) ]

pub strip_suffix_byte-append : (c : ℕ) (s : Bytes) → strip_suffix_byte c (s ++ c ∷ []) ≡ some s
strip_suffix_byte-append c [] = ground arith
strip_suffix_byte-append c (d ∷ []) = ground arith
strip_suffix_byte-append c (d ∷ (e ∷ s)) = rw (strip_suffix_byte-append c (e ∷ s)) refl

pub strip_suffix_byte_sound :
    (c : ℕ) (s : Bytes) {r : Bytes} → strip_suffix_byte c s ≡ some r → s ≡ r ++ c ∷ []
strip_suffix_byte_sound c [] h = ground arith
strip_suffix_byte_sound c (d ∷ []) h = ground (arith, nat_beq_iff c d)
strip_suffix_byte_sound c (d ∷ (e ∷ s)) {r} h = elim (Option-cases (strip_suffix_byte c (e ∷ s))) [
  | inl n ↦ absurd (ground arith)
  | inr (q, p) ↦ ground (arith, strip_suffix_byte_sound c (e ∷ s) p)
]

pub split_once-append :
    (c : ℕ) (a b : Bytes) → All (λ d. d ≢ c) a → split_once c (a ++ c ∷ b) ≡ some (a, b)
split_once-append c [] b h = ground arith
split_once-append c (d ∷ a) b h = ground (arith, split_once-append c a b h.1)

pub split_once_sound :
    (c : ℕ) (s : Bytes) {a b : Bytes} → split_once c s ≡ some (a, b) → s ≡ a ++ c ∷ b
split_once_sound c [] h = ground arith
split_once_sound c (d ∷ s) {a} {b} h = elim (Option-cases (split_once c s)) [
  | inl n ↦ ground (arith, nat_beq_iff c d)
  | inr ((p, q), e) ↦ ground (arith, nat_beq_iff c d, split_once_sound c s e)
]
