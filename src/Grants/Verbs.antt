-- ===== src/Grants/Verbs.antt =====
-- grants.rs, `pattern_matches`, `verb_covered` and `allows`.
use fafo.Prelude.{
  ◌≡◌, refl, Any, any_iff, any-or, and_iff, Bool, true, false, ◌&&◌, ◌||◌, ◌⊎◌, ◌↔◌, inl, inr, none,
  some, List, [], ◌∷◌, ◌++◌, arith, if◌then◌else◌, any, Option-cases,
}
use fafo.Prelude.Bytes.{
  Bytes, bytes_beq, bytes_beq_iff, codes, strip_suffix_byte, strip_suffix_byte-append,
  strip_suffix_byte_sound, starts_with, starts_with-append, starts_with_sound,
}
use fafo.Grants.Tokens.{Grant, Capability}

abbrev pub insert_verb : Bytes
insert_verb = codes "insert"

abbrev pub update_verb : Bytes
update_verb = codes "update"

abbrev pub delete_verb : Bytes
delete_verb = codes "delete"

abbrev pub ddl_verb : Bytes
ddl_verb = codes "ddl"

abbrev pub write_verb : Bytes
write_verb = codes "write"

unfoldable pub pattern_matches : Bytes → Bytes → Bool
pattern_matches pattern object = elim (strip_suffix_byte b'*' pattern) [
  | some prefix ↦ starts_with prefix object
  | none ↦ bytes_beq pattern object
]

-- The closure `has` of `verb_covered`.
abbrev pub has : List Bytes → Bytes → Bool
has granted v = any (λ g. bytes_beq g v) granted

-- The verbs that "write" is shorthand for.
abbrev pub write_verbs : List Bytes
write_verbs = insert_verb ∷ update_verb ∷ delete_verb ∷ ddl_verb ∷ []

unfoldable pub is_write_verb : Bytes → Bool
is_write_verb v = any (λ w. bytes_beq v w) write_verbs

unfoldable pub verb_covered : List Bytes → Bytes → Bool
verb_covered granted asked =
    if is_write_verb asked
    then has granted asked || has granted write_verb
    else if bytes_beq asked write_verb
    then any (λ v. has granted v) (write_verb ∷ write_verbs)
    else has granted asked

unfoldable pub allows : Capability → Bytes → Bytes → Bool
allows cap object verb =
    any (λ g. verb_covered g.verbs verb && pattern_matches g.objects object) cap.grants

-- One granted verb covers an asked one: it is the same, or it is the shorthand for a write verb, or
-- it is a write verb where some write ability is asked for.
abbrev pub Covers : Bytes → Bytes → Type 0
Covers v asked =
    (v ≡ asked)
    ⊎ (v ≡ write_verb) × (is_write_verb asked ≡ true)
    ⊎ (is_write_verb v ≡ true) × (asked ≡ write_verb)

-- A pattern is the object's name, or a prefix of it with one star at the end.
abbrev pub Matches : Bytes → Bytes → Type 0
Matches pattern object =
    ((strip_suffix_byte b'*' pattern ≡ none) × (pattern ≡ object))
    ⊎ ((pre : Bytes) × (rest : Bytes) × (pattern ≡ pre ++ b'*' ∷ []) × (object ≡ pre ++ rest))

pattern_matches_iff :
    (pattern object : Bytes) → (pattern_matches pattern object ≡ true) ↔ Matches pattern object
unfolding pattern_matches
pattern_matches_iff pattern object = (forward, backward)
  where
    forward : pattern_matches pattern object ≡ true → Matches pattern object
    forward h = elim (Option-cases (strip_suffix_byte b'*' pattern)) [
      | inl n ↦ inl (n, (bytes_beq_iff pattern object).0 (rw (n, pattern_matches) at h))
      | inr (pre, e) ↦
          let (rest, q) = starts_with_sound pre object (rw (e, pattern_matches) at h) in
          inr (pre, rest, strip_suffix_byte_sound b'*' pattern e, q)
    ]

    backward : Matches pattern object → pattern_matches pattern object ≡ true
    backward (inl (n, q)) = rw (n, pattern_matches) ((bytes_beq_iff pattern object).1 q)
    backward (inr (pre, rest, p, q)) =
        rw (p, strip_suffix_byte-append b'*' pre, pattern_matches, q) (starts_with-append pre rest)

covers_one : Bytes → Bytes → Bool
covers_one v asked =
    if is_write_verb asked
    then bytes_beq v asked || bytes_beq v write_verb
    else if bytes_beq asked write_verb
    then any (λ w. bytes_beq v w) (write_verb ∷ write_verbs)
    else bytes_beq v asked

verb_covered-any :
    (granted : List Bytes) (asked : Bytes)
    → verb_covered granted asked ≡ any (λ v. covers_one v asked) granted
unfolding verb_covered covers_one
verb_covered-any [] asked = ground arith
verb_covered-any (v ∷ vs) asked = ground (
  arith,
  any-or (λ w. bytes_beq v w) (λ w. has vs w) (write_verb ∷ write_verbs),
  verb_covered-any vs asked,
)

is_write_verb_lem : (v : Bytes) → is_write_verb v ≡ any (λ w. bytes_beq v w) write_verbs
unfolding is_write_verb
is_write_verb_lem v = refl

is_write_verb-write_verb : is_write_verb write_verb ≡ false
unfolding is_write_verb bytes_beq
is_write_verb-write_verb = refl

covers_one_iff : (asked v : Bytes) → (covers_one v asked ≡ true) ↔ Covers v asked
unfolding covers_one
covers_one_iff asked v = ground (
  arith,
  is_write_verb_lem v,
  is_write_verb-write_verb,
  bytes_beq_iff v asked,
  bytes_beq_iff v write_verb,
  bytes_beq_iff asked write_verb,
)

verb_covered_iff :
    (granted : List Bytes) (asked : Bytes)
    → (verb_covered granted asked ≡ true) ↔ Any (λ v. Covers v asked) granted
verb_covered_iff granted asked =
    rw (verb_covered-any granted asked)
      (any_iff (λ v. covers_one v asked) (λ v. Covers v asked) (covers_one_iff asked) granted)

-- A capability allows a verb on an object exactly when one grant of it has a pattern that matches
-- the object and a verb that covers the asked one: grants are not combined with one another.
pub allows_iff :
    (cap : Capability) (object verb : Bytes)
    → (allows cap object verb ≡ true)
      ↔ Any (λ g. Any (λ v. Covers v verb) g.verbs × Matches g.objects object) cap.grants
unfolding allows
allows_iff cap object verb = any_iff _ _ (λ g. grant_iff g) cap.grants
  where
    grant_iff :
        (g : Grant)
        → ((verb_covered g.verbs verb && pattern_matches g.objects object) ≡ true)
          ↔ (Any (λ v. Covers v verb) g.verbs × Matches g.objects object)
    grant_iff g = and_iff _ _ (verb_covered_iff g.verbs verb) (pattern_matches_iff g.objects object)
