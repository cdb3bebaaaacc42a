-- ===== src/Examples/Access.antt =====
-- The theorems on grants.rs at concrete inputs.
use fafo.Prelude.{Any, ◌≡◌, ◌↔◌, refl, true, none, some, [], ◌∷◌, ◌++◌, arith}
use fafo.Prelude.Bytes.{codes}
use fafo.Grants.Tokens.{Grant, Capability, Codec, mint, IsAuthentic, verify-mint, verify_sound}
use fafo.Grants.Verbs.{allows, allows_iff, Covers, Matches}

abbrev reader : Capability
reader = record {
  grants = record { objects = codes "doc-*"; verbs = codes "read" ∷ codes "write" ∷ [] } ∷ [];
  exp = 100;
  sub = none;
}

-- One JSON text, for the one capability, and a MAC that puts the secret before the text.
abbrev toy : Codec
toy = record {
  hmac = λ secret text. secret ++ text;
  to_vec = λ cap. codes "{}";
  from_slice = λ text. some reader;
}

verify_sound_example : IsAuthentic toy (codes "s") (mint toy (codes "s") reader) 50 reader
verify_sound_example = verify_sound toy (codes "s") (mint toy (codes "s") reader) 50 (
    verify-mint toy (codes "s") reader 50 refl (omega arith, (omega arith, tt))
      (omega arith, (omega arith, (omega arith, tt))))

allows_iff_example :
    (allows reader (codes "doc-1") (codes "ddl") ≡ true)
    ↔ Any
        (λ (g : Grant).
          Any (λ v. Covers v (codes "ddl")) g.verbs × Matches g.objects (codes "doc-1"))
        reader.grants
allows_iff_example = allows_iff reader (codes "doc-1") (codes "ddl")
