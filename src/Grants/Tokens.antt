-- ===== src/Grants/Tokens.antt =====
-- grants.rs, `Grant`, `Capability`, `mint` and `verify`. HMAC-SHA256 and serde_json are parameters.
use fafo.Prelude.{
  ℕ, ◌<◌, ◌≡◌, refl, ap, ◌∙◌, Option, none, some, List, ◌∷◌, ◌++◌, arith, ltb, if◌then◌else◌, All,
}
use fafo.Prelude.Bytes.{
  Bytes, IsByte, bytes_beq, bytes_beq_iff, bytes_beq_refl, codes, strip_prefix, split_once,
  split_once-append, split_once_sound, strip_prefix_sound,
}
use fafo.Grants.Hex.{Panics, returned, panicked, hex, unhex, unhex-hex, hex-no_dot}

pub record Grant : Type 0 where
  pub objects : Bytes
  pub verbs : List Bytes

pub record Capability : Type 0 where
  pub grants : List Grant
  pub exp : ℕ
  pub sub : Option Bytes

-- The cryptography and the JSON that the source calls.
pub record Codec : Type 0 where
  pub hmac : Bytes → Bytes → Bytes
  pub to_vec : Capability → Bytes
  pub from_slice : Bytes → Option Capability

abbrev pub prefix : Bytes
prefix = codes "fafo1."

-- `?` on an `Option` that a function that may panic returns.
abbrev and_then {ℓ κ} :
    {A : Type ℓ} {B : Type κ} → Panics (Option A) → (A → Panics (Option B)) → Panics (Option B)
and_then (returned (some a)) f = f a
and_then (returned none) f = returned none
and_then panicked f = panicked

pub and_then-eq {ℓ κ} :
    {A : Type ℓ} {B : Type κ} (m : Panics (Option A)) (f : A → Panics (Option B)) {b : B}
    → and_then m f ≡ returned (some b)
    → (a : A) × (m ≡ returned (some a)) × (f a ≡ returned (some b))
and_then-eq (returned (some a)) f h = (a, refl, h)
and_then-eq (returned none) f h = cc
and_then-eq panicked f h = cc

module _ (c : Codec) where
  unfoldable pub mint : Bytes → Capability → Bytes
  mint secret cap =
      let payload = c.to_vec cap in prefix ++ (hex payload ++ (b'.' ∷ hex (c.hmac secret payload)))

  -- The check of the signature, the payload's shape and the expiry.
  admit : Bytes → ℕ → Bytes → Bytes → Option Capability
  admit secret now payload sig =
      if bytes_beq (c.hmac secret payload) sig
      then elim (c.from_slice payload) [
        | none ↦ none
        | some cap ↦ if ltb now cap.exp then some cap else none
      ]
      else none

  check_halves : Bytes → ℕ → Option (Bytes × Bytes) → Panics (Option Capability)
  check_halves secret now none = returned none
  check_halves secret now (some (payload_hex, sig_hex)) =
      and_then (unhex payload_hex)
        λ payload. and_then (unhex sig_hex) λ sig. returned (admit secret now payload sig)

  unfoldable pub verify : Bytes → Bytes → ℕ → Panics (Option Capability)
  unfolding check_halves admit
  verify secret token now = elim (strip_prefix prefix token) [
    | none ↦ returned none
    | some rest ↦ check_halves secret now (split_once b'.' rest)
  ]

  -- A minted token verifies under its secret to the capability it was minted for, before it
  -- expires and not after: where the JSON decoder inverts the encoder on this capability, and the
  -- encoder and the MAC return bytes.
  pub verify-mint :
      (secret : Bytes) (cap : Capability) (now : ℕ)
      → c.from_slice (c.to_vec cap) ≡ some cap
      → All IsByte (c.to_vec cap)
      → All IsByte (c.hmac secret (c.to_vec cap))
      → verify secret (mint secret cap) now ≡ returned (if ltb now cap.exp then some cap else none)
  unfolding verify mint
  verify-mint secret cap now decodes payload_bytes sig_bytes =
      let payload = c.to_vec cap in
      let sig = c.hmac secret payload in
      rw
        (
          split_once-append b'.' (hex payload) (hex sig) (hex-no_dot payload payload_bytes),
          unhex-hex payload payload_bytes,
          unhex-hex sig sig_bytes,
          bytes_beq_refl sig,
          decodes,
        )
        refl

  admit_sound :
      (secret : Bytes) (now : ℕ) (payload sig : Bytes) {a : Capability}
      → admit secret now payload sig ≡ some a
      → (c.hmac secret payload ≡ sig) × (c.from_slice payload ≡ some a) × (now < a.exp)
  unfolding admit
  admit_sound secret now payload sig h = ground (arith, bytes_beq_iff (c.hmac secret payload) sig)

  from_halves :
      (secret : Bytes) (now : ℕ) (o : Option (Bytes × Bytes)) {a : Capability}
      → check_halves secret now o ≡ returned (some a)
      → (h : Bytes × Bytes) × (o ≡ some h)
        × (check_halves secret now (some (h.0, h.1)) ≡ returned (some a))
  unfolding check_halves
  from_halves secret now none h = cc
  from_halves secret now (some (p, s)) h = ((p, s), refl, h)

  -- What a token that verifies consists of.
  pub record IsAuthentic (secret : Bytes) (token : Bytes) (now : ℕ) (cap : Capability)
      : Type 0 where
    pub payload_hex : Bytes
    pub sig_hex : Bytes
    pub payload : Bytes
    pub shape : token ≡ prefix ++ (payload_hex ++ (b'.' ∷ sig_hex))
    pub payload_decodes : unhex payload_hex ≡ returned (some payload)
    pub signed : unhex sig_hex ≡ returned (some (c.hmac secret payload))
    pub parsed : c.from_slice payload ≡ some cap
    pub fresh : now < cap.exp

  verify_strips :
      (secret token : Bytes) (now : ℕ) (o : Option Bytes) {a : Capability}
      → strip_prefix prefix token ≡ o
      → verify secret token now ≡ returned (some a)
      → (rest : Bytes) × (strip_prefix prefix token ≡ some rest)
        × (check_halves secret now (split_once b'.' rest) ≡ returned (some a))
  unfolding verify
  verify_strips secret token now none e h = cc (rw (e, verify) at h)
  verify_strips secret token now (some rest) e h = (rest, e, rw (e, verify) at h)

  -- A token is accepted only if it carries the MAC of its payload under the secret, the payload
  -- decodes to the capability that is returned, and that has not expired.
  pub verify_sound :
      (secret token : Bytes) (now : ℕ) {cap : Capability}
      → verify secret token now ≡ returned (some cap)
      → IsAuthentic secret token now cap
  unfolding verify
  verify_sound secret token now {cap} h =
      let (rest, stripped, checked) =
        verify_strips secret token now (strip_prefix prefix token) refl h in
      let ((ph, sh), split, halves) = from_halves secret now (split_once b'.' rest) checked in
      let (payload, decoded, more) = and_then-eq (unhex ph) _ halves in
      let (sig, sig_decoded, admitted) = and_then-eq (unhex sh) _ more in
      let (signed, parsed, fresh) = admit_sound secret now payload sig (ground arith) in
      record {
        payload_hex = ph;
        sig_hex = sh;
        payload = payload;
        shape =
            strip_prefix_sound prefix token stripped
            ∙ ap (λ r. prefix ++ r) (split_once_sound b'.' rest split);
        payload_decodes = decoded;
        signed = rw signed sig_decoded;
        parsed = parsed;
        fresh = fresh;
      }
