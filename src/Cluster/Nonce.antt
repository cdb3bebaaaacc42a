-- ===== src/Cluster/Nonce.antt =====
-- cluster.rs, the nonce that `start` draws, which makes the boot's tag its own. A round of the loop
-- reads the version of the boot's key and swaps; in between other tasks may run, and each call may
-- fail. The store is one in memory; its `version` and `put_cas` are its own, or the defaults of the
-- trait.
pub mod Rising
use fafo.Prelude.{
  ℕ, zero, suc, ◌+◌, ◌%◌, ◌^◌, nat_beq, Bool, true, false, Option, none, some, List, [], ◌∷◌, ◌++◌,
  if◌then◌else◌,
}
use fafo.Prelude.Bytes.{Bytes, codes}
use fafo.Store.{MemInner, Call, effects, is_some, get, put}
use fafo.Objlog.Io.{Fault}
use fafo.Routing.Hash.{fnv1a}
use fafo.Cluster.Leases.{decimal}
use fafo.Worker.Polls.{hex_digits}

-- A round: what other tasks do before the read and before the swap, and how the two calls end.
pub record Round : Type 0 where
  pub before_read : List Call
  pub read_fails : Bool
  pub before_swap : List Call
  pub swap : Fault

-- With the rounds used up, no other task runs and nothing fails.
abbrev pub next_round : List Round → Round
next_round [] = record {
  before_read = [];
  read_fails = false;
  before_swap = [];
  swap = Fault.sound;
}
next_round (r ∷ rounds) = r

abbrev pub later_rounds : List Round → List Round
later_rounds [] = []
later_rounds (r ∷ rounds) = rounds

unfoldable pub address_hash : Bytes → Bytes
unfolding hex_digits
address_hash advertise = hex_digits 8 (fnv1a advertise % 2 ^ 32)

unfoldable pub boot_key : Bytes → Bytes
unfolding address_hash
boot_key advertise = codes "_boot/" ++ address_hash advertise

-- What follows the swap: its answer ends the loop, or the next round comes.
unfoldable pub swapped :
    (MemInner → ℕ × MemInner) → Fault → MemInner → Option ℕ × MemInner → ℕ × MemInner
swapped next Fault.sound s (some v, s') = (v, s')
swapped next Fault.sound s (none, s') = next s'
swapped next Fault.refused s r = next s
swapped next Fault.lost s (made, s') = next s'

-- The trait's default `version` and `put_cas`, which the stores on disk and on R2 have: present or
-- absent is all that a version tells. No other task is at work between the calls of the default
-- `put_cas`.
unfoldable pub default_version : MemInner → Bytes → ℕ
default_version s key = if is_some (get s key) then 1 else 0

unfoldable pub default_put_cas : MemInner → Bytes → ℕ → Bytes → Option ℕ × MemInner
unfolding default_version put
default_put_cas s key expected bytes =
    if nat_beq (default_version s key) expected
    then (some (default_version (put s key bytes) key), put s key bytes)
    else (none, s)

abbrev pub nonce_tries : ℕ
nonce_tries = 64

-- `version_of` and `swap_on` are the two methods of the store at hand.
module _ (version_of : MemInner → Bytes → ℕ)
    (swap_on : MemInner → Bytes → ℕ → Bytes → Option ℕ × MemInner) where
  unfoldable pub draw_within : ℕ → Bytes → Bytes → List Round → MemInner → ℕ × MemInner
  unfolding swapped
  draw_within zero key bytes rounds s = (0, s)
  draw_within (suc tries) key bytes rounds s =
      let r = next_round rounds in
      let s1 = effects s r.before_read in
      let v = if r.read_fails then 0 else version_of s1 key in
      let s2 = effects s1 r.before_swap in
      swapped (draw_within tries key bytes (later_rounds rounds)) r.swap s2 (swap_on s2 key v bytes)

  unfoldable pub draw_nonce : Bytes → List Round → MemInner → ℕ × MemInner
  unfolding boot_key draw_within
  draw_nonce advertise rounds s = draw_within nonce_tries (boot_key advertise) advertise rounds s

-- `node.tag`
unfoldable pub boot_tag : Bytes → ℕ → Bytes
unfolding address_hash decimal
boot_tag advertise nonce = address_hash advertise ++ codes "b" ++ decimal nonce
