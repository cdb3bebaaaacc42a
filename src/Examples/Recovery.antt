-- ===== src/Examples/Recovery.antt =====
-- The theorems on activation and recovery at concrete inputs.
use fafo.Prelude.{
  ℕ, zero, suc, ◌+◌, ◌≤◌, ◌<◌, ◌≡◌, refl, sym, ap, ◌∙◌, Bool, true, false, Option, none, some, List,
  [], ◌∷◌, ◌++◌, arith, length, replicate, subst, some_inj, All,
}
use fafo.Prelude.Bytes.{Bytes, codes, strip_suffix}
use fafo.Store as Store
use fafo.Store.{MemInner, empty_store}
use fafo.Objlog.Io.{run}
use fafo.Delta.{Delta, change_counter, encode}
use fafo.Delta.Keys.{delta_key, delta_prefix, parse_delta_counter}
use fafo.Worker.Transfer.{max_option}
use fafo.Worker.Ship.{object_key, last_segment}
use fafo.Worker.Recovery.{promote_staged}
use fafo.Worker.Recovery.Promotion.{base_counter, promote_staged-max}
use fafo.Activation.{fetch_image}
use fafo.Activation.Chain.{chain, UpToCounter}
use fafo.Activation.Cache.{fetch_image-cache, caught_up}

abbrev doc : Bytes
doc = codes "doc"

-- Images of 100 bytes with the change counters 0 and 1.
abbrev old_image : Bytes
old_image = replicate 100 0

abbrev new_image : Bytes
new_image = replicate 27 0 ++ 1 ∷ replicate 72 0

abbrev staged : Bytes
staged = codes "staging/n1-0/doc.snap"

staged_name : strip_suffix (codes ".snap") (last_segment staged) ≡ some doc
unfolding strip_suffix last_segment
staged_name = refl

abbrev based : MemInner
based = Store.put empty_store (object_key doc) old_image

promote_staged-max_example :
    base_counter (run (promote_staged staged new_image) [] based).1 doc
    ≡ max_option (base_counter based doc) (some (change_counter new_image))
promote_staged-max_example = promote_staged-max based staged doc new_image staged_name (omega arith)

abbrev step : Delta
step = record { counter = 1; file_len = 100; page_size = 4096; pages = (0, new_image) ∷ [] }

abbrev store : MemInner
store = Store.put (Store.put empty_store (object_key doc) old_image) (delta_key doc 1) (encode step)

base_there : Store.get store (object_key doc) ≡ some old_image
unfolding Store.get fafo.Prelude.lookup Store.put fafo.Prelude.Bytes.bytes_beq delta_key
    Store.bytes_lt
base_there = refl

one_delta : Store.list store (delta_prefix doc) ≡ delta_key doc 1 ∷ []
unfolding Store.list Store.put fafo.Prelude.Bytes.bytes_beq delta_key Store.bytes_lt
    fafo.Objlog.Keys.padded
one_delta = refl

counter_one : parse_delta_counter (delta_key doc 1) doc ≡ some 1
unfolding parse_delta_counter delta_key fafo.Objlog.Keys.parse_u64 fafo.Objlog.Keys.padded
counter_one = refl

new_counter : change_counter new_image ≡ 1
unfolding change_counter fafo.Prelude.Words.from_be_bytes
new_counter = refl

reached : UpToCounter doc (change_counter new_image) (delta_key doc 1 ∷ [])
reached = (
  λ c e.
      subst (λ n. c ≤ n) (sym new_counter)
        (subst (λ x. x ≤ 1) (some_inj (sym counter_one ∙ e)) (omega arith)),
  tt,
)

chain_made :
    chain store doc
      (change_counter old_image)
      (change_counter old_image)
      (delta_key doc 1 ∷ [])
      old_image
      0
    ≡ some (new_image, 1)
unfolding run fafo.Activation.apply_chain parse_delta_counter delta_key fafo.Objlog.Keys.parse_u64
    fafo.Objlog.Keys.padded change_counter fafo.Prelude.Words.from_be_bytes fafo.Objlog.Io.◌>>=◌
    Store.get fafo.Prelude.lookup Store.effects Store.put fafo.Prelude.Bytes.bytes_beq
    Store.bytes_lt fafo.Delta.decode encode fafo.Activation.apply_blob delta_prefix
    fafo.Delta.Keys.parse_u32 fafo.Delta.apply fafo.Delta.resize fafo.Delta.write_page
    fafo.Delta.write_pages fafo.Prelude.insert fafo.Prelude.Words.from_le_bytes
    fafo.Prelude.Words.to_le_bytes Store.bump Store.high_water Store.ordered_insert
chain_made = refl

fetch_image-cache_example :
    (run (fetch_image false doc (some new_image)) [] store).0
    ≡ (run (fetch_image false doc none) [] store).0
fetch_image-cache_example =
    fetch_image-cache store doc new_image old_image base_there (omega arith)
      (caught_up (delta_key doc 1 ∷ []) [] 1 one_delta reached tt chain_made)
