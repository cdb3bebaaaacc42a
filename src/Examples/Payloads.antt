-- ===== src/Examples/Payloads.antt =====
-- The theorems on `ship_payload` at concrete inputs.
use fafo.Prelude.{◌≡◌, refl, false, some, [], ◌∷◌, arith, Map, lookup}
use fafo.Prelude.Bytes.{Bytes, codes, bytes_beq, bytes_eq}
use fafo.Delta.{Manifest, manifest_of, diff, page_size, chunks}
use fafo.Delta.Codec.{IsEncodable}
use fafo.Worker.Boats.{ship_payload}
use fafo.Worker.Boats.Payload.{Carries, ship_payload-Carries}
use fafo.Examples.Images.{old_file, new_file, sum, small_pages, no_collision, one_chunk}

-- The manifest of the old file, with a chain of two deltas.
abbrev manifests : Map Bytes Manifest
manifests = (codes "doc", manifest_of sum old_file 2) ∷ []

diff_fits : IsEncodable (diff sum (manifest_of sum old_file 2) new_file).1
unfolding diff manifest_of page_size chunks
diff_fits = record {
  counter_fits = omega arith;
  file_len_fits = omega arith;
  page_size_fits = omega arith;
  count_fits = omega arith;
  pages_fit = ((omega arith, omega arith), tt);
}

known_manifest : lookup (codes "doc") manifests ≡ some (manifest_of sum old_file 2)
unfolding lookup bytes_beq
known_manifest = refl

ship_payload-Carries_example :
    Carries old_file new_file (ship_payload sum false manifests (codes "doc") new_file).0
ship_payload-Carries_example =
    ship_payload-Carries sum false manifests (codes "doc") old_file new_file 2 known_manifest
      (rw small_pages (omega arith)) (rw small_pages (omega arith)) (rw small_pages no_collision)
      (rw (small_pages, one_chunk) (omega arith)) diff_fits
