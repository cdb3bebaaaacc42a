-- ===== src/Delta/Diff.antt =====
-- A boat's delta brings the last shipped image to the new one: `diff`, then `apply`.
use mathlib.Core.List.{append_assoc}
use native.Mathlib.Decide.{dec_le}
use fafo.Prelude.{
  ℕ, pred, zero, suc, ◌+◌, ◌-◌, ◌*◌, ◌%◌, ◌^◌, ◌≤◌, ◌<◌, ◌≡◌, refl, sym, ap, ◌∙◌, false, none, some,
  List, [], ◌∷◌, ◌++◌, map, arith, nat_beq_iff, length, take, drop, length-append, length-drop,
  length-take, take-append-drop, Bool-cases, inl, inr, get_elem?,
}
use fafo.Prelude.Bytes.{Bytes}
use fafo.Delta.{
  resize, write_pages, apply, chunks_from, chunks, differs, manifest_of, changed_pages, diff,
  page_size,
}
use fafo.Delta.Apply.{length-resize, drop-resize, resize-append, resize-zero, write_page-append}

-- What stands after the first page, at the new length.
shift_rest :
    (ps : ℕ) (old new : Bytes)
    → drop (length (take ps new)) (resize (length new) old)
      ≡ resize (length (drop ps new)) (drop ps old)
shift_rest ps old new = elim (dec_le ps (length new)) [
  | yes p ↦
      let front : length (take ps new) ≡ ps = omega (arith, length-take ps new) in
      rw (front, length-drop ps new) (drop-resize ps (length new) old p)
  | no n ↦
      let front : length (take ps new) ≡ length new = omega (arith, length-take ps new) in
      let rest : length (drop ps new) ≡ 0 = omega (arith, length-drop ps new) in
      let none_left : length new - length new ≡ 0 = omega arith in
      rw (front, rest, resize-zero (drop ps old))
        (drop-resize (length new) (length new) old (omega arith)
          ∙ rw none_left (resize-zero (drop (length new) old)))
]

-- A page that both images have stands where it is to stand.
keep_page :
    (ps : ℕ) (old new : Bytes)
    → take ps old ≡ take ps new
    → resize (length new) old ≡ take ps new ++ resize (length (drop ps new)) (drop ps old)
keep_page ps old new e =
    let left : length new - length (take ps new) ≡ length (drop ps new) =
      omega (arith, length-take ps new, length-drop ps new) in
    ap (λ f. resize (length new) f) (sym (take-append-drop ps old))
    ∙ rw e (
        resize-append (length new) (take ps new) (drop ps old) (omega (arith, length-take ps new))
        ∙ rw left refl)

drop-nil : (n : ℕ) → drop {A = ℕ} n [] ≡ []
drop-nil zero = refl
drop-nil (suc n) = refl

chunks_from-zero : (n : ℕ) (file : Bytes) (i : ℕ) → get_elem? (chunks_from 0 n file) i ≡ none
unfolding chunks_from
chunks_from-zero n [] i = refl
chunks_from-zero n (b ∷ file) i = refl

module _ (hash_page : Bytes → ℕ) where
  -- No two different pages at one index have one hash.
  abbrev pub NoCollision : List Bytes → List Bytes → Type 0
  NoCollision old new =
      (i : ℕ) (c d : Bytes)
      → get_elem? old i ≡ some c
      → get_elem? new i ≡ some d
      → hash_page c ≡ hash_page d
      → c ≡ d

  -- The hash that the manifest has at this page, and the pages after it.
  abbrev Known : List ℕ → ℕ → ℕ → ℕ → Bytes → Type 0
  Known hs i fo ps old =
      (j : ℕ) → get_elem? hs (i + j) ≡ get_elem? (map hash_page (chunks_from fo ps old)) j

  -- A page that the test does not ship is the page of the old image.
  unchanged :
      (fo ps : ℕ) (old c : Bytes)
      → length old ≤ fo
      → ((d : Bytes)
          → get_elem? (chunks_from fo ps old) 0 ≡ some d
          → hash_page d ≡ hash_page c
          → d ≡ c)
      → differs (get_elem? (map hash_page (chunks_from fo ps old)) 0) (hash_page c) ≡ false
      → take ps old ≡ c
  unfolding chunks_from
  unchanged fo ps [] c h distinct e = cc
  unchanged zero ps (o ∷ old) c h distinct e = absurd (omega arith)
  unchanged (suc fo) ps (o ∷ old) c h distinct e =
      distinct _ refl (ground (arith, nat_beq_iff (hash_page (take ps (o ∷ old))) (hash_page c)))

  Known-rest :
      (hs : List ℕ) (i fo ps : ℕ) (old : Bytes)
      → length old ≤ fo
      → Known hs i fo ps old
      → Known hs (i + 1) (pred fo) ps (drop ps old)
  unfolding chunks_from
  Known-rest hs i fo ps [] h k j =
      let e : i + 1 + j ≡ i + suc j = omega arith in rw (e, drop-nil ps) (k (suc j))
  Known-rest hs i zero ps (o ∷ old) h k j = absurd (omega arith)
  Known-rest hs i (suc fo) ps (o ∷ old) h k j =
      let e : i + 1 + j ≡ i + suc j = omega arith in rw e (k (suc j))

  distinct_rest :
      (fuel fo ps : ℕ) (old : Bytes) (b : ℕ) (new : Bytes)
      → NoCollision (chunks_from fo ps old) (chunks_from (suc fuel) ps (b ∷ new))
      → NoCollision
          (chunks_from (pred fo) ps (drop ps old))
          (chunks_from fuel ps (drop ps (b ∷ new)))
  unfolding chunks_from
  distinct_rest fuel fo ps [] b new h = λ i c d p q r. cc (rw (drop-nil ps) at p)
  distinct_rest fuel zero ps (o ∷ old) b new h =
      λ i c d p q r. cc (p, chunks_from-zero ps (drop ps (o ∷ old)) i)
  distinct_rest fuel (suc fo) ps (o ∷ old) b new h = λ i. h (suc i)

  loop :
      (fuel fo ps i : ℕ) (hs : List ℕ) (done old new : Bytes)
      → 0 < ps
      → length new ≤ fuel
      → length old ≤ fo
      → (0 < length new → length done ≡ i * ps)
      → Known hs i fo ps old
      → NoCollision (chunks_from fo ps old) (chunks_from fuel ps new)
      → i + length (chunks_from fuel ps new) ≤ 2 ^ 32
      → write_pages ps
          (done ++ resize (length new) old)
          (changed_pages hash_page hs i (chunks_from fuel ps new))
        ≡ done ++ new
  unfolding write_pages changed_pages chunks_from
  loop fuel fo ps i hs done old [] hps hn ho at k distinct small = rw (resize-zero old) refl
  loop zero fo ps i hs done old (b ∷ new) hps hn ho at k distinct small = absurd (omega arith)
  loop (suc fuel) fo ps i hs done old (b ∷ new) hps hn ho at k distinct small =
      let page = take ps (b ∷ new) in
      let left = drop ps (b ∷ new) in
      let size : length page + length left ≡ length (b ∷ new) =
        omega (arith, length-take ps (b ∷ new), length-drop ps (b ∷ new)) in
      let more : write_pages ps ((done ++ page) ++ resize (length left) (drop ps old))
            (changed_pages hash_page hs (i + 1) (chunks_from fuel ps left))
          ≡ (done ++ page) ++ left =
        loop fuel (pred fo) ps (i + 1) hs (done ++ page) (drop ps old) left hps
          (omega (arith, length-drop ps (b ∷ new))) (omega (arith, length-drop ps old))
          (λ p.
            omega
              (arith, p, at (omega arith), size, length-append done page, length-take ps (b ∷ new)))
          (Known-rest hs i fo ps old ho k) (distinct_rest fuel fo ps old b new distinct)
          (omega (arith, small)) in
      let whole : (done ++ page) ++ left ≡ done ++ (b ∷ new) =
        append_assoc done page left ∙ ap (λ l. done ++ l) (take-append-drop ps (b ∷ new)) in
      let here : get_elem? hs i ≡ get_elem? (map hash_page (chunks_from fo ps old)) 0 =
        let e : i + 0 ≡ i = omega arith in rw e at (k 0) in
      let rest = resize (length (b ∷ new)) old in
      elim (Bool-cases (differs (get_elem? hs i) (hash_page page))) [
        | inl shipped ↦
            let small_index : i % 2 ^ 32 ≡ i = omega (arith, small) in
            rw
              (
                shipped,
                small_index,
                write_pages,
                write_page-append ps i done page rest (at (omega arith))
                    (omega (arith, length-resize (length (b ∷ new)) old))
                    (omega (arith, size, length-resize (length (b ∷ new)) old)),
                shift_rest ps old (b ∷ new),
                ← append_assoc done page (resize (length left) (drop ps old)),
              )
              (more ∙ whole)
        | inr kept ↦
            rw
              (
                kept,
                keep_page ps old (b ∷ new) (
                    unchanged fo ps old page ho (λ d p q. distinct 0 d page p refl q)
                      (rw here at kept)),
                ← append_assoc done page (resize (length left) (drop ps old)),
              )
              (more ∙ whole)
      ]

  -- Applying to the old image the delta that `diff` finds against the old image's manifest gives
  -- the new image, byte for byte, whether the file grew or shrank, and leaves the manifest of the
  -- new image at the old page size. The page size is not 0 and fits its 32 bits, no two different
  -- pages at one index have one hash, and there are at most 2^32 pages.
  pub apply-diff :
      (old new : Bytes) (chain_len : ℕ)
      → 0 < page_size old
      → page_size old < 2 ^ 32
      → NoCollision (chunks (page_size old) old) (chunks (page_size old) new)
      → length (chunks (page_size old) new) ≤ 2 ^ 32
      → let (manifest, delta) = diff hash_page (manifest_of hash_page old chain_len) new in
        (apply old delta ≡ new)
        × (manifest.hashes ≡ map hash_page (chunks (page_size old) new))
        × (manifest.page_size ≡ page_size old)
  unfolding diff manifest_of apply
  apply-diff old new chain_len pos fits distinct count =
      let ps = page_size old in
      let small : ps % 2 ^ 32 ≡ ps = omega (arith, fits) in
      (
        rw small (
            loop (length new) (length old) ps 0 (map hash_page (chunks ps old)) [] old new pos
              (omega arith) (omega arith) (λ _. omega arith)
              (λ j. let e : 0 + j ≡ j = omega arith in rw e refl) distinct (omega (arith, count))),
        refl,
        refl,
      )
