-- ===== src/Pool/Carve.antt =====
-- The writes to the pool as changes of its chunks: the header of a new block, the zeros over an old one, and what a
-- client writes into its block.
use mathlib.Core.List.{append_assoc}
use llos.Base.{
  ℕ, zero, suc, ◌+◌, ◌*◌, ◌≤◌, ◌≡◌, refl, sym, ap, ◌∙◌, arith, Option, none, some, List, [], ◌∷◌,
  ◌++◌, map, leb, ◌==◌, length, length-append, length-replicate, set, replicate, Bool-cases, inl,
  inr,
}
use llos.Pool.{is_header, header}
use llos.Pool.Chunks.{
  Chunk, free_word, block, flatten, AreChunks, free_run, first_fit, contents_of, carve, release,
}
use llos.Pool.Scans.{set-here, flatten-free_words}
use llos.Pool.Search.{contents_of-skip, AreChunks-skip}

abbrev place_or : Option ℕ → ℕ → ℕ
place_or none d = d
place_or (some pos) d = pos

pub set-carve :
    (words : ℕ) (cs : List Chunk) (pre : List ℕ) (pos : ℕ)
    → first_fit (words + 1) (length pre) cs ≡ some pos
    → set (pre ++ flatten cs) pos (header words) ≡ pre ++ flatten (carve words cs)
unfolding first_fit carve
set-carve words [] pre pos = λ e. ground (arith, e)
set-carve words (free_word w ∷ cs) pre pos =
    elim (Bool-cases (leb (words + 1) (suc (free_run cs)))) [
      | inl wide ↦
          let (whole, long) = contents_of-skip words cs (ground (arith, wide)) in
          rw wide (λ e.
            ap (λ i. set (pre ++ w ∷ flatten cs) i (header words)) (sym (ap (λ o. place_or o 0) e))
            ∙ set-here pre w (header words) (flatten cs)
            ∙ ap (λ n. pre ++ header n ∷ flatten cs) (sym long)
            ∙ ap (λ xs. pre ++ header (length (contents_of words cs)) ∷ xs) (sym whole))
      | inr narrow ↦ rw narrow (λ e.
          ap (λ ws. set ws pos (header words)) (sym (append_assoc pre (w ∷ []) (flatten cs)))
          ∙ set-carve words cs (pre ++ w ∷ []) pos
              (ap (λ n. first_fit (words + 1) n cs) (length-append pre (w ∷ [])) ∙ e)
          ∙ append_assoc pre (w ∷ []) (flatten (carve words cs)))
    ]
set-carve words (block contents ∷ cs) pre pos = λ e.
    let n = length contents in
    let there : length (pre ++ header n ∷ contents) ≡ length pre + (n + 1) =
      omega (arith, length-append pre (header n ∷ contents)) in
    ap (λ ws. set ws pos (header words)) (sym (append_assoc pre (header n ∷ contents) (flatten cs)))
    ∙ set-carve words cs (pre ++ header n ∷ contents) pos
        (ap (λ k. first_fit (words + 1) k cs) there ∙ e)
    ∙ append_assoc pre (header n ∷ contents) (flatten (carve words cs))

pub AreChunks-carve :
    (words : ℕ) (cs : List Chunk)
    → 1 ≤ words
    → words ≤ 0xffff
    → AreChunks cs
    → AreChunks (carve words cs)
unfolding carve
AreChunks-carve words [] low high all = all
AreChunks-carve words (free_word w ∷ cs) low high all =
    elim (Bool-cases (leb (words + 1) (suc (free_run cs)))) [
      | inl wide ↦
          let (_, long) = contents_of-skip words cs (ground (arith, wide)) in
          rw wide
            ((omega (arith, long, low), omega (arith, long, high)), AreChunks-skip words cs all.1)
      | inr narrow ↦ rw narrow (all.0, AreChunks-carve words cs low high all.1)
    ]
AreChunks-carve words (block contents ∷ cs) low high all =
    (all.0, AreChunks-carve words cs low high all.1)

pub length-carve :
    (words : ℕ) (cs : List Chunk) → length (flatten (carve words cs)) ≡ length (flatten cs)
unfolding carve
length-carve words [] = refl
length-carve words (free_word w ∷ cs) = elim (Bool-cases (leb (words + 1) (suc (free_run cs)))) [
  | inl wide ↦
      let (whole, long) = contents_of-skip words cs (ground (arith, wide)) in
      rw wide (ap (λ xs. suc (length xs)) whole)
  | inr narrow ↦ rw narrow (ap suc (length-carve words cs))
]
length-carve words (block contents ∷ cs) = omega (
  arith,
  length-append contents (flatten (carve words cs)),
  length-append contents (flatten cs),
  length-carve words cs,
)

-- Zeros are free words.
AreChunks-zeros :
    (n : ℕ) (cs : List Chunk) → AreChunks cs → AreChunks (map free_word (replicate n 0) ++ cs)
unfolding is_header
AreChunks-zeros zero cs all = all
AreChunks-zeros (suc n) cs all = (refl, AreChunks-zeros n cs all)

pub release-kept :
    (base a pos : ℕ) (cs : List Chunk)
    → AreChunks cs
    → AreChunks (release base a pos cs)
      × (length (flatten (release base a pos cs)) ≡ length (flatten cs))
unfolding release
release-kept base a pos [] all = (all, refl)
release-kept base a pos (free_word w ∷ cs) all =
    let (rest, long) = release-kept base a (pos + 1) cs all.1 in ((all.0, rest), ap suc long)
release-kept base a pos (block contents ∷ cs) all =
    let n = length contents in
    elim (Bool-cases (base + 4 * (pos + 1) == a)) [
      | inl hit ↦ rw hit (
        AreChunks-zeros (n + 1) cs all.1,
        ap length (flatten-free_words (replicate (n + 1) 0) cs)
            ∙ omega (
              arith,
              length-append (replicate (n + 1) 0) (flatten cs),
              length-append contents (flatten cs),
              length-replicate {A = ℕ} (n + 1) 0,
            ),
      )
      | inr other ↦
          let (rest, long) = release-kept base a (pos + (n + 1)) cs all.1 in
          rw other (
            (all.0, rest),
            omega (
              arith,
              length-append contents (flatten (release base a (pos + (n + 1)) cs)),
              length-append contents (flatten cs),
              long,
            ),
          )
    ]
