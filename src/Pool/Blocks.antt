-- ===== src/Pool/Blocks.antt =====
-- The blocks that LLOS_malloc gives out do not overlap.
use llos.Base.{
  ℕ, zero, suc, ◌+◌, ◌*◌, ◌/◌, ◌≤◌, ◌<◌, ◌≡◌, ◌≢◌, refl, sym, ap, ◌∙◌, arith, true, false, none,
  some, List, [], ◌∷◌, leb, length, set, get_or-set_ne, Bool-cases, Option-cases, inl, inr,
}
use llos.Pool.{Pool, word_at, header, malloc}
use llos.Pool.Chunks.{
  Chunk, free_word, block, IsHeap, free_run, first_fit, contents_of, skip, carve,
}
use llos.Pool.Search.{contents_of-skip}
use llos.Pool.Carve.{set-carve}
use llos.Pool.Stores.{is_within, is_owned}
use llos.Pool.Heap.{allocated, address, after_alloc, malloc-chunks, allocated-some}
use llos.Pool.Clean.{first_fit-after}

-- Words before `pos`, and the free words from there on, are in no block.
owned-before : (i pos : ℕ) (cs : List Chunk) → i < pos + free_run cs → is_owned i pos cs ≡ false
unfolding is_owned
owned-before i pos [] h = refl
owned-before i pos (free_word w ∷ cs) h = owned-before i (pos + 1) cs (omega (arith, h))
owned-before i pos (block contents ∷ cs) h =
    let out : is_within i pos contents ≡ false = ground (arith, h) in
    rw out (owned-before i (pos + (length contents + 1)) cs (omega (arith, h)))

-- The words of a new block, from its header on, were in no block, and all but the header are now.
carve-fresh :
    (words place pos k : ℕ) (cs : List Chunk)
    → first_fit (words + 1) pos cs ≡ some place
    → k ≤ words
    → (is_owned (place + k) pos cs ≡ false)
      × (1 ≤ k → is_owned (place + k) pos (carve words cs) ≡ true)
unfolding first_fit carve is_owned
carve-fresh words place pos k [] = λ e h. ground (arith, e)
carve-fresh words place pos k (free_word w ∷ cs) =
    elim (Bool-cases (leb (words + 1) (suc (free_run cs)))) [
      | inl wide ↦
          let (_, long) = contents_of-skip words cs (ground (arith, wide)) in
          rw wide (λ e h.
            let here : pos ≡ place = ground (arith, e) in
            (
              owned-before (place + k) (pos + 1) cs (ground (arith, wide, h, here)),
              λ low.
                  let own : is_within (place + k) pos (contents_of words cs) ≡ true =
                    ground (arith, low, h, here, long) in
                  rw own refl,
            ))
      | inr narrow ↦ rw narrow (λ e h. carve-fresh words place (pos + 1) k cs e h)
    ]
carve-fresh words place pos k (block contents ∷ cs) = λ e h.
    let n = length contents in
    let beyond = first_fit-after (words + 1) (pos + (n + 1)) place cs e in
    let out : is_within (place + k) pos contents ≡ false = ground (arith, beyond) in
    let (before, now) = carve-fresh words place (pos + (n + 1)) k cs e h in rw out (before, now)

owned-skip :
    (n i pos : ℕ) (cs : List Chunk)
    → n ≤ free_run cs
    → is_owned i pos cs ≡ is_owned i (pos + n) (skip n cs)
unfolding is_owned
owned-skip zero i pos cs h = let e : pos ≡ pos + 0 = omega arith in ap (λ m. is_owned i m cs) e
owned-skip (suc n) i pos [] h = refl
owned-skip (suc n) i pos (free_word w ∷ cs) h =
    let e : pos + 1 + n ≡ pos + suc n = omega arith in
    owned-skip n i (pos + 1) cs (omega (arith, h)) ∙ ap (λ m. is_owned i m (skip n cs)) e
owned-skip (suc n) i pos (block contents ∷ cs) h = absurd (omega (arith, h))

-- A word in a block stays in one.
carve-owned :
    (words i pos : ℕ) (cs : List Chunk)
    → is_owned i pos cs ≡ true
    → is_owned i pos (carve words cs) ≡ true
unfolding carve is_owned
carve-owned words i pos [] = λ h. h
carve-owned words i pos (free_word w ∷ cs) = λ h.
    elim (Bool-cases (leb (words + 1) (suc (free_run cs)))) [
      | inl wide ↦
          let (_, long) = contents_of-skip words cs (ground (arith, wide)) in
          let same = owned-skip words i (pos + 1) cs (ground (arith, wide)) in
          let more : pos + 1 + words ≡ pos + (length (contents_of words cs) + 1) =
            omega (arith, long) in
          rw wide (elim (Bool-cases (is_within i pos (contents_of words cs))) [
            | inl own ↦ rw own refl
            | inr other ↦
                rw other (sym (ap (λ m. is_owned i m (skip words cs)) more) ∙ sym same ∙ h)
          ])
      | inr narrow ↦ rw narrow (carve-owned words i (pos + 1) cs h)
    ]
carve-owned words i pos (block contents ∷ cs) = elim (Bool-cases (is_within i pos contents)) [
  | inl own ↦ rw own (λ h. refl)
  | inr other ↦ rw other (λ h. carve-owned words i (pos + (length contents + 1)) cs h)
]

-- When LLOS_malloc returns an address in a pool that is a sequence of blocks and free words,
-- the words there, as many as were asked for, were in no block and are in a block now; and
-- each word that was in a block is still in one and has the value it had.
pub malloc-isolated :
    (p : Pool) (base : ℕ) (cs : List Chunk) (size a : ℕ)
    → IsHeap p base cs
    → (malloc p size).0 ≡ some a
    → (place : ℕ) × (a ≡ base + 4 * (place + 1))
      × ((k : ℕ)
          → 1 ≤ k
          → k ≤ (size + 3) / 4
          → (is_owned (place + k) 0 cs ≡ false)
            × (is_owned (place + k) 0 (after_alloc size cs) ≡ true))
      × ((i : ℕ)
          → is_owned i 0 cs ≡ true
          → (is_owned i 0 (after_alloc size cs) ≡ true)
            × (word_at (malloc p size).1.words i ≡ word_at p.words i))
malloc-isolated p base cs size a heap given =
    let words : ℕ = (size + 3) / 4 in
    let result = sym (ap (λ r. r.0) (malloc-chunks heap size)) ∙ given in
    elim (Option-cases (allocated size cs)) [
      | inl nowhere ↦
          let bad : none ≡ some a = ap (address base) (sym nowhere) ∙ result in ground (arith, bad)
      | inr (place, there) ↦
          let fit = (allocated-some size place cs there).1 in
          let here : some (base + 4 * (place + 1)) ≡ some a =
            ap (address base) (sym there) ∙ result in
          let new : (malloc p size).1.words ≡ set p.words place (header words) =
            ap (λ r. r.1.words) (malloc-chunks heap size)
            ∙ rw there (
                sym (
                  ap (λ ws. set ws place (header words)) heap.consists
                  ∙ set-carve words cs [] place fit)) in
          (
            place,
            ground (arith, here),
            λ k low high.
                let (before, now) = carve-fresh words place 0 k cs fit high in
                rw there (before, now low),
            λ i own.
                let (unowned, _) = carve-fresh words place 0 0 cs fit (omega arith) in
                let apart : place ≢ i = λ e.
                  let same : i ≡ place + 0 = omega (arith, e) in
                  let clash : true ≡ false = sym own ∙ ap (λ j. is_owned j 0 cs) same ∙ unowned in
                  ground (arith, clash) in
                (
                  rw there (carve-owned words i 0 cs own),
                  ap (λ ws. word_at ws i) new
                      ∙ get_or-set_ne p.words place i (header words) 0 apart,
                ),
          )
    ]
