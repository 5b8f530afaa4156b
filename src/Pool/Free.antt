-- ===== src/Pool/Free.antt =====
-- LLOS_free on the chunks of the pool: it releases the block at the address, and does nothing at any other.
use llos.Base.{
  ℕ, ◌+◌, ◌*◌, ◌<◌, ◌≡◌, refl, sym, ap, ◌∙◌, arith, Bool, true, ◌||◌, Option, none, some, List, [],
  ◌∷◌, if◌then◌else◌, ltb, leb, ◌==◌, ◌!=◌, length, length-append, bit_and, bit_and_mask,
  Bool-cases, inl, inr,
}
use llos.Pool.{Pool, pool_end, free_loop, free}
use llos.Pool.Chunks.{Chunk, free_word, block, flatten, AreChunks, IsHeap, release}
use llos.Pool.Scans.{free_loop-chunks}
use llos.Pool.Heap.{holding, few_chunks, same_pool, end_of, big_enough}

-- An address at which no block can start releases nothing.
release-miss :
    (base a pos : ℕ) (cs : List Chunk)
    → AreChunks cs
    → ((k : ℕ) → pos < k → k < pos + length (flatten cs) → ¬ (base + 4 * k ≡ a))
    → release base a pos cs ≡ cs
unfolding release
release-miss base a pos [] all miss = refl
release-miss base a pos (free_word w ∷ cs) all miss =
    ap (λ ds. free_word w ∷ ds)
      (release-miss base a (pos + 1) cs all.1
        (λ k low high. miss k (omega (arith, low)) (omega (arith, high))))
release-miss base a pos (block contents ∷ cs) all miss =
    let n = length contents in
    let long = length-append contents (flatten cs) in
    elim (Bool-cases (base + 4 * (pos + 1) == a)) [
      | inl hit ↦
          absurd (miss (pos + 1) (omega arith) (omega (arith, long, all.0.0)) (ground (arith, hit)))
      | inr other ↦ rw other (
          ap (λ ds. block contents ∷ ds)
            (release-miss base a (pos + (n + 1)) cs all.1
              (λ k low high. miss k (omega (arith, low)) (omega (arith, high, long)))))
    ]

-- The chunks after LLOS_free.
abbrev pub after_free : ℕ → Option ℕ → List Chunk → List Chunk
after_free base none cs = cs
after_free base (some a) cs = release base a 0 cs

module _ {p : Pool} {base : ℕ} {cs : List Chunk} (heap : IsHeap p base cs) where
  abbrev ignored : ℕ → Bool
  ignored a =
      ltb p.pool_size 8 || (bit_and a 3 != 0) || ltb a (base + 4) || leb (base + 4 * pool_end p) a

  abbrev written : Option (List ℕ) → Option Pool
  written none = none
  written (some ws) = some (record p { words = ws })

  free-guarded :
      (a : ℕ)
      → free p (some a) ≡ (
          if ignored a
          then some p
          else written (free_loop (pool_end p + 1) base a p.words (pool_end p) 0))
  unfolding free
  free-guarded a =
      ap
        (λ o. elim o [
          | none ↦ some p
          | some b ↦
              if ltb p.pool_size 8
                || (bit_and a 3 != 0)
                || ltb a (b + 4)
                || leb (b + 4 * pool_end p) a
              then some p
              else elim (free_loop (pool_end p + 1) b a p.words (pool_end p) 0) [
                | none ↦ none
                | some ws ↦ some (record p { words = ws })
              ]
        ])
        heap.based

  freed :
      (a : ℕ)
      → free_loop (pool_end p + 1) base a p.words (pool_end p) 0
        ≡ some (flatten (release base a 0 cs))
  freed a =
      let zero_on : 0 + length (flatten cs) ≡ pool_end p = omega (arith, end_of heap) in
      ap (λ ws. free_loop (pool_end p + 1) base a ws (pool_end p) 0) heap.consists
      ∙ ap (λ n. free_loop (pool_end p + 1) base a (flatten cs) n 0) (sym zero_on)
      ∙ free_loop-chunks cs [] (pool_end p + 1) base a heap.chunks
          (omega (arith, end_of heap, few_chunks cs))

  ignored-release : (a : ℕ) → ignored a ≡ true → release base a 0 cs ≡ cs
  ignored-release a bad = release-miss base a 0 cs heap.chunks (λ k low high e.
      ground
        (arith, bad, big_enough heap, low, high, e, end_of heap, heap.aligned, bit_and_mask 2 a))

  -- LLOS_free releases the block that starts at the address.
  pub free-chunks : (a : Option ℕ) → free p a ≡ some (holding p (after_free base a cs))
  unfolding free
  free-chunks none = ap some (same_pool heap)
  free-chunks (some a) = free-guarded a ∙ elim (Bool-cases (ignored a)) [
    | inl bad ↦ rw bad (ap some (same_pool heap ∙ ap (holding p) (sym (ignored-release a bad))))
    | inr fine ↦ rw fine (ap written (freed a))
  ]
