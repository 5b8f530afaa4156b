-- ===== src/Pool/Heap.antt =====
-- The pool as its clients see it: LLOS_malloc, LLOS_free and LLOS_Pool_GetUsedSize on the chunks.
use llos.Base.{
  ℕ, ◌+◌, ◌-◌, ◌*◌, ◌/◌, ◌^◌, ◌≤◌, ◌≡◌, refl, sym, ap, ◌∙◌, arith, Bool, true, false, ◌||◌, Option,
  none, some, List, [], ◌∷◌, if◌then◌else◌, ltb, ◌==◌, min, length, length-append, set, Bool-cases,
  Option-cases, inl, inr,
}
use llos.Pool.{
  Pool, pool_end, header, Scan, spent, damaged, left_at, fit_loop, place, malloc, used_loop,
  get_used_size,
}
use llos.Pool.Chunks.{
  Chunk, free_word, block, flatten, AreChunks, IsHeap, used_words, first_fit, carve,
}
use llos.Pool.Scans.{used_loop-chunks}
use llos.Pool.Search.{found, fit_loop-chunks, first_fit-short}
use llos.Pool.Carve.{set-carve, AreChunks-carve, length-carve}

-- Where a request is placed: nowhere, if it is empty or longer than a header can tell, and else in the first fit.
unfoldable pub allocated : ℕ → List Chunk → Option ℕ
allocated size cs =
    if (size == 0) || ltb 0xffff ((size + 3) / 4) then none else first_fit ((size + 3) / 4 + 1) 0 cs

abbrev pub address : ℕ → Option ℕ → Option ℕ
address base none = none
address base (some pos) = some (base + 4 * (pos + 1))

abbrev carved : ℕ → List Chunk → Option ℕ → List Chunk
carved words cs none = cs
carved words cs (some pos) = carve words cs

abbrev pub after_alloc : ℕ → List Chunk → List Chunk
after_alloc size cs = carved ((size + 3) / 4) cs (allocated size cs)

-- A pool with other chunks in its memory.
abbrev pub holding : Pool → List Chunk → Pool
holding p cs = record p { words = flatten cs }

pub allocated-some :
    (size pos : ℕ) (cs : List Chunk)
    → allocated size cs ≡ some pos
    → (((size == 0) || ltb 0xffff ((size + 3) / 4)) ≡ false)
      × (first_fit ((size + 3) / 4 + 1) 0 cs ≡ some pos)
unfolding allocated
allocated-some size pos cs = elim (Bool-cases ((size == 0) || ltb 0xffff ((size + 3) / 4))) [
  | inl bad ↦ rw bad (λ e. ground (arith, e))
  | inr fine ↦ rw fine (λ e. (refl, e))
]

pub few_chunks : (cs : List Chunk) → length cs ≤ length (flatten cs)
few_chunks [] = omega arith
few_chunks (free_word w ∷ cs) = omega (arith, few_chunks cs)
few_chunks (block contents ∷ cs) = omega (arith, few_chunks cs, length-append contents (flatten cs))

module _ {p : Pool} {base : ℕ} {cs : List Chunk} (heap : IsHeap p base cs) where
  pub end_of : pool_end p ≡ length (flatten cs)
  end_of = omega (arith, heap.sized)

  pub big_enough : ltb p.pool_size 8 ≡ false
  big_enough = ground (arith, heap.sized, heap.at_least_two)

  -- The pool's memory is its chunks, and it may come to hold others.
  pub same_pool : p ≡ holding p cs
  same_pool = ap (λ ws. record p { words = ws }) heap.consists

  pub next-IsHeap :
      (ds : List Chunk)
      → AreChunks ds
      → length (flatten ds) ≡ length (flatten cs)
      → IsHeap (holding p ds) base ds
  next-IsHeap ds all long = record {
    based = heap.based;
    consists = refl;
    sized = heap.sized ∙ ap (λ n. 4 * n) (sym long);
    aligned = heap.aligned;
    at_least_two = omega (arith, heap.at_least_two, long);
    chunks = all;
  }

  -- LLOS_Pool_GetUsedSize counts the words in blocks.
  pub get_used_size-chunks : get_used_size p ≡ some (min 0xffff (used_words cs))
  unfolding get_used_size
  get_used_size-chunks =
      let zero_on : 0 + length (flatten cs) ≡ pool_end p = omega (arith, end_of) in
      let counted : used_loop (pool_end p + 1) p.words (pool_end p) 0 0 ≡ some (0 + used_words cs) =
        ap (λ ws. used_loop (pool_end p + 1) ws (pool_end p) 0 0) heap.consists
        ∙ ap (λ n. used_loop (pool_end p + 1) (flatten cs) n 0 0) (sym zero_on)
        ∙ used_loop-chunks cs [] (pool_end p + 1) 0 heap.chunks
            (omega (arith, end_of, few_chunks cs)) in
      rw (heap.based, big_enough, counted) (ap some (ground arith))

  -- The end of LLOS_malloc at a place.
  abbrev placed : ℕ → Option ℕ → Option ℕ × Pool
  placed words none = (none, p)
  placed words (some head) =
      (some (base + 4 * (head + 1)), record p { words = set p.words head (header words) })

  place-found :
      (words : ℕ) (scan : Scan)
      → place p base words scan ≡ placed words (found (pool_end p) (words + 1) scan)
  unfolding place
  place-found words spent = refl
  place-found words damaged = refl
  place-found words (left_at head) = elim (Bool-cases (ltb (pool_end p) (head + (words + 1)))) [
    | inl full ↦ rw full refl
    | inr room ↦ rw room refl
  ]

  search-first_fit :
      (words : ℕ)
      → found (pool_end p) (words + 1) (fit_loop (pool_end p + 1) words p.words (pool_end p) 0)
        ≡ first_fit (words + 1) 0 cs
  search-first_fit words =
      let zero_on : 0 + length (flatten cs) ≡ pool_end p = omega (arith, end_of) in
      ap (λ ws. found (pool_end p) (words + 1) (fit_loop (pool_end p + 1) words ws (pool_end p) 0))
        heap.consists
      ∙ ap (λ n. found n (words + 1) (fit_loop (pool_end p + 1) words (flatten cs) n 0))
          (sym zero_on)
      ∙ fit_loop-chunks (pool_end p + 1) words cs [] heap.chunks
          (omega (arith, end_of, few_chunks cs))

  abbrev refused : ℕ → Bool
  refused size =
      ltb p.pool_size 8
      || ltb (2 ^ 32 - 1 - 3) size
      || (size == 0)
      || ltb (pool_end p) ((size + 3) / 4 + 1)
      || ltb 0xffff ((size + 3) / 4)

  malloc-guarded :
      (size : ℕ)
      → malloc p size ≡ (
          if refused size
          then (none, p)
          else place p base
              ((size + 3) / 4)
              (fit_loop (pool_end p + 1) ((size + 3) / 4) p.words (pool_end p) 0))
  unfolding malloc
  malloc-guarded size =
      ap
        (λ o. elim o [
          | none ↦ (none, p)
          | some b ↦
              if refused size
              then (none, p)
              else place p b ((size + 3) / 4)
                  (fit_loop (pool_end p + 1) ((size + 3) / 4) p.words (pool_end p) 0)
        ])
        heap.based

  malloc-placed : (size : ℕ) → malloc p size ≡ placed ((size + 3) / 4) (allocated size cs)
  unfolding allocated
  malloc-placed size =
      let words : ℕ = (size + 3) / 4 in
      malloc-guarded size ∙ elim (Bool-cases ((size == 0) || ltb 0xffff words)) [
        | inl bad ↦ let stop : refused size ≡ true = ground (arith, bad) in rw (stop, bad) refl
        | inr fine ↦ elim (Bool-cases (ltb (pool_end p) (words + 1))) [
          | inl full ↦
              let stop : refused size ≡ true = ground (arith, full) in
              let nowhere : first_fit (words + 1) 0 cs ≡ none =
                first_fit-short (words + 1) 0 cs (ground (arith, full, end_of)) in
              rw (stop, fine, nowhere) refl
          | inr room ↦
              let go : refused size ≡ false = ground (arith, room, fine, big_enough) in
              rw (go, fine)
                (place-found words (fit_loop (pool_end p + 1) words p.words (pool_end p) 0)
                  ∙ ap (placed words) (search-first_fit words))
        ]
      ]

  -- LLOS_malloc places the request in the first fit, and the pool's chunks are those after it.
  pub malloc-chunks :
      (size : ℕ)
      → malloc p size ≡ (address base (allocated size cs), holding p (after_alloc size cs))
  malloc-chunks size =
      let words : ℕ = (size + 3) / 4 in
      let goal : Option ℕ → Option ℕ × Pool =
        λ o. (address base o, holding p (carved words cs o)) in
      malloc-placed size ∙ elim (Option-cases (allocated size cs)) [
        | inl nowhere ↦
            ap (placed words) nowhere ∙ ap (λ q. (none, q)) same_pool ∙ ap goal (sym nowhere)
        | inr (pos, there) ↦
            let written : set p.words pos (header words) ≡ flatten (carve words cs) =
              ap (λ ws. set ws pos (header words)) heap.consists
              ∙ set-carve words cs [] pos (allocated-some size pos cs there).1 in
            ap (placed words) there
            ∙ ap (λ ws. (some (base + 4 * (pos + 1)), record p { words = ws })) written
            ∙ ap goal (sym there)
      ]

  pub after_alloc-kept :
      (size : ℕ)
      → AreChunks (after_alloc size cs)
        × (length (flatten (after_alloc size cs)) ≡ length (flatten cs))
  after_alloc-kept size =
      let words : ℕ = (size + 3) / 4 in
      elim (Option-cases (allocated size cs)) [
        | inl nowhere ↦ rw nowhere (heap.chunks, refl)
        | inr (pos, there) ↦
            let (fine, _) = allocated-some size pos cs there in
            rw there (
              AreChunks-carve words cs (ground (arith, fine)) (ground (arith, fine)) heap.chunks,
              length-carve words cs,
            )
      ]
