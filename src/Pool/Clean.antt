-- ===== src/Pool/Clean.antt =====
-- Free memory that is zero, as LLOS_Init leaves it: the pool keeps it so, hands it out so, and is as before
-- when what it gave is released.
use llos.Base.{
  ℕ, length-replicate, zero, suc, ◌+◌, ◌*◌, ◌/◌, ◌%◌, ◌≤◌, ◌≡◌, refl, sym, ap, ◌∙◌, arith, true,
  false, none, some, List, [], ◌∷◌, ◌++◌, map, leb, ◌==◌, length, replicate, Bool-cases,
  Option-cases, inl, inr,
}
use llos.Pool.{Pool, malloc, free, is_header}
use llos.Pool.Chunks.{
  Chunk, free_word, block, flatten, AreChunks, IsHeap, free_run, first_fit, skip, carve, release,
}
use llos.Pool.Search.{contents_of-skip}
use llos.Pool.Stores.{is_within, poke}
use llos.Pool.Heap.{
  allocated, address, after_alloc, holding, malloc-chunks, allocated-some, same_pool,
  after_alloc-kept, next-IsHeap,
}
use llos.Pool.Free.{after_free, free-chunks}
use llos.Pool.Clients.{Call, alloc, dealloc, store, query, chunk_serve, chunk_run}

-- Every free word is zero.
abbrev pub IsClean : List Chunk → Type 0
IsClean [] = Unit
IsClean (free_word w ∷ cs) = (w ≡ 0) × IsClean cs
IsClean (block contents ∷ cs) = IsClean cs

IsClean-skip : (n : ℕ) (cs : List Chunk) → IsClean cs → IsClean (skip n cs)
IsClean-skip zero cs clean = clean
IsClean-skip (suc n) [] clean = clean
IsClean-skip (suc n) (free_word w ∷ cs) clean = IsClean-skip n cs clean.1
IsClean-skip (suc n) (block contents ∷ cs) clean = IsClean-skip n cs clean

IsClean-carve : (words : ℕ) (cs : List Chunk) → IsClean cs → IsClean (carve words cs)
unfolding carve
IsClean-carve words [] clean = clean
IsClean-carve words (free_word w ∷ cs) clean =
    elim (Bool-cases (leb (words + 1) (suc (free_run cs)))) [
      | inl wide ↦ rw wide (IsClean-skip words cs clean.1)
      | inr narrow ↦ rw narrow (clean.0, IsClean-carve words cs clean.1)
    ]
IsClean-carve words (block contents ∷ cs) clean = IsClean-carve words cs clean

IsClean-zeros :
    (n : ℕ) (cs : List Chunk) → IsClean cs → IsClean (map free_word (replicate n 0) ++ cs)
IsClean-zeros zero cs clean = clean
IsClean-zeros (suc n) cs clean = (refl, IsClean-zeros n cs clean)

IsClean-release : (base a pos : ℕ) (cs : List Chunk) → IsClean cs → IsClean (release base a pos cs)
unfolding release
IsClean-release base a pos [] clean = clean
IsClean-release base a pos (free_word w ∷ cs) clean =
    (clean.0, IsClean-release base a (pos + 1) cs clean.1)
IsClean-release base a pos (block contents ∷ cs) clean =
    elim (Bool-cases (base + 4 * (pos + 1) == a)) [
      | inl hit ↦ rw hit (IsClean-zeros (length contents + 1) cs clean)
      | inr other ↦ rw other (IsClean-release base a (pos + (length contents + 1)) cs clean)
    ]

IsClean-poke : (i v pos : ℕ) (cs : List Chunk) → IsClean cs → IsClean (poke i v pos cs)
unfolding poke
IsClean-poke i v pos [] clean = clean
IsClean-poke i v pos (free_word w ∷ cs) clean = (clean.0, IsClean-poke i v (pos + 1) cs clean.1)
IsClean-poke i v pos (block contents ∷ cs) clean = elim (Bool-cases (is_within i pos contents)) [
  | inl own ↦ rw own clean
  | inr other ↦ rw other (IsClean-poke i v (pos + (length contents + 1)) cs clean)
]

IsClean-serve :
    (base : ℕ) (cs : List Chunk) (c : Call) → IsClean cs → IsClean (chunk_serve base cs c).1
unfolding chunk_serve
IsClean-serve base cs (alloc size) clean = elim (Option-cases (allocated size cs)) [
  | inl nowhere ↦ rw nowhere clean
  | inr (pos, there) ↦ rw there (IsClean-carve ((size + 3) / 4) cs clean)
]
IsClean-serve base cs (dealloc none) clean = clean
IsClean-serve base cs (dealloc (some a)) clean = IsClean-release base a 0 cs clean
IsClean-serve base cs (store i v) clean = IsClean-poke i v 0 cs clean
IsClean-serve base cs query clean = clean

pub IsClean-run :
    (base : ℕ) (cs : List Chunk) (calls : List Call)
    → IsClean cs
    → IsClean (chunk_run base cs calls).1
unfolding chunk_run
IsClean-run base cs [] clean = clean
IsClean-run base cs (c ∷ calls) clean =
    IsClean-run base (chunk_serve base cs c).1 calls (IsClean-serve base cs c clean)

zeros-flatten : (n : ℕ) → replicate n 0 ≡ flatten (map free_word (replicate n 0))
zeros-flatten zero = refl
zeros-flatten (suc n) = ap (λ ws. 0 ∷ ws) (zeros-flatten n)

zeros-AreChunks : (n : ℕ) → AreChunks (map free_word (replicate n 0))
unfolding is_header
zeros-AreChunks zero = tt
zeros-AreChunks (suc n) = (refl, zeros-AreChunks n)

zeros-IsClean : (n : ℕ) → IsClean (map free_word (replicate n 0))
zeros-IsClean zero = tt
zeros-IsClean (suc n) = (refl, zeros-IsClean n)

-- Memory that is all zero is a heap of free words, and clean.
pub zeros-IsHeap :
    (base n : ℕ)
    → base % 4 ≡ 0
    → 2 ≤ n
    → IsHeap
        (record { p_pool = some base; pool_size = 4 * n; words = replicate n 0 })
        base
        (map free_word (replicate n 0))
      × IsClean (map free_word (replicate n 0))
zeros-IsHeap base n even two =
    let same : replicate n 0 ≡ flatten (map free_word (replicate n 0)) = zeros-flatten n in
    let long : length (flatten (map free_word (replicate n 0))) ≡ n =
      ap length (sym same) ∙ length-replicate n 0 in
    (
      record {
        based = refl;
        consists = same;
        sized = ap (λ m. 4 * m) (sym long);
        aligned = even;
        at_least_two = omega (arith, two, long);
        chunks = zeros-AreChunks n;
      },
      zeros-IsClean n,
    )

-- A block that is released where it was carved.
zeros-skip :
    (n : ℕ) (cs : List Chunk)
    → n ≤ free_run cs
    → IsClean cs
    → map free_word (replicate n 0) ++ skip n cs ≡ cs
zeros-skip zero cs fits clean = refl
zeros-skip (suc n) [] fits clean = absurd (omega (arith, fits))
zeros-skip (suc n) (free_word w ∷ cs) fits clean =
    ap (λ ds. free_word 0 ∷ ds) (zeros-skip n cs (omega (arith, fits)) clean.1)
    ∙ ap (λ x. free_word x ∷ cs) (sym clean.0)
zeros-skip (suc n) (block contents ∷ cs) fits clean = absurd (omega (arith, fits))

pub first_fit-after :
    (total pos place : ℕ) (cs : List Chunk) → first_fit total pos cs ≡ some place → pos ≤ place
unfolding first_fit
first_fit-after total pos place [] = λ e. ground (arith, e)
first_fit-after total pos place (free_word w ∷ cs) =
    elim (Bool-cases (leb total (suc (free_run cs)))) [
      | inl wide ↦ rw wide (λ e. ground (arith, e))
      | inr narrow ↦
          rw narrow (λ e. let h = first_fit-after total (pos + 1) place cs e in omega (arith, h))
    ]
first_fit-after total pos place (block contents ∷ cs) =
    λ e. let h = first_fit-after total (pos + (length contents + 1)) place cs e in omega (arith, h)

release-carve :
    (words base place pos : ℕ) (cs : List Chunk)
    → IsClean cs
    → first_fit (words + 1) pos cs ≡ some place
    → release base (base + 4 * (place + 1)) pos (carve words cs) ≡ cs
unfolding first_fit carve release
release-carve words base place pos [] clean = λ e. refl
release-carve words base place pos (free_word w ∷ cs) clean =
    elim (Bool-cases (leb (words + 1) (suc (free_run cs)))) [
      | inl wide ↦
          let (_, long) = contents_of-skip words cs (ground (arith, wide)) in
          rw wide (λ e.
            let more : words + 1 ≡ suc words = omega arith in
            let hit : (base + 4 * (pos + 1) == base + 4 * (place + 1)) ≡ true = ground (arith, e) in
            rw (hit, long)
              (ap (λ n. map free_word (replicate n 0) ++ skip words cs) more
                ∙ zeros-skip (suc words) (free_word w ∷ cs) (ground (arith, wide)) clean))
      | inr narrow ↦
          rw narrow (λ e.
            ap (λ ds. free_word w ∷ ds) (release-carve words base place (pos + 1) cs clean.1 e))
    ]
release-carve words base place pos (block contents ∷ cs) clean = λ e.
    let n = length contents in
    let beyond = first_fit-after (words + 1) (pos + (n + 1)) place cs e in
    let other : (base + 4 * (pos + 1) == base + 4 * (place + 1)) ≡ false = ground (arith, beyond) in
    rw other
      (ap (λ ds. block contents ∷ ds) (release-carve words base place (pos + (n + 1)) cs clean e))

-- LLOS_free takes back what LLOS_malloc gave: in a pool that is a sequence of blocks and free
-- words, all of them zero, at an address that 4 divides, releasing what LLOS_malloc returned,
-- NULL included, restores the pool word for word.
pub free-malloc :
    (p : Pool) (base : ℕ) (cs : List Chunk) (size : ℕ)
    → IsHeap p base cs
    → IsClean cs
    → free (malloc p size).1 (malloc p size).0 ≡ some p
free-malloc p base cs size heap clean =
    let (all, long) = after_alloc-kept heap size in
    let next : IsHeap (holding p (after_alloc size cs)) base (after_alloc size cs) =
      next-IsHeap heap (after_alloc size cs) all long in
    let back : after_free base (address base (allocated size cs)) (after_alloc size cs) ≡ cs =
      elim (Option-cases (allocated size cs)) [
        | inl nowhere ↦ rw nowhere refl
        | inr (pos, there) ↦ rw there (
            release-carve ((size + 3) / 4) base pos 0 cs clean (allocated-some size pos cs there).1)
      ] in
    ap (λ r. free r.1 r.0) (malloc-chunks heap size)
    ∙ free-chunks next (address base (allocated size cs))
    ∙ ap (λ ds. some (holding p ds)) back
    ∙ ap some (sym (same_pool heap))
