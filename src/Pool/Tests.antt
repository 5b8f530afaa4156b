-- ===== src/Pool/Tests.antt =====
-- A pool of eight words.
use llos.Base.{ℕ, ◌+◌, ◌*◌, ◌/◌, ◌≤◌, ◌≡◌, arith, List, true, false, refl, some, [], ◌∷◌}
use llos.Pool.{
  Pool, malloc, place, fit_loop, gap_loop, is_header, block_length, header, free, free_loop, erase,
  used_loop, get_used_size, word_at,
}
use llos.Pool.Chunks.{Chunk, free_word, block, IsHeap, first_fit, carve, release}
use llos.Pool.Stores.{is_owned, poke}
use llos.Pool.Heap.{allocated, after_alloc, holding}
use llos.Pool.Clients.{
  Call, alloc, dealloc, store, query, given, done, used, run, chunk_serve, chunk_run, run-chunks,
}
use llos.Pool.Clean.{free-malloc}
use llos.Pool.Blocks.{malloc-isolated}

-- A block of two words, then five free words.
abbrev one_block : Pool
one_block = record {
  p_pool = some 1000;
  pool_size = 32;
  words = 0xcd0002ac ∷ 7 ∷ 8 ∷ 0 ∷ 0 ∷ 0 ∷ 0 ∷ 0 ∷ [];
}

malloc_first_fit : (malloc one_block 5).0 ≡ some 1016
unfolding malloc place fit_loop gap_loop is_header block_length header
malloc_first_fit = refl

free_first :
    free one_block (some 1004)
    ≡ some (record one_block { words = 0 ∷ 0 ∷ 0 ∷ 0 ∷ 0 ∷ 0 ∷ 0 ∷ 0 ∷ [] })
unfolding free free_loop erase is_header block_length
free_first = refl

used_words : get_used_size one_block ≡ some 3
unfolding get_used_size used_loop is_header block_length
used_words = refl

malloc_five :
    malloc one_block 5
    ≡ (some 1016, record one_block { words = 0xcd0002ac ∷ 7 ∷ 8 ∷ 0xcd0002ac ∷ 0 ∷ 0 ∷ 0 ∷ 0 ∷ [] })
unfolding malloc place fit_loop gap_loop is_header block_length header
malloc_five = refl

abbrev one_block_chunks : List Chunk
one_block_chunks =
    block (7 ∷ 8 ∷ []) ∷ free_word 0 ∷ free_word 0 ∷ free_word 0 ∷ free_word 0 ∷ free_word 0 ∷ []

one_block-IsHeap : IsHeap one_block 1000 one_block_chunks
unfolding is_header header
one_block-IsHeap = record {
  based = refl;
  consists = refl;
  sized = refl;
  aligned = refl;
  at_least_two = omega arith;
  chunks = ((omega arith, omega arith), (refl, (refl, (refl, (refl, (refl, tt))))));
}

-- Five bytes are asked for, written and read out of the count, and the first block goes back.
abbrev five_calls : List Call
five_calls = alloc 5 ∷ store 5 99 ∷ query ∷ dealloc (some 1004) ∷ query ∷ []

abbrev after_five_calls : List Chunk
after_five_calls =
    free_word 0 ∷ free_word 0 ∷ free_word 0 ∷ block (0 ∷ 99 ∷ []) ∷ free_word 0 ∷ free_word 0 ∷ []

run-chunks_example :
    (run one_block five_calls
      ≡ some (
        given (some 1016) ∷ done ∷ used 6 ∷ done ∷ used 3 ∷ [],
        holding one_block after_five_calls,
      ))
    × IsHeap (holding one_block after_five_calls) 1000 after_five_calls
unfolding chunk_run chunk_serve allocated first_fit carve release is_owned poke
run-chunks_example =
    run-chunks five_calls one_block 1000 one_block_chunks one_block-IsHeap
      (tt, (refl, (tt, (tt, (tt, tt)))))

free-malloc_example : free (malloc one_block 5).1 (malloc one_block 5).0 ≡ some one_block
free-malloc_example =
    free-malloc one_block 1000 one_block_chunks 5 one_block-IsHeap
      (refl, (refl, (refl, (refl, (refl, tt)))))

malloc-isolated_example :
    (place : ℕ) × (1016 ≡ 1000 + 4 * (place + 1))
    × ((k : ℕ)
        → 1 ≤ k
        → k ≤ (5 + 3) / 4
        → (is_owned (place + k) 0 one_block_chunks ≡ false)
          × (is_owned (place + k) 0 (after_alloc 5 one_block_chunks) ≡ true))
    × ((i : ℕ)
        → is_owned i 0 one_block_chunks ≡ true
        → (is_owned i 0 (after_alloc 5 one_block_chunks) ≡ true)
          × (word_at (malloc one_block 5).1.words i ≡ word_at one_block.words i))
malloc-isolated_example =
    malloc-isolated one_block 1000 one_block_chunks 5 1016 one_block-IsHeap malloc_first_fit
