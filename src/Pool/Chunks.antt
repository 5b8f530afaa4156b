-- ===== src/Pool/Chunks.antt =====
-- The pool as the sequence of its chunks: free words, and blocks with their contents.
use llos.Base.{
  ℕ, zero, suc, ◌+◌, ◌*◌, ◌≤◌, ◌≡◌, ap, ◌∙◌, arith, true, false, Option, none, some, List, [], ◌∷◌,
  ◌++◌, if◌then◌else◌, leb, ◌==◌, bit_or-above, bit_or-below, bit_and_mask, ◌/◌, ◌%◌, ◌^◌, length,
  replicate, map,
}
use llos.Pool.{Pool, is_header, block_length, header}

pub data Chunk : Type 0 where
  free_word : ℕ → Chunk
  block : List ℕ → Chunk

-- The words of a chunk and of a sequence of chunks.
abbrev pub words_of : Chunk → List ℕ
words_of (free_word w) = w ∷ []
words_of (block contents) = header (length contents) ∷ contents

abbrev pub flatten : List Chunk → List ℕ
flatten [] = []
flatten (c ∷ cs) = words_of c ++ flatten cs

-- A free word is no header, and a block has from 1 to 0xFFFF words.
abbrev pub IsChunk : Chunk → Type 0
IsChunk (free_word w) = is_header w ≡ false
IsChunk (block contents) = (1 ≤ length contents) × (length contents ≤ 0xffff)

abbrev pub AreChunks : List Chunk → Type 0
AreChunks [] = Unit
AreChunks (c ∷ cs) = IsChunk c × AreChunks cs

-- A pool that consists of these chunks.
pub record IsHeap (p : Pool) (base : ℕ) (cs : List Chunk) : Type 0 where
  pub based : p.p_pool ≡ some base
  pub consists : p.words ≡ flatten cs
  pub sized : p.pool_size ≡ 4 * length (flatten cs)
  pub aligned : base % 4 ≡ 0
  pub at_least_two : 2 ≤ length (flatten cs)
  pub chunks : AreChunks cs

-- The words in blocks, with their headers.
abbrev pub used_words : List Chunk → ℕ
used_words [] = 0
used_words (free_word w ∷ cs) = used_words cs
used_words (block contents ∷ cs) = length contents + 1 + used_words cs

-- The free words at the front.
abbrev pub free_run : List Chunk → ℕ
free_run [] = 0
free_run (free_word w ∷ cs) = suc (free_run cs)
free_run (block contents ∷ cs) = 0

-- The first place, from `pos` on, where `total` free words stand in a row.
unfoldable pub first_fit : ℕ → ℕ → List Chunk → Option ℕ
first_fit total pos [] = none
first_fit total pos (free_word w ∷ cs) =
    if leb total (free_run (free_word w ∷ cs)) then some pos else first_fit total (pos + 1) cs
first_fit total pos (block contents ∷ cs) = first_fit total (pos + (length contents + 1)) cs

-- Free words as the contents of a block, and what follows them.
abbrev pub contents_of : ℕ → List Chunk → List ℕ
contents_of zero cs = []
contents_of (suc n) [] = []
contents_of (suc n) (free_word w ∷ cs) = w ∷ contents_of n cs
contents_of (suc n) (block contents ∷ cs) = []

abbrev pub skip : ℕ → List Chunk → List Chunk
skip zero cs = cs
skip (suc n) [] = []
skip (suc n) (c ∷ cs) = skip n cs

-- The chunks after a block of `words` words has taken the first place where it fits.
unfoldable pub carve : ℕ → List Chunk → List Chunk
carve words [] = []
carve words (free_word w ∷ cs) =
    if leb (words + 1) (free_run (free_word w ∷ cs))
    then block (contents_of words cs) ∷ skip words cs
    else free_word w ∷ carve words cs
carve words (block contents ∷ cs) = block contents ∷ carve words cs

-- The chunks after the block whose contents start at the address `a` was released.
unfoldable pub release : ℕ → ℕ → ℕ → List Chunk → List Chunk
release base a pos [] = []
release base a pos (free_word w ∷ cs) = free_word w ∷ release base a (pos + 1) cs
release base a pos (block contents ∷ cs) =
    if base + 4 * (pos + 1) == a
    then map free_word (replicate (length contents + 1) 0) ++ cs
    else block contents ∷ release base a (pos + (length contents + 1)) cs

-- The header that LLOS_malloc writes is read back.
pub header-read :
    (n : ℕ) → n ≤ 0xffff → (is_header (header n) ≡ true) × (block_length (header n) ≡ n)
unfolding is_header header block_length
header-read n h =
    let joined : header n ≡ 0xcd00_00ac + n * 256 =
      bit_or-above 8 0xcd_0000 n 0xac (omega arith)
      ∙ ap (λ x. x * 2 ^ 8 + 0xac) (bit_or-below 16 0xcd n (omega (arith, h)))
      ∙ omega arith in
    ground (arith, joined, h, bit_and_mask 8 (header n), bit_and_mask 16 (header n / 256))
