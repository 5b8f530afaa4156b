-- ===== src/Pool.antt =====
-- The memory pool of LLOS/kernel/llos.c: LLOS_malloc, LLOS_free and LLOS_Pool_GetUsedSize. The pool
-- is a list of 32-bit words; a place in it is an index, and an address is the base plus four times
-- that. `size_t` has 32 bits. A block is a header word with the number of words after it.
pub mod Fit
pub mod Chunks
pub mod Scans
pub mod Search
pub mod Carve
pub mod Stores
pub mod Heap
pub mod Free
pub mod Clients
pub mod Clean
pub mod Blocks
mod Tests
use llos.Base.{
  ℕ, zero, suc, ◌+◌, ◌-◌, ◌*◌, ◌/◌, ◌^◌, Bool, true, false, not, ◌&&◌, ◌||◌, Option, none, some,
  List, if◌then◌else◌, ltb, leb, ◌==◌, ◌!=◌, get_or, set, bit_and, bit_or, u8, u16, u32, ◌>>>◌,
  ◌<<<◌,
}

-- The pool's members of `ll_init_cfgs`, and the memory there.
pub record Pool : Type 0 where
  pub p_pool : Option ℕ
  pub pool_size : ℕ
  pub words : List ℕ

abbrev pub word_at : List ℕ → ℕ → ℕ
word_at ws i = get_or ws i 0

-- The test for the header of a block, and the length that the header holds.
unfoldable pub is_header : ℕ → Bool
is_header w = (w >>> 24 == 0xcd) && (bit_and w 0xff == 0xac)

unfoldable pub block_length : ℕ → ℕ
block_length w = bit_and (w >>> 8) 0xffff

unfoldable pub header : ℕ → ℕ
header words = bit_or 0xcd00_00ac (words <<< 8)

-- `pool_end` as an index.
abbrev pub pool_end : Pool → ℕ
pool_end p = p.pool_size >>> 2

-- How a scan for a free place ends: a damaged header, or the place where the loop was left.
pub data Scan : Type 0 where
  spent : Scan
  damaged : Scan
  left_at : ℕ → Scan

-- The inner loop of LLOS_malloc, with the rounds left before `stop`.
unfoldable pub gap_loop : ℕ → List ℕ → ℕ → ℕ → ℕ
gap_loop zero ws end next = next
gap_loop (suc left) ws end next =
    let rest = gap_loop left ws end (next + 1) in
    if ltb next end && not (is_header (word_at ws next)) then rest else next

-- The outer loop, for a block of `words` words and its header.
unfoldable pub fit_loop : ℕ → ℕ → List ℕ → ℕ → ℕ → Scan
fit_loop zero words ws end head = spent
fit_loop (suc fuel) words ws end head =
    let total = words + 1 in
    let block = block_length (word_at ws head) in
    let next = gap_loop words ws end (head + 1) in
    let after_block = fit_loop fuel words ws end (head + (block + 1)) in
    let after_gap = fit_loop fuel words ws end next in
    if leb (head + total) end
    then (if is_header (word_at ws head)
        then (if (block == 0) || ltb end (head + block + 1) then damaged else after_block)
        else (if next == head + total then left_at head else after_gap))
    else left_at head

-- The end of LLOS_malloc.
unfoldable pub place : Pool → ℕ → ℕ → Scan → Option ℕ × Pool
place p base words spent = (none, p)
place p base words damaged = (none, p)
place p base words (left_at head) =
    if ltb (pool_end p) (head + (words + 1))
    then (none, p)
    else (some (base + 4 * (head + 1)), record p { words = set p.words head (header words) })

-- LLOS_malloc: the address, and the pool. Each round moves on, so `pool_end + 1` rounds are enough.
unfoldable pub malloc : Pool → ℕ → Option ℕ × Pool
malloc p size = elim p.p_pool [
  | none ↦ (none, p)
  | some base ↦
      let words = (size + 3) / 4 in
      if ltb p.pool_size 8
        || ltb (2 ^ 32 - 1 - 3) size
        || (size == 0)
        || ltb (pool_end p) (words + 1)
        || ltb 0xffff words
      then (none, p)
      else place p base words (fit_loop (pool_end p + 1) words p.words (pool_end p) 0)
]

-- The loop of LLOS_Pool_GetUsedSize; the result is the number of words in blocks.
unfoldable pub used_loop : ℕ → List ℕ → ℕ → ℕ → ℕ → Option ℕ
used_loop zero ws end head used = none
used_loop (suc fuel) ws end head used =
    let block = block_length (word_at ws head) in
    let after_block = used_loop fuel ws end (head + (block + 1)) (used + (block + 1)) in
    let after_word = used_loop fuel ws end (head + 1) used in
    if ltb head end
    then (if is_header (word_at ws head)
        then (if (block == 0) || ltb end (head + block + 1) then some used else after_block)
        else after_word)
    else some used

-- LLOS_Pool_GetUsedSize.
unfoldable pub get_used_size : Pool → Option ℕ
get_used_size p = elim p.p_pool [
  | none ↦ some 0
  | some base ↦
      if ltb p.pool_size 8
      then some 0
      else elim (used_loop (pool_end p + 1) p.words (pool_end p) 0 0) [
        | none ↦ none
        | some used ↦ some (if ltb 0xffff used then 0xffff else u16 used)
      ]
]

-- `n` words from `i` on become 0.
unfoldable pub erase : ℕ → ℕ → List ℕ → List ℕ
erase zero i ws = ws
erase (suc n) i ws = erase n (i + 1) (set ws i 0)

-- The loop of LLOS_free for the address `a`; the result is the memory after it.
unfoldable pub free_loop : ℕ → ℕ → ℕ → List ℕ → ℕ → ℕ → Option (List ℕ)
free_loop zero base a ws end scan = none
free_loop (suc fuel) base a ws end scan =
    let size = block_length (word_at ws scan) in
    let after_block = free_loop fuel base a ws end (scan + (size + 1)) in
    let after_word = free_loop fuel base a ws end (scan + 1) in
    if ltb scan end
    then (if is_header (word_at ws scan)
        then (if (size == 0) || ltb end (scan + size + 1)
            then some ws
            else if base + 4 * (scan + 1) == a
            then some (erase (size + 1) scan ws)
            else after_block)
        else after_word)
    else some ws

-- LLOS_free; `none` would be a scan that its fuel cuts off.
unfoldable pub free : Pool → Option ℕ → Option Pool
free p none = some p
free p (some a) = elim p.p_pool [
  | none ↦ some p
  | some base ↦
      if ltb p.pool_size 8
        || (bit_and a 3 != 0)
        || ltb a (base + 4)
        || leb (base + 4 * pool_end p) a
      then some p
      else elim (free_loop (pool_end p + 1) base a p.words (pool_end p) 0) [
        | none ↦ none
        | some ws ↦ some (record p { words = ws })
      ]
]
