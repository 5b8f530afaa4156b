-- ===== src/Pool/Clients.antt =====
-- Sequences of calls that the pool's clients make, on the memory (LLOS_malloc, LLOS_free,
-- LLOS_Pool_GetUsedSize) and on the chunks that it stands for.
use llos.Base.{ℕ, ◌≡◌, refl, ap, ◌∙◌, true, Option, none, some, List, [], ◌∷◌, min, length, set}
use llos.Pool.{Pool, malloc, get_used_size, free}
use llos.Pool.Chunks.{Chunk, flatten, AreChunks, IsHeap, used_words}
use llos.Pool.Carve.{release-kept}
use llos.Pool.Stores.{is_owned, poke, set-poke, poke-kept}
use llos.Pool.Heap.{
  allocated, address, after_alloc, holding, same_pool, next-IsHeap, get_used_size-chunks,
  malloc-chunks, after_alloc-kept,
}
use llos.Pool.Free.{after_free, free-chunks}

-- What a client does: it calls one of the functions, or writes a word at an index of the pool.
pub data Call : Type 0 where
  alloc : ℕ → Call
  dealloc : Option ℕ → Call
  store : ℕ → ℕ → Call
  query : Call

pub data Reply : Type 0 where
  given : Option ℕ → Reply
  done : Reply
  used : ℕ → Reply

abbrev freed_reply : Option Pool → Option (Reply × Pool)
freed_reply none = none
freed_reply (some p) = some (done, p)

abbrev used_reply : Pool → Option ℕ → Option (Reply × Pool)
used_reply p none = none
used_reply p (some n) = some (used n, p)

-- A call on the memory; `none` is a scan without end.
unfoldable pub serve : Pool → Call → Option (Reply × Pool)
serve p (alloc size) = some (given (malloc p size).0, (malloc p size).1)
serve p (dealloc a) = freed_reply (free p a)
serve p (store i v) = some (done, record p { words = set p.words i v })
serve p query = used_reply p (get_used_size p)

-- A call on the chunks.
unfoldable pub chunk_serve : ℕ → List Chunk → Call → Reply × List Chunk
chunk_serve base cs (alloc size) = (given (address base (allocated size cs)), after_alloc size cs)
chunk_serve base cs (dealloc a) = (done, after_free base a cs)
chunk_serve base cs (store i v) = (done, poke i v 0 cs)
chunk_serve base cs query = (used (min 0xffff (used_words cs)), cs)

-- A client writes only into the contents of a block that it was given and has not released.
abbrev pub IsAllowed : List Chunk → Call → Type 0
IsAllowed cs (alloc size) = Unit
IsAllowed cs (dealloc a) = Unit
IsAllowed cs (store i v) = is_owned i 0 cs ≡ true
IsAllowed cs query = Unit

after_free-kept :
    (base : ℕ) (a : Option ℕ) (cs : List Chunk)
    → AreChunks cs
    → AreChunks (after_free base a cs)
      × (length (flatten (after_free base a cs)) ≡ length (flatten cs))
after_free-kept base none cs all = (all, refl)
after_free-kept base (some a) cs all = release-kept base a 0 cs all

module _ {p : Pool} {base : ℕ} {cs : List Chunk} (heap : IsHeap p base cs) where
  serve-chunks :
      (c : Call)
      → IsAllowed cs c
      → serve p c ≡ some ((chunk_serve base cs c).0, holding p (chunk_serve base cs c).1)
  unfolding serve chunk_serve
  serve-chunks (alloc size) ok = ap (λ r. some (given r.0, r.1)) (malloc-chunks heap size)
  serve-chunks (dealloc a) ok = ap freed_reply (free-chunks heap a)
  serve-chunks (store i v) ok =
      ap (λ ws. some (done, record p { words = set ws i v })) heap.consists
      ∙ ap (λ ws. some (done, record p { words = ws })) (set-poke i v cs [] ok)
  serve-chunks query ok =
      ap (used_reply p) (get_used_size-chunks heap)
      ∙ ap (λ q. some (used (min 0xffff (used_words cs)), q)) (same_pool heap)

  serve-IsHeap :
      (c : Call) → IsHeap (holding p (chunk_serve base cs c).1) base (chunk_serve base cs c).1
  unfolding chunk_serve
  serve-IsHeap (alloc size) =
      let (all, long) = after_alloc-kept heap size in
      next-IsHeap heap (after_alloc size cs) all long
  serve-IsHeap (dealloc a) =
      let (all, long) = after_free-kept base a cs heap.chunks in
      next-IsHeap heap (after_free base a cs) all long
  serve-IsHeap (store i v) =
      let (all, long) = poke-kept i v 0 cs heap.chunks in next-IsHeap heap (poke i v 0 cs) all long
  serve-IsHeap query = next-IsHeap heap cs heap.chunks refl

infixl 1 ◌>>=◌
abbrev ◌>>=◌ : {A B : Type 0} → Option A → (A → Option B) → Option B
none >>= f = none
(some a) >>= f = f a

-- A sequence of calls on the memory.
unfoldable pub run : Pool → List Call → Option (List Reply × Pool)
run p [] = some ([], p)
run p (c ∷ calls) = do
  (reply, q) ← serve p c
  (replies, last) ← run q calls
  some (reply ∷ replies, last)

-- A sequence of calls on the chunks, and whether each is allowed when its turn comes.
unfoldable pub chunk_run : ℕ → List Chunk → List Call → List Reply × List Chunk
chunk_run base cs [] = ([], cs)
chunk_run base cs (c ∷ calls) =
    let (reply, ds) = chunk_serve base cs c in
    let (replies, last) = chunk_run base ds calls in (reply ∷ replies, last)

abbrev pub AreAllowed : ℕ → List Chunk → List Call → Type 0
AreAllowed base cs [] = Unit
AreAllowed base cs (c ∷ calls) = IsAllowed cs c × AreAllowed base (chunk_serve base cs c).1 calls

-- The pool implements its chunks. Take a pool of at least two words whose memory is a sequence
-- of blocks and of free words that look like no header, at an address that 4 divides: whatever
-- calls are made in whatever order, if clients write only into the contents of blocks that
-- they hold, each call on the memory ends, replies what the chunks say, and leaves the memory
-- of the chunks after it.
pub run-chunks :
    (calls : List Call) (p : Pool) (base : ℕ) (cs : List Chunk)
    → IsHeap p base cs
    → AreAllowed base cs calls
    → (run p calls ≡ some ((chunk_run base cs calls).0, holding p (chunk_run base cs calls).1))
      × IsHeap (holding p (chunk_run base cs calls).1) base (chunk_run base cs calls).1
unfolding run chunk_run
run-chunks [] p base cs heap ok =
    (ap (λ q. some ([], q)) (same_pool heap), next-IsHeap heap cs heap.chunks refl)
run-chunks (c ∷ calls) p base cs heap ok =
    let (_, ds) = chunk_serve base cs c in
    let (rest, last) = run-chunks calls (holding p ds) base ds (serve-IsHeap heap c) ok.1 in
    (rw (serve-chunks heap c ok.0, rest) refl, last)
