-- ===== src/Pool/Search.antt =====
-- The search of LLOS_malloc finds the first place where the block fits, and the header that it writes there makes
-- the block.
use llos.Base.{
  ℕ, zero, suc, ◌+◌, ◌≤◌, ◌<◌, ◌≡◌, refl, sym, ap, ◌∙◌, arith, true, false, Option, none, some,
  List, [], ◌∷◌, ◌++◌, if◌then◌else◌, ltb, leb, ◌==◌, min, length, length-append, Bool-cases, inl,
  inr,
}
use llos.Pool.{header, Scan, spent, damaged, left_at, gap_loop, fit_loop}
use llos.Pool.Chunks.{
  Chunk, free_word, block, flatten, AreChunks, free_run, first_fit, contents_of, skip, header-read,
}
use llos.Pool.Scans.{word_at-here, passed, block-inside}

gap_loop-chunks :
    (left : ℕ) (cs : List Chunk) (pre : List ℕ)
    → AreChunks cs
    → gap_loop left (pre ++ flatten cs) (length pre + length (flatten cs)) (length pre)
      ≡ length pre + min left (free_run cs)
unfolding gap_loop
gap_loop-chunks zero cs pre all = omega arith
gap_loop-chunks (suc left) [] pre all =
    let over : ltb (length pre) (length pre + 0) ≡ false = ground arith in rw over (omega arith)
gap_loop-chunks (suc left) (free_word w ∷ cs) pre all =
    let here = word_at-here pre w (flatten cs) in
    let inside : ltb (length pre) (length pre + suc (length (flatten cs))) ≡ true = ground arith in
    rw (inside, here, all.0)
      (passed (λ ws end next. gap_loop left ws end next) pre (w ∷ []) (flatten cs)
        ∙ gap_loop-chunks left cs (pre ++ w ∷ []) all.1
        ∙ omega (arith, length-append pre (w ∷ [])))
gap_loop-chunks (suc left) (block contents ∷ cs) pre all =
    let n = length contents in
    let here = word_at-here pre (header n) (contents ++ flatten cs) in
    let (known, _) = header-read n all.0.1 in
    let (inside, _, _) = block-inside pre contents (flatten cs) all.0.0 in
    rw (inside, here, known) (omega arith)

-- The free words at the front of a sequence, and what follows.
free_run-fits : (cs : List Chunk) → free_run cs ≤ length (flatten cs)
free_run-fits [] = omega arith
free_run-fits (free_word w ∷ cs) = omega (arith, free_run-fits cs)
free_run-fits (block contents ∷ cs) = omega arith

pub contents_of-skip :
    (n : ℕ) (cs : List Chunk)
    → n ≤ free_run cs
    → (contents_of n cs ++ flatten (skip n cs) ≡ flatten cs) × (length (contents_of n cs) ≡ n)
contents_of-skip zero cs h = (refl, refl)
contents_of-skip (suc n) [] h = absurd (omega (arith, h))
contents_of-skip (suc n) (free_word w ∷ cs) h =
    let (whole, long) = contents_of-skip n cs (omega (arith, h)) in
    (ap (λ ws. w ∷ ws) whole, ap suc long)
contents_of-skip (suc n) (block contents ∷ cs) h = absurd (omega (arith, h))

pub AreChunks-skip : (n : ℕ) (cs : List Chunk) → AreChunks cs → AreChunks (skip n cs)
AreChunks-skip zero cs all = all
AreChunks-skip (suc n) [] all = all
AreChunks-skip (suc n) (c ∷ cs) all = AreChunks-skip n cs all.1

length-skip : (n : ℕ) (cs : List Chunk) → length (skip n cs) ≤ length cs
length-skip zero cs = omega arith
length-skip (suc n) [] = omega arith
length-skip (suc n) (c ∷ cs) = omega (arith, length-skip n cs)

-- A place that is found has room, and a run that is too short is passed over.
pub first_fit-short :
    (total pos : ℕ) (cs : List Chunk) → length (flatten cs) < total → first_fit total pos cs ≡ none
unfolding first_fit
first_fit-short total pos [] h = refl
first_fit-short total pos (free_word w ∷ cs) h =
    let narrow : leb total (suc (free_run cs)) ≡ false = ground (arith, h, free_run-fits cs) in
    rw narrow (first_fit-short total (pos + 1) cs (omega (arith, h)))
first_fit-short total pos (block contents ∷ cs) h =
    first_fit-short total (pos + (length contents + 1)) cs
      (omega (arith, h, length-append contents (flatten cs)))

first_fit-skip :
    (total pos : ℕ) (cs : List Chunk)
    → free_run cs < total
    → first_fit total pos cs ≡ first_fit total (pos + free_run cs) (skip (free_run cs) cs)
unfolding first_fit
first_fit-skip total pos [] h = refl
first_fit-skip total pos (free_word w ∷ cs) h =
    let narrow : leb total (suc (free_run cs)) ≡ false = ground (arith, h) in
    let there : pos + 1 + free_run cs ≡ pos + suc (free_run cs) = omega arith in
    rw narrow (
      first_fit-skip total (pos + 1) cs (omega (arith, h))
      ∙ ap (λ n. first_fit total n (skip (free_run cs) cs)) there)
first_fit-skip total pos (block contents ∷ cs) h =
    let there : pos ≡ pos + 0 = omega arith in
    ap (λ n. first_fit total (n + (length contents + 1)) cs) there

-- What the scan means for the end of LLOS_malloc.
abbrev pub found : ℕ → ℕ → Scan → Option ℕ
found end total spent = none
found end total damaged = none
found end total (left_at head) = if ltb end (head + total) then none else some head

-- What the search finds from a place on.
abbrev search : ℕ → ℕ → List ℕ → ℕ → ℕ → Option ℕ
search fuel words ws end head = found end (words + 1) (fit_loop fuel words ws end head)

search-full :
    (fuel words : ℕ) (cs : List Chunk) (pre : List ℕ)
    → leb (length pre + (words + 1)) (length pre + length (flatten cs)) ≡ false
    → search (suc fuel) words (pre ++ flatten cs) (length pre + length (flatten cs)) (length pre)
      ≡ first_fit (words + 1) (length pre) cs
unfolding fit_loop
search-full fuel words cs pre full =
    let over : ltb (length pre + length (flatten cs)) (length pre + (words + 1)) ≡ true =
      ground (arith, full) in
    rw (full, over) (sym (first_fit-short (words + 1) (length pre) cs (ground (arith, full))))

-- The place that the inner loop reaches from a free word.
gap-next :
    (words w : ℕ) (cs : List Chunk) (pre : List ℕ)
    → AreChunks cs
    → gap_loop words
        (pre ++ w ∷ flatten cs)
        (length pre + suc (length (flatten cs)))
        (length pre + 1)
      ≡ length pre + 1 + min words (free_run cs)
gap-next words w cs pre all =
    passed (λ ws end next. gap_loop words ws end next) pre (w ∷ []) (flatten cs)
    ∙ gap_loop-chunks words cs (pre ++ w ∷ []) all
    ∙ omega (arith, length-append pre (w ∷ []))

-- A free word where the block does not fit: the search goes on behind its run.
search-narrow :
    (fuel words w : ℕ) (cs : List Chunk) (pre : List ℕ)
    → free_run cs < words
    → let r = free_run cs in
      search fuel words
        (pre ++ w ∷ flatten cs)
        (length pre + suc (length (flatten cs)))
        (length pre + suc r)
      ≡ search fuel words
          ((pre ++ w ∷ contents_of r cs) ++ flatten (skip r cs))
          (length (pre ++ w ∷ contents_of r cs) + length (flatten (skip r cs)))
          (length (pre ++ w ∷ contents_of r cs))
search-narrow fuel words w cs pre short =
    let r = free_run cs in
    let (whole, long) = contents_of-skip r cs (omega arith) in
    ap (λ xs. search fuel words (pre ++ w ∷ xs) (length pre + suc (length xs)) (length pre + suc r))
      (sym whole)
    ∙ ap
        (λ n.
          search fuel words (pre ++ w ∷ (contents_of r cs ++ flatten (skip r cs)))
            (length pre + suc (length (contents_of r cs ++ flatten (skip r cs))))
            (length pre + suc n))
        (sym long)
    ∙ passed (λ ws end head. search fuel words ws end head) pre (w ∷ contents_of r cs)
        (flatten (skip r cs))

pub fit_loop-chunks :
    (fuel words : ℕ) (cs : List Chunk) (pre : List ℕ)
    → AreChunks cs
    → length cs < fuel
    → search fuel words (pre ++ flatten cs) (length pre + length (flatten cs)) (length pre)
      ≡ first_fit (words + 1) (length pre) cs
unfolding fit_loop first_fit
fit_loop-chunks zero words cs pre all enough = absurd (omega (arith, enough))
fit_loop-chunks (suc fuel) words [] pre all enough = search-full fuel words [] pre (ground arith)
fit_loop-chunks (suc fuel) words (free_word w ∷ cs) pre all enough =
    let r = free_run cs in
    let here = word_at-here pre w (flatten cs) in
    let next = gap-next words w cs pre all.1 in
    elim (Bool-cases (leb (length pre + (words + 1)) (length pre + suc (length (flatten cs))))) [
      | inr full ↦ search-full fuel words (free_word w ∷ cs) pre full
      | inl room ↦ elim (Bool-cases (leb (words + 1) (suc r))) [
        | inl wide ↦
            let hit : (gap_loop words (pre ++ w ∷ flatten cs)
                    (length pre + suc (length (flatten cs))) (length pre + 1)
                  == length pre + (words + 1))
                ≡ true =
              ground (arith, next, wide) in
            let fits : ltb (length pre + suc (length (flatten cs))) (length pre + (words + 1))
                ≡ false =
              ground (arith, room) in
            rw (room, here, all.0, hit, wide, fits) refl
        | inr narrow ↦
            let short : r < words = ground (arith, narrow) in
            let (_, long) = contents_of-skip r cs (omega arith) in
            let miss : (gap_loop words (pre ++ w ∷ flatten cs)
                    (length pre + suc (length (flatten cs))) (length pre + 1)
                  == length pre + (words + 1))
                ≡ false =
              ground (arith, next, short) in
            let there : gap_loop words (pre ++ w ∷ flatten cs)
                  (length pre + suc (length (flatten cs))) (length pre + 1)
                ≡ length pre + suc r =
              omega (arith, next, short) in
            let reached : length (pre ++ w ∷ contents_of r cs) ≡ length pre + 1 + r =
              omega (arith, length-append pre (w ∷ contents_of r cs), long) in
            rw (room, here, all.0, miss, narrow)
              (ap
                  (λ n.
                    search fuel words (pre ++ w ∷ flatten cs)
                      (length pre + suc (length (flatten cs))) n)
                  there
                ∙ search-narrow fuel words w cs pre short
                ∙ fit_loop-chunks fuel words (skip r cs) (pre ++ w ∷ contents_of r cs)
                    (AreChunks-skip r cs all.1) (omega (arith, enough, length-skip r cs))
                ∙ ap (λ n. first_fit (words + 1) n (skip r cs)) reached
                ∙ sym (first_fit-skip (words + 1) (length pre + 1) cs (omega (arith, short))))
      ]
    ]
fit_loop-chunks (suc fuel) words (block contents ∷ cs) pre all enough =
    let n = length contents in
    let rest = flatten cs in
    let here = word_at-here pre (header n) (contents ++ rest) in
    let (known, length_read) = header-read n all.0.1 in
    let (_, nonzero, bounded) = block-inside pre contents rest all.0.0 in
    let more : n + 1 ≡ suc n = omega arith in
    elim (Bool-cases
      (leb (length pre + (words + 1)) (length pre + suc (length (contents ++ rest))))) [
        | inr full ↦ search-full fuel words (block contents ∷ cs) pre full
        | inl room ↦
            rw (room, here, known, length_read, nonzero, bounded)
              (ap
                  (λ k.
                    search fuel words (pre ++ header n ∷ (contents ++ rest))
                      (length pre + suc (length (contents ++ rest))) (length pre + k))
                  more
                ∙ passed (λ ws end head. search fuel words ws end head) pre (header n ∷ contents)
                    rest
                ∙ fit_loop-chunks fuel words cs (pre ++ header n ∷ contents) all.1
                    (omega (arith, enough))
                ∙ ap (λ k. first_fit (words + 1) k cs)
                    (length-append pre (header n ∷ contents) ∙ ap (λ k. length pre + k) (sym more)))
      ]
