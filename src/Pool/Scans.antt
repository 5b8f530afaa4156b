-- ===== src/Pool/Scans.antt =====
-- The scans of the pool, over chunks that stand after some words.
use mathlib.Core.List.{append_assoc}
use llos.Base.{
  ℕ, zero, suc, ◌+◌, ◌*◌, ◌≤◌, ◌<◌, ◌≡◌, refl, sym, ap, ◌∙◌, arith, true, false, some, List, [],
  ◌∷◌, ◌++◌, ltb, ◌==◌, length, length-append, set, replicate, map, Bool-cases, inl, inr,
}
use llos.Pool.{word_at, header, used_loop, free_loop, erase}
use llos.Pool.Chunks.{Chunk, free_word, block, flatten, AreChunks, used_words, release, header-read}

pub word_at-here :
    (pre : List ℕ) (w : ℕ) (rest : List ℕ) → word_at (pre ++ w ∷ rest) (length pre) ≡ w
word_at-here [] w rest = refl
word_at-here (x ∷ xs) w rest = word_at-here xs w rest

pub set-here :
    (pre : List ℕ) (w v : ℕ) (rest : List ℕ)
    → set (pre ++ w ∷ rest) (length pre) v ≡ pre ++ v ∷ rest
set-here [] w v rest = refl
set-here (x ∷ xs) w v rest = ap (λ ys. x ∷ ys) (set-here xs w v rest)

-- A scan that has passed the words `xs`.
pub passed :
    {X : Type 0} (f : List ℕ → ℕ → ℕ → X) (pre xs ys : List ℕ)
    → f (pre ++ (xs ++ ys)) (length pre + length (xs ++ ys)) (length pre + length xs)
      ≡ f ((pre ++ xs) ++ ys) (length (pre ++ xs) + length ys) (length (pre ++ xs))
passed f pre xs ys =
    let whole : length pre + length (xs ++ ys) ≡ length (pre ++ xs) + length ys =
      omega (arith, length-append xs ys, length-append pre xs) in
    ap (λ ws. f ws (length pre + length (xs ++ ys)) (length pre + length xs))
      (sym (append_assoc pre xs ys))
    ∙ ap (λ n. f ((pre ++ xs) ++ ys) n (length pre + length xs)) whole
    ∙ ap (λ n. f ((pre ++ xs) ++ ys) (length (pre ++ xs) + length ys) n)
        (sym (length-append pre xs))

-- What the tests of the loops say at a block.
pub block-inside :
    (pre contents rest : List ℕ)
    → 1 ≤ length contents
    → (ltb (length pre) (length pre + suc (length (contents ++ rest))) ≡ true)
      × ((length contents == 0) ≡ false)
      × (ltb (length pre + suc (length (contents ++ rest))) (length pre + length contents + 1)
          ≡ false)
block-inside pre contents rest h =
    (ground arith, ground (arith, h), ground (arith, length-append contents rest))

pub used_loop-chunks :
    (cs : List Chunk) (pre : List ℕ) (fuel used : ℕ)
    → AreChunks cs
    → length cs < fuel
    → used_loop fuel (pre ++ flatten cs) (length pre + length (flatten cs)) (length pre) used
      ≡ some (used + used_words cs)
unfolding used_loop
used_loop-chunks cs pre zero used all enough = absurd (omega (arith, enough))
used_loop-chunks [] pre (suc fuel) used all enough =
    let over : ltb (length pre) (length pre + 0) ≡ false = ground arith in
    rw over (ap some (omega arith))
used_loop-chunks (free_word w ∷ cs) pre (suc fuel) used all enough =
    let here = word_at-here pre w (flatten cs) in
    let inside : ltb (length pre) (length pre + suc (length (flatten cs))) ≡ true = ground arith in
    rw (inside, here, all.0)
      (passed (λ ws end head. used_loop fuel ws end head used) pre (w ∷ []) (flatten cs)
        ∙ used_loop-chunks cs (pre ++ w ∷ []) fuel used all.1 (omega (arith, enough)))
used_loop-chunks (block contents ∷ cs) pre (suc fuel) used all enough =
    let n = length contents in
    let rest = flatten cs in
    let here = word_at-here pre (header n) (contents ++ rest) in
    let (known, length_read) = header-read n all.0.1 in
    let (inside, nonzero, bounded) = block-inside pre contents rest all.0.0 in
    let more : n + 1 ≡ suc n = omega arith in
    rw (inside, here, known, length_read, nonzero, bounded)
      (ap
          (λ k.
            used_loop fuel (pre ++ header n ∷ (contents ++ rest))
              (length pre + suc (length (contents ++ rest))) (length pre + k) (used + (n + 1)))
          more
        ∙ passed (λ ws end head. used_loop fuel ws end head (used + (n + 1))) pre
            (header n ∷ contents) rest
        ∙ used_loop-chunks cs (pre ++ header n ∷ contents) fuel (used + (n + 1)) all.1
            (omega (arith, enough))
        ∙ ap some (omega arith))

-- The loop of LLOS_free puts zeros over a block.
pub erase-here :
    (xs pre rest : List ℕ)
    → erase (length xs) (length pre) (pre ++ (xs ++ rest))
      ≡ pre ++ (replicate (length xs) 0 ++ rest)
unfolding erase
erase-here [] pre rest = refl
erase-here (x ∷ xs) pre rest =
    let one : length pre + 1 ≡ length (pre ++ 0 ∷ []) = omega (arith, length-append pre (0 ∷ [])) in
    ap (λ ws. erase (length xs) (length pre + 1) ws) (set-here pre x 0 (xs ++ rest))
    ∙ ap (λ ws. erase (length xs) (length pre + 1) ws)
        (sym (append_assoc pre (0 ∷ []) (xs ++ rest)))
    ∙ ap (λ i. erase (length xs) i ((pre ++ 0 ∷ []) ++ (xs ++ rest))) one
    ∙ erase-here xs (pre ++ 0 ∷ []) rest
    ∙ append_assoc pre (0 ∷ []) (replicate (length xs) 0 ++ rest)

pub flatten-free_words :
    (ws : List ℕ) (cs : List Chunk) → flatten (map free_word ws ++ cs) ≡ ws ++ flatten cs
flatten-free_words [] cs = refl
flatten-free_words (w ∷ ws) cs = ap (λ xs. w ∷ xs) (flatten-free_words ws cs)

pub free_loop-chunks :
    (cs : List Chunk) (pre : List ℕ) (fuel base a : ℕ)
    → AreChunks cs
    → length cs < fuel
    → free_loop fuel base a (pre ++ flatten cs) (length pre + length (flatten cs)) (length pre)
      ≡ some (pre ++ flatten (release base a (length pre) cs))
unfolding free_loop release
free_loop-chunks cs pre zero base a all enough = absurd (omega (arith, enough))
free_loop-chunks [] pre (suc fuel) base a all enough =
    let over : ltb (length pre) (length pre + 0) ≡ false = ground arith in rw over refl
free_loop-chunks (free_word w ∷ cs) pre (suc fuel) base a all enough =
    let here = word_at-here pre w (flatten cs) in
    let inside : ltb (length pre) (length pre + suc (length (flatten cs))) ≡ true = ground arith in
    rw (inside, here, all.0)
      (passed (λ ws end head. free_loop fuel base a ws end head) pre (w ∷ []) (flatten cs)
        ∙ free_loop-chunks cs (pre ++ w ∷ []) fuel base a all.1 (omega (arith, enough))
        ∙ ap (λ n. some ((pre ++ w ∷ []) ++ flatten (release base a n cs)))
            (length-append pre (w ∷ []))
        ∙ ap some (append_assoc pre (w ∷ []) (flatten (release base a (length pre + 1) cs))))
free_loop-chunks (block contents ∷ cs) pre (suc fuel) base a all enough =
    let n = length contents in
    let rest = flatten cs in
    let here = word_at-here pre (header n) (contents ++ rest) in
    let (known, length_read) = header-read n all.0.1 in
    let (inside, nonzero, bounded) = block-inside pre contents rest all.0.0 in
    let more : n + 1 ≡ suc n = omega arith in
    rw (inside, here, known, length_read, nonzero, bounded)
      (elim (Bool-cases (base + 4 * (length pre + 1) == a)) [
        | inl hit ↦ rw hit (
            ap some (
              ap (λ k. erase k (length pre) (pre ++ header n ∷ (contents ++ rest))) more
              ∙ erase-here (header n ∷ contents) pre rest
              ∙ ap (λ k. pre ++ (replicate k 0 ++ rest)) (sym more)
              ∙ ap (λ ws. pre ++ ws) (sym (flatten-free_words (replicate (n + 1) 0) cs))))
        | inr other ↦ rw other (
            ap
              (λ k.
                free_loop fuel base a (pre ++ header n ∷ (contents ++ rest))
                  (length pre + suc (length (contents ++ rest))) (length pre + k))
              more
            ∙ passed (λ ws end head. free_loop fuel base a ws end head) pre (header n ∷ contents)
                rest
            ∙ free_loop-chunks cs (pre ++ header n ∷ contents) fuel base a all.1
                (omega (arith, enough))
            ∙ ap (λ k. some ((pre ++ header n ∷ contents) ++ flatten (release base a k cs)))
                (length-append pre (header n ∷ contents) ∙ ap (λ k. length pre + k) (sym more))
            ∙ ap some (
                append_assoc pre (header n ∷ contents)
                  (flatten (release base a (length pre + (n + 1)) cs))))
      ])
