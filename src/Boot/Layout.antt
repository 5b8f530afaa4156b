-- ===== src/Boot/Layout.antt =====
-- A pool in which blocks of zeros stand one after the other, and then free words: what LLOS_malloc does there.
use mathlib.Core.Path.{subst}
use mathlib.Core.List.{append_assoc}
use llos.Base.{
  ℕ, length-replicate, zero, suc, ◌+◌, ◌-◌, ◌*◌, ◌/◌, ◌≤◌, ◌<◌, ◌≡◌, refl, sym, ap, ◌∙◌, arith,
  true, false, ◌||◌, none, some, List, [], ◌∷◌, ◌++◌, map, ltb, leb, ◌==◌, length, length-append,
  replicate,
}
use llos.Pool.{Pool, malloc, erase, header}
use llos.Pool.Chunks.{
  Chunk, free_word, block, flatten, IsHeap, free_run, first_fit, contents_of, skip, carve,
}
use llos.Pool.Scans.{erase-here}
use llos.Pool.Heap.{
  allocated, address, after_alloc, holding, malloc-chunks, after_alloc-kept, same_pool, next-IsHeap,
}
use llos.Boot.{clear_block}

-- Words that are zero.
abbrev pub blank : ℕ → List ℕ
blank n = replicate n 0

length-blank : (n : ℕ) → length (blank n) ≡ n
length-blank n = length-replicate n 0

-- Blocks of `bs` words each, and `n` free words.
abbrev pub zeros : ℕ → List Chunk
zeros n = map free_word (replicate n 0)

abbrev pub layout : List ℕ → ℕ → List Chunk
layout [] n = zeros n
layout (w ∷ bs) n = block (blank w) ∷ layout bs n

abbrev pub taken : List ℕ → ℕ
taken [] = 0
taken (w ∷ bs) = w + 1 + taken bs

pub taken-append : (bs : List ℕ) (w : ℕ) → taken (bs ++ w ∷ []) ≡ taken bs + (w + 1)
taken-append [] w = omega arith
taken-append (b ∷ bs) w = omega (arith, taken-append bs w)

free_run-zeros : (n : ℕ) → free_run (zeros n) ≡ n
free_run-zeros zero = refl
free_run-zeros (suc n) = ap suc (free_run-zeros n)

first_fit-zeros :
    (total pos n : ℕ) → 1 ≤ total → total ≤ n → first_fit total pos (zeros n) ≡ some pos
unfolding first_fit
first_fit-zeros total pos zero low h = absurd (omega (arith, low, h))
first_fit-zeros total pos (suc n) low h =
    let wide : leb total (suc (free_run (zeros n))) ≡ true = ground (arith, h, free_run-zeros n) in
    rw wide refl

first_fit-zeros-none : (total pos n : ℕ) → n < total → first_fit total pos (zeros n) ≡ none
unfolding first_fit
first_fit-zeros-none total pos zero h = refl
first_fit-zeros-none total pos (suc n) h =
    let narrow : leb total (suc (free_run (zeros n))) ≡ false =
      ground (arith, h, free_run-zeros n) in
    rw narrow (first_fit-zeros-none total (pos + 1) n (omega (arith, h)))

first_fit-layout :
    (w pos n : ℕ) (bs : List ℕ)
    → w + 1 ≤ n
    → first_fit (w + 1) pos (layout bs n) ≡ some (pos + taken bs)
unfolding first_fit
first_fit-layout w pos n [] h =
    first_fit-zeros (w + 1) pos n (omega arith) h ∙ ap some (omega arith)
first_fit-layout w pos n (b ∷ bs) h =
    first_fit-layout w (pos + (length (blank b) + 1)) n bs h
    ∙ ap some (omega (arith, length-blank b))

first_fit-layout-none :
    (w pos n : ℕ) (bs : List ℕ) → n < w + 1 → first_fit (w + 1) pos (layout bs n) ≡ none
unfolding first_fit
first_fit-layout-none w pos n [] h = first_fit-zeros-none (w + 1) pos n h
first_fit-layout-none w pos n (b ∷ bs) h =
    first_fit-layout-none w (pos + (length (blank b) + 1)) n bs h

contents_of-zeros : (w n : ℕ) → w ≤ n → contents_of w (zeros n) ≡ blank w
contents_of-zeros zero n h = refl
contents_of-zeros (suc w) zero h = absurd (omega (arith, h))
contents_of-zeros (suc w) (suc n) h = ap (λ ws. 0 ∷ ws) (contents_of-zeros w n (omega (arith, h)))

skip-zeros : (w n : ℕ) → w ≤ n → skip w (zeros n) ≡ zeros (n - w)
skip-zeros zero n h = let e : n ≡ n - 0 = omega arith in ap zeros e
skip-zeros (suc w) zero h = absurd (omega (arith, h))
skip-zeros (suc w) (suc n) h =
    let e : n - w ≡ suc n - suc w = omega arith in skip-zeros w n (omega (arith, h)) ∙ ap zeros e

carve-layout :
    (w n : ℕ) (bs : List ℕ)
    → w + 1 ≤ n
    → carve w (layout bs n) ≡ layout (bs ++ w ∷ []) (n - (w + 1))
unfolding carve
carve-layout w zero [] h = absurd (omega (arith, h))
carve-layout w (suc n) [] h =
    let wide : leb (w + 1) (suc (free_run (zeros n))) ≡ true =
      ground (arith, h, free_run-zeros n) in
    let fits : w ≤ n = omega (arith, h) in
    let rest : n - w ≡ suc n - (w + 1) = omega arith in
    rw wide (
      ap (λ ws. block ws ∷ skip w (zeros n)) (contents_of-zeros w n fits)
      ∙ ap (λ cs. block (blank w) ∷ cs) (skip-zeros w n fits ∙ ap zeros rest))
carve-layout w n (b ∷ bs) h = ap (λ cs. block (blank b) ∷ cs) (carve-layout w n bs h)

-- The last block between what stands before it and after it.
abbrev prefix_of : List ℕ → ℕ → List ℕ
prefix_of bs w = flatten (layout bs 0) ++ header (length (blank w)) ∷ []

flatten-layout :
    (bs : List ℕ) (w n : ℕ)
    → flatten (layout (bs ++ w ∷ []) n) ≡ prefix_of bs w ++ (blank w ++ flatten (zeros n))
flatten-layout [] w n = refl
flatten-layout (b ∷ bs) w n =
    let head = header (length (blank b)) ∷ blank b in
    ap (λ ws. head ++ ws) (flatten-layout bs w n)
    ∙ sym (append_assoc head (prefix_of bs w) (blank w ++ flatten (zeros n)))
    ∙ ap (λ ws. ws ++ (blank w ++ flatten (zeros n)))
        (sym (append_assoc head (flatten (layout bs 0)) (header (length (blank w)) ∷ [])))

length-prefix_of : (bs : List ℕ) (w : ℕ) → length (prefix_of bs w) ≡ taken bs + 1
length-prefix_of [] w = refl
length-prefix_of (b ∷ bs) w = omega (
  arith,
  length-prefix_of bs w,
  length-append (flatten (layout bs 0)) (header (length (blank w)) ∷ []),
  length-append (blank b) (flatten (layout bs 0)),
  length-append (header (length (blank b)) ∷ blank b ++ flatten (layout bs 0))
      (header (length (blank w)) ∷ []),
  length-blank b,
)

pub erase-layout :
    (bs : List ℕ) (w n : ℕ)
    → erase w (taken bs + 1) (flatten (layout (bs ++ w ∷ []) n)) ≡ flatten (layout (bs ++ w ∷ []) n)
erase-layout bs w n =
    ap (λ k. erase k (taken bs + 1) (flatten (layout (bs ++ w ∷ []) n))) (sym (length-blank w))
    ∙ ap (λ i. erase (length (blank w)) i (flatten (layout (bs ++ w ∷ []) n)))
        (sym (length-prefix_of bs w))
    ∙ ap (erase (length (blank w)) (length (prefix_of bs w))) (flatten-layout bs w n)
    ∙ erase-here (blank w) (prefix_of bs w) (flatten (zeros n))
    ∙ ap (λ k. prefix_of bs w ++ (replicate k 0 ++ flatten (zeros n))) (length-blank w)
    ∙ sym (flatten-layout bs w n)

module _ (p : Pool) (base n : ℕ) (bs : List ℕ) (w : ℕ) (heap : IsHeap p base (layout bs n))
    (low : 1 ≤ w) (high : w ≤ 0xffff) where
  allocated-layout : allocated (4 * w) (layout bs n) ≡ first_fit (w + 1) 0 (layout bs n)
  unfolding allocated
  allocated-layout =
      let words : (4 * w + 3) / 4 ≡ w = omega arith in
      let fine : ((4 * w == 0) || ltb 0xffff w) ≡ false = ground (arith, low, high) in
      rw (words, fine) refl

  -- Where there is room, the request becomes the next block.
  pub malloc-layout :
      w + 1 ≤ n
      → (malloc p (4 * w)
          ≡ (some (base + 4 * (taken bs + 1)), holding p (layout (bs ++ w ∷ []) (n - (w + 1)))))
        × IsHeap
            (holding p (layout (bs ++ w ∷ []) (n - (w + 1))))
            base
            (layout (bs ++ w ∷ []) (n - (w + 1)))
  malloc-layout room =
      let words : (4 * w + 3) / 4 ≡ w = omega arith in
      let there : allocated (4 * w) (layout bs n) ≡ some (0 + taken bs) =
        allocated-layout ∙ first_fit-layout w 0 n bs room in
      let here : 0 + taken bs ≡ taken bs = omega arith in
      let after : after_alloc (4 * w) (layout bs n) ≡ layout (bs ++ w ∷ []) (n - (w + 1)) =
        rw (there, words) (carve-layout w n bs room) in
      let (all, long) = after_alloc-kept heap (4 * w) in
      (
        malloc-chunks heap (4 * w)
            ∙ ap (λ cs. (address base (allocated (4 * w) (layout bs n)), holding p cs)) after
            ∙ ap (λ o. (address base o, holding p (layout (bs ++ w ∷ []) (n - (w + 1)))))
                (there ∙ ap some here),
        subst (λ cs. IsHeap (holding p cs) base cs) after
            (next-IsHeap heap (after_alloc (4 * w) (layout bs n)) all long),
      )

  pub malloc-layout-none : n < w + 1 → malloc p (4 * w) ≡ (none, p)
  malloc-layout-none full =
      let nowhere : allocated (4 * w) (layout bs n) ≡ none =
        allocated-layout ∙ first_fit-layout-none w 0 n bs full in
      malloc-chunks heap (4 * w) ∙ rw nowhere (ap (λ q. (none, q)) (sym (same_pool heap)))

-- Clearing the last block changes nothing.
pub clear_block-layout :
    (p : Pool) (base n w : ℕ) (bs : List ℕ)
    → p.p_pool ≡ some base
    → clear_block (holding p (layout (bs ++ w ∷ []) n)) (base + 4 * (taken bs + 1)) (4 * w)
      ≡ holding p (layout (bs ++ w ∷ []) n)
unfolding clear_block
clear_block-layout p base n w bs based =
    let cs : List Chunk = layout (bs ++ w ∷ []) n in
    let a : ℕ = base + 4 * (taken bs + 1) in
    let size : 4 * w / 4 ≡ w = omega arith in
    let index : (a - base) / 4 ≡ taken bs + 1 = omega arith in
    ap
      (λ o. elim o [
        | none ↦ holding p cs
        | some b ↦ record (holding p cs) { words = erase (4 * w / 4) ((a - b) / 4) (flatten cs) }
      ])
      based
    ∙ ap (λ k. record (holding p cs) { words = erase k ((a - base) / 4) (flatten cs) }) size
    ∙ ap (λ i. record (holding p cs) { words = erase w i (flatten cs) }) index
    ∙ ap (λ ws. record (holding p cs) { words = ws }) (erase-layout bs w n)
