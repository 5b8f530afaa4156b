-- ===== src/Pool/Stores.antt =====
-- A word that a client writes into its block.
use mathlib.Core.List.{append_assoc}
use llos.Base.{
  ℕ, zero, suc, ◌+◌, ◌-◌, ◌<◌, ◌≡◌, refl, sym, ap, ◌∙◌, arith, Bool, true, false, ◌&&◌, List, [],
  ◌∷◌, ◌++◌, if◌then◌else◌, ltb, leb, length, length-append, length-set, set, Bool-cases, inl, inr,
}
use llos.Pool.{header}
use llos.Pool.Chunks.{Chunk, free_word, block, flatten, AreChunks}

-- Does the word `i` belong to the contents of a block that starts at `pos`?
abbrev pub is_within : ℕ → ℕ → List ℕ → Bool
is_within i pos contents = leb (pos + 1) i && ltb i (pos + (length contents + 1))

-- Is the word `i` in the contents of a block, and the chunks after a write there.
unfoldable pub is_owned : ℕ → ℕ → List Chunk → Bool
is_owned i pos [] = false
is_owned i pos (free_word w ∷ cs) = is_owned i (pos + 1) cs
is_owned i pos (block contents ∷ cs) =
    if is_within i pos contents then true else is_owned i (pos + (length contents + 1)) cs

unfoldable pub poke : ℕ → ℕ → ℕ → List Chunk → List Chunk
poke i v pos [] = []
poke i v pos (free_word w ∷ cs) = free_word w ∷ poke i v (pos + 1) cs
poke i v pos (block contents ∷ cs) =
    if is_within i pos contents
    then block (set contents (i - (pos + 1)) v) ∷ cs
    else block contents ∷ poke i v (pos + (length contents + 1)) cs

set-behind : (pre xs : List ℕ) (k v : ℕ) → set (pre ++ xs) (length pre + k) v ≡ pre ++ set xs k v
set-behind [] xs k v = let e : 0 + k ≡ k = omega arith in ap (λ i. set xs i v) e
set-behind (x ∷ pre) xs k v =
    let e : suc (length pre) + k ≡ suc (length pre + k) = omega arith in
    ap (λ i. set (x ∷ (pre ++ xs)) i v) e ∙ ap (λ ys. x ∷ ys) (set-behind pre xs k v)

set-before : (xs ys : List ℕ) (k v : ℕ) → k < length xs → set (xs ++ ys) k v ≡ set xs k v ++ ys
set-before [] ys k v h = absurd (omega (arith, h))
set-before (x ∷ xs) ys zero v h = refl
set-before (x ∷ xs) ys (suc k) v h = ap (λ zs. x ∷ zs) (set-before xs ys k v (omega (arith, h)))

pub set-poke :
    (i v : ℕ) (cs : List Chunk) (pre : List ℕ)
    → is_owned i (length pre) cs ≡ true
    → set (pre ++ flatten cs) i v ≡ pre ++ flatten (poke i v (length pre) cs)
unfolding is_owned poke
set-poke i v [] pre = λ e. ground (arith, e)
set-poke i v (free_word w ∷ cs) pre = λ e.
    let one = length-append pre (w ∷ []) in
    ap (λ ws. set ws i v) (sym (append_assoc pre (w ∷ []) (flatten cs)))
    ∙ set-poke i v cs (pre ++ w ∷ []) (ap (λ n. is_owned i n cs) one ∙ e)
    ∙ ap (λ n. (pre ++ w ∷ []) ++ flatten (poke i v n cs)) one
    ∙ append_assoc pre (w ∷ []) (flatten (poke i v (length pre + 1) cs))
set-poke i v (block contents ∷ cs) pre =
    let n = length contents in
    let k = i - (length pre + 1) in
    elim (Bool-cases (is_within i (length pre) contents)) [
      | inl own ↦
          let there : i ≡ length pre + suc k = ground (arith, own) in
          let same = length-set contents k v in
          rw own (λ e.
            ap (λ j. set (pre ++ header n ∷ (contents ++ flatten cs)) j v) there
            ∙ set-behind pre (header n ∷ (contents ++ flatten cs)) (suc k) v
            ∙ ap (λ xs. pre ++ header n ∷ xs)
                (set-before contents (flatten cs) k v (ground (arith, own)))
            ∙ ap (λ m. pre ++ header m ∷ (set contents k v ++ flatten cs)) (sym same))
      | inr other ↦
          let there : length (pre ++ header n ∷ contents) ≡ length pre + (n + 1) =
            omega (arith, length-append pre (header n ∷ contents)) in
          rw other (λ e.
            ap (λ ws. set ws i v) (sym (append_assoc pre (header n ∷ contents) (flatten cs)))
            ∙ set-poke i v cs (pre ++ header n ∷ contents) (ap (λ m. is_owned i m cs) there ∙ e)
            ∙ ap (λ m. (pre ++ header n ∷ contents) ++ flatten (poke i v m cs)) there
            ∙ append_assoc pre (header n ∷ contents) (flatten (poke i v (length pre + (n + 1)) cs)))
    ]

pub poke-kept :
    (i v pos : ℕ) (cs : List Chunk)
    → AreChunks cs
    → AreChunks (poke i v pos cs) × (length (flatten (poke i v pos cs)) ≡ length (flatten cs))
unfolding poke
poke-kept i v pos [] all = (all, refl)
poke-kept i v pos (free_word w ∷ cs) all =
    let (rest, long) = poke-kept i v (pos + 1) cs all.1 in ((all.0, rest), ap suc long)
poke-kept i v pos (block contents ∷ cs) all =
    let n = length contents in
    let k = i - (pos + 1) in
    elim (Bool-cases (is_within i pos contents)) [
      | inl own ↦
          let same = length-set contents k v in
          rw own (
            ((omega (arith, same, all.0.0), omega (arith, same, all.0.1)), all.1),
            omega (
              arith,
              same,
              length-append (set contents k v) (flatten cs),
              length-append contents (flatten cs),
            ),
          )
      | inr other ↦
          let (rest, long) = poke-kept i v (pos + (n + 1)) cs all.1 in
          rw other (
            (all.0, rest),
            omega (
              arith,
              length-append contents (flatten (poke i v (pos + (n + 1)) cs)),
              length-append contents (flatten cs),
              long,
            ),
          )
    ]
