-- ===== src/Pool/Fit.antt =====
-- The scans of the memory pool end, and the place that LLOS_malloc finds is free.
use llos.Base.{
  ℕ, zero, suc, ◌+◌, ◌-◌, ◌*◌, ◌/◌, ◌^◌, ◌≤◌, ◌<◌, ◌≡◌, ◌≢◌, refl, ap, ◌∙◌, arith, Bool, true,
  false, not, ◌&&◌, ◌||◌, Option, none, some, List, ltb, ◌==◌, set, Bool-cases, inl, inr, ◌⊎◌, sym,
}
use llos.Pool.{
  Pool, word_at, pool_end, is_header, block_length, header, Scan, spent, damaged, left_at, gap_loop,
  fit_loop, place, malloc, used_loop, free_loop,
}

-- None of the `n` words from `i` on is the header of a block.
unfoldable pub no_header : ℕ → List ℕ → ℕ → Bool
no_header zero ws i = true
no_header (suc n) ws i = not (is_header (word_at ws i)) && no_header n ws (i + 1)

gap_loop-bounds :
    (left : ℕ) (ws : List ℕ) (end next : ℕ)
    → (next ≤ gap_loop left ws end next) × (gap_loop left ws end next ≤ next + left)
unfolding gap_loop
gap_loop-bounds zero ws end next = omega arith
gap_loop-bounds (suc left) ws end next = ground (arith, gap_loop-bounds left ws end (next + 1))

gap_loop-no_header :
    (left : ℕ) (ws : List ℕ) (end next : ℕ)
    → gap_loop left ws end next ≡ next + left
    → no_header left ws next ≡ true
unfolding gap_loop no_header
gap_loop-no_header zero ws end next e = refl
gap_loop-no_header (suc left) ws end next e =
    ground (arith, e, gap_loop-no_header left ws end (next + 1))

abbrev pub is_spent : Scan → Bool
is_spent spent = true
is_spent damaged = false
is_spent (left_at head) = false

fit_loop-ends :
    (fuel words : ℕ) (ws : List ℕ) (end head : ℕ)
    → head ≤ end
    → end < head + fuel
    → is_spent (fit_loop fuel words ws end head) ≡ false
unfolding fit_loop
fit_loop-ends zero words ws end head inside enough = absurd (omega arith)
fit_loop-ends (suc fuel) words ws end head inside enough =
    let block : ℕ = block_length (word_at ws head) in
    let next : ℕ = gap_loop words ws end (head + 1) in
    ground (
      arith,
      enough,
      gap_loop-bounds words ws end (head + 1),
      fit_loop-ends fuel words ws end (head + (block + 1)),
      fit_loop-ends fuel words ws end next,
    )

used_loop-ends :
    (fuel : ℕ) (ws : List ℕ) (end head used : ℕ)
    → head ≤ end
    → end < head + fuel
    → used_loop fuel ws end head used ≢ none
unfolding used_loop
used_loop-ends zero ws end head used inside enough = absurd (omega arith)
used_loop-ends (suc fuel) ws end head used inside enough =
    let block : ℕ = block_length (word_at ws head) in
    ground (
      arith,
      enough,
      used_loop-ends fuel ws end (head + (block + 1)) (used + (block + 1)),
      used_loop-ends fuel ws end (head + 1) used,
    )

free_loop-ends :
    (fuel base a : ℕ) (ws : List ℕ) (end scan : ℕ)
    → scan ≤ end
    → end < scan + fuel
    → free_loop fuel base a ws end scan ≢ none
unfolding free_loop
free_loop-ends zero base a ws end scan inside enough = absurd (omega arith)
free_loop-ends (suc fuel) base a ws end scan inside enough =
    let size : ℕ = block_length (word_at ws scan) in
    ground (
      arith,
      enough,
      free_loop-ends fuel base a ws end (scan + (size + 1)),
      free_loop-ends fuel base a ws end (scan + 1),
    )

-- The scans of LLOS_malloc, LLOS_free and LLOS_Pool_GetUsedSize end within the fuel that they are
-- given, whatever is in the pool.
pub scans-end :
    (p : Pool) (base a words : ℕ)
    → (is_spent (fit_loop (pool_end p + 1) words p.words (pool_end p) 0) ≡ false)
      × (free_loop (pool_end p + 1) base a p.words (pool_end p) 0 ≢ none)
      × (used_loop (pool_end p + 1) p.words (pool_end p) 0 0 ≢ none)
scans-end p base a words = (
  fit_loop-ends (pool_end p + 1) words p.words (pool_end p) 0 (omega arith) (omega arith),
  free_loop-ends (pool_end p + 1) base a p.words (pool_end p) 0 (omega arith) (omega arith),
  used_loop-ends (pool_end p + 1) p.words (pool_end p) 0 0 (omega arith) (omega arith),
)

abbrev place_of : ℕ → Scan → ℕ
place_of other spent = other
place_of other damaged = other
place_of other (left_at head) = head

left_at-injective : (h h' : ℕ) → left_at h ≡ left_at h' → h ≡ h'
left_at-injective h h' e = ap (place_of 0) e

fit_loop-free :
    (fuel words : ℕ) (ws : List ℕ) (end head found : ℕ)
    → fit_loop fuel words ws end head ≡ left_at found
    → found + (words + 1) ≤ end
    → no_header (suc words) ws found ≡ true
unfolding fit_loop no_header
fit_loop-free zero words ws end head found e room = ground (arith, e)
fit_loop-free (suc fuel) words ws end head found e room =
    let block : ℕ = block_length (word_at ws head) in
    let next : ℕ = gap_loop words ws end (head + 1) in
    ground (
      arith,
      e,
      left_at-injective head found,
      gap_loop-no_header words ws end (head + 1),
      fit_loop-free fuel words ws end (head + (block + 1)) found,
      fit_loop-free fuel words ws end next found,
    )

malloc-cases :
    (p : Pool) (base size : ℕ)
    → p.p_pool ≡ some base
    → let words = (size + 3) / 4 in
      (malloc p size ≡ (none, p))
      ⊎ (malloc p size
          ≡ place p base words (fit_loop (pool_end p + 1) words p.words (pool_end p) 0))
unfolding malloc
malloc-cases p base size here =
    let words : ℕ = (size + 3) / 4 in
    let refused : Bool =
      ltb p.pool_size 8
      || ltb (2 ^ 32 - 1 - 3) size
      || (size == 0)
      || ltb (pool_end p) (words + 1)
      || ltb 0xffff words in
    elim (Bool-cases refused) [
      | inl yes' ↦ inl (rw (here, yes') refl)
      | inr no' ↦ inr (rw (here, no') refl)
    ]

place-some :
    (p : Pool) (base words : ℕ) (scan : Scan) {a : ℕ} {p' : Pool}
    → place p base words scan ≡ (some a, p')
    → (head : ℕ) × (scan ≡ left_at head)
      × (a ≡ base + 4 * (head + 1))
      × (head + (words + 1) ≤ pool_end p)
      × (p' ≡ record p { words = set p.words head (header words) })
unfolding place
place-some p base words spent e = absurd (ground (arith, ap (λ r. r.0) e))
place-some p base words damaged e = absurd (ground (arith, ap (λ r. r.0) e))
place-some p base words (left_at head) {a} {p'} e =
    elim (Bool-cases (ltb (pool_end p) (head + (words + 1)))) [
      | inl full ↦ absurd (ground (arith, full, e))
      | inr room ↦
          let placed : Path (Option ℕ × Pool)
              (some (base + 4 * (head + 1)), record p { words = set p.words head (header words) })
              (some a, p') =
            rw room at e in
          (
            head,
            refl,
            ground (arith, ap (λ r. r.0) placed),
            ground (arith, room),
            sym (ap (λ r. r.1) placed),
          )
    ]

-- An address that LLOS_malloc gives in a pool at `base` follows a header word that it writes. The
-- block, of the size that was asked for in words and its header, lies within the pool; none of its
-- words was a header before, and no word of the pool but the header changes.
pub malloc-place :
    (p : Pool) (base size : ℕ) {a : ℕ} {p' : Pool}
    → p.p_pool ≡ some base
    → malloc p size ≡ (some a, p')
    → let words = (size + 3) / 4 in
      (head : ℕ) × (a ≡ base + 4 * (head + 1))
      × (head + (words + 1) ≤ pool_end p)
      × (no_header (words + 1) p.words head ≡ true)
      × (p' ≡ record p { words = set p.words head (header words) })
malloc-place p base size {a} {p'} here e = elim (malloc-cases p base size here) [
  | inl rejected ↦ absurd (ground (arith, ap (λ r. r.0) (sym rejected ∙ e)))
  | inr tried ↦
      let words : ℕ = (size + 3) / 4 in
      let (head, found, is_a, room, is_p) = place-some p base words _ (sym tried ∙ e) in
      let free = fit_loop-free (pool_end p + 1) words p.words (pool_end p) 0 head found room in
      let count : words + 1 ≡ suc words = omega arith in
      (head, is_a, room, ap (λ n. no_header n p.words head) count ∙ free, is_p)
]
