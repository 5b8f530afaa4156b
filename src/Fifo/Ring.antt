-- ===== src/Fifo/Ring.antt =====
-- The invariant of an initialised FIFO, and the bytes that its counters delimit.
use native.Mathlib.Nat.{mod-add-mod, mod-eq_of_lt, mod-eq-sub-mod, add-zero, mod-lt}
use native.Mathlib.Decide.{dec_lt}
use mathlib.Core.Path.{ap₂}
use llos.Base.{
  ℕ, zero, suc, ◌+◌, ◌-◌, ◌%◌, ◌^◌, ◌≤◌, ◌<◌, ◌≡◌, ◌≢◌, refl, sym, ap, ◌∙◌, bit_and, true, List, [],
  ◌∷◌, ◌++◌, arith, length, get_or, set, sub32, get_or-set_self, get_or-set_ne, bit_and_mask,
  mod-u32-mod, two-pow-pos,
}
use llos.Fifo.{Fifo}

pub record IsValid (f : Fifo) : Type 0 where
  pub log : ℕ
  pub two_pow : f.size ≡ 2 ^ log
  pub small : f.size < 2 ^ 32
  pub storage : f.size ≤ length f.buffer
  pub head_fits : f.p_head < 2 ^ 32
  pub end_fits : f.p_end < 2 ^ 32
  pub held : sub32 f.p_end f.p_head ≤ f.size
  pub is_ready : f.ready ≡ true

-- The bytes that are held, by number.
abbrev pub used : Fifo → ℕ
used f = sub32 f.p_end f.p_head

pub size-pos : {f : Fifo} → IsValid f → 0 < f.size
size-pos v = omega (arith, v.two_pow, two-pow-pos v.log)

-- The mask of the code is the remainder by the size.
pub mask-eq-mod : {f : Fifo} (p : ℕ) → IsValid f → bit_and p (sub32 f.size 1) ≡ p % f.size
mask-eq-mod {f} p v =
    let pred : sub32 f.size 1 ≡ f.size - 1 = omega (arith, size-pos v) in
    rw (pred, v.two_pow) (bit_and_mask v.log p)

-- A counter's wrap does not show in the index.
pub wrap-index : {f : Fifo} (p : ℕ) → IsValid f → p % 2 ^ 32 % f.size ≡ p % f.size
wrap-index {f} p v =
    let fits : 2 ^ v.log < 2 ^ 32 = omega (arith, v.two_pow) in
    rw v.two_pow (mod-u32-mod v.log p fits)

module _ (buf : List ℕ) (size : ℕ) where
  -- The `n` bytes from the counter `h` on.
  abbrev pub window : ℕ → ℕ → List ℕ
  window h zero = []
  window h (suc n) = get_or buf (h % size) 0 ∷ window (h + 1) n

  pub length-window : (h n : ℕ) → length (window h n) ≡ n
  length-window h zero = refl
  length-window h (suc n) = ap suc (length-window (h + 1) n)

  -- Only the remainder of the counter counts.
  pub window_congr : (n h k : ℕ) → h % size ≡ k % size → window h n ≡ window k n
  window_congr zero h k e = refl
  window_congr (suc n) h k e =
      ap₂ (λ i r. get_or buf i 0 ∷ r) e (window_congr n (h + 1) (k + 1) shifted)
    where
      shifted : (h + 1) % size ≡ (k + 1) % size
      shifted = sym (mod-add-mod h size 1) ∙ ap (λ r. (r + 1) % size) e ∙ mod-add-mod k size 1

-- Fewer than `size` steps do not come back to the same index.
add-mod-ne : (size h k : ℕ) → 0 < k → k < size → (h + k) % size ≢ h % size
add-mod-ne size h k pos hk = elim (dec_lt (h % size + k) size) [
  | yes p ↦ omega (arith, mod-add-mod h size k, mod-eq_of_lt p)
  | no p ↦ omega (
    arith,
    mod-add-mod h size k,
    mod-lt h {m = size} (omega arith),
    mod-eq-sub-mod {n = h % size + k} {m = size} (omega arith),
    mod-eq_of_lt {n = h % size + k - size} {m = size}
        (omega (arith, mod-lt h {m = size} (omega arith))),
  )
]

-- Writing just past a window extends it by that byte.
pub window-set :
    (buf : List ℕ) (size x n h i : ℕ)
    → size ≤ length buf
    → n < size
    → i ≡ (h + n) % size
    → window (set buf i x) size h (suc n) ≡ window buf size h n ++ (x ∷ [])
window-set buf size x zero h i hs hn e = rw (e, add-zero) (ap (λ b. b ∷ []) stored)
  where
    stored : get_or (set buf (h % size) x) (h % size) 0 ≡ x
    stored = get_or-set_self buf (h % size) x 0 (omega (arith, mod-lt h {m = size} (omega arith)))
window-set buf size x (suc n) h i hs hn e =
    ap₂ ◌∷◌ kept (window-set buf size x n (h + 1) i hs (omega arith) (e ∙ shift))
  where
    kept : get_or (set buf i x) (h % size) 0 ≡ get_or buf (h % size) 0
    kept = get_or-set_ne buf i (h % size) x 0 (rw e (add-mod-ne size h (suc n) (omega arith) hn))

    shift : (h + suc n) % size ≡ (h + 1 + n) % size
    shift = ap (λ k. k % size) (omega arith)

-- What the FIFO holds.
abbrev pub contents : Fifo → List ℕ
contents f = window f.buffer f.size f.p_head (used f)

pub length-contents : (f : Fifo) → length (contents f) ≡ used f
length-contents f = length-window f.buffer f.size f.p_head (used f)
