-- ===== src/Fifo/Init.antt =====
-- `LLOS_FIFO_Init`: which sizes it accepts, and what it leaves.
use native.Mathlib.Nat.{mod_self, mod-eq-zero_of_dvd}
use llos.Base.{
  ℕ, zero, suc, ◌+◌, ◌-◌, ◌%◌, ◌^◌, ◌≤◌, ◌<◌, ◌∣◌, ◌≡◌, ◌↔◌, refl, bit_and, true, false, some, List,
  [], arith, length, sub32, length-fill, bit_and_mask, two-pow-pos, two_pow_of_bit_and, two_pow_dvd,
  fill,
}
use llos.Types.{err_success}
use llos.Fifo.{Fifo, bad_size, init}
use llos.Fifo.Ring.{IsValid, contents}

-- The exponent of an accepted size.
abbrev pub IsGoodSize : ℕ → Type 0
IsGoodSize size = (k : ℕ) × (2 ≤ k) × (size ≡ 2 ^ k)

good_size-pow : (k : ℕ) → 2 ≤ k → 2 ^ k < 2 ^ 32 → bad_size (2 ^ k) ≡ false
good_size-pow k h fits = ground (arith, two-pow-pos k, low, rest)
  where
    by_four : 2 ^ 2 ∣ 2 ^ k
    by_four = let split : 2 + (k - 2) ≡ k = omega arith in rw split at (two_pow_dvd 2 (k - 2))

    low : bit_and (2 ^ k) 3 ≡ 0
    low = omega (arith, bit_and_mask 2 (2 ^ k), mod-eq-zero_of_dvd (2 ^ 2) by_four)

    pred : sub32 (2 ^ k) 1 ≡ 2 ^ k - 1
    pred = omega (arith, two-pow-pos k)

    rest : bit_and (2 ^ k) (sub32 (2 ^ k) 1) ≡ 0
    rest = rw pred (omega (arith, bit_and_mask k (2 ^ k), mod_self (2 ^ k)))

four_divides : (k : ℕ) → 2 ^ k % 4 ≡ 0 → 2 ≤ k
four_divides zero e = absurd (omega arith)
four_divides (suc zero) e = absurd (omega arith)
four_divides (suc (suc k)) e = omega arith

bad_size-IsGoodSize : (size : ℕ) → size < 2 ^ 32 → bad_size size ≡ false → IsGoodSize size
bad_size-IsGoodSize size fits e =
    let tests : (0 < size) × (bit_and size 3 ≡ 0) × (bit_and size (sub32 size 1) ≡ 0) =
      ground arith in
    let pred : sub32 size 1 ≡ size - 1 = omega arith in
    let masked : bit_and size (size - 1) ≡ 0 = rw pred at tests.2 in
    let (k, is_pow) = two_pow_of_bit_and size tests.0 masked in
    let by_four : 2 ^ k % 4 ≡ 0 = rw (← is_pow) (omega (arith, bit_and_mask 2 size)) in
    (k, four_divides k by_four, is_pow)

module _ (f : Fifo) (buffer : List ℕ) (size : ℕ) where
  -- For a 32-bit size, `LLOS_FIFO_Init` on a structure and a buffer returns LL_ERR_SUCCESS exactly
  -- when the size is a power of two that is at least 4.
  pub init-accepts :
      size < 2 ^ 32 → ((init (some f) (some buffer) size).0 ≡ err_success) ↔ IsGoodSize size
  unfolding init
  init-accepts fits = (λ e. bad_size-IsGoodSize size fits (ground arith), returns)
    where
      returns : IsGoodSize size → (init (some f) (some buffer) size).0 ≡ err_success
      returns (k, h, e) = rw (e, good_size-pow k h (rw (← e) fits)) refl

  -- With a 32-bit size that is a power of two, at least 4, and a buffer of at least that many
  -- bytes, `LLOS_FIFO_Init` succeeds and leaves a valid FIFO of that size that holds nothing.
  pub init-IsValid :
      size < 2 ^ 32
      → IsGoodSize size
      → size ≤ length buffer
      → (g : Fifo) × (init (some f) (some buffer) size ≡ (err_success, some g))
        × IsValid g
        × (contents g ≡ [])
        × (g.size ≡ size)
  unfolding init
  init-IsValid fits (k, h, e) long = (
    record { p_head = 0; p_end = 0; size = size; buffer = fill size 0 buffer; ready = true },
    rw (e, good_size-pow k h (rw (← e) fits)) refl,
    record {
      log = k;
      two_pow = e;
      small = fits;
      storage = omega (arith, length-fill size 0 buffer);
      head_fits = omega arith;
      end_fits = omega arith;
      held = omega arith;
      is_ready = refl;
    },
    refl,
    refl,
  )
