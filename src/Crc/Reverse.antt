-- ===== src/Crc/Reverse.antt =====
-- The two reversals of bits: a table for the bytes of the input, a loop for the result.
use native.Mathlib.Nat.{
  pow-suc, mod-eq_of_lt, zero-mul, add-mul, mul_assoc, mul_left_comm, div-div-eq-div-mul,
  pow-le-pow_right,
}
use llos.Base.{
  ℕ, zero, suc, ◌+◌, ◌-◌, ◌*◌, ◌/◌, ◌%◌, ◌^◌, ◌≤◌, ◌<◌, ◌≡◌, refl, sym, ap, ◌∙◌, arith, Bool, true,
  ◌&&◌, List, [], ◌∷◌, map, ◌==◌, ltb, get_or, bit_or, bit_or-zero, bit_and, bit_or_step,
  bit_and_mask, mul-two-pow-suc, u32, ◌>>>◌, ◌<<<◌,
}
use llos.Crc.{byte_rev_table, reverse_loop, reverse_output, reverse_input_data}
use llos.Crc.Serial.{AreBytes}

-- The lowest `n` bits in the opposite order.
unfoldable pub mirror : ℕ → ℕ → ℕ
mirror zero x = 0
mirror (suc n) x = x % 2 * 2 ^ n + mirror n (x / 2)

unfoldable pub every_below : ℕ → (ℕ → Bool) → Bool
every_below zero p = true
every_below (suc n) p = p n && every_below n p

pub every_below-lt : (n : ℕ) (p : ℕ → Bool) (x : ℕ) → every_below n p ≡ true → x < n → p x ≡ true
unfolding every_below
every_below-lt zero p x h lt = absurd (omega arith)
every_below-lt (suc n) p x h lt = ground (arith, every_below-lt n p x)

-- What is so for every byte.
abbrev is_mirrored : ℕ → Bool
is_mirrored b =
    let t = get_or byte_rev_table b 0 in (t == mirror 8 b) && ltb t 256 && (mirror 8 t == b)

table_mirrored : every_below 256 is_mirrored ≡ true
unfolding every_below byte_rev_table mirror
table_mirrored = refl

table_byte :
    (b : ℕ)
    → b < 2 ^ 8
    → (get_or byte_rev_table b 0 ≡ mirror 8 b)
      × (get_or byte_rev_table b 0 < 2 ^ 8)
      × (mirror 8 (get_or byte_rev_table b 0) ≡ b)
table_byte b h = ground (arith, every_below-lt 256 is_mirrored b table_mirrored h)

pub reverse_input_data-mirror :
    (bytes : List ℕ)
    → AreBytes bytes
    → (reverse_input_data bytes ≡ map (mirror 8) bytes) × AreBytes (reverse_input_data bytes)
unfolding reverse_input_data
reverse_input_data-mirror [] all = (refl, tt)
reverse_input_data-mirror (b ∷ bs) all =
    let (is_mirror, small, _) = table_byte b all.0 in
    let (rest, small_rest) = reverse_input_data-mirror bs all.1 in
    (rw (is_mirror, rest) refl, (small, small_rest))

-- A second call puts the data back.
pub reverse_input_data-twice :
    (bytes : List ℕ) → AreBytes bytes → reverse_input_data (reverse_input_data bytes) ≡ bytes
unfolding reverse_input_data
reverse_input_data-twice [] all = refl
reverse_input_data-twice (b ∷ bs) all =
    let (_, small, back) = table_byte b all.0 in
    let (is_mirror, _, _) = table_byte (get_or byte_rev_table b 0) small in
    ap (λ x. x ∷ reverse_input_data (reverse_input_data bs)) (is_mirror ∙ back)
    ∙ ap (λ xs. b ∷ xs) (reverse_input_data-twice bs all.1)

-- A digit below the ones that are there.
bit_or-digit : (n q d : ℕ) → d < 2 → bit_or (q * 2 ^ suc n) (d * 2 ^ n) ≡ q * 2 ^ suc n + d * 2 ^ n
bit_or-digit zero q d h =
    let above : q * 2 ^ suc zero / 2 ≡ q = omega arith in
    let gone : d * 2 ^ zero / 2 ≡ 0 = omega arith in
    let rest : bit_or (q * 2 ^ suc zero / 2) (d * 2 ^ zero / 2) ≡ q =
      rw (above, gone) (bit_or-zero q) in
    omega (arith, bit_or_step (q * 2 ^ suc zero) (d * 2 ^ zero), rest)
bit_or-digit (suc n) q d h =
    let above : q * 2 ^ suc (suc n) / 2 ≡ q * 2 ^ suc n =
      omega (arith, mul-two-pow-suc q (suc n)) in
    let below : d * 2 ^ suc n / 2 ≡ d * 2 ^ n = omega (arith, mul-two-pow-suc d n) in
    let rest : bit_or (q * 2 ^ suc (suc n) / 2) (d * 2 ^ suc n / 2) ≡ q * 2 ^ suc n + d * 2 ^ n =
      rw (above, below) (bit_or-digit n q d h) in
    omega (
      arith,
      bit_or_step (q * 2 ^ suc (suc n)) (d * 2 ^ suc n),
      rest,
      mul-two-pow-suc q (suc n),
      mul-two-pow-suc d n,
    )

reverse_loop-mirror :
    (left i value q width : ℕ)
    → width ≡ i + left
    → left ≤ 32
    → reverse_loop left i value width (q * 2 ^ left) ≡ q * 2 ^ left + mirror left (value >>> i)
unfolding reverse_loop mirror
reverse_loop-mirror zero i value q width e h = omega arith
reverse_loop-mirror (suc left) i value q width e h =
    let d : ℕ = (value >>> i) % 2 in
    let place : width - 1 - i ≡ left = omega (arith, e) in
    let small : d * 2 ^ left < 2 ^ 32 =
      grind
        (arith, pow-le-pow_right {n = 2} (omega arith) {i = left} {j = 31} (omega (arith, h))) in
    let digit : u32 (bit_and (value >>> i) 1 <<< (width - 1 - i)) ≡ d * 2 ^ left =
      ap (λ n. u32 (bit_and (value >>> i) 1 <<< n)) place
      ∙ ap (λ b. u32 (b <<< left)) (bit_and_mask 1 (value >>> i))
      ∙ mod-eq_of_lt small in
    let joined : bit_or (q * 2 ^ suc left) (u32 (bit_and (value >>> i) 1 <<< (width - 1 - i)))
        ≡ (q * 2 + d) * 2 ^ left =
      ap (λ b. bit_or (q * 2 ^ suc left) b) digit
      ∙ bit_or-digit left q d (omega arith)
      ∙ omega (
        arith,
        mul-two-pow-suc q left,
        add-mul (q * 2) d (2 ^ left),
        mul_assoc q 2 (2 ^ left),
        mul_left_comm q 2 (2 ^ left),
      ) in
    let next : value >>> (i + 1) ≡ (value >>> i) / 2 =
      ap (λ n. value / n) (ap (λ n. 2 ^ n) (omega arith) ∙ pow-suc 2 i)
      ∙ sym (div-div-eq-div-mul value (2 ^ i) 2) in
    ap (λ r. reverse_loop left (i + 1) value width r) joined
    ∙ reverse_loop-mirror left (i + 1) value (q * 2 + d) width (omega (arith, e)) (omega (arith, h))
    ∙ ap (λ x. (q * 2 + d) * 2 ^ left + mirror left x) next
    ∙ omega (
      arith,
      mul-two-pow-suc q left,
      add-mul (q * 2) d (2 ^ left),
      mul_assoc q 2 (2 ^ left),
      mul_left_comm q 2 (2 ^ left),
    )

pub reverse_output-mirror :
    (value width : ℕ) → width ≤ 32 → reverse_output value width ≡ mirror width value
unfolding reverse_output
reverse_output-mirror value width h =
    let once : value >>> 0 ≡ value = omega arith in
    ap (λ z. reverse_loop width 0 value width z) (sym (zero-mul (2 ^ width)))
    ∙ reverse_loop-mirror width 0 value 0 width (omega arith) h
    ∙ ap (λ z. z + mirror width (value >>> 0)) (zero-mul (2 ^ width))
    ∙ ap (λ x. 0 + mirror width x) once
    ∙ omega arith
