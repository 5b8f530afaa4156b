-- ===== src/Crc/Serial/Registers.antt =====
-- A register that holds the bits of a byte that are still to come.
use native.Mathlib.Nat.{
  pow-suc, mod-lt, mod-eq_of_lt, mul_assoc, mul_comm, zero-mul, add-mul, add_comm,
  mul-lt-mul_of_pos_right, add-mul-div_right, add-mul-mod_self_right, div-eq_of_lt, div-add-mod,
  mul-add-mod_self_left, mul-div-mul_right,
}
use llos.Base.{
  ℕ, zero, suc, ◌+◌, ◌-◌, ◌*◌, ◌/◌, ◌%◌, ◌^◌, ◌≤◌, ◌<◌, ◌≡◌, refl, sym, ap, ◌∙◌, arith,
  if◌then◌else◌, Bool-cases, inl, inr, ◌==◌, bit, bit-suc, bit_xor, bit_xor-mod, bit_xor-double,
  bit-bit_xor, bit_xor_assoc, bit_xor_comm, bit_xor-zero, bit_xor-lt, bit_xor-shift,
  mod-two-pow-suc, two-pow-pos, mul-two-pow-suc,
}
use llos.Crc.Serial.{feed, feed_bits}

-- The shift of a register of `w` bits by one place.
unfoldable pub shift : ℕ → ℕ → ℕ → ℕ
shift w poly reg = if bit reg (w - 1) == 1 then bit_xor (reg * 2 % 2 ^ w) poly else reg * 2 % 2 ^ w

unfoldable pub shifts : ℕ → ℕ → ℕ → ℕ → ℕ
shifts w poly zero reg = reg
shifts w poly (suc left) reg = shifts w poly left (shift w poly reg)

pub two-pow-add : (d e : ℕ) → 2 ^ d * 2 ^ e ≡ 2 ^ (d + e)
two-pow-add zero e = let s : zero + e ≡ e = omega arith in rw s (omega arith)
two-pow-add (suc d) e =
    let s : suc d + e ≡ suc (d + e) = omega arith in
    rw s (
      omega (
        arith,
        two-pow-add d e,
        ap (λ t. t * 2 ^ e) (pow-suc 2 d),
        mul_assoc 2 (2 ^ d) (2 ^ e),
        pow-suc 2 (d + e),
      ))

-- The highest of the low digits apart.
mod-top : (l b : ℕ) → b % 2 ^ suc l ≡ bit b l * 2 ^ l + b % 2 ^ l
mod-top zero b = omega arith
mod-top (suc l) b = rw (bit-suc b l) (
    omega (
      arith,
      mod-two-pow-suc (suc l) b,
      mod-two-pow-suc l b,
      mod-top l (b / 2),
      mul-two-pow-suc (bit (b / 2) l) l,
    ))

-- The bits of a byte that are still to come, at the top of a register of `suc v` bits.
waiting : ℕ → ℕ → ℕ → ℕ
waiting v l b = b % 2 ^ l * 2 ^ (suc v - l)

waiting-parts :
    (v l b : ℕ)
    → l ≤ v
    → (waiting v (suc l) b ≡ bit b l * 2 ^ v + b % 2 ^ l * 2 ^ (v - l))
      × (b % 2 ^ l * 2 ^ (v - l) < 2 ^ v)
      × (waiting v l b ≡ b % 2 ^ l * 2 ^ (v - l) * 2)
unfolding waiting
waiting-parts v l b h =
    let d : ℕ = bit b l in
    let low : ℕ = b % 2 ^ l in
    let here : suc v - suc l ≡ v - l = omega arith in
    let next : suc v - l ≡ suc (v - l) = omega arith in
    let whole : 2 ^ l * 2 ^ (v - l) ≡ 2 ^ v =
      two-pow-add l (v - l) ∙ ap (λ n. 2 ^ n) (omega arith) in
    (
      rw (here, mod-top l b)
          (add-mul (d * 2 ^ l) low (2 ^ (v - l))
            ∙ ap (λ t. t + low * 2 ^ (v - l))
                (mul_assoc d (2 ^ l) (2 ^ (v - l)) ∙ ap (λ t. d * t) whole)),
      rw whole at (mul-lt-mul_of_pos_right (mod-lt b (two-pow-pos l)) (two-pow-pos (v - l))),
      rw next (mul-two-pow-suc low (v - l) ∙ mul_comm 2 (low * 2 ^ (v - l))),
    )

-- A number with one bit above the lowest `v`.
top_bit : (v d r : ℕ) → r < 2 ^ v → d < 2 → bit (d * 2 ^ v + r) v ≡ d
top_bit v d r small digit =
    let quotient : (r + d * 2 ^ v) / 2 ^ v ≡ r / 2 ^ v + d =
      add-mul-div_right r d (two-pow-pos v) in
    let nothing : r / 2 ^ v ≡ 0 = div-eq_of_lt small in
    omega (arith, quotient, nothing, ap (λ t. t / 2 ^ v) (add_comm (d * 2 ^ v) r))

top_shift : (v d r : ℕ) → r < 2 ^ v → (d * 2 ^ v + r) * 2 % 2 ^ suc v ≡ r * 2
top_shift v d r small =
    let parts : (d * 2 ^ v + r) * 2 ≡ r * 2 + d * 2 ^ suc v = omega (arith, mul-two-pow-suc d v) in
    ap (λ t. t % 2 ^ suc v) parts
    ∙ add-mul-mod_self_right (r * 2) d (2 ^ suc v)
    ∙ mod-eq_of_lt (omega (arith, pow-suc 2 v))

pub bit-mod : (v a : ℕ) → bit (a % 2 ^ suc v) v ≡ bit a v
bit-mod v a =
    ap (λ t. bit t v) (mod-top v a)
    ∙ top_bit v (bit a v) (a % 2 ^ v) (mod-lt a (two-pow-pos v)) (omega arith)

waiting-bit : (v l b : ℕ) → l ≤ v → bit (waiting v (suc l) b) v ≡ bit b l
waiting-bit v l b h =
    let (parts, small, _) = waiting-parts v l b h in
    ap (λ t. bit t v) parts ∙ top_bit v (bit b l) (b % 2 ^ l * 2 ^ (v - l)) small (omega arith)

waiting-shift : (v l b : ℕ) → l ≤ v → waiting v (suc l) b * 2 % 2 ^ suc v ≡ waiting v l b
waiting-shift v l b h =
    let (parts, small, next) = waiting-parts v l b h in
    ap (λ t. t * 2 % 2 ^ suc v) parts
    ∙ top_shift v (bit b l) (b % 2 ^ l * 2 ^ (v - l)) small
    ∙ sym next

-- The bit that is fed may as well have been added to the register before.
shift-bit_xor :
    (v poly reg m : ℕ)
    → shift (suc v) poly (bit_xor reg m)
      ≡ bit_xor (feed (suc v) poly reg (bit m v)) (m * 2 % 2 ^ suc v)
unfolding shift feed
shift-bit_xor v poly reg m =
    let w : ℕ = 2 ^ suc v in
    let moved : bit_xor reg m * 2 % w ≡ bit_xor (reg * 2 % w) (m * 2 % w) =
      ap (λ t. t % w) (sym (bit_xor-double reg m)) ∙ bit_xor-mod (suc v) (reg * 2) (m * 2) in
    let swapped : bit_xor (bit_xor (reg * 2 % w) (m * 2 % w)) poly
        ≡ bit_xor (bit_xor (reg * 2 % w) poly) (m * 2 % w) =
      bit_xor_assoc (reg * 2 % w) (m * 2 % w) poly
      ∙ ap (λ t. bit_xor (reg * 2 % w) t) (bit_xor_comm (m * 2 % w) poly)
      ∙ sym (bit_xor_assoc (reg * 2 % w) poly (m * 2 % w)) in
    let v' : suc v - 1 ≡ v = omega arith in
    rw (v', moved, bit-bit_xor v reg m)
      (elim (Bool-cases ((bit reg v + bit m v) % 2 == 1)) [
        | inl one ↦ rw one swapped
        | inr zero_bit' ↦ rw (zero_bit', bit_xor-zero (reg * 2 % w)) refl
      ])

waiting_none : (v b : ℕ) → waiting v zero b ≡ 0
unfolding waiting
waiting_none v b = let low : b % 2 ^ zero ≡ 0 = omega arith in rw low (zero-mul _)

waiting_byte : (v b : ℕ) → b < 2 ^ 8 → waiting v 8 b ≡ b * 2 ^ (suc v - 8)
unfolding waiting
waiting_byte v b h = ap (λ t. t * 2 ^ (suc v - 8)) (mod-eq_of_lt h)

shifts-feed_bits :
    (v poly left reg b : ℕ)
    → left ≤ suc v
    → shifts (suc v) poly left (bit_xor reg (waiting v left b)) ≡ feed_bits (suc v) poly left reg b
unfolding shifts feed_bits
shifts-feed_bits v poly zero reg b h = rw (waiting_none v b, bit_xor-zero reg) refl
shifts-feed_bits v poly (suc left) reg b h =
    rw
      (
        shift-bit_xor v poly reg (waiting v (suc left) b),
        waiting-bit v left b (omega arith),
        waiting-shift v left b (omega arith),
      )
      (shifts-feed_bits v poly left (feed (suc v) poly reg (bit b left)) b (omega arith))

-- A byte that is added at the top of the register and shifted through.
pub shifts-feed_byte :
    (v poly reg b : ℕ)
    → 8 ≤ suc v
    → b < 2 ^ 8
    → shifts (suc v) poly 8 (bit_xor reg (b * 2 ^ (suc v - 8))) ≡ feed_bits (suc v) poly 8 reg b
shifts-feed_byte v poly reg b h fits =
    ap (λ m. shifts (suc v) poly 8 (bit_xor reg m)) (sym (waiting_byte v b fits))
    ∙ shifts-feed_bits v poly 8 reg b h

pub feed-lt : (w poly reg b : ℕ) → poly < 2 ^ w → feed w poly reg b < 2 ^ w
unfolding feed
feed-lt w poly reg b h =
    bit_xor-lt w (reg * 2 % 2 ^ w) (if (bit reg (w - 1) + b) % 2 == 1 then poly else 0)
      (mod-lt (reg * 2) (two-pow-pos w)) (ground (arith, h, two-pow-pos w))

pub feed_bits-lt :
    (w poly left reg b : ℕ) → poly < 2 ^ w → reg < 2 ^ w → feed_bits w poly left reg b < 2 ^ w
unfolding feed_bits
feed_bits-lt w poly zero reg b h small = small
feed_bits-lt w poly (suc left) reg b h small =
    feed_bits-lt w poly left (feed w poly reg (bit b left)) b h (feed-lt w poly reg (bit b left) h)

pub shift-lt : (w poly reg : ℕ) → poly < 2 ^ w → shift w poly reg < 2 ^ w
unfolding shift
shift-lt w poly reg h =
    let low : reg * 2 % 2 ^ w < 2 ^ w = mod-lt (reg * 2) (two-pow-pos w) in
    ground (arith, low, bit_xor-lt w (reg * 2 % 2 ^ w) poly low h)

scale-mod : (a m d : ℕ) → 0 < m → 0 < d → a * d % (m * d) ≡ a % m * d
scale-mod a m d hm hd =
    let q : ℕ = a / m in
    let r : ℕ = a % m in
    let parts : a * d ≡ m * d * q + r * d =
      ap (λ t. t * d) (sym (div-add-mod a m))
      ∙ add-mul (m * q) r d
      ∙ ap (λ t. t + r * d)
          (mul_assoc m q d ∙ ap (λ t. m * t) (mul_comm q d) ∙ sym (mul_assoc m d q)) in
    ap (λ t. t % (m * d)) parts
    ∙ mul-add-mod_self_left (m * d) q (r * d)
    ∙ mod-eq_of_lt (mul-lt-mul_of_pos_right (mod-lt a hm) hd)

-- A register in the upper bits of a wider one.
pub feed-scale :
    (v k poly reg b : ℕ)
    → feed (suc v + k) (poly * 2 ^ k) (reg * 2 ^ k) b ≡ feed (suc v) poly reg b * 2 ^ k
unfolding feed
feed-scale v k poly reg b =
    let top : suc v + k - 1 ≡ v + k = omega arith in
    let v' : suc v - 1 ≡ v = omega arith in
    let moved : bit (reg * 2 ^ k) (v + k) ≡ bit reg v =
      ap (λ m. reg * 2 ^ k / m % 2) (sym (two-pow-add v k))
      ∙ ap (λ q. q % 2) (mul-div-mul_right reg (2 ^ v) (two-pow-pos k)) in
    let doubled : reg * 2 ^ k * 2 ≡ reg * 2 * 2 ^ k =
      mul_assoc reg (2 ^ k) 2
      ∙ ap (λ t. reg * t) (mul_comm (2 ^ k) 2)
      ∙ sym (mul_assoc reg 2 (2 ^ k)) in
    let shifted : reg * 2 ^ k * 2 % 2 ^ (suc v + k) ≡ reg * 2 % 2 ^ suc v * 2 ^ k =
      ap (λ t. t % 2 ^ (suc v + k)) doubled
      ∙ ap (λ m. reg * 2 * 2 ^ k % m) (sym (two-pow-add (suc v) k))
      ∙ scale-mod (reg * 2) (2 ^ suc v) (2 ^ k) (two-pow-pos (suc v)) (two-pow-pos k) in
    rw (top, v', moved, shifted)
      (elim (Bool-cases ((bit reg v + b) % 2 == 1)) [
        | inl one ↦ rw one (bit_xor-shift k (reg * 2 % 2 ^ suc v) poly)
        | inr other ↦
            rw
              (
                other,
                bit_xor-zero (reg * 2 % 2 ^ suc v * 2 ^ k),
                bit_xor-zero (reg * 2 % 2 ^ suc v),
              )
              refl
      ])
