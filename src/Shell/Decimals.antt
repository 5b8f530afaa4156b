-- ===== src/Shell/Decimals.antt =====
-- A number that is printed is read back.
use mathlib.Core.Path.{subst}
use llos.Base.{
  ℕ, zero, suc, ◌+◌, ◌-◌, ◌*◌, ◌/◌, ◌%◌, ◌^◌, ◌≤◌, ◌<◌, ◌≡◌, refl, sym, ap, ◌∙◌, arith, Bool, true,
  false, some, List, [], ◌∷◌, ◌++◌, ltb, ◌==◌, length, length-append, min, drop, Bool-cases, inl,
  inr,
}
use llos.Types.{err_success}
use llos.Shell.{Context, text_of, store_text}
use llos.Shell.Params.{
  Floats, is_digit, is_space, digits, spaces, strtol, skip_blanks, trim, ends_param, unit_loop,
  convert_unit, param_int32,
}
use llos.Shell.Lines.{text_of-trim, text_of-store_text}
use llos.Shell.Output.{decimal, signed_decimal}

abbrev AreDigits : List ℕ → Type 0
AreDigits [] = Unit
AreDigits (c ∷ cs) = (is_digit c ≡ true) × AreDigits cs

AreDigits-append : (xs ys : List ℕ) → AreDigits xs → AreDigits ys → AreDigits (xs ++ ys)
AreDigits-append [] ys h k = k
AreDigits-append (x ∷ xs) ys h k = (h.0, AreDigits-append xs ys h.1 k)

last_digit : (n : ℕ) → is_digit (48 + n % 10) ≡ true
last_digit n = ground arith

decimal-AreDigits : (fuel n : ℕ) → AreDigits (decimal fuel n)
unfolding decimal
decimal-AreDigits zero n = tt
decimal-AreDigits (suc fuel) n = elim (Bool-cases (ltb n 10)) [
  | inl low ↦ rw low (last_digit n, tt)
  | inr high ↦ rw high (
      AreDigits-append (decimal fuel (n / 10)) ((48 + n % 10) ∷ [])
        (decimal-AreDigits fuel (n / 10)) (last_digit n, tt))
]

-- One more digit at the end.
digits-snoc :
    (xs : List ℕ) (d value count : ℕ)
    → AreDigits xs
    → d < 10
    → digits (xs ++ (48 + d) ∷ []) value count
      ≡ (10 * (digits xs value count).0 + d, (digits xs value count).1 + 1)
unfolding digits
digits-snoc [] d value count all low =
    let known : is_digit (48 + d) ≡ true = ground (arith, low) in
    let back : 48 + d - 48 ≡ d = omega arith in rw (known, back) refl
digits-snoc (x ∷ xs) d value count all low =
    rw all.0 (digits-snoc xs d (10 * value + (x - 48)) (count + 1) all.1 low)

abbrev power_of_ten : ℕ → ℕ
power_of_ten zero = 1
power_of_ten (suc n) = 10 * power_of_ten n

digits-decimal :
    (fuel n : ℕ)
    → n < power_of_ten fuel
    → digits (decimal fuel n) 0 0 ≡ (n, length (decimal fuel n))
unfolding decimal digits
digits-decimal zero n h = let none_left : 0 ≡ n = omega (arith, h) in ap (λ m. (m, 0)) none_left
digits-decimal (suc fuel) n h = elim (Bool-cases (ltb n 10)) [
  | inl low ↦
      let known = last_digit n in
      let value : 10 * 0 + (48 + n % 10 - 48) ≡ n = ground (arith, low) in
      rw (low, known) (ap (λ m. (m, 1)) value)
  | inr high ↦
      let front = decimal fuel (n / 10) in
      let before = digits-decimal fuel (n / 10) (omega (arith, h)) in
      let small : n % 10 < 10 = omega arith in
      let value : 10 * (n / 10) + n % 10 ≡ n = omega arith in
      let count : length front + 1 ≡ length (front ++ (48 + n % 10) ∷ []) =
        omega (arith, length-append front ((48 + n % 10) ∷ [])) in
      rw high (
        digits-snoc front (n % 10) 0 0 (decimal-AreDigits fuel (n / 10)) small
        ∙ ap (λ r. (10 * r.0 + n % 10, r.1 + 1)) before
        ∙ ap (λ m. (m, length front + 1)) value
        ∙ ap (λ k. (n, k)) count)
]

-- The first digit.
decimal-cons : (fuel n : ℕ) → (c : ℕ) × (cs : List ℕ) × (decimal (suc fuel) n ≡ c ∷ cs)
unfolding decimal
decimal-cons zero n = elim (Bool-cases (ltb n 10)) [
  | inl low ↦ rw low (48 + n % 10, [], refl)
  | inr high ↦ rw high (48 + n % 10, [], refl)
]
decimal-cons (suc fuel) n = elim (Bool-cases (ltb n 10)) [
  | inl low ↦ rw low (48 + n % 10, [], refl)
  | inr high ↦
      let (c, cs, first) = decimal-cons fuel (n / 10) in
      rw high (c, cs ++ (48 + n % 10) ∷ [], ap (λ xs. xs ++ (48 + n % 10) ∷ []) first)
]

drop-length : (xs : List ℕ) → drop (length xs) xs ≡ []
drop-length [] = refl
drop-length (x ∷ xs) = drop-length xs

-- strtol on digits, with a minus before them or not.
strtol-digits :
    (n : ℕ) → n < 2 ^ 31 → strtol (decimal 10 n) ≡ (false, n, length (decimal 10 n), false)
unfolding strtol spaces
strtol-digits n h =
    let (c, cs, first) = decimal-cons 9 n in
    let all : AreDigits (c ∷ cs) = subst AreDigits first (decimal-AreDigits 10 n) in
    let space : is_space c ≡ false = ground (arith, all.0) in
    let minus : (c == 45) ≡ false = ground (arith, all.0) in
    let plus : (c == 43) ≡ false = ground (arith, all.0) in
    let read : digits (c ∷ cs) 0 0 ≡ (n, length (c ∷ cs)) =
      subst (λ xs. digits xs 0 0 ≡ (n, length xs)) first (digits-decimal 10 n (omega (arith, h))) in
    let small : min n (2 ^ 31 - 1) ≡ n = omega (arith, h) in
    let inside : ltb (2 ^ 31 - 1) n ≡ false = ground (arith, h) in
    let some_digits : (length (c ∷ cs) == 0) ≡ false = ground arith in
    rw (first, space, minus, plus, read, small, inside, some_digits)
      (ap (λ k. (false, n, k, false)) (omega arith))

strtol-minus :
    (n : ℕ)
    → n ≤ 2 ^ 31
    → strtol (45 ∷ decimal 10 n) ≡ (true, n, suc (length (decimal 10 n)), false)
unfolding strtol spaces
strtol-minus n h =
    let (c, cs, first) = decimal-cons 9 n in
    let read : digits (c ∷ cs) 0 0 ≡ (n, length (c ∷ cs)) =
      subst (λ xs. digits xs 0 0 ≡ (n, length xs)) first (digits-decimal 10 n (omega (arith, h))) in
    let small : min n (2 ^ 31) ≡ n = omega (arith, h) in
    let inside : ltb (2 ^ 31) n ≡ false = ground (arith, h) in
    let some_digits : (length (c ∷ cs) == 0) ≡ false = ground arith in
    rw (first, read, small, inside, some_digits) (ap (λ k. (true, n, k, false)) (omega arith))

-- What the numbers need of doubles: a number that fits into 32 bits is the same as a double.
pub record IsExact {D F : Type 0} (floats : Floats D F) : Type 0 where
  pub fits : (n : ℕ) → n < 2 ^ 31 → floats.fits_int32 (floats.of_long false n) ≡ true
  pub same : (n : ℕ) → n < 2 ^ 31 → floats.to_int32 (floats.of_long false n) ≡ n
  pub fits_minus : (n : ℕ) → n ≤ 2 ^ 31 → floats.fits_int32 (floats.of_long true n) ≡ true
  pub same_minus :
      (n : ℕ) → 1 ≤ n → n ≤ 2 ^ 31 → floats.to_int32 (floats.of_long true n) ≡ 2 ^ 32 - n

module _ {D F : Type 0} (floats : Floats D F) where
  convert_unit-end : (value : D) → convert_unit floats value [] ≡ (value, [])
  unfolding convert_unit unit_loop skip_blanks
  convert_unit-end value = refl

  -- A parameter of which strtol takes every character.
  param_int32-whole :
      (ctx : Context) (old n : ℕ) (negative : Bool) (text : List ℕ)
      → skip_blanks (text_of ctx.buffer) ≡ text
      → strtol text ≡ (negative, n, length text, false)
      → 1 ≤ length text
      → floats.fits_int32 (floats.of_long negative n) ≡ true
      → (out : Context) × (param_int32 floats (some ctx) (some old)
          ≡ (err_success, some out, some (floats.to_int32 (floats.of_long negative n))))
        × (text_of out.buffer ≡ [])
  unfolding param_int32 ends_param
  param_int32-whole ctx old n negative [] here read low fits = absurd (omega (arith, low))
  param_int32-whole ctx old n negative (c ∷ cs) here read low fits =
      let bytes : List ℕ = trim ctx.buffer in
      let shown : text_of bytes ≡ c ∷ cs = text_of-trim ctx.buffer ∙ here in
      let behind : drop (length (c ∷ cs)) (c ∷ cs) ≡ [] = drop-length (c ∷ cs) in
      let some_digits : (length (c ∷ cs) == 0) ≡ false = ground arith in
      (
        record ctx { buffer = store_text [] bytes },
        rw (shown, read, behind, convert_unit-end (floats.of_long negative n), some_digits, fits)
            refl,
        text_of-store_text [] bytes tt,
      )

  -- A 32-bit number that is printed with `%d` and that is the last parameter of a line is read back by
  -- LLOS_Cmd_ParamInt32, if doubles hold 32-bit numbers exactly; nothing is left of the line.
  pub param_int32-decimal :
      (ctx : Context) (old w : ℕ)
      → IsExact floats
      → w < 2 ^ 32
      → skip_blanks (text_of ctx.buffer) ≡ signed_decimal w
      → (out : Context) × (param_int32 floats (some ctx) (some old)
          ≡ (err_success, some out, some w))
        × (text_of out.buffer ≡ [])
  unfolding signed_decimal
  param_int32-decimal ctx old w exact bound = elim (Bool-cases (ltb w (2 ^ 31))) [
    | inl plus ↦
        let low : w < 2 ^ 31 = ground (arith, plus) in
        let (c, cs, first) = decimal-cons 9 w in
        let nonempty : 1 ≤ length (decimal 10 w) =
          subst (λ xs. 1 ≤ length xs) (sym first) (omega arith) in
        rw plus (λ here.
          let (out, read, left) =
            param_int32-whole ctx old w false (decimal 10 w) here (strtol-digits w low) nonempty
              (exact.fits w low) in
          (out, read ∙ ap (λ v. (err_success, some out, some v)) (exact.same w low), left))
    | inr minus ↦
        let n : ℕ = 2 ^ 32 - w in
        let low : 1 ≤ n = omega (arith, bound) in
        let high : n ≤ 2 ^ 31 = ground (arith, minus) in
        let back : 2 ^ 32 - n ≡ w = omega (arith, bound) in
        rw minus (λ here.
          let (out, read, left) =
            param_int32-whole ctx old n true (45 ∷ decimal 10 n) here (strtol-minus n high)
              (omega arith) (exact.fits_minus n high) in
          (
            out,
            read ∙ ap (λ v. (err_success, some out, some v)) (exact.same_minus n low high ∙ back),
            left,
          ))
  ]
