-- ===== src/Shell/Texts.antt =====
-- LLOS_Cmd_ParamCopyText on a quoted text.
use mathlib.Core.Path.{subst}
use llos.Base.{
  ℕ, zero, suc, ◌+◌, ◌-◌, ◌≤◌, ◌<◌, ◌≡◌, refl, sym, ap, ◌∙◌, arith, false, some, List, [], ◌∷◌,
  ◌++◌, ◌==◌, length, length-append, length-set, length-take, length-drop, min, set, take, drop,
}
use llos.Types.{err_success}
use llos.Shell.{Context, text_of, overwrite, store_text}
use llos.Shell.Params.{skip_blanks, trim, split_quote, param_copy_text}
use llos.Shell.Dispatch.{set-end}
use llos.Shell.Lines.{
  IsText, IsText-append, text_of-IsText, text_of-end, text_of-store_text, text_of-trim,
}

-- A text without a quotation mark.
abbrev pub NoQuote : List ℕ → Type 0
NoQuote [] = Unit
NoQuote (c ∷ cs) = ((c == 34) ≡ false) × NoQuote cs

split_quote-text : (xs ys : List ℕ) → NoQuote xs → split_quote (xs ++ 34 ∷ ys) ≡ some (xs, ys)
unfolding split_quote
split_quote-text [] ys plain = refl
split_quote-text (c ∷ cs) ys plain = rw (plain.0, split_quote-text cs ys plain.1) refl

take-min : (k : ℕ) (xs : List ℕ) → take (min (length xs) k) xs ≡ take k xs
take-min zero xs = let e : min (length xs) 0 ≡ 0 = omega arith in ap (λ n. take n xs) e
take-min (suc k) [] = let e : min 0 (suc k) ≡ 0 = omega arith in rw e refl
take-min (suc k) (x ∷ xs) =
    let e : min (suc (length xs)) (suc k) ≡ suc (min (length xs) k) = omega arith in
    ap (λ n. take n (x ∷ xs)) e ∙ ap (λ ys. x ∷ ys) (take-min k xs)

IsText-take : (k : ℕ) (xs : List ℕ) → IsText xs → IsText (take k xs)
IsText-take zero xs h = tt
IsText-take (suc k) [] h = tt
IsText-take (suc k) (x ∷ xs) h = (h.0, IsText-take k xs h.1)

closed : (xs ys : List ℕ) → IsText xs → 1 ≤ length ys → text_of (xs ++ set ys 0 0) ≡ xs
closed xs [] h room = absurd (omega (arith, room))
closed xs (y ∷ ys) h room = text_of-end xs ys h

drop-append : (n : ℕ) (xs ys : List ℕ) → length xs ≤ n → drop n (xs ++ ys) ≡ drop (n - length xs) ys
drop-append n [] ys h = let e : n ≡ n - 0 = omega arith in ap (λ m. drop m ys) e
drop-append zero (x ∷ xs) ys h = absurd (omega (arith, h))
drop-append (suc n) (x ∷ xs) ys h =
    let e : n - length xs ≡ suc n - suc (length xs) = omega arith in
    drop-append n xs ys (omega (arith, h)) ∙ ap (λ m. drop m ys) e

drop-nil : (n : ℕ) → drop {A = ℕ} n [] ≡ []
drop-nil zero = refl
drop-nil (suc n) = refl

drop-drop : (m n : ℕ) (xs : List ℕ) → drop m (drop n xs) ≡ drop (n + m) xs
drop-drop m zero xs = let e : m ≡ 0 + m = omega arith in ap (λ k. drop k xs) e
drop-drop m (suc n) [] = drop-nil m ∙ sym (drop-nil (suc n + m))
drop-drop m (suc n) (x ∷ xs) =
    let e : suc (n + m) ≡ suc n + m = omega arith in drop-drop m n xs ∙ ap (λ k. drop k (x ∷ xs)) e

drop-set_first : (n : ℕ) (ys : List ℕ) (v : ℕ) → drop (suc n) (set ys 0 v) ≡ drop (suc n) ys
drop-set_first n [] v = refl
drop-set_first n (y ∷ ys) v = refl

-- A text and its NUL written over the start of some memory that is longer.
text_of-written :
    (xs mem : List ℕ)
    → IsText xs
    → length xs < length mem
    → text_of (set (overwrite xs mem) (length xs) 0) ≡ xs
text_of-written xs mem h room =
    ap text_of (set-end xs (drop (length xs) mem) 0)
    ∙ closed xs (drop (length xs) mem) h (omega (arith, room, length-drop (length xs) mem))

-- What `text` holds after LLOS_Cmd_ParamCopyText.
pub record IsCopied (copy_len : ℕ) (inner mem out : List ℕ) : Type 0 where
  pub text : text_of out ≡ take copy_len inner
  pub inside : length out ≡ length mem
  pub beyond : drop (copy_len + 1) out ≡ drop (copy_len + 1) mem

written-beyond :
    (n : ℕ) (xs mem : List ℕ)
    → length xs ≤ n
    → drop (n + 1) (set (overwrite xs mem) (length xs) 0) ≡ drop (n + 1) mem
written-beyond n xs mem h =
    let behind : List ℕ = drop (length xs) mem in
    let left : n + 1 - length xs ≡ suc (n - length xs) = omega (arith, h) in
    let back : length xs + suc (n - length xs) ≡ n + 1 = omega (arith, h) in
    ap (drop (n + 1)) (set-end xs behind 0)
    ∙ drop-append (n + 1) xs (set behind 0 0) (omega (arith, h))
    ∙ ap (λ k. drop k (set behind 0 0)) left
    ∙ drop-set_first (n - length xs) behind 0
    ∙ drop-drop (suc (n - length xs)) (length xs) mem
    ∙ ap (λ k. drop k mem) back

length-written :
    (xs mem : List ℕ) (i : ℕ)
    → length xs < length mem
    → length (set (overwrite xs mem) i 0) ≡ length mem
length-written xs mem i room =
    length-set (overwrite xs mem) i 0
    ∙ omega (arith, room, length-append xs (drop (length xs) mem), length-drop (length xs) mem)

-- LLOS_Cmd_ParamCopyText, asked for a length that is not 0, copies the text between the first
-- two quotation marks of what is left of the line, cut to that length, and a NUL. Memory of
-- one byte more is enough: no byte beyond that length and the NUL is changed. What follows the
-- second mark is left in the buffer.
pub param_copy_text-quoted :
    (ctx : Context) (mem : List ℕ) (copy_len : ℕ) (pre inner rest : List ℕ)
    → 1 ≤ copy_len
    → copy_len + 1 ≤ length mem
    → NoQuote pre
    → NoQuote inner
    → skip_blanks (text_of ctx.buffer) ≡ pre ++ 34 ∷ (inner ++ 34 ∷ rest)
    → (after : Context) × (out : List ℕ) × (param_copy_text (some ctx) (some mem) copy_len
        ≡ (err_success, some after, some out))
      × IsCopied copy_len inner mem out
      × (text_of after.buffer ≡ rest)
unfolding param_copy_text
param_copy_text-quoted ctx mem copy_len pre inner rest low room plain plain' text =
    let bytes : List ℕ = trim ctx.buffer in
    let shown : text_of bytes ≡ pre ++ 34 ∷ (inner ++ 34 ∷ rest) = text_of-trim ctx.buffer ∙ text in
    let whole : IsText (pre ++ 34 ∷ (inner ++ 34 ∷ rest)) =
      subst IsText shown (text_of-IsText bytes) in
    let quoted = (IsText-append pre (34 ∷ (inner ++ 34 ∷ rest)) whole).1.1 in
    let (inner_text, last) = IsText-append inner (34 ∷ rest) quoted in
    let n : ℕ = min (length inner) copy_len in
    let part : List ℕ = take n inner in
    let part_long : length part ≡ n = length-take n inner ∙ omega arith in
    let fits : length part < length mem = omega (arith, part_long, room) in
    let first : split_quote (text_of bytes) ≡ some (pre, inner ++ 34 ∷ rest) =
      ap split_quote shown ∙ split_quote-text pre (inner ++ 34 ∷ rest) plain in
    let second = split_quote-text inner rest plain' in
    let nonzero : (copy_len == 0) ≡ false = ground (arith, low) in
    (
      record {
        buffer = store_text rest bytes;
        len = ctx.len - (length pre + 1 + length inner + 1);
      },
      set (overwrite part mem) n 0,
      rw (nonzero, first, second) refl,
      record {
        text =
            ap (λ i. text_of (set (overwrite part mem) i 0)) (sym part_long)
            ∙ text_of-written part mem (IsText-take n inner inner_text) fits
            ∙ take-min copy_len inner;
        inside = length-written part mem n fits;
        beyond =
            ap (λ i. drop (copy_len + 1) (set (overwrite part mem) i 0)) (sym part_long)
            ∙ written-beyond copy_len part mem (omega (arith, part_long));
      },
      text_of-store_text rest bytes last.1,
    )
