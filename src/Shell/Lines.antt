-- ===== src/Shell/Lines.antt =====
-- What the parameters of a line are read as.
use mathlib.Core.Path.{subst}
use mathlib.Core.List.{append_assoc}
use llos.Base.{
  ℕ, zero, suc, ◌≤◌, ◌≡◌, refl, ap, ◌∙◌, arith, Bool, true, false, ◌||◌, Option, none, some, List,
  [], ◌∷◌, ◌++◌, if◌then◌else◌, ◌==◌, length, set, drop, Bool-cases, inl, inr,
}
use llos.Types.{Err, err_success}
use llos.Shell.{Context, text_of, store_text, lower, same_nocase}
use llos.Shell.Params.{skip_blanks, trim, ends_param, bool_word, is_empty, param_bool}

-- A string has no NUL.
abbrev pub IsText : List ℕ → Type 0
IsText [] = Unit
IsText (c ∷ cs) = ((c == 0) ≡ false) × IsText cs

pub text_of-IsText : (bytes : List ℕ) → IsText (text_of bytes)
text_of-IsText [] = tt
text_of-IsText (c ∷ cs) = elim (Bool-cases (c == 0)) [
  | inl stop ↦ rw stop tt
  | inr more ↦ rw more (more, text_of-IsText cs)
]

skip_blanks-IsText : (text : List ℕ) → IsText text → IsText (skip_blanks text)
unfolding skip_blanks
skip_blanks-IsText [] h = h
skip_blanks-IsText (c ∷ cs) h = elim (Bool-cases ((c == 32) || (c == 44))) [
  | inl blank ↦ rw blank (skip_blanks-IsText cs h.1)
  | inr other ↦ rw other h
]

pub text_of-end : (text rest : List ℕ) → IsText text → text_of (text ++ 0 ∷ rest) ≡ text
text_of-end [] rest h = refl
text_of-end (c ∷ cs) rest h = rw h.0 (ap (λ xs. c ∷ xs) (text_of-end cs rest h.1))

pub text_of-store_text :
    (text bytes : List ℕ) → IsText text → text_of (store_text text bytes) ≡ text
text_of-store_text text bytes h =
    let rest : List ℕ = drop (length (text ++ 0 ∷ [])) bytes in
    ap text_of (append_assoc text (0 ∷ []) rest) ∙ text_of-end text rest h

text_of-cleared : (bytes : List ℕ) → text_of (set bytes 0 0) ≡ []
text_of-cleared [] = refl
text_of-cleared (c ∷ cs) = refl

text_of-trimmed :
    (text bytes : List ℕ)
    → IsText text
    → text_of (elim text [ [] ↦ set bytes 0 0 | c ∷ cs ↦ store_text (c ∷ cs) bytes ]) ≡ text
text_of-trimmed [] bytes h = text_of-cleared bytes
text_of-trimmed (c ∷ cs) bytes h = text_of-store_text (c ∷ cs) bytes h

-- Trim leaves the string from its first character on that is no blank.
pub text_of-trim : (bytes : List ℕ) → text_of (trim bytes) ≡ skip_blanks (text_of bytes)
unfolding trim
text_of-trim bytes =
    text_of-trimmed (skip_blanks (text_of bytes)) bytes
      (skip_blanks-IsText (text_of bytes) (text_of-IsText bytes))

-- How a Boolean may be written, in letters of any case.
pub data SpelledBool : Bool → List ℕ → Type 0 where
  digit_zero : SpelledBool false (48 ∷ [])
  digit_one : SpelledBool true (49 ∷ [])
  word_on : {o n : ℕ} → lower o ≡ 111 → lower n ≡ 110 → SpelledBool true (o ∷ n ∷ [])
  word_off :
      {o f g : ℕ}
      → lower o ≡ 111
      → lower f ≡ 102
      → lower g ≡ 102
      → SpelledBool false (o ∷ f ∷ g ∷ [])
  word_true :
      {t r u e : ℕ}
      → lower t ≡ 116
      → lower r ≡ 114
      → lower u ≡ 117
      → lower e ≡ 101
      → SpelledBool true (t ∷ r ∷ u ∷ e ∷ [])
  word_false :
      {f a l s e : ℕ}
      → lower f ≡ 102
      → lower a ≡ 97
      → lower l ≡ 108
      → lower s ≡ 115
      → lower e ≡ 101
      → SpelledBool false (f ∷ a ∷ l ∷ s ∷ e ∷ [])

-- A letter is neither a digit nor the NUL.
letter :
    (c l : ℕ)
    → lower c ≡ l
    → 97 ≤ l
    → ((c == 48) ≡ false) × ((c == 49) ≡ false) × ((c == 0) ≡ false)
letter c l h low = (ground (arith, h, low), ground (arith, h, low), ground (arith, h, low))

bool_word-spelled :
    {b : Bool} {word : List ℕ} (rest : List ℕ)
    → SpelledBool b word
    → bool_word (word ++ rest) ≡ some (b, length word)
unfolding bool_word same_nocase
bool_word-spelled rest digit_zero = refl
bool_word-spelled rest digit_one = refl
bool_word-spelled rest (word_on {o} {n} ho hn) =
    let (o0, o1, oz) = letter o 111 ho (omega arith) in
    let (n0, n1, nz) = letter n 110 hn (omega arith) in rw (o0, o1, oz, nz, ho, hn) refl
bool_word-spelled rest (word_off {o} {f} {g} ho hf hg) =
    let (o0, o1, oz) = letter o 111 ho (omega arith) in
    let (f0, f1, fz) = letter f 102 hf (omega arith) in
    let (g0, g1, gz) = letter g 102 hg (omega arith) in rw (o0, o1, oz, fz, gz, ho, hf, hg) refl
bool_word-spelled rest (word_true {t} {r} {u} {e} ht hr hu he) =
    let (t0, t1, tz) = letter t 116 ht (omega arith) in
    let (r0, r1, rz) = letter r 114 hr (omega arith) in
    let (u0, u1, uz) = letter u 117 hu (omega arith) in
    let (e0, e1, ez) = letter e 101 he (omega arith) in
    rw (t0, t1, tz, rz, uz, ez, ht, hr, hu, he) refl
bool_word-spelled rest (word_false {f} {a} {l} {s} {e} hf ha hl hs he) =
    let (f0, f1, fz) = letter f 102 hf (omega arith) in
    let (a0, a1, az) = letter a 97 ha (omega arith) in
    let (l0, l1, lz) = letter l 108 hl (omega arith) in
    let (s0, s1, sz) = letter s 115 hs (omega arith) in
    let (e0, e1, ez) = letter e 101 he (omega arith) in
    rw (f0, f1, fz, az, lz, sz, ez, hf, ha, hl, hs, he) refl

drop-length-append : (xs ys : List ℕ) → drop (length xs) (xs ++ ys) ≡ ys
drop-length-append [] ys = refl
drop-length-append (x ∷ xs) ys = drop-length-append xs ys

pub IsText-append : (xs ys : List ℕ) → IsText (xs ++ ys) → IsText xs × IsText ys
IsText-append [] ys h = (tt, h)
IsText-append (x ∷ xs) ys h = let (left, right) = IsText-append xs ys h.1 in ((h.0, left), right)

spelled-nonempty :
    {b : Bool} {word : List ℕ} (rest : List ℕ)
    → SpelledBool b word
    → is_empty (word ++ rest) ≡ false
spelled-nonempty rest digit_zero = refl
spelled-nonempty rest digit_one = refl
spelled-nonempty rest (word_on ho hn) = refl
spelled-nonempty rest (word_off ho hf hg) = refl
spelled-nonempty rest (word_true ht hr hu he) = refl
spelled-nonempty rest (word_false hf ha hl hs he) = refl

-- A parameter that is a Boolean in one of its spellings and that ends is read, and what follows it is left.
pub param_bool-spelled :
    (ctx : Context) (old b : Bool) (word rest : List ℕ)
    → SpelledBool b word
    → ends_param rest ≡ true
    → skip_blanks (text_of ctx.buffer) ≡ word ++ rest
    → (out : Context) × (param_bool (some ctx) (some old) ≡ (err_success, some out, some b))
      × (text_of out.buffer ≡ rest)
unfolding param_bool
param_bool-spelled ctx old b word rest spelled ends text =
    let bytes : List ℕ = trim ctx.buffer in
    let shown : text_of bytes ≡ word ++ rest = text_of-trim ctx.buffer ∙ text in
    let full = spelled-nonempty rest spelled in
    let found = bool_word-spelled rest spelled in
    let behind : drop (length word) (text_of bytes) ≡ rest =
      ap (drop (length word)) shown ∙ drop-length-append word rest in
    let whole : IsText (word ++ rest) = subst IsText shown (text_of-IsText bytes) in
    (
      record ctx { buffer = store_text rest bytes },
      rw (shown, full, found, behind, ends) refl,
      text_of-store_text rest bytes (IsText-append word rest whole).1,
    )

-- A line of Booleans: each stands after blanks.
abbrev pub is_blank : ℕ → Bool
is_blank c = (c == 32) || (c == 44)

abbrev pub AreBlanks : List ℕ → Type 0
AreBlanks [] = Unit
AreBlanks (c ∷ cs) = (is_blank c ≡ true) × AreBlanks cs

pub data SpelledLine : List Bool → List ℕ → Type 0 where
  line_end : SpelledLine [] []
  line_next :
      {b : Bool} {bs : List Bool} {word rest : List ℕ} (sep : ℕ) (gap : List ℕ)
      → is_blank sep ≡ true
      → AreBlanks gap
      → SpelledBool b word
      → SpelledLine bs rest
      → SpelledLine (b ∷ bs) ((sep ∷ gap) ++ (word ++ rest))

skip_blanks-word :
    {b : Bool} {word : List ℕ} (rest : List ℕ)
    → SpelledBool b word
    → skip_blanks (word ++ rest) ≡ word ++ rest
unfolding skip_blanks
skip_blanks-word rest digit_zero = refl
skip_blanks-word rest digit_one = refl
skip_blanks-word rest (word_on {o} {n} ho hn) =
    let other : is_blank o ≡ false = ground (arith, ho) in rw other refl
skip_blanks-word rest (word_off {o} {f} {g} ho hf hg) =
    let other : is_blank o ≡ false = ground (arith, ho) in rw other refl
skip_blanks-word rest (word_true {t} {r} {u} {e} ht hr hu he) =
    let other : is_blank t ≡ false = ground (arith, ht) in rw other refl
skip_blanks-word rest (word_false {f} {a} {l} {s} {e} hf ha hl hs he) =
    let other : is_blank f ≡ false = ground (arith, hf) in rw other refl

skip_blanks-gap : (gap text : List ℕ) → AreBlanks gap → skip_blanks (gap ++ text) ≡ skip_blanks text
unfolding skip_blanks
skip_blanks-gap [] text all = refl
skip_blanks-gap (c ∷ cs) text all = rw all.0 (skip_blanks-gap cs text all.1)

ends_param-line : {bs : List Bool} {text : List ℕ} → SpelledLine bs text → ends_param text ≡ true
unfolding ends_param
ends_param-line line_end = refl
ends_param-line (line_next sep gap blank all spelled next) = ground (arith, blank)

abbrev add_bool : Bool → Option (List Bool) → Option (List Bool)
add_bool b none = none
add_bool b (some bs) = some (b ∷ bs)

-- What a command does after LLOS_Cmd_ParamBool: it stops at an error, or goes on with the context.
abbrev taken_bool :
    (Context → Option (List Bool)) → Err × Option Context × Option Bool → Option (List Bool)
taken_bool go (err, none, val) = none
taken_bool go (err, some ctx, none) = none
taken_bool go (err, some ctx, some b) = if err == err_success then add_bool b (go ctx) else none

-- A command that reads so many Booleans, one after the other.
unfoldable pub read_bools : ℕ → Context → Option (List Bool)
read_bools zero ctx = some []
read_bools (suc n) ctx =
    taken_bool (λ after. read_bools n after) (param_bool (some ctx) (some false))

-- A command finds the Booleans of its line, one call of LLOS_Cmd_ParamBool each, whichever of the words
-- 0, 1, ON, OFF, TRUE and FALSE stand there, in letters of any case, after any blanks and commas.
pub read_bools-line :
    (bs : List Bool) (text : List ℕ) (ctx : Context)
    → SpelledLine bs text
    → text_of ctx.buffer ≡ text
    → read_bools (length bs) ctx ≡ some bs
unfolding read_bools
read_bools-line whole text ctx line_end shown = refl
read_bools-line whole text ctx (line_next {b} {bs} {word} {rest} sep gap blank gaps spelled next)
      shown =
    let start : skip_blanks (text_of ctx.buffer) ≡ word ++ rest =
      ap skip_blanks shown
      ∙ skip_blanks-gap (sep ∷ gap) (word ++ rest) (blank, gaps)
      ∙ skip_blanks-word rest spelled in
    let (out, read, left) =
      param_bool-spelled ctx false b word rest spelled (ends_param-line next) start in
    ap (taken_bool (λ after. read_bools (length bs) after)) read
    ∙ ap (add_bool b) (read_bools-line bs rest out next left)
