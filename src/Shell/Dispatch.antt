-- ===== src/Shell/Dispatch.antt =====
-- Which command LLOS_Cmd_Input calls, and with what.
use mathlib.Core.Path.{subst}
use mathlib.Core.List.{append_assoc}
use llos.Base.{
  ℕ, zero, suc, ◌-◌, ◌≤◌, ◌<◌, ◌≡◌, ◌≢◌, ◌⊎◌, refl, sym, ap, ◌∙◌, arith, Bool, true, false, Option,
  none, some, List, [], ◌∷◌, ◌++◌, if◌then◌else◌, ltb, leb, ◌==◌, length, length-append, length-set,
  length-take, length-drop, length-replicate, min, get_or, get_or-set_self, set, take, drop,
  replicate, Bool-cases, Option-cases, inl, inr,
}
use llos.Types.{Err}
use llos.Shell.{
  Command, Context, Shell, text_of, overwrite, copied, is_match, find_command, fill_buffer,
  cmd_input, later, compare, active,
}

-- The commands stand as `compare` wants them: none should stand before one that is before it.
abbrev pub AreAfter : Command → List Command → Type 0
AreAfter c [] = Unit
AreAfter c (d ∷ ds) = (compare c d ≢ later) × AreAfter c ds

abbrev pub IsSorted : List Command → Type 0
IsSorted [] = Unit
IsSorted (c ∷ cs) = AreAfter c cs × IsSorted cs

-- No command matches the line; no command that matches has a longer pattern.
abbrev pub NoMatch : List ℕ → ℕ → List Command → Type 0
NoMatch line len [] = Unit
NoMatch line len (c ∷ cs) = (is_match line len c ≡ false) × NoMatch line len cs

abbrev pub NoLonger : ℕ → List ℕ → ℕ → List Command → Type 0
NoLonger n line len [] = Unit
NoLonger n line len (c ∷ cs) =
    (is_match line len c ≡ true → length c.pattern ≤ n) × NoLonger n line len cs

compare-length : (c d : Command) → compare c d ≢ later → length d.pattern ≤ length c.pattern
unfolding compare
compare-length c d = elim (Bool-cases (ltb (length c.pattern) (length d.pattern))) [
  | inl less ↦ rw less (λ h. absurd (h refl))
  | inr more ↦ λ h. ground (arith, more)
]

after-NoLonger :
    (c : Command) (line : List ℕ) (len : ℕ) (ds : List Command)
    → AreAfter c ds
    → NoLonger (length c.pattern) line len ds
after-NoLonger c line len [] after = tt
after-NoLonger c line len (d ∷ ds) after =
    (λ h. compare-length c d after.0, after-NoLonger c line len ds after.1)

abbrev pub Found : List ℕ → ℕ → List Command → Command × ℕ → Type 0
Found line len cs found =
    (is_match line len found.0 ≡ true)
    × (found.0.callback ≡ some found.1)
    × NoLonger (length found.0.pattern) line len (active cs)

find_command-none :
    (line : List ℕ) (len : ℕ) (cs : List Command)
    → find_command line len cs ≡ none
    → NoMatch line len (active cs)
unfolding find_command active
find_command-none line len [] = λ h. tt
find_command-none line len (c ∷ cs) = elim (Option-cases c.callback) [
  | inl last ↦ rw last (λ h. tt)
  | inr (f, here) ↦ rw here (elim (Bool-cases (is_match line len c)) [
    | inl hit ↦ rw hit (λ h. ground (arith, h))
    | inr miss ↦ rw miss (λ h. (refl, find_command-none line len cs h))
  ])
]

abbrev or_that : Option (Command × ℕ) → Command × ℕ → Command × ℕ
or_that none x = x
or_that (some y) x = y

active-next :
    (c : Command) (f : ℕ) (cs : List Command)
    → c.callback ≡ some f
    → active (c ∷ cs) ≡ c ∷ active cs
unfolding active
active-next c f cs here = ap (λ o. elim o [ none ↦ [] | some g ↦ c ∷ active cs ]) here

find_command-next :
    (line : List ℕ) (len : ℕ) (c : Command) (f : ℕ) (cs : List Command)
    → c.callback ≡ some f
    → find_command line len (c ∷ cs)
      ≡ (if is_match line len c then some (c, f) else find_command line len cs)
unfolding find_command
find_command-next line len c f cs here =
    ap
      (λ o. elim o [
        | none ↦ none
        | some g ↦ if is_match line len c then some (c, g) else find_command line len cs
      ])
      here

find_command-some :
    (line : List ℕ) (len : ℕ) (cs : List Command) (found : Command × ℕ)
    → IsSorted (active cs)
    → find_command line len cs ≡ some found
    → Found line len cs found
unfolding find_command
find_command-some line len [] found sorted h = ground (arith, h)
find_command-some line len (d ∷ ds) found sorted h = elim (Option-cases d.callback) [
  | inl last ↦
      let step : find_command line len (d ∷ ds) ≡ none = rw last refl in
      let bad : none ≡ some found = sym step ∙ h in ground (arith, bad)
  | inr (g, here) ↦
      let next = active-next d g ds here in
      let (first, others) = subst IsSorted next sorted in
      elim (Bool-cases (is_match line len d)) [
        | inl hit ↦
            let step : find_command line len (d ∷ ds) ≡ some (d, g) =
              find_command-next line len d g ds here ∙ rw hit refl in
            let same : (d, g) ≡ found = ap (λ o. or_that o (d, g)) (sym step ∙ h) in
            let longest : NoLonger (length d.pattern) line len (d ∷ active ds) =
              (λ e. omega arith, after-NoLonger d line len (active ds) first) in
            subst (Found line len (d ∷ ds)) same
              (hit, here, subst (NoLonger (length d.pattern) line len) (sym next) longest)
        | inr miss ↦
            let step : find_command line len (d ∷ ds) ≡ find_command line len ds =
              find_command-next line len d g ds here ∙ rw miss refl in
            let (hit, called, rest) = find_command-some line len ds found others (sym step ∙ h) in
            let longest : NoLonger (length found.0.pattern) line len (d ∷ active ds) =
              (λ e. ground (arith, e, miss), rest) in
            (hit, called, subst (NoLonger (length found.0.pattern) line len) (sym next) longest)
      ]
]

-- The string in the buffer.
text_of-padded :
    (n : ℕ) (src rest : List ℕ) → text_of (take n (text_of src) ++ 0 ∷ rest) ≡ take n (text_of src)
text_of-padded zero src rest = refl
text_of-padded (suc n) [] rest = refl
text_of-padded (suc n) (c ∷ cs) rest = elim (Bool-cases (c == 0)) [
  | inl stop ↦ rw stop refl
  | inr more ↦ rw (more, more) (ap (λ xs. c ∷ xs) (text_of-padded n cs rest))
]

length-copied : (n : ℕ) (src : List ℕ) → length (copied n src) ≡ n
length-copied n src =
    let text : List ℕ = take n (text_of src) in
    let pad : List ℕ = replicate (n - length text) 0 in
    let padded : length pad ≡ n - length text = length-replicate (n - length text) 0 in
    omega (arith, length-append text pad, padded, length-take n (text_of src))

pub set-end : (xs ys : List ℕ) (v : ℕ) → set (xs ++ ys) (length xs) v ≡ xs ++ set ys 0 v
set-end [] ys v = refl
set-end (x ∷ xs) ys v = ap (λ zs. x ∷ zs) (set-end xs ys v)

text_of-zeros :
    (text : List ℕ) (k : ℕ) (ys : List ℕ)
    → 1 ≤ length ys
    → (rest : List ℕ) × ((text ++ replicate k 0) ++ set ys 0 0 ≡ text ++ 0 ∷ rest)
text_of-zeros text k [] h = absurd (omega (arith, h))
text_of-zeros text zero (y ∷ ys) h = (ys, append_assoc text [] (0 ∷ ys))
text_of-zeros text (suc k) (y ∷ ys) h =
    (replicate k 0 ++ 0 ∷ ys, append_assoc text (replicate (suc k) 0) (0 ∷ ys))

-- What the command gets: the buffer is not overrun, the string in it ends inside it, and it is what follows the
-- pattern in the line, cut to the buffer's size.
pub record IsGiven (buf_size : ℕ) (line : List ℕ) (len pattern_len : ℕ) (ctx : Context)
    : Type 0 where
  pub inside : length ctx.buffer ≡ buf_size
  pub bounded : ctx.len < buf_size
  pub cut : ctx.len ≡ min (len - pattern_len) (buf_size - 1)
  pub terminated : get_or ctx.buffer ctx.len 1 ≡ 0
  pub text : text_of ctx.buffer ≡ take ctx.len (text_of (drop pattern_len line))

fill_buffer-IsGiven :
    (buf_size : ℕ) (line : List ℕ) (len pattern_len : ℕ) (bytes : List ℕ)
    → 1 ≤ buf_size
    → length bytes ≡ buf_size
    → IsGiven buf_size line len pattern_len (fill_buffer buf_size line len pattern_len bytes)
unfolding fill_buffer
fill_buffer-IsGiven buf_size line len pattern_len bytes low long =
    let kept : ℕ = if leb buf_size (len - pattern_len) then buf_size - 1 else len - pattern_len in
    let small : kept < buf_size = ground (arith, low) in
    let src : List ℕ = drop pattern_len line in
    let text : List ℕ = take kept (text_of src) in
    let zeros : ℕ = kept - length text in
    let whole : List ℕ = overwrite (copied kept src) bytes in
    let front = length-copied kept src in
    let behind = length-drop (length (copied kept src)) bytes in
    let total = length-append (copied kept src) (drop (length (copied kept src)) bytes) in
    let same : length whole ≡ buf_size = omega (arith, small, front, behind, total, long) in
    let (rest, shown) =
      text_of-zeros text zeros (drop (length (copied kept src)) bytes)
        (omega (arith, small, front, behind, long)) in
    record {
      inside = length-set whole kept 0 ∙ same;
      bounded = small;
      cut = ground (arith, low);
      terminated = get_or-set_self whole kept 0 1 (omega (arith, small, same));
      text =
          ap text_of (
            ap (λ i. set whole i 0) (sym front)
            ∙ set-end (copied kept src) (drop (length (copied kept src)) bytes) 0
            ∙ shown)
          ∙ text_of-padded kept src rest;
    }

module _ {A : Type 0} (call : ℕ → Context → A → Err × Context × A) where
  -- LLOS_Cmd_Input, where the commands with a callback stand in the order of `compare`, as LLOS_Cmd_Init leaves
  -- them, and the buffer has its size: either no command matches the line and nothing is done, or one that
  -- matches is called, no command that matches has a longer pattern, and it is given the rest of the line, cut to the buffer.
  pub input-dispatch :
      (line : List ℕ) (len : ℕ) (s : Shell) (app : A) (bytes : List ℕ)
      → s.buffer ≡ some bytes
      → length bytes ≡ s.buf_size
      → 1 ≤ s.buf_size
      → IsSorted (active s.cmd_list)
      → (NoMatch line len (active s.cmd_list)
          × (cmd_input call (some line) len s app ≡ (false, s, app)))
        ⊎ ((found : Command × ℕ) × (ctx : Context) × Found line len s.cmd_list found
            × IsGiven s.buf_size line len (length found.0.pattern) ctx
            × (cmd_input call (some line) len s app ≡ (
              true,
              record s {
                buffer = some (call found.1 ctx app).1.buffer;
                len = (call found.1 ctx app).1.len;
              },
              (call found.1 ctx app).2,
            )))
  unfolding cmd_input
  input-dispatch line len s app bytes there long low sorted =
      let some_size : (s.buf_size == 0) ≡ false = ground (arith, low) in
      let chosen : Option (Command × ℕ) → List ℕ → Bool × Shell × A = λ o bs. elim o [
        | none ↦ (false, s, app)
        | some found ↦
            let ctx = fill_buffer s.buf_size line len (length found.0.pattern) bs in
            let (err, after, app') = call found.1 ctx app in
            (true, record s { buffer = some after.buffer; len = after.len }, app')
      ] in
      let opened : cmd_input call (some line) len s app ≡ (
          if s.buf_size == 0
          then (false, s, app)
          else chosen (find_command line len s.cmd_list) bytes) =
        ap
          (λ o. elim o [
            | none ↦ (false, s, app)
            | some bs ↦
                if s.buf_size == 0
                then (false, s, app)
                else chosen (find_command line len s.cmd_list) bs
          ])
          there in
      let step : cmd_input call (some line) len s app
          ≡ chosen (find_command line len s.cmd_list) bytes =
        opened ∙ rw some_size refl in
      elim (Option-cases (find_command line len s.cmd_list)) [
        | inl missing ↦
            inl (
              find_command-none line len s.cmd_list missing,
              step ∙ ap (λ o. chosen o bytes) missing,
            )
        | inr (found, h) ↦ inr (
          found,
          fill_buffer s.buf_size line len (length found.0.pattern) bytes,
          find_command-some line len s.cmd_list found sorted h,
          fill_buffer-IsGiven s.buf_size line len (length found.0.pattern) bytes low long,
          step ∙ ap (λ o. chosen o bytes) h,
        )
      ]
