-- ===== src/Shell.antt =====
-- The command shell of LLOS/kernel/llos.c: the list of commands, the buffer of the parameters, and the dispatch of a line
-- (LLOS_Cmd_Init, LLOS_Cmd_Input), with Shell/Params for the parameters. A string is the list of its characters up to its
-- NUL; the buffer is the list of its bytes. The library's `qsort` and the application's commands are parameters.
pub mod Params
pub mod Dispatch
pub mod Lines
pub mod Texts
pub mod Output
pub mod Decimals
mod Tests
use llos.Base.{
  ℕ, zero, suc, ◌+◌, ◌-◌, ◌*◌, ◌/◌, ◌%◌, ◌^◌, Bool, true, false, not, ◌&&◌, ◌||◌, Option, none,
  some, List, [], ◌∷◌, ◌++◌, ltb, leb, ◌==◌, ◌!=◌, if◌then◌else◌, get_or, set, length, take, drop,
  replicate,
}
use llos.Types.{Err}
use llos.Pool.{Pool, word_at, malloc}

-- `struct cmdList_t`; the callback is the number of a function.
pub record Command : Type 0 where
  pub pattern : List ℕ
  pub callback : Option ℕ

-- `ll_cmd_t` as a callback gets it, with the bytes that `buffer` points to.
pub record Context : Type 0 where
  pub buffer : List ℕ
  pub len : ℕ

-- The static variables, and `cmdList` up to the entry with no callback.
pub record Shell : Type 0 where
  pub buf_size : ℕ
  pub buffer : Option (List ℕ)
  pub len : ℕ
  pub cmd_list : List Command
  pub vid : List ℕ
  pub pid : List ℕ
  pub version : List ℕ
  pub sn : List ℕ

-- The string at the start of some bytes.
abbrev pub text_of : List ℕ → List ℕ
text_of [] = []
text_of (c ∷ cs) = if c == 0 then [] else c ∷ text_of cs

-- Bytes written over the start of others, and a string with its NUL.
abbrev pub overwrite : List ℕ → List ℕ → List ℕ
overwrite xs bytes = xs ++ drop (length xs) bytes

abbrev pub store_text : List ℕ → List ℕ → List ℕ
store_text text bytes = overwrite (text ++ 0 ∷ []) bytes

-- `strncpy(_, src, n)`: the string, and zeros up to `n`.
abbrev pub copied : ℕ → List ℕ → List ℕ
copied n src = let text = take n (text_of src) in text ++ replicate (n - length text) 0

-- `tolower`, and `strncasecmp(a, b, n) == 0` for strings without their NUL.
abbrev pub lower : ℕ → ℕ
lower c = if leb 65 c && leb c 90 then c + 32 else c

unfoldable pub same_nocase : ℕ → List ℕ → List ℕ → Bool
same_nocase zero xs ys = true
same_nocase (suc n) xs ys =
    (lower (get_or xs 0 0) == lower (get_or ys 0 0))
    && ((get_or xs 0 0 == 0) || same_nocase n (drop 1 xs) (drop 1 ys))

-- The characters after which a command ends.
abbrev pub is_delimiter : ℕ → Bool
is_delimiter c = (c == 32) || (c == 9) || (c == 44) || (c == 13) || (c == 10)

-- The test of LLOS_Cmd_Input for one command.
abbrev pub is_match : List ℕ → ℕ → Command → Bool
is_match line len c =
    leb (length c.pattern) len
    && same_nocase (length c.pattern) c.pattern line
    && ((length c.pattern == len) || is_delimiter (get_or line (length c.pattern) 0))

-- The loop of LLOS_Cmd_Input: the first command that matches, before the entry with no callback.
unfoldable pub find_command : List ℕ → ℕ → List Command → Option (Command × ℕ)
find_command line len [] = none
find_command line len (c ∷ cs) = elim c.callback [
  | none ↦ none
  | some f ↦ if is_match line len c then some (c, f) else find_command line len cs
]

-- What is left of the line goes into the buffer, cut to its size, with a NUL behind.
unfoldable pub fill_buffer : ℕ → List ℕ → ℕ → ℕ → List ℕ → Context
fill_buffer buf_size line len pattern_len buffer =
    let rest = len - pattern_len in
    let kept = if leb buf_size rest then buf_size - 1 else rest in
    record {
      buffer = set (overwrite (copied kept (drop pattern_len line)) buffer) kept 0;
      len = kept;
    }

-- The shell beside what the application's commands work on; what a command does.
module _ {A : Type 0} where
  -- LLOS_Cmd_Input: whether a command was found, and the shell and the application after it.
  unfoldable pub cmd_input :
      (ℕ → Context → A → Err × Context × A) → Option (List ℕ) → ℕ → Shell → A → Bool × Shell × A
  cmd_input call none len s app = (false, s, app)
  cmd_input call (some line) len s app = elim s.buffer [
    | none ↦ (false, s, app)
    | some bytes ↦
        if s.buf_size == 0 then (false, s, app) else elim (find_command line len s.cmd_list) [
          | none ↦ (false, s, app)
          | some found ↦
              let context = fill_buffer s.buf_size line len (length found.0.pattern) bytes in
              let (err, after, app') = call found.1 context app in
              (true, record s { buffer = some after.buffer; len = after.len }, app')
        ]
  ]

-- `compare`: the command with the longer pattern comes first.
pub data Order : Type 0 where
  later : Order
  earlier : Order
  equal : Order

unfoldable pub compare : Command → Command → Order
compare a b =
    if ltb (length a.pattern) (length b.pattern)
    then later
    else if ltb (length b.pattern) (length a.pattern)
    then earlier
    else equal

-- The bytes of a block of the pool, from the word `i` on.
unfoldable pub bytes_at : List ℕ → ℕ → ℕ → ℕ → List ℕ
bytes_at ws i k zero = []
bytes_at ws i k (suc n) = (word_at ws (i + k / 4) / 256 ^ (k % 4)) % 256 ∷ bytes_at ws i (k + 1) n

abbrev pub text_or_empty : Option (List ℕ) → List ℕ
text_or_empty none = []
text_or_empty (some text) = text

-- The entries before the one with no callback, and the others.
unfoldable pub active : List Command → List Command
active [] = []
active (c ∷ cs) = elim c.callback [ none ↦ [] | some f ↦ c ∷ active cs ]

unfoldable pub inactive : List Command → List Command
inactive [] = []
inactive (c ∷ cs) = elim c.callback [ none ↦ c ∷ cs | some f ↦ inactive cs ]

-- LLOS_Cmd_Init. `qsort` is the library's, called with `compare`.
unfoldable pub cmd_init :
    ((Command → Command → Order) → List Command → List Command)
    → ℕ
    → Option (List ℕ)
    → Option (List ℕ)
    → Option (List ℕ)
    → Option (List ℕ)
    → Shell
    → Pool
    → Shell × Pool
cmd_init qsort buf_size vid pid version sn s p =
    let named = record s {
      vid = text_or_empty vid;
      pid = text_or_empty pid;
      version = text_or_empty version;
      sn = text_or_empty sn;
      buf_size = buf_size;
    } in
    if leb buf_size 1
    then (record named { buf_size = 0 }, p)
    else (let (a, q) = malloc p buf_size in
        elim a [
          | none ↦ (record named { buf_size = 0; buffer = none }, q)
          | some x ↦ elim q.p_pool [
            | none ↦ (named, q)
            | some base ↦ (
              record named {
                buffer = some (set (bytes_at q.words ((x - base) / 4) 0 buf_size) 0 0);
                cmd_list = qsort compare (active s.cmd_list) ++ inactive s.cmd_list;
              },
              q,
            )
          ]
        ])
