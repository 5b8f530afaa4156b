-- ===== src/Shell/Params.antt =====
-- The parameters of a command: Trim, convert_unit and the LLOS_Cmd_Param functions of LLOS/kernel/llos.c. A null
-- pointer is `none`. The operations on `float` and `double`, and `strtof`, are the parameter `Floats`.
use llos.Base.{
  ℕ, suc, ◌+◌, ◌-◌, ◌*◌, ◌^◌, Bool, true, false, not, ◌&&◌, ◌||◌, Option, none, some, List, [], ◌∷◌,
  ltb, leb, ◌==◌, if◌then◌else◌, get_or, set, length, take, drop, min,
}
use llos.Types.{Err, err_success, err_failed, err_null, err_para}
use llos.Shell.{Context, text_of, overwrite, store_text, same_nocase}

-- `while (*p == ' ' || *p == ',') p++;`
unfoldable pub skip_blanks : List ℕ → List ℕ
skip_blanks [] = []
skip_blanks (c ∷ cs) = if (c == 32) || (c == 44) then skip_blanks cs else c ∷ cs

-- Trim.
unfoldable pub trim : List ℕ → List ℕ
trim bytes = elim (skip_blanks (text_of bytes)) [
  | [] ↦ set bytes 0 0
  | c ∷ cs ↦ store_text (c ∷ cs) bytes
]

-- What may follow a parameter.
unfoldable pub ends_param : List ℕ → Bool
ends_param [] = true
ends_param (c ∷ cs) = (c == 32) || (c == 44) || (c == 9)

-- The words for a Boolean: its value and the length of the word.
unfoldable pub bool_word : List ℕ → Option (Bool × ℕ)
bool_word text =
    let first = get_or text 0 0 in
    if first == 48
    then some (false, 1)
    else if first == 49
    then some (true, 1)
    else if same_nocase 2 text (79 ∷ 78 ∷ [])
    then some (true, 2)
    else if same_nocase 3 text (79 ∷ 70 ∷ 70 ∷ [])
    then some (false, 3)
    else if same_nocase 4 text (84 ∷ 82 ∷ 85 ∷ 69 ∷ [])
    then some (true, 4)
    else if same_nocase 5 text (70 ∷ 65 ∷ 76 ∷ 83 ∷ 69 ∷ [])
    then some (false, 5)
    else none

abbrev pub is_empty : List ℕ → Bool
is_empty [] = true
is_empty (c ∷ cs) = false

-- LLOS_Cmd_ParamBool: the code, the context, and `*val`, which is written before the end of the word is looked at.
unfoldable pub param_bool : Option Context → Option Bool → Err × Option Context × Option Bool
param_bool none val = (err_null, none, val)
param_bool (some ctx) none = (err_null, some ctx, none)
param_bool (some ctx) (some old) =
    let bytes = trim ctx.buffer in
    let text = text_of bytes in
    let trimmed = record ctx { buffer = bytes } in
    if is_empty text then (err_failed, some trimmed, some old) else elim (bool_word text) [
      | none ↦ (err_failed, some trimmed, some old)
      | some word ↦
          if ends_param (drop word.1 text)
          then (
            err_success,
            some (record ctx { buffer = store_text (drop word.1 text) bytes }),
            some word.0,
          )
          else (err_failed, some trimmed, some word.0)
    ]

-- The multipliers of the table of units.
pub data Multiplier : Type 0 where
  milli : Multiplier
  one : Multiplier
  kilo : Multiplier
  mega : Multiplier

-- `ll_unit_entry_t`, less the length, which is that of the suffix in each entry.
pub record UnitEntry : Type 0 where
  pub suffix : List ℕ
  pub multiplier : Multiplier

abbrev entry : List ℕ → Multiplier → UnitEntry
entry suffix multiplier = record { suffix = suffix; multiplier = multiplier }

abbrev pub builtin_units : List UnitEntry
builtin_units =
    entry (109 ∷ 111 ∷ 104 ∷ 109 ∷ []) milli
    ∷ entry (107 ∷ 111 ∷ 104 ∷ 109 ∷ []) kilo
    ∷ entry (77 ∷ 111 ∷ 104 ∷ 109 ∷ []) mega
    ∷ entry (107 ∷ 72 ∷ 122 ∷ []) kilo
    ∷ entry (77 ∷ 72 ∷ 122 ∷ []) mega
    ∷ entry (111 ∷ 104 ∷ 109 ∷ []) one
    ∷ entry (109 ∷ 65 ∷ []) milli
    ∷ entry (109 ∷ 86 ∷ []) milli
    ∷ entry (109 ∷ 115 ∷ []) milli
    ∷ entry (109 ∷ 109 ∷ []) milli
    ∷ entry (109 ∷ 70 ∷ []) milli
    ∷ entry (109 ∷ 72 ∷ []) milli
    ∷ entry (109 ∷ 87 ∷ []) milli
    ∷ entry (107 ∷ 65 ∷ []) kilo
    ∷ entry (107 ∷ 86 ∷ []) kilo
    ∷ entry (107 ∷ 109 ∷ []) kilo
    ∷ entry (107 ∷ 87 ∷ []) kilo
    ∷ entry (72 ∷ 122 ∷ []) one
    ∷ entry (65 ∷ []) one
    ∷ entry (86 ∷ []) one
    ∷ entry (115 ∷ []) one
    ∷ entry (109 ∷ []) one
    ∷ entry (70 ∷ []) one
    ∷ entry (72 ∷ []) one
    ∷ entry (87 ∷ []) one
    ∷ []

-- `strncmp(text, suffix, length) == 0` for a suffix of that length.
abbrev pub has_prefix : List ℕ → List ℕ → Bool
has_prefix [] text = true
has_prefix (c ∷ cs) [] = false
has_prefix (c ∷ cs) (d ∷ text) = (c == d) && has_prefix cs text

-- The loop of convert_unit: the longest suffix so far, and its multiplier.
unfoldable pub unit_loop : List ℕ → List UnitEntry → ℕ × Multiplier → ℕ × Multiplier
unit_loop text [] best = best
unit_loop text (u ∷ us) best =
    if has_prefix u.suffix text && ltb best.0 (length u.suffix)
    then unit_loop text us (length u.suffix, u.multiplier)
    else unit_loop text us best

-- The arithmetic: doubles, floats, and what the library reads from a string: a value, the characters that it took, and
-- whether `errno` is ERANGE.
pub record Floats (D F : Type 0) : Type 0 where
  pub literal : Multiplier → D
  pub times : D → D → D
  pub of_long : Bool → ℕ → D
  pub of_float : F → D
  pub to_float : D → F
  pub fits_int32 : D → Bool
  pub to_int32 : D → ℕ
  pub strtof : List ℕ → F × ℕ × Bool

abbrev pub is_space : ℕ → Bool
is_space c = (c == 32) || (leb 9 c && leb c 13)

abbrev pub is_digit : ℕ → Bool
is_digit c = leb 48 c && leb c 57

unfoldable pub digits : List ℕ → ℕ → ℕ → ℕ × ℕ
digits [] value count = (value, count)
digits (c ∷ cs) value count =
    if is_digit c then digits cs (10 * value + (c - 48)) (count + 1) else (value, count)

unfoldable pub spaces : List ℕ → ℕ
spaces [] = 0
spaces (c ∷ cs) = if is_space c then suc (spaces cs) else 0

-- `strtol(text, &endptr, 10)` for a `long` of 32 bits: the sign, the magnitude, the characters taken, and ERANGE.
unfoldable pub strtol : List ℕ → Bool × ℕ × ℕ × Bool
strtol text =
    let skipped = spaces text in
    let first = get_or text skipped 0 in
    let negative = first == 45 in
    let sign = if negative || (first == 43) then 1 else 0 in
    let (value, count) = digits (drop (skipped + sign) text) 0 0 in
    let limit = if negative then 2 ^ 31 else 2 ^ 31 - 1 in
    if count == 0
    then (false, 0, 0, false)
    else (negative, min value limit, skipped + sign + count, ltb limit value)

module _ {D F : Type 0} (floats : Floats D F) where
  -- convert_unit: the value, and what follows it.
  unfoldable pub convert_unit : D → List ℕ → D × List ℕ
  convert_unit value text =
      let after_blanks = skip_blanks text in
      let (best_len, best_mult) = unit_loop after_blanks builtin_units (0, one) in
      if best_len == 0
      then (value, text)
      else (floats.times value (floats.literal best_mult), drop best_len after_blanks)

  -- LLOS_Cmd_ParamFloat.
  unfoldable pub param_float : Option Context → Option F → Err × Option Context × Option F
  param_float none val = (err_null, none, val)
  param_float (some ctx) none = (err_null, some ctx, none)
  param_float (some ctx) (some old) =
      let bytes = trim ctx.buffer in
      let text = text_of bytes in
      let trimmed = record ctx { buffer = bytes } in
      let (parsed, count, erange) = floats.strtof text in
      let (value, rest) = convert_unit (floats.of_float parsed) (drop count text) in
      if is_empty text || (count == 0) || erange || not (ends_param rest)
      then (err_failed, some trimmed, some old)
      else (
        err_success,
        some (record ctx { buffer = store_text rest bytes }),
        some (floats.to_float value),
      )

  -- LLOS_Cmd_ParamInt32. A `long` of 32 bits is never out of the range of an int32_t.
  unfoldable pub param_int32 : Option Context → Option ℕ → Err × Option Context × Option ℕ
  param_int32 none val = (err_null, none, val)
  param_int32 (some ctx) none = (err_null, some ctx, none)
  param_int32 (some ctx) (some old) =
      let bytes = trim ctx.buffer in
      let text = text_of bytes in
      let trimmed = record ctx { buffer = bytes } in
      let (negative, parsed, count, erange) = strtol text in
      let (value, rest) = convert_unit (floats.of_long negative parsed) (drop count text) in
      if is_empty text || (count == 0) || erange || not (ends_param rest)
      then (err_failed, some trimmed, some old)
      else if not (floats.fits_int32 value)
      then (err_para, some trimmed, some old)
      else (
        err_success,
        some (record ctx { buffer = store_text rest bytes }),
        some (floats.to_int32 value),
      )

-- What follows the first quotation mark, and the characters before it, or nothing (`strchr(_, '"')`).
unfoldable pub split_quote : List ℕ → Option (List ℕ × List ℕ)
split_quote [] = none
split_quote (c ∷ cs) =
    if c == 34
    then some ([], cs)
    else elim (split_quote cs) [ none ↦ none | some found ↦ some (c ∷ found.0, found.1) ]

-- LLOS_Cmd_ParamCopyText. `text` is the memory that the caller gives.
unfoldable pub param_copy_text :
    Option Context → Option (List ℕ) → ℕ → Err × Option Context × Option (List ℕ)
param_copy_text none text copy_len = (err_null, none, text)
param_copy_text (some ctx) none copy_len = (err_null, some ctx, none)
param_copy_text (some ctx) (some text) copy_len =
    let bytes = trim ctx.buffer in
    let trimmed = record ctx { buffer = bytes } in
    if copy_len == 0 then (err_null, some ctx, some text) else elim (split_quote (text_of bytes)) [
      | none ↦ (err_failed, some trimmed, some (set text 0 0))
      | some start ↦ elim (split_quote start.1) [
        | none ↦ (err_failed, some trimmed, some (set text 0 0))
        | some end ↦
            let text_len = min (length end.0) copy_len in
            let consumed = length start.0 + 1 + length end.0 + 1 in
            (
              err_success,
              some (record { buffer = store_text end.1 bytes; len = ctx.len - consumed }),
              some (set (overwrite (take text_len end.0) text) text_len 0),
            )
      ]
    ]
