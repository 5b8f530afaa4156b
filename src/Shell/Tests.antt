-- ===== src/Shell/Tests.antt =====
-- Lines of commands.
use llos.Base.{
  ℕ, ◌^◌, ◌-◌, if◌then◌else◌, ◌+◌, ◌≡◌, ◌⊎◌, arith, true, false, refl, none, some, List, [], ◌∷◌,
  ◌++◌, ◌*◌, ◌/◌, length,
}
use llos.Types.{Err, err_success, err_failed}
use llos.Shell.{
  Command, Context, Shell, cmd_input, find_command, fill_buffer, same_nocase, active, compare,
  text_of,
}
use llos.Shell.Params.{
  milli, one, kilo, mega, Floats, param_int32, param_bool, param_copy_text, strtol, spaces, digits,
  convert_unit, unit_loop, skip_blanks, trim, ends_param, bool_word,
}
use llos.Shell.Dispatch.{NoMatch, Found, IsGiven, input-dispatch}
use llos.Shell.Lines.{
  line_end, line_next, word_on, word_off, digit_one, read_bools, read_bools-line,
}
use llos.Shell.Output.{decimal, signed_decimal}
use llos.Shell.Decimals.{IsExact, param_int32-decimal}
use llos.Shell.Texts.{IsCopied, param_copy_text-quoted}

-- `LED?` and `LED`, as they are sorted, and the end of the list.
abbrev two_commands : List Command
two_commands =
    record { pattern = 76 ∷ 69 ∷ 68 ∷ 63 ∷ []; callback = some 1 }
    ∷ record { pattern = 76 ∷ 69 ∷ 68 ∷ []; callback = some 2 }
    ∷ record { pattern = []; callback = none }
    ∷ []

abbrev small_shell : Shell
small_shell = record {
  buf_size = 4;
  buffer = some (0 ∷ 9 ∷ 9 ∷ 9 ∷ []);
  len = 0;
  cmd_list = two_commands;
  vid = [];
  pid = [];
  version = [];
  sn = [];
}

-- A command that counts its calls and changes nothing else.
abbrev counting : ℕ → Context → ℕ → Err × Context × ℕ
counting f ctx n = (0, ctx, n + f)

-- `led on,off`.
abbrev led_line : List ℕ
led_line = 108 ∷ 101 ∷ 100 ∷ 32 ∷ 111 ∷ 110 ∷ 44 ∷ 111 ∷ 102 ∷ 102 ∷ []

led_call :
    cmd_input counting (some led_line) 10 small_shell 0
    ≡ (true, record small_shell { buffer = some (32 ∷ 111 ∷ 110 ∷ 0 ∷ []); len = 3 }, 2)
unfolding cmd_input find_command fill_buffer same_nocase
led_call = refl

input-dispatch_example :
    (NoMatch led_line 10 (active two_commands)
      × (cmd_input counting (some led_line) 10 small_shell 0 ≡ (false, small_shell, 0)))
    ⊎ ((found : Command × ℕ) × (ctx : Context) × Found led_line 10 two_commands found
        × IsGiven 4 led_line 10 (length found.0.pattern) ctx
        × (cmd_input counting (some led_line) 10 small_shell 0
            ≡ (true, record small_shell { buffer = some ctx.buffer; len = ctx.len }, 0 + found.1)))
unfolding active compare
input-dispatch_example =
    input-dispatch counting led_line 10 small_shell 0 (0 ∷ 9 ∷ 9 ∷ 9 ∷ []) refl refl (omega arith)
      (((λ e. ground (arith, e)), tt), (tt, tt))

-- ` on,oFF ,1`.
abbrev three_words : List ℕ
three_words = 32 ∷ 111 ∷ 110 ∷ 44 ∷ 111 ∷ 70 ∷ 70 ∷ 32 ∷ 44 ∷ 49 ∷ []

abbrev three_context : Context
three_context = record { buffer = three_words ++ 0 ∷ 7 ∷ []; len = 10 }

read_bools-line_example : read_bools 3 three_context ≡ some (true ∷ false ∷ true ∷ [])
read_bools-line_example =
    read_bools-line (true ∷ false ∷ true ∷ []) three_words three_context
      (line_next 32 [] refl tt (word_on refl refl) (
        line_next 44 [] refl tt (word_off refl refl refl)
          (line_next 32 (44 ∷ []) refl (refl, tt) digit_one line_end)))
      refl

-- ` "ab",7` for memory of four bytes.
abbrev quoted_context : Context
quoted_context = record { buffer = 32 ∷ 34 ∷ 97 ∷ 98 ∷ 34 ∷ 44 ∷ 55 ∷ 0 ∷ []; len = 7 }

param_copy_text-quoted_example :
    (after : Context) × (out : List ℕ) × (param_copy_text
        (some quoted_context)
        (some (1 ∷ 2 ∷ 3 ∷ 4 ∷ []))
        1
      ≡ (err_success, some after, some out))
    × IsCopied 1 (97 ∷ 98 ∷ []) (1 ∷ 2 ∷ 3 ∷ 4 ∷ []) out
    × (text_of after.buffer ≡ 44 ∷ 55 ∷ [])
unfolding skip_blanks
param_copy_text-quoted_example =
    param_copy_text-quoted quoted_context (1 ∷ 2 ∷ 3 ∷ 4 ∷ []) 1 [] (97 ∷ 98 ∷ []) (44 ∷ 55 ∷ [])
      (omega arith) (omega arith) tt (refl, (refl, tt)) refl

-- Numbers with no fraction, in thousandths.
abbrev thousandths : Floats ℕ ℕ
thousandths = record {
  literal = λ m. elim m [ milli ↦ 1 | one ↦ 1000 | kilo ↦ 1000_000 | mega ↦ 1000_000_000 ];
  times = λ a b. a * b / 1000;
  of_long = λ negative n. 1000 * n;
  of_float = λ x. x;
  to_float = λ x. x;
  fits_int32 = λ x. true;
  to_int32 = λ x. x / 1000;
  strtof = λ text. (0, 0, false);
}

-- `2 kHz` is 2000.
int32_with_unit :
    (param_int32 thousandths
      (some (record { buffer = 50 ∷ 32 ∷ 107 ∷ 72 ∷ 122 ∷ 0 ∷ []; len = 5 }))
      (some 0)).2
    ≡ some 2000
unfolding param_int32 strtol spaces digits convert_unit unit_loop skip_blanks trim ends_param
int32_with_unit = refl

-- `1,FALSE`: the F of the next parameter is taken for farad, and the number is refused.
int32_before_false :
    (param_int32 thousandths
      (some (record { buffer = 49 ∷ 44 ∷ 70 ∷ 65 ∷ 76 ∷ 83 ∷ 69 ∷ 0 ∷ []; len = 7 }))
      (some 0)).0
    ≡ err_failed
unfolding param_int32 strtol spaces digits convert_unit unit_loop skip_blanks trim ends_param
int32_before_false = refl

-- A tab ends a word, but Trim does not skip it: the second of two words is refused.
bool_after_tab :
    (param_bool (some (record { buffer = 9 ∷ 111 ∷ 110 ∷ 0 ∷ []; len = 3 })) (some false)).0
    ≡ err_failed
unfolding param_bool skip_blanks trim ends_param bool_word same_nocase
bool_after_tab = refl

-- Doubles that are 32-bit words, with no fraction.
abbrev words : Floats ℕ ℕ
words = record {
  literal = λ m. 1;
  times = λ a b. a;
  of_long = λ negative n. if negative then 2 ^ 32 - n else n;
  of_float = λ x. x;
  to_float = λ x. x;
  fits_int32 = λ x. true;
  to_int32 = λ x. x;
  strtof = λ text. (0, 0, false);
}

words-IsExact : IsExact words
words-IsExact = record {
  fits = λ n h. refl;
  same = λ n h. refl;
  fits_minus = λ n h. refl;
  same_minus = λ n low high. refl;
}

-- ` -12`.
abbrev minus_twelve : Context
minus_twelve = record { buffer = 32 ∷ 45 ∷ 49 ∷ 50 ∷ 0 ∷ []; len = 4 }

param_int32-decimal_example :
    (out : Context) × (param_int32 words (some minus_twelve) (some 0)
      ≡ (err_success, some out, some (2 ^ 32 - 12)))
    × (text_of out.buffer ≡ [])
unfolding skip_blanks signed_decimal decimal
param_int32-decimal_example =
    param_int32-decimal words minus_twelve 0 (2 ^ 32 - 12) words-IsExact (omega arith) refl
