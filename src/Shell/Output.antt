-- ===== src/Shell/Output.antt =====
-- What the commands of LLOS/kernel/llos.c print (LLOS_Cmd_IDN, LLOS_Cmd_Result*), as the characters that
-- `ll_cmd_printf` gets, and LLOS_Cmd_RST. How a float is printed is a parameter.
use llos.Base.{
  ℕ, zero, suc, ◌+◌, ◌-◌, ◌/◌, ◌%◌, ◌^◌, Bool, true, false, Option, List, [], ◌∷◌, ◌++◌, ltb,
  if◌then◌else◌,
}
use llos.Types.{Err, err_success}
use llos.Boot.{System, HookCalls, reset_system}
use llos.Shell.{Shell, text_or_empty}

-- The end of a line.
abbrev pub new_line : List ℕ
new_line = 13 ∷ 10 ∷ []

-- `%u`: the decimal digits, of which a 32-bit number has at most ten.
unfoldable pub decimal : ℕ → ℕ → List ℕ
decimal zero n = []
decimal (suc fuel) n =
    let last = (48 + n % 10) ∷ [] in if ltb n 10 then last else decimal fuel (n / 10) ++ last

-- `%d` of a 32-bit word.
unfoldable pub signed_decimal : ℕ → List ℕ
signed_decimal w = if ltb w (2 ^ 31) then decimal 10 w else 45 ∷ decimal 10 (2 ^ 32 - w)

-- LLOS_Cmd_IDN: the code and the line.
unfoldable pub cmd_idn : Shell → Err × List ℕ
cmd_idn s = (err_success, s.vid ++ 44 ∷ (s.pid ++ 44 ∷ (s.version ++ 44 ∷ (s.sn ++ new_line))))

-- LLOS_Cmd_RST.
unfoldable pub cmd_rst : {A : Type 0} → HookCalls A → System A → Err × System A
cmd_rst calls s = (err_success, reset_system calls s)

-- LLOS_Cmd_ResultBool and the others.
abbrev pub result_bool : Bool → List ℕ
result_bool true = 116 ∷ 114 ∷ 117 ∷ 101 ∷ new_line
result_bool false = 102 ∷ 97 ∷ 108 ∷ 115 ∷ 101 ∷ new_line

unfoldable pub result_float : {F : Type 0} → (F → List ℕ) → F → List ℕ
result_float print val = print val ++ new_line

unfoldable pub result_int32 : ℕ → List ℕ
result_int32 w = signed_decimal w ++ new_line

unfoldable pub result_uint32 : ℕ → List ℕ
result_uint32 n = decimal 10 n ++ new_line

unfoldable pub result_text : Option (List ℕ) → List ℕ
result_text val = text_or_empty val ++ new_line
