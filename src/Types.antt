-- ===== src/Types.antt =====
-- The types and constants of LLOS/kernel/llos.h that all components share.
use llos.Base.{ℕ, ◌^◌}

-- `ll_err_t`, a `uint8_t`.
abbrev pub Err : Type 0
Err = ℕ

-- LL_ERR_SUCCESS and the other codes.
abbrev pub err_success : Err
err_success = 0

abbrev pub err_failed : Err
err_failed = 1

abbrev pub err_null : Err
err_null = 2

abbrev pub err_overflow : Err
err_overflow = 3

abbrev pub err_para : Err
err_para = 5

abbrev pub err_invalid : Err
err_invalid = 0xff

-- `LL_EVENT(n)` and `LL_EVENT_MSG`.
abbrev pub event : ℕ → ℕ
event n = 2 ^ n

abbrev pub event_msg : ℕ
event_msg = event 31
