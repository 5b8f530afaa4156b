-- ===== src/Fifo.antt =====
-- LLOS/component/llos_fifo.c: a byte FIFO over a buffer of the caller, whose size is a power of
-- two, with free-running 32-bit counters. A pointer that may be NULL is an option. The buffer is
-- kept in the structure; the log lines are left out.
pub mod Queue
pub mod Ring
pub mod Init
pub mod Refine
pub mod Calls
mod Tests
use llos.Base.{
  ℕ, zero, suc, ◌+◌, ◌-◌, ◌^◌, ◌%◌, bit_and, Bool, true, false, not, ◌||◌, Option, none, some, List,
  [], ◌∷◌, if◌then◌else◌, ltb, ◌==◌, ◌!=◌, get_or, set, fill, sub32, u32,
}
use llos.Types.{Err, err_success, err_null, err_para}

-- `llos_fifo_t`.
pub record Fifo : Type 0 where
  pub p_head : ℕ
  pub p_end : ℕ
  pub size : ℕ
  pub buffer : List ℕ
  pub ready : Bool

-- The checks of `LLOS_FIFO_Init` on the size.
abbrev pub bad_size : ℕ → Bool
bad_size size = (size == 0) || (bit_and size 3 != 0) || (bit_and size (sub32 size 1) != 0)

-- LLOS_FIFO_Init.
unfoldable pub init : Option Fifo → Option (List ℕ) → ℕ → Err × Option Fifo
init none buffer size = (err_null, none)
init (some f) none size = (if bad_size size then err_para else err_null, some f)
init (some f) (some buffer) size = if bad_size size then (err_para, some f) else (
  err_success,
  some (record { p_head = 0; p_end = 0; size = size; buffer = fill size 0 buffer; ready = true }),
)

-- LLOS_FIFO_Clear.
unfoldable pub clear : Option Fifo → Option Fifo
clear none = none
clear (some f) =
    if not f.ready
    then some f
    else some (record f { p_head = 0; p_end = 0; buffer = fill f.size 0 f.buffer })

-- LLOS_FIFO_Get_UsedSize.
unfoldable pub used_size : Option Fifo → ℕ
used_size none = 0xffff_ffff
used_size (some f) = if not f.ready then 0xffff_ffff else sub32 f.p_end f.p_head

-- LLOS_FIFO_Get_AvailableSize.
unfoldable pub available_size : Option Fifo → ℕ
available_size none = 0xffff_ffff
available_size (some f) =
    if not f.ready
    then 0xffff_ffff
    else let used = used_size (some f) in if ltb f.size used then 0 else sub32 f.size used

-- LL_MIN.
abbrev pub ll_min : ℕ → ℕ → ℕ
ll_min a b = if ltb a b then a else b

-- The body of the loop of `LLOS_FIFO_Input`.
unfoldable pub put : Fifo → ℕ → Fifo
put f byte = record f {
  buffer = set f.buffer (bit_and f.p_end (sub32 f.size 1)) byte;
  p_end = u32 (f.p_end + 1);
}

-- The loop of `LLOS_FIFO_Input` at `index`, with the rounds left.
unfoldable pub input_loop : ℕ → ℕ → List ℕ → Fifo → Fifo
input_loop zero index bytes f = f
input_loop (suc left) index bytes f =
    input_loop left (index + 1) bytes (put f (get_or bytes index 0))

-- LLOS_FIFO_Input: the bytes that fit are taken, and their number is returned.
unfoldable pub input : Option Fifo → Option (List ℕ) → ℕ → ℕ × Option Fifo
input none bytes len = (0, none)
input (some f) none len = (0, some f)
input (some f) (some bytes) len =
    if (len == 0) || not f.ready
    then (0, some f)
    else let write_len = ll_min len (available_size (some f)) in
      (write_len, some (input_loop write_len 0 bytes f))

-- The byte that the loop of `LLOS_FIFO_Output` reads, and the counter's step.
abbrev pub front : Fifo → ℕ
front f = get_or f.buffer (bit_and f.p_head (sub32 f.size 1)) 0

abbrev pub advance : Fifo → Fifo
advance f = record f { p_head = u32 (f.p_head + 1) }

-- The loop of `LLOS_FIFO_Output` at `index`, with the rounds left.
unfoldable pub output_loop : ℕ → ℕ → List ℕ → Fifo → List ℕ × Fifo
output_loop zero index bytes f = (bytes, f)
output_loop (suc left) index bytes f =
    output_loop left (index + 1) (set bytes index (front f)) (advance f)

-- LLOS_FIFO_Output: the number of bytes read, the destination, and the structure.
unfoldable pub output : Option Fifo → Option (List ℕ) → ℕ → ℕ × Option (List ℕ) × Option Fifo
output none bytes len = (0, bytes, none)
output (some f) none len = (0, none, some f)
output (some f) (some bytes) len =
    if (len == 0) || not f.ready
    then (0, some bytes, some f)
    else let read_len = ll_min len (used_size (some f)) in
      let (bytes', f') = output_loop read_len 0 bytes f in (read_len, some bytes', some f')
