-- ===== src/Fifo/Tests.antt =====
-- The FIFO at inputs that can be followed in the source, and the theorems at them.
use llos.Base.{ℕ, ◌≡◌, ◌↔◌, refl, true, none, some, List, [], ◌∷◌, arith}
use llos.Types.{err_success, err_null, err_para}
use llos.Fifo.{
  Fifo, init, clear, used_size, available_size, put, input_loop, input, output_loop, output,
}
use llos.Fifo.Queue
use llos.Fifo.Queue.{Call, write, read, reset, Reply}
use llos.Fifo.Ring.{IsValid, contents}
use llos.Fifo.Init.{IsGoodSize, init-accepts, init-IsValid}
use llos.Fifo.Calls.{run, run-Queue}

-- 8, then 9, where the counters are about to wrap and the bytes go round the end of the buffer.
abbrev wrapping : Fifo
wrapping = record {
  p_head = 0xffff_ffff;
  p_end = 1;
  size = 4;
  buffer = 9 ∷ 1 ∷ 2 ∷ 8 ∷ [];
  ready = true;
}

abbrev storage : List ℕ
storage = 7 ∷ 7 ∷ 7 ∷ 7 ∷ 7 ∷ []

abbrev script : List Call
script = write (1 ∷ 2 ∷ 3 ∷ []) ∷ read 1 ∷ read 9 ∷ reset ∷ read 1 ∷ []

wrapping-IsValid : IsValid wrapping
wrapping-IsValid = record {
  log = 2;
  two_pow = refl;
  small = omega arith;
  storage = omega arith;
  head_fits = omega arith;
  end_fits = omega arith;
  held = omega arith;
  is_ready = refl;
}

contents-wrapping : contents wrapping ≡ 8 ∷ 9 ∷ []
contents-wrapping = refl

init_codes :
    ((init none (some storage) 4).0 ≡ err_null)
    × ((init (some wrapping) none 4).0 ≡ err_null)
    × ((init (some wrapping) (some storage) 6).0 ≡ err_para)
    × ((init (some wrapping) (some storage) 4).0 ≡ err_success)
unfolding init
init_codes = (refl, refl, refl, refl)

run-wrapping :
    run (some wrapping) script
    ≡ record { count = 2; bytes = [] }
      ∷ record { count = 1; bytes = 8 ∷ [] }
      ∷ record { count = 3; bytes = 9 ∷ 1 ∷ 2 ∷ [] }
      ∷ record { count = 0; bytes = [] }
      ∷ record { count = 0; bytes = [] }
      ∷ []
unfolding run put input_loop input output_loop output clear used_size available_size
run-wrapping = refl

init-accepts_example : ((init (some wrapping) (some storage) 4).0 ≡ err_success) ↔ IsGoodSize 4
init-accepts_example = init-accepts wrapping storage 4 (omega arith)

init-IsValid_example :
    (g : Fifo) × (init (some wrapping) (some storage) 4 ≡ (err_success, some g))
    × IsValid g
    × (contents g ≡ [])
    × (g.size ≡ 4)
init-IsValid_example =
    init-IsValid wrapping storage 4 (omega arith) (2, omega arith, refl) (omega arith)

run-Queue_example : run (some wrapping) script ≡ Queue.run 4 (8 ∷ 9 ∷ []) script
run-Queue_example = run-Queue script wrapping-IsValid
