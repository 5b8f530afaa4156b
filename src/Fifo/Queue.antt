-- ===== src/Fifo/Queue.antt =====
-- What a FIFO of capacity `cap` promises: a bounded queue of bytes, oldest first.
use llos.Base.{ℕ, ◌-◌, min, List, [], ◌∷◌, ◌++◌, length, take, drop}

-- The calls of a client, and what each returns: the count, and the bytes it reads.
pub data Call : Type 0 where
  write : List ℕ → Call
  read : ℕ → Call
  reset : Call

pub record Reply : Type 0 where
  pub count : ℕ
  pub bytes : List ℕ

-- How many bytes of a request are taken when `room` fit.
abbrev pub granted : ℕ → ℕ → ℕ
granted len room = min len room

unfoldable pub step : ℕ → List ℕ → Call → Reply × List ℕ
step cap q (write bytes) =
    let n = granted (length bytes) (cap - length q) in
    (record { count = n; bytes = [] }, q ++ take n bytes)
step cap q (read len) =
    let n = granted len (length q) in (record { count = n; bytes = take n q }, drop n q)
step cap q reset = (record { count = 0; bytes = [] }, [])

unfoldable pub run : ℕ → List ℕ → List Call → List Reply
unfolding step
run cap q [] = []
run cap q (c ∷ cs) = let (r, q') = step cap q c in r ∷ run cap q' cs
