-- ===== src/Fifo/Calls.antt =====
-- The calls of `LLOS_FIFO_Input`, `LLOS_FIFO_Output` and `LLOS_FIFO_Clear` on a valid FIFO, and
-- any sequence of them, against the queue.
use mathlib.Core.Path.{ap₂}
use mathlib.Core.List.{append_assoc}
use native.Mathlib.Nat.{add-zero}
use llos.Base.{
  ℕ, zero, suc, ◌+◌, ◌-◌, ◌≤◌, ◌<◌, min, ◌≡◌, refl, sym, ap, ◌∙◌, List, [], ◌∷◌, ◌++◌, Option, none,
  some, arith, length, set, take, drop, replicate, length-set, take-append-drop, take-set, drop-set,
  take-take-append, length-replicate, length-fill, fill,
}
use llos.Fifo.{
  Fifo, front, advance, input_loop, output_loop, ll_min, input, output, clear, available_size,
  used_size,
}
use llos.Fifo.Queue
use llos.Fifo.Queue.{Call, write, read, reset, Reply, granted}
use llos.Fifo.Ring.{IsValid, used, contents, length-contents}
use llos.Fifo.Refine.{HasTaken, input_loop-HasTaken, advance-HasGot}

-- What the loop of `LLOS_FIFO_Output` leaves: the destination, and the FIFO.
record HasRead (f : Fifo) (left index : ℕ) (dst : List ℕ) (out : List ℕ × Fifo) : Type 0 where
  valid : IsValid out.1
  same_size : out.1.size ≡ f.size
  copied : out.0 ≡ take index dst ++ (take left (contents f) ++ drop (index + left) dst)
  holds : contents out.1 ≡ drop left (contents f)

-- One element written behind a prefix that is done.
splice :
    (index left : ℕ) (dst q : List ℕ) (byte : ℕ)
    → index < length dst
    → take (index + 1) (set dst index byte)
        ++ (take left q ++ drop (index + 1 + left) (set dst index byte))
      ≡ take index dst ++ (take (suc left) (byte ∷ q) ++ drop (index + suc left) dst)
splice index left dst q byte h =
    let e : index + suc left ≡ index + 1 + left = omega arith in
    rw (take-set index dst byte h, drop-set index left dst byte, append_assoc, e) refl

output_loop-HasRead :
    (left index : ℕ) (dst : List ℕ) {f : Fifo}
    → IsValid f
    → left ≤ used f
    → index + left ≤ length dst
    → HasRead f left index dst (output_loop left index dst f)
unfolding output_loop
output_loop-HasRead zero index dst {f} v enough long = record {
  valid = v;
  same_size = refl;
  copied = rw add-zero (sym (take-append-drop index dst));
  holds = refl;
}
output_loop-HasRead (suc left) index dst {f} v enough long =
    let one = advance-HasGot v (omega arith) in
    let dst' : List ℕ = set dst index (front f) in
    let rest =
      output_loop-HasRead left (index + 1) dst' one.valid (omega (arith, one.one_less))
        (omega (arith, length-set dst index (front f))) in
    record {
      valid = rest.valid;
      same_size = rest.same_size;
      copied =
          rest.copied
          ∙ splice index left dst (contents (advance f)) (front f) (omega arith)
          ∙ ap (λ q. take index dst ++ (take (suc left) q ++ drop (index + suc left) dst))
              (sym one.holds);
      holds = rest.holds ∙ ap (drop (suc left)) (sym one.holds);
    }

input_loop_none : (n index : ℕ) (bytes : List ℕ) (f : Fifo) → n ≡ 0 → input_loop n index bytes f ≡ f
unfolding input_loop
input_loop_none zero index bytes f e = refl
input_loop_none (suc n) index bytes f e = absurd (omega arith)

output_loop_none :
    (n index : ℕ) (dst : List ℕ) (f : Fifo) → n ≡ 0 → output_loop n index dst f ≡ (dst, f)
unfolding output_loop
output_loop_none zero index dst f e = refl
output_loop_none (suc n) index dst f e = absurd (omega arith)

ll_min-eq-min : (a b : ℕ) → ll_min a b ≡ min a b
ll_min-eq-min a b = ground arith

available_size-eq : {f : Fifo} → IsValid f → available_size (some f) ≡ f.size - used f
unfolding available_size used_size
available_size-eq {f} v = ground (arith, v)

used_size-eq : {f : Fifo} → IsValid f → used_size (some f) ≡ used f
unfolding used_size
used_size-eq {f} v = ground (arith, v)

-- On a valid FIFO the used size is the number of bytes that it holds, and used and available size
-- make up its size.
pub used_size-add-available_size :
    {f : Fifo}
    → IsValid f
    → (used_size (some f) + available_size (some f) ≡ f.size)
      × (used_size (some f) ≡ length (contents f))
used_size-add-available_size {f} v =
    omega (arith, used_size-eq v, available_size-eq v, length-contents f, v.held)

abbrev read_reply : ℕ × Option (List ℕ) × Option Fifo → Reply × Option Fifo
read_reply (n, none, f) = (record { count = n; bytes = [] }, f)
read_reply (n, some dst, f) = (record { count = n; bytes = take n dst }, f)

-- A client's call. What `LLOS_FIFO_Output` reads is the prefix of the destination that it counts.
unfoldable pub call : Option Fifo → Call → Reply × Option Fifo
call f (write bytes) =
    let (n, f') = input f (some bytes) (length bytes) in (record { count = n; bytes = [] }, f')
call f (read len) = read_reply (output f (some (replicate len 0)) len)
call f reset = (record { count = 0; bytes = [] }, clear f)

module _ {f : Fifo} (v : IsValid f) where
  -- On a valid FIFO and at least `len` bytes, `LLOS_FIFO_Input` takes as many of the `len` bytes
  -- as fit, returns their number, appends them in order to the contents and leaves a valid FIFO
  -- of the same size.
  pub input-Meets :
      (bytes : List ℕ) (len : ℕ)
      → len ≤ length bytes
      → let n = min len (f.size - length (contents f)) in
        (g : Fifo) × (input (some f) (some bytes) len ≡ (n, some g))
        × IsValid g
        × (g.size ≡ f.size)
        × (contents g ≡ contents f ++ take n bytes)
  unfolding input
  input-Meets bytes len h = (input_loop n 0 bytes f, returns, did.valid, did.same_size, did.holds)
    where
      n : ℕ
      n = min len (f.size - length (contents f))

      count : ll_min len (available_size (some f)) ≡ n
      count = omega (
        arith,
        ll_min-eq-min len (available_size (some f)),
        available_size-eq v,
        length-contents f,
      )

      returns : input (some f) (some bytes) len ≡ (n, some (input_loop n 0 bytes f))
      returns = ground (arith, v, count, input_loop_none n 0 bytes f)

      did : HasTaken f (take n bytes) (input_loop n 0 bytes f)
      did = input_loop-HasTaken n 0 bytes v (omega (arith, length-contents f, v.held)) (omega arith)

  -- On a valid FIFO and a destination of at least `len` bytes, `LLOS_FIFO_Output` copies as many
  -- of the oldest bytes as asked for and held to the front of the destination, returns their
  -- number, changes no other byte there, and drops them; the FIFO stays valid and of the same
  -- size.
  pub output-Meets :
      (dst : List ℕ) (len : ℕ)
      → len ≤ length dst
      → let n = min len (length (contents f)) in
        (g : Fifo) × (output (some f) (some dst) len
          ≡ (n, some (take n (contents f) ++ drop n dst), some g))
        × IsValid g
        × (g.size ≡ f.size)
        × (contents g ≡ drop n (contents f))
  unfolding output
  output-Meets dst len h =
      ((output_loop n 0 dst f).1, returns ∙ copied, did.valid, did.same_size, did.holds)
    where
      n : ℕ
      n = min len (length (contents f))

      count : ll_min len (used_size (some f)) ≡ n
      count =
          omega (arith, ll_min-eq-min len (used_size (some f)), used_size-eq v, length-contents f)

      did : HasRead f n 0 dst (output_loop n 0 dst f)
      did = output_loop-HasRead n 0 dst v (omega (arith, length-contents f)) (omega arith)

      returns :
          output (some f) (some dst) len
          ≡ (n, some (output_loop n 0 dst f).0, some (output_loop n 0 dst f).1)
      returns = ground (arith, v, count, output_loop_none n 0 dst f)

      copied :
          ◌≡◌ {A = ℕ × Option (List ℕ) × Option Fifo}
            (n, some (output_loop n 0 dst f).0, some (output_loop n 0 dst f).1)
            (n, some (take n (contents f) ++ drop n dst), some (output_loop n 0 dst f).1)
      copied =
          ap (λ d. (n, some d, some (output_loop n 0 dst f).1))
            (did.copied ∙ ap (λ k. take n (contents f) ++ drop k dst) (omega arith))

  clear-Meets :
      (g : Fifo) × (clear (some f) ≡ some g) × IsValid g × (g.size ≡ f.size) × (contents g ≡ [])
  unfolding clear
  clear-Meets = (
    record f { p_head = 0; p_end = 0; buffer = fill f.size 0 f.buffer },
    ground (arith, v),
    record {
      log = v.log;
      two_pow = v.two_pow;
      small = v.small;
      storage = omega (arith, v.storage, length-fill f.size 0 f.buffer);
      head_fits = omega arith;
      end_fits = omega arith;
      held = omega arith;
      is_ready = v.is_ready;
    },
    refl,
    refl,
  )

-- A call on a valid FIFO gives the queue's reply, and leaves a valid FIFO with the queue's contents.
pub call-Queue :
    {f : Fifo}
    → IsValid f
    → (c : Call)
    → let (reply, q) = Queue.step f.size (contents f) c in
      (g : Fifo) × (call (some f) c ≡ (reply, some g))
      × IsValid g
      × (g.size ≡ f.size)
      × (contents g ≡ q)
unfolding call Queue.step
call-Queue {f} v (write bytes) =
    let (g, returns, valid, same, holds) = input-Meets v bytes (length bytes) (omega arith) in
    (g, rw returns refl, valid, same, holds)
call-Queue {f} v (read len) =
    let room : len ≤ length (replicate len zero) = omega (arith, length-replicate len zero) in
    let (g, returns, valid, same, holds) = output-Meets v (replicate len 0) len room in
    let n : ℕ = min len (length (contents f)) in
    (
      g,
      ap read_reply returns
          ∙ ap {B = Reply × Option Fifo} (λ b. (record { count = n; bytes = b }, some g))
              (take-take-append n (contents f) (drop n (replicate len zero)) (omega arith)),
      valid,
      same,
      holds,
    )
call-Queue {f} v reset =
    let (g, returns, valid, same, holds) = clear-Meets v in (g, rw returns refl, valid, same, holds)

-- A sequence of calls, with what each returns.
unfoldable pub run : Option Fifo → List Call → List Reply
unfolding call
run f [] = []
run f (c ∷ cs) = let (r, f') = call f c in r ∷ run f' cs

-- No sequence of writes, reads and resets tells a valid FIFO from the bounded queue of its
-- contents; the 32-bit counters may wrap on the way.
pub run-Queue :
    (cs : List Call) {f : Fifo} → IsValid f → run (some f) cs ≡ Queue.run f.size (contents f) cs
unfolding run Queue.run
run-Queue [] v = refl
run-Queue (c ∷ cs) {f} v =
    let (g, returns, valid, same, holds) = call-Queue v c in
    ap (λ (r : Reply × Option Fifo). r.0 ∷ run r.1 cs) returns
    ∙ ap (λ rs. (Queue.step f.size (contents f) c).0 ∷ rs)
        (run-Queue cs valid ∙ ap₂ (λ s q. Queue.run s q cs) same holds)
