-- ===== src/Fifo/Refine.antt =====
-- A valid FIFO behaves as the bounded queue of the bytes that it holds.
use mathlib.Core.Path.{ap₂}
use mathlib.Core.List.{append_assoc, append-nil}
use llos.Base.{
  ℕ, zero, suc, ◌+◌, ◌%◌, ◌^◌, ◌≤◌, ◌<◌, ◌≡◌, refl, sym, ap, ◌∙◌, bit_and, List, [], ◌∷◌, ◌++◌,
  arith, length, get_or, take, drop, sub32, length-set, take-drop,
}
use llos.Fifo.{Fifo, put, front, advance, input_loop}
use llos.Fifo.Ring.{IsValid, used, contents, window_congr, window-set, mask-eq-mod, wrap-index}

-- One byte put into a FIFO with room.
record HasPut (f : Fifo) (byte : ℕ) (g : Fifo) : Type 0 where
  valid : IsValid g
  same_size : g.size ≡ f.size
  one_more : used g ≡ used f + 1
  holds : contents g ≡ contents f ++ (byte ∷ [])

put-HasPut : {f : Fifo} (byte : ℕ) → (v : IsValid f) → used f < f.size → HasPut f byte (put f byte)
unfolding put
put-HasPut {f} byte v room = record {
  valid = record {
    log = v.log;
    two_pow = v.two_pow;
    small = v.small;
    storage = omega (arith, v.storage, length-set f.buffer (bit_and f.p_end (sub32 f.size 1)) byte);
    head_fits = v.head_fits;
    end_fits = omega arith;
    held = omega (arith, grown);
    is_ready = v.is_ready;
  };
  same_size = refl;
  one_more = grown;
  holds = rw counted (window-set f.buffer f.size byte (used f) f.p_head _ v.storage room index);
}
  where
    grown : sub32 ((f.p_end + 1) % 2 ^ 32) f.p_head ≡ used f + 1
    grown = omega (arith, v.head_fits, v.end_fits, v.small)

    counted : sub32 ((f.p_end + 1) % 2 ^ 32) f.p_head ≡ suc (used f)
    counted = omega (arith, grown)

    reached : f.p_end ≡ (f.p_head + used f) % 2 ^ 32
    reached = omega (arith, v.head_fits, v.end_fits)

    index : bit_and f.p_end (sub32 f.size 1) ≡ (f.p_head + used f) % f.size
    index = mask-eq-mod f.p_end v ∙ ap (λ p. p % f.size) reached ∙ wrap-index (f.p_head + used f) v

-- What a loop of `LLOS_FIFO_Input` does.
pub record HasTaken (f : Fifo) (bytes : List ℕ) (g : Fifo) : Type 0 where
  pub valid : IsValid g
  pub same_size : g.size ≡ f.size
  pub holds : contents g ≡ contents f ++ bytes

pub input_loop-HasTaken :
    (left index : ℕ) (bytes : List ℕ) {f : Fifo}
    → IsValid f
    → used f + left ≤ f.size
    → index + left ≤ length bytes
    → HasTaken f (take left (drop index bytes)) (input_loop left index bytes f)
unfolding input_loop
input_loop-HasTaken zero index bytes {f} v room long = record {
  valid = v;
  same_size = refl;
  holds = sym (append-nil (contents f));
}
input_loop-HasTaken (suc left) index bytes {f} v room long =
    let byte : ℕ = get_or bytes index 0 in
    let one = put-HasPut byte v (omega arith) in
    let rest =
      input_loop-HasTaken left (index + 1) bytes one.valid
        (omega (arith, one.one_more, one.same_size)) (omega arith) in
    record {
      valid = rest.valid;
      same_size = rest.same_size ∙ one.same_size;
      holds =
          rest.holds
          ∙ ap (λ q. q ++ take left (drop (index + 1) bytes)) one.holds
          ∙ append_assoc (contents f) (byte ∷ []) (take left (drop (index + 1) bytes))
          ∙ ap (λ t. contents f ++ t) (sym (take-drop left index bytes 0 (omega arith)));
    }

-- One byte read from a FIFO that holds some.
pub record HasGot (f : Fifo) : Type 0 where
  pub valid : IsValid (advance f)
  pub one_less : used f ≡ suc (used (advance f))
  pub holds : contents f ≡ front f ∷ contents (advance f)

pub advance-HasGot : {f : Fifo} → (v : IsValid f) → 0 < used f → HasGot f
advance-HasGot {f} v some_held = record {
  valid = record {
    log = v.log;
    two_pow = v.two_pow;
    small = v.small;
    storage = v.storage;
    head_fits = omega arith;
    end_fits = v.end_fits;
    held = omega (arith, shrunk, v.held);
    is_ready = v.is_ready;
  };
  one_less = shrunk;
  holds = rw shrunk (
      ap₂ (λ i r. get_or f.buffer i 0 ∷ r) (sym (mask-eq-mod f.p_head v))
        (window_congr f.buffer f.size (used (advance f)) (f.p_head + 1) ((f.p_head + 1) % 2 ^ 32)
          (sym (wrap-index (f.p_head + 1) v))));
}
  where
    shrunk : used f ≡ suc (used (advance f))
    shrunk = omega (arith, v.head_fits, v.end_fits)
