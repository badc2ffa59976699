-- ===== src/Usb/Handing/Fill.antt =====
-- src/usb.c: the loop of `tx_queue`.
use open_gbflash_firmware.Common.{
  ℕ, zero, suc, ◌+◌, ◌-◌, ◌≤◌, ◌≡◌, refl, sym, ◌∙◌, ap, ap₂, arith, ltb, not, ◌==◌, ◌&&◌,
  if◌then◌else◌, u16, min, Array, from, copy_bytes, Bool, true, false, Bool-cases, inl, inr, ◌++◌,
  if_true, if_false,
}
use open_gbflash_firmware.Proto.Copying.{copy_bytes-add}
use open_gbflash_firmware.Usb.Copy.{usb_copy}
use open_gbflash_firmware.Usb.Copying.{usb_copy-eq-copy_bytes}
use open_gbflash_firmware.Usb.Queue.{to_list}
use open_gbflash_firmware.Usb.Transmit.{Transmitter, Align, tx_buf_size, tx_pump}
use open_gbflash_firmware.Usb.Produce.{tx_lock_chunk, fill_queue, tx_queue}
use open_gbflash_firmware.Usb.Owed.{ring_bytes, window_same, window_other, to_list-split}

-- The staging buffer after `k` more bytes.
abbrev pub filled : Transmitter → ℕ → Array → Transmitter
filled s k src = record s { buf = copy_bytes k s.buf s.head src; head = s.head + k }

filled-filled :
    (s : Transmitter) (a b : ℕ) (src : Array)
    → filled (filled s a src) b (from src a) ≡ filled s (a + b) src
filled-filled s a b src =
    ap₂ (λ (m : Array) (h : ℕ). record s { buf = m; head = h })
      (sym (copy_bytes-add a b s.buf s.head src)) (omega arith)

-- What one round of the loop takes.
abbrev chunk_of : ℕ → ℕ
chunk_of n = if ltb tx_lock_chunk n then tx_lock_chunk else n

abbrev pub wanted : Transmitter → ℕ → ℕ
wanted s n = if ltb (tx_buf_size - s.head) (chunk_of n) then tx_buf_size - s.head else chunk_of n

wanted-le : (s : Transmitter) (n : ℕ) → wanted s n ≤ min n (tx_buf_size - s.head)
wanted-le s n = ground arith

wanted_none : (s : Transmitter) (n : ℕ) → wanted s n ≡ 0 → min n (tx_buf_size - s.head) ≡ 0
wanted_none s n h = ground arith

abbrev pub joined : ℕ → ℕ × Transmitter → ℕ × Transmitter
joined w r = (w + r.0, r.1)

abbrev pub round : Align → Transmitter → ℕ → Array → Transmitter
round al s w src = record s {
  buf = usb_copy (al false s.head 0) w s.buf s.head src;
  head = u16 (s.head + w);
}

fill_queue-step :
    (fuel : ℕ) (al : Align) (s : Transmitter) (n : ℕ) (src : Array)
    → fill_queue (suc fuel) al s n src ≡ (
        if wanted s n == 0
        then (0, s)
        else joined (wanted s n) (
            fill_queue fuel al
              (round al s (wanted s n) src)
              (n - wanted s n)
              (from src (wanted s n))))
unfolding fill_queue
fill_queue-step fuel al s n src = refl

round-eq-filled :
    (al : Align) (s : Transmitter) (w : ℕ) (src : Array)
    → s.head + w ≤ tx_buf_size
    → round al s w src ≡ filled s w src
round-eq-filled al s w src h =
    ap₂ (λ (m : Array) (i : ℕ). record s { buf = m; head = i })
      (usb_copy-eq-copy_bytes (al false s.head 0) w s.buf s.head src) (omega arith)

filled_none :
    (s : Transmitter) (k : ℕ) (src : Array)
    → k ≡ 0
    → ◌≡◌ {A = ℕ × Transmitter} (0, s) (k, filled s k src)
filled_none s k src h =
    let z : s.head ≡ s.head + 0 = omega arith in
    let e : ◌≡◌ {A = Array} s.buf (copy_bytes 0 s.buf s.head src) = unfold copy_bytes in refl in
    ap₂ (λ (m : Array) (i : ℕ). (0, record s { buf = m; head = i })) e z
    ∙ ap (λ i. (i, filled s i src)) (sym h)

-- The loop takes what there is room for.
pub fill_queue-lem :
    (fuel : ℕ) (al : Align) (s : Transmitter) (n : ℕ) (src : Array)
    → s.head ≤ tx_buf_size
    → n ≤ fuel
    → let k = min n (tx_buf_size - s.head) in fill_queue fuel al s n src ≡ (k, filled s k src)
fill_queue-lem zero al s n src h f =
    let e : fill_queue zero al s n src ≡ (0, s) = unfold fill_queue in refl in
    e ∙ filled_none s (min n (tx_buf_size - s.head)) src (omega arith)
fill_queue-lem (suc fuel) al s n src h f =
    let k = min n (tx_buf_size - s.head) in
    let w = wanted s n in
    let wl = wanted-le s n in
    elim (Bool-cases (w == 0)) [
      | inl e ↦
          fill_queue-step fuel al s n src
          ∙ if_true _ _ _ e
          ∙ filled_none s k src (wanted_none s n (ground arith))
      | inr e ↦
          let t = filled s w src in
          let j = min (n - w) (tx_buf_size - t.head) in
          let sum : w + j ≡ k = omega (arith, wl) in
          fill_queue-step fuel al s n src
          ∙ if_false _ _ _ e
          ∙ ap (λ p. joined w (fill_queue fuel al p (n - w) (from src w)))
              (round-eq-filled al s w src (omega (arith, wl)))
          ∙ ap (joined w) (
              fill_queue-lem fuel al t (n - w) (from src w) (omega (arith, wl))
                (ground (arith, wl, e)))
          ∙ ap (λ p. (w + j, p)) (filled-filled s w j src)
          ∙ ap (λ i. (i, filled s i src)) sum
    ]

pub ring_bytes-filled :
    (s : Transmitter) (k : ℕ) (src : Array)
    → s.tail ≤ s.head
    → ring_bytes (filled s k src) ≡ ring_bytes s ++ to_list k src
ring_bytes-filled s k src h =
    let m = copy_bytes k s.buf s.head src in
    let u : usb_copy false k s.buf s.head src ≡ m =
      usb_copy-eq-copy_bytes false k s.buf s.head src in
    let at : s.tail + (s.head - s.tail) ≡ s.head = omega arith in
    to_list-split (s.head + k - s.tail) (s.head - s.tail) k s.tail m (omega arith)
    ∙ ap₂ ◌++◌
        (ap (λ b. to_list (s.head - s.tail) (from b s.tail)) (sym u)
          ∙ window_other false k s.head (s.head - s.tail) s.tail s.buf src (inl (omega arith)))
        (ap (λ i. to_list k (from m i)) at
          ∙ ap (λ b. to_list k (from b s.head)) (sym u)
          ∙ window_same false k s.head s.buf src)

pub pair_if :
    (b : Bool) (k : ℕ) (x y : Transmitter)
    → ◌≡◌ {A = ℕ × Transmitter} (if b then (k, x) else (k, y)) (k, if b then x else y)
pair_if true k x y = refl
pair_if false k x y = refl

pub tx_queue-filled :
    (al : Align) (s : Transmitter) (n k : ℕ) (src : Array) (p : Transmitter)
    → fill_queue n al s n src ≡ (k, p)
    → tx_queue al s n src ≡ (
        if not (k == 0) && not p.armed && not (p.head == p.tail) then (k, tx_pump al p) else (k, p))
tx_queue-filled al s n k src p e =
    unfold tx_queue in
    ap
      (λ (r : ℕ × Transmitter).
        if not (r.0 == 0) && not r.1.armed && not (r.1.head == r.1.tail)
        then (r.0, tx_pump al (r.1))
        else r)
      e
