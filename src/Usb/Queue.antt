-- ===== src/Usb/Queue.antt =====
-- src/usb.c: the receive ring as a queue of bytes, and what a write appends to it.
use open_gbflash_firmware.Common.{
  ℕ, zero, suc, ◌+◌, ◌%◌, ◌^◌, ◌≤◌, ◌<◌, ◌≡◌, refl, ◌∙◌, ap, ap₂, arith, le→ltb, lt→ltb, u16, Array,
  from, Bool, true, false, List, [], ◌∷◌, ◌++◌,
}
use open_gbflash_firmware.Usb.Receive.{Receiver, rx_buf_size, ep2_rx_window, rx_used, ring_write}
use open_gbflash_firmware.Usb.Ring.{offset, ring_write-buf}

-- The first `n` cells of an array, in order.
abbrev pub to_list : ℕ → Array → List ℕ
to_list zero a = []
to_list (suc n) a = a 0 ∷ to_list n (from a 1)

-- The bytes in the ring, oldest first.
abbrev pub queue : Receiver → List ℕ
queue r = to_list (rx_used r) (λ i. r.buf ((r.tail + i) % rx_buf_size))

-- Free-running 16-bit indices no further apart than the ring is long; an open endpoint has room.
pub record IsValid (r : Receiver) : Type 0 where
  pub head_small : r.head < 2 ^ 16
  pub tail_small : r.tail < 2 ^ 16
  pub fits : rx_used r ≤ rx_buf_size
  pub open_fits : r.acking ≡ true → ep2_rx_window + rx_used r ≤ rx_buf_size

pub to_list-cong : (n : ℕ) (a b : Array) → ((i : ℕ) → i < n → a i ≡ b i) → to_list n a ≡ to_list n b
to_list-cong zero a b h = refl
to_list-cong (suc n) a b h =
    ap₂ ◌∷◌ (h 0 (omega arith))
      (to_list-cong n (from a 1) (from b 1) (λ i lt. h (1 + i) (omega arith)))

pub to_list-add : (m n : ℕ) (a : Array) → to_list (m + n) a ≡ to_list m a ++ to_list n (from a m)
to_list-add zero n a =
    let e : 0 + n ≡ n = omega arith in
    rw e (to_list-cong n a (from a 0) (λ i lt. ap a (omega arith)))
to_list-add (suc m) n a =
    let e : suc m + n ≡ suc (m + n) = omega arith in
    rw e (
      ap (λ l. a 0 ∷ l)
        (to_list-add m n (from a 1)
          ∙ ap (λ l. to_list m (from a 1) ++ l)
              (to_list-cong n (from (from a 1) m) (from a (suc m)) (λ i lt. ap a (omega arith)))))

used-ring_write :
    (x y : Bool) (r : Receiver) (n : ℕ) (packet : Array)
    → IsValid r
    → n + rx_used r ≤ rx_buf_size
    → rx_used (ring_write x y r n packet) ≡ rx_used r + n
unfolding rx_used ring_write
used-ring_write x y r n packet v h = omega (arith, v)

tail-ring_write :
    (x y : Bool) (r : Receiver) (n : ℕ) (packet : Array) → (ring_write x y r n packet).tail ≡ r.tail
unfolding ring_write
tail-ring_write x y r n packet = refl

head-ring_write :
    (x y : Bool) (r : Receiver) (n : ℕ) (packet : Array)
    → (ring_write x y r n packet).head ≡ u16 (r.head + n)
unfolding ring_write
head-ring_write x y r n packet = refl

acking-ring_write :
    (x y : Bool) (r : Receiver) (n : ℕ) (packet : Array)
    → (ring_write x y r n packet).acking ≡ r.acking
unfolding ring_write
acking-ring_write x y r n packet = refl

-- Where the ring's old and new bytes lie from the head.
offset-old :
    (r : Receiver) (n i : ℕ)
    → IsValid r
    → n + rx_used r ≤ rx_buf_size
    → i < rx_used r
    → n ≤ offset (r.head % rx_buf_size) ((r.tail + i) % rx_buf_size)
unfolding rx_used
offset-old r n i v h lt = omega (arith, v)

offset-new :
    (r : Receiver) (n i : ℕ)
    → IsValid r
    → n + rx_used r ≤ rx_buf_size
    → i < n
    → offset (r.head % rx_buf_size) ((r.tail + (rx_used r + i)) % rx_buf_size) ≡ i
unfolding rx_used
offset-new r n i v h lt = omega (arith, v)

-- Writing `n` bytes that fit appends them to the queue.
pub ring_write-queue :
    (x y : Bool) (r : Receiver) (n : ℕ) (packet : Array)
    → IsValid r
    → n + rx_used r ≤ rx_buf_size
    → queue (ring_write x y r n packet) ≡ queue r ++ to_list n packet
ring_write-queue x y r n packet v h =
    let w = ring_write x y r n packet in
    let cells = λ (i : ℕ). w.buf ((r.tail + i) % rx_buf_size) in
    ap₂ (λ (k : ℕ) (t : ℕ). to_list k (λ i. w.buf ((t + i) % rx_buf_size)))
      (used-ring_write x y r n packet v h) (tail-ring_write x y r n packet)
    ∙ to_list-add (rx_used r) n cells
    ∙ ap₂ ◌++◌
        (to_list-cong (rx_used r) cells (λ i. r.buf ((r.tail + i) % rx_buf_size))
          (λ i lt.
            let j = (r.tail + i) % rx_buf_size in
            let k = offset (r.head % rx_buf_size) j in
            ring_write-buf x y r n packet j (omega arith) (omega arith)
            ∙ rw (le→ltb k n (offset-old r n i v h lt)) refl))
        (to_list-cong n (from cells (rx_used r)) packet (λ i lt.
          let j = (r.tail + (rx_used r + i)) % rx_buf_size in
          ring_write-buf x y r n packet j (omega arith) (omega arith)
          ∙ rw (offset-new r n i v h lt) (rw (lt→ltb i n lt) refl)))

pub ring_write-IsValid :
    (x y : Bool) (r : Receiver) (n : ℕ) (packet : Array)
    → IsValid r
    → n + rx_used r ≤ rx_buf_size
    → r.acking ≡ false
    → IsValid (ring_write x y r n packet)
ring_write-IsValid x y r n packet v h shut =
    let u = used-ring_write x y r n packet v h in
    let a : (ring_write x y r n packet).acking ≡ r.acking = acking-ring_write x y r n packet in
    let d = head-ring_write x y r n packet in
    let t = tail-ring_write x y r n packet in
    record {
      head_small = omega (arith, d);
      tail_small = omega (arith, t, v);
      fits = omega (arith, u, h);
      open_fits = λ o. absurd (cc a);
    }
