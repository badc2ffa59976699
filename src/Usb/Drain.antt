-- ===== src/Usb/Drain.antt =====
-- src/usb.c: `bl_usb_rx` takes bytes off the front of the queue.
use open_gbflash_firmware.Common.{
  ℕ, zero, suc, ◌+◌, ◌-◌, ◌%◌, ◌≤◌, ◌<◌, min, ◌≡◌, refl, sym, ◌∙◌, ap, ap₂, arith, ltb, leb, not,
  ◌==◌, if◌then◌else◌, ne→==, u16, Array, from, copy_bytes, Bool, true, false, Bool-cases, inl, inr,
  ◌++◌,
}
use open_gbflash_firmware.Proto.Copying.{copy_bytes-cell}
use open_gbflash_firmware.Usb.Copy.{usb_copy}
use open_gbflash_firmware.Usb.Copying.{usb_copy-eq-copy_bytes}
use open_gbflash_firmware.Usb.Receive.{
  Receiver, Taken, rx_buf_size, rx_used, rx_credit_update, usb_rx,
}
use open_gbflash_firmware.Usb.Queue.{to_list, to_list-cong, to_list-add, queue, IsValid}
use open_gbflash_firmware.Usb.Fifo.{rx_credit_update-IsValid}

-- How many bytes a call takes.
abbrev amount : Receiver → ℕ → ℕ
amount r max = if ltb max (rx_used r) then max else rx_used r

-- The two-part read.
read_out : Bool → Bool → Receiver → Array → ℕ → Array
read_out x y r out n =
    let at = r.tail % rx_buf_size in
    let room = rx_buf_size - at in
    let first = if ltb n room then n else room in
    let once = usb_copy x first out 0 (from r.buf at) in
    if ltb first n then usb_copy y (n - first) once first r.buf else once

read_once :
    (n at i : ℕ) (out buf : Array)
    → at < rx_buf_size
    → n ≤ rx_buf_size - at
    → i < n
    → copy_bytes n out 0 (from buf at) i ≡ buf ((at + i) % rx_buf_size)
read_once n at i out buf ha hn hi =
    let e : buf (at + (i - 0)) ≡ buf ((at + i) % rx_buf_size) = ap buf (omega arith) in
    ground (arith, copy_bytes-cell n out 0 (from buf at) i, e)

read_twice :
    (n at i : ℕ) (out buf : Array)
    → at < rx_buf_size
    → rx_buf_size - at < n
    → n ≤ rx_buf_size
    → i < n
    → let f = rx_buf_size - at in
      copy_bytes (n - f) (copy_bytes f out 0 (from buf at)) f buf i ≡ buf ((at + i) % rx_buf_size)
read_twice n at i out buf ha lo hn hi =
    let f = rx_buf_size - at in
    let e : ltb i f ≡ true → buf (at + (i - 0)) ≡ buf ((at + i) % rx_buf_size) =
      λ lt. ap buf (ground arith) in
    let g : leb f i ≡ true → buf (i - f) ≡ buf ((at + i) % rx_buf_size) =
      λ le. ap buf (ground arith) in
    ground (
      arith,
      copy_bytes-cell (n - f) (copy_bytes f out 0 (from buf at)) f buf i,
      copy_bytes-cell f out 0 (from buf at) i,
      e,
      g,
    )

read_out-cell :
    (x y : Bool) (r : Receiver) (out : Array) (n i : ℕ)
    → n ≤ rx_buf_size
    → i < n
    → read_out x y r out n i ≡ r.buf ((r.tail + i) % rx_buf_size)
unfolding read_out
read_out-cell x y r out n i h lt =
    let at = r.tail % rx_buf_size in
    let room = rx_buf_size - at in
    let e : r.buf ((at + i) % rx_buf_size) ≡ r.buf ((r.tail + i) % rx_buf_size) =
      ap r.buf (omega arith) in
    elim (Bool-cases (ltb room n)) [
      | inl b ↦
          let f : ltb n room ≡ false = ground arith in
          rw (f, b, usb_copy-eq-copy_bytes x room out 0 (from r.buf at))
            (rw
              (usb_copy-eq-copy_bytes y (n - room) (copy_bytes room out 0 (from r.buf at)) room
                r.buf)
              (read_twice n at i out r.buf (omega arith) (ground arith) h lt ∙ e))
      | inr b ↦
          let f : (if ltb n room then n else room) ≡ n = ground arith in
          let g : ltb n n ≡ false = ground arith in
          rw (f, g, usb_copy-eq-copy_bytes x n out 0 (from r.buf at))
            (read_once n at i out r.buf (omega arith) (ground arith) lt ∙ e)
    ]

advanced : Receiver → ℕ → Receiver
advanced r n = record r { tail = u16 (r.tail + n) }

advanced-IsValid :
    (r : Receiver) (n : ℕ)
    → IsValid r
    → n ≤ rx_used r
    → IsValid (advanced r n) × (rx_used (advanced r n) ≡ rx_used r - n)
unfolding advanced rx_used
advanced-IsValid r n v h = (
  record {
    head_small = v.head_small;
    tail_small = omega arith;
    fits = omega (arith, v);
    open_fits = λ o. let room = v.open_fits o in omega (arith, v);
  },
  omega (arith, v),
)

advanced-rest :
    (r : Receiver) (n i : ℕ)
    → (advanced r n).buf (((advanced r n).tail + i) % rx_buf_size)
      ≡ r.buf ((r.tail + (n + i)) % rx_buf_size)
unfolding advanced
advanced-rest r n i = ap r.buf (omega arith)

-- The bytes read out and those left are the queue.
read_out-queue :
    (x y : Bool) (r : Receiver) (out : Array) (n : ℕ)
    → IsValid r
    → n ≤ rx_used r
    → to_list n (read_out x y r out n) ++ queue (advanced r n) ≡ queue r
read_out-queue x y r out n v h =
    let cells = λ (i : ℕ). r.buf ((r.tail + i) % rx_buf_size) in
    let k = rx_used r - n in
    let e : rx_used r ≡ n + k = omega arith in
    let fits : n ≤ rx_buf_size = omega (arith, v.fits) in
    ap₂ ◌++◌
      (to_list-cong n (read_out x y r out n) cells (λ i lt. read_out-cell x y r out n i fits lt))
      (ap (λ m. to_list m (λ i. (advanced r n).buf (((advanced r n).tail + i) % rx_buf_size)))
          (advanced-IsValid r n v h).1
        ∙ to_list-cong k (λ i. (advanced r n).buf (((advanced r n).tail + i) % rx_buf_size))
            (from cells n) (λ i lt. advanced-rest r n i))
    ∙ sym (to_list-add n k cells)
    ∙ ap (λ m. to_list m cells) (sym e)

taken : Bool → Bool → Receiver → Array → ℕ → Taken
taken x y r out n =
    if not (n == 0)
    then record { ring = rx_credit_update (advanced r n); out = read_out x y r out n; count = n }
    else record { ring = rx_credit_update r; out = out; count = n }

usb_rx-taken :
    (x y : Bool) (r : Receiver) (out : Array) (max : ℕ)
    → usb_rx x y r out max ≡ taken x y r out (amount r max)
unfolding usb_rx taken read_out advanced
usb_rx-taken x y r out max = refl

taken-queue :
    (x y : Bool) (r : Receiver) (out : Array) (n : ℕ)
    → IsValid r
    → n ≤ rx_used r
    → let t = taken x y r out n in
      (t.count ≡ n) × (to_list t.count t.out ++ queue t.ring ≡ queue r) × IsValid t.ring
unfolding taken
taken-queue x y r out zero v h = let c = rx_credit_update-IsValid r v in (refl, c.1, c.0)
taken-queue x y r out (suc n) v h =
    let c = rx_credit_update-IsValid (advanced r (suc n)) (advanced-IsValid r (suc n) v h).0 in
    rw (ne→== (suc n) 0 (omega arith)) (
      refl,
      ap (λ q. to_list (suc n) (read_out x y r out (suc n)) ++ q) c.1
          ∙ read_out-queue x y r out (suc n) v h,
      c.0,
    )

-- `bl_usb_rx` hands over the oldest bytes, as many as asked for or as there are, in order, and
-- keeps the others queued.
pub usb_rx-queue :
    (x y : Bool) (r : Receiver) (out : Array) (max : ℕ)
    → IsValid r
    → let t = usb_rx x y r out max in
      (t.count ≡ min max (rx_used r))
      × (to_list t.count t.out ++ queue t.ring ≡ queue r)
      × IsValid t.ring
usb_rx-queue x y r out max v =
    let t = taken-queue x y r out (amount r max) v (ground arith) in
    let e : amount r max ≡ min max (rx_used r) = ground arith in
    rw (usb_rx-taken x y r out max) (t.0 ∙ e, t.1, t.2)
