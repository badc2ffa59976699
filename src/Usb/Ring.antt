-- ===== src/Usb/Ring.antt =====
-- src/usb.c: what the two-part writes and reads at the ring's wrap move.
use open_gbflash_firmware.Common.{
  ℕ, ◌+◌, ◌-◌, ◌%◌, ◌≤◌, ◌<◌, ◌≡◌, ap, arith, ltb, leb, if◌then◌else◌, Array, from, copy_bytes,
  Bool, true, false, Bool-cases, inl, inr,
}
use open_gbflash_firmware.Proto.Copying.{copy_bytes-cell}
use open_gbflash_firmware.Usb.Copying.{usb_copy-eq-copy_bytes}
use open_gbflash_firmware.Usb.Receive.{Receiver, rx_buf_size, ring_write}

-- How far cell `j` lies behind cell `at` in the ring.
abbrev pub offset : ℕ → ℕ → ℕ
offset at j = (j + rx_buf_size - at) % rx_buf_size

write_once :
    (n at j : ℕ) (buf packet : Array)
    → at < rx_buf_size
    → n ≤ rx_buf_size - at
    → j < rx_buf_size
    → copy_bytes n buf at packet j ≡ (if ltb (offset at j) n then packet (offset at j) else buf j)
write_once n at j buf packet ha hn hj =
    let e : leb at j ≡ true → packet (j - at) ≡ packet (offset at j) =
      λ le. ap packet (ground arith) in
    ground (arith, copy_bytes-cell n buf at packet j, e)

write_twice :
    (n at j : ℕ) (buf packet : Array)
    → at < rx_buf_size
    → rx_buf_size - at < n
    → n ≤ rx_buf_size
    → j < rx_buf_size
    → let f = rx_buf_size - at in
      copy_bytes (n - f) (copy_bytes f buf at packet) 0 (from packet f) j
      ≡ (if ltb (offset at j) n then packet (offset at j) else buf j)
write_twice n at j buf packet ha lo hn hj =
    let f = rx_buf_size - at in
    let e : leb at j ≡ true → packet (j - at) ≡ packet (offset at j) =
      λ le. ap packet (ground arith) in
    let g : ltb j at ≡ true → packet (f + (j - 0)) ≡ packet (offset at j) =
      λ lt. ap packet (ground arith) in
    ground (
      arith,
      copy_bytes-cell (n - f) (copy_bytes f buf at packet) 0 (from packet f) j,
      copy_bytes-cell f buf at packet j,
      e,
      g,
    )

-- The two-part write, cell by cell.
pub ring_write-buf :
    (x y : Bool) (r : Receiver) (n : ℕ) (packet : Array) (j : ℕ)
    → n ≤ rx_buf_size
    → j < rx_buf_size
    → let at = r.head % rx_buf_size in
      (ring_write x y r n packet).buf j
      ≡ (if ltb (offset at j) n then packet (offset at j) else r.buf j)
unfolding ring_write
ring_write-buf x y r n packet j h lt =
    let at = r.head % rx_buf_size in
    let room = rx_buf_size - at in
    elim (Bool-cases (ltb room n)) [
      | inl e ↦
          let f : ltb n room ≡ false = ground arith in
          rw (f, e, usb_copy-eq-copy_bytes x room r.buf at packet)
            (rw
              (usb_copy-eq-copy_bytes y (n - room) (copy_bytes room r.buf at packet) 0
                (from packet room))
              (write_twice n at j r.buf packet (omega arith) (ground arith) h lt))
      | inr e ↦
          let f : (if ltb n room then n else room) ≡ n = ground arith in
          let g : ltb n n ≡ false = ground arith in
          rw (f, g, usb_copy-eq-copy_bytes x n r.buf at packet)
            (write_once n at j r.buf packet (omega arith) (ground arith) lt)
    ]
