-- ===== src/Usb/Produce.antt =====
-- src/usb.c: what the firmware hands to the transmit side: `bl_usb_tx_direct_begin`, `_publish`,
-- `_sent` and `_end`, `tx_queue`, and the flush at a session's start.
use open_gbflash_firmware.Common.{
  ℕ, zero, suc, ◌+◌, ◌-◌, ◌==◌, ltb, not, ◌&&◌, if◌then◌else◌, u16, Array, from, true, false,
}
use open_gbflash_firmware.Usb.Copy.{usb_copy}
use open_gbflash_firmware.Usb.Transmit.{
  Transmitter, Align, tx_buf_size, tx_direct_reset, tx_direct_ready, tx_pump,
}

unfoldable pub tx_direct_begin : Transmitter → Array → ℕ → Transmitter
tx_direct_begin s base total = record s {
  dir_nominated = true;
  dir_base = base;
  dir_avail = 0;
  dir_pos = 0;
  dir_total = total;
  pipe_armed = false;
  pipe_engaged = false;
  tog_valid = false;
  pipe_outstanding = 0;
  dir_sent = 0;
  stage_head = 0;
  stage_tail = 0;
}

unfoldable pub tx_direct_publish : Align → Transmitter → ℕ → Transmitter
unfolding tx_direct_ready tx_pump
tx_direct_publish al s avail =
    let p = record s { dir_avail = avail } in
    if not p.armed && not (tx_direct_ready p == 0) then tx_pump al p else p

abbrev pub tx_direct_sent : Transmitter → ℕ
tx_direct_sent s = s.dir_sent

abbrev pub tx_direct_end : Transmitter → Transmitter
tx_direct_end s = tx_direct_reset s

abbrev pub tx_lock_chunk : ℕ
tx_lock_chunk = 64

-- `while (done < n)`, with `n` bytes at `src` to go: what was taken, and the state. Every round but
-- the last takes at least one byte.
unfoldable pub fill_queue : ℕ → Align → Transmitter → ℕ → Array → ℕ × Transmitter
unfolding usb_copy
fill_queue zero al s n src = (0, s)
fill_queue (suc fuel) al s n src =
    let chunk = if ltb tx_lock_chunk n then tx_lock_chunk else n in
    let room = tx_buf_size - s.head in
    let want = if ltb room chunk then room else chunk in
    let p = record s {
      buf = usb_copy (al false s.head 0) want s.buf s.head src;
      head = u16 (s.head + want);
    } in
    let rest = fill_queue fuel al p (n - want) (from src want) in
    if want == 0 then (0, s) else (want + rest.0, rest.1)

unfoldable pub tx_queue : Align → Transmitter → ℕ → Array → ℕ × Transmitter
unfolding fill_queue tx_pump
tx_queue al s n src =
    let r = fill_queue n al s n src in
    let p = r.1 in
    if not (r.0 == 0) && not p.armed && not (p.head == p.tail) then (r.0, tx_pump al p) else r

-- The transmit half of `usb_session_flush`.
unfoldable pub tx_session_flush : Transmitter → Transmitter
unfolding tx_direct_reset
tx_session_flush s =
    let r = tx_direct_reset (record s { head = 0; tail = 0 }) in
    record r { t_len = 0; acking = false; armed = false }

-- The transmit half of `usb_bus_reset`: the store to R8_UEP2_CTRL also clears the toggle.
unfoldable pub tx_bus_reset : Transmitter → Transmitter
unfolding tx_direct_reset
tx_bus_reset s =
    tx_direct_reset
      (record s { t_len = 0; acking = false; tog = false; head = 0; tail = 0; armed = false })
