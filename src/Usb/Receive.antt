-- ===== src/Usb/Receive.antt =====
-- src/usb.c: the receive ring between the bulk OUT handler and `bl_usb_rx`, and the receive credit.
-- Shipped switches: FW_RX_DBUF off, FW_USB_ISR_LEAN on. `acking` is the R_RES field of R8_UEP2_CTRL
-- (ACK or NAK), which `uep2_ctrl_rmw` sets; the register's toggles are not modelled.
use open_gbflash_firmware.Common.{
  ℕ, ◌+◌, ◌-◌, ◌%◌, ◌==◌, ltb, leb, not, if◌then◌else◌, u16, sub16, Array, from, Bool, true, false,
}
use open_gbflash_firmware.Usb.Copy.{usb_copy}

abbrev pub rx_buf_size : ℕ
rx_buf_size = 512

-- RX_CREDIT_BYTES and EP2_RX_WINDOW.
abbrev pub ep2_rx_window : ℕ
ep2_rx_window = 64

pub record Receiver : Type 0 where
  pub buf : Array
  pub head : ℕ
  pub tail : ℕ
  pub credit_dirty : Bool
  pub acking : Bool

unfoldable pub rx_used : Receiver → ℕ
rx_used r = sub16 r.head r.tail

unfoldable pub rx_free : Receiver → ℕ
unfolding rx_used
rx_free r = sub16 rx_buf_size (rx_used r)

-- Bulk OUT is open just while a whole window is free.
unfoldable pub rx_credit_update : Receiver → Receiver
unfolding rx_free
rx_credit_update r = record r { acking = leb ep2_rx_window (rx_free r) }

-- The ring write of `n` bytes, split at the wrap. The flags are the alignments of the two copies.
unfoldable pub ring_write : Bool → Bool → Receiver → ℕ → Array → Receiver
unfolding usb_copy
ring_write a b r n packet =
    let at = r.head % rx_buf_size in
    let room = rx_buf_size - at in
    let first = if ltb n room then n else room in
    let once = usb_copy a first r.buf at packet in
    let twice = if ltb first n then usb_copy b (n - first) once 0 (from packet first) else once in
    record r { buf = twice; head = u16 (r.head + n) }

-- `rx_deliver`: `packet` is the endpoint's window, `len` what R8_USB_RX_LEN says.
unfoldable pub rx_deliver : Bool → Bool → Receiver → ℕ → Array → Receiver
unfolding rx_free ring_write
rx_deliver a b r0 len packet =
    let r = record r0 { credit_dirty = true } in
    let space = rx_free r in
    let windowed = if ltb ep2_rx_window len then ep2_rx_window else len in
    let n = if ltb space windowed then space else windowed in
    if not (n == 0) then ring_write a b r n packet else r

-- The tail of `usb_pumps`.
unfoldable pub credit_pump : Receiver → Receiver
unfolding rx_credit_update
credit_pump r = if r.credit_dirty then rx_credit_update (record r { credit_dirty = false }) else r

-- `case TOK_OUT_EP2` of the service routine, then the pumps. `in_sequence` is RB_UIS_TOG_OK.
unfoldable pub service_out : Bool → Bool → Bool → Receiver → ℕ → Array → Receiver
unfolding rx_deliver credit_pump
service_out a b in_sequence r len packet =
    let closed = record r { acking = false } in
    credit_pump (if in_sequence then rx_deliver a b closed len packet else closed)

-- What `bl_usb_rx` leaves: the ring, the caller's buffer, and the count.
pub record Taken : Type 0 where
  pub ring : Receiver
  pub out : Array
  pub count : ℕ

unfoldable pub usb_rx : Bool → Bool → Receiver → Array → ℕ → Taken
unfolding rx_used usb_copy rx_credit_update
usb_rx a b r out max =
    let used = rx_used r in
    let n = if ltb max used then max else used in
    let at = r.tail % rx_buf_size in
    let room = rx_buf_size - at in
    let first = if ltb n room then n else room in
    let once = usb_copy a first out 0 (from r.buf at) in
    let twice = if ltb first n then usb_copy b (n - first) once first r.buf else once in
    let moved = record r { tail = u16 (r.tail + n) } in
    if not (n == 0)
    then record { ring = rx_credit_update moved; out = twice; count = n }
    else record { ring = rx_credit_update r; out = out; count = n }
