-- ===== src/Usb/Transmit.antt =====
-- src/usb.c: the transmit side. `tx_buf` is a linear staging buffer, `tx_dir_base` a region that the
-- producer publishes, and EP2 has one or two windows. The state holds the statics, the window memory
-- `ep2_buf`, and of the endpoint's registers R8_UEP2_T_LEN (`t_len`), whether T_RES is ACK (`acking`)
-- and RB_UEP_T_TOG (`tog`). A copy takes the test on its two addresses from `al`, by the source (the
-- region or not) and the two offsets.
use open_gbflash_firmware.Common.{
  ℕ, ◌+◌, ◌*◌, ◌%◌, ◌==◌, ltb, leb, not, ◌&&◌, ◌||◌, if◌then◌else◌, flag, u8, u16, sub16, Array,
  update, from, Bool, true, false,
}
use open_gbflash_firmware.Usb.Copy.{usb_copy}

abbrev pub tx_buf_size : ℕ
tx_buf_size = 1024

abbrev pub tx_stage_slots : ℕ
tx_stage_slots = 4

abbrev pub Align : Type 0
Align = Bool → ℕ → ℕ → Bool

pub record Transmitter : Type 0 where
  pub buf : Array
  pub head : ℕ
  pub tail : ℕ
  pub armed : Bool
  pub last_full : Bool
  pub dir_nominated : Bool
  pub dir_base : Array
  pub dir_avail : ℕ
  pub dir_pos : ℕ
  pub dir_total : ℕ
  pub tog_pred : ℕ
  pub tog_valid : Bool
  pub pipe_armed : Bool
  pub pipe_engaged : Bool
  pub pipe_outstanding : ℕ
  pub stage_dir : Array
  pub stage_len : Array
  pub stage_head : ℕ
  pub stage_tail : ℕ
  pub dir_sent : ℕ
  pub ep2_buf : Array
  pub t_len : ℕ
  pub acking : Bool
  pub tog : Bool
  pub dbuf : Bool
  pub pkt_in : ℕ

-- EP2_SINGLE_TX_OFF, EP2_DBUF_TX0_OFF and EP2_DBUF_TX1_OFF.
abbrev pub single_tx_off : ℕ
single_tx_off = 0x40

abbrev pub dbuf_tx0_off : ℕ
dbuf_tx0_off = 0x80

abbrev pub dbuf_tx1_off : ℕ
dbuf_tx1_off = 0xC0

-- `(off == EP2_DBUF_TX1_OFF) ? EP2_DBUF_TX0_OFF : EP2_DBUF_TX1_OFF`
abbrev pub swap_off : ℕ → ℕ
swap_off off = if off == dbuf_tx1_off then dbuf_tx0_off else dbuf_tx1_off

abbrev pub ep2_tx_off : Transmitter → ℕ
ep2_tx_off s = if not s.dbuf then single_tx_off else if s.tog then dbuf_tx1_off else dbuf_tx0_off

abbrev pub ep2_tx_other : Transmitter → ℕ
ep2_tx_other s = if not s.dbuf then single_tx_off else swap_off (ep2_tx_off s)

abbrev pub tx_stage_push : Transmitter → ℕ → Bool → Transmitter
tx_stage_push s len is_direct = record s {
  stage_len = update s.stage_len s.stage_head len;
  stage_dir = update s.stage_dir s.stage_head (flag is_direct);
  stage_head = (s.stage_head + 1) % tx_stage_slots;
}

-- The length that `tx_stage_pop` returns, and the state that it leaves.
abbrev pub tx_stage_pop : Transmitter → ℕ × Transmitter
tx_stage_pop s = if s.stage_head == s.stage_tail then (0, s) else (
  if s.stage_dir s.stage_tail == 0 then 0 else s.stage_len s.stage_tail,
  record s { stage_tail = (s.stage_tail + 1) % tx_stage_slots },
)

unfoldable pub tx_direct_reset : Transmitter → Transmitter
tx_direct_reset s = record s {
  pipe_armed = false;
  pipe_engaged = false;
  tog_valid = false;
  pipe_outstanding = 0;
  dir_sent = 0;
  stage_head = 0;
  stage_tail = 0;
  dir_nominated = false;
  dir_avail = 0;
  dir_pos = 0;
  dir_total = 0;
}

unfoldable pub tx_direct_ready : Transmitter → ℕ
tx_direct_ready s = if s.dir_nominated then sub16 s.dir_avail s.dir_pos else 0

-- `R8_UEP2_T_LEN = n` with T_RES set to ACK: a packet of `n` bytes is up.
abbrev pub arm : Transmitter → ℕ → Transmitter
arm s n = record s { t_len = u8 n; acking = true; armed = true; last_full = n == s.pkt_in }

-- The arm of `tx_pump` that sends from the staging buffer.
unfoldable pub pump_ring : Align → Transmitter → ℕ → Transmitter
unfolding usb_copy
pump_ring al s n0 =
    let n = if ltb s.pkt_in n0 then s.pkt_in else n0 in
    let off = ep2_tx_off s in
    let copied = record s {
      ep2_buf = usb_copy (al false off s.tail) n s.ep2_buf off (from s.buf s.tail);
      tail = u16 (s.tail + n);
    } in
    arm (tx_stage_push copied n false) n

-- Both windows at once, a full packet each.
unfoldable pub prime : Align → Transmitter → ℕ → Transmitter
unfolding usb_copy
prime al s m =
    let first = ep2_tx_off s in
    let second = swap_off first in
    let pos = s.dir_pos in
    let once = usb_copy (al true first pos) m s.ep2_buf first (from s.dir_base pos) in
    let both = usb_copy (al true second (pos + m)) m once second (from s.dir_base (pos + m)) in
    record s {
      tog_pred = first;
      tog_valid = true;
      ep2_buf = both;
      t_len = u8 m;
      dir_pos = u16 (pos + u16 (2 * m));
      pipe_outstanding = u8 (s.pipe_outstanding + 2);
      acking = true;
      armed = true;
      pipe_armed = true;
      pipe_engaged = true;
      last_full = true;
    }

-- One packet of the region.
unfoldable pub send_region : Align → Transmitter → ℕ → Transmitter
unfolding usb_copy
send_region al s m =
    let off = ep2_tx_off s in
    let pos = s.dir_pos in
    let copied = record s {
      ep2_buf = usb_copy (al true off pos) m s.ep2_buf off (from s.dir_base pos);
      dir_pos = u16 (pos + m);
    } in
    arm (tx_stage_push copied m true) m

-- The arm of `tx_pump` that sends from the region: a short packet only if it completes the region.
unfoldable pub pump_region : Align → Transmitter → Transmitter
unfolding tx_direct_ready prime send_region
pump_region al s =
    let ready = tx_direct_ready s in
    let m = if ltb s.pkt_in ready then s.pkt_in else ready in
    if ltb m s.pkt_in && not (u16 (s.dir_pos + m) == s.dir_total)
    then s
    else if not s.pipe_armed && s.dbuf && m == s.pkt_in && leb (u16 (2 * s.pkt_in)) ready
    then prime al s m
    else send_region al s m

-- Nothing to send: the CDC terminator after a full packet, else the buffer is rewound and the
-- endpoint parked.
unfoldable pub pump_idle : Transmitter → Transmitter
pump_idle s =
    if s.last_full
    then record s { t_len = 0; last_full = false; acking = true; armed = true }
    else record s { head = 0; tail = 0; t_len = 0; acking = false; armed = false }

unfoldable pub tx_pump : Align → Transmitter → Transmitter
unfolding tx_direct_ready pump_region pump_ring pump_idle
tx_pump al s =
    let n = sub16 s.head s.tail in
    if not (n == 0)
    then pump_ring al s n
    else if not (tx_direct_ready s == 0)
    then pump_region al s
    else pump_idle s

-- The transmit half of `usb_pumps`.
unfoldable pub tx_pumps : Align → Transmitter → Transmitter
unfolding tx_direct_ready tx_pump
tx_pumps al s =
    if not s.armed && (not (s.head == s.tail) || not (tx_direct_ready s == 0))
    then tx_pump al s
    else s
