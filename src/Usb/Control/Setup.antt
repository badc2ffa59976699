-- ===== src/Usb/Control/Setup.antt =====
-- src/usb.c: the SETUP stage of endpoint 0, with FW_USB_CDC on. The registers of the endpoint are
-- fields; `aligned` is the test of `usb_copy` on the two addresses.
use open_gbflash_firmware.Common.{
  ℕ, ◌+◌, ◌-◌, ◌*◌, ◌/◌, ◌%◌, ◌^◌, ◌==◌, ltb, leb, not, ◌&&◌, if◌then◌else◌, u8, u32, Array, from,
  update, of_list, Option, some, none, Bool,
}
use open_gbflash_firmware.Usb.Copy.{usb_copy}
use open_gbflash_firmware.Usb.Control.Descriptors.{
  desc_device, desc_config, vendor_tbl, ep0_pkt, vendor_tbl_last, line_coding_len, set_address,
  get_descriptor, get_config, set_config, get_interface, set_interface, serial_init,
  set_line_coding, get_line_coding, set_control_line_state, vendor_in, vendor_out, class_in,
  class_out, setup_arm, data_ready, stall,
}

-- `ep0_descr` is null or the bytes from it on; `sessions` is `session_id`.
pub record Control : Type 0 where
  pub buf : Array
  pub descr : Option Array
  pub req_len : ℕ
  pub req_code : ℕ
  pub req_type : ℕ
  pub config : ℕ
  pub cursor : ℕ
  pub line_coding : Array
  pub dtr : ℕ
  pub sessions : ℕ
  pub dev_ad : ℕ
  pub t_len : ℕ
  pub ctrl : ℕ

-- The state of endpoint 0 that `usb_session_flush` changes.
abbrev pub new_session : Control → Control
new_session c = record c { sessions = u32 (c.sessions + 1) }

abbrev pub ep0_len : ℕ → ℕ
ep0_len n = if ltb n ep0_pkt then n else ep0_pkt

-- The first packet from `source`, of which `n` bytes may go.
abbrev pub begin_read : Bool → Array → ℕ → Control → Control
begin_read aligned source n c =
    let len = if ltb n c.req_len then n else c.req_len in
    record c {
      req_len = len;
      buf = usb_copy aligned (ep0_len len) c.buf 0 source;
      descr = some (from source (ep0_len len));
    }

unfoldable pub ep0_vendor_in : Control → Control
ep0_vendor_in c =
    let i = c.cursor in
    record c {
      buf = update (update c.buf 0 (of_list vendor_tbl i)) 1 (of_list vendor_tbl (i + 1));
      cursor = if leb vendor_tbl_last i then vendor_tbl_last else u8 (i + 2);
    }

-- `none` where the source returns 1, to stall.
unfoldable pub ep0_class_in : Bool → Control → Option Control
ep0_class_in aligned c =
    if c.req_code == get_line_coding
    then some (begin_read aligned c.line_coding line_coding_len c)
    else none

unfoldable pub ep0_class_out : ℕ → Control → Option Control
ep0_class_out wvalue c =
    let dtr = wvalue % 2 in
    if c.req_code == set_line_coding
    then some c
    else if c.req_code == set_control_line_state
    then some (record (if not (dtr == 0) && c.dtr == 0 then new_session c else c) { dtr = dtr })
    else none

abbrev pub one_byte : ℕ → Control → Control
one_byte v c = record c {
  buf = update c.buf 0 v;
  req_len = if ltb 1 c.req_len then 1 else c.req_len;
}

unfoldable pub ep0_standard : Bool → ℕ → Control → Option Control
ep0_standard aligned wvalue c =
    if c.req_code == set_address
    then some (record c { req_len = u8 wvalue })
    else if c.req_code == get_descriptor
    then if wvalue / 2 ^ 8 == 1
      then some (begin_read aligned (of_list desc_device) (of_list desc_device 0) c)
      else if wvalue / 2 ^ 8 == 2
      then some (begin_read aligned (of_list desc_config) (of_list desc_config 2) c)
      else none
    else if c.req_code == get_config
    then some (one_byte c.config c)
    else if c.req_code == set_config
    then some (record c { config = u8 wvalue })
    else if c.req_code == get_interface
    then some (one_byte 0 c)
    else if c.req_code == set_interface
    then if u8 wvalue == 0 then some c else none
    else none

-- The request's bytes, taken out of the buffer.
abbrev pub decoded : Control → Control
decoded c = record c {
  req_len = c.buf 6 + c.buf 7 * 2 ^ 8;
  req_code = c.buf 1;
  req_type = c.buf 0;
  ctrl = setup_arm;
}

abbrev pub routed : Bool → Control → Option Control
routed aligned c =
    let wvalue = c.buf 2 + c.buf 3 * 2 ^ 8 in
    if c.req_type == vendor_in
    then some (ep0_vendor_in c)
    else if c.req_type == vendor_out
    then some (if c.req_code == serial_init then new_session c else c)
    else if c.req_type == class_in
    then ep0_class_in aligned c
    else if c.req_type == class_out
    then ep0_class_out wvalue c
    else ep0_standard aligned wvalue c

-- The stage after an accepted request: bit 7 of its type is the direction.
abbrev pub data_stage : Control → Control
data_stage c =
    let n = if c.req_type / 2 ^ 7 % 2 == 0 then 0 else ep0_len c.req_len in
    record c { req_len = c.req_len - n; t_len = n; ctrl = data_ready }

abbrev pub answered : Control → Option Control → Control
answered c none = record c { ctrl = stall }
answered c (some d) = data_stage d

-- `rx_len` is R8_USB_RX_LEN.
unfoldable pub ep0_setup : Bool → ℕ → Control → Control
unfolding ep0_vendor_in ep0_class_in ep0_class_out ep0_standard
ep0_setup aligned rx_len c =
    if rx_len == 8
    then answered (decoded c) (routed aligned (decoded c))
    else record c { ctrl = stall }
