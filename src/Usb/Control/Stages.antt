-- ===== src/Usb/Control/Stages.antt =====
-- src/usb.c: the IN and OUT stages of endpoint 0 and the reset of its state on a bus reset.
use Prim.Native.Nat.{bit_xor}
use open_gbflash_firmware.Common.{
  ℕ, zero, suc, ◌+◌, ◌-◌, ◌*◌, ◌/◌, ◌%◌, ◌^◌, ◌==◌, ltb, ◌&&◌, if◌then◌else◌, Array, from, update,
  Option, some, none, Bool, true, false,
}
use open_gbflash_firmware.Usb.Copy.{usb_copy}
use open_gbflash_firmware.Usb.Control.Descriptors.{
  line_coding_len, set_address, get_descriptor, set_line_coding, class_out, ep0_idle, status_in,
}
use open_gbflash_firmware.Usb.Control.Setup.{Control, new_session, ep0_len}

-- `(ep0_req_type & 0x60u) == 0u`
abbrev pub is_standard : Control → Bool
is_standard c = c.req_type / 2 ^ 5 % 4 == 0

-- The next packet of a descriptor, none where the pointer is null.
abbrev pub loaded : Bool → Control → Option Array → Control
loaded aligned c none = record c { t_len = 0 }
loaded aligned c (some source) = record c {
  t_len = ep0_len c.req_len;
  buf = usb_copy aligned (ep0_len c.req_len) c.buf 0 source;
  descr = some (from source (ep0_len c.req_len));
  req_len = c.req_len - ep0_len c.req_len;
}

abbrev pub next_packet : Bool → Control → Control
next_packet aligned c = record (loaded aligned c c.descr) { ctrl = bit_xor c.ctrl 0x40 }

unfoldable pub ep0_in : Bool → Control → Control
ep0_in aligned c =
    if is_standard c && c.req_code == get_descriptor
    then next_packet aligned c
    else if is_standard c && c.req_code == set_address
    then record c { dev_ad = c.dev_ad / 2 ^ 7 % 2 * 2 ^ 7 + c.req_len % 2 ^ 7; ctrl = ep0_idle }
    else record c { t_len = 0; ctrl = ep0_idle }

-- `for (i = 0; i < n; i++)`, `k` bytes to go: whether a byte changed, and the bytes.
pub record Coding : Type 0 where
  pub changed : Bool
  pub bytes : Array

unfoldable pub store_coding : ℕ → ℕ → Array → Coding → Coding
store_coding zero i buf l = l
store_coding (suc k) i buf l =
    store_coding k (i + 1) buf (
      if l.bytes i == buf i then l else record { changed = true; bytes = update l.bytes i (buf i) })

unfoldable pub ep0_out : ℕ → Control → Control
unfolding store_coding
ep0_out rx_len c =
    if c.req_type == class_out && c.req_code == set_line_coding
    then (let n = if ltb line_coding_len rx_len then line_coding_len else rx_len in
        let l = store_coding n 0 c.buf (record { changed = false; bytes = c.line_coding }) in
        record (if l.changed then new_session c else c) {
          line_coding = l.bytes;
          t_len = 0;
          ctrl = status_in;
        })
    else record c { t_len = 0; ctrl = ep0_idle }

-- The part of `usb_bus_reset` that is endpoint 0's. The line coding and DTR stay.
unfoldable pub ep0_bus_reset : Control → Control
ep0_bus_reset c = record (new_session c) {
  dev_ad = 0;
  ctrl = ep0_idle;
  cursor = 0;
  descr = none;
  req_len = 0;
  req_code = 0;
  req_type = 0;
  config = 0;
}
