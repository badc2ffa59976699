-- ===== src/Usb/Pump/Up.antt =====
-- src/usb.c: what `tx_pump` has to bring about.
use open_gbflash_firmware.Common.{ℕ, ◌-◌, ◌<◌, ◌≡◌, refl, arith, true, false, List, ◌++◌}
use open_gbflash_firmware.Usb.Transmit.{Transmitter}
use open_gbflash_firmware.Usb.Complete.{packet}
use open_gbflash_firmware.Usb.Owed.{left, ring_bytes, region_bytes, owed, IsWhole, IsSound}

-- Everything that waited in the staging buffer and in the region, in that order.
abbrev pub queued : Transmitter → List ℕ
queued s = ring_bytes s ++ region_bytes s 0 (left s)

-- What `t` has up after `s`: a packet, the terminator of a full one, or nothing for good.
pub data IsUp (s t : Transmitter) : Type 0 where
  packet_up : t.armed ≡ true → 0 < t.t_len → IsUp s t
  terminator : s.last_full ≡ true → t.armed ≡ true → t.t_len ≡ 0 → t.last_full ≡ false → IsUp s t
  nothing : t.armed ≡ false → t.head ≡ t.tail → left t ≡ 0 → IsUp s t

-- `t` is `s` with the next packet up, or parked with nothing left to send.
pub record IsPumped (s t : Transmitter) : Type 0 where
  pub sound : IsSound t
  pub whole : IsWhole t
  pub sends : owed t ≡ queued s
  pub next : IsUp s t

-- One packet up and only one.
pub owed_single :
    (t : Transmitter) → t.armed ≡ true → t.pipe_armed ≡ false → owed t ≡ packet t ++ queued t
owed_single t up np = let z : left t - 0 ≡ left t = omega arith in rw (up, np, z) refl
