-- ===== src/Usb/Owed.antt =====
-- src/usb.c: what the transmit side still owes the wire, and when its state is sound.
use open_gbflash_firmware.Common.{
  ℕ, ◌+◌, ◌-◌, ◌*◌, ◌/◌, ◌%◌, ◌^◌, ◌≤◌, ◌<◌, ◌≡◌, ◌∙◌, ap, arith, if◌then◌else◌, ◌⊎◌, inl, inr,
  Array, from, Bool, true, false, List, [], ◌++◌,
}
use open_gbflash_firmware.Proto.Copying.{copy_bytes-cell}
use open_gbflash_firmware.Usb.Copy.{usb_copy}
use open_gbflash_firmware.Usb.Copying.{usb_copy-eq-copy_bytes}
use open_gbflash_firmware.Usb.Queue.{to_list, to_list-cong, to_list-add}
use open_gbflash_firmware.Usb.Transmit.{Transmitter, tx_buf_size, ep2_tx_off, tx_direct_ready}
use open_gbflash_firmware.Usb.Complete.{packet, accepted}

-- Published and not yet copied into a window.
abbrev pub left : Transmitter → ℕ
left s = s.dir_avail - s.dir_pos

abbrev pub ring_bytes : Transmitter → List ℕ
ring_bytes s = to_list (s.head - s.tail) (from s.buf s.tail)

abbrev pub region_bytes : Transmitter → ℕ → ℕ → List ℕ
region_bytes s i n = to_list n (from s.dir_base (s.dir_pos + i))

-- With both windows up, whole packets of the region go before the staging buffer.
abbrev pub fulls : Transmitter → ℕ
fulls s = if s.pipe_armed then left s / 64 * 64 else 0

-- The packets that are up.
abbrev pub staged : Transmitter → List ℕ
staged s =
    if s.armed then (if s.pipe_armed then packet s ++ packet (accepted s) else packet s) else []

-- Every byte that was queued or published and that the host has not had, in the order of sending.
abbrev pub owed : Transmitter → List ℕ
owed s =
    staged s
    ++ (region_bytes s 0 (fulls s) ++ (ring_bytes s ++ region_bytes s (fulls s) (left s - fulls s)))

-- Both windows are up with a full packet each, and the prediction names the one that goes next.
pub record IsPiped (s : Transmitter) : Type 0 where
  pub up : s.armed ≡ true
  pub two : s.dbuf ≡ true
  pub full : s.t_len ≡ 64
  pub valid : s.tog_valid ≡ true
  pub pred : s.tog_pred ≡ ep2_tx_off s

-- What is published is whole packets, or the whole region.
pub data IsWhole (s : Transmitter) : Type 0 where
  packets : left s % 64 ≡ 0 → IsWhole s
  region : s.dir_avail ≡ s.dir_total → IsWhole s

-- The indices within their bounds, packets of 64 bytes (BL_USB_EP2_PKT_CDC), no window up unless the
-- endpoint acknowledges.
pub record IsSound (s : Transmitter) : Type 0 where
  pub pkt : s.pkt_in ≡ 64
  pub head_le : s.head ≤ tx_buf_size
  pub tail_le : s.tail ≤ s.head
  pub pos_le : s.dir_pos ≤ s.dir_avail
  pub avail_lt : s.dir_avail < 2 ^ 16
  pub ready : tx_direct_ready s ≡ left s
  pub shown : s.acking ≡ s.armed
  pub pipe : (s.pipe_armed ≡ false) ⊎ IsPiped s

-- A window just written holds the source's bytes.
pub window_same :
    (a : Bool) (n off : ℕ) (dst src : Array)
    → to_list n (from (usb_copy a n dst off src) off) ≡ to_list n src
window_same a n off dst src = rw (usb_copy-eq-copy_bytes a n dst off src) (
    to_list-cong n _ _ (λ i lt.
      let e : off + i - off ≡ i = omega arith in
      copy_bytes-cell n dst off src (off + i) ∙ grind (arith, lt, e)))

-- Any other window keeps its bytes.
pub window_other :
    (a : Bool) (n off k w : ℕ) (dst src : Array)
    → (w + k ≤ off) ⊎ (off + n ≤ w)
    → to_list k (from (usb_copy a n dst off src) w) ≡ to_list k (from dst w)
window_other a n off k w dst src h = rw (usb_copy-eq-copy_bytes a n dst off src) (
    to_list-cong k _ _ (λ i lt.
      copy_bytes-cell n dst off src (w + i)
      ∙ elim h [ inl e ↦ ground arith | inr e ↦ ground arith ]))

-- A stretch of an array in two parts.
pub to_list-split :
    (n a b i : ℕ) (p : Array)
    → n ≡ a + b
    → to_list n (from p i) ≡ to_list a (from p i) ++ to_list b (from p (i + a))
to_list-split n a b i p e = rw e (
    to_list-add a b (from p i)
    ∙ ap (λ l. to_list a (from p i) ++ l)
        (to_list-cong b (from (from p i) a) (from p (i + a)) (λ j lt. ap p (omega arith))))
