-- ===== src/Usb/Pump/Ring.antt =====
-- src/usb.c: `tx_pump` on the staging buffer.
use open_gbflash_firmware.Common.{
  ℕ, ◌+◌, ◌-◌, ◌≤◌, ◌<◌, ◌≡◌, refl, sym, ◌∙◌, ap, ap₂, arith, ltb, if◌then◌else◌, u8, u16, inl,
  from, true, false, ◌++◌,
}
use mathlib.Core.List.{append_assoc}
use open_gbflash_firmware.Usb.Queue.{to_list}
use open_gbflash_firmware.Usb.Transmit.{Transmitter, Align, ep2_tx_off, tx_direct_ready, pump_ring}
use open_gbflash_firmware.Usb.Complete.{packet}
use open_gbflash_firmware.Usb.Owed.{
  left, ring_bytes, region_bytes, owed, IsWhole, IsSound, window_same, to_list-split,
}
use open_gbflash_firmware.Usb.Pump.Up.{IsPumped, IsUp, owed_single, queued}

-- One packet of the staging buffer.
ring_step :
    (s t : Transmitter) (n : ℕ)
    → t.armed ≡ true
    → t.pipe_armed ≡ false
    → packet t ≡ to_list n (from s.buf s.tail)
    → ring_bytes t ≡ to_list (s.head - s.tail - n) (from s.buf (s.tail + n))
    → region_bytes t 0 (left t) ≡ region_bytes s 0 (left s)
    → n ≤ s.head - s.tail
    → owed t ≡ queued s
ring_step s t n up np pk rg reg h =
    owed_single t up np
    ∙ ap₂ ◌++◌ pk (ap₂ ◌++◌ rg reg)
    ∙ sym (
        append_assoc (to_list n (from s.buf s.tail))
          (to_list (s.head - s.tail - n) (from s.buf (s.tail + n))) (region_bytes s 0 (left s)))
    ∙ ap (λ l. l ++ region_bytes s 0 (left s))
        (sym (to_list-split (s.head - s.tail) n (s.head - s.tail - n) s.tail s.buf (omega arith)))

pub pump_ring-IsPumped :
    (al : Align) (s : Transmitter)
    → IsSound s
    → IsWhole s
    → s.pipe_armed ≡ false
    → s.tail < s.head
    → IsPumped s (pump_ring al s (s.head - s.tail))
pump_ring-IsPumped al s v w np h =
    let k : ℕ = s.head - s.tail in
    let n : ℕ = if ltb s.pkt_in k then s.pkt_in else k in
    let pk = v.pkt in
    let hn : n ≤ 64 = ground (arith, pk) in
    let h0 : 0 < n = ground (arith, pk, h) in
    let hk : n ≤ k = ground (arith, pk) in
    let off = ep2_tx_off s in
    let b8 : u8 n ≡ n = omega arith in
    let b16 : u16 (s.tail + n) ≡ s.tail + n = omega (arith, v.head_le, v.tail_le) in
    unfold pump_ring tx_direct_ready in
    record {
      sound = record {
        pkt = v.pkt;
        head_le = v.head_le;
        tail_le = omega (arith, b16, hk, h);
        pos_le = v.pos_le;
        avail_lt = v.avail_lt;
        ready = unfold tx_direct_ready in v.ready;
        shown = refl;
        pipe = inl np;
      };
      whole = elim w [
        | IsWhole.packets e ↦ IsWhole.packets e
        | IsWhole.region e ↦ IsWhole.region e
      ];
      sends =
          ring_step s (pump_ring al s k) n refl np
            (ap (λ i. to_list i (from (pump_ring al s k).ep2_buf off)) b8
              ∙ window_same (al false off s.tail) n off s.ep2_buf (from s.buf s.tail))
            (ap₂ (λ i j. to_list i (from s.buf j)) (omega (arith, b16)) b16) refl hk;
      next = IsUp.packet_up refl (omega (arith, b8, h0));
    }
