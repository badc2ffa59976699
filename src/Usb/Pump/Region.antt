-- ===== src/Usb/Pump/Region.antt =====
-- src/usb.c: `tx_pump` on the direct region, a packet at a time.
use open_gbflash_firmware.Common.{
  ℕ, ◌+◌, ◌-◌, ◌%◌, ◌≤◌, ◌<◌, ◌≡◌, refl, sym, ◌∙◌, ap, ap₂, arith, u8, u16, ◌⊎◌, inl, inr, from,
  true, false, Bool-cases, ◌++◌,
}
use open_gbflash_firmware.Usb.Queue.{to_list}
use open_gbflash_firmware.Usb.Transmit.{
  Transmitter, Align, ep2_tx_off, tx_direct_ready, send_region,
}
use open_gbflash_firmware.Usb.Complete.{packet}
use open_gbflash_firmware.Usb.Owed.{
  left, region_bytes, owed, IsWhole, IsSound, window_same, to_list-split,
}
use open_gbflash_firmware.Usb.Pump.Up.{IsPumped, IsUp, owed_single, queued}

-- One packet of the region, with the staging buffer empty.
region_step :
    (s t : Transmitter) (m : ℕ)
    → t.armed ≡ true
    → t.pipe_armed ≡ false
    → s.head ≡ s.tail
    → t.head ≡ t.tail
    → packet t ≡ region_bytes s 0 m
    → region_bytes t 0 (left t) ≡ region_bytes s m (left s - m)
    → m ≤ left s
    → owed t ≡ queued s
region_step s t m up np he te pk reg h =
    let zs : s.head - s.tail ≡ 0 = omega arith in
    let zt : t.head - t.tail ≡ 0 = omega arith in
    let zp : s.dir_pos + 0 + m ≡ s.dir_pos + m = omega arith in
    owed_single t up np
    ∙ rw (zs, zt)
        (ap₂ ◌++◌ pk reg
          ∙ sym (
              to_list-split (left s) m (left s - m) (s.dir_pos + 0) s.dir_base (omega arith)
              ∙ ap (λ i. region_bytes s 0 m ++ to_list (left s - m) (from s.dir_base i)) zp))

-- What is left of whole packets is whole packets.
pub IsWhole-step :
    (s t : Transmitter) (m : ℕ)
    → IsWhole s
    → left t ≡ left s - m
    → (m % 64 ≡ 0) ⊎ (m ≡ left s)
    → t.dir_avail ≡ s.dir_avail
    → t.dir_total ≡ s.dir_total
    → IsWhole t
IsWhole-step s t m w l c a b = elim w [
  | IsWhole.packets e ↦ IsWhole.packets (elim c [ inl x ↦ omega arith | inr x ↦ omega arith ])
  | IsWhole.region e ↦ IsWhole.region (a ∙ e ∙ sym b)
]

-- The count of ready bytes stays the distance of the two indices.
pub ready_step :
    (s t : Transmitter) (m : ℕ)
    → IsSound s
    → m ≤ left s
    → t.dir_nominated ≡ s.dir_nominated
    → t.dir_avail ≡ s.dir_avail
    → t.dir_pos ≡ s.dir_pos + m
    → tx_direct_ready t ≡ left t
ready_step s t m v h en ea ep =
    let r = v.ready in
    let a = v.avail_lt in
    let q = v.pos_le in
    elim (Bool-cases s.dir_nominated) [
      | inl e ↦ unfold tx_direct_ready in rw (en, e) (omega (arith, ea, ep))
      | inr e ↦
          let z : tx_direct_ready s ≡ 0 = unfold tx_direct_ready in rw e refl in
          unfold tx_direct_ready in rw (en, e) (omega (arith, ea, ep, z))
    ]

pub send_region-IsPumped :
    (al : Align) (s : Transmitter) (m : ℕ)
    → IsSound s
    → IsWhole s
    → s.pipe_armed ≡ false
    → s.head ≡ s.tail
    → 0 < m
    → m ≤ left s
    → m ≤ 64
    → (m % 64 ≡ 0) ⊎ (m ≡ left s)
    → IsPumped s (send_region al s m)
send_region-IsPumped al s m v w np he h0 hl hm c =
    let t = send_region al s m in
    let off = ep2_tx_off s in
    let b8 : u8 m ≡ m = omega arith in
    let b16 : u16 (s.dir_pos + m) ≡ s.dir_pos + m = omega (arith, v.pos_le, v.avail_lt, hl) in
    let z : s.dir_pos + 0 ≡ s.dir_pos = omega arith in
    unfold send_region tx_direct_ready in
    record {
      sound = record {
        pkt = v.pkt;
        head_le = v.head_le;
        tail_le = v.tail_le;
        pos_le = omega (arith, b16, hl, v.pos_le);
        avail_lt = v.avail_lt;
        ready = ready_step s t m v hl refl refl b16;
        shown = refl;
        pipe = inl np;
      };
      whole = IsWhole-step s t m w (omega (arith, b16)) c refl refl;
      sends =
          region_step s t m refl np he he
            (ap (λ i. to_list i (from t.ep2_buf off)) b8
              ∙ window_same (al true off s.dir_pos) m off s.ep2_buf (from s.dir_base s.dir_pos)
              ∙ ap (λ i. to_list m (from s.dir_base i)) (sym z))
            (ap₂ (λ i j. to_list i (from s.dir_base (j + 0))) (omega (arith, b16)) b16
              ∙ ap (λ i. to_list (left s - m) (from s.dir_base i)) (omega arith))
            hl;
      next = IsUp.packet_up refl (omega (arith, b8));
    }
