-- ===== src/Usb/Onward.antt =====
-- src/usb.c: every byte queued or published goes on the wire once, in order.
use open_gbflash_firmware.Common.{
  ℕ, ◌+◌, ◌-◌, ◌*◌, ◌<◌, ◌≡◌, ◌≢◌, refl, arith, leb, ltb, not, ◌==◌, ◌&&◌, if◌then◌else◌, u16,
  sub16, ◌⊎◌, inl, inr, false, Bool-cases, ne→==,
}
use open_gbflash_firmware.Usb.Transmit.{
  Transmitter, Align, pump_ring, pump_region, pump_idle, prime, send_region, tx_pump,
}
use open_gbflash_firmware.Usb.Owed.{left, IsWhole, IsSound}
use open_gbflash_firmware.Usb.Pump.{
  IsPumped, pump_ring-IsPumped, pump_idle-IsPumped, prime-IsPumped, send_region-IsPumped,
}

-- The length of the next packet of the region.
abbrev next_len : Transmitter → ℕ
next_len s = if ltb s.pkt_in (left s) then s.pkt_in else left s

next_len-lem :
    (s : Transmitter) → IsSound s → (next_len s ≡ 64) ⊎ ((next_len s ≡ left s) × (left s < 64))
next_len-lem s v =
    let p = v.pkt in
    elim (Bool-cases (ltb (left s) 64)) [ inl e ↦ inr (ground arith) | inr e ↦ inl (ground arith) ]

-- A short packet goes up only if it completes the region, and then it does.
short_completes :
    (s : Transmitter)
    → IsSound s
    → IsWhole s
    → left s ≢ 0
    → (ltb (next_len s) s.pkt_in && not (u16 (s.dir_pos + next_len s) == s.dir_total)) ≡ false
short_completes s v w nz =
    let p = v.pkt in
    let q = v.pos_le in
    let a = v.avail_lt in
    elim w [ IsWhole.packets e ↦ ground arith | IsWhole.region e ↦ ground arith ]

pump_region-IsPumped :
    (al : Align) (s : Transmitter)
    → IsSound s
    → IsWhole s
    → s.pipe_armed ≡ false
    → s.head ≡ s.tail
    → left s ≢ 0
    → IsPumped s (pump_region al s)
pump_region-IsPumped al s v w np he nz =
    let two =
      not s.pipe_armed && s.dbuf && next_len s == s.pkt_in && leb (u16 (2 * s.pkt_in)) (left s) in
    let split : pump_region al s
        ≡ (if two then prime al s (next_len s) else send_region al s (next_len s)) =
      unfold pump_region in rw (v.ready, short_completes s v w nz) refl in
    let p = v.pkt in
    let c = next_len-lem s v in
    elim (Bool-cases two) [
      | inl e ↦
          rw (split, e)
            (prime-IsPumped al s (next_len s) v w he (ground arith) (ground arith) (ground arith))
      | inr e ↦
          rw (split, e)
            (send_region-IsPumped al s (next_len s) v w np he (ground arith) (ground arith)
              (ground arith) (ground arith))
    ]

pub tx_pump-IsPumped :
    (al : Align) (s : Transmitter)
    → IsSound s
    → IsWhole s
    → s.pipe_armed ≡ false
    → IsPumped s (tx_pump al s)
tx_pump-IsPumped al s v w np = elim (Bool-cases (s.head == s.tail)) [
  | inl e ↦
      let he : s.head ≡ s.tail = ground arith in
      let idle : sub16 s.head s.tail ≡ 0 = omega (arith, v.head_le) in
      elim (Bool-cases (left s == 0)) [
        | inl z ↦
            let t : tx_pump al s ≡ pump_idle s = unfold tx_pump in rw (idle, v.ready, z) refl in
            rw t (pump_idle-IsPumped s v w np he (ground arith))
        | inr z ↦
            let t : tx_pump al s ≡ pump_region al s =
              unfold tx_pump in rw (idle, v.ready, z) refl in
            rw t (pump_region-IsPumped al s v w np he (ground arith))
      ]
  | inr e ↦
      let ne : s.head ≢ s.tail = ground arith in
      let some : sub16 s.head s.tail ≡ s.head - s.tail = omega (arith, v.head_le, v.tail_le) in
      let nz : (s.head - s.tail == 0) ≡ false =
        ne→== (s.head - s.tail) 0 (omega (arith, ne, v.tail_le)) in
      let t : tx_pump al s ≡ pump_ring al s (s.head - s.tail) =
        unfold tx_pump in rw (some, nz) refl in
      rw t (pump_ring-IsPumped al s v w np (omega (arith, ne, v.tail_le)))
]
