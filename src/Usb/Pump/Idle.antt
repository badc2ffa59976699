-- ===== src/Usb/Pump/Idle.antt =====
-- src/usb.c: `tx_pump` with nothing left to send.
use open_gbflash_firmware.Common.{
  ◌-◌, ◌≡◌, refl, ap, arith, if◌then◌else◌, ◌⊎◌, inl, inr, true, false, Bool-cases,
}
use open_gbflash_firmware.Usb.Transmit.{Transmitter, tx_direct_ready, pump_idle}
use open_gbflash_firmware.Usb.Owed.{left, IsWhole, IsSound}
use open_gbflash_firmware.Usb.Pump.Up.{IsPumped, IsUp, owed_single}
use open_gbflash_firmware.Usb.Pump.Region.{IsWhole-step}

-- The terminator, and the parked endpoint.
abbrev terminated : Transmitter → Transmitter
terminated s = record s { t_len = 0; last_full = false; acking = true; armed = true }

abbrev pub parked : Transmitter → Transmitter
parked s = record s { head = 0; tail = 0; t_len = 0; acking = false; armed = false }

pump_idle-cases :
    (s : Transmitter)
    → ((pump_idle s ≡ terminated s) × (s.last_full ≡ true)) ⊎ (pump_idle s ≡ parked s)
pump_idle-cases s = elim (Bool-cases s.last_full) [
  | inl e ↦ inl (unfold pump_idle in ap (λ b. if b then terminated s else parked s) e, e)
  | inr e ↦ inr (unfold pump_idle in ap (λ b. if b then terminated s else parked s) e)
]

IsSound-terminated : (s : Transmitter) → IsSound s → s.pipe_armed ≡ false → IsSound (terminated s)
IsSound-terminated s v np = record {
  pkt = v.pkt;
  head_le = v.head_le;
  tail_le = v.tail_le;
  pos_le = v.pos_le;
  avail_lt = v.avail_lt;
  ready = unfold tx_direct_ready in v.ready;
  shown = refl;
  pipe = inl np;
}

IsSound-parked : (s : Transmitter) → IsSound s → s.pipe_armed ≡ false → IsSound (parked s)
IsSound-parked s v np = record {
  pkt = v.pkt;
  head_le = omega arith;
  tail_le = omega arith;
  pos_le = v.pos_le;
  avail_lt = v.avail_lt;
  ready = unfold tx_direct_ready in v.ready;
  shown = refl;
  pipe = inl np;
}

pub pump_idle-IsPumped :
    (s : Transmitter)
    → IsSound s
    → IsWhole s
    → s.pipe_armed ≡ false
    → s.head ≡ s.tail
    → left s ≡ 0
    → IsPumped s (pump_idle s)
pump_idle-IsPumped s v w np he z =
    let ez : s.head - s.tail ≡ 0 = omega arith in
    elim (pump_idle-cases s) [
      | inl e ↦ rw (e.0) (record {
        sound = IsSound-terminated s v np;
        whole = IsWhole-step s (terminated s) 0 w (omega arith) (inl refl) refl refl;
        sends = owed_single (terminated s) refl np;
        next = IsUp.terminator (e.1) refl refl refl;
      })
      | inr e ↦ rw e (record {
        sound = IsSound-parked s v np;
        whole = IsWhole-step s (parked s) 0 w (omega arith) (inl refl) refl refl;
        sends = rw (np, ez, z) refl;
        next = IsUp.nothing refl refl z;
      })
    ]
