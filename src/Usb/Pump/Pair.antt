-- ===== src/Usb/Pump/Pair.antt =====
-- src/usb.c: `tx_pump` filling both windows.
use open_gbflash_firmware.Common.{
  ℕ, ◌+◌, ◌-◌, ◌*◌, ◌/◌, ◌≤◌, ◌≡◌, refl, sym, ◌∙◌, ap, ap₂, arith, u8, u16, ◌⊎◌, inl, inr, Array,
  from, true, Bool-cases, ◌++◌,
}
use open_gbflash_firmware.Usb.Copy.{usb_copy}
use open_gbflash_firmware.Usb.Queue.{to_list}
use open_gbflash_firmware.Usb.Transmit.{
  Transmitter, Align, ep2_tx_off, tx_direct_ready, swap_off, prime,
}
use open_gbflash_firmware.Usb.Complete.{packet, accepted}
use open_gbflash_firmware.Usb.Owed.{
  left, region_bytes, owed, IsWhole, IsSound, window_same, window_other, to_list-split,
}
use open_gbflash_firmware.Usb.Pump.Up.{IsPumped, IsUp}
use open_gbflash_firmware.Usb.Pump.Region.{IsWhole-step, ready_step}

-- Two stretches of the region that meet.
pub region_join :
    (s : Transmitter) (i a b : ℕ)
    → region_bytes s i a ++ region_bytes s (i + a) b ≡ region_bytes s i (a + b)
region_join s i a b =
    let e : s.dir_pos + (i + a) ≡ s.dir_pos + i + a = omega arith in
    rw e (sym (to_list-split (a + b) a b (s.dir_pos + i) s.dir_base refl))

pub region_halves :
    (s : Transmitter) (a b : ℕ)
    → region_bytes s 0 a ++ region_bytes s a b ≡ region_bytes s 0 (a + b)
region_halves s a b =
    ap (λ i. region_bytes s 0 a ++ region_bytes s i b) (omega arith) ∙ region_join s 0 a b

-- Both windows up, and the staging buffer empty.
double_step :
    (s t : Transmitter) (m : ℕ)
    → t.armed ≡ true
    → t.pipe_armed ≡ true
    → t.head ≡ t.tail
    → packet t ≡ region_bytes s 0 m
    → packet (accepted t) ≡ region_bytes s m m
    → t.dir_base ≡ s.dir_base
    → t.dir_pos ≡ s.dir_pos + (m + m)
    → left t ≡ left s - (m + m)
    → m + m ≤ left s
    → owed t ≡ region_bytes s 0 (left s)
double_step s t m up pa te one two eb ep el hl =
    let f : ℕ = left t / 64 * 64 in
    let zt : t.head - t.tail ≡ 0 = omega arith in
    let all : f + (left t - f) ≡ left t = omega arith in
    let whole : m + m + left t ≡ left s = omega arith in
    let shift : region_bytes t 0 (left t) ≡ region_bytes s (m + m) (left t) =
      ap₂ (λ (b : Array) (i : ℕ). to_list (left t) (from b (i + 0))) eb ep
      ∙ ap (λ i. to_list (left t) (from s.dir_base i)) (omega arith) in
    rw (up, pa, zt)
      (ap₂ ◌++◌ (ap₂ ◌++◌ one two ∙ region_halves s m m)
          (region_halves t f (left t - f) ∙ ap (region_bytes t 0) all ∙ shift)
        ∙ region_halves s (m + m) (left t)
        ∙ ap (region_bytes s 0) whole)

-- The two windows lie apart, and the toggle names the other one after each packet.
pub windows_apart :
    (s : Transmitter)
    → s.dbuf ≡ true
    → (ep2_tx_off s + 64 ≤ swap_off (ep2_tx_off s)) ⊎ (swap_off (ep2_tx_off s) + 64 ≤ ep2_tx_off s)
windows_apart s d = elim (Bool-cases s.tog) [
  | inl e ↦ inr (rw (d, e) (omega arith))
  | inr e ↦ inl (rw (d, e) (omega arith))
]

pub off-accepted :
    (s : Transmitter) → s.dbuf ≡ true → ep2_tx_off (accepted s) ≡ swap_off (ep2_tx_off s)
off-accepted s d = elim (Bool-cases s.tog) [ inl e ↦ rw (d, e) refl | inr e ↦ rw (d, e) refl ]

pub prime-IsPumped :
    (al : Align) (s : Transmitter) (m : ℕ)
    → IsSound s
    → IsWhole s
    → s.head ≡ s.tail
    → s.dbuf ≡ true
    → m ≡ 64
    → m + m ≤ left s
    → IsPumped s (prime al s m)
prime-IsPumped al s m v w he db hm hl =
    let t = prime al s m in
    let first = ep2_tx_off s in
    let second = swap_off first in
    let pos = s.dir_pos in
    let once = usb_copy (al true first pos) m s.ep2_buf first (from s.dir_base pos) in
    let ez : s.head - s.tail ≡ 0 = omega arith in
    let b8 : u8 m ≡ m = omega arith in
    let b16 : u16 (pos + u16 (2 * m)) ≡ pos + (m + m) = omega (arith, v.pos_le, v.avail_lt) in
    let apart : (first + m ≤ second) ⊎ (second + m ≤ first) = rw hm (windows_apart s db) in
    unfold prime tx_direct_ready in
    record {
      sound = record {
        pkt = v.pkt;
        head_le = v.head_le;
        tail_le = v.tail_le;
        pos_le = omega (arith, b16, hl, v.pos_le);
        avail_lt = v.avail_lt;
        ready = ready_step s t (m + m) v hl refl refl b16;
        shown = refl;
        pipe = inr (record { up = refl; two = db; full = omega arith; valid = refl; pred = refl });
      };
      whole = IsWhole-step s t (m + m) w (omega (arith, b16)) (inl (omega arith)) refl refl;
      sends =
          double_step s t m refl refl he
            (ap (λ i. to_list i (from t.ep2_buf first)) b8
              ∙ window_other (al true second (pos + m)) m second m first once
                  (from s.dir_base (pos + m)) apart
              ∙ window_same (al true first pos) m first s.ep2_buf (from s.dir_base pos)
              ∙ ap (λ i. to_list m (from s.dir_base i)) (omega arith))
            (ap₂ (λ i o. to_list i (from t.ep2_buf o)) b8 (off-accepted t db)
              ∙ window_same (al true second (pos + m)) m second once (from s.dir_base (pos + m)))
            refl b16 (omega (arith, b16)) hl
          ∙ sym (rw ez refl);
      next = IsUp.packet_up refl (omega arith);
    }
