-- ===== src/Usb/Handing/Kick.antt =====
-- src/usb.c: what is owed where the region or the staging buffer is empty, and the kick of a parked endpoint.
use open_gbflash_firmware.Common.{
  ◌+◌, ◌-◌, ◌≤◌, ◌≡◌, refl, sym, ◌∙◌, ap, arith, not, ◌&&◌, if◌then◌else◌, from, Bool, true, false,
  inl, inr, ◌++◌,
}
use mathlib.Core.List.{append-nil}
use open_gbflash_firmware.Usb.Queue.{to_list}
use open_gbflash_firmware.Usb.Transmit.{Transmitter, Align, tx_pump}
use open_gbflash_firmware.Usb.Owed.{
  left, ring_bytes, region_bytes, fulls, staged, owed, IsWhole, IsSound,
}
use open_gbflash_firmware.Usb.Pump.{queued, region_halves}
use open_gbflash_firmware.Usb.Onward.{tx_pump-IsPumped}

-- An endpoint that is parked has no second window up.
parked_single : (s : Transmitter) → IsSound s → s.armed ≡ false → s.pipe_armed ≡ false
parked_single s v na = elim v.pipe [ inl e ↦ e | inr p ↦ absurd (cc (na, p.up)) ]

-- With the staging buffer empty, the region follows the packets that are up.
pub owed_region :
    (s : Transmitter) → s.head ≡ s.tail → owed s ≡ staged s ++ region_bytes s 0 (left s)
owed_region s h =
    let z : s.head - s.tail ≡ 0 = omega arith in
    let le : fulls s ≤ left s = ground arith in
    let whole : fulls s + (left s - fulls s) ≡ left s = omega arith in
    ap
      (λ n.
        staged s
        ++ (region_bytes s 0 (fulls s)
            ++ (to_list n (from s.buf s.tail) ++ region_bytes s (fulls s) (left s - fulls s))))
      z
    ∙ ap (λ l. staged s ++ l)
        (region_halves s (fulls s) (left s - fulls s) ∙ ap (region_bytes s 0) whole)

-- With nothing of a region left, the staging buffer follows them.
pub owed_ring : (s : Transmitter) → left s ≡ 0 → owed s ≡ staged s ++ ring_bytes s
owed_ring s z =
    let f : fulls s ≡ 0 = ground arith in
    let z0 : left s - 0 ≡ 0 = omega arith in
    ap (λ f. staged s ++ (region_bytes s 0 f ++ (ring_bytes s ++ region_bytes s f (left s - f)))) f
    ∙ ap (λ n. staged s ++ (ring_bytes s ++ region_bytes s 0 n)) z0
    ∙ ap (λ l. staged s ++ l) (append-nil (ring_bytes s))

pub and_not : (a x : Bool) → (not a && x) ≡ true → a ≡ false
and_not false x h = refl
and_not true x h = sym h

owed_parked : (s : Transmitter) → s.armed ≡ false → s.pipe_armed ≡ false → owed s ≡ queued s
owed_parked s na np = let z : left s - 0 ≡ left s = omega arith in rw (na, np, z) refl

-- A kick of a parked endpoint changes nothing of what is owed.
pub kick :
    (al : Align) (p t : Transmitter) (go : Bool)
    → IsSound p
    → IsWhole p
    → (go ≡ true → p.armed ≡ false)
    → t ≡ (if go then tx_pump al p else p)
    → IsSound t × (IsWhole t × (owed t ≡ owed p))
kick al p t true v w na e =
    let u = tx_pump-IsPumped al p v w (parked_single p v (na refl)) in
    rw e (u.sound, (u.whole, u.sends ∙ sym (owed_parked p (na refl) (parked_single p v (na refl)))))
kick al p t false v w na e = rw e (v, (w, refl))
