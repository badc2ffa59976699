-- ===== src/Usb/Handing.antt =====
-- src/usb.c: what the firmware hands over joins the end of what is owed.
use open_gbflash_firmware.Common.{
  ℕ, zero, suc, ◌+◌, ◌-◌, ◌%◌, ◌^◌, ◌≤◌, ◌<◌, ◌≡◌, refl, sym, subst, ◌∙◌, ap, ap₂, arith, ltb, not,
  ◌==◌, ◌&&◌, if◌then◌else◌, u16, min, Array, from, copy_bytes, Bool, true, false, Bool-cases, inl,
  inr, ◌⊎◌, ◌++◌, if_true, if_false,
}
use mathlib.Core.List.{append-nil, append_assoc}
use open_gbflash_firmware.Proto.Copying.{copy_bytes-add}
use open_gbflash_firmware.Usb.Copy.{usb_copy}
use open_gbflash_firmware.Usb.Copying.{usb_copy-eq-copy_bytes}
use open_gbflash_firmware.Usb.Queue.{to_list}
use open_gbflash_firmware.Usb.Transmit.{Transmitter, Align, tx_buf_size, tx_direct_ready, tx_pump}
use open_gbflash_firmware.Usb.Produce.{tx_direct_publish, tx_lock_chunk, fill_queue, tx_queue}
use open_gbflash_firmware.Usb.Owed.{
  left, ring_bytes, region_bytes, fulls, staged, owed, IsWhole, IsSound, window_same, window_other,
  to_list-split,
}
use open_gbflash_firmware.Usb.Pump.{queued, region_halves}
use open_gbflash_firmware.Usb.Onward.{tx_pump-IsPumped}
mod Kick
mod Fill
pub use Kick.*
pub use Fill.*

-- Publishing more of the region, with the staging buffer empty: the new bytes, and nothing else,
-- join the end of what is owed, whether or not the endpoint was parked.
pub tx_direct_publish-owed :
    (al : Align) (s : Transmitter) (avail : ℕ)
    → IsSound s
    → s.dir_nominated ≡ true
    → s.head ≡ s.tail
    → s.dir_avail ≤ avail
    → avail < 2 ^ 16
    → (avail - s.dir_pos) % 64 ≡ 0 ⊎ (avail ≡ s.dir_total)
    → let t = tx_direct_publish al s avail in
      IsSound t × (IsWhole t × (owed t ≡ owed s ++ region_bytes s (left s) (avail - s.dir_avail)))
tx_direct_publish-owed al s avail v nom he le lt wh =
    let p = record s { dir_avail = avail } in
    let ps : IsSound p = record {
      pkt = v.pkt;
      head_le = v.head_le;
      tail_le = v.tail_le;
      pos_le = omega (arith, v.pos_le, le);
      avail_lt = lt;
      ready = unfold tx_direct_ready in rw nom (omega (arith, v.pos_le, le, lt));
      shown = v.shown;
      pipe = elim v.pipe [
        | inl e ↦ inl e
        | inr q ↦
            inr (record { up = q.up; two = q.two; full = q.full; valid = q.valid; pred = q.pred })
      ];
    } in
    let pw : IsWhole p = elim wh [ inl e ↦ IsWhole.packets e | inr e ↦ IsWhole.region e ] in
    let more : owed p ≡ owed s ++ region_bytes s (left s) (avail - s.dir_avail) =
      let d : ℕ = avail - s.dir_avail in
      let sum : avail - s.dir_pos ≡ left s + d = omega (arith, v.pos_le, le) in
      owed_region p he
      ∙ ap (λ l. staged s ++ l) (ap (region_bytes s 0) sum ∙ sym (region_halves s (left s) d))
      ∙ sym (append_assoc (staged s) (region_bytes s 0 (left s)) (region_bytes s (left s) d))
      ∙ ap (λ l. l ++ region_bytes s (left s) d) (sym (owed_region s he)) in
    let go = not p.armed && not (tx_direct_ready p == 0) in
    let k =
      kick al p (tx_direct_publish al s avail) go ps pw (and_not s.armed _)
        (unfold tx_direct_publish in refl) in
    (k.0, (k.1.0, k.1.1 ∙ more))

-- `r` reports `k` bytes as taken, and owes them behind what `s` owed.
abbrev Queued : Transmitter → ℕ → Array → ℕ × Transmitter → Type 0
Queued s k src r =
    (r.0 ≡ k) × (IsSound (r.1) × (IsWhole (r.1) × (owed (r.1) ≡ owed s ++ to_list (r.0) src)))

-- Queueing: what fits is taken, from the front, and with nothing of a region waiting the taken bytes
-- join the end of what is owed, whether or not the endpoint was parked.
pub tx_queue-owed :
    (al : Align) (s : Transmitter) (n : ℕ) (src : Array)
    → IsSound s
    → left s ≡ 0
    → let r = tx_queue al s n src in
      (r.0 ≡ min n (tx_buf_size - s.head))
      × (IsSound (r.1) × (IsWhole (r.1) × (owed (r.1) ≡ owed s ++ to_list (r.0) src)))
tx_queue-owed al s n src v z =
    let k = min n (tx_buf_size - s.head) in
    let p = filled s k src in
    let e = fill_queue-lem n al s n src v.head_le (omega arith) in
    let ps : IsSound p = record {
      pkt = v.pkt;
      head_le = omega (arith, v.head_le);
      tail_le = omega (arith, v.tail_le);
      pos_le = v.pos_le;
      avail_lt = v.avail_lt;
      ready = unfold tx_direct_ready in v.ready;
      shown = v.shown;
      pipe = elim v.pipe [
        | inl e ↦ inl e
        | inr q ↦
            inr (record { up = q.up; two = q.two; full = q.full; valid = q.valid; pred = q.pred })
      ];
    } in
    let pw : IsWhole p = IsWhole.packets (omega arith) in
    let more : owed p ≡ owed s ++ to_list k src =
      owed_ring p z
      ∙ ap (λ l. staged s ++ l) (ring_bytes-filled s k src v.tail_le)
      ∙ sym (append_assoc (staged s) (ring_bytes s) (to_list k src))
      ∙ ap (λ l. l ++ to_list k src) (sym (owed_ring s z)) in
    let go = not (k == 0) && not p.armed && not (p.head == p.tail) in
    let to : tx_queue al s n src ≡ (k, if go then tx_pump al p else p) =
      tx_queue-filled al s n k src p e ∙ pair_if go k (tx_pump al p) p in
    let q = kick al p (if go then tx_pump al p else p) go ps pw (λ h. ground arith) refl in
    subst (Queued s k src) (sym to) (refl, (q.0, (q.1.0, q.1.1 ∙ more)))
