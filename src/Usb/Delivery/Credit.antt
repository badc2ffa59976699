-- ===== src/Usb/Delivery/Credit.antt =====
-- src/usb.c: the credit of a delivered packet.
use open_gbflash_firmware.Common.{
  ℕ, ◌+◌, ◌-◌, ◌%◌, ◌≡◌, refl, ◌∙◌, ap, not, ◌==◌, if◌then◌else◌, u16, inl, inr, Bool-cases,
  if_true, if_false,
}
use open_gbflash_firmware.Usb.Transmit.{Transmitter, tx_stage_slots}
use open_gbflash_firmware.Usb.Complete.{credit_sent}

-- What the credit of a delivered packet leaves alone is all but three counters.
abbrev pub credited : Transmitter → ℕ → ℕ → ℕ → Transmitter
credited s out sent tail = record s { pipe_outstanding = out; dir_sent = sent; stage_tail = tail }

pub credit_sent-cases :
    (s : Transmitter)
    → (out : ℕ) × ((sent : ℕ) × ((tail : ℕ) × (credit_sent s ≡ credited s out sent tail)))
credit_sent-cases s = elim (Bool-cases (s.pipe_outstanding == 0)) [
  | inl e ↦ elim (Bool-cases (s.stage_head == s.stage_tail)) [
    | inl f ↦ (
      s.pipe_outstanding,
      (
        u16 (s.dir_sent + 0),
        (
          s.stage_tail,
          unfold credit_sent in
              if_false (not (s.pipe_outstanding == 0)) _ _ (rw e refl)
              ∙ ap (λ (p : ℕ × Transmitter). record (p.1) { dir_sent = u16 (s.dir_sent + p.0) })
                  (if_true (s.stage_head == s.stage_tail) _ _ f),
        ),
      ),
    )
    | inr f ↦ (
      s.pipe_outstanding,
      (
        u16 (s.dir_sent + (if s.stage_dir s.stage_tail == 0 then 0 else s.stage_len s.stage_tail)),
        (
          (s.stage_tail + 1) % tx_stage_slots,
          unfold credit_sent in
              if_false (not (s.pipe_outstanding == 0)) _ _ (rw e refl)
              ∙ ap (λ (p : ℕ × Transmitter). record (p.1) { dir_sent = u16 (s.dir_sent + p.0) })
                  (if_false (s.stage_head == s.stage_tail) _ _ f),
        ),
      ),
    )
  ]
  | inr e ↦ (
    s.pipe_outstanding - 1,
    (
      u16 (s.dir_sent + s.pkt_in),
      (s.stage_tail, unfold credit_sent in if_true (not (s.pipe_outstanding == 0)) _ _ (rw e refl)),
    ),
  )
]
