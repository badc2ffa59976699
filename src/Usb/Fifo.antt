-- ===== src/Usb/Fifo.antt =====
-- src/usb.c: OUT transactions put their packets behind the queue, whole and in order.
use open_gbflash_firmware.Common.{
  ℕ, ◌+◌, ◌≤◌, ◌≡◌, refl, sym, ◌∙◌, ap, arith, le→ltb, ltb, ◌==◌, if◌then◌else◌, Array, Bool, true,
  false, Bool-cases, inl, inr, [], ◌++◌,
}
use mathlib.Core.List.{append-nil}
use open_gbflash_firmware.Usb.Receive.{
  Receiver, rx_buf_size, ep2_rx_window, rx_used, rx_free, rx_credit_update, ring_write, rx_deliver,
  credit_pump, service_out,
}
use open_gbflash_firmware.Usb.Queue.{to_list, queue, IsValid, ring_write-IsValid, ring_write-queue}

-- The credit update keeps the queue, and opens the endpoint only for a whole window.
pub rx_credit_update-IsValid :
    (r : Receiver)
    → IsValid r
    → IsValid (rx_credit_update r) × (queue (rx_credit_update r) ≡ queue r)
unfolding rx_credit_update rx_used
rx_credit_update-IsValid r v = (
  record {
    head_small = v.head_small;
    tail_small = v.tail_small;
    fits = v.fits;
    open_fits = λ o. ground (arith, v);
  },
  refl,
)

-- A flag of the handler's that no byte depends on.
marked : Receiver → Bool → Receiver
marked r b = record r { credit_dirty = b }

marked-IsValid :
    (r : Receiver) (b : Bool) → IsValid r → IsValid (marked r b) × (queue (marked r b) ≡ queue r)
unfolding marked rx_used
marked-IsValid r b v = (
  record {
    head_small = v.head_small;
    tail_small = v.tail_small;
    fits = v.fits;
    open_fits = v.open_fits;
  },
  refl,
)

credit_pump-IsValid :
    (r : Receiver) → IsValid r → IsValid (credit_pump r) × (queue (credit_pump r) ≡ queue r)
credit_pump-IsValid r v = elim (Bool-cases r.credit_dirty) [
  | inl e ↦
      let m = marked-IsValid r false v in
      let c = rx_credit_update-IsValid (marked r false) m.0 in
      let q : credit_pump r ≡ rx_credit_update (marked r false) =
        unfold credit_pump marked in rw e refl in
      rw q (c.0, c.1 ∙ m.1)
  | inr e ↦ let q : credit_pump r ≡ r = unfold credit_pump in rw e refl in rw q (v, refl)
]

free_ge :
    (r : Receiver) (len : ℕ)
    → ep2_rx_window + rx_used r ≤ rx_buf_size
    → len ≤ ep2_rx_window
    → ltb (rx_free (marked r true)) len ≡ false
unfolding marked rx_free rx_used
free_ge r len room h = ground arith

-- The packet fits behind the queue, so that no clamp of `rx_deliver` cuts it.
rx_deliver-uncut :
    (x y : Bool) (r : Receiver) (len : ℕ) (packet : Array)
    → ep2_rx_window + rx_used r ≤ rx_buf_size
    → len ≤ ep2_rx_window
    → rx_deliver x y r len packet
      ≡ (if len == 0 then marked r true else ring_write x y (marked r true) len packet)
rx_deliver-uncut x y r len packet room h =
    let f = free_ge r len room h in let g = le→ltb ep2_rx_window len h in uncut f g
  where
    uncut :
        ltb (rx_free (marked r true)) len ≡ false
        → ltb ep2_rx_window len ≡ false
        → rx_deliver x y r len packet
          ≡ (if len == 0 then marked r true else ring_write x y (marked r true) len packet)
    uncut f g =
        unfold rx_deliver marked in
        rw (g, f) (elim (Bool-cases (len == 0)) [ inl e ↦ rw e refl | inr e ↦ rw e refl ])

rx_deliver-IsValid :
    (x y : Bool) (r : Receiver) (len : ℕ) (packet : Array)
    → IsValid r
    → r.acking ≡ false
    → ep2_rx_window + rx_used r ≤ rx_buf_size
    → len ≤ ep2_rx_window
    → IsValid (rx_deliver x y r len packet)
      × (queue (rx_deliver x y r len packet) ≡ queue r ++ to_list len packet)
rx_deliver-IsValid x y r len packet v shut room h =
    let m = marked-IsValid r true v in
    let u : rx_used (marked r true) ≡ rx_used r = unfold marked rx_used in refl in
    let a : (marked r true).acking ≡ false = unfold marked in shut in
    let fits : len + rx_used (marked r true) ≤ rx_buf_size = omega (arith, u) in
    elim (Bool-cases (len == 0)) [
      | inl e ↦
          let z : len ≡ 0 = ground arith in
          let d : rx_deliver x y r len packet ≡ marked r true =
            rx_deliver-uncut x y r len packet room h ∙ rw e refl in
          rw (d, z) (m.0, m.1 ∙ sym (append-nil (queue r)))
      | inr e ↦
          let d : rx_deliver x y r len packet ≡ ring_write x y (marked r true) len packet =
            rx_deliver-uncut x y r len packet room h ∙ rw e refl in
          rw d (
            ring_write-IsValid x y (marked r true) len packet m.0 fits a,
            ring_write-queue x y (marked r true) len packet m.0 fits
                ∙ ap (λ q. q ++ to_list len packet) m.1,
          )
    ]

-- The window closed, as the handler does first.
shut : Receiver → Receiver
shut r = record r { acking = false }

shut-IsValid :
    (r : Receiver)
    → IsValid r
    → IsValid (shut r) × (queue (shut r) ≡ queue r) × (rx_used (shut r) ≡ rx_used r)
unfolding shut rx_used
shut-IsValid r v = (
  record {
    head_small = v.head_small;
    tail_small = v.tail_small;
    fits = v.fits;
    open_fits = λ o. absurd (cc);
  },
  refl,
  refl,
)

service_out-open :
    (x y : Bool) (r : Receiver) (len : ℕ) (packet : Array)
    → service_out x y true r len packet ≡ credit_pump (rx_deliver x y (shut r) len packet)
unfolding service_out shut
service_out-open x y r len packet = refl

service_out-shut :
    (x y : Bool) (r : Receiver) (len : ℕ) (packet : Array)
    → service_out x y false r len packet ≡ credit_pump (shut r)
unfolding service_out shut
service_out-shut x y r len packet = refl

-- An OUT transaction on an open endpoint, of at most a window: an in-sequence packet is appended to
-- the queue whole, a retransmission adds nothing, and the endpoint is open afterwards only if
-- another window is free.
pub service_out-queue :
    (x y in_sequence : Bool) (r : Receiver) (len : ℕ) (packet : Array)
    → IsValid r
    → r.acking ≡ true
    → len ≤ ep2_rx_window
    → let t = service_out x y in_sequence r len packet in
      IsValid t × (queue t ≡ queue r ++ (if in_sequence then to_list len packet else []))
service_out-queue x y true r len packet v ack h =
    let c = shut-IsValid r v in
    let d =
      rx_deliver-IsValid x y (shut r) len packet c.0 (unfold shut in refl)
        (omega (arith, c.2, v.open_fits ack)) h in
    let p = credit_pump-IsValid (rx_deliver x y (shut r) len packet) d.0 in
    rw (service_out-open x y r len packet) (p.0, p.1 ∙ d.1 ∙ ap (λ q. q ++ to_list len packet) c.1)
service_out-queue x y false r len packet v ack h =
    let c = shut-IsValid r v in
    let p = credit_pump-IsValid (shut r) c.0 in
    rw (service_out-shut x y r len packet) (p.0, p.1 ∙ c.1 ∙ sym (append-nil (queue r)))
