-- ===== src/Usb/Stale.antt =====
-- src/usb.c: what the handler does with a published tail that is shorter than a packet and is not the
-- region's end.
use open_gbflash_firmware.Common.{
  ◌+◌, ◌<◌, ◌≡◌, ◌≢◌, refl, ◌∙◌, arith, ltb, not, ◌==◌, ◌&&◌, if◌then◌else◌, u16, sub16, true,
  false, if_false, ne→==, inl,
}
use open_gbflash_firmware.Usb.Transmit.{
  Transmitter, Align, tx_direct_ready, pump_region, tx_pump, tx_pumps,
}
use open_gbflash_firmware.Usb.Complete.{accepted, credit_sent, refill, service_in}
use open_gbflash_firmware.Usb.Owed.{left, IsSound}
use open_gbflash_firmware.Usb.Delivery.{credited, credit_sent-cases, service_in-credited}

-- `tx_pump` returns with the endpoint as it was.
tx_pump-short :
    (al : Align) (s : Transmitter)
    → IsSound s
    → s.head ≡ s.tail
    → left s ≢ 0
    → left s < 64
    → s.dir_avail ≢ s.dir_total
    → tx_pump al s ≡ s
tx_pump-short al s v he nz lt ne =
    let idle : sub16 s.head s.tail ≡ 0 = omega (arith, v.head_le) in
    let some : (left s == 0) ≡ false = ne→== (left s) 0 nz in
    let m : (if ltb s.pkt_in (left s) then s.pkt_in else left s) ≡ left s =
      let p = v.pkt in ground arith in
    let short : (ltb (left s) s.pkt_in && not (u16 (s.dir_pos + left s) == s.dir_total)) ≡ true =
      let p = v.pkt in let q = v.pos_le in let a = v.avail_lt in ground arith in
    let to : tx_pump al s ≡ pump_region al s = unfold tx_pump in rw (idle, v.ready, some) refl in
    to ∙ (unfold pump_region in rw (v.ready, m, short) refl)

-- The windows, the packet length and the acknowledging response stay as they were, with the toggle
-- on the next window and nothing taken from the region.
pub record IsStale (s t : Transmitter) : Type 0 where
  pub acks : t.acking ≡ true
  pub length_kept : t.t_len ≡ s.t_len
  pub windows_kept : t.ep2_buf ≡ s.ep2_buf
  pub toggled : t.tog ≡ not s.tog
  pub not_taken : t.dir_pos ≡ s.dir_pos

-- One packet is up and goes out; the staging buffer is empty, and what is published and not yet
-- staged is shorter than a packet and does not complete the region. The handler leaves the endpoint
-- acknowledging with the old packet length over the old windows, so that the next IN transaction
-- sends old bytes again, and none of the region's.
pub service_in-IsStale :
    (al : Align) (s : Transmitter)
    → IsSound s
    → s.armed ≡ true
    → s.pipe_armed ≡ false
    → s.head ≡ s.tail
    → left s ≢ 0
    → left s < 64
    → s.dir_avail ≢ s.dir_total
    → IsStale s (service_in al (accepted s))
service_in-IsStale al s v up np he nz lt ne =
    let k = credit_sent-cases (accepted s) in
    let c = credited (accepted s) (k.0) (k.1.0) (k.1.1.0) in
    let e : credit_sent (accepted s) ≡ c = k.1.1.1 in
    let cs : IsSound c = record {
      pkt = v.pkt;
      head_le = v.head_le;
      tail_le = v.tail_le;
      pos_le = v.pos_le;
      avail_lt = v.avail_lt;
      ready = unfold tx_direct_ready in v.ready;
      shown = v.shown;
      pipe = inl np;
    } in
    let pumped : (if c.pipe_armed then refill al c else tx_pump al c) ≡ c =
      if_false c.pipe_armed (refill al c) (tx_pump al c) np ∙ tx_pump-short al c cs he nz lt ne in
    let idle : tx_pumps al c ≡ c = unfold tx_pumps in if_false _ (tx_pump al c) c (rw up refl) in
    rw (service_in-credited al (accepted s) c e, pumped, idle)
      (record {
        acks = v.shown ∙ up;
        length_kept = refl;
        windows_kept = refl;
        toggled = refl;
        not_taken = refl;
      })
