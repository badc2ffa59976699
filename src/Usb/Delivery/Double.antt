-- ===== src/Usb/Delivery/Double.antt =====
-- src/usb.c: a completion with both windows up.
use open_gbflash_firmware.Common.{
  ℕ, ◌+◌, ◌-◌, ◌*◌, ◌/◌, ◌≤◌, ◌<◌, ◌≡◌, refl, sym, ◌∙◌, ap, ap₂, arith, leb, if◌then◌else◌, u8, u16,
  ◌⊎◌, inl, inr, from, true, false, Bool-cases, List, ◌++◌, if_true, if_false,
}
use mathlib.Core.List.{append_assoc}
use open_gbflash_firmware.Usb.Copy.{usb_copy}
use open_gbflash_firmware.Usb.Queue.{to_list}
use open_gbflash_firmware.Usb.Transmit.{
  Transmitter, Align, ep2_tx_off, ep2_tx_other, tx_direct_ready, swap_off,
}
use open_gbflash_firmware.Usb.Complete.{packet, accepted, refill}
use open_gbflash_firmware.Usb.Owed.{
  left, ring_bytes, region_bytes, owed, IsPiped, IsWhole, IsSound, window_same, window_other,
}
use open_gbflash_firmware.Usb.Pump.{
  IsUp, ready_step, region_halves, owed_single, windows_apart, off-accepted, IsWhole-step,
}
use open_gbflash_firmware.Usb.Delivery.Credit.{credited}
use open_gbflash_firmware.Usb.Delivery.Single.{IsNext}

-- Both windows up and at least a packet left: the freed window is filled again.
abbrev pub refilled : Align → Transmitter → Transmitter
refilled al s = record s {
  tog_pred = swap_off s.tog_pred;
  ep2_buf =
      usb_copy (al true s.tog_pred s.dir_pos) s.pkt_in s.ep2_buf s.tog_pred
        (from s.dir_base s.dir_pos);
  dir_pos = u16 (s.dir_pos + s.pkt_in);
  pipe_outstanding = u8 (s.pipe_outstanding + 1);
}

-- Less than a packet left: the second window is the last of the pair.
abbrev pub wound_down : Transmitter → Transmitter
wound_down s = record s { tog_pred = swap_off s.tog_pred; pipe_armed = false }

pub refill-cases :
    (al : Align) (s : Transmitter)
    → s.tog_valid ≡ true
    → tx_direct_ready s ≡ left s
    → ((refill al s ≡ refilled al s) × (s.pkt_in ≤ left s))
      ⊎ ((refill al s ≡ wound_down s) × (left s < s.pkt_in))
refill-cases al s tv r =
    let freed : (if s.tog_valid then s.tog_pred else ep2_tx_other s) ≡ s.tog_pred =
      if_true s.tog_valid s.tog_pred (ep2_tx_other s) tv in
    let swap : (if s.tog_valid then swap_off s.tog_pred else s.tog_pred) ≡ swap_off s.tog_pred =
      if_true s.tog_valid (swap_off s.tog_pred) s.tog_pred tv in
    let fill = λ (o q : ℕ). record s {
      tog_pred = q;
      ep2_buf = usb_copy (al true o s.dir_pos) s.pkt_in s.ep2_buf o (from s.dir_base s.dir_pos);
      dir_pos = u16 (s.dir_pos + s.pkt_in);
      pipe_outstanding = u8 (s.pipe_outstanding + 1);
    } in
    let stop = λ (q : ℕ). record s { tog_pred = q; pipe_armed = false } in
    let o : ℕ = if s.tog_valid then s.tog_pred else ep2_tx_other s in
    let q : ℕ = if s.tog_valid then swap_off s.tog_pred else s.tog_pred in
    let ready : tx_direct_ready (record s { tog_pred = q }) ≡ left s =
      unfold tx_direct_ready in r in
    let at_ready : refill al s ≡ (if leb s.pkt_in (left s) then fill o q else stop q) =
      unfold refill in ap (λ n. if leb s.pkt_in n then fill o q else stop q) ready in
    let to : refill al s ≡ (
        if leb s.pkt_in (left s)
        then fill s.tog_pred (swap_off s.tog_pred)
        else stop (swap_off s.tog_pred)) =
      at_ready ∙ ap₂ (λ x y. if leb s.pkt_in (left s) then fill x y else stop y) freed swap in
    elim (Bool-cases (leb s.pkt_in (left s))) [
      | inl e ↦ inl (to ∙ if_true _ _ _ e, ground arith)
      | inr e ↦ inr (to ∙ if_false _ _ _ e, ground arith)
    ]

-- With both windows up, what is owed is the two packets, whole packets of the region, the staging
-- buffer and the rest of the region.
owed_double :
    (t : Transmitter) (f : ℕ)
    → t.armed ≡ true
    → t.pipe_armed ≡ true
    → f ≡ left t / 64 * 64
    → owed t
      ≡ (packet t ++ packet (accepted t))
        ++ (region_bytes t 0 f ++ (ring_bytes t ++ region_bytes t f (left t - f)))
owed_double t f up pa e = rw (up, pa, e) refl

shuffle : (a b c d e : List ℕ) → (a ++ b) ++ ((c ++ d) ++ e) ≡ a ++ ((b ++ c) ++ (d ++ e))
shuffle a b c d e =
    append_assoc a b ((c ++ d) ++ e)
    ∙ ap (λ l. a ++ l) (ap (λ l. b ++ l) (append_assoc c d e) ∙ sym (append_assoc b c (d ++ e)))

pub refilled-IsNext :
    (al : Align) (s : Transmitter) (out sent tail : ℕ)
    → IsSound s
    → IsWhole s
    → IsPiped s
    → s.pipe_armed ≡ true
    → s.pkt_in ≤ left s
    → IsNext s (refilled al (credited (accepted s) out sent tail))
refilled-IsNext al s out sent tail v w p pa hl =
    let c = credited (accepted s) out sent tail in
    let t = refilled al c in
    let m = s.pkt_in in
    let first = ep2_tx_off s in
    let second = swap_off first in
    let g : ℕ = (left s - m) / 64 * 64 in
    let b16 : u16 (s.dir_pos + m) ≡ s.dir_pos + m = omega (arith, v.pkt, v.pos_le, v.avail_lt) in
    let l : left t ≡ left s - m = omega (arith, b16) in
    let apart : (ep2_tx_off (accepted s) + s.t_len ≤ s.tog_pred)
        ⊎ (s.tog_pred + m ≤ ep2_tx_off (accepted s)) =
      let o = off-accepted s p.two in
      let k = v.pkt in
      let j = p.full in
      let i = p.pred in
      elim (windows_apart s p.two) [ inl e ↦ inr (omega arith) | inr e ↦ inl (omega arith) ] in
    let back : ep2_tx_off (accepted t) ≡ first = elim (Bool-cases s.tog) [
      | inl e ↦ rw (p.two, e) refl
      | inr e ↦ rw (p.two, e) refl
    ] in
    let shift : (i n : ℕ) → region_bytes t i n ≡ region_bytes s (m + i) n =
      λ i n. ap (λ j. to_list n (from s.dir_base j)) (omega (arith, b16)) in
    let one : packet t ≡ packet (accepted s) =
      window_other (al true s.tog_pred s.dir_pos) m s.tog_pred s.t_len (ep2_tx_off (accepted s))
        s.ep2_buf (from s.dir_base s.dir_pos) apart in
    let two : packet (accepted t) ≡ region_bytes s 0 m =
      ap₂ (λ i o. to_list i (from t.ep2_buf o)) (p.full ∙ sym v.pkt) (back ∙ sym p.pred)
      ∙ window_same (al true s.tog_pred s.dir_pos) m s.tog_pred s.ep2_buf
          (from s.dir_base s.dir_pos)
      ∙ ap (λ i. to_list m (from s.dir_base i)) (omega arith) in
    record {
      sound = record {
        pkt = v.pkt;
        head_le = v.head_le;
        tail_le = v.tail_le;
        pos_le = omega (arith, b16, hl, v.pos_le);
        avail_lt = v.avail_lt;
        ready = unfold tx_direct_ready in ready_step s t m v hl refl refl b16;
        shown = v.shown;
        pipe = inr (record {
          up = p.up;
          two = p.two;
          full = p.full;
          valid = p.valid;
          pred = ap swap_off p.pred ∙ sym (off-accepted s p.two);
        });
      };
      whole = IsWhole-step s t m w l (inl (omega (arith, v.pkt))) refl refl;
      sends =
          owed_double s (m + g) p.up pa (omega (arith, v.pkt))
          ∙ ap
              (λ r.
                (packet s ++ packet (accepted s))
                ++ (r ++ (ring_bytes s ++ region_bytes s (m + g) (left s - (m + g)))))
              (sym (region_halves s m g))
          ∙ shuffle (packet s) (packet (accepted s)) (region_bytes s 0 m) (region_bytes s m g)
              (ring_bytes s ++ region_bytes s (m + g) (left s - (m + g)))
          ∙ ap (λ l. packet s ++ l)
              (sym (
                owed_double t g p.up pa (ap (λ n. n / 64 * 64) (sym l))
                ∙ ap₂ ◌++◌ (ap₂ ◌++◌ one two) (
                    ap₂ (λ x y. x ++ (ring_bytes s ++ y))
                      (shift 0 g ∙ ap (λ i. region_bytes s i g) (omega arith))
                      (shift g (left t - g) ∙ ap (region_bytes s (m + g)) (omega (arith, l))))));
      next = IsUp.packet_up p.up (omega (arith, p.full));
    }

pub wound_down-IsNext :
    (s : Transmitter) (out sent tail : ℕ)
    → IsSound s
    → IsWhole s
    → IsPiped s
    → s.pipe_armed ≡ true
    → left s < s.pkt_in
    → IsNext s (wound_down (credited (accepted s) out sent tail))
wound_down-IsNext s out sent tail v w p pa hl =
    let t = wound_down (credited (accepted s) out sent tail) in
    record {
      sound = record {
        pkt = v.pkt;
        head_le = v.head_le;
        tail_le = v.tail_le;
        pos_le = v.pos_le;
        avail_lt = v.avail_lt;
        ready = unfold tx_direct_ready in v.ready;
        shown = v.shown;
        pipe = inl refl;
      };
      whole = IsWhole-step s t 0 w (omega arith) (inl refl) refl refl;
      sends =
          owed_double s 0 p.up pa (omega (arith, v.pkt))
          ∙ append_assoc (packet s) (packet (accepted s))
              (ring_bytes s ++ region_bytes s 0 (left s - 0))
          ∙ ap (λ n. packet s ++ (packet (accepted s) ++ (ring_bytes s ++ region_bytes s 0 n)))
              (omega arith)
          ∙ ap (λ l. packet s ++ l) (sym (owed_single t p.up refl));
      next = IsUp.packet_up p.up (omega (arith, p.full));
    }
