-- ===== src/Usb/Delivery/Single.antt =====
-- src/usb.c: a completion with one packet up.
use open_gbflash_firmware.Common.{
  ℕ, ◌≡◌, refl, sym, ◌∙◌, ap, arith, not, ◌&&◌, inl, Bool, true, false, ◌++◌, eq→==, if_false,
}
use open_gbflash_firmware.Usb.Transmit.{Transmitter, Align, tx_direct_ready, tx_pump, tx_pumps}
use open_gbflash_firmware.Usb.Complete.{packet, accepted}
use open_gbflash_firmware.Usb.Owed.{owed, IsWhole, IsSound}
use open_gbflash_firmware.Usb.Pump.{IsUp, owed_single, IsWhole-step}
use open_gbflash_firmware.Usb.Onward.{tx_pump-IsPumped}
use open_gbflash_firmware.Usb.Delivery.Credit.{credited}

-- `t` is sound, and owes what `s` owes but for the packet in front.
pub record IsNext (s t : Transmitter) : Type 0 where
  pub sound : IsSound t
  pub whole : IsWhole t
  pub sends : owed s ≡ packet s ++ owed t
  pub next : IsUp s t

and-false : (b : Bool) → (b && false) ≡ false
and-false true = refl
and-false false = refl

-- The pumps after the handler find nothing to do.
pub tx_pumps_idle : (al : Align) (s t : Transmitter) → IsNext s t → tx_pumps al t ≡ t
tx_pumps_idle al s t n =
    let r = n.sound.ready in
    elim n.next [
      | IsUp.packet_up e _ ↦ unfold tx_pumps in if_false _ (tx_pump al t) t (rw e refl)
      | IsUp.terminator _ e _ _ ↦ unfold tx_pumps in if_false _ (tx_pump al t) t (rw e refl)
      | IsUp.nothing _ h e ↦
          let z : tx_direct_ready t ≡ 0 = r ∙ e in
          let q = eq→== t.head t.tail h in
          unfold tx_pumps in if_false _ (tx_pump al t) t (rw (q, z) (and-false (not t.armed)))
    ]

-- One packet up: the handler asks `tx_pump` for the next one.
pub pump-IsNext :
    (al : Align) (s : Transmitter) (out sent tail : ℕ)
    → IsSound s
    → IsWhole s
    → s.armed ≡ true
    → s.pipe_armed ≡ false
    → IsNext s (tx_pump al (credited (accepted s) out sent tail))
pump-IsNext al s out sent tail v w up np =
    let c = credited (accepted s) out sent tail in
    let cs : IsSound c = record {
      pkt = v.pkt;
      head_le = v.head_le;
      tail_le = v.tail_le;
      pos_le = v.pos_le;
      avail_lt = v.avail_lt;
      ready = unfold tx_direct_ready in v.ready;
      shown = v.shown;
      pipe = inl np;
    } in
    let p = tx_pump-IsPumped al c cs (IsWhole-step s c 0 w (omega arith) (inl refl) refl refl) np in
    record {
      sound = p.sound;
      whole = p.whole;
      sends = owed_single s up np ∙ ap (λ l. packet s ++ l) (sym p.sends);
      next = elim p.next [
        | IsUp.packet_up a b ↦ IsUp.packet_up a b
        | IsUp.terminator a b x y ↦ IsUp.terminator a b x y
        | IsUp.nothing a b x ↦ IsUp.nothing a b x
      ];
    }
