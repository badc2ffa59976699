-- ===== src/Usb/Delivery.antt =====
-- src/usb.c: an IN transaction sends the next bytes owed, and the handler keeps the rest in order.
use open_gbflash_firmware.Common.{
  ℕ, ◌+◌, ◌-◌, ◌*◌, ◌/◌, ◌%◌, ◌≤◌, ◌<◌, ◌≡◌, refl, sym, ◌∙◌, ap, ap₂, arith, leb, not, ◌==◌, ◌&&◌,
  if◌then◌else◌, u8, u16, ◌⊎◌, inl, inr, from, Bool, true, false, Bool-cases, List, [], ◌∷◌, ◌++◌,
  eq→==, if_true, if_false,
}
use mathlib.Core.List.{append-nil, append_assoc}
use open_gbflash_firmware.Usb.Copy.{usb_copy}
use open_gbflash_firmware.Usb.Queue.{to_list}
use open_gbflash_firmware.Usb.Transmit.{
  Transmitter, Align, ep2_tx_off, ep2_tx_other, tx_direct_ready, swap_off, tx_pump, tx_pumps,
  tx_stage_slots,
}
use open_gbflash_firmware.Usb.Complete.{
  packet, accepted, credit_sent, refill, service_in, Line, in_transaction,
}
use open_gbflash_firmware.Usb.Owed.{
  left, ring_bytes, region_bytes, owed, IsPiped, IsWhole, IsSound, window_same, window_other,
}
use open_gbflash_firmware.Usb.Pump.{
  IsUp, ready_step, region_halves, owed_single, windows_apart, off-accepted, IsWhole-step,
}
use open_gbflash_firmware.Usb.Onward.{tx_pump-IsPumped}
mod Credit
mod Single
mod Double
pub use Credit.*
pub use Single.*
pub use Double.*

-- The bytes of a list of packets.
abbrev pub flat : List (List ℕ) → List ℕ
flat [] = []
flat (p ∷ ps) = p ++ flat ps

flat-snoc : (ps : List (List ℕ)) (p : List ℕ) → flat (ps ++ (p ∷ [])) ≡ flat ps ++ p
flat-snoc [] p = append-nil p
flat-snoc (q ∷ ps) p = ap (λ l. q ++ l) (flat-snoc ps p) ∙ sym (append_assoc q (flat ps) p)

-- The handler, once the credit has been given.
pub service_in-credited :
    (al : Align) (s c : Transmitter)
    → credit_sent s ≡ c
    → service_in al s ≡ tx_pumps al (if c.pipe_armed then refill al c else tx_pump al c)
service_in-credited al s c e =
    unfold service_in in
    ap (λ t. tx_pumps al (if t.pipe_armed then refill al t else tx_pump al t)) e

settled :
    (al : Align) (s c t : Transmitter)
    → credit_sent (accepted s) ≡ c
    → (if c.pipe_armed then refill al c else tx_pump al c) ≡ t
    → IsNext s t
    → IsNext s (service_in al (accepted s))
settled al s c t e f n = rw (service_in-credited al (accepted s) c e, f, tx_pumps_idle al s t n) n

pub service_in-IsNext :
    (al : Align) (s : Transmitter)
    → IsSound s
    → IsWhole s
    → s.armed ≡ true
    → IsNext s (service_in al (accepted s))
service_in-IsNext al s v w up =
    let k = credit_sent-cases (accepted s) in
    let c = credited (accepted s) (k.0) (k.1.0) (k.1.1.0) in
    let e : credit_sent (accepted s) ≡ c = k.1.1.1 in
    elim (Bool-cases s.pipe_armed) [
      | inl pa ↦ elim v.pipe [
        | inl np ↦ absurd (cc pa)
        | inr p ↦ elim (refill-cases al c p.valid (unfold tx_direct_ready in v.ready)) [
          | inl f ↦
              settled al s c (refilled al c) e (if_true _ _ _ pa ∙ f.0)
                (refilled-IsNext al s (k.0) (k.1.0) (k.1.1.0) v w p pa (f.1))
          | inr f ↦
              settled al s c (wound_down c) e (if_true _ _ _ pa ∙ f.0)
                (wound_down-IsNext s (k.0) (k.1.0) (k.1.1.0) v w p pa (f.1))
        ]
      ]
      | inr np ↦
          settled al s c (tx_pump al c) e (if_false _ _ _ np)
            (pump-IsNext al s (k.0) (k.1.0) (k.1.1.0) v w up np)
    ]

-- `l` has become `l'`: what was owed is owed still or has gone out, in order.
pub record IsOnward (l l' : Line) : Type 0 where
  pub sound : IsSound l'.tx
  pub whole : IsWhole l'.tx
  pub bytes : flat l'.wire ++ owed l'.tx ≡ flat l.wire ++ owed l.tx

pub in_transaction-IsOnward :
    (al : Align) (l : Line) → IsSound l.tx → IsWhole l.tx → IsOnward l (in_transaction al l)
in_transaction-IsOnward al l v w = elim (Bool-cases l.tx.acking) [
  | inl e ↦
      let n = service_in-IsNext al l.tx v w (sym v.shown ∙ e) in
      let s = l.tx in
      let to : in_transaction al l
          ≡ record { tx = service_in al (accepted s); wire = l.wire ++ (packet s ∷ []) } =
        unfold in_transaction in if_true l.tx.acking _ l e in
      rw to (record {
        sound = n.sound;
        whole = n.whole;
        bytes =
            ap (λ f. f ++ owed (service_in al (accepted s))) (flat-snoc l.wire (packet s))
            ∙ append_assoc (flat l.wire) (packet s) (owed (service_in al (accepted s)))
            ∙ ap (λ o. flat l.wire ++ o) (sym n.sends);
      })
  | inr e ↦
      let to : in_transaction al l ≡ l = unfold in_transaction in if_false l.tx.acking _ l e in
      rw to (record { sound = v; whole = w; bytes = refl })
]
