-- ===== src/Usb/Interrupt/Tests.antt =====
-- src/usb.c: runs of the interrupt's bookkeeping.
use open_gbflash_firmware.Common.{◌≡◌, refl, arith, List, [], ◌∷◌, true, false}
use open_gbflash_firmware.Usb.Interrupt.{
  Irq, Watched, irq_handler, take_irq, take_irqs, irq_arm, fault_spurious, fault_wedge,
}
use open_gbflash_firmware.Usb.Interrupt.Demoted.{Event, steps, IsDemoted, steps-IsDemoted}

abbrev boot : Irq
boot = record {
  on = 0;
  fault = 0;
  entries = 0;
  idle_entries = 0;
  burst = 0;
  events = 0;
  enabled = false;
}

-- Armed: the entry that the probe asks for finds nothing to clear.
arms : irq_arm true (0 ∷ []) boot ≡ record boot { on = 1; entries = 1; enabled = true }
unfolding irq_arm take_irqs take_irq irq_handler
arms = refl

-- A source that nothing clears enters the handler again on each return: the eighth entry gives up, with
-- the interrupt masked and the fault recorded, and arming goes on to mark the layer armed.
arms_masked :
    irq_arm true (0 ∷ 0 ∷ 0 ∷ 0 ∷ 0 ∷ 0 ∷ 0 ∷ 0 ∷ []) boot
    ≡ record boot { on = 1; fault = fault_spurious; entries = 8; enabled = false }
unfolding irq_arm take_irqs take_irq irq_handler
arms_masked = refl

abbrev demoted : Watched
demoted = record {
  irq = record boot { fault = fault_wedge; entries = 5 };
  irq_mark = 5;
  irq_deadline = 4000;
  evt_mark = 0;
  evt_deadline = 15000;
}

-- A tick that would arm, a late one that starts the USB device anew, and an interrupt.
abbrev later : List Event
later =
    Event.tick 4100 true true true (0 ∷ [])
    ∷ Event.tick 16000 true true true (0 ∷ [])
    ∷ Event.restarted
    ∷ Event.interrupt 2
    ∷ []

steps-IsDemoted_example : IsDemoted fault_wedge 5 (steps later demoted).irq
steps-IsDemoted_example =
    steps-IsDemoted fault_wedge 5 later demoted
      (record { real = omega arith; reason = refl; polling = refl; masked = refl; count = refl })
