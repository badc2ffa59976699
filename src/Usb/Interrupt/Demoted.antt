-- ===== src/Usb/Interrupt/Demoted.antt =====
-- src/usb.c, src/main.c: a layer that has fallen back to polling stays there.
use open_gbflash_firmware.Common.{
  ℕ, ◌+◌, ◌==◌, not, ◌&&◌, ◌||◌, if◌then◌else◌, u32, ◌≡◌, ◌≢◌, refl, sym, ◌∙◌, ap, ap₂, arith,
  if_true, if_false, subst, eq→==, List, [], ◌∷◌, Bool, true, false,
}
use open_gbflash_firmware.Glue.Link.{expired}
use open_gbflash_firmware.Usb.Interrupt.{
  Irq, Watched, service, take_irq, irq_poll, irq_disarm, irq_init, soft_step, irq_tick, irq_stall,
  dead_ms,
}

-- What can happen to the layer: the interrupt line, a poll, a tick of the watchdog, a host that stops
-- reading, a new start.
pub data Event : Type 0 where
  interrupt poll : ℕ → Event
  tick : ℕ → Bool → Bool → Bool → List ℕ → Event
  stalled restarted : Event

unfoldable pub step : Event → Watched → Watched
unfolding take_irq irq_poll irq_tick irq_stall irq_init
step (Event.interrupt fg) w = record w { irq = take_irq fg w.irq }
step (Event.poll fg) w = record w { irq = irq_poll fg w.irq }
step (Event.tick now tx_pending configured vector_ok probe) w =
    irq_tick now tx_pending configured vector_ok probe w
step Event.stalled w = record w { irq = irq_stall w.irq }
step Event.restarted w = record w { irq = irq_init w.irq }

unfoldable pub steps : List Event → Watched → Watched
unfolding step
steps [] w = w
steps (e ∷ es) w = steps es (step e w)

-- Demoted for the reason `fault` after `entries` entries of the handler: polling, with the interrupt masked.
pub record IsDemoted (fault entries : ℕ) (i : Irq) : Type 0 where
  pub real : fault ≢ 0
  pub reason : i.fault ≡ fault
  pub polling : i.on ≡ 0
  pub masked : i.enabled ≡ false
  pub count : i.entries ≡ entries

module _ (fault entries : ℕ) where
  if-IsDemoted :
      (b : Bool) {x y : Irq}
      → IsDemoted fault entries x
      → IsDemoted fault entries y
      → IsDemoted fault entries (if b then x else y)
  if-IsDemoted true p q = p
  if-IsDemoted false p q = q

  if-Watched :
      (b : Bool) (x y : Watched)
      → IsDemoted fault entries x.irq
      → IsDemoted fault entries y.irq
      → IsDemoted fault entries (if b then x else y).irq
  if-Watched true x y p q = p
  if-Watched false x y p q = q

  service-IsDemoted :
      (fg : ℕ) (i : Irq) → IsDemoted fault entries i → IsDemoted fault entries (service fg i)
  unfolding service
  service-IsDemoted fg i d = if-IsDemoted _ d (record {
    real = d.real;
    reason = d.reason;
    polling = d.polling;
    masked = d.masked;
    count = d.count;
  })

  irq_disarm-IsDemoted :
      (r : ℕ) (i : Irq) → IsDemoted fault entries i → IsDemoted fault entries (irq_disarm r i)
  unfolding irq_disarm
  irq_disarm-IsDemoted r i d =
      let off : (not (i.on == 0) && i.fault == 0) ≡ false =
        ap₂ ◌&&◌ (ap not (eq→== i.on 0 d.polling)) refl in
      record {
        real = d.real;
        reason = if_false (not (i.on == 0) && i.fault == 0) r i.fault off ∙ d.reason;
        polling = refl;
        masked = refl;
        count = d.count;
      }

  irq_init-IsDemoted : (i : Irq) → IsDemoted fault entries i → IsDemoted fault entries (irq_init i)
  unfolding irq_init
  irq_init-IsDemoted i d = record {
    real = d.real;
    reason = d.reason;
    polling = refl;
    masked = refl;
    count = d.count;
  }

  soft_step-IsDemoted :
      (now : ℕ) (tx_pending configured vector_ok : Bool) (probe : List ℕ) (w : Watched)
      → IsDemoted fault entries w.irq
      → IsDemoted fault entries (soft_step now tx_pending configured vector_ok probe w).irq
  unfolding soft_step
  soft_step-IsDemoted now tx_pending configured vector_ok probe w d =
      let refused : (configured && w.irq.fault == 0) ≡ false = never configured in
      let e =
        if_true (w.irq.on == 0) _ _ (eq→== w.irq.on 0 d.polling)
        ∙ if_false (configured && w.irq.fault == 0) _ w refused in
      subst (λ (x : Watched). IsDemoted fault entries x.irq) (sym e) d
    where
      never : (b : Bool) → (b && w.irq.fault == 0) ≡ false
      never true = ground (arith, d.real, d.reason)
      never false = refl

  irq_tick-IsDemoted :
      (now : ℕ) (tx_pending configured vector_ok : Bool) (probe : List ℕ) (w : Watched)
      → IsDemoted fault entries w.irq
      → IsDemoted fault entries (irq_tick now tx_pending configured vector_ok probe w).irq
  unfolding irq_tick
  irq_tick-IsDemoted now tx_pending configured vector_ok probe w d =
      if-Watched (not (w.irq.events == w.evt_mark) || not tx_pending) _ _
        (soft_step-IsDemoted now tx_pending configured vector_ok probe
          (record w { evt_mark = w.irq.events; evt_deadline = u32 (now + dead_ms) }) d)
        (if-Watched (expired now w.evt_deadline) _ _
          (irq_init-IsDemoted _ (irq_disarm-IsDemoted 6 w.irq d))
          (soft_step-IsDemoted now tx_pending configured vector_ok probe w d))

  step-IsDemoted :
      (e : Event) (w : Watched)
      → IsDemoted fault entries w.irq
      → IsDemoted fault entries (step e w).irq
  unfolding step take_irq irq_poll irq_stall
  step-IsDemoted (Event.interrupt fg) w d =
      subst (IsDemoted fault entries) (sym (if_false w.irq.enabled _ w.irq d.masked)) d
  step-IsDemoted (Event.poll fg) w d =
      subst (IsDemoted fault entries)
        (sym (if_true (w.irq.on == 0) _ _ (eq→== w.irq.on 0 d.polling)))
        (service-IsDemoted fg w.irq d)
  step-IsDemoted (Event.tick now tx_pending configured vector_ok probe) w d =
      irq_tick-IsDemoted now tx_pending configured vector_ok probe w d
  step-IsDemoted Event.stalled w d =
      subst (IsDemoted fault entries)
        (sym (if_true (w.irq.on == 0) w.irq _ (eq→== w.irq.on 0 d.polling))) d
  step-IsDemoted Event.restarted w d = irq_init-IsDemoted w.irq d

-- A layer that has fallen back to polling for a reason stays there: whatever happens to it, restarts of
-- the USB device included, it goes on polling with the interrupt masked, the reason stays the same and
-- the handler is never entered again.
pub steps-IsDemoted :
    (fault entries : ℕ) (es : List Event) (w : Watched)
    → IsDemoted fault entries w.irq
    → IsDemoted fault entries (steps es w).irq
unfolding steps
steps-IsDemoted fault entries [] w d = d
steps-IsDemoted fault entries (e ∷ es) w d =
    steps-IsDemoted fault entries es (step e w) (step-IsDemoted fault entries e w d)
