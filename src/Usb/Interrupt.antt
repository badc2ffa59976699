-- ===== src/Usb/Interrupt.antt =====
-- src/usb.c: the bookkeeping of the interrupt transport: `fw_usb_irq_handler`, `bl_usb_irq_arm`,
-- `bl_usb_irq_disarm`, and what `bl_usb_init` and `bl_usb_poll` do to it. src/main.c:
-- `fw_usb_irq_tick`, its watchdog, and the demotion in `pump`.
use Prim.Native.Nat.{bit_and}
use open_gbflash_firmware.Common.{
  ℕ, ◌+◌, ◌==◌, leb, not, ◌&&◌, ◌||◌, if◌then◌else◌, u8, u32, List, [], ◌∷◌, Bool, true, false,
}
use open_gbflash_firmware.Glue.Link.{expired}
pub mod Demoted
pub mod Tests

-- `enabled` is the interrupt's bit in the NVIC, the other fields are `usb_irq_*` and `usb_event_count`.
pub record Irq : Type 0 where
  pub on : ℕ
  pub fault : ℕ
  pub entries : ℕ
  pub idle_entries : ℕ
  pub burst : ℕ
  pub events : ℕ
  pub enabled : Bool

-- `BL_USB_IRQ_FAULT_*`
abbrev pub fault_none : ℕ
fault_none = 0

abbrev pub fault_vector : ℕ
fault_vector = 1

abbrev pub fault_no_entry : ℕ
fault_no_entry = 2

abbrev pub fault_spurious : ℕ
fault_spurious = 3

abbrev pub fault_wedge : ℕ
fault_wedge = 4

abbrev pub fault_stall : ℕ
fault_stall = 5

abbrev pub fault_reinit : ℕ
fault_reinit = 6

abbrev pub fault_starve : ℕ
fault_starve = 7

abbrev pub idle_limit : ℕ
idle_limit = 8

abbrev pub burst_limit : ℕ
burst_limit = 20000

-- The first reason stays.
abbrev pub give_up : ℕ → Irq → Irq
give_up reason i = record i {
  enabled = false;
  on = 0;
  fault = if i.fault == fault_none then reason else i.fault;
}

-- `usb_service` counts a transfer and a bus reset.
unfoldable pub service : ℕ → Irq → Irq
service fg i = if bit_and fg 0x03 == 0 then i else record i { events = u32 (i.events + 1) }

-- `fg` is R8_USB_INT_FG.
unfoldable pub irq_handler : ℕ → Irq → Irq
unfolding service
irq_handler fg i =
    let i1 = record i { entries = u32 (i.entries + 1); burst = u32 (i.burst + 1) } in
    let i2 = record i1 { idle_entries = u8 (i.idle_entries + 1) } in
    if leb burst_limit i1.burst
    then give_up fault_starve i1
    else if bit_and fg 0x17 == 0
    then if leb idle_limit i2.idle_entries then give_up fault_spurious i2 else i2
    else service fg (record i1 { idle_entries = 0 })

-- The interrupt is taken where it is enabled.
unfoldable pub take_irq : ℕ → Irq → Irq
unfolding irq_handler
take_irq fg i = if i.enabled then irq_handler fg i else i

unfoldable pub take_irqs : List ℕ → Irq → Irq
unfolding take_irq
take_irqs [] i = i
take_irqs (fg ∷ fgs) i = take_irqs fgs (take_irq fg i)

-- `vector_ok` is the test of the vector table; `probe` gives the flags at each entry of the handler
-- until the wait for the first one is over.
unfoldable pub irq_arm : Bool → List ℕ → Irq → Irq
unfolding take_irqs
irq_arm vector_ok probe i =
    let probed = take_irqs probe (record i { enabled = true }) in
    if not (i.on == 0)
    then i
    else if not (i.fault == fault_none)
    then i
    else if not vector_ok
    then record i { fault = fault_vector }
    else if probed.entries == i.entries
    then record probed { enabled = false; fault = fault_no_entry }
    else record probed { idle_entries = 0; burst = 0; on = 1 }

unfoldable pub irq_disarm : ℕ → Irq → Irq
irq_disarm reason i = record i {
  enabled = false;
  on = 0;
  fault = if not (i.on == 0) && i.fault == fault_none then reason else i.fault;
}

-- `bl_usb_init`: the fault survives.
unfoldable pub irq_init : Irq → Irq
irq_init i = record i { enabled = false; on = 0; idle_entries = 0; burst = 0 }

-- `bl_usb_poll`
unfoldable pub irq_poll : ℕ → Irq → Irq
unfolding service
irq_poll fg i = if i.on == 0 then service fg i else record i { burst = 0 }

-- `g_irq_mark`, `g_irq_deadline`, `g_evt_mark`, `g_evt_deadline`
pub record Watched : Type 0 where
  pub irq : Irq
  pub irq_mark : ℕ
  pub irq_deadline : ℕ
  pub evt_mark : ℕ
  pub evt_deadline : ℕ

abbrev pub wedge_ms : ℕ
wedge_ms = 4000

abbrev pub dead_ms : ℕ
dead_ms = 15000

-- The soft step: arm, or demote where bytes are owed and the handler makes no progress.
unfoldable pub soft_step : ℕ → Bool → Bool → Bool → List ℕ → Watched → Watched
unfolding irq_arm irq_disarm
soft_step now tx_pending configured vector_ok probe w =
    let armed = irq_arm vector_ok probe w.irq in
    let kept = record w { irq_mark = w.irq.entries; irq_deadline = u32 (now + wedge_ms) } in
    if w.irq.on == 0
    then if configured && w.irq.fault == fault_none
      then record w { irq = armed; irq_mark = armed.entries; irq_deadline = u32 (now + wedge_ms) }
      else w
    else if not (w.irq.entries == w.irq_mark) || not tx_pending
    then kept
    else if expired now w.irq_deadline
    then record w { irq = irq_disarm fault_wedge w.irq }
    else w

unfoldable pub irq_tick : ℕ → Bool → Bool → Bool → List ℕ → Watched → Watched
unfolding soft_step irq_disarm irq_init
irq_tick now tx_pending configured vector_ok probe w =
    if not (w.irq.events == w.evt_mark) || not tx_pending
    then soft_step now tx_pending configured vector_ok probe
        (record w { evt_mark = w.irq.events; evt_deadline = u32 (now + dead_ms) })
    else if expired now w.evt_deadline
    then record w {
      evt_deadline = u32 (now + dead_ms);
      irq = irq_init (irq_disarm fault_reinit w.irq);
    }
    else soft_step now tx_pending configured vector_ok probe w

-- `pump`, where the host has stopped reading.
unfoldable pub irq_stall : Irq → Irq
unfolding irq_disarm
irq_stall i = if i.on == 0 then i else irq_disarm fault_stall i
