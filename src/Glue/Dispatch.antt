-- ===== src/Glue/Dispatch.antt =====
-- src/lk_glue.c: `fw_lk_routes`, `lk_admit`, `lk_refuse` and `fw_lk_dispatch`. The LK core is another
-- project's: `lk_loop` is an argument, any program that talks through the seam's callbacks.
use open_gbflash_firmware.Common.{
  ℕ, zero, suc, ◌-◌, ◌*◌, ◌==◌, ltb, leb, min, not, ◌&&◌, if◌then◌else◌, flag, List, [], ◌∷◌, elem,
  Option, some, Bool, true, false, ◌>>=◌,
}
use open_gbflash_firmware.Proto.State.{FwState, Mode, ack_error, fw_batch_max}
use open_gbflash_firmware.Glue.Seam.{Seam}
use open_gbflash_firmware.Glue.Link.{conn_recv, conn_send, conn_send_raw, delay_ms, cart_wait_ready}
use open_gbflash_firmware.Glue.Mirror.{Core, LkVars, mirror_to_lk, mirror_from_lk}

abbrev pub is_dmg : Mode → Bool
is_dmg Mode.dmg = true
is_dmg _ = false

-- FW_LK_ROUTE is on and FW_LK_ROUTE_DMG_READ off, as shipped.
unfoldable pub lk_routes : FwState → ℕ → Bool
lk_routes st op =
    is_dmg st.mode && elem op (0xB2 ∷ 0xB3 ∷ 0xB4 ∷ 0xB5 ∷ 0xB6 ∷ 0xB7 ∷ 0xB9 ∷ 0xD1 ∷ 0xD4 ∷ [])

-- What `fw_cart_voltage` (src/cart.c) leaves on the 5 V select pin, and what it returns.
unfoldable pub cart_voltage : Bool → Bool → Bool × ℕ
cart_voltage five dmg = if five && dmg then (true, 1) else (false, flag (not five))

-- `fw_lk_voltage_5v`, with the state registered.
unfoldable pub lk_voltage_5v : Seam → Seam
unfolding cart_voltage
lk_voltage_5v s =
    let r = cart_voltage true (is_dmg s.st.mode) in
    record s { vsel = r.0; st = record s.st { voltage_is_five = r.1 } }

-- A run of the LK core, as its callbacks see it.
pub data Script : Type 0 where
  finish : LkVars → Script
  recv : ℕ → (List ℕ → Script) → Script
  send : List ℕ → Script → Script
  voltage_5v : Script → Script
  delay : ℕ → Script → Script

pub record Ran : Type 0 where
  pub vars : LkVars
  pub seam : Seam

unfoldable pub run_script : Script → Seam → Option Ran
unfolding lk_voltage_5v
run_script (finish v) s = some (record { vars = v; seam = s })
run_script (recv n next) s = conn_recv n s >>= λ r. run_script (next r.bytes) r.seam
run_script (send xs next) s = conn_send xs s >>= run_script next
run_script (voltage_5v next) s = run_script next (lk_voltage_5v s)
run_script (delay ms next) s = delay_ms ms s >>= run_script next

-- `while ((drain != 0u) && !g_recv_short)`; every turn takes at least one byte off `drain`.
unfoldable pub drain_bytes : ℕ → ℕ → Seam → Option Seam
drain_bytes zero drain s = some s
drain_bytes (suc fuel) drain s =
    if not (drain == 0) && not s.recv_short
    then (conn_recv (min drain 16) s >>= λ r. drain_bytes fuel (drain - min drain 16) r.seam)
    else some s

unfoldable pub lk_refuse : ℕ → Seam → Option Seam
unfolding drain_bytes
lk_refuse drain s = drain_bytes drain drain s >>= conn_send_raw (ack_error ∷ [])

-- FW_LK_BATCH_ADMIT: what LK's tables hold behind the offset FW_LK_BATCH_BASE, and FW_BATCH_MAX.
abbrev pub batch_admit : Core → ℕ
batch_admit core = min (min core.flashcmd_addr_n core.flashcmd_data_n - 16) fw_batch_max

-- What `lk_admit` leaves, and its verdict.
pub record Admitted : Type 0 where
  pub ok : Bool
  pub seam : Seam

abbrev pub refused : Seam → Option Admitted
refused s = some (record { ok = false; seam = s })

abbrev pub admitted : Seam → Option Admitted
admitted s = some (record { ok = true; seam = s })

abbrev pub second : List ℕ → ℕ
second (x ∷ y ∷ ys) = y
second _ = 0

-- The batch's header has been read.
unfoldable pub admit_batch : Core → List ℕ → Seam → Option Admitted
unfolding lk_refuse
admit_batch core hdr s =
    if not s.recv_short && leb (second hdr) (batch_admit core)
    then admitted (record s { push = hdr })
    else lk_refuse (second hdr * 6) s >>= refused

unfoldable pub lk_admit : Core → ℕ → Seam → Option Admitted
unfolding lk_refuse admit_batch
lk_admit core op s =
    if elem op (0xB3 ∷ 0xB6 ∷ 0xB7 ∷ 0xB9 ∷ [])
    then if ltb core.data_buffer_size s.st.transfer_size
      then lk_refuse s.st.transfer_size s >>= refused
      else admitted s
    else if not (op == 0xD4)
    then admitted s
    else conn_recv 2 s >>= λ r. admit_batch core r.bytes r.seam

-- What a dispatch leaves, with the bytes of the tail that it used.
pub record Dispatched : Type 0 where
  pub vars : LkVars
  pub seam : Seam
  pub used : ℕ

abbrev pub closed : LkVars → Seam → Dispatched
closed v s = record { vars = v; seam = record s { pend = []; pend_used = 0 }; used = s.pend_used }

-- After `lk_loop`: the read-back, and the error byte of a truncated receive.
unfoldable pub settle : Ran → Option Dispatched
settle r =
    let s = record r.seam { st = mirror_from_lk r.vars r.seam.st } in
    if s.recv_short && not s.send_stall
    then (conn_send_raw (ack_error ∷ []) s >>= λ t. some (closed r.vars t))
    else some (closed r.vars s)

unfoldable pub run_core : Core → (ℕ → LkVars → Script) → ℕ → LkVars → Seam → Option Dispatched
unfolding run_script settle
run_core core lk_loop op v s = do
  t ← cart_wait_ready s
  r ← run_script (lk_loop op (mirror_to_lk core t.st v)) t
  settle r

-- `fw_lk_dispatch`
unfoldable pub lk_dispatch :
    Core → (ℕ → LkVars → Script) → ℕ → List ℕ → LkVars → Seam → Option Dispatched
unfolding lk_admit run_core
lk_dispatch core lk_loop op tail v s =
    let fresh = record s {
      pend = tail;
      pend_used = 0;
      push = [];
      recv_short = false;
      send_stall = false;
    } in
    lk_admit core op fresh >>= λ a.
    if a.ok then run_core core lk_loop op v a.seam else some (closed v a.seam)
