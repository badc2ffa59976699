-- ===== src/Flash/Wait.antt =====
-- src/main.c: `agb_status_wait` and `dmg_status_wait`, with FW_STATUS_WAIT_TIGHT, FW_DMG_POLL_TIGHT and
-- FW_DMG_WRITE_BURST on and FW_DMG_POLL_STRIDE 1. Each loop recurs on the turns to come; `none` means
-- that it still waits when they run out.
use Prim.Native.Nat.{bit_and}
use open_gbflash_firmware.Common.{
  ℕ, ◌+◌, ◌==◌, not, ◌&&◌, if◌then◌else◌, u8, u32, List, [], ◌∷◌, Option, some, none, Bool,
}
use open_gbflash_firmware.Proto.State.{FwState}
use open_gbflash_firmware.Glue.Link.{expired}
use open_gbflash_firmware.Flash.Bus.{Access, Poll, Cart, ◌▹◌}

-- What a wait or a chunk leaves: the value that goes to `status_register` if the chip timed out.
pub record Verdict : Type 0 where
  pub timed_out : Option ℕ
  pub cart : Cart

abbrev pub passed : Cart → Option Verdict
passed c = some (record { timed_out = none; cart = c })

abbrev pub gave_up : ℕ → Cart → Option Verdict
gave_up v c = some (record { timed_out = some v; cart = c })

abbrev pub is_amd : FwState → Bool
is_amd st = st.flash_command_set == 1

-- AMD answers with the word itself, Intel and Sharp with a status.
abbrev pub is_done : FwState → ℕ → ℕ → Bool
is_done st want v =
    if is_amd st
    then v == want
    else bit_and v st.status_reg_mask == bit_and st.status_reg_value st.status_reg_mask

abbrev pub is_sharp : FwState → Bool
is_sharp st = not (st.flash_sharp_verify_sr == 0)

abbrev pub wait_ms : ℕ
wait_ms = 500

abbrev pub ask : FwState → ℕ → Cart → Cart
ask st a c =
    if is_sharp st
    then c ▹ Access.agb_write a 0x70 ▹ Access.delay_nops 56 ▹ Access.agb_peek a
    else c ▹ Access.agb_peek a

-- `for (;;)`
unfoldable pub agb_wait : List Poll → FwState → ℕ → ℕ → ℕ → Cart → Option Verdict
agb_wait [] st deadline a want c = none
agb_wait (t ∷ ts) st deadline a want c =
    let c1 = record (ask st a c) { turns = ts } in
    let c2 = if is_sharp st then c1 else c1 ▹ Access.agb_peek a in
    let rest = agb_wait ts st deadline a want c2 in
    if is_done st want t.first
    then passed c1
    else if expired t.now deadline
    then gave_up t.first c1
    else if not (is_sharp st) && is_done st want t.again
    then passed c2
    else rest

-- The deadline of a wait that starts with the first of these turns.
abbrev pub deadline_of : List Poll → ℕ
deadline_of [] = 0
deadline_of (t ∷ ts) = u32 (t.start + wait_ms)

unfoldable pub agb_status_wait : FwState → ℕ → ℕ → Cart → Option Verdict
unfolding agb_wait
agb_status_wait st a want c = agb_wait c.turns st (deadline_of c.turns) a want c

-- The tight loop of the AMD command set.
unfoldable pub dmg_poll : List Poll → ℕ → ℕ → ℕ → Cart → Option Verdict
dmg_poll [] deadline a want c = none
dmg_poll (t ∷ ts) deadline a want c =
    let c1 = record (c ▹ Access.poll_read a) { turns = ts } in
    let rest = dmg_poll ts deadline a want c1 in
    if u8 t.first == want
    then passed (c1 ▹ Access.poll_close)
    else if expired t.now deadline
    then gave_up (u8 t.first) (c1 ▹ Access.poll_close)
    else rest

-- The other loop.
unfoldable pub dmg_wait : List Poll → FwState → ℕ → ℕ → ℕ → Cart → Option Verdict
dmg_wait [] st deadline a want c = none
dmg_wait (t ∷ ts) st deadline a want c =
    let c1 = record (c ▹ Access.dmg_read a) { turns = ts } in
    let rest = dmg_wait ts st deadline a want c1 in
    if is_done st want (u8 t.first)
    then passed c1
    else if expired t.now deadline
    then gave_up (u8 t.first) c1
    else rest

unfoldable pub dmg_status_wait : FwState → ℕ → ℕ → Cart → Option Verdict
unfolding dmg_poll dmg_wait
dmg_status_wait st a want c =
    if is_amd st
    then dmg_poll c.turns (deadline_of c.turns) a want (c ▹ Access.poll_open)
    else dmg_wait c.turns st (deadline_of c.turns) a want c
