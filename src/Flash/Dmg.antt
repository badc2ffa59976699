-- ===== src/Flash/Dmg.antt =====
-- src/main.c: `dmg_apply_bank_change`, `dmg_program_unbuffered`, `dmg_program_chunk` and
-- `dmg_stream_pump`, with FW_DMG_WRITE_BURST, FW_DMG_BUF_BURST, FW_DMG_UNLOCK_BYPASS, FW_DMG_SKIP_FF and
-- FW_DMG_WRITE_STREAM on. `we_is_wr` is what `g_dmg_we_is_wr()` (src/cart.c) returns.
use open_gbflash_firmware.Common.{
  ℕ, zero, suc, ◌+◌, ◌-◌, ◌==◌, ltb, not, ◌&&◌, ◌||◌, if◌then◌else◌, u8, u32, sub32, Array, from,
  Option, some, Bool, ◌>>=◌,
}
use open_gbflash_firmware.Proto.State.{FwState}
use open_gbflash_firmware.Usb.Queue.{to_list}
use open_gbflash_firmware.Flash.Bus.{Access, Cart, ◌▹◌}
use open_gbflash_firmware.Flash.Wait.{Verdict, passed, is_amd, is_sharp, dmg_status_wait}
use open_gbflash_firmware.Flash.Loops.{stream_loop}
use open_gbflash_firmware.Flash.Agb.{Job, pumped, is_agb, then_wait}

-- Entries `k` of the host's table and on, `n` of them.
unfoldable pub bank_entries : ℕ → ℕ → FwState → ℕ → Cart → Cart
bank_entries zero k st index c = c
bank_entries (suc n) k st index c =
    let a = if st.dmg_bank_cmd_type k == 0 then st.dmg_bank_cmd_val k else index in
    let v = if st.dmg_bank_cmd_type k == 0 then u8 index else u8 (st.dmg_bank_cmd_val k) in
    bank_entries n (k + 1) st index (c ▹ Access.dmg_write a v st.dmg_write_cs_pulse)

unfoldable pub dmg_apply_bank_change : FwState → ℕ → Cart → Cart
unfolding bank_entries
dmg_apply_bank_change st index c =
    if st.dmg_bank_cmd_count == 0
    then c ▹ Access.dmg_write 0x2000 (u8 index) st.dmg_write_cs_pulse
    else bank_entries st.dmg_bank_cmd_count 0 st index c

-- `burst_ok` and `buf_burst`: plain /WR, no /CS pulse, no bank 1, no reset pulse.
abbrev pub burst_ok : Bool → FwState → Bool
burst_ok we_is_wr st =
    st.flash_commands_bank_1 == 0
    && st.dmg_write_cs_pulse == 0
    && st.flash_pulse_reset == 0
    && we_is_wr

abbrev pub flash : FwState → ℕ → ℕ → Cart → Cart
flash st a v c = c ▹ Access.dmg_flash_write a v st.dmg_write_cs_pulse

-- The writes of one AMD byte.
unfoldable pub dmg_amd_writes : Bool → FwState → ℕ → ℕ → Cart → Cart
unfolding dmg_apply_bank_change
dmg_amd_writes we_is_wr st a d c =
    let bank1 = not (st.flash_commands_bank_1 == 0) in
    let c1 = if bank1 then dmg_apply_bank_change st 1 c else c in
    let c2 = flash st (st.flash_cmd_addr 2) (u8 (st.flash_cmd_val 2)) (
      flash st (st.flash_cmd_addr 1) (u8 (st.flash_cmd_val 1))
        (flash st (st.flash_cmd_addr 0) (u8 (st.flash_cmd_val 0)) c1)) in
    let c3 = if bank1 then dmg_apply_bank_change st st.last_bank_accessed c2 else c2 in
    let c4 =
      if burst_ok we_is_wr st
      then c1 ▹ Access.bypass_byte (st.flash_cmd_val 2) a d
      else flash st a d c3 in
    if st.flash_pulse_reset == 0
    then c4
    else (let c5 = c4 ▹ Access.pulse_reset in
        if st.dmg_rom_bank == 0 then c5 else dmg_apply_bank_change st st.last_bank_accessed c5)

unfoldable pub dmg_byte : Bool → FwState → ℕ → ℕ → Cart → Option Verdict
unfolding dmg_amd_writes dmg_status_wait
dmg_byte we_is_wr st a d c =
    if is_amd st
    then dmg_status_wait st a d (dmg_amd_writes we_is_wr st a d c)
    else then_wait (dmg_status_wait st a d (flash st a (u8 (st.flash_cmd_val 0)) c))
        (λ e. dmg_status_wait st a d (flash st a d (flash st a (u8 (st.flash_cmd_val 1)) e)))

-- `for (i = 0; i < n; i++)`, `k` bytes to go.
unfoldable pub dmg_bytes : ℕ → Bool → FwState → Array → ℕ → Cart → Option Verdict
unfolding dmg_byte
dmg_bytes zero we_is_wr st data_bytes i c = passed c
dmg_bytes (suc k) we_is_wr st data_bytes i c =
    then_wait
      (if data_bytes i == 0xFF
        then passed c
        else dmg_byte we_is_wr st (u32 (st.address + i)) (data_bytes i) c)
      (dmg_bytes k we_is_wr st data_bytes (i + 1))

-- The loop between the entry to and the exit from the unlock bypass.
unfoldable pub dmg_program_unbuffered : Bool → FwState → Array → ℕ → Cart → Option Verdict
unfolding dmg_bytes
dmg_program_unbuffered we_is_wr st data_bytes n c =
    let bypass = is_amd st && burst_ok we_is_wr st in
    let leave = λ (d : Cart).
      (if bypass then d ▹ Access.bypass_exit st.address else d) ▹ Access.burst_release in
    dmg_bytes n we_is_wr st data_bytes 0 (if bypass then c ▹ Access.bypass_enter else c) >>= λ v.
    some (record v { cart = leave v.cart })

-- `for (x = 0; x < have; x++)`, `k` bytes to go.
unfoldable pub flash_bytes : ℕ → FwState → ℕ → Array → Cart → Cart
flash_bytes zero st a data_bytes c = c
flash_bytes (suc k) st a data_bytes c =
    flash_bytes k st (u32 (a + 1)) (from data_bytes 1) (flash st a (data_bytes 0) c)

-- The load of an AMD buffer, in one burst where that is possible.
unfoldable pub dmg_amd_load : Bool → FwState → ℕ → Array → ℕ → Cart → Cart
unfolding flash_bytes
dmg_amd_load we_is_wr st sa data_bytes have c =
    if burst_ok we_is_wr st
    then c ▹ Access.amd_buffer sa (to_list have data_bytes)
    else flash st sa (u8 (st.flash_cmd_val 5)) (
        flash_bytes have st sa data_bytes (
          flash st sa (u8 (sub32 have 1)) (
            flash st sa (u8 (st.flash_cmd_val 2)) (
              flash st (st.flash_cmd_addr 1) (u8 (st.flash_cmd_val 1))
                (flash st (st.flash_cmd_addr 0) (u8 (st.flash_cmd_val 0)) c)))))

unfoldable pub dmg_program_chunk : Bool → FwState → Array → ℕ → ℕ → Cart → Option Verdict
unfolding dmg_amd_load flash_bytes dmg_status_wait
dmg_program_chunk we_is_wr st data_bytes off have c =
    let sa = u32 (st.address + off) in
    let p = from data_bytes off in
    let head = flash st sa (u8 (st.flash_cmd_val 0)) c in
    let ready =
      if is_sharp st then passed (head ▹ Access.delay_nops 320) else dmg_status_wait st sa 0 head in
    if is_amd st
    then dmg_status_wait st (u32 (sa + have - 1)) (p (have - 1))
        (dmg_amd_load we_is_wr st sa p have c)
    else then_wait
        (then_wait ready (λ d. dmg_status_wait st sa 0 (
          flash st sa (u8 (st.flash_cmd_val 3))
            (flash_bytes have st sa p (flash st sa (u8 (sub32 have 1)) d)))))
        (λ d. passed (flash st sa (u8 (st.flash_cmd_val 4)) d))

unfoldable pub dmg_stream_pump : Bool → ℕ → Array → Job → Option Job
unfolding stream_loop dmg_program_chunk
dmg_stream_pump we_is_wr filled data_bytes j =
    let st = j.st in
    if filled == 0
      || (is_agb st.mode || not (st.flash_method == 2) || ltb st.buffer_size 1)
      || not (st.program_stream_err == 0)
    then some j
    else (stream_loop (dmg_program_chunk we_is_wr st data_bytes) 1 st.buffer_size filled filled
          st.program_done st.program_streamed j.cart
        >>= λ s. some (pumped st s))
