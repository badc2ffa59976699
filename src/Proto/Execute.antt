-- ===== src/Proto/Execute.antt =====
-- src/proto.c: `fw_proto_fw_info` and `execute`, the handlers of commands without a payload. The
-- switch is cut into three consecutive parts. FW_DMG_PROFILE and FW_CLKPROBE are off, as shipped.
use open_gbflash_firmware.Common.{
  ℕ, zero, suc, ◌+◌, ◌*◌, ◌/◌, ◌%◌, ◌^◌, ◌-◌, ◌==◌, ltb, not, if◌then◌else◌, flag, u8, u16, join16,
  Array, update, List, [], ◌∷◌, length, copy_bytes, Bool, true, false,
}
use open_gbflash_firmware.Proto.Command.{Command, decode, known_opcode}
use open_gbflash_firmware.Proto.State.{
  FwState, Mode, Parser, Outcome, reply_byte, silent, ack_ok, ack_error, fw_cart_latch,
  fw_payload_max,
}
use open_gbflash_firmware.Proto.Variable.{get_variable, set_variable}
use open_gbflash_firmware.Proto.Blob.{be32, put_be32, put_be16, get_var_state}

-- FW_PCB_NAME, "Open-GBFlash".
abbrev pcb_name : List ℕ
pcb_name = b'O' ∷ b'p' ∷ b'e' ∷ b'n' ∷ b'-' ∷ b'G' ∷ b'B' ∷ b'F' ∷ b'l' ∷ b'a' ∷ b's' ∷ b'h' ∷ []

abbrev fw_timestamp : ℕ
fw_timestamp = 1789512082

-- `out[n++] = …` for each byte of a list.
put_bytes : Array → ℕ → List ℕ → Array
put_bytes o n [] = o
put_bytes o n (x ∷ xs) = put_bytes (update o n x) (n + 1) xs

fw_info : FwState → Array → Outcome
unfolding put_bytes put_be16 put_be32
fw_info s o =
    let head = put_be16 (update (update o 0 8) 1 b'L') 2 15 in
    let stamp = put_be32 (update head 4 s.pcb_ver) 5 fw_timestamp in
    let name = put_bytes (update stamp 9 (length pcb_name)) 10 pcb_name in
    let n : ℕ = 10 + length pcb_name in
    record { st = s; out = update (update name n 1) (n + 1) 1; count = n + 2 }

-- The six (address, value) pairs of SET_FLASH_CMD; `k` are left, starting at pair `i`.
unfoldable pub read_flash_cmds : ℕ → ℕ → FwState → Array → FwState
unfolding be32
read_flash_cmds zero i st a = st
read_flash_cmds (suc k) i st a =
    let e = 3 + i * 6 in
    read_flash_cmds k (i + 1)
      (record st {
        flash_cmd_addr = update st.flash_cmd_addr i (be32 a e);
        flash_cmd_val = update st.flash_cmd_val i (u16 (join16 (a (e + 4)) (a (e + 5))));
      })
      a

set_flash_cmd : FwState → Array → FwState
unfolding read_flash_cmds
set_flash_cmd s a =
    read_flash_cmds 6 0
      (record s {
        flash_command_set = a 0;
        flash_method = a 1;
        flash_we_pin = a 2;
        flash_we_pin_var = a 2;
        we_pin_requested = 1;
      })
      a

-- The single-write commands; `is_agb` is the test on `P.op`.
flash_write : Bool → FwState → Array → FwState
unfolding be32
flash_write is_agb s a = record s {
  flash_write_requested = 1;
  flash_write_is_agb = flag is_agb;
  flash_write_addr = be32 a 0;
  flash_write_val = if is_agb then u16 (join16 (a 4) (a 5)) else u16 (a 4);
}

-- `if (st->setpin_mask & 0x1u)`
set_pin : FwState → Array → FwState
unfolding be32
set_pin s a =
    let t = record s { setpin_mask = be32 a 0; setpin_high = a 4 } in
    if be32 a 0 % 2 == 1
    then record t { power_requested = 1; power_target = flag (not (a 4 == 0)) }
    else t

bootup : Mode → FwState → FwState
bootup Mode.agb s = record s { bootup_requested = 1 }
bootup _ s = s

-- Always eight bytes; in AGB mode main.c fills them.
read_gpio_rtc : Mode → FwState → Array → Outcome
unfolding put_bytes
read_gpio_rtc Mode.agb s o = record { st = record s { rtc_read_requested = 1 }; out = o; count = 8 }
read_gpio_rtc _ s o = record {
  st = s;
  out = put_bytes o 0 (0x80 ∷ 0 ∷ 0 ∷ 0 ∷ 0 ∷ 0 ∷ 0 ∷ 0 ∷ []);
  count = 8;
}

dump_payload : FwState → Parser → Array → Outcome
unfolding copy_bytes
dump_payload s p o =
    let n = if ltb fw_payload_max s.transfer_size then fw_payload_max else s.transfer_size in
    record {
      st = s;
      out =
          copy_bytes n (update (update o 0 (u8 (p.last_pay_got / 2 ^ 8))) 1 (u8 p.last_pay_got)) 2
            p.pay;
      count = n + 2;
    }

-- `default:`, and the opcodes with no case.
unfoldable pub refuse_known : FwState → Parser → Array → Outcome
unfolding known_opcode
refuse_known s p o = if known_opcode p.op then reply_byte s o ack_error else silent s o

-- From CMD_RESYNC to the end of the switch; the flag is `terminator_due`.
execute_tail : Command → ℕ → FwState → Parser → Array → Outcome
unfolding be32 dump_payload refuse_known get_var_state
execute_tail Command.resync due s p o =
    if not (due == 0) then silent (record s { page_end_requested = 1 }) o else reply_byte s o ack_ok
execute_tail Command.null due s p o = reply_byte s o ack_ok
execute_tail Command.calc_crc32 due s p o =
    silent (record s { crc_len = be32 p.arg 0; crc_requested = 1 }) o
execute_tail Command.agb_cart_read_3d_memory due s p o =
    silent (record s { read_requested = 1; read_is_3d = 1; page_terminator_due = 1 }) o
execute_tail Command.agb_cart_read_sram due s p o =
    silent (record s { read_requested = 1; read_is_save = 1 }) o
execute_tail Command.agb_cart_read_eeprom due s p o =
    silent (record s { eeprom_sel = p.arg 0; read_requested = 1; read_is_eeprom = 1 }) o
execute_tail Command.dmg_set_bank_change_cmd due s p o =
    reply_byte (record s { dmg_bank_cmd_count = 0 }) o ack_ok
execute_tail Command.fw_dump_payload due s p o = dump_payload s p o
execute_tail Command.debug due s p o = reply_byte (record s { debug_requested = 1 }) o ack_ok
execute_tail Command.get_var_state due s p o = get_var_state s o
execute_tail _ due s p o = refuse_known s p o

-- From CMD_BOOTLOADER_RESET to CMD_QUERY_CART_PWR.
execute_mode : Command → ℕ → FwState → Parser → Array → Outcome
unfolding execute_tail set_pin bootup read_gpio_rtc get_variable set_variable
execute_mode Command.bootloader_reset due s p o =
    reply_byte (record s { reset_requested = 1 }) o ack_ok
execute_mode Command.get_variable due s p o = record {
  st = s;
  out = put_be32 o 0 (get_variable s (p.arg 0) (be32 p.arg 1));
  count = 4;
}
execute_mode Command.set_variable due s p o =
    reply_byte (set_variable s (p.arg 0) (be32 p.arg 1) (be32 p.arg 5)) o ack_ok
execute_mode Command.set_mode_agb due s p o =
    reply_byte
      (record s { mode = Mode.agb; cart_mode = 2; voltage_requested = 1; voltage_five = 0 }) o
      ack_ok
execute_mode Command.set_mode_dmg due s p o =
    reply_byte (record s { mode = Mode.dmg; cart_mode = 1 }) o ack_ok
execute_mode Command.set_voltage_3_3v due s p o =
    reply_byte (record s { voltage_requested = 1; voltage_five = 0 }) o ack_ok
execute_mode Command.set_voltage_5v due s p o =
    reply_byte (record s { voltage_requested = 1; voltage_five = 1 }) o ack_ok
execute_mode Command.enable_pullups due s p o =
    reply_byte (record s { pullups_enabled = 1; pullup_requested = 1 }) o ack_ok
execute_mode Command.disable_pullups due s p o =
    reply_byte (record s { pullups_enabled = 0; pullup_requested = 1 }) o ack_ok
execute_mode Command.set_addr_as_inputs due s p o =
    reply_byte (record s { tristate_requested = 1 }) o ack_ok
execute_mode Command.set_pin due s p o = reply_byte (set_pin s p.arg) o ack_ok
execute_mode Command.agb_bootup_sequence due s p o = reply_byte (bootup s.mode s) o ack_ok
execute_mode Command.agb_read_gpio_rtc due s p o = read_gpio_rtc s.mode s o
execute_mode Command.cart_pwr_on due s p o =
    reply_byte (record s { power_requested = 1; power_target = 1 }) o ack_ok
execute_mode Command.cart_pwr_off due s p o =
    reply_byte (record s { power_requested = 1; power_target = 0 }) o ack_ok
execute_mode Command.query_cart_pwr due s p o = reply_byte s o s.cart_powered
execute_mode c due s p o = execute_tail c due s p o

-- From CMD_QUERY_FW_INFO to CMD_FW_BENCH_TX.
unfoldable pub execute_cmd : Command → ℕ → FwState → Parser → Array → Outcome
unfolding fw_info set_flash_cmd flash_write be32 execute_mode
execute_cmd Command.query_fw_info due s p o = fw_info s o
execute_cmd Command.ping due s p o = reply_byte s o (u8 (2 ^ 8 - 1 - u8 (p.arg 0)))
execute_cmd Command.get_switch_state due s p o = reply_byte s o 0
execute_cmd Command.set_flash_cmd due s p o = reply_byte (set_flash_cmd s p.arg) o ack_ok
execute_cmd Command.dmg_flash_write_byte due s p o = reply_byte (flash_write false s p.arg) o ack_ok
execute_cmd Command.agb_cart_write due s p o = reply_byte (flash_write true s p.arg) o ack_ok
execute_cmd Command.agb_flash_write_short due s p o = reply_byte (flash_write true s p.arg) o ack_ok
execute_cmd Command.dmg_cart_read due s p o = silent (record s { read_requested = 1 }) o
execute_cmd Command.dmg_cart_write due s p o =
    reply_byte (record s { write_requested = 1; write_addr = be32 p.arg 0; write_value = p.arg 4 })
      o ack_ok
execute_cmd Command.dmg_mbc_reset due s p o =
    reply_byte (record s { mbc_reset_requested = 1 }) o ack_ok
execute_cmd Command.clk_toggle due s p o =
    reply_byte (record s { clk_requested = 1; clk_pulses = be32 p.arg 0 }) o ack_ok
execute_cmd Command.agb_cart_read due s p o = silent (record s { read_requested = 1 }) o
execute_cmd Command.fw_set_step due s p o =
    reply_byte (record s { cart_step_pin = u16 (p.arg 0 * 16) }) o ack_ok
execute_cmd Command.fw_set_latch due s p o =
    reply_byte
      (record s {
        cart_latch = if not (p.arg 0 == 0) then u16 (p.arg 0 * 32) else u16 fw_cart_latch;
      })
      o ack_ok
execute_cmd Command.fw_bench_tx due s p o = silent (record s { bench_requested = 1 }) o
execute_cmd c due s p o = execute_mode c due s p o

-- `terminator_due` is sampled and cleared before the switch.
unfoldable pub execute : FwState → Parser → Array → Outcome
unfolding execute_cmd
execute s p o =
    execute_cmd (decode p.op) s.page_terminator_due (record s { page_terminator_due = 0 }) p o
