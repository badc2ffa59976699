-- ===== src/Proto/Payload.antt =====
-- src/proto.c: `payload_opened`, `payload_len` and `payload_done`, the commands with a payload.
use Prim.Native.Nat.{bit_xor}
use open_gbflash_firmware.Common.{
  ℕ, zero, suc, ◌+◌, ◌*◌, ◌==◌, ltb, not, if◌then◌else◌, flag, u8, u16, u32, join16, Array, update,
  from, Bool, true, false,
}
use open_gbflash_firmware.Proto.Command.{Command, decode}
use open_gbflash_firmware.Proto.State.{
  FwState, Parser, Outcome, reply_byte, ack_ok, ack_error, fw_batch_max, fw_bank_cmd_max,
  fw_var_state_len,
}
use open_gbflash_firmware.Proto.Blob.{be32, put_be32, set_var_state}
use open_gbflash_firmware.Proto.Execute.{refuse_known}

pub opened : Command → FwState → FwState
opened Command.flash_program s = record s { program_done = 0; program_stream_err = 0 }
opened _ s = s

unfoldable pub payload_opened : FwState → Parser → FwState
unfolding opened
payload_opened s p = opened (decode p.op) s

unfoldable pub len_of : Command → FwState → Array → ℕ
len_of Command.cart_write_flash_cmd s a = u16 (a 1 * 6)
len_of Command.flash_program s a = s.transfer_size
len_of Command.fw_echo_payload s a = s.transfer_size
len_of Command.dmg_cart_write_sram s a = s.transfer_size
len_of Command.agb_cart_write_sram s a = s.transfer_size
len_of Command.dmg_mbc7_write_eeprom s a = s.transfer_size
len_of Command.dmg_mbc6_mmsa_write_flash s a = s.transfer_size
len_of Command.dmg_eeprom_write s a = s.transfer_size
len_of Command.agb_cart_write_eeprom s a = s.transfer_size
len_of Command.agb_cart_write_flash_data s a = s.transfer_size
len_of Command.dmg_set_bank_change_cmd s a = u16 (a 0 * 5)
len_of Command.set_var_state s a = fw_var_state_len
len_of _ s a = 0

unfoldable pub payload_len : FwState → Parser → ℕ
unfolding len_of
payload_len s p = len_of (decode p.op) s p.arg

-- The copy loop of CART_WRITE_FLASH_CMD; `k` pairs are left, starting at pair `i`.
unfoldable pub read_batch : ℕ → ℕ → FwState → Array → FwState
unfolding be32
read_batch zero i st pay = st
read_batch (suc k) i st pay =
    let e = i * 6 in
    read_batch k (i + 1)
      (record st {
        batch_addr = update st.batch_addr i (be32 pay e);
        batch_val = update st.batch_val i (u16 (join16 (pay (e + 4)) (pay (e + 5))));
      })
      pay

unfoldable pub write_flash_cmd : FwState → Parser → Array → Outcome
unfolding read_batch
write_flash_cmd s p o =
    let n = p.arg 1 in
    if ltb fw_batch_max n
    then reply_byte s o ack_error
    else reply_byte
        (record (read_batch n 0 s p.pay) {
          batch_count = u8 n;
          batch_flashcart = p.arg 0;
          batch_requested = 1;
        })
        o ack_ok

unfoldable pub flash_program : FwState → Parser → Array → Outcome
flash_program s p o =
    if ltb 2 s.flash_method
    then reply_byte s o ack_error
    else reply_byte (record s { program_len = p.pay_got; program_requested = 1 }) o ack_ok

write_eeprom : FwState → Parser → FwState
write_eeprom s p = record s {
  save_write_eeprom = if not (p.arg 0 == 0) then p.arg 0 else 1;
  save_write_flash = 0;
  save_write_is_dmg = 0;
  save_write_len = p.pay_got;
  save_write_requested = 1;
}

write_flash_data : FwState → Parser → FwState
write_flash_data s p = record s {
  save_write_flash = p.arg 0;
  save_write_eeprom = 0;
  save_write_len = p.pay_got;
  save_write_is_dmg = 0;
  save_write_requested = 1;
}

-- The flag is `P.op == CMD_DMG_CART_WRITE_SRAM`.
write_sram : Bool → FwState → Parser → FwState
write_sram is_dmg s p = record s {
  save_write_flash = 0;
  save_write_eeprom = 0;
  save_write_len = p.pay_got;
  save_write_is_dmg = flag is_dmg;
  save_write_requested = 1;
}

unfoldable pub read_bank_cmds : ℕ → ℕ → FwState → Array → FwState
unfolding be32
read_bank_cmds zero k st pay = st
read_bank_cmds (suc n) k st pay =
    read_bank_cmds n (k + 1)
      (record st {
        dmg_bank_cmd_val = update st.dmg_bank_cmd_val k (be32 pay (k * 5));
        dmg_bank_cmd_type = update st.dmg_bank_cmd_type k (pay (k * 5 + 4));
      })
      pay

unfoldable pub set_bank_change : FwState → Parser → Array → Outcome
unfolding read_bank_cmds
set_bank_change s p o =
    let n = p.arg 0 in
    if ltb fw_bank_cmd_max n
    then reply_byte s o ack_error
    else reply_byte (record (read_bank_cmds n 0 s p.pay) { dmg_bank_cmd_count = u8 n }) o ack_ok

-- FNV-1a over the payload.
fnv : ℕ → ℕ → Array → ℕ
fnv zero sum pay = sum
fnv (suc n) sum pay = fnv n (u32 (bit_xor sum (pay 0) * 16777619)) (from pay 1)

echo_payload : FwState → Parser → Array → Outcome
unfolding fnv put_be32
echo_payload s p o = record {
  st = s;
  out = put_be32 o 0 (fnv p.pay_got 0x811C9DC5 p.pay);
  count = 4;
}

unfoldable pub done_cmd : Command → FwState → Parser → Array → Outcome
unfolding write_flash_cmd flash_program write_eeprom write_flash_data write_sram set_bank_change
    echo_payload set_var_state refuse_known
done_cmd Command.cart_write_flash_cmd s p o = write_flash_cmd s p o
done_cmd Command.flash_program s p o = flash_program s p o
done_cmd Command.agb_cart_write_eeprom s p o = reply_byte (write_eeprom s p) o ack_ok
done_cmd Command.agb_cart_write_flash_data s p o = reply_byte (write_flash_data s p) o ack_ok
done_cmd Command.agb_cart_write_sram s p o = reply_byte (write_sram false s p) o ack_ok
done_cmd Command.dmg_cart_write_sram s p o = reply_byte (write_sram true s p) o ack_ok
done_cmd Command.dmg_set_bank_change_cmd s p o = set_bank_change s p o
done_cmd Command.fw_echo_payload s p o = echo_payload s p o
done_cmd Command.set_var_state s p o = reply_byte (set_var_state s p.pay) o ack_ok
done_cmd _ s p o = refuse_known s p o

-- The parser keeps `g_last_pay_got`.
unfoldable pub payload_done : FwState → Parser → Array → Outcome
unfolding done_cmd
payload_done s p o = done_cmd (decode p.op) s (record p { last_pay_got = p.pay_got }) o
