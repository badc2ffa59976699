-- ===== src/Proto/Command.antt =====
-- include/proto.h: the opcodes, and proto.c's tables over them.
use open_gbflash_firmware.Common.{ℕ, ◌==◌, if◌then◌else◌, Bool, [], ◌∷◌, elem}

-- The `CMD_*` names; `unlisted` is every byte that has none.
pub data Command : Type 0 where
  null resync query_fw_info set_mode_agb set_mode_dmg set_voltage_3_3v set_voltage_5v : Command
  set_variable get_variable enable_pullups disable_pullups agb_bootup_sequence : Command
  agb_read_gpio_rtc set_addr_as_inputs set_pin dmg_cart_read dmg_cart_write : Command
  dmg_mbc_reset clk_toggle set_flash_cmd dmg_flash_write_byte agb_flash_write_short : Command
  flash_program cart_write_flash_cmd agb_cart_read bootloader_reset cart_pwr_on : Command
  cart_pwr_off query_cart_pwr get_switch_state ping debug get_var_state set_var_state : Command
  dmg_cart_write_sram dmg_mbc7_read_eeprom dmg_mbc7_write_eeprom : Command
  dmg_mbc6_mmsa_write_flash dmg_set_bank_change_cmd dmg_eeprom_write agb_cart_write : Command
  agb_cart_read_sram agb_cart_write_sram agb_cart_read_eeprom agb_cart_write_eeprom : Command
  agb_cart_write_flash_data agb_cart_read_3d_memory calc_crc32 fw_echo_payload : Command
  fw_dump_payload fw_bench_tx fw_set_step fw_set_latch unlisted : Command

-- The opcodes below 0xB0, and those from 0xB0 on.
decode_low : ℕ → Command
decode_low b =
    if b == 0x30
    then Command.null
    else if b == 0x00
    then Command.resync
    else if b == 0xA1
    then Command.query_fw_info
    else if b == 0xA2
    then Command.set_mode_agb
    else if b == 0xA3
    then Command.set_mode_dmg
    else if b == 0xA4
    then Command.set_voltage_3_3v
    else if b == 0xA5
    then Command.set_voltage_5v
    else if b == 0xA6
    then Command.set_variable
    else if b == 0xAD
    then Command.get_variable
    else if b == 0xAB
    then Command.enable_pullups
    else if b == 0xAC
    then Command.disable_pullups
    else if b == 0xA8
    then Command.set_addr_as_inputs
    else if b == 0xA9
    then Command.clk_toggle
    else if b == 0xA7
    then Command.set_flash_cmd
    else if b == 0xA0
    then Command.debug
    else if b == 0xAE
    then Command.get_var_state
    else if b == 0xAF
    then Command.set_var_state
    else Command.unlisted

decode_bus : ℕ → Command
unfolding decode_low
decode_bus b =
    if b == 0xB1
    then Command.dmg_cart_read
    else if b == 0xB2
    then Command.dmg_cart_write
    else if b == 0xB3
    then Command.dmg_cart_write_sram
    else if b == 0xB4
    then Command.dmg_mbc_reset
    else if b == 0xB5
    then Command.dmg_mbc7_read_eeprom
    else if b == 0xB6
    then Command.dmg_mbc7_write_eeprom
    else if b == 0xB7
    then Command.dmg_mbc6_mmsa_write_flash
    else if b == 0xB8
    then Command.dmg_set_bank_change_cmd
    else if b == 0xB9
    then Command.dmg_eeprom_write
    else if b == 0xC1
    then Command.agb_cart_read
    else if b == 0xC2
    then Command.agb_cart_write
    else if b == 0xC3
    then Command.agb_cart_read_sram
    else if b == 0xC4
    then Command.agb_cart_write_sram
    else if b == 0xC5
    then Command.agb_cart_read_eeprom
    else if b == 0xC6
    then Command.agb_cart_write_eeprom
    else if b == 0xC7
    then Command.agb_cart_write_flash_data
    else if b == 0xC8
    then Command.agb_cart_read_3d_memory
    else if b == 0xC9
    then Command.agb_bootup_sequence
    else if b == 0xCA
    then Command.agb_read_gpio_rtc
    else decode_low b

-- The command that an opcode byte names.
unfoldable pub decode : ℕ → Command
unfolding decode_bus
decode b =
    if b == 0xD1
    then Command.dmg_flash_write_byte
    else if b == 0xD2
    then Command.agb_flash_write_short
    else if b == 0xD3
    then Command.flash_program
    else if b == 0xD4
    then Command.cart_write_flash_cmd
    else if b == 0xD5
    then Command.calc_crc32
    else if b == 0xE0
    then Command.fw_bench_tx
    else if b == 0xE1
    then Command.fw_set_step
    else if b == 0xE2
    then Command.fw_set_latch
    else if b == 0xE6
    then Command.fw_dump_payload
    else if b == 0xE7
    then Command.fw_echo_payload
    else if b == 0xF1
    then Command.bootloader_reset
    else if b == 0xF2
    then Command.cart_pwr_on
    else if b == 0xF3
    then Command.cart_pwr_off
    else if b == 0xF4
    then Command.query_cart_pwr
    else if b == 0xF5
    then Command.set_pin
    else if b == 0xF6
    then Command.get_switch_state
    else if b == 0xFE
    then Command.ping
    else decode_bus b

-- Argument bytes between an opcode and its reply or payload.
pub arg_len_of : Command → ℕ
arg_len_of Command.ping = 1
arg_len_of Command.fw_set_step = 1
arg_len_of Command.set_pin = 5
arg_len_of Command.dmg_cart_write = 5
arg_len_of Command.clk_toggle = 4
arg_len_of Command.set_flash_cmd = 39
arg_len_of Command.cart_write_flash_cmd = 2
arg_len_of Command.dmg_flash_write_byte = 5
arg_len_of Command.agb_flash_write_short = 6
arg_len_of Command.fw_set_latch = 1
arg_len_of Command.set_variable = 9
arg_len_of Command.get_variable = 5
arg_len_of Command.agb_cart_write = 6
arg_len_of Command.calc_crc32 = 4
arg_len_of Command.agb_cart_read_eeprom = 1
arg_len_of Command.agb_cart_write_eeprom = 1
arg_len_of Command.agb_cart_write_flash_data = 1
arg_len_of Command.dmg_set_bank_change_cmd = 1
arg_len_of _ = 0

unfoldable pub arg_len : ℕ → ℕ
unfolding arg_len_of
arg_len op = arg_len_of (decode op)

-- The bytes in the host's DEVICE_CMD table.
unfoldable pub known_opcode : ℕ → Bool
known_opcode op = elem op (
    0x30 ∷ 0xA0 ∷ 0xA1 ∷ 0xA2 ∷ 0xA3 ∷ 0xA4 ∷ 0xA5 ∷ 0xA6 ∷ 0xA7 ∷ 0xA8 ∷ 0xA9 ∷ 0xAB ∷ 0xAC ∷ 0xAD
    ∷ 0xAE ∷ 0xAF ∷ 0xB1 ∷ 0xB2 ∷ 0xB3 ∷ 0xB4 ∷ 0xB5 ∷ 0xB6 ∷ 0xB7 ∷ 0xB8 ∷ 0xB9 ∷ 0xBA ∷ 0xC1
    ∷ 0xC2 ∷ 0xC3 ∷ 0xC4 ∷ 0xC5 ∷ 0xC6 ∷ 0xC7 ∷ 0xC8 ∷ 0xC9 ∷ 0xCA ∷ 0xD1 ∷ 0xD2 ∷ 0xD3 ∷ 0xD4
    ∷ 0xD5 ∷ 0xF1 ∷ 0xF2 ∷ 0xF3 ∷ 0xF4 ∷ 0xF5 ∷ 0xF6 ∷ 0xFE ∷ [])
