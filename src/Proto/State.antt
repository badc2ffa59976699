-- ===== src/Proto/State.antt =====
-- include/fw_config.h and include/proto.h: the limits, `fw_state_t`, and the parser record `P` of
-- src/proto.c with what its functions return. Build flags are the Makefile's defaults
-- (FW_USB_CDC, FW_USB_IRQ, FW_VARSTATE_WE_PIN and FW_PROTO_FAST_COPY on).
use open_gbflash_firmware.Common.{ℕ, Array, update}

abbrev pub fw_max_transfer : ℕ
fw_max_transfer = 0x2000

abbrev pub fw_payload_max : ℕ
fw_payload_max = 0x800

abbrev pub fw_cmd_buf_len : ℕ
fw_cmd_buf_len = 0x40

abbrev fw_cart_step_default : ℕ
fw_cart_step_default = 32

abbrev pub fw_cart_latch : ℕ
fw_cart_latch = 128

abbrev pub fw_batch_max : ℕ
fw_batch_max = 32

abbrev pub fw_bank_cmd_max : ℕ
fw_bank_cmd_max = 8

abbrev pub fw_var_state_len : ℕ
fw_var_state_len = 64

abbrev pub fw_parser_timeout_ms : ℕ
fw_parser_timeout_ms = 2000

abbrev pub ack_ok : ℕ
ack_ok = 1

abbrev pub ack_error : ℕ
ack_error = 2

-- `fw_mode_t`
pub data Mode : Type 0 where
  none dmg agb : Mode

-- `fw_state_t`, field by field.
pub record FwState : Type 0 where
  pub address : ℕ
  pub transfer_size : ℕ
  pub buffer_size : ℕ
  pub dmg_rom_bank : ℕ
  pub cart_mode : ℕ
  pub pcb_ver : ℕ
  pub dmg_access_mode : ℕ
  pub dmg_read_method : ℕ
  pub dmg_read_cs_pulse : ℕ
  pub agb_read_method : ℕ
  pub cart_powered : ℕ
  pub pullups_enabled : ℕ
  pub mode : Mode
  pub read_requested : ℕ
  pub read_is_save : ℕ
  pub read_is_eeprom : ℕ
  pub read_is_3d : ℕ
  pub page_terminator_due : ℕ
  pub page_bytes_done : ℕ
  pub page_end_requested : ℕ
  pub rtc_read_requested : ℕ
  pub bootup_requested : ℕ
  pub eeprom_sel : ℕ
  pub crc_requested : ℕ
  pub crc_len : ℕ
  pub save_write_requested : ℕ
  pub save_write_is_dmg : ℕ
  pub save_write_flash : ℕ
  pub save_write_eeprom : ℕ
  pub status_register : ℕ
  pub last_bank_accessed : ℕ
  pub status_reg_mask : ℕ
  pub status_reg_value : ℕ
  pub flash_we_pin_var : ℕ
  pub we_pin_requested : ℕ
  pub flash_pulse_reset : ℕ
  pub flash_commands_bank_1 : ℕ
  pub flash_sharp_verify_sr : ℕ
  pub flash_double_die : ℕ
  pub audio_requested : ℕ
  pub agb_irq_enabled : ℕ
  pub dmg_audio_enabled : ℕ
  pub dmg_bank_cmd_count : ℕ
  pub dmg_bank_cmd_val : Array
  pub dmg_bank_cmd_type : Array
  pub save_write_len : ℕ
  pub bench_requested : ℕ
  pub power_requested : ℕ
  pub power_target : ℕ
  pub cart_step : ℕ
  pub cart_latch : ℕ
  pub cart_step_pin : ℕ
  pub pullup_requested : ℕ
  pub setpin_high : ℕ
  pub setpin_mask : ℕ
  pub tristate_requested : ℕ
  pub voltage_requested : ℕ
  pub voltage_five : ℕ
  pub voltage_is_five : ℕ
  pub write_requested : ℕ
  pub write_addr : ℕ
  pub write_value : ℕ
  pub mbc_reset_requested : ℕ
  pub debug_requested : ℕ
  pub clk_requested : ℕ
  pub clk_pulses : ℕ
  pub dmg_write_cs_pulse : ℕ
  pub flash_command_set : ℕ
  pub flash_method : ℕ
  pub flash_we_pin : ℕ
  pub flash_cmd_addr : Array
  pub flash_cmd_val : Array
  pub batch_requested : ℕ
  pub batch_flashcart : ℕ
  pub batch_count : ℕ
  pub batch_addr : Array
  pub batch_val : Array
  pub program_requested : ℕ
  pub program_len : ℕ
  pub program_done : ℕ
  pub program_streamed : ℕ
  pub usb_irq_state : ℕ
  pub usb_desc_state : ℕ
  pub pump_stalls : ℕ
  pub program_stream_err : ℕ
  pub flash_write_requested : ℕ
  pub flash_write_addr : ℕ
  pub flash_write_val : ℕ
  pub flash_write_is_agb : ℕ
  pub reset_requested : ℕ

-- The static `P`, with `g_last_pay_got` and the two statics of `fw_proto_tick`.
pub record Parser : Type 0 where
  pub op : ℕ
  pub need : ℕ
  pub got : ℕ
  pub arg : Array
  pub pay_need : ℕ
  pub pay_got : ℕ
  pub pay_over : ℕ
  pub bytes : ℕ
  pub pay : Array
  pub last_pay_got : ℕ
  pub seen : ℕ
  pub since : ℕ

-- What a handler leaves: the state, the caller's `out`, and the byte count that it returns.
pub record Outcome : Type 0 where
  pub st : FwState
  pub out : Array
  pub count : ℕ

-- `out[0] = v; return 1u;`
abbrev pub reply_byte : FwState → Array → ℕ → Outcome
reply_byte s o v = record { st = s; out = update o 0 v; count = 1 }

-- `return 0u;`
abbrev pub silent : FwState → Array → Outcome
silent s o = record { st = s; out = o; count = 0 }

unfoldable pub parser_reset : Parser → Parser
parser_reset p = record p { op = 0; need = 0; got = 0; pay_need = 0; pay_got = 0; pay_over = 0 }

abbrev zeros : Array
zeros = λ _. 0

abbrev zero_state : FwState
zero_state = record {
  address = 0;
  transfer_size = 0;
  buffer_size = 0;
  dmg_rom_bank = 0;
  cart_mode = 0;
  pcb_ver = 0;
  dmg_access_mode = 0;
  dmg_read_method = 0;
  dmg_read_cs_pulse = 0;
  agb_read_method = 0;
  cart_powered = 0;
  pullups_enabled = 0;
  mode = Mode.none;
  read_requested = 0;
  read_is_save = 0;
  read_is_eeprom = 0;
  read_is_3d = 0;
  page_terminator_due = 0;
  page_bytes_done = 0;
  page_end_requested = 0;
  rtc_read_requested = 0;
  bootup_requested = 0;
  eeprom_sel = 0;
  crc_requested = 0;
  crc_len = 0;
  save_write_requested = 0;
  save_write_is_dmg = 0;
  save_write_flash = 0;
  save_write_eeprom = 0;
  status_register = 0;
  last_bank_accessed = 0;
  status_reg_mask = 0;
  status_reg_value = 0;
  flash_we_pin_var = 0;
  we_pin_requested = 0;
  flash_pulse_reset = 0;
  flash_commands_bank_1 = 0;
  flash_sharp_verify_sr = 0;
  flash_double_die = 0;
  audio_requested = 0;
  agb_irq_enabled = 0;
  dmg_audio_enabled = 0;
  dmg_bank_cmd_count = 0;
  dmg_bank_cmd_val = zeros;
  dmg_bank_cmd_type = zeros;
  save_write_len = 0;
  bench_requested = 0;
  power_requested = 0;
  power_target = 0;
  cart_step = 0;
  cart_latch = 0;
  cart_step_pin = 0;
  pullup_requested = 0;
  setpin_high = 0;
  setpin_mask = 0;
  tristate_requested = 0;
  voltage_requested = 0;
  voltage_five = 0;
  voltage_is_five = 0;
  write_requested = 0;
  write_addr = 0;
  write_value = 0;
  mbc_reset_requested = 0;
  debug_requested = 0;
  clk_requested = 0;
  clk_pulses = 0;
  dmg_write_cs_pulse = 0;
  flash_command_set = 0;
  flash_method = 0;
  flash_we_pin = 0;
  flash_cmd_addr = zeros;
  flash_cmd_val = zeros;
  batch_requested = 0;
  batch_flashcart = 0;
  batch_count = 0;
  batch_addr = zeros;
  batch_val = zeros;
  program_requested = 0;
  program_len = 0;
  program_done = 0;
  program_streamed = 0;
  usb_irq_state = 0;
  usb_desc_state = 0;
  pump_stalls = 0;
  program_stream_err = 0;
  flash_write_requested = 0;
  flash_write_addr = 0;
  flash_write_val = 0;
  flash_write_is_agb = 0;
  reset_requested = 0;
}

-- `fw_proto_init`: every byte of the state cleared, then the fields that do not start at 0.
unfoldable pub init_state : FwState
init_state = record zero_state {
  transfer_size = 64;
  cart_step = fw_cart_step_default;
  cart_latch = fw_cart_latch;
  cart_step_pin = 0;
  mode = Mode.none;
}

-- The parser's statics at reset.
abbrev pub init_parser : Parser
init_parser = record {
  op = 0;
  need = 0;
  got = 0;
  arg = zeros;
  pay_need = 0;
  pay_got = 0;
  pay_over = 0;
  bytes = 0;
  pay = zeros;
  last_pay_got = 0;
  seen = 0;
  since = 0;
}
