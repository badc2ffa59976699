-- ===== src/Glue/Mirror.antt =====
-- src/lk_glue.c: `mirror_to_lk` and `mirror_from_lk`. The sizes and mode numbers of the LK core are
-- the core's own, and are arguments.
use open_gbflash_firmware.Common.{
  ℕ, zero, suc, ◌+◌, ltb, if◌then◌else◌, u16, Array, update, copy_bytes,
}
use open_gbflash_firmware.Proto.State.{FwState, Mode}

-- What the LK headers fix: the elements of `_lk_flashcmd_addr` and of `_lk_flashcmd_data`, the
-- bytes of `data_buffer`, and the two mode numbers.
pub record Core : Type 0 where
  pub flashcmd_addr_n : ℕ
  pub flashcmd_data_n : ℕ
  pub data_buffer_size : ℕ
  pub mode_dmg : ℕ
  pub mode_agb : ℕ

-- The `_lk_var` tables and the arrays that the seam fills.
pub record LkVars : Type 0 where
  pub address : ℕ
  pub transfer_size : ℕ
  pub buffer_size : ℕ
  pub dmg_rom_bank : ℕ
  pub status_register : ℕ
  pub last_bank_accessed : ℕ
  pub status_register_mask : ℕ
  pub status_register_value : ℕ
  pub cart_mode : ℕ
  pub dmg_access_mode : ℕ
  pub flash_command_set : ℕ
  pub flash_method : ℕ
  pub flash_we_pin : ℕ
  pub flash_pulse_reset : ℕ
  pub flash_commands_bank_1 : ℕ
  pub flash_sharp_verify_sr : ℕ
  pub dmg_read_cs_pulse : ℕ
  pub dmg_write_cs_pulse : ℕ
  pub flash_double_die : ℕ
  pub dmg_read_method : ℕ
  pub agb_read_method : ℕ
  pub cart_powered : ℕ
  pub pullups_enabled : ℕ
  pub auto_poweroff_enabled : ℕ
  pub agb_irq_enabled : ℕ
  pub dmg_audio_enabled : ℕ
  pub flashcmd_addr : Array
  pub flashcmd_data : Array
  pub write_cycle_addr : Array
  pub write_cycle_data : Array
  pub bankcmd_num : ℕ
  pub bankcmd_addr : Array
  pub bankcmd_mode : Array

unfoldable pub lk_mode : Core → Mode → ℕ
lk_mode core Mode.dmg = core.mode_dmg
lk_mode core Mode.agb = core.mode_agb
lk_mode core Mode.none = 0

-- `flash_write_cycle[i][0] = (uint16_t)…`, `k` entries from `i` on.
unfoldable pub narrow : ℕ → ℕ → Array → Array → Array
narrow zero i dst src = dst
narrow (suc k) i dst src = narrow k (i + 1) (update dst i (u16 (src i))) src

-- `(i < n) ? src[i] : 0u`, `k` entries from `i` on.
unfoldable pub padded : ℕ → ℕ → ℕ → Array → Array → Array
padded zero i n dst src = dst
padded (suc k) i n dst src = padded k (i + 1) n (update dst i (if ltb i n then src i else 0)) src

-- LK holds three bank commands; the host's table has room for eight.
abbrev pub bank_count : FwState → ℕ
bank_count st = if ltb 3 st.dmg_bank_cmd_count then 3 else st.dmg_bank_cmd_count

unfoldable pub mirror_to_lk : Core → FwState → LkVars → LkVars
unfolding lk_mode narrow padded copy_bytes
mirror_to_lk core st v = record v {
  address = st.address;
  transfer_size = st.transfer_size;
  buffer_size = st.buffer_size;
  dmg_rom_bank = st.dmg_rom_bank;
  status_register = st.status_register;
  last_bank_accessed = st.last_bank_accessed;
  status_register_mask = st.status_reg_mask;
  status_register_value = st.status_reg_value;
  cart_mode = lk_mode core st.mode;
  dmg_access_mode = st.dmg_access_mode;
  flash_command_set = st.flash_command_set;
  flash_method = st.flash_method;
  flash_we_pin = st.flash_we_pin_var;
  flash_pulse_reset = st.flash_pulse_reset;
  flash_commands_bank_1 = st.flash_commands_bank_1;
  flash_sharp_verify_sr = st.flash_sharp_verify_sr;
  dmg_read_cs_pulse = st.dmg_read_cs_pulse;
  dmg_write_cs_pulse = st.dmg_write_cs_pulse;
  flash_double_die = st.flash_double_die;
  dmg_read_method = st.dmg_read_method;
  agb_read_method = st.agb_read_method;
  cart_powered = st.cart_powered;
  pullups_enabled = st.pullups_enabled;
  auto_poweroff_enabled = 0;
  agb_irq_enabled = st.agb_irq_enabled;
  dmg_audio_enabled = st.dmg_audio_enabled;
  flashcmd_addr = copy_bytes 6 v.flashcmd_addr 0 st.flash_cmd_addr;
  flashcmd_data = copy_bytes 6 v.flashcmd_data 0 st.flash_cmd_val;
  write_cycle_addr = narrow 3 0 v.write_cycle_addr st.flash_cmd_addr;
  write_cycle_data = copy_bytes 3 v.write_cycle_data 0 st.flash_cmd_val;
  bankcmd_num = bank_count st;
  bankcmd_addr = padded 3 0 (bank_count st) v.bankcmd_addr st.dmg_bank_cmd_val;
  bankcmd_mode = padded 3 0 (bank_count st) v.bankcmd_mode st.dmg_bank_cmd_type;
}

unfoldable pub mirror_from_lk : LkVars → FwState → FwState
mirror_from_lk v st = record st {
  address = v.address;
  last_bank_accessed = v.last_bank_accessed;
  status_register = v.status_register;
}
