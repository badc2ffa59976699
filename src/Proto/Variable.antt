-- ===== src/Proto/Variable.antt =====
-- src/proto.c: `set_variable` and `get_variable`, over the VAR_* keys of include/proto.h.
use open_gbflash_firmware.Common.{ℕ, ◌%◌, ◌^◌, ◌==◌, ltb, if◌then◌else◌, u8, u16}
use open_gbflash_firmware.Proto.State.{FwState, Mode, fw_max_transfer}

-- A (size, key) pair by name; `unlisted` is every pair that neither switch has a case for.
pub data Var : Type 0 where
  address auto_poweroff_time : Var
  transfer_size buffer_size dmg_rom_bank status_register last_bank_accessed : Var
  status_register_mask status_register_value : Var
  fw_streamed_chunks fw_usb_irq fw_usb_desc fw_pump_stalls : Var
  cart_mode dmg_access_mode flash_command_set flash_method flash_we_pin : Var
  flash_pulse_reset flash_commands_bank_1 flash_sharp_verify_sr dmg_read_cs_pulse : Var
  dmg_write_cs_pulse flash_double_die dmg_read_method agb_read_method cart_powered : Var
  pullups_enabled auto_poweroff_en agb_irq_enabled dmg_audio_enabled unlisted : Var

var_32 : ℕ → Var
var_32 key =
    if key == 0x00
    then Var.address
    else if key == 0x01
    then Var.auto_poweroff_time
    else Var.unlisted

var_16 : ℕ → Var
var_16 key =
    if key == 0x00
    then Var.transfer_size
    else if key == 0x01
    then Var.buffer_size
    else if key == 0x02
    then Var.dmg_rom_bank
    else if key == 0x03
    then Var.status_register
    else if key == 0x04
    then Var.last_bank_accessed
    else if key == 0x05
    then Var.status_register_mask
    else if key == 0x06
    then Var.status_register_value
    else if key == 0x7F
    then Var.fw_streamed_chunks
    else if key == 0x7E
    then Var.fw_usb_irq
    else if key == 0x7C
    then Var.fw_usb_desc
    else if key == 0x7D
    then Var.fw_pump_stalls
    else Var.unlisted

var_8 : ℕ → Var
var_8 key =
    if key == 0x00
    then Var.cart_mode
    else if key == 0x01
    then Var.dmg_access_mode
    else if key == 0x02
    then Var.flash_command_set
    else if key == 0x03
    then Var.flash_method
    else if key == 0x04
    then Var.flash_we_pin
    else if key == 0x05
    then Var.flash_pulse_reset
    else if key == 0x06
    then Var.flash_commands_bank_1
    else if key == 0x07
    then Var.flash_sharp_verify_sr
    else if key == 0x08
    then Var.dmg_read_cs_pulse
    else if key == 0x09
    then Var.dmg_write_cs_pulse
    else if key == 0x0A
    then Var.flash_double_die
    else if key == 0x0B
    then Var.dmg_read_method
    else if key == 0x0C
    then Var.agb_read_method
    else if key == 0x0D
    then Var.cart_powered
    else if key == 0x0E
    then Var.pullups_enabled
    else if key == 0x0F
    then Var.auto_poweroff_en
    else if key == 0x10
    then Var.agb_irq_enabled
    else if key == 0x11
    then Var.dmg_audio_enabled
    else Var.unlisted

-- `switch (size)`, then `switch (key)`.
pub var_of : ℕ → ℕ → Var
unfolding var_32 var_16 var_8
var_of size key =
    if size == 4
    then var_32 key
    else if size == 2
    then var_16 key
    else if size == 1
    then var_8 key
    else Var.unlisted

-- The clamp of TRANSFER_SIZE.
abbrev clamp_transfer : ℕ → ℕ
clamp_transfer value = if ltb fw_max_transfer value then u16 fw_max_transfer else u16 value

-- `if (st->mode == FW_MODE_AGB) st->audio_requested = 1u;`, and the same for DMG.
abbrev pub request_audio_agb : Mode → FwState → FwState
request_audio_agb Mode.agb s = record s { audio_requested = 1 }
request_audio_agb _ s = s

abbrev pub request_audio_dmg : Mode → FwState → FwState
request_audio_dmg Mode.dmg s = record s { audio_requested = 1 }
request_audio_dmg _ s = s

unfoldable pub set_var : Var → FwState → ℕ → FwState
set_var Var.address s v = record s { address = v }
set_var Var.transfer_size s v = record s { transfer_size = clamp_transfer v }
set_var Var.buffer_size s v = record s { buffer_size = u16 v }
set_var Var.dmg_rom_bank s v = record s {
  dmg_rom_bank = u16 v;
  last_bank_accessed = u16 (v % 2 ^ 8);
}
set_var Var.status_register s v = record s { status_register = u16 v }
set_var Var.last_bank_accessed s v = record s { last_bank_accessed = u16 v }
set_var Var.status_register_mask s v = record s { status_reg_mask = u16 v }
set_var Var.status_register_value s v = record s { status_reg_value = u16 v }
set_var Var.cart_mode s v = record s { cart_mode = u8 v }
set_var Var.dmg_access_mode s v = record s { dmg_access_mode = u8 v }
set_var Var.dmg_read_method s v = record s { dmg_read_method = u8 v }
set_var Var.dmg_read_cs_pulse s v = record s { dmg_read_cs_pulse = u8 v }
set_var Var.dmg_write_cs_pulse s v = record s { dmg_write_cs_pulse = u8 v }
set_var Var.agb_read_method s v = record s { agb_read_method = u8 v }
set_var Var.cart_powered s v = record s { cart_powered = u8 v }
set_var Var.pullups_enabled s v = record s { pullups_enabled = u8 v }
set_var Var.flash_command_set s v = record s { flash_command_set = u8 v }
set_var Var.flash_method s v = record s { flash_method = u8 v }
set_var Var.flash_we_pin s v = record s { flash_we_pin_var = u8 v; we_pin_requested = 1 }
set_var Var.flash_pulse_reset s v = record s { flash_pulse_reset = u8 v }
set_var Var.flash_commands_bank_1 s v = record s { flash_commands_bank_1 = u8 v }
set_var Var.flash_sharp_verify_sr s v = record s { flash_sharp_verify_sr = u8 v }
set_var Var.flash_double_die s v = record s { flash_double_die = u8 v }
set_var Var.agb_irq_enabled s v = request_audio_agb s.mode (record s { agb_irq_enabled = u8 v })
set_var Var.dmg_audio_enabled s v = request_audio_dmg s.mode (record s { dmg_audio_enabled = u8 v })
set_var _ s v = s

unfoldable pub set_variable : FwState → ℕ → ℕ → ℕ → FwState
unfolding set_var
set_variable s size key value = set_var (var_of size key) s value

unfoldable pub get_var : Var → FwState → ℕ
get_var Var.address s = s.address
get_var Var.auto_poweroff_time s = 0
get_var Var.transfer_size s = s.transfer_size
get_var Var.buffer_size s = s.buffer_size
get_var Var.dmg_rom_bank s = s.dmg_rom_bank
get_var Var.status_register s = s.status_register
get_var Var.fw_streamed_chunks s = s.program_streamed
get_var Var.fw_usb_irq s = s.usb_irq_state
get_var Var.fw_usb_desc s = s.usb_desc_state
get_var Var.fw_pump_stalls s = s.pump_stalls
get_var Var.last_bank_accessed s = s.last_bank_accessed
get_var Var.status_register_mask s = s.status_reg_mask
get_var Var.status_register_value s = s.status_reg_value
get_var Var.cart_mode s = s.cart_mode
get_var Var.auto_poweroff_en s = 0
get_var Var.dmg_access_mode s = s.dmg_access_mode
get_var Var.dmg_read_method s = s.dmg_read_method
get_var Var.dmg_read_cs_pulse s = s.dmg_read_cs_pulse
get_var Var.dmg_write_cs_pulse s = s.dmg_write_cs_pulse
get_var Var.agb_read_method s = s.agb_read_method
get_var Var.cart_powered s = s.cart_powered
get_var Var.pullups_enabled s = s.pullups_enabled
get_var Var.flash_command_set s = s.flash_command_set
get_var Var.flash_method s = s.flash_method
get_var Var.flash_we_pin s = s.flash_we_pin_var
get_var Var.flash_pulse_reset s = s.flash_pulse_reset
get_var Var.flash_commands_bank_1 s = s.flash_commands_bank_1
get_var Var.flash_sharp_verify_sr s = s.flash_sharp_verify_sr
get_var Var.flash_double_die s = s.flash_double_die
get_var Var.agb_irq_enabled s = s.agb_irq_enabled
get_var Var.dmg_audio_enabled s = s.dmg_audio_enabled
get_var Var.unlisted s = 0

unfoldable pub get_variable : FwState → ℕ → ℕ → ℕ
unfolding get_var
get_variable s size key = get_var (var_of size key) s
