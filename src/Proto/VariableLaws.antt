-- ===== src/Proto/VariableLaws.antt =====
-- src/proto.c: what SET_VARIABLE leaves for GET_VARIABLE.
use open_gbflash_firmware.Common.{
  ℕ, ◌≡◌, refl, arith, ◌∙◌, ltb, if◌then◌else◌, u8, u16, Option, none, some,
}
use open_gbflash_firmware.Proto.State.{FwState, Mode, fw_max_transfer}
use open_gbflash_firmware.Proto.Variable.{
  Var, set_var, get_var, var_of, set_variable, get_variable, request_audio_agb, request_audio_dmg,
}

-- What the variable `w` is worth once the host has written `x` to `v`: none where the write does
-- not reach `w`. A value is cut to the variable's width, TRANSFER_SIZE is clamped, and
-- DMG_ROM_BANK also sets LAST_BANK_ACCESSED.
abbrev pub written : Var → ℕ → Var → Option ℕ
written Var.address x Var.address = some x
written Var.transfer_size x Var.transfer_size =
    some (if ltb fw_max_transfer x then fw_max_transfer else x)
written Var.buffer_size x Var.buffer_size = some (u16 x)
written Var.dmg_rom_bank x Var.dmg_rom_bank = some (u16 x)
written Var.dmg_rom_bank x Var.last_bank_accessed = some (u8 x)
written Var.status_register x Var.status_register = some (u16 x)
written Var.last_bank_accessed x Var.last_bank_accessed = some (u16 x)
written Var.status_register_mask x Var.status_register_mask = some (u16 x)
written Var.status_register_value x Var.status_register_value = some (u16 x)
written Var.cart_mode x Var.cart_mode = some (u8 x)
written Var.dmg_access_mode x Var.dmg_access_mode = some (u8 x)
written Var.flash_command_set x Var.flash_command_set = some (u8 x)
written Var.flash_method x Var.flash_method = some (u8 x)
written Var.flash_we_pin x Var.flash_we_pin = some (u8 x)
written Var.flash_pulse_reset x Var.flash_pulse_reset = some (u8 x)
written Var.flash_commands_bank_1 x Var.flash_commands_bank_1 = some (u8 x)
written Var.flash_sharp_verify_sr x Var.flash_sharp_verify_sr = some (u8 x)
written Var.dmg_read_cs_pulse x Var.dmg_read_cs_pulse = some (u8 x)
written Var.dmg_write_cs_pulse x Var.dmg_write_cs_pulse = some (u8 x)
written Var.flash_double_die x Var.flash_double_die = some (u8 x)
written Var.dmg_read_method x Var.dmg_read_method = some (u8 x)
written Var.agb_read_method x Var.agb_read_method = some (u8 x)
written Var.cart_powered x Var.cart_powered = some (u8 x)
written Var.pullups_enabled x Var.pullups_enabled = some (u8 x)
written Var.agb_irq_enabled x Var.agb_irq_enabled = some (u8 x)
written Var.dmg_audio_enabled x Var.dmg_audio_enabled = some (u8 x)
written _ x _ = none

abbrev pub updated : Option ℕ → ℕ → ℕ
updated (some x) old = x
updated none old = old

-- The audio request changes no variable.
get_var-request_audio_agb :
    (m : Mode) (w : Var) (s : FwState) → get_var w (request_audio_agb m s) ≡ get_var w s
unfolding get_var
get_var-request_audio_agb Mode.agb Var.address s = refl
get_var-request_audio_agb _ _ s = refl

get_var-request_audio_dmg :
    (m : Mode) (w : Var) (s : FwState) → get_var w (request_audio_dmg m s) ≡ get_var w s
unfolding get_var
get_var-request_audio_dmg Mode.dmg Var.address s = refl
get_var-request_audio_dmg _ _ s = refl

get_var-agb_irq :
    (w : Var) (s : FwState) (x : ℕ)
    → get_var w (record s { agb_irq_enabled = u8 x })
      ≡ updated (written Var.agb_irq_enabled x w) (get_var w s)
unfolding get_var
get_var-agb_irq Var.address s x = refl
get_var-agb_irq _ s x = refl

get_var-dmg_audio :
    (w : Var) (s : FwState) (x : ℕ)
    → get_var w (record s { dmg_audio_enabled = u8 x })
      ≡ updated (written Var.dmg_audio_enabled x w) (get_var w s)
unfolding get_var
get_var-dmg_audio Var.address s x = refl
get_var-dmg_audio _ s x = refl

get_var-set_var :
    (v w : Var) (s : FwState) (x : ℕ)
    → get_var w (set_var v s x) ≡ updated (written v x w) (get_var w s)
unfolding get_var set_var
get_var-set_var Var.transfer_size Var.transfer_size s x = ground arith
get_var-set_var Var.dmg_rom_bank Var.last_bank_accessed s x = omega arith
get_var-set_var Var.agb_irq_enabled w s x =
    get_var-request_audio_agb s.mode w (record s { agb_irq_enabled = u8 x }) ∙ get_var-agb_irq w s x
get_var-set_var Var.dmg_audio_enabled w s x =
    get_var-request_audio_dmg s.mode w (record s { dmg_audio_enabled = u8 x })
    ∙ get_var-dmg_audio w s x
get_var-set_var Var.address Var.address s x = refl
get_var-set_var _ w s x = ground arith

-- SET_VARIABLE then GET_VARIABLE, for every size and key on both sides: a variable reads back what
-- `written` says if the write reaches it, and is unchanged if not.
pub get_variable-set_variable :
    (s : FwState) (size key size' key' x : ℕ)
    → get_variable (set_variable s size key x) size' key'
      ≡ updated (written (var_of size key) x (var_of size' key')) (get_variable s size' key')
unfolding get_variable set_variable
get_variable-set_variable s size key size' key' x =
    get_var-set_var (var_of size key) (var_of size' key') s x
