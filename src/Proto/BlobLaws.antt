-- ===== src/Proto/BlobLaws.antt =====
-- src/proto.c: SET_VAR_STATE undoes GET_VAR_STATE, across a re-plug.
use open_gbflash_firmware.Common.{
  ℕ, ◌/◌, ◌^◌, ◌≤◌, ◌<◌, ◌≡◌, refl, arith, u8, u16, join16, join32_bytes, Array, copy_bytes, ltb,
  if◌then◌else◌,
}
use open_gbflash_firmware.Proto.State.{FwState, fw_max_transfer}
use open_gbflash_firmware.Proto.Blob.{get_var_state, set_var_state}
use open_gbflash_firmware.Proto.Clamp.{IsClamped}

-- The widths of the fields that the blob carries as words.
pub record IsTyped (s : FwState) : Type 0 where
  pub address : s.address < 2 ^ 32
  pub buffer_size : s.buffer_size < 2 ^ 16
  pub dmg_rom_bank : s.dmg_rom_bank < 2 ^ 16
  pub flash_cmd_addr : (i : ℕ) → s.flash_cmd_addr i < 2 ^ 32
  pub flash_cmd_val : (i : ℕ) → s.flash_cmd_val i < 2 ^ 16

-- `t` with the fields of `s` that the blob carries.
abbrev pub restored : FwState → FwState → FwState
restored s t = record t {
  cart_mode = s.cart_mode;
  dmg_access_mode = s.dmg_access_mode;
  dmg_read_method = s.dmg_read_method;
  dmg_read_cs_pulse = s.dmg_read_cs_pulse;
  dmg_write_cs_pulse = s.dmg_write_cs_pulse;
  agb_read_method = s.agb_read_method;
  pullups_enabled = s.pullups_enabled;
  address = s.address;
  transfer_size = s.transfer_size;
  buffer_size = s.buffer_size;
  dmg_rom_bank = s.dmg_rom_bank;
  flash_command_set = s.flash_command_set;
  flash_method = s.flash_method;
  flash_we_pin = s.flash_we_pin_var;
  flash_we_pin_var = s.flash_we_pin_var;
  we_pin_requested = 1;
  flash_cmd_addr = copy_bytes 6 t.flash_cmd_addr 0 s.flash_cmd_addr;
  flash_cmd_val = copy_bytes 6 t.flash_cmd_val 0 s.flash_cmd_val;
}

size_back :
    (v : ℕ)
    → v ≤ fw_max_transfer
    → (let size = u16 (join16 (u8 (v / 2 ^ 8)) (u8 v)) in
        if ltb fw_max_transfer size then fw_max_transfer else size)
      ≡ v
size_back v h = ground arith

word_back : (v : ℕ) → v < 2 ^ 16 → u16 (join16 (u8 (v / 2 ^ 8)) (u8 v)) ≡ v
word_back v h = omega arith

-- Saving the variables of a session with typed fields and a clamped transfer size, and restoring
-- them into any later state, gives back every field that the blob carries, sets the write-enable pin
-- from its variable and requests that pin, and leaves the other fields alone.
pub set_var_state-get_var_state :
    (s t : FwState) (o : Array)
    → IsTyped s
    → IsClamped s
    → set_var_state t (get_var_state s o).out ≡ restored s t
unfolding set_var_state get_var_state copy_bytes
set_var_state-get_var_state s t o h c =
    rw
      (
        join32_bytes s.address h.address,
        size_back s.transfer_size c,
        word_back s.buffer_size h.buffer_size,
        word_back s.dmg_rom_bank h.dmg_rom_bank,
        join32_bytes (s.flash_cmd_addr 0) (h.flash_cmd_addr 0),
        join32_bytes (s.flash_cmd_addr 1) (h.flash_cmd_addr 1),
        join32_bytes (s.flash_cmd_addr 2) (h.flash_cmd_addr 2),
        join32_bytes (s.flash_cmd_addr 3) (h.flash_cmd_addr 3),
        join32_bytes (s.flash_cmd_addr 4) (h.flash_cmd_addr 4),
        join32_bytes (s.flash_cmd_addr 5) (h.flash_cmd_addr 5),
        word_back (s.flash_cmd_val 0) (h.flash_cmd_val 0),
        word_back (s.flash_cmd_val 1) (h.flash_cmd_val 1),
        word_back (s.flash_cmd_val 2) (h.flash_cmd_val 2),
        word_back (s.flash_cmd_val 3) (h.flash_cmd_val 3),
        word_back (s.flash_cmd_val 4) (h.flash_cmd_val 4),
        word_back (s.flash_cmd_val 5) (h.flash_cmd_val 5),
      )
      refl
