-- ===== src/Flash/Bus.antt =====
-- The cartridge as src/main.c meets it: the calls of the bus drivers of src/cart.c, in order, and the
-- readings that the polls of a status wait will get.
use open_gbflash_firmware.Common.{ℕ, List, ◌∷◌}

-- One call of a driver: `fw_cart_agb_write`, `_write_burst` and `_peek`, `fw_cart_dmg_write`,
-- `_flash_write`, `_read`, `_status_poll_open`, `_read` and `_close`, `_amd_program_byte`,
-- `_amd_program_buffer`, `_amd_bypass_enter`, `_byte` and `_exit`, `_pulse_reset`,
-- `_write_burst_release`, `fw_cart_delay_nops`. A burst carries its bytes.
pub data Access : Type 0 where
  agb_write : ℕ → ℕ → Access
  agb_burst : ℕ → List ℕ → Access
  agb_peek : ℕ → Access
  dmg_write dmg_flash_write : ℕ → ℕ → ℕ → Access
  dmg_read : ℕ → Access
  poll_open poll_close : Access
  poll_read : ℕ → Access
  amd_byte : ℕ → ℕ → Access
  amd_buffer : ℕ → List ℕ → Access
  bypass_enter : Access
  bypass_byte : ℕ → ℕ → ℕ → Access
  bypass_exit : ℕ → Access
  pulse_reset burst_release : Access
  delay_nops : ℕ → Access

-- One turn of a status wait: the clock where a wait starts with it, the first value read, the clock
-- after it, and the second value read.
pub record Poll : Type 0 where
  pub start : ℕ
  pub first : ℕ
  pub now : ℕ
  pub again : ℕ

-- The calls so far, the latest first, and the turns to come.
pub record Cart : Type 0 where
  pub trace : List Access
  pub turns : List Poll

infixl 6 ◌▹◌
abbrev pub ◌▹◌ : Cart → Access → Cart
c ▹ a = record c { trace = a ∷ c.trace }
