-- ===== src/Common/Words.antt =====
-- Machine words: the casts of C, and the big-endian fields of the wire protocol.
use Prim.Native.Nat.{ℕ, ◌+◌, ◌-◌, ◌*◌, ◌/◌, ◌%◌, ◌^◌, ◌<◌}
use mathlib.Core.Path.{◌≡◌}
use native.Mathlib.Omega.{arith}

abbrev pub u8 : ℕ → ℕ
u8 n = n % 2 ^ 8

abbrev pub u16 : ℕ → ℕ
u16 n = n % 2 ^ 16

abbrev pub u32 : ℕ → ℕ
u32 n = n % 2 ^ 32

-- `a - b` on `uint16_t` and on `uint32_t`, which wraps.
abbrev pub sub16 : ℕ → ℕ → ℕ
sub16 a b = (a + 2 ^ 16 - b) % 2 ^ 16

abbrev pub sub32 : ℕ → ℕ → ℕ
sub32 a b = (a + 2 ^ 32 - b) % 2 ^ 32

-- Four bytes joined big-endian, two bytes joined big-endian: the bit fields are disjoint, so
-- that `|` is `+`.
abbrev pub join32 : ℕ → ℕ → ℕ → ℕ → ℕ
join32 a b c d = a * 2 ^ 24 + b * 2 ^ 16 + c * 2 ^ 8 + d

abbrev pub join16 : ℕ → ℕ → ℕ
join16 a b = a * 2 ^ 8 + b

-- A word cut into its bytes and joined again is the word.
pub join32_bytes :
    (v : ℕ) → v < 2 ^ 32 → join32 (u8 (v / 2 ^ 24)) (u8 (v / 2 ^ 16)) (u8 (v / 2 ^ 8)) (u8 v) ≡ v
join32_bytes v h = omega arith

pub join16_bytes : (v : ℕ) → v < 2 ^ 16 → join16 (u8 (v / 2 ^ 8)) (u8 v) ≡ v
join16_bytes v h = omega arith
