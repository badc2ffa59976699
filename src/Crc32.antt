-- ===== src/Crc32.antt =====
-- src/main.c: `crc32_step`, with the four tables of FW_CRC32_SLICE4, which the Makefile turns on.
mod Tables
pub mod Bitwise
pub mod Slices
pub mod Exact
pub mod Tests
use Prim.Native.Nat.{bit_xor}
use open_gbflash_firmware.Common.{
  ℕ, zero, suc, ◌+◌, ◌*◌, ◌/◌, ◌%◌, ◌^◌, if◌then◌else◌, Array, from, of_list, join32, Bool,
}
use open_gbflash_firmware.Crc32.Tables.{crc32_tab, crc32_tab1, crc32_tab2, crc32_tab3}

-- The tables, by index.
pub t0 : ℕ → ℕ
unfolding crc32_tab
t0 i = of_list crc32_tab i

pub t1 : ℕ → ℕ
unfolding crc32_tab1
t1 i = of_list crc32_tab1 i

pub t2 : ℕ → ℕ
unfolding crc32_tab2
t2 i = of_list crc32_tab2 i

pub t3 : ℕ → ℕ
unfolding crc32_tab3
t3 i = of_list crc32_tab3 i

-- `while (n--)`
pub crc_bytes : ℕ → ℕ → Array → ℕ
crc_bytes zero crc p = crc
crc_bytes (suc n) crc p =
    crc_bytes n (bit_xor (t0 (bit_xor crc (p 0) % 2 ^ 8)) (crc / 2 ^ 8)) (from p 1)

-- A word as the little-endian processor loads it.
pub load_word : Array → ℕ
load_word p = join32 (p 3) (p 2) (p 1) (p 0)

-- `while (k--)`
pub crc_words : ℕ → ℕ → Array → ℕ
crc_words zero crc p = crc
crc_words (suc k) crc p =
    let c = bit_xor crc (load_word p) in
    let a = bit_xor (t3 (c % 2 ^ 8)) (t2 (c / 2 ^ 8 % 2 ^ 8)) in
    let b = bit_xor (t1 (c / 2 ^ 16 % 2 ^ 8)) (t0 (c / 2 ^ 24)) in
    crc_words k (bit_xor a b) (from p 4)

-- `aligned` is the test on the address of `p`.
pub crc32_step : Bool → ℕ → Array → ℕ → ℕ
crc32_step aligned crc p n =
    if aligned
    then crc_bytes (n % 4) (crc_words (n / 4) crc p) (from p (n / 4 * 4))
    else crc_bytes n crc p
