-- ===== src/Crc32/Slices.antt =====
-- src/main.c: each table entry is the CRC of its index, one to four zero bytes on.
use open_gbflash_firmware.Common.{
  ℕ, zero, suc, ◌<◌, ◌≡◌, refl, arith, ◌==◌, if◌then◌else◌, Bool, true, false,
}
use open_gbflash_firmware.Crc32.Bitwise.{crc_bits}
use open_gbflash_firmware.Crc32.{t0, t1, t2, t3}

each : (ℕ → Bool) → ℕ → Bool
each f zero = true
each f (suc k) = if f k then each f k else false

each-at : (f : ℕ → Bool) (k i : ℕ) → i < k → each f k ≡ true → f i ≡ true
unfolding each
each-at f zero i below e = absurd (omega arith)
each-at f (suc k) i below e = let at = each-at f k i in ground (arith, at)

==→eq : (a b : ℕ) → (a == b) ≡ true → a ≡ b
==→eq a b h = ground arith

t0_table : each (λ i. t0 i == crc_bits 8 i) 256 ≡ true
unfolding each t0 crc_bits
t0_table = refl

t1_table : each (λ i. t1 i == crc_bits 16 i) 256 ≡ true
unfolding each t1 crc_bits
t1_table = refl

t2_table : each (λ i. t2 i == crc_bits 24 i) 256 ≡ true
unfolding each t2 crc_bits
t2_table = refl

t3_table : each (λ i. t3 i == crc_bits 32 i) 256 ≡ true
unfolding each t3 crc_bits
t3_table = refl

pub t0_lem : (i : ℕ) → i < 256 → t0 i ≡ crc_bits 8 i
t0_lem i h = ==→eq _ _ (each-at _ 256 i h t0_table)

pub t1_lem : (i : ℕ) → i < 256 → t1 i ≡ crc_bits 16 i
t1_lem i h = ==→eq _ _ (each-at _ 256 i h t1_table)

pub t2_lem : (i : ℕ) → i < 256 → t2 i ≡ crc_bits 24 i
t2_lem i h = ==→eq _ _ (each-at _ 256 i h t2_table)

pub t3_lem : (i : ℕ) → i < 256 → t3 i ≡ crc_bits 32 i
t3_lem i h = ==→eq _ _ (each-at _ 256 i h t3_table)
