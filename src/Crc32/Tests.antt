-- ===== src/Crc32/Tests.antt =====
-- src/main.c: runs of the CRC on concrete bytes.
use open_gbflash_firmware.Common.{ℕ, ◌%◌, ◌≡◌, refl, arith, of_list, List, [], ◌∷◌, true, false}
use open_gbflash_firmware.Crc32.{crc32_step, crc_bytes, crc_words, load_word, t0, t1, t2, t3}
use open_gbflash_firmware.Crc32.Bitwise.{crc_reference}
use open_gbflash_firmware.Crc32.Exact.{crc32_step-eq-crc_reference}

-- The check value of CRC-32, before the last inversion: the digits 1 to 9.
abbrev digits : List ℕ
digits = 0x31 ∷ 0x32 ∷ 0x33 ∷ 0x34 ∷ 0x35 ∷ 0x36 ∷ 0x37 ∷ 0x38 ∷ 0x39 ∷ []

crc_of_digits : crc32_step true 0xFFFFFFFF (of_list digits) 9 ≡ 0x340BC6D9
unfolding crc32_step crc_bytes crc_words load_word t0 t1 t2 t3
crc_of_digits = refl

crc_of_digits_by_bytes : crc32_step false 0xFFFFFFFF (of_list digits) 9 ≡ 0x340BC6D9
unfolding crc32_step crc_bytes t0
crc_of_digits_by_bytes = refl

abbrev ramp : ℕ → ℕ
ramp i = i % 256

crc32_step-eq-crc_reference_example :
    crc32_step true 0xFFFFFFFF ramp 11 ≡ crc_reference 11 0xFFFFFFFF ramp
crc32_step-eq-crc_reference_example =
    crc32_step-eq-crc_reference true 0xFFFFFFFF ramp 11 (omega arith) (λ i. omega arith)
