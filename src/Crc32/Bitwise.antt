-- ===== src/Crc32/Bitwise.antt =====
-- The CRC-32 of the reflected polynomial 0xEDB88320, one bit at a time, and its linearity.
use Prim.Native.Nat.{bit_xor}
use open_gbflash_firmware.Common.{
  ℕ, zero, suc, ◌+◌, ◌*◌, ◌/◌, ◌%◌, ◌^◌, ◌<◌, ◌≡◌, refl, sym, ◌∙◌, ap, arith, ◌==◌, if◌then◌else◌,
  Array, from,
}
use open_gbflash_firmware.Common.Xor.{xor_comm, xor_assoc, xor-zero, xor_half, xor_parity, xor-lt}

-- Shift one bit out; a 1 subtracts the polynomial.
abbrev pub crc_bit : ℕ → ℕ
crc_bit c = if c % 2 == 1 then bit_xor (c / 2) 0xEDB88320 else c / 2

unfoldable pub crc_bits : ℕ → ℕ → ℕ
crc_bits zero c = c
crc_bits (suc n) c = crc_bits n (crc_bit c)

-- The CRC of `n` bytes, bit by bit.
unfoldable pub crc_reference : ℕ → ℕ → Array → ℕ
unfolding crc_bits
crc_reference zero crc p = crc
crc_reference (suc n) crc p = crc_reference n (crc_bits 8 (bit_xor crc (p 0))) (from p 1)

-- Exchange of the middle terms.
pub xor_middle :
    (a b c d : ℕ) → bit_xor (bit_xor a b) (bit_xor c d) ≡ bit_xor (bit_xor a c) (bit_xor b d)
xor_middle a b c d =
    xor_assoc a b (bit_xor c d)
    ∙ ap (bit_xor a)
        (sym (xor_assoc b c d) ∙ ap (λ x. bit_xor x d) (xor_comm b c) ∙ xor_assoc c b d)
    ∙ sym (xor_assoc a c (bit_xor b d))

poly_twice : (a b : ℕ) → bit_xor (bit_xor a 0xEDB88320) (bit_xor b 0xEDB88320) ≡ bit_xor a b
poly_twice a b = xor_middle a 0xEDB88320 b 0xEDB88320 ∙ xor-zero (bit_xor a b)

poly_right : (a b : ℕ) → bit_xor a (bit_xor b 0xEDB88320) ≡ bit_xor (bit_xor a b) 0xEDB88320
poly_right a b = sym (xor_assoc a b 0xEDB88320)

poly_left : (a b : ℕ) → bit_xor (bit_xor a 0xEDB88320) b ≡ bit_xor (bit_xor a b) 0xEDB88320
poly_left a b =
    xor_assoc a 0xEDB88320 b
    ∙ ap (bit_xor a) (xor_comm 0xEDB88320 b)
    ∙ sym (xor_assoc a b 0xEDB88320)

pub crc_bit-xor : (a b : ℕ) → crc_bit (bit_xor a b) ≡ bit_xor (crc_bit a) (crc_bit b)
crc_bit-xor a b = ground (
  arith,
  xor_half a b,
  xor_parity a b,
  poly_twice (a / 2) (b / 2),
  poly_right (a / 2) (b / 2),
  poly_left (a / 2) (b / 2),
)

pub crc_bits-xor : (n a b : ℕ) → crc_bits n (bit_xor a b) ≡ bit_xor (crc_bits n a) (crc_bits n b)
unfolding crc_bits
crc_bits-xor zero a b = refl
crc_bits-xor (suc n) a b =
    ap (crc_bits n) (crc_bit-xor a b) ∙ crc_bits-xor n (crc_bit a) (crc_bit b)

pub crc_bits-add : (m n c : ℕ) → crc_bits (m + n) c ≡ crc_bits n (crc_bits m c)
unfolding crc_bits
crc_bits-add zero n c = let e : 0 + n ≡ n = omega arith in rw e
crc_bits-add (suc m) n c =
    let e : suc m + n ≡ suc (m + n) = omega arith in rw e (crc_bits-add m n (crc_bit c))

crc_bit-even : (a : ℕ) → crc_bit (a * 2) ≡ a
crc_bit-even a = ground arith

abbrev pub shifted : ℕ → ℕ → ℕ
shifted zero a = a
shifted (suc n) a = shifted n a * 2

crc_bits-shifted : (n a : ℕ) → crc_bits n (shifted n a) ≡ a
unfolding crc_bits
crc_bits-shifted zero a = refl
crc_bits-shifted (suc n) a = ap (crc_bits n) (crc_bit-even (shifted n a)) ∙ crc_bits-shifted n a

-- A clear low byte is shifted out.
pub crc_bits-shift : (a : ℕ) → crc_bits 8 (a * 256) ≡ a
crc_bits-shift a =
    let e : a * 256 ≡ shifted 8 a = omega arith in ap (crc_bits 8) e ∙ crc_bits-shifted 8 a

-- Bits to come may be added early.
pub crc_bits-absorb : (n y b : ℕ) → bit_xor (crc_bits n y) b ≡ crc_bits n (bit_xor y (shifted n b))
crc_bits-absorb n y b =
    ap (bit_xor (crc_bits n y)) (sym (crc_bits-shifted n b)) ∙ sym (crc_bits-xor n y (shifted n b))

pub crc_bit-lt : (c : ℕ) → c < 2 ^ 32 → crc_bit c < 2 ^ 32
crc_bit-lt c h = ground (arith, xor-lt (c / 2) 0xEDB88320)

pub crc_bits-lt : (n c : ℕ) → c < 2 ^ 32 → crc_bits n c < 2 ^ 32
unfolding crc_bits
crc_bits-lt zero c h = h
crc_bits-lt (suc n) c h = crc_bits-lt n (crc_bit c) (crc_bit-lt c h)
