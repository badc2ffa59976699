-- ===== src/Crc32/Exact.antt =====
-- src/main.c: the table-driven CRC, by words and by bytes, is the bitwise one.
use Prim.Native.Nat.{bit_xor}
use open_gbflash_firmware.Common.{
  ℕ, zero, suc, ◌+◌, ◌*◌, ◌/◌, ◌%◌, ◌^◌, ◌<◌, ◌≡◌, refl, sym, ◌∙◌, ap, ap₂, fun_ext, arith, Array,
  from, join32, Bool, true, false,
}
use open_gbflash_firmware.Common.Xor.{
  xor_comm, xor_assoc, xor-zero, xor_div, xor_join, xor_join16, xor_join24, xor-lt,
}
use open_gbflash_firmware.Crc32.{t0, t1, t2, t3, crc_bytes, crc_words, load_word, crc32_step}
use open_gbflash_firmware.Crc32.Bitwise.{
  crc_bits, crc_reference, crc_bits-xor, crc_bits-add, crc_bits-shift, crc_bits-absorb, crc_bits-lt,
  shifted,
}
use open_gbflash_firmware.Crc32.Slices.{t0_lem, t1_lem, t2_lem, t3_lem}

-- One byte off the low end.
crc_bits-split :
    (n x : ℕ) → crc_bits (8 + n) x ≡ bit_xor (crc_bits n (x / 256)) (crc_bits (8 + n) (x % 256))
crc_bits-split n x =
    let e : x ≡ x / 256 * 256 + x % 256 = omega arith in
    let j = xor_join (x / 256) (x % 256) (omega arith) in
    ap (crc_bits (8 + n)) (e ∙ sym j)
    ∙ crc_bits-xor (8 + n) (x / 256 * 256) (x % 256)
    ∙ ap (λ y. bit_xor y (crc_bits (8 + n) (x % 256)))
        (crc_bits-add 8 n (x / 256 * 256) ∙ ap (crc_bits n) (crc_bits-shift (x / 256)))

byte_lem :
    (crc b : ℕ)
    → b < 256
    → bit_xor (t0 (bit_xor crc b % 2 ^ 8)) (crc / 2 ^ 8) ≡ crc_bits 8 (bit_xor crc b)
unfolding crc_bits
byte_lem crc b h =
    let x = bit_xor crc b in
    let high : x / 256 ≡ crc / 256 =
      xor_div crc b ∙ (let z : b / 256 ≡ 0 = omega arith in rw z (xor-zero (crc / 256))) in
    let low : t0 (x % 2 ^ 8) ≡ crc_bits 8 (x % 256) = t0_lem (x % 256) (omega arith) in
    ap₂ bit_xor low (sym high)
    ∙ xor_comm (crc_bits 8 (x % 256)) (x / 256)
    ∙ sym (crc_bits-split 0 x)

crc_bytes-eq-crc_reference :
    (n crc : ℕ) (p : Array) → ((i : ℕ) → p i < 256) → crc_bytes n crc p ≡ crc_reference n crc p
unfolding crc_bytes crc_reference
crc_bytes-eq-crc_reference zero crc p h = refl
crc_bytes-eq-crc_reference (suc n) crc p h =
    ap (λ c. crc_bytes n c (from p 1)) (byte_lem crc (p 0) (h 0))
    ∙ crc_bytes-eq-crc_reference n (crc_bits 8 (bit_xor crc (p 0))) (from p 1) (λ i. h (1 + i))

-- Four bytes off the low end, with a table each.
crc_bits-split4 :
    (x : ℕ)
    → x < 2 ^ 32
    → bit_xor
        (bit_xor (t3 (x % 2 ^ 8)) (t2 (x / 2 ^ 8 % 2 ^ 8)))
        (bit_xor (t1 (x / 2 ^ 16 % 2 ^ 8)) (t0 (x / 2 ^ 24)))
      ≡ crc_bits 32 x
crc_bits-split4 x h =
    let y : ℕ = x / 256 in
    let z : ℕ = y / 256 in
    let ey : x / 2 ^ 8 ≡ y = omega arith in
    let ez : x / 2 ^ 16 ≡ z = omega arith in
    let ew : x / 2 ^ 24 ≡ z / 256 = omega arith in
    let a3 = t3_lem (x % 256) (omega arith) in
    let a2 = t2_lem (y % 256) (omega arith) in
    let a1 = t1_lem (z % 256) (omega arith) in
    let a0 = t0_lem (z / 256) (omega arith) in
    let s3 = crc_bits-split 24 x in
    let s2 = crc_bits-split 16 y in
    let s1 = crc_bits-split 8 z in
    ap₂ bit_xor (ap₂ bit_xor a3 (ap (λ i. t2 (i % 256)) ey ∙ a2))
      (ap₂ bit_xor (ap (λ i. t1 (i % 256)) ez ∙ a1) (ap t0 ew ∙ a0))
    ∙ regroup (crc_bits 32 (x % 256)) (crc_bits 24 (y % 256)) (crc_bits 16 (z % 256))
        (crc_bits 8 (z / 256))
    ∙ ap (λ u. bit_xor (bit_xor u (crc_bits 24 (y % 256))) (crc_bits 32 (x % 256))) (sym s1)
    ∙ ap (λ u. bit_xor u (crc_bits 32 (x % 256))) (sym s2)
    ∙ sym s3
  where
    regroup :
        (a b c d : ℕ) → bit_xor (bit_xor a b) (bit_xor c d) ≡ bit_xor (bit_xor (bit_xor d c) b) a
    regroup a b c d =
        xor_comm (bit_xor a b) (bit_xor c d)
        ∙ ap₂ bit_xor (xor_comm c d) (xor_comm a b)
        ∙ sym (xor_assoc (bit_xor d c) b a)

swap : (c x b : ℕ) → bit_xor c (bit_xor x b) ≡ bit_xor (bit_xor c b) x
swap c x b = ap (bit_xor c) (xor_comm x b) ∙ sym (xor_assoc c b x)

word_join :
    (a b c d : ℕ)
    → b < 256
    → c < 256
    → d < 256
    → join32 a b c d ≡ bit_xor (bit_xor (bit_xor (a * 2 ^ 24) (b * 2 ^ 16)) (c * 256)) d
word_join a b c d hb hc hd =
    let ab : bit_xor (a * 2 ^ 24) (b * 2 ^ 16) ≡ a * 2 ^ 24 + b * 2 ^ 16 =
      xor_join24 a (b * 2 ^ 16) (omega arith) in
    let u : ℕ = a * 256 + b in
    let eu : a * 2 ^ 24 + b * 2 ^ 16 ≡ u * 2 ^ 16 = omega arith in
    let v : ℕ = u * 256 + c in
    let ev : u * 2 ^ 16 + c * 256 ≡ v * 256 = omega arith in
    let e : join32 a b c d ≡ v * 256 + d = omega arith in
    e
    ∙ sym (xor_join v d hd)
    ∙ ap (λ w. bit_xor w d)
        (sym ev
          ∙ sym (xor_join16 u (c * 256) (omega arith))
          ∙ ap (λ w. bit_xor w (c * 256)) (sym eu ∙ sym ab))

-- Four bytes of the bitwise CRC are 32 bits of it on the whole word.
word_lem :
    (crc a b c d : ℕ)
    → b < 256
    → c < 256
    → d < 256
    → crc_bits 8
        (bit_xor (crc_bits 8 (bit_xor (crc_bits 8 (bit_xor (crc_bits 8 (bit_xor crc d)) c)) b)) a)
      ≡ crc_bits 32 (bit_xor crc (join32 a b c d))
word_lem crc a b c d hb hc hd =
    let c' : shifted 8 c ≡ c * 256 = omega arith in
    let b' : shifted 16 b ≡ b * 2 ^ 16 = omega arith in
    let a' : shifted 24 a ≡ a * 2 ^ 24 = omega arith in
    let y = bit_xor crc d in
    let y1 = bit_xor y (c * 256) in
    let y2 = bit_xor y1 (b * 2 ^ 16) in
    let e1 : crc_bits 8 (bit_xor (crc_bits 8 y) c) ≡ crc_bits 16 y1 =
      ap (crc_bits 8) (crc_bits-absorb 8 y c ∙ ap (λ s. crc_bits 8 (bit_xor y s)) c')
      ∙ sym (crc_bits-add 8 8 y1) in
    let e2 : crc_bits 8 (bit_xor (crc_bits 16 y1) b) ≡ crc_bits 24 y2 =
      ap (crc_bits 8) (crc_bits-absorb 16 y1 b ∙ ap (λ s. crc_bits 16 (bit_xor y1 s)) b')
      ∙ sym (crc_bits-add 16 8 y2) in
    let e3 : crc_bits 8 (bit_xor (crc_bits 24 y2) a) ≡ crc_bits 32 (bit_xor y2 (a * 2 ^ 24)) =
      ap (crc_bits 8) (crc_bits-absorb 24 y2 a ∙ ap (λ s. crc_bits 24 (bit_xor y2 s)) a')
      ∙ sym (crc_bits-add 24 8 (bit_xor y2 (a * 2 ^ 24))) in
    let w : bit_xor crc (join32 a b c d) ≡ bit_xor y2 (a * 2 ^ 24) =
      ap (bit_xor crc) (word_join a b c d hb hc hd)
      ∙ swap crc (bit_xor (bit_xor (a * 2 ^ 24) (b * 2 ^ 16)) (c * 256)) d
      ∙ swap y (bit_xor (a * 2 ^ 24) (b * 2 ^ 16)) (c * 256)
      ∙ swap y1 (a * 2 ^ 24) (b * 2 ^ 16) in
    ap (λ s. crc_bits 8 (bit_xor (crc_bits 8 (bit_xor s b)) a)) e1
    ∙ ap (λ s. crc_bits 8 (bit_xor s a)) e2
    ∙ e3
    ∙ ap (crc_bits 32) (sym w)

from-from : (p : Array) (a b c : ℕ) → a + b ≡ c → from (from p a) b ≡ from p c
from-from p a b c e = fun_ext (λ i. ap p (omega arith))

crc_reference-add :
    (m n crc : ℕ) (p : Array)
    → crc_reference (m + n) crc p ≡ crc_reference n (crc_reference m crc p) (from p m)
unfolding crc_reference
crc_reference-add zero n crc p =
    let e : 0 + n ≡ n = omega arith in
    let f : from p 0 ≡ p = fun_ext (λ i. ap p (omega arith)) in rw (e, f)
crc_reference-add (suc m) n crc p =
    let e : suc m + n ≡ suc (m + n) = omega arith in
    rw (e, ← from-from p 1 m (suc m) (omega arith))
      (crc_reference-add m n (crc_bits 8 (bit_xor crc (p 0))) (from p 1))

crc_reference_four :
    (crc : ℕ) (p : Array)
    → crc < 2 ^ 32
    → ((i : ℕ) → p i < 256)
    → let c = bit_xor crc (load_word p) in
      bit_xor
        (bit_xor (t3 (c % 2 ^ 8)) (t2 (c / 2 ^ 8 % 2 ^ 8)))
        (bit_xor (t1 (c / 2 ^ 16 % 2 ^ 8)) (t0 (c / 2 ^ 24)))
      ≡ crc_reference 4 crc p
unfolding crc_reference load_word
crc_reference_four crc p hc h =
    let w : join32 (p 3) (p 2) (p 1) (p 0) < 2 ^ 32 = omega (arith, h 0, h 1, h 2, h 3) in
    crc_bits-split4 (bit_xor crc (join32 (p 3) (p 2) (p 1) (p 0))) (xor-lt crc _ hc w)
    ∙ sym (word_lem crc (p 3) (p 2) (p 1) (p 0) (h 2) (h 1) (h 0))

crc_reference-lt :
    (n crc : ℕ) (p : Array) → crc < 2 ^ 32 → ((i : ℕ) → p i < 256) → crc_reference n crc p < 2 ^ 32
unfolding crc_reference
crc_reference-lt zero crc p hc h = hc
crc_reference-lt (suc n) crc p hc h =
    crc_reference-lt n (crc_bits 8 (bit_xor crc (p 0))) (from p 1)
      (crc_bits-lt 8 (bit_xor crc (p 0)) (xor-lt crc (p 0) hc (omega (arith, h 0))))
      (λ i. h (1 + i))

crc_words-eq-crc_reference :
    (k crc : ℕ) (p : Array)
    → crc < 2 ^ 32
    → ((i : ℕ) → p i < 256)
    → crc_words k crc p ≡ crc_reference (k * 4) crc p
unfolding crc_words
crc_words-eq-crc_reference zero crc p hc h = unfold crc_reference in refl
crc_words-eq-crc_reference (suc k) crc p hc h =
    let e : suc k * 4 ≡ 4 + k * 4 = omega arith in
    let f = crc_reference_four crc p hc h in
    let lt = crc_reference-lt 4 crc p hc h in
    rw (e, f)
      (crc_words-eq-crc_reference k (crc_reference 4 crc p) (from p 4) lt (λ i. h (4 + i))
        ∙ sym (crc_reference-add 4 (k * 4) crc p))

-- `crc32_step` on any bytes, aligned or not and of any length, is the CRC-32 of the reflected
-- polynomial taken one bit at a time, from any 32-bit start value.
pub crc32_step-eq-crc_reference :
    (aligned : Bool) (crc : ℕ) (p : Array) (n : ℕ)
    → crc < 2 ^ 32
    → ((i : ℕ) → p i < 256)
    → crc32_step aligned crc p n ≡ crc_reference n crc p
unfolding crc32_step
crc32_step-eq-crc_reference false crc p n hc h = crc_bytes-eq-crc_reference n crc p h
crc32_step-eq-crc_reference true crc p n hc h =
    let k : ℕ = n / 4 in
    let e : n ≡ k * 4 + n % 4 = omega arith in
    crc_bytes-eq-crc_reference (n % 4) (crc_words k crc p) (from p (k * 4)) (λ i. h (k * 4 + i))
    ∙ ap (λ c. crc_reference (n % 4) c (from p (k * 4))) (crc_words-eq-crc_reference k crc p hc h)
    ∙ sym (crc_reference-add (k * 4) (n % 4) crc p)
    ∙ ap (λ m. crc_reference m crc p) (sym e)
