-- ===== src/Common/Xor.antt =====
-- Laws of the native exclusive or, from its binary digits.
use Prim.Native.Nat.{
  ℕ, zero, suc, ◌+◌, ◌*◌, ◌/◌, ◌%◌, ◌≤◌, ◌<◌, ◌^◌, bit_xor, digits, differ, bit_xor-bitwise,
}
use mathlib.Core.Path.{◌≡◌, refl, sym, ap, ap₂, ◌∙◌}
use native.Mathlib.Omega.{arith}

abbrev xor_digits : ℕ → ℕ → ℕ → ℕ
xor_digits n a b = digits (λ b. b) differ n a b

xor_digits_fuel : (n m a b : ℕ) → a ≤ n → a ≤ m → xor_digits n a b ≡ xor_digits m a b
xor_digits_fuel zero zero a b p q = refl
xor_digits_fuel zero (suc m) zero b p q = refl
xor_digits_fuel zero (suc m) (suc a) b p q = absurd (omega arith)
xor_digits_fuel (suc n) zero zero b p q = refl
xor_digits_fuel (suc n) zero (suc a) b p q = absurd (omega arith)
xor_digits_fuel (suc n) (suc m) zero b p q = refl
xor_digits_fuel (suc n) (suc m) (suc a) b p q =
    omega (arith, xor_digits_fuel n m (suc a / 2) (b / 2) (omega arith) (omega arith))

pub zero-xor : (b : ℕ) → bit_xor 0 b ≡ b
zero-xor b = bit_xor-bitwise 0 b

differ_digits : (x y : ℕ) → x < 2 → y < 2 → differ x y ≡ (x + y) % 2
differ_digits zero y p q = omega arith
differ_digits (suc zero) zero p q = refl
differ_digits (suc zero) (suc zero) p q = refl
differ_digits (suc zero) (suc (suc y)) p q = absurd (omega arith)
differ_digits (suc (suc x)) y p q = absurd (omega arith)

-- One binary digit.
pub xor_step : (a b : ℕ) → bit_xor a b ≡ bit_xor (a / 2) (b / 2) * 2 + (a % 2 + b % 2) % 2
xor_step zero b = omega (arith, zero-xor b, zero-xor (b / 2))
xor_step (suc a) b = omega (
  arith,
  bit_xor-bitwise (suc a) b,
  bit_xor-bitwise (suc a / 2) (b / 2),
  differ_digits (suc a % 2) (b % 2) (omega arith) (omega arith),
  xor_digits_fuel a (suc a / 2) (suc a / 2) (b / 2) (omega arith) (omega arith),
)

pub xor_comm : (a b : ℕ) → bit_xor a b ≡ bit_xor b a
xor_comm a b = go (a + b) a b (omega arith)
  where
    go : (n a b : ℕ) → a + b ≤ n → bit_xor a b ≡ bit_xor b a
    go zero zero zero h = refl
    go zero (suc a) b h = absurd (omega arith)
    go zero zero (suc b) h = absurd (omega arith)
    go (suc n) zero zero h = refl
    go (suc n) (suc a) b h =
        omega
          (arith, xor_step (suc a) b, xor_step b (suc a), go n (suc a / 2) (b / 2) (omega arith))
    go (suc n) zero (suc b) h = omega (
      arith,
      xor_step zero (suc b),
      xor_step (suc b) zero,
      go n (zero / 2) (suc b / 2) (omega arith),
    )

pub xor-zero : (a : ℕ) → bit_xor a 0 ≡ a
xor-zero a = xor_comm a 0 ∙ zero-xor a

pub xor_half : (a b : ℕ) → bit_xor a b / 2 ≡ bit_xor (a / 2) (b / 2)
xor_half a b = omega (arith, xor_step a b)

pub xor_parity : (a b : ℕ) → bit_xor a b % 2 ≡ (a % 2 + b % 2) % 2
xor_parity a b = omega (arith, xor_step a b)

pub xor_assoc : (a b c : ℕ) → bit_xor (bit_xor a b) c ≡ bit_xor a (bit_xor b c)
xor_assoc a b c = go (a + b + c) a b c (omega arith)
  where
    go : (n a b c : ℕ) → a + b + c ≤ n → bit_xor (bit_xor a b) c ≡ bit_xor a (bit_xor b c)
    go zero a b c h =
        let ea : a ≡ 0 = omega arith in
        let eb : b ≡ 0 = omega arith in let ec : c ≡ 0 = omega arith in rw (ea, eb, ec)
    go (suc n) zero b c h = ap (λ x. bit_xor x c) (zero-xor b) ∙ sym (zero-xor (bit_xor b c))
    go (suc n) (suc a) b c h =
        let x = suc a in
        xor_step (bit_xor x b) c
        ∙ (let ih = go n (x / 2) (b / 2) (c / 2) (omega arith) in
            let l : bit_xor (bit_xor x b / 2) (c / 2) ≡ bit_xor (x / 2) (bit_xor b c / 2) =
              ap (λ y. bit_xor y (c / 2)) (xor_half x b)
              ∙ ih
              ∙ ap (bit_xor (x / 2)) (sym (xor_half b c)) in
            omega (arith, l, xor_parity x b, xor_parity b c))
        ∙ sym (xor_step x (bit_xor b c))

pub xor_self : (a : ℕ) → bit_xor a a ≡ 0
xor_self a = go a a (omega arith)
  where
    go : (n a : ℕ) → a ≤ n → bit_xor a a ≡ 0
    go n zero h = refl
    go zero (suc a) h = absurd (omega arith)
    go (suc n) (suc a) h = omega (arith, xor_step (suc a) (suc a), go n (suc a / 2) (omega arith))

abbrev halve : ℕ → ℕ → ℕ
halve zero a = a
halve (suc k) a = halve k (a / 2)

abbrev double : ℕ → ℕ → ℕ
double zero a = a
double (suc k) a = double k a * 2

xor_halve : (k a b : ℕ) → halve k (bit_xor a b) ≡ bit_xor (halve k a) (halve k b)
xor_halve zero a b = refl
xor_halve (suc k) a b = ap (halve k) (xor_half a b) ∙ xor_halve k (a / 2) (b / 2)

xor_double : (k a b : ℕ) → halve k b ≡ 0 → bit_xor (double k a) b ≡ double k a + b
xor_double zero a b h = rw h (xor-zero a ∙ omega arith)
xor_double (suc k) a b h =
    let e : double k a * 2 / 2 ≡ double k a = omega arith in
    let s = xor_step (double k a * 2) b in
    let ih = xor_double k a (b / 2) h in omega (arith, s, ap (λ x. bit_xor x (b / 2)) e, ih)

-- A byte at a time.
pub xor_div : (a b : ℕ) → bit_xor a b / 256 ≡ bit_xor (a / 256) (b / 256)
xor_div a b =
    let e : halve 8 (bit_xor a b) ≡ bit_xor a b / 256 = omega arith in
    let f : halve 8 a ≡ a / 256 = omega arith in
    let g : halve 8 b ≡ b / 256 = omega arith in sym e ∙ xor_halve 8 a b ∙ ap₂ bit_xor f g

-- Operands with no byte in common add up.
pub xor_join : (a b : ℕ) → b < 256 → bit_xor (a * 256) b ≡ a * 256 + b
xor_join a b h =
    let e : double 8 a ≡ a * 256 = omega arith in
    ap (λ x. bit_xor x b) (sym e) ∙ xor_double 8 a b (omega arith) ∙ ap (λ x. x + b) e

pub xor_join16 : (a b : ℕ) → b < 2 ^ 16 → bit_xor (a * 2 ^ 16) b ≡ a * 2 ^ 16 + b
xor_join16 a b h =
    let e : double 16 a ≡ a * 2 ^ 16 = omega arith in
    ap (λ x. bit_xor x b) (sym e) ∙ xor_double 16 a b (omega arith) ∙ ap (λ x. x + b) e

pub xor_join24 : (a b : ℕ) → b < 2 ^ 24 → bit_xor (a * 2 ^ 24) b ≡ a * 2 ^ 24 + b
xor_join24 a b h =
    let e : double 24 a ≡ a * 2 ^ 24 = omega arith in
    ap (λ x. bit_xor x b) (sym e) ∙ xor_double 24 a b (omega arith) ∙ ap (λ x. x + b) e

pub xor-lt : (a b : ℕ) → a < 2 ^ 32 → b < 2 ^ 32 → bit_xor a b < 2 ^ 32
xor-lt a b ha hb =
    let w = λ (x y : ℕ). ap (λ z. z / 256) (xor_div x y) in
    let za : a / 256 / 256 / 256 / 256 ≡ 0 = omega arith in
    let zb : b / 256 / 256 / 256 / 256 ≡ 0 = omega arith in
    let e : bit_xor (a / 256 / 256 / 256 / 256) (b / 256 / 256 / 256 / 256) ≡ 0 = rw (za, zb) in
    omega (
      arith,
      xor_div a b,
      xor_div (a / 256) (b / 256),
      xor_div (a / 256 / 256) (b / 256 / 256),
      xor_div (a / 256 / 256 / 256) (b / 256 / 256 / 256),
      e,
    )
