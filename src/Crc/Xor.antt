-- ===== src/Crc/Xor.antt =====
-- Exclusive or of numbers of any width, from its binary digits.
use Prim.Native.Nat.{digits, min, bit_and, bit_and-bitwise, bit_xor, bit_xor-bitwise, differ}
use mathlib.Core.WellFounded
use native.Mathlib.Nat.{pow-suc}
use yat.Common.{ℕ, zero, suc, ◌+◌, ◌*◌, ◌/◌, ◌%◌, ◌^◌, ◌≤◌, ◌<◌, ◌≡◌, refl, ◌∙◌, ap, arith, lt_wf}

-- The recursion behind the bit operations has fuel; more of it than the first number changes
-- nothing.
module _ (rest : ℕ → ℕ) (digit : ℕ → ℕ → ℕ) where
  same_digits : (k l x y : ℕ) → x ≤ k → x ≤ l → digits rest digit k x y ≡ digits rest digit l x y
  same_digits zero zero x y hk hl = refl
  same_digits (suc k) zero zero y hk hl = refl
  same_digits zero (suc l) zero y hk hl = refl
  same_digits (suc k) (suc l) zero y hk hl = refl
  same_digits (suc k) zero (suc x) y hk hl = absurd (omega arith)
  same_digits zero (suc l) (suc x) y hk hl = absurd (omega arith)
  same_digits (suc k) (suc l) (suc x) y hk hl =
      ap (λ (high : ℕ). high * 2 + digit (suc x % 2) (y % 2))
        (same_digits k l (suc x / 2) (y / 2) (omega arith) (omega arith))

differ_bits : (x y : ℕ) → x < 2 → y < 2 → differ x y ≡ (x + y) % 2
differ_bits zero y hx hy = omega arith
differ_bits (suc zero) zero hx hy = refl
differ_bits (suc zero) (suc zero) hx hy = refl
differ_bits (suc zero) (suc (suc y)) hx hy = absurd (omega arith)
differ_bits (suc (suc x)) y hx hy = absurd (omega arith)

-- The lowest digit, and the others.
pub xor_step : (a b : ℕ) → bit_xor a b ≡ bit_xor (a / 2) (b / 2) * 2 + (a % 2 + b % 2) % 2
xor_step zero b = simp bit_xor-bitwise (omega arith)
xor_step (suc a) b = simp bit_xor-bitwise (
    omega (
      arith,
      same_digits (λ y. y) differ a (suc a / 2) (suc a / 2) (b / 2) (omega arith) (omega arith),
      differ_bits (suc a % 2) (b % 2) (omega arith) (omega arith),
    ))

pub xor-zero : (a : ℕ) → bit_xor a 0 ≡ a
xor-zero a = WellFounded.induction lt_wf {C = λ n. bit_xor n 0 ≡ n} a by_half
  where
    by_half : (n : ℕ) → ((m : ℕ) → m < n → bit_xor m 0 ≡ m) → bit_xor n 0 ≡ n
    by_half zero ih = refl
    by_half (suc n) ih = omega (arith, xor_step (suc n) 0, ih (suc n / 2) (omega arith))

zero-xor : (b : ℕ) → bit_xor 0 b ≡ b
zero-xor b = simp bit_xor-bitwise

pub xor-half : (a b : ℕ) → bit_xor a b / 2 ≡ bit_xor (a / 2) (b / 2)
xor-half a b = omega (arith, xor_step a b)

pub xor-parity : (a b : ℕ) → bit_xor a b % 2 ≡ (a % 2 + b % 2) % 2
xor-parity a b = omega (arith, xor_step a b)

-- Below a power of two the result stays below it.
pub xor-lt : (k a b : ℕ) → a < 2 ^ k → b < 2 ^ k → bit_xor a b < 2 ^ k
xor-lt zero a b ha hb =
    let ea : a ≡ 0 = omega arith in let eb : b ≡ 0 = omega arith in rw (ea, eb) (omega arith)
xor-lt (suc k) a b ha hb = omega (
  arith,
  pow-suc 2 k,
  xor_step a b,
  xor-lt k (a / 2) (b / 2) (omega (arith, pow-suc 2 k)) (omega (arith, pow-suc 2 k)),
)

right_comm_below :
    (n a b c : ℕ) → a ≤ n → b ≤ n → c ≤ n → bit_xor (bit_xor a b) c ≡ bit_xor (bit_xor a c) b
right_comm_below zero a b c ha hb hc =
    let eb : b ≡ 0 = omega arith in let ec : c ≡ 0 = omega arith in rw (eb, ec)
right_comm_below (suc n) a b c ha hb hc = ground (
  arith,
  xor_step (bit_xor a b) c,
  xor_step (bit_xor a c) b,
  xor-half a b,
  xor-half a c,
  xor-parity a b,
  xor-parity a c,
  right_comm_below n (a / 2) (b / 2) (c / 2) (omega arith) (omega arith) (omega arith),
)

pub xor_right_comm : (a b c : ℕ) → bit_xor (bit_xor a b) c ≡ bit_xor (bit_xor a c) b
xor_right_comm a b c = right_comm_below (a + b + c) a b c (omega arith) (omega arith) (omega arith)

double_pow : (h k : ℕ) → h * 2 ^ suc k ≡ 2 * (h * 2 ^ k)
double_pow h k = omega (arith, ap (λ (p : ℕ). h * p) (pow-suc 2 k))

-- Numbers that share no digit are added.
pub xor_sum : (k low h : ℕ) → low < 2 ^ k → bit_xor low (h * 2 ^ k) ≡ low + h * 2 ^ k
xor_sum zero low h fits = let e : low ≡ 0 = omega arith in rw e (zero-xor (h * 2 ^ 0) ∙ omega arith)
xor_sum (suc k) low h fits = ground (
  arith,
  double_pow h k,
  xor_step low (h * 2 ^ suc k),
  xor_sum k (low / 2) h (omega (arith, pow-suc 2 k)),
)

pub xor-double : (k low h : ℕ) → bit_xor low (h * 2 ^ suc k) / 2 ≡ bit_xor (low / 2) (h * 2 ^ k)
xor-double k low h = ground (arith, xor-half low (h * 2 ^ suc k), double_pow h k)

pub xor_parity_low : (k low h : ℕ) → bit_xor low (h * 2 ^ suc k) % 2 ≡ low % 2
xor_parity_low k low h = omega (arith, xor-parity low (h * 2 ^ suc k), double_pow h k)

and_step : (a b : ℕ) → bit_and a b ≡ bit_and (a / 2) (b / 2) * 2 + min (a % 2) (b % 2)
and_step zero b = simp bit_and-bitwise (omega arith)
and_step (suc a) b = simp bit_and-bitwise (
    omega (
      arith,
      same_digits (λ y. 0) min a (suc a / 2) (suc a / 2) (b / 2) (omega arith) (omega arith),
    ))

and-zero : (a : ℕ) → bit_and a 0 ≡ 0
and-zero a = WellFounded.induction lt_wf {C = λ n. bit_and n 0 ≡ 0} a by_half
  where
    by_half : (n : ℕ) → ((m : ℕ) → m < n → bit_and m 0 ≡ 0) → bit_and n 0 ≡ 0
    by_half zero ih = refl
    by_half (suc n) ih = omega (arith, and_step (suc n) 0, ih (suc n / 2) (omega arith))

-- The mask of `k` ones, lowest digit first.
abbrev ones : ℕ → ℕ
ones zero = 0
ones (suc k) = 2 * ones k + 1

-- The last `k` digits.
abbrev low_digits : ℕ → ℕ → ℕ
low_digits zero a = 0
low_digits (suc k) a = low_digits k (a / 2) * 2 + a % 2

and-ones : (k a : ℕ) → bit_and a (ones k) ≡ low_digits k a
and-ones zero a = and-zero a
and-ones (suc k) a =
    let half : (2 * ones k + 1) / 2 ≡ ones k = omega arith in
    ground (arith, and_step a (2 * ones k + 1), half, and-ones k (a / 2))

-- The mask 0xff takes the remainder by 256.
pub and_low_byte : (a : ℕ) → bit_and a 0xff ≡ a % 256
and_low_byte a = omega (arith, and-ones 8 a)
