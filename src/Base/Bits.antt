-- ===== src/Base/Bits.antt =====
-- `|`, `&` and shifts by arithmetic, at every width.
use Prim.Native.Nat.{ℕ, zero, suc, ◌+◌, ◌-◌, ◌*◌, ◌/◌, ◌%◌, ◌^◌, ◌≤◌, ◌<◌, min, max}
use Prim.Native.Nat.{digits, bit_and, bit_or, bit_xor, differ}
use Prim.Native.Nat.{bit_and-bitwise, bit_or-bitwise, bit_xor-bitwise}
use mathlib.Core.Path.{◌≡◌, refl, ap, ◌∙◌}
use native.Mathlib.Nat.{
  pow-suc, mod-add-div, mod-lt, mod-eq_of_lt, mul-add-mod_self_left, mul_assoc, mul_comm,
}
use native.Mathlib.Omega.{arith}

infixl 60 ◌<<<◌ ◌>>>◌
abbrev pub ◌<<<◌ : ℕ → ℕ → ℕ
x <<< k = x * 2 ^ k

abbrev pub ◌>>>◌ : ℕ → ℕ → ℕ
x >>> k = x / 2 ^ k

abbrev pub u8 : ℕ → ℕ
u8 x = x % 2 ^ 8

abbrev pub u16 : ℕ → ℕ
u16 x = x % 2 ^ 16

abbrev pub u32 : ℕ → ℕ
u32 x = x % 2 ^ 32

abbrev pub u64 : ℕ → ℕ
u64 x = x % 2 ^ 64

abbrev pub IsByte : ℕ → Type 0
IsByte b = b < 256

-- More fuel than digits changes nothing.
module _ (z : ℕ → ℕ) (f : ℕ → ℕ → ℕ) where
  fuel_irrelevant : (a n m b : ℕ) → a ≤ n → a ≤ m → digits z f n a b ≡ digits z f m a b
  fuel_irrelevant a zero zero b p q = refl
  fuel_irrelevant zero zero (suc m) b p q = refl
  fuel_irrelevant zero (suc n) zero b p q = refl
  fuel_irrelevant zero (suc n) (suc m) b p q = refl
  fuel_irrelevant (suc a) zero (suc m) b p q = absurd (omega arith)
  fuel_irrelevant (suc a) (suc n) zero b p q = absurd (omega arith)
  fuel_irrelevant (suc a) (suc n) (suc m) b p q =
      ap (λ d. d * 2 + f (suc a % 2) (b % 2))
        (fuel_irrelevant (suc a / 2) n m (b / 2) (omega arith) (omega arith))

or_digit : (a b : ℕ) → bit_or a b ≡ bit_or (a / 2) (b / 2) * 2 + max (a % 2) (b % 2)
or_digit zero b = simp bit_or-bitwise (omega arith)
or_digit (suc a) b = simp bit_or-bitwise (
    ap (λ d. d * 2 + max (suc a % 2) (b % 2))
      (fuel_irrelevant (λ y. y) max (suc a / 2) a (suc a / 2) (b / 2) (omega arith) (omega arith)))

and_digit : (a b : ℕ) → bit_and a b ≡ bit_and (a / 2) (b / 2) * 2 + min (a % 2) (b % 2)
and_digit zero b = simp bit_and-bitwise (omega arith)
and_digit (suc a) b = simp bit_and-bitwise (
    ap (λ d. d * 2 + min (suc a % 2) (b % 2))
      (fuel_irrelevant (λ y. 0) min (suc a / 2) a (suc a / 2) (b / 2) (omega arith) (omega arith)))

zero-bit_or : (b : ℕ) → bit_or 0 b ≡ b
zero-bit_or b = bit_or-bitwise 0 b

-- Fields that do not overlap are joined by a sum.
pub bit_or_disjoint : (k lo hi : ℕ) → lo < 2 ^ k → bit_or lo (hi * 2 ^ k) ≡ lo + hi * 2 ^ k
bit_or_disjoint zero lo hi h = let e : lo ≡ 0 = omega arith in rw (e, zero-bit_or) (omega arith)
bit_or_disjoint (suc k) lo hi h = omega (
  arith,
  or_digit lo (hi * 2 ^ suc k),
  double,
  bit_or_disjoint k (lo / 2) hi (omega (arith, pow-suc 2 k)),
  ap (λ t. bit_or (lo / 2) t) halved,
)
  where
    double : hi * 2 ^ suc k ≡ 2 * (hi * 2 ^ k)
    double = omega (arith, ap (λ (t : ℕ). hi * t) (pow-suc 2 k))

    halved : hi * 2 ^ suc k / 2 ≡ hi * 2 ^ k
    halved = omega (arith, double)

-- `|` is zero only for zeros.
bit_or_eq_zero_fuel : (fuel a b : ℕ) → a ≤ fuel → b ≤ fuel → bit_or a b ≡ 0 → (a ≡ 0) × (b ≡ 0)
bit_or_eq_zero_fuel zero a b ha hb e = omega arith
bit_or_eq_zero_fuel (suc fuel) a b ha hb e = omega (
  arith,
  or_digit a b,
  bit_or_eq_zero_fuel fuel (a / 2) (b / 2) (omega arith) (omega arith)
      (omega (arith, or_digit a b)),
)

pub bit_or_eq_zero : (a b : ℕ) → bit_or a b ≡ 0 → (a ≡ 0) × (b ≡ 0)
bit_or_eq_zero a b = bit_or_eq_zero_fuel (a + b) a b (omega arith) (omega arith)

xor_digit : (a b : ℕ) → bit_xor a b ≡ bit_xor (a / 2) (b / 2) * 2 + differ (a % 2) (b % 2)
xor_digit zero b = simp bit_xor-bitwise (omega arith)
xor_digit (suc a) b = simp bit_xor-bitwise (
    ap (λ d. d * 2 + differ (suc a % 2) (b % 2))
      (fuel_irrelevant (λ y. y) differ (suc a / 2) a (suc a / 2) (b / 2) (omega arith)
        (omega arith)))

differ_eq_zero : (x y : ℕ) → differ x y ≡ 0 → x ≡ y
differ_eq_zero zero y e = omega arith
differ_eq_zero (suc x) zero e = e
differ_eq_zero (suc x) (suc y) e = ap suc (differ_eq_zero x y e)

differ_self : (x : ℕ) → differ x x ≡ 0
differ_self zero = refl
differ_self (suc x) = differ_self x

differ-lt : (x y : ℕ) → x < 2 → y < 2 → differ x y < 2
differ-lt zero y hx hy = hy
differ-lt (suc zero) zero hx hy = omega arith
differ-lt (suc zero) (suc y) hx hy = omega arith
differ-lt (suc (suc x)) y hx hy = absurd (omega arith)

bit_xor_eq_zero_fuel : (fuel a b : ℕ) → a ≤ fuel → b ≤ fuel → bit_xor a b ≡ 0 → a ≡ b
bit_xor_eq_zero_fuel zero a b ha hb e = omega arith
bit_xor_eq_zero_fuel (suc fuel) a b ha hb e = omega (
  arith,
  differ_eq_zero (a % 2) (b % 2) (omega (arith, xor_digit a b)),
  bit_xor_eq_zero_fuel fuel (a / 2) (b / 2) (omega arith) (omega arith)
      (omega (arith, xor_digit a b)),
)

-- `^` is zero only on equal numbers.
pub bit_xor_eq_zero : (a b : ℕ) → bit_xor a b ≡ 0 → a ≡ b
bit_xor_eq_zero a b = bit_xor_eq_zero_fuel (a + b) a b (omega arith) (omega arith)

bit_xor_self_fuel : (fuel a : ℕ) → a ≤ fuel → bit_xor a a ≡ 0
bit_xor_self_fuel zero a h = let e : a ≡ 0 = omega arith in rw e
bit_xor_self_fuel (suc fuel) a h =
    omega (arith, xor_digit a a, differ_self (a % 2), bit_xor_self_fuel fuel (a / 2) (omega arith))

pub bit_xor_self : (a : ℕ) → bit_xor a a ≡ 0
bit_xor_self a = bit_xor_self_fuel a a (omega arith)

-- `^` of two numbers of `k` bits has `k` bits.
pub bit_xor-lt : (k a b : ℕ) → a < 2 ^ k → b < 2 ^ k → bit_xor a b < 2 ^ k
bit_xor-lt zero a b ha hb =
    let ea : a ≡ 0 = omega arith in let eb : b ≡ 0 = omega arith in rw (ea, eb) (omega arith)
bit_xor-lt (suc k) a b ha hb = omega (
  arith,
  pow-suc 2 k,
  xor_digit a b,
  differ-lt (a % 2) (b % 2) (omega arith) (omega arith),
  bit_xor-lt k (a / 2) (b / 2) (omega (arith, pow-suc 2 k)) (omega (arith, pow-suc 2 k)),
)

bit_and-zero_fuel : (fuel a : ℕ) → a ≤ fuel → bit_and a 0 ≡ 0
bit_and-zero_fuel zero a h = let e : a ≡ 0 = omega arith in rw e (bit_and-bitwise 0 0)
bit_and-zero_fuel (suc fuel) a h =
    omega (arith, and_digit a 0, bit_and-zero_fuel fuel (a / 2) (omega arith))

pub pow_pos : (k : ℕ) → 0 < 2 ^ k
pow_pos zero = omega arith
pow_pos (suc k) = omega (arith, pow-suc 2 k, pow_pos k)

double_mod : (a p : ℕ) → 0 < p → a % (p * 2) ≡ a / 2 % p * 2 + a % 2
double_mod a p h =
    let q = a / 2 / p in
    let r = a / 2 % p in
    let split : a ≡ (p * 2) * q + (r * 2 + a % 2) =
      omega (arith, mod-add-div (a / 2) p, mul_assoc p 2 q, mul_comm 2 q, mul_assoc p q 2) in
    let small : r * 2 + a % 2 < p * 2 = omega (arith, mod-lt (a / 2) h) in
    ap (λ n. n % (p * 2)) split
    ∙ mul-add-mod_self_left (p * 2) q (r * 2 + a % 2)
    ∙ mod-eq_of_lt small

-- A mask of `k` ones keeps the remainder by `2 ^ k`.
pub bit_and_mask : (k a : ℕ) → bit_and a (2 ^ k - 1) ≡ a % 2 ^ k
bit_and_mask zero a = omega (arith, bit_and-zero_fuel a a (omega arith))
bit_and_mask (suc k) a =
    let p = 2 ^ k in
    let half : (2 ^ suc k - 1) / 2 ≡ p - 1 = omega (arith, pow-suc 2 k, pow_pos k) in
    let odd : (2 ^ suc k - 1) % 2 ≡ 1 = omega (arith, pow-suc 2 k, pow_pos k) in
    omega (
      arith,
      and_digit a (2 ^ suc k - 1),
      ap (λ m. bit_and (a / 2) m) half,
      odd,
      bit_and_mask k (a / 2),
      double_mod a p (pow_pos k),
      ap (λ m. a % m) (pow-suc 2 k),
    )
