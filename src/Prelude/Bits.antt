-- ===== src/Prelude/Bits.antt =====
-- Shifts and masks as arithmetic. The laws come from the digit recursion behind the native
-- operations, and facts about one byte from a table of all its values.
use Prim.Native.Nat.{
  ℕ, zero, suc, ◌+◌, ◌-◌, ◌*◌, ◌/◌, ◌%◌, ◌^◌, ◌≤◌, ◌<◌, max, min, bit_and, bit_or, digits,
  bit_or-bitwise, bit_and-bitwise,
}
use mathlib.Core.Path.{◌≡◌, refl, ap, ◌∙◌}
use mathlib.Core.Bool.{Bool, true, ◌&&◌}
use native.Mathlib.Nat.{
  div-div-eq-div-mul, pow-suc, mul-add-mod_self_right, mod-eq_of_lt, mod-lt, div-add-mod,
}
use native.Mathlib.Omega.{arith}
use linux_cec.Prelude.Tests.{◌==◌, ==_iff}

-- The digit recursion has a fuel, which does not matter once it reaches the first argument.
module _ (zero_case : ℕ → ℕ) (digit : ℕ → ℕ → ℕ) where
  fuel_irrelevant :
      (n m a b : ℕ) → a ≤ n → a ≤ m → digits zero_case digit n a b ≡ digits zero_case digit m a b
  fuel_irrelevant zero zero zero b p q = refl
  fuel_irrelevant zero (suc m) zero b p q = refl
  fuel_irrelevant (suc n) zero zero b p q = refl
  fuel_irrelevant (suc n) (suc m) zero b p q = refl
  fuel_irrelevant zero m (suc a) b p q = absurd (omega arith)
  fuel_irrelevant (suc n) zero (suc a) b p q = absurd (omega arith)
  fuel_irrelevant (suc n) (suc m) (suc a) b p q =
      omega (arith, fuel_irrelevant n m (suc a / 2) (b / 2) (omega arith) (omega arith))

  lowest_digit :
      (a b : ℕ)
      → digits zero_case digit (suc a) (suc a) b
        ≡ digits zero_case digit (suc a / 2) (suc a / 2) (b / 2) * 2 + digit (suc a % 2) (b % 2)
  lowest_digit a b =
      omega (arith, fuel_irrelevant a (suc a / 2) (suc a / 2) (b / 2) (omega arith) (omega arith))

pub or_step : (a b : ℕ) → bit_or a b ≡ bit_or (a / 2) (b / 2) * 2 + max (a % 2) (b % 2)
or_step zero b = simp bit_or-bitwise (omega arith)
or_step (suc a) b = simp bit_or-bitwise (lowest_digit (λ y. y) max a b)

pub and_step : (a b : ℕ) → bit_and a b ≡ bit_and (a / 2) (b / 2) * 2 + min (a % 2) (b % 2)
and_step zero b = simp bit_and-bitwise (omega arith)
and_step (suc a) b = simp bit_and-bitwise (lowest_digit (λ y. 0) min a b)

zero-or : (b : ℕ) → bit_or 0 b ≡ b
zero-or b = bit_or-bitwise 0 b

pub or-zero : (n a : ℕ) → a ≤ n → bit_or a 0 ≡ a
or-zero zero zero h = refl
or-zero (suc n) zero h = refl
or-zero zero (suc a) h = absurd (omega arith)
or-zero (suc n) (suc a) h = omega (arith, or_step (suc a) 0, or-zero n (suc a / 2) (omega arith))

pub double : (k a : ℕ) → a * 2 ^ suc k ≡ a * 2 ^ k * 2
double k a = omega (arith, ap (λ (t : ℕ). a * t) (pow-suc 2 k))

-- A value shifted left by `k`, joined with a value of `k` bits, is their sum.
pub or_shifted : (k a b : ℕ) → b < 2 ^ k → bit_or (a * 2 ^ k) b ≡ a * 2 ^ k + b
or_shifted zero a zero h = or-zero (a * 1) (a * 1) (omega arith) ∙ omega arith
or_shifted zero a (suc b) h = absurd (omega arith)
or_shifted (suc k) a b h = rw (double k a) (
    omega (
      arith,
      or_step (a * 2 ^ k * 2) b,
      or_shifted k a (b / 2) (omega (arith, pow-suc 2 k)),
      ap (λ (t : ℕ). bit_or t (b / 2)) (double_half (a * 2 ^ k)),
    ))
  where
    double_half : (x : ℕ) → x * 2 / 2 ≡ x
    double_half x = omega arith

-- Its remainder by twice `m`, from the lowest digit and the rest.
mod_double : (m a : ℕ) → 0 < m → a % (m * 2) ≡ a / 2 % m * 2 + a % 2
mod_double m a pos =
    ap (λ (t : ℕ). t % (m * 2)) split
    ∙ mul-add-mod_self_right (a / 2 / m) (m * 2) (a / 2 % m * 2 + a % 2)
    ∙ mod-eq_of_lt (omega (arith, mod-lt (a / 2) pos))
  where
    split : a ≡ a / 2 / m * (m * 2) + (a / 2 % m * 2 + a % 2)
    split = omega (arith, div-add-mod (a / 2) m)

two_pow_pos : (k : ℕ) → 0 < 2 ^ k
two_pow_pos zero = omega arith
two_pow_pos (suc k) = omega (arith, two_pow_pos k, pow-suc 2 k)

and-zero : (n a : ℕ) → a ≤ n → bit_and a 0 ≡ 0
and-zero zero zero h = refl
and-zero (suc n) zero h = refl
and-zero zero (suc a) h = absurd (omega arith)
and-zero (suc n) (suc a) h = omega (arith, and_step (suc a) 0, and-zero n (suc a / 2) (omega arith))

-- A mask of `k` ones is the remainder by `2 ^ k`.
pub and_mask : (k a : ℕ) → bit_and a (2 ^ k - 1) ≡ a % 2 ^ k
and_mask zero a = omega (arith, and-zero a a (omega arith))
and_mask (suc k) a = omega (
  arith,
  pow-suc 2 k,
  two_pow_pos k,
  and_step a (2 ^ suc k - 1),
  and_mask k (a / 2),
  ap (λ (t : ℕ). bit_and (a / 2) t) rest_of_mask,
  mod_double (2 ^ k) a (two_pow_pos k),
  ap (λ (t : ℕ). a % t) (pow-suc 2 k),
)
  where
    rest_of_mask : (2 ^ suc k - 1) / 2 ≡ 2 ^ k - 1
    rest_of_mask = omega (arith, pow-suc 2 k, two_pow_pos k)

-- Whether two functions agree at the numbers below a bound, by evaluation.
unfoldable pub agree : (ℕ → ℕ) → (ℕ → ℕ) → ℕ → Bool
agree f g zero = true
agree f g (suc bound) = agree f g bound && (f bound == g bound)

agree-eq : (f g : ℕ → ℕ) (bound x : ℕ) → x < bound → agree f g bound ≡ true → f x ≡ g x
unfolding agree
agree-eq f g zero x below h = absurd (omega arith)
agree-eq f g (suc bound) x below h =
    ground (arith, agree-eq f g bound x, ==_iff (f bound) (g bound))

-- Two functions that agree at every byte by evaluation agree at every byte.
pub byte_table : (f g : ℕ → ℕ) → agree f g 256 ≡ true → (x : ℕ) → x < 256 → f x ≡ g x
byte_table f g h x below = agree-eq f g 256 x below h

-- A mask of one bit takes that bit.
pub and_bit : (k a : ℕ) → bit_and a (2 ^ k) ≡ a / 2 ^ k % 2 * 2 ^ k
and_bit zero a = omega (arith, and_mask 1 a)
and_bit (suc k) a = omega (
  arith,
  and_step a (2 ^ suc k),
  ap (λ (t : ℕ). bit_and (a / 2) t) half,
  and_bit k (a / 2),
  ap (λ (t : ℕ). t % 2 * 2 ^ k) shift,
  double k (a / 2 ^ suc k % 2),
  pow-suc 2 k,
)
  where
    half : 2 ^ suc k / 2 ≡ 2 ^ k
    half = omega (arith, pow-suc 2 k)

    shift : a / 2 / 2 ^ k ≡ a / 2 ^ suc k
    shift = div-div-eq-div-mul a 2 (2 ^ k) ∙ ap (λ (t : ℕ). a / t) (omega (arith, pow-suc 2 k))
