-- ===== src/Prelude/Bits.antt =====
-- `bit_and` at a variable, digit by digit.
use Prim.Native.Nat.{ℕ, zero, suc, ◌+◌, ◌*◌, ◌/◌, ◌%◌, ◌≤◌, min, bit_and, digits, bit_and-bitwise}
use mathlib.Core.Path.{◌≡◌, refl, sym, ap₂, ◌∙◌}
use native.Mathlib.Omega.{arith}

-- The native operation's definition, with its fuel.
abbrev conjunction : (fuel x y : ℕ) → ℕ
conjunction fuel x y = digits (λ d. zero) min fuel x y

conjunction-nothing : (fuel y : ℕ) → conjunction fuel zero y ≡ 0
conjunction-nothing zero y = refl
conjunction-nothing (suc fuel) y = refl

conjunction-clear : (fuel x : ℕ) → conjunction fuel x 0 ≡ 0
conjunction-clear fuel zero = conjunction-nothing fuel 0
conjunction-clear zero (suc x) = refl
conjunction-clear (suc fuel) (suc x) = omega (arith, conjunction-clear fuel (suc x / 2))

-- Fuel beyond the first operand changes nothing.
conjunction_grow :
    (x less more y : ℕ) → x ≤ less → less ≤ more → conjunction more x y ≡ conjunction less x y
conjunction_grow zero less more y h k =
    conjunction-nothing more y ∙ sym (conjunction-nothing less y)
conjunction_grow (suc x) zero more y h k = absurd (omega arith)
conjunction_grow (suc x) (suc less) zero y h k = absurd (omega arith)
conjunction_grow (suc x) (suc less) (suc more) y h k =
    let rest = conjunction_grow (suc x / 2) less more (y / 2) (omega arith) (omega arith) in
    omega (arith, rest)

bit_and_halves : (x y : ℕ) → bit_and x y ≡ bit_and (x / 2) (y / 2) * 2 + min (x % 2) (y % 2)
bit_and_halves zero y = omega (
  arith,
  bit_and-bitwise 0 y,
  conjunction-nothing 0 y,
  bit_and-bitwise 0 (y / 2),
  conjunction-nothing 0 (y / 2),
)
bit_and_halves (suc x) y =
    let h = suc x / 2 in
    let same = conjunction_grow h h x (y / 2) (omega arith) (omega arith) in
    omega (arith, same, bit_and-bitwise h (y / 2), bit_and-bitwise (suc x) y)

pub bit_and-zero : (a : ℕ) → bit_and a 0 ≡ 0
bit_and-zero a = bit_and-bitwise a 0 ∙ conjunction-clear a a

-- A set bit and a clear bit of the mask, where `y` is half of `a`.
pub bit_and-odd : (a y m : ℕ) → a / 2 ≡ y → bit_and a (2 * m + 1) ≡ bit_and y m * 2 + a % 2
bit_and-odd a y m e =
    let half : (2 * m + 1) / 2 ≡ m = omega arith in
    omega (arith, bit_and_halves a (2 * m + 1), ap₂ bit_and e half)

pub bit_and-even : (a y m : ℕ) → a / 2 ≡ y → bit_and a (2 * m) ≡ bit_and y m * 2
bit_and-even a y m e =
    let half : 2 * m / 2 ≡ m = omega arith in
    omega (arith, bit_and_halves a (2 * m), ap₂ bit_and e half)
