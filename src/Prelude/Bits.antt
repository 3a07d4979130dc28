-- ===== src/Prelude/Bits.antt =====
-- Masks: `&` and `|` of unsigned integers.
use Prim.Native.Nat.{
  ℕ, zero, suc, ◌+◌, ◌*◌, ◌/◌, ◌%◌, ◌≤◌, ◌<◌, min, max, bit_and, bit_or, digits, bit_and-bitwise,
  bit_or-bitwise,
}
use mathlib.Core.Path.{◌≡◌, refl, sym, ◌∙◌, ap, ap₂}
use mathlib.Core.Bool.{Bool, true, false, not, ◌||◌}
use native.Mathlib.Omega.{arith}
use drizzle_nginx_module.Prelude.Tests.{◌==◌}

-- The digits that are left do not depend on the fuel.
digits_fuel :
    (f : ℕ → ℕ) (g : ℕ → ℕ → ℕ) (n m a b : ℕ) → a ≤ n → a ≤ m → digits f g n a b ≡ digits f g m a b
digits_fuel f g zero zero a b p q = refl
digits_fuel f g zero (suc m) zero b p q = refl
digits_fuel f g zero (suc m) (suc a) b p q = absurd (omega arith)
digits_fuel f g (suc n) zero zero b p q = refl
digits_fuel f g (suc n) zero (suc a) b p q = absurd (omega arith)
digits_fuel f g (suc n) (suc m) zero b p q = refl
digits_fuel f g (suc n) (suc m) (suc a) b p q =
    ap (λ d. d * 2 + g (suc a % 2) (b % 2))
      (digits_fuel f g n m (suc a / 2) (b / 2) (omega arith) (omega arith))

zero-bit_and : (b : ℕ) → bit_and 0 b ≡ 0
zero-bit_and b = bit_and-bitwise 0 b

zero-bit_or : (b : ℕ) → bit_or 0 b ≡ b
zero-bit_or b = bit_or-bitwise 0 b

and_step : (a b : ℕ) → bit_and a b ≡ bit_and (a / 2) (b / 2) * 2 + min (a % 2) (b % 2)
and_step zero b = omega (arith, zero-bit_and b, zero-bit_and (b / 2))
and_step (suc a) b = omega (
  arith,
  bit_and-bitwise (suc a) b,
  bit_and-bitwise (suc a / 2) (b / 2),
  digits_fuel (λ b. zero) min a (suc a / 2) (suc a / 2) (b / 2) (omega arith) (omega arith),
)

or_step : (a b : ℕ) → bit_or a b ≡ bit_or (a / 2) (b / 2) * 2 + max (a % 2) (b % 2)
or_step zero b = omega (arith, zero-bit_or b, zero-bit_or (b / 2))
or_step (suc a) b = omega (
  arith,
  bit_or-bitwise (suc a) b,
  bit_or-bitwise (suc a / 2) (b / 2),
  digits_fuel (λ b. b) max a (suc a / 2) (suc a / 2) (b / 2) (omega arith) (omega arith),
)

or_half : (a b : ℕ) → bit_or a b / 2 ≡ bit_or (a / 2) (b / 2)
or_half a b = omega (arith, or_step a b)

and_half : (a b : ℕ) → bit_and a b / 2 ≡ bit_and (a / 2) (b / 2)
and_half a b = omega (arith, and_step a b)

or_low : (a b : ℕ) → bit_or a b % 2 ≡ max (a % 2) (b % 2)
or_low a b = omega (arith, or_step a b)

and_low : (a b : ℕ) → bit_and a b % 2 ≡ min (a % 2) (b % 2)
and_low a b = omega (arith, and_step a b)

-- By the digits, lowest first.
or_and_fuel :
    (n a b k : ℕ) → a ≤ n → b ≤ n → bit_and (bit_or a b) k ≡ bit_or (bit_and a k) (bit_and b k)
or_and_fuel zero zero zero k p q = rw (zero-bit_or 0, zero-bit_and k, zero-bit_or 0) refl
or_and_fuel zero zero (suc b) k p q = absurd (omega arith)
or_and_fuel zero (suc a) b k p q = absurd (omega arith)
or_and_fuel (suc n) a b k p q =
    let halves : bit_and (bit_or a b / 2) (k / 2) ≡ bit_or (bit_and a k / 2) (bit_and b k / 2) =
      ap (λ x. bit_and x (k / 2)) (or_half a b)
      ∙ or_and_fuel n (a / 2) (b / 2) (k / 2) (omega arith) (omega arith)
      ∙ ap₂ bit_or (sym (and_half a k)) (sym (and_half b k)) in
    omega (
      arith,
      halves,
      and_step (bit_or a b) k,
      or_low a b,
      and_low a k,
      and_low b k,
      or_step (bit_and a k) (bit_and b k),
    )

and_self_fuel : (n a : ℕ) → a ≤ n → bit_and a a ≡ a
and_self_fuel n zero h = zero-bit_and 0
and_self_fuel zero (suc a) h = absurd (omega arith)
and_self_fuel (suc n) (suc a) h =
    omega (arith, and_step (suc a) (suc a), and_self_fuel n (suc a / 2) (omega arith))

-- `mask & key`, as a test.
abbrev pub meets : ℕ → ℕ → Bool
meets mask key = not (bit_and mask key == 0)

or_bounds_fuel :
    (n a b : ℕ) → a ≤ n → b ≤ n → (a ≤ bit_or a b) × (b ≤ bit_or a b) × (bit_or a b ≤ a + b)
or_bounds_fuel zero zero zero p q = rw (zero-bit_or 0) (omega arith)
or_bounds_fuel zero zero (suc b) p q = absurd (omega arith)
or_bounds_fuel zero (suc a) b p q = absurd (omega arith)
or_bounds_fuel (suc n) a b p q =
    omega (arith, or_bounds_fuel n (a / 2) (b / 2) (omega arith) (omega arith), or_step a b)

or_bounds : (a b : ℕ) → (a ≤ bit_or a b) × (b ≤ bit_or a b) × (bit_or a b ≤ a + b)
or_bounds a b = or_bounds_fuel (a + b) a b (omega arith) (omega arith)

-- `a | b` meets a mask where `a` or `b` does.
pub meets-bit_or : (a b key : ℕ) → meets (bit_or a b) key ≡ meets a key || meets b key
meets-bit_or a b key = ground (
  arith,
  or_and_fuel (a + b) a b key (omega arith) (omega arith),
  or_bounds (bit_and a key) (bit_and b key),
)

pub zero-meets : (key : ℕ) → meets 0 key ≡ false
zero-meets key = ground (arith, zero-bit_and key)

pub meets_self : (key : ℕ) → 0 < key → meets key key ≡ true
meets_self key h = ground (arith, h, and_self_fuel key key (omega arith))
