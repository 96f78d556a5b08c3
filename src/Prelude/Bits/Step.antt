-- ===== src/Prelude/Bits/Step.antt =====
-- `&` and `|` on the lowest digit, from the recursion that the native operations stand for.
use Prim.Native.Nat.{
  ℕ, zero, suc, ◌+◌, ◌-◌, ◌*◌, ◌/◌, ◌%◌, ◌≤◌, min, max, bit_and, bit_or, digits, bitwise,
  bit_and-bitwise, bit_or-bitwise,
}
use mathlib.Core.Path.{◌≡◌, refl, ◌∙◌}
use native.Mathlib.Omega.{arith}

module _ (rest : ℕ → ℕ) (digit : ℕ → ℕ → ℕ) where
  -- The recursion on `x`, halved in each round, for at most `fuel` rounds.
  abbrev run : ℕ → ℕ → ℕ → ℕ
  run fuel x y = digits rest digit fuel x y

  -- With `x` rounds at hand, one more changes nothing,
  run_once_more : (fuel x y : ℕ) → x ≤ fuel → run (suc fuel) x y ≡ run fuel x y
  run_once_more fuel zero y le = nothing fuel
    where
      nothing : (n : ℕ) → run (suc n) zero y ≡ run n zero y
      nothing zero = refl
      nothing (suc n) = refl
  run_once_more zero (suc x) y le = absurd (omega arith)
  run_once_more (suc fuel) (suc x) y le = rw (run_once_more fuel (suc x / 2) (y / 2) (omega arith))

  -- and so do any number more.
  run_more :
      (extra fuel total x y : ℕ) → total ≡ fuel + extra → x ≤ fuel → run total x y ≡ run fuel x y
  run_more zero fuel total x y e le = let same : total ≡ fuel = omega arith in rw same
  run_more (suc extra) fuel total x y e le =
      let next : total ≡ suc (fuel + extra) = omega arith in
      rw next (
        run_once_more (fuel + extra) x y (omega arith)
        ∙ run_more extra fuel (fuel + extra) x y refl le)

  -- The lowest digit of the result, before those of the halves.
  lowest :
      (x y : ℕ)
      → bitwise rest digit (suc x) y
        ≡ bitwise rest digit (suc x / 2) (y / 2) * 2 + digit (suc x % 2) (y % 2)
  lowest x y =
      let half : ℕ = suc x / 2 in
      let same = run_more (x - half) half x half (y / 2) (omega arith) (omega arith) in
      omega (arith, same)

pub zero-bit_and : (y : ℕ) → bit_and 0 y ≡ 0
zero-bit_and y = bit_and-bitwise 0 y

pub bit_or_step : (x y : ℕ) → bit_or x y ≡ max (x % 2) (y % 2) + 2 * bit_or (x / 2) (y / 2)
bit_or_step zero y = omega (arith, bit_or-bitwise 0 y, bit_or-bitwise 0 (y / 2))
bit_or_step (suc x) y = omega (
  arith,
  bit_or-bitwise (suc x) y,
  bit_or-bitwise (suc x / 2) (y / 2),
  lowest (λ (d : ℕ). d) max x y,
)

pub bit_and_step : (x y : ℕ) → bit_and x y ≡ min (x % 2) (y % 2) + 2 * bit_and (x / 2) (y / 2)
bit_and_step zero y = omega (arith, zero-bit_and y, zero-bit_and (y / 2))
bit_and_step (suc x) y = omega (
  arith,
  bit_and-bitwise (suc x) y,
  bit_and-bitwise (suc x / 2) (y / 2),
  lowest (λ (d : ℕ). 0) min x y,
)
