-- ===== src/Prelude/Bits/Fields.antt =====
-- `&` with `1 << k` and with a low mask, and `|` of disjoint fields, as arithmetic.
use Prim.Native.Nat.{ℕ, zero, suc, ◌+◌, ◌-◌, ◌*◌, ◌/◌, ◌%◌, ◌^◌, ◌≤◌, ◌<◌, min, bit_and, bit_or}
use mathlib.Core.Path.{◌≡◌, refl, sym, ap, ◌∙◌}
use native.Mathlib.Nat.{
  pow-suc, pow-succ', one-le-pow, mod-lt, mod-eq_of_lt, div-add-mod, mul-add-mod_self_left,
  div-div-eq-div-mul,
}
use native.Mathlib.Omega.{arith}
use qemu_risc_core.Prelude.Bits.Step.{bit_and_step, bit_or_step}
use qemu_risc_core.Prelude.Bits.Digits.{bit}

-- Both walk down the halves of `a` on fuel.
bit_and-zero_below : (n a : ℕ) → a ≤ n → bit_and a 0 ≡ 0
bit_and-zero_below zero zero le = refl
bit_and-zero_below zero (suc a) le = absurd (omega arith)
bit_and-zero_below (suc n) zero le = refl
bit_and-zero_below (suc n) (suc a) le =
    omega (arith, bit_and_step (suc a) 0, bit_and-zero_below n (suc a / 2) (omega arith))

pub bit_and-zero : (a : ℕ) → bit_and a 0 ≡ 0
bit_and-zero a = bit_and-zero_below a a (omega arith)

bit_or-zero_below : (n a : ℕ) → a ≤ n → bit_or a 0 ≡ a
bit_or-zero_below zero zero le = refl
bit_or-zero_below zero (suc a) le = absurd (omega arith)
bit_or-zero_below (suc n) zero le = refl
bit_or-zero_below (suc n) (suc a) le =
    omega (arith, bit_or_step (suc a) 0, bit_or-zero_below n (suc a / 2) (omega arith))

pub bit_or-zero : (a : ℕ) → bit_or a 0 ≡ a
bit_or-zero a = bit_or-zero_below a a (omega arith)

-- `x & (1 << k)` is that digit at its weight.
pub bit_and-two-pow : (x k : ℕ) → bit_and x (2 ^ k) ≡ bit x k * 2 ^ k
unfolding bit
bit_and-two-pow x zero = omega (arith, bit_and_step x 1, bit_and-zero (x / 2))
bit_and-two-pow x (suc k) =
    let half : 2 ^ suc k / 2 ≡ 2 ^ k = omega (arith, pow-suc 2 k) in
    let even : 2 ^ suc k % 2 ≡ 0 = omega (arith, pow-suc 2 k) in
    bit_and_step x (2 ^ suc k)
    ∙ rw (half, even, bit_and-two-pow (x / 2) k, pow-suc 2 k) (omega arith)

scale-two-pow-suc : (q k : ℕ) → q * 2 ^ suc k ≡ 2 * (q * 2 ^ k)
scale-two-pow-suc q k = omega (arith, ap (λ (t : ℕ). q * t) (pow-suc 2 k))

-- A number of whole units of 2 ^ (k + 1) is even, and its half is as many of 2 ^ k.
units_half : (q k : ℕ) → (q * 2 ^ suc k / 2 ≡ q * 2 ^ k) × (q * 2 ^ suc k % 2 ≡ 0)
units_half q k = omega (arith, scale-two-pow-suc q k)

-- Disjoint fields: `(q << k) | r` is a sum when `r` fits `k` digits.
pub bit_or-fields : (q k r : ℕ) → r < 2 ^ k → bit_or (q * 2 ^ k) r ≡ q * 2 ^ k + r
bit_or-fields q zero r fits =
    let none : r ≡ 0 = omega arith in rw none (bit_or-zero (q * 1) ∙ omega arith)
bit_or-fields q (suc k) r fits =
    let (half, even) = units_half q k in
    bit_or_step (q * 2 ^ suc k) r
    ∙ rw (half, even, bit_or-fields q k (r / 2) (omega (arith, pow-suc 2 k)))
        (omega (arith, scale-two-pow-suc q k))

-- The remainder by 2 ^ (k + 1), from the lowest digit and the remainder of the half.
mod-half : (k x : ℕ) → x % 2 ^ suc k ≡ min (x % 2) 1 + 2 * (x / 2 % 2 ^ k)
mod-half k x =
    let p : ℕ = 2 ^ k in
    let r : ℕ = x % 2 + 2 * (x / 2 % p) in
    let low : x / 2 % p < p = mod-lt (x / 2) (one-le-pow k 2 (omega arith)) in
    let split : x ≡ 2 ^ suc k * (x / 2 / p) + r =
      omega (arith, div-add-mod (x / 2) p, scale-two-pow-suc (x / 2 / p) k) in
    let kept : (2 ^ suc k * (x / 2 / p) + r) % 2 ^ suc k ≡ r =
      mul-add-mod_self_left (2 ^ suc k) (x / 2 / p) r ∙ mod-eq_of_lt (omega (arith, pow-suc 2 k)) in
    ap (λ (t : ℕ). t % 2 ^ suc k) split ∙ kept ∙ omega arith

-- `x & (2 ^ k - 1)` keeps the digits below `k`: with those above it makes up `x`.
pub bit_and-low_mask : (k x : ℕ) → bit_and x (2 ^ k - 1) ≡ x % 2 ^ k
bit_and-low_mask zero x = bit_and-zero x ∙ omega arith
bit_and-low_mask (suc k) x =
    let ones : (2 ^ suc k - 1) / 2 ≡ 2 ^ k - 1 = omega (arith, pow-suc 2 k, one-le-pow k 2) in
    let odd : (2 ^ suc k - 1) % 2 ≡ 1 = omega (arith, pow-suc 2 k, one-le-pow k 2) in
    bit_and_step x (2 ^ suc k - 1) ∙ rw (ones, odd, bit_and-low_mask k (x / 2)) (sym (mod-half k x))

-- `x & (m << k)` works on the digits from `k` up.
pub bit_and-high_mask : (k x m : ℕ) → bit_and x (m * 2 ^ k) ≡ bit_and (x / 2 ^ k) m * 2 ^ k
bit_and-high_mask zero x m =
    let one_m : m * 2 ^ 0 ≡ m = omega arith in
    let one_x : x / 2 ^ 0 ≡ x = omega arith in rw (one_m, one_x) (omega arith)
bit_and-high_mask (suc k) x m =
    let half : m * 2 ^ suc k / 2 ≡ m * 2 ^ k = omega (arith, scale-two-pow-suc m k) in
    let even : m * 2 ^ suc k % 2 ≡ 0 = omega (arith, scale-two-pow-suc m k) in
    let quot : x / 2 / 2 ^ k ≡ x / 2 ^ suc k =
      div-div-eq-div-mul x 2 (2 ^ k) ∙ ap (λ (t : ℕ). x / t) (sym (pow-succ' 2 k)) in
    bit_and_step x (m * 2 ^ suc k)
    ∙ rw (half, even, bit_and-high_mask k (x / 2) m, quot, scale-two-pow-suc) (omega arith)

pub bit_or-one : (x : ℕ) → bit_or x 1 ≡ 1 + 2 * (x / 2)
bit_or-one x = omega (arith, bit_or_step x 1, bit_or-zero (x / 2))
