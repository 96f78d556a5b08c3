-- ===== src/Prelude/Bits/Digits.antt =====
-- The digit of a number at a position, and the digits of `&`, `|`, `~` and `1 << k`.
use Prim.Native.Nat.{ℕ, zero, suc, ◌-◌, ◌/◌, ◌%◌, ◌^◌, ◌<◌, min, max, bit_and, bit_or}
use mathlib.Core.Path.{◌≡◌, refl, ap}
use mathlib.Core.Logic.{◌≢◌}
use native.Mathlib.Nat.{pow-suc, one-le-pow}
use native.Mathlib.Omega.{arith}
use qemu_risc_core.Prelude.Bits.Step.{bit_and_step, bit_or_step, zero-bit_and}

-- The digit of weight 2 ^ k, 0 or 1.
unfoldable pub bit : ℕ → ℕ → ℕ
bit x zero = x % 2
bit x (suc k) = bit (x / 2) k

pub bit-lt-two : (x k : ℕ) → bit x k < 2
unfolding bit
bit-lt-two x zero = omega arith
bit-lt-two x (suc k) = bit-lt-two (x / 2) k

pub zero-bit : (k : ℕ) → bit 0 k ≡ 0
unfolding bit
zero-bit zero = refl
zero-bit (suc k) = zero-bit k

pub bit-bit_and : (a b k : ℕ) → bit (bit_and a b) k ≡ min (bit a k) (bit b k)
unfolding bit
bit-bit_and a b zero = omega (arith, bit_and_step a b)
bit-bit_and a b (suc k) =
    let half : bit_and a b / 2 ≡ bit_and (a / 2) (b / 2) = omega (arith, bit_and_step a b) in
    rw half (bit-bit_and (a / 2) (b / 2) k)

pub bit-bit_or : (a b k : ℕ) → bit (bit_or a b) k ≡ max (bit a k) (bit b k)
unfolding bit
bit-bit_or a b zero = omega (arith, bit_or_step a b)
bit-bit_or a b (suc k) =
    let half : bit_or a b / 2 ≡ bit_or (a / 2) (b / 2) = omega (arith, bit_or_step a b) in
    rw half (bit-bit_or (a / 2) (b / 2) k)

half-two-pow : (k : ℕ) → 2 ^ suc k / 2 ≡ 2 ^ k
half-two-pow k = omega (arith, pow-suc 2 k)

pub bit-two-pow_self : (k : ℕ) → bit (2 ^ k) k ≡ 1
unfolding bit
bit-two-pow_self zero = refl
bit-two-pow_self (suc k) = rw (half-two-pow k) (bit-two-pow_self k)

pub bit-two-pow_ne : (k j : ℕ) → k ≢ j → bit (2 ^ k) j ≡ 0
unfolding bit
bit-two-pow_ne zero zero ne = absurd (ne refl)
bit-two-pow_ne zero (suc j) ne = zero-bit j
bit-two-pow_ne (suc k) zero ne = omega (arith, pow-suc 2 k)
bit-two-pow_ne (suc k) (suc j) ne = rw (half-two-pow k) (bit-two-pow_ne k j (λ e. ne (ap suc e)))

-- The complement within `w` digits.
pub bit-complement : (w x k : ℕ) → x < 2 ^ w → k < w → bit (2 ^ w - 1 - x) k ≡ 1 - bit x k
unfolding bit
bit-complement zero x k fits lt = absurd (omega arith)
bit-complement (suc w) x zero fits lt = omega (arith, pow-suc 2 w)
bit-complement (suc w) x (suc k) fits lt =
    let half : (2 ^ suc w - 1 - x) / 2 ≡ 2 ^ w - 1 - x / 2 = omega (arith, pow-suc 2 w) in
    rw half (bit-complement w (x / 2) k (omega (arith, pow-suc 2 w)) (omega arith))

pub bit-low_mask : (w k : ℕ) → k < w → bit (2 ^ w - 1) k ≡ 1
unfolding bit
bit-low_mask zero k lt = absurd (omega arith)
bit-low_mask (suc w) zero lt = omega (arith, pow-suc 2 w, one-le-pow w 2 (omega arith))
bit-low_mask (suc w) (suc k) lt =
    let half : (2 ^ suc w - 1) / 2 ≡ 2 ^ w - 1 =
      omega (arith, pow-suc 2 w, one-le-pow w 2 (omega arith)) in
    rw half (bit-low_mask w k (omega arith))

pub bit_or-lt : (w a b : ℕ) → a < 2 ^ w → b < 2 ^ w → bit_or a b < 2 ^ w
bit_or-lt zero zero zero ha hb = omega arith
bit_or-lt zero (suc a) b ha hb = absurd (omega arith)
bit_or-lt zero zero (suc b) ha hb = absurd (omega arith)
bit_or-lt (suc w) a b ha hb = omega (
  arith,
  bit_or_step a b,
  pow-suc 2 w,
  bit_or-lt w (a / 2) (b / 2) (omega (arith, pow-suc 2 w)) (omega (arith, pow-suc 2 w)),
)

pub bit_and-lt : (w a b : ℕ) → a < 2 ^ w → bit_and a b < 2 ^ w
bit_and-lt zero zero b ha = rw (zero-bit_and b) (omega arith)
bit_and-lt zero (suc a) b ha = absurd (omega arith)
bit_and-lt (suc w) a b ha = omega (
  arith,
  bit_and_step a b,
  pow-suc 2 w,
  bit_and-lt w (a / 2) (b / 2) (omega (arith, pow-suc 2 w)),
)

-- Numbers of `w` digits are equal if their digits are.
pub bit_ext : (w a b : ℕ) → a < 2 ^ w → b < 2 ^ w → ((k : ℕ) → k < w → bit a k ≡ bit b k) → a ≡ b
unfolding bit
bit_ext zero a b ha hb same = omega arith
bit_ext (suc w) a b ha hb same = omega (
  arith,
  same 0 (omega arith),
  bit_ext w (a / 2) (b / 2) (omega (arith, pow-suc 2 w)) (omega (arith, pow-suc 2 w))
      (λ k lt. same (suc k) (omega arith)),
)

pub two-pow-lt : (k w : ℕ) → k < w → 2 ^ k < 2 ^ w
two-pow-lt k zero lt = absurd (omega arith)
two-pow-lt zero (suc w) lt = omega (arith, pow-suc 2 w, one-le-pow w 2 (omega arith))
two-pow-lt (suc k) (suc w) lt =
    omega (arith, pow-suc 2 w, pow-suc 2 k, two-pow-lt k w (omega arith))
