-- ===== src/Prelude/Bits/Masks.antt =====
-- One digit of a 64-bit word tested, set and cleared through the mask `1 << k`.
use Prim.Native.Nat.{ℕ, ◌^◌, ◌<◌, bit_and, bit_or}
use mathlib.Core.Path.{◌≡◌}
use mathlib.Core.Bool.{not}
use native.Mathlib.Nat.{one-le-pow}
use native.Mathlib.Omega.{arith}
use qemu_risc_core.Prelude.Tests.{◌==◌, if◌then◌else◌}
use qemu_risc_core.Prelude.Words.{bit_not, ◌<<<◌}
use qemu_risc_core.Prelude.Bits.Digits.{
  bit, bit-lt-two, bit-bit_and, bit-bit_or, bit-two-pow_self, bit-two-pow_ne, bit-complement,
  bit_or-lt, bit_and-lt, two-pow-lt,
}
use qemu_risc_core.Prelude.Bits.Fields.{bit_and-two-pow}

pub one-shift : (k : ℕ) → k < 64 → 1 <<< k ≡ 2 ^ k
one-shift k lt = omega (arith, two-pow-lt k 64 lt)

pub test_mask : (w k : ℕ) → k < 64 → not (bit_and w (1 <<< k) == 0) ≡ (bit w k == 1)
test_mask w k lt =
    rw (one-shift k lt, bit_and-two-pow w k) (ground (arith, bit-lt-two w k, one-le-pow k 2))

bit-one-shift : (k j : ℕ) → k < 64 → bit (1 <<< k) j ≡ (if j == k then 1 else 0)
bit-one-shift k j lt = rw (one-shift k lt) (ground (arith, bit-two-pow_self k, bit-two-pow_ne k j))

pub set_mask : (w k j : ℕ) → k < 64 → bit (bit_or w (1 <<< k)) j ≡ (if j == k then 1 else bit w j)
set_mask w k j lt =
    rw (bit-bit_or w (1 <<< k) j, bit-one-shift k j lt) (ground (arith, bit-lt-two w j))

pub clear_mask :
    (w k j : ℕ)
    → k < 64
    → j < 64
    → bit (bit_and w (bit_not (1 <<< k))) j ≡ (if j == k then 0 else bit w j)
clear_mask w k j lt below =
    rw
      (
        bit-bit_and w (bit_not (1 <<< k)) j,
        bit-complement 64 (1 <<< k) j (omega arith) below,
        bit-one-shift k j lt,
      )
      (ground (arith, bit-lt-two w j))

pub set_mask-lt : (w k : ℕ) → w < 2 ^ 64 → bit_or w (1 <<< k) < 2 ^ 64
set_mask-lt w k fits = bit_or-lt 64 w (1 <<< k) fits (omega arith)

pub clear_mask-lt : (w m : ℕ) → w < 2 ^ 64 → bit_and w m < 2 ^ 64
clear_mask-lt w m fits = bit_and-lt 64 w m fits
