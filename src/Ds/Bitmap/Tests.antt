-- ===== src/Ds/Bitmap/Tests.antt =====
-- Runs and instances of the bitmap, at 70 positions over two words.
use qemu_risc_core.Prelude.{
  ℕ, ◌≡◌, refl, true, false, some, [], ◌∷◌, arith, zero, suc, ℤ, pos, negsuc, bit_not,
}
use qemu_risc_core.Prelude.Bits.{IsWords}
use qemu_risc_core.Ds.Bitmap.{Bitmap, clear_all, set_bit, clear_bit, test, find_first_zero}
use qemu_risc_core.Ds.Bitmap.View.{IsValid, holds, test-holds}
use qemu_risc_core.Ds.Bitmap.Updates.{Updates, set_bit-Updates, clear_bit-Updates}
use qemu_risc_core.Ds.Bitmap.Clear.{clear_all-holds}
use qemu_risc_core.Ds.Bitmap.Find.{FirstZero, find_first_zero-FirstZero}

abbrev sample : Bitmap
sample = record { words = bit_not 0 ∷ 5 ∷ []; bit_count = 70 }

sample-IsWords : IsWords sample.words
sample-IsWords zero = omega arith
sample-IsWords (suc zero) = omega arith
sample-IsWords (suc (suc i)) = omega arith

sample-IsValid : IsValid sample
sample-IsValid = record { covers = omega arith; counts = omega arith; fits = sample-IsWords }

test_run : test sample 66 ≡ some true
unfolding test
test_run = refl

find_run : find_first_zero sample ≡ some (pos 65)
unfolding find_first_zero
find_run = refl

find_full_run : find_first_zero (record { words = 7 ∷ []; bit_count = 3 }) ≡ some (negsuc 0)
unfolding find_first_zero
find_full_run = refl

test-holds_run : test sample 66 ≡ some (holds sample 66)
test-holds_run = test-holds sample 66 sample-IsValid

set_bit-Updates_example : (c : Bitmap) × (set_bit sample 65 ≡ some c) × Updates sample 65 true c
set_bit-Updates_example = set_bit-Updates sample 65 sample-IsValid

clear_bit-Updates_example :
    (c : Bitmap) × (clear_bit sample 66 ≡ some c) × Updates sample 66 false c
clear_bit-Updates_example = clear_bit-Updates sample 66 sample-IsValid

clear_all-holds_run :
    (c : Bitmap) × (clear_all sample ≡ some c)
    × IsValid c
    × (c.bit_count ≡ 70)
    × ((j : ℕ) → holds c j ≡ false)
clear_all-holds_run = clear_all-holds sample sample-IsValid

find_first_zero-FirstZero_example : (r : ℤ) × (find_first_zero sample ≡ some r) × FirstZero sample r
find_first_zero-FirstZero_example = find_first_zero-FirstZero sample sample-IsValid
