-- ===== src/Prelude/Bits/Arrays.antt =====
-- Digits of an array of 64-bit words: digit `i` stands in word `i / 64` at position `i % 64`.
use Prim.Native.Nat.{ℕ, zero, suc, ◌/◌, ◌%◌, ◌^◌, ◌<◌}
use mathlib.Core.Path.{◌≡◌, refl, ◌∙◌}
use mathlib.Core.List.{List, [], ◌∷◌}
use mathlib.Core.Option.{some}
use native.Mathlib.Omega.{arith}
use qemu_risc_core.Prelude.Tests.{◌==◌, if◌then◌else◌}
use qemu_risc_core.Prelude.Lists.{length, get_elem?, get_or, set}
use qemu_risc_core.Prelude.Bits.Digits.{bit}

abbrev pub word_at : List ℕ → ℕ → ℕ
word_at words i = get_or words i 0

unfoldable pub bit_at : List ℕ → ℕ → ℕ
bit_at words i = bit (word_at words (i / 64)) (i % 64)

-- Every word fits 64 bits.
abbrev pub IsWords : List ℕ → Type 0
IsWords words = (i : ℕ) → word_at words i < 2 ^ 64

pub read-word_at :
    (words : List ℕ) (i : ℕ) → i < length words → get_elem? words i ≡ some (word_at words i)
read-word_at [] i lt = absurd (omega arith)
read-word_at (w ∷ words) zero lt = refl
read-word_at (w ∷ words) (suc i) lt = read-word_at words i (omega arith)

pub word_at-set :
    (words : List ℕ) (i j v : ℕ)
    → i < length words
    → word_at (set words i v) j ≡ (if j == i then v else word_at words j)
word_at-set [] i j v lt = absurd (omega arith)
word_at-set (w ∷ words) zero zero v lt = refl
word_at-set (w ∷ words) zero (suc j) v lt = ground arith
word_at-set (w ∷ words) (suc i) zero v lt = ground arith
word_at-set (w ∷ words) (suc i) (suc j) v lt = word_at-set words i j v (omega arith) ∙ ground arith

pub set-IsWords :
    (words : List ℕ) (i v : ℕ)
    → i < length words
    → IsWords words
    → v < 2 ^ 64
    → IsWords (set words i v)
set-IsWords words i v lt fits v_fits j = rw (word_at-set words i j v lt) (ground (arith, fits j))

-- A write to one word changes the digits of that word.
pub bit_at-set :
    (words : List ℕ) (i j v : ℕ)
    → i < length words
    → bit_at (set words i v) j ≡ (if j / 64 == i then bit v (j % 64) else bit_at words j)
unfolding bit_at
bit_at-set words i j v lt = rw (word_at-set words i (j / 64) v lt) (ground arith)
