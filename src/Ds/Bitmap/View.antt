-- ===== src/Ds/Bitmap/View.antt =====
-- The set of positions that a bitmap stands for, and the state in which its methods are called.
use qemu_risc_core.Prelude.{
  ℕ, ◌+◌, ◌*◌, ◌/◌, ◌%◌, ◌^◌, ◌≤◌, ◌<◌, ◌≡◌, Bool, true, false, ◌&&◌, some, arith, ltb, leb, ◌==◌,
  length, set, Bool-cases, inl, inr,
}
use qemu_risc_core.Prelude.Bits.{bit_at, word_at, IsWords, read-word_at, test_mask}
use qemu_risc_core.Ds.Bitmap.{Bitmap, word_count_for_bits, test}

-- Whether the bitmap holds position `i`.
abbrev pub holds : Bitmap → ℕ → Bool
holds b i = ltb i b.bit_count && (bit_at b.words i == 1)

pub record IsValid (b : Bitmap) : Type 0 where
  pub covers : b.bit_count ≤ 64 * length b.words
  pub counts : b.bit_count + 63 < 2 ^ 64
  pub fits : IsWords b.words

-- The bitmap `b` with word `i` replaced.
abbrev pub with_word : Bitmap → ℕ → ℕ → Bitmap
with_word b i v = record b { words = set b.words i v }

pub word_below :
    {b : Bitmap} (i : ℕ) → IsValid b → ltb i b.bit_count ≡ true → i / 64 < length b.words
word_below i v lt = ground (arith, v.covers)

-- The rounding up does not overflow, and the words counted lie in the array.
pub word_count-covers :
    {b : Bitmap}
    → IsValid b
    → (word_count_for_bits b.bit_count ≡ (b.bit_count + 63) / 64)
      × (word_count_for_bits b.bit_count ≤ length b.words)
unfolding word_count_for_bits
word_count-covers v = (omega (arith, v.counts), omega (arith, v.covers, v.counts))

-- `test` answers for every position, and reads within the array.
pub test-holds : (b : Bitmap) (i : ℕ) → IsValid b → test b i ≡ some (holds b i)
unfolding test bit_at
test-holds b i v = elim (Bool-cases (ltb i b.bit_count)) [
  | inl below ↦
      let out : leb b.bit_count i ≡ false = ground arith in
      rw (out, below, read-word_at b.words (i / 64) (word_below i v below))
        (rw (test_mask (word_at b.words (i / 64)) (i % 64) (omega arith)))
  | inr above ↦ let out : leb b.bit_count i ≡ true = ground arith in rw (out, above)
]
