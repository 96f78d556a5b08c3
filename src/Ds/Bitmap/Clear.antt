-- ===== src/Ds/Bitmap/Clear.antt =====
-- `clear_all` takes out every position, and writes the words of the bitmap only.
use qemu_risc_core.Prelude.{
  ℕ, zero, suc, ◌+◌, ◌/◌, ◌%◌, ◌≤◌, ◌<◌, ◌≡◌, refl, true, false, ◌&&◌, some, List, arith, ltb, leb,
  length, length-set, set, Bool-cases, inl, inr,
}
use qemu_risc_core.Prelude.Bits.{bit_at, word_at, read-word_at, word_at-set, zero-bit}
use qemu_risc_core.Ds.Bitmap.{Bitmap, word_count_for_bits, clear_from, clear_all}
use qemu_risc_core.Ds.Bitmap.View.{holds, IsValid, word_count-covers}

abbrev with_words : Bitmap → List ℕ → Bitmap
with_words b words = record b { words = words }

-- `cleared` is `words` with the words from `i` on, `rounds` in number, at 0.
record Cleared (words : List ℕ) (i rounds : ℕ) (cleared : List ℕ) : Type 0 where
  same_length : length cleared ≡ length words
  zeroed : (j : ℕ) → i ≤ j → j < i + rounds → word_at cleared j ≡ 0
  kept : (j : ℕ) → (leb i j && ltb j (i + rounds)) ≡ false → word_at cleared j ≡ word_at words j

clear_from-Cleared :
    (rounds i : ℕ) (words : List ℕ)
    → i + rounds ≤ length words
    → (cleared : List ℕ) × (clear_from rounds i words ≡ some cleared)
      × Cleared words i rounds cleared
unfolding clear_from
clear_from-Cleared zero i words le = (
  words,
  refl,
  record {
    same_length = refl;
    zeroed = λ j from below. absurd (omega arith);
    kept = λ j out. refl;
  },
)
clear_from-Cleared (suc rounds) i words le =
    let len = length-set words i 0 in
    let (cleared, runs, is) = clear_from-Cleared rounds (i + 1) (set words i 0) (omega arith) in
    let first = λ (j : ℕ). word_at-set words i j 0 (omega arith) in
    (
      cleared,
      rw (read-word_at words i (omega arith)) runs,
      record {
        same_length = omega (arith, is.same_length);
        zeroed = λ j from below. ground (arith, is.zeroed j, is.kept j, first j);
        kept = λ j out. ground (arith, is.kept j, first j);
      },
    )

zeroed-holds :
    (c : Bitmap) (j : ℕ)
    → (ltb j c.bit_count ≡ true → word_at c.words (j / 64) ≡ 0)
    → holds c j ≡ false
unfolding bit_at
zeroed-holds c j zeroed = elim (Bool-cases (ltb j c.bit_count)) [
  | inl below ↦ rw (below, zeroed below, zero-bit (j % 64))
  | inr above ↦ rw above
]

-- `clear_all` answers, and the result holds nothing.
pub clear_all-holds :
    (b : Bitmap)
    → IsValid b
    → (c : Bitmap) × (clear_all b ≡ some c)
      × IsValid c
      × (c.bit_count ≡ b.bit_count)
      × ((j : ℕ) → holds c j ≡ false)
unfolding clear_all
clear_all-holds b v =
    let (count, covers) = word_count-covers v in
    let (cleared, runs, is) =
      clear_from-Cleared (word_count_for_bits b.bit_count) 0 b.words (omega (arith, covers)) in
    let c = with_words b cleared in
    (
      c,
      rw runs,
      record {
        covers = omega (arith, v.covers, is.same_length);
        counts = v.counts;
        fits = λ j. ground (arith, is.zeroed j, is.kept j, v.fits j);
      },
      refl,
      λ j. zeroed-holds c j (λ below. is.zeroed (j / 64) (omega arith) (ground (arith, count))),
    )
