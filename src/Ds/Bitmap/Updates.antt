-- ===== src/Ds/Bitmap/Updates.antt =====
-- `set` and `clear` change one position and touch no other.

use qemu_risc_core.Prelude.{
  ℕ, ◌/◌, ◌%◌, ◌^◌, ◌<◌, ◌≡◌, refl, Bool, true, false, ◌&&◌, some, arith, ltb, leb, ◌==◌,
  if◌then◌else◌, length-set, Bool-cases, inl, inr, bit_and, bit_or, bit_not, ◌<<<◌,
}
use qemu_risc_core.Prelude.Bits.{
  bit, bit_at, word_at, read-word_at, bit_at-set, set-IsWords, set_mask, clear_mask, set_mask-lt,
  clear_mask-lt,
}
use qemu_risc_core.Ds.Bitmap.{Bitmap, set_bit, clear_bit}
use qemu_risc_core.Ds.Bitmap.View.{holds, IsValid, with_word, word_below}

-- `c` is valid, of the same size, and holds what `b` holds but at `bit`, where it holds `value`.
pub record Updates (b : Bitmap) (bit : ℕ) (value : Bool) (c : Bitmap) : Type 0 where
  pub valid : IsValid c
  pub same_count : c.bit_count ≡ b.bit_count
  pub changes : (j : ℕ) → holds c j ≡ (if j == bit then ltb j b.bit_count && value else holds b j)

module _ {b : Bitmap} (target : ℕ) (v : IsValid b) where
  -- Beyond the bitmap nothing is held, and nothing changes.
  above-Updates : (value : Bool) → ltb target b.bit_count ≡ false → Updates b target value b
  above-Updates value above = record { valid = v; same_count = refl; changes = λ j. ground arith }

  -- Within it, a write of one word in which digit `target % 64` is `value` and no other changes.
  write-Updates :
      (value : Bool) (w : ℕ)
      → ltb target b.bit_count ≡ true
      → w < 2 ^ 64
      → ((k : ℕ)
          → k < 64
          → bit w k ≡ (
              if k == target % 64
              then (if value then 1 else 0)
              else bit (word_at b.words (target / 64)) k))
      → Updates b target value (with_word b (target / 64) w)
  unfolding bit_at
  write-Updates value w below w_fits digits = record {
    valid = record {
      covers = rw (length-set b.words (target / 64) w) v.covers;
      counts = v.counts;
      fits = set-IsWords b.words (target / 64) w (word_below target v below) v.fits w_fits;
    };
    same_count = refl;
    changes = λ j.
        rw (bit_at-set b.words (target / 64) j w (word_below target v below))
          (ground (arith, digits (j % 64)));
  }

-- `set` answers, and adds its position if that is within the bitmap.
pub set_bit-Updates :
    (b : Bitmap) (target : ℕ)
    → IsValid b
    → (c : Bitmap) × (set_bit b target ≡ some c) × Updates b target true c
unfolding set_bit
set_bit-Updates b target v = elim (Bool-cases (ltb target b.bit_count)) [
  | inl below ↦
      let out : leb b.bit_count target ≡ false = ground arith in
      let lt = word_below target v below in
      let w : ℕ = bit_or (word_at b.words (target / 64)) (1 <<< (target % 64)) in
      (
        with_word b (target / 64) w,
        rw (out, read-word_at b.words (target / 64) lt),
        write-Updates target v true w below (set_mask-lt _ _ (v.fits (target / 64)))
            (λ k k_lt. set_mask _ _ k (omega arith)),
      )
  | inr above ↦
      let out : leb b.bit_count target ≡ true = ground arith in
      (b, rw out, above-Updates target v true above)
]

-- `clear` answers, and takes its position out.
pub clear_bit-Updates :
    (b : Bitmap) (target : ℕ)
    → IsValid b
    → (c : Bitmap) × (clear_bit b target ≡ some c) × Updates b target false c
unfolding clear_bit
clear_bit-Updates b target v = elim (Bool-cases (ltb target b.bit_count)) [
  | inl below ↦
      let out : leb b.bit_count target ≡ false = ground arith in
      let lt = word_below target v below in
      let w : ℕ = bit_and (word_at b.words (target / 64)) (bit_not (1 <<< (target % 64))) in
      (
        with_word b (target / 64) w,
        rw (out, read-word_at b.words (target / 64) lt),
        write-Updates target v false w below (clear_mask-lt _ _ (v.fits (target / 64)))
            (λ k k_lt. clear_mask _ _ k (omega arith) k_lt),
      )
  | inr above ↦
      let out : leb b.bit_count target ≡ true = ground arith in
      (b, rw out, above-Updates target v false above)
]
