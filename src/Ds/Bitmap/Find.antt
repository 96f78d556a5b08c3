-- ===== src/Ds/Bitmap/Find.antt =====
-- `find_first_zero` returns the least position that is not held, and -1 if there is none.
use mathlib.Core.Path.{◌∙◌}
use qemu_risc_core.Prelude.{
  ℕ, zero, suc, ◌+◌, ◌-◌, ◌*◌, ◌/◌, ◌%◌, ◌^◌, ◌≤◌, ◌<◌, ◌≡◌, refl, sym, ap, true, false, some,
  arith, ltb, ◌==◌, ==_iff, Bool-cases, inl, inr, bit_not, u64, ℤ, pos, negsuc,
}
use qemu_risc_core.Prelude.Bits.{
  bit, bit-lt-two, bit_at, word_at, read-word_at, bit-complement, bit-low_mask,
}
use qemu_risc_core.Ds.Bitmap.{
  Bitmap, bits_per_word, first_set_bit_offset, scanned_word, find_from, find_first_zero,
}
use qemu_risc_core.Ds.Bitmap.View.{holds, IsValid, word_count-covers}
use qemu_risc_core.Ds.Bitmap.Scan.{
  FirstSet, first_set_bit_from-FirstSet, scanned_word-bit, scanned_word-lt,
}

-- Every position below `n` is held.
abbrev pub HeldBelow : Bitmap → ℕ → Type 0
HeldBelow b n = (j : ℕ) → j < n → ltb j b.bit_count ≡ true → holds b j ≡ true

-- What `find_first_zero` may return.
abbrev pub FirstZero : Bitmap → ℤ → Type 0
FirstZero b (pos i) = (i < b.bit_count) × (holds b i ≡ false) × HeldBelow b i
FirstZero b (negsuc n) = (n ≡ 0) × HeldBelow b b.bit_count

module _ {b : Bitmap} (v : IsValid b) where
  abbrev wc : ℕ
  wc = (b.bit_count + 63) / 64

  abbrev scanned : ℕ → ℕ
  scanned index = scanned_word b.bit_count wc index (word_at b.words index)

  -- A digit of the scanned word decides its position.
  scanned-holds :
      (index k : ℕ)
      → k < 64
      → ltb (index * 64 + k) b.bit_count ≡ true
      → holds b (index * 64 + k) ≡ (bit (scanned index) k == 1)
  unfolding bit_at
  scanned-holds index k lt below =
      let quot : (index * 64 + k) / 64 ≡ index = omega arith in
      let rem : (index * 64 + k) % 64 ≡ k = omega arith in
      rw (
        below,
        quot,
        rem,
        scanned_word-bit b.bit_count index (word_at b.words index) k lt (ground arith),
      )

  -- Where the digits of a word before `n` are set, its positions are held.
  extend-HeldBelow :
      (index n : ℕ)
      → n ≤ 64
      → HeldBelow b (index * 64)
      → ((k : ℕ) → k < n → bit (scanned index) k ≡ 1)
      → HeldBelow b (index * 64 + n)
  extend-HeldBelow index n le held digits j lt below = elim (Bool-cases (ltb j (index * 64))) [
    | inl old ↦ held j (ground arith) below
    | inr new ↦
        let k : ℕ = j - index * 64 in
        let split : index * 64 + k ≡ j = ground arith in
        let digit : bit (scanned index) k ≡ 1 = digits k (omega arith) in
        sym (ap (holds b) split) ∙ scanned-holds index k (omega arith) (rw split below) ∙ rw digit
  ]

  scanned-fits : (index : ℕ) → scanned index < 2 ^ 64
  scanned-fits index = scanned_word-lt b.bit_count wc index _ (v.fits index)

  -- The first digit of the inverted word is the first clear digit of the word.
  module _ (index : ℕ) where
    abbrev offset : ℕ
    offset = first_set_bit_offset (bit_not (scanned index))

    offset-FirstSet : FirstSet (bit_not (scanned index)) 0 offset
    unfolding first_set_bit_offset
    offset-FirstSet = first_set_bit_from-FirstSet (bit_not (scanned index)) 64 0 refl

    before_offset : (k : ℕ) → k < offset → bit (scanned index) k ≡ 1
    before_offset k lt =
        let fs = offset-FirstSet in
        omega (
          arith,
          fs.clear k (omega arith) lt,
          fs.within,
          bit-complement 64 (scanned index) k (scanned-fits index) (omega (arith, fs.within)),
          bit-lt-two (scanned index) k,
        )

    at_offset : offset < 64 → bit (scanned index) offset ≡ 0
    at_offset lt = omega (
      arith,
      offset-FirstSet.hit lt,
      bit-complement 64 (scanned index) offset (scanned-fits index) lt,
      bit-lt-two (scanned index) offset,
    )

  -- The loop from `index` answers with the first zero.
  abbrev Finds : ℕ → ℕ → Type 0
  Finds rounds index = (r : ℤ) × (find_from b wc rounds index ≡ some r) × FirstZero b r

  -- One round: either the word has the first zero, or its positions are held and the loop goes on.
  find_from_step :
      (rounds index : ℕ)
      → index < wc
      → HeldBelow b (index * 64)
      → (HeldBelow b (index * 64 + 64) → Finds rounds (index + 1))
      → Finds (suc rounds) index
  unfolding find_from
  find_from_step rounds index lt held rest =
      rw (read-word_at b.words index (omega (arith, v.covers)))
        (elim (Bool-cases (scanned index == bit_not 0)) [
          | inl ones ↦
              let all : scanned index ≡ bit_not 0 = (==_iff (scanned index) (bit_not 0)).0 ones in
              rw ones (rest (full (λ k k_lt. rw all (bit-low_mask 64 k k_lt))))
          | inr more ↦ rw more (elim (Bool-cases (offset index == bits_per_word)) [
            | inl none_clear ↦
                rw none_clear (rest (full (λ k k_lt. before_offset index k (ground arith))))
            | inr found ↦
                let low : offset index < 64 = ground (arith, (offset-FirstSet index).within) in
                let global : u64 (index * 64 + offset index) ≡ index * 64 + offset index =
                  omega (arith, v.counts) in
                rw (found, global)
                  (elim (Bool-cases (ltb (index * 64 + offset index) b.bit_count)) [
                    | inl below ↦ rw below (
                      pos (index * 64 + offset index),
                      refl,
                      (
                        ground arith,
                        scanned-holds index (offset index) low below ∙ rw (at_offset index low),
                        upto,
                      ),
                    )
                    | inr above ↦ rw above (rest (λ j j_lt below. upto j (ground arith) below))
                  ])
          ])
        ])
    where
      full : ((k : ℕ) → k < 64 → bit (scanned index) k ≡ 1) → HeldBelow b (index * 64 + 64)
      full digits = extend-HeldBelow index 64 (omega arith) held digits

      upto : HeldBelow b (index * 64 + offset index)
      upto =
          extend-HeldBelow index (offset index) (offset-FirstSet index).within held
            (before_offset index)

  find_from-FirstZero :
      (rounds index : ℕ) → index + rounds ≡ wc → HeldBelow b (index * 64) → Finds rounds index
  unfolding find_from
  find_from-FirstZero zero index e held =
      (negsuc 0, refl, (refl, λ j lt below. held j (omega arith) below))
  find_from-FirstZero (suc rounds) index e held =
      find_from_step rounds index (omega arith) held λ full.
        find_from-FirstZero rounds (index + 1) (omega arith)
          (λ j lt below. full j (omega arith) below)

-- `find_first_zero` answers with the least position that is not held, or with -1 if all are.
pub find_first_zero-FirstZero :
    (b : Bitmap) → IsValid b → (r : ℤ) × (find_first_zero b ≡ some r) × FirstZero b r
unfolding find_first_zero
find_first_zero-FirstZero b v =
    rw (word_count-covers v).0 (
      find_from-FirstZero v ((b.bit_count + 63) / 64) 0 (omega arith)
        (λ j lt. absurd (omega arith)))
