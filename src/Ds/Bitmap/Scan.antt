-- ===== src/Ds/Bitmap/Scan.antt =====
-- The search for a set digit in one word, and the word that `find_first_zero` scans.
use mathlib.Core.Path.{◌∙◌}
use qemu_risc_core.Prelude.{
  ℕ, zero, suc, ◌+◌, ◌-◌, ◌*◌, ◌/◌, ◌%◌, ◌^◌, ◌≤◌, ◌<◌, ◌≡◌, ◌&&◌, arith, ◌==◌, Bool-cases, inl,
  inr, bit_not, ◌<<<◌, not,
}
use qemu_risc_core.Prelude.Bits.{
  bit, bit-lt-two, test_mask, bit-bit_or, bit-complement, bit_or-lt, one-shift, bit-low_mask,
}
use qemu_risc_core.Ds.Bitmap.{first_set_bit_from, scanned_word}

-- `r` is the first digit of `w` from `k` on that is set, 64 if there is none.
pub record FirstSet (w k r : ℕ) : Type 0 where
  pub from : k ≤ r
  pub within : r ≤ 64
  pub clear : (j : ℕ) → k ≤ j → j < r → bit w j ≡ 0
  pub hit : r < 64 → bit w r ≡ 1

pub first_set_bit_from-FirstSet :
    (w rounds k : ℕ) → k + rounds ≡ 64 → FirstSet w k (first_set_bit_from w rounds k)
unfolding first_set_bit_from
first_set_bit_from-FirstSet w zero k e = record {
  from = omega arith;
  within = omega arith;
  clear = λ j above below. absurd (omega arith);
  hit = λ lt. absurd (omega arith);
}
first_set_bit_from-FirstSet w (suc rounds) k e =
    rw (test_mask w k (omega arith)) (elim (Bool-cases (bit w k == 1)) [
      | inl set ↦ rw set (record {
        from = omega arith;
        within = omega arith;
        clear = λ j above below. absurd (omega arith);
        hit = λ lt. ground arith;
      })
      | inr unset ↦
          let rest = first_set_bit_from-FirstSet w rounds (k + 1) (omega arith) in
          rw unset (record {
            from = omega (arith, rest.from);
            within = rest.within;
            clear = λ j above below. ground (arith, rest.clear j, bit-lt-two w k);
            hit = rest.hit;
          })
    ])

-- Within the bitmap, the word that is scanned has the digits of the word that is stored.
pub scanned_word-bit :
    (count index word k : ℕ)
    → k < 64
    → index * 64 + k < count
    → bit (scanned_word count ((count + 63) / 64) index word) k ≡ bit word k
unfolding scanned_word
scanned_word-bit count index word k lt below =
    elim (Bool-cases ((index == (count + 63) / 64 - 1) && not (count % 64 == 0))) [
      | inl last ↦
          let v : ℕ = count % 64 in
          let shift : 1 <<< v ≡ 2 ^ v = one-shift v (omega arith) in
          let k_lt : k < v = ground arith in
          let low : bit ((1 <<< v) - 1) k ≡ 1 = rw shift (bit-low_mask v k k_lt) in
          let high : bit (bit_not ((1 <<< v) - 1)) k ≡ 0 =
            bit-complement 64 ((1 <<< v) - 1) k (omega arith) lt ∙ rw low in
          rw last (bit-bit_or word (bit_not ((1 <<< v) - 1)) k ∙ rw high (omega arith))
      | inr inner ↦ rw inner
    ]

pub scanned_word-lt :
    (count words index word : ℕ) → word < 2 ^ 64 → scanned_word count words index word < 2 ^ 64
unfolding scanned_word
scanned_word-lt count words index word fits =
    elim (Bool-cases ((index == words - 1) && not (count % 64 == 0))) [
      | inl last ↦ rw last (bit_or-lt 64 word _ fits (omega arith))
      | inr inner ↦ rw inner fits
    ]
