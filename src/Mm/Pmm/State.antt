-- ===== src/Mm/Pmm/State.antt =====
-- The states of the allocator, and what a write of one bit of the bitmap does to them.
use qemu_risc_core.Prelude.{
  ℕ, ◌+◌, ◌*◌, ◌/◌, ◌%◌, ◌^◌, ◌≤◌, ◌<◌, ◌≡◌, refl, some, arith, ◌==◌, if◌then◌else◌, bit_and, ◌<<<◌,
  length, length-set, set, Bool-cases, inl, inr,
}
use qemu_risc_core.Prelude.Bits.{
  bit, bit_at, bit-lt-two, word_at, IsWords, bit_at-set, read-word_at, set-IsWords, test_mask,
}
use qemu_risc_core.Mm.Pmm.{Pmm, max_managed_pages, bitmap_words, used_index}
use qemu_risc_core.Mm.Pmm.Count.{clear_count}

-- 1 if page `i` is marked as used.
abbrev pub used : Pmm → ℕ → ℕ
used p i = bit_at p.used_bitmap i

pub record IsValid (p : Pmm) : Type 0 where
  pub words : length p.used_bitmap ≡ bitmap_words
  pub fits : IsWords p.used_bitmap
  pub total : p.total_pages ≤ max_managed_pages
  pub aligned : p.managed_base % 4096 ≡ 0
  pub range : p.managed_base + p.total_pages * 4096 < 2 ^ 64
  pub counted : p.free_pages ≡ clear_count (used p) max_managed_pages

-- `q` is `p` with bit `target` of the bitmap at `value`.
pub record Writes (p : Pmm) (target value : ℕ) (q : Pmm) : Type 0 where
  pub valid : IsValid q
  pub same_base : q.managed_base ≡ p.managed_base
  pub same_total : q.total_pages ≡ p.total_pages
  pub changes : (j : ℕ) → used q j ≡ (if j == target then value else used p j)

pub used-lt-two : (p : Pmm) (i : ℕ) → used p i < 2
unfolding bit_at
used-lt-two p i = bit-lt-two _ _

-- The code's test of a bit.
pub masked-used :
    (p : Pmm) (target : ℕ)
    → (bit_and (word_at p.used_bitmap (target / 64)) (1 <<< (target % 64)) == 0)
      ≡ (used p target == 0)
unfolding bit_at
masked-used p target =
    let w : ℕ = word_at p.used_bitmap (target / 64) in
    ground (arith, test_mask w (target % 64) (omega arith), bit-lt-two w (target % 64))

module _ (p : Pmm) (v : IsValid p) where
  -- Where the bit has the value already, nothing is written.
  pub Writes-same : (target value : ℕ) → used p target ≡ value → Writes p target value p
  Writes-same target value same = record {
    valid = v;
    same_base = refl;
    same_total = refl;
    changes = λ j. elim (Bool-cases (j == target)) [
      | inl at ↦ let e : j ≡ target = ground arith in rw at (rw e same)
      | inr away ↦ rw away
    ];
  }

  pub used_index-used : (i : ℕ) → i < max_managed_pages → used_index p i ≡ some (used p i == 1)
  unfolding used_index bit_at
  used_index-used i lt =
      rw (read-word_at p.used_bitmap (i / 64) (omega (arith, v.words)))
        (rw (test_mask (word_at p.used_bitmap (i / 64)) (i % 64) (omega arith)))

  -- A write of word `target / 64` that changes one digit, with the count kept up.
  module _ (target value w count : ℕ) (lt : target < max_managed_pages) (w_fits : w < 2 ^ 64)
      (digits : (k : ℕ)
        → k < 64
        → bit w k
          ≡ (if k == target % 64 then value else bit (word_at p.used_bitmap (target / 64)) k)) where
    abbrev pub written : Pmm
    written = record p { used_bitmap = set p.used_bitmap (target / 64) w; free_pages = count }

    pub written-used : (j : ℕ) → used written j ≡ (if j == target then value else used p j)
    unfolding bit_at
    written-used j =
        rw (bit_at-set p.used_bitmap (target / 64) j w (omega (arith, v.words)))
          (ground (arith, digits (j % 64)))

    pub written-Writes :
        count ≡ clear_count (used written) max_managed_pages → Writes p target value written
    written-Writes e = record {
      valid = record {
        words = rw (length-set p.used_bitmap (target / 64) w) v.words;
        fits = set-IsWords p.used_bitmap (target / 64) w (omega (arith, v.words)) v.fits w_fits;
        total = v.total;
        aligned = v.aligned;
        range = v.range;
        counted = e;
      };
      same_base = refl;
      same_total = refl;
      changes = written-used;
    }
