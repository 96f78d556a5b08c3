-- ===== src/Mm/Pmm/Mark.antt =====
-- What `mark_used_index` and `mark_free_index` write.
use qemu_risc_core.Prelude.{
  ℕ, ◌+◌, ◌-◌, ◌*◌, ◌/◌, ◌%◌, ◌^◌, ◌<◌, ◌≡◌, refl, some, arith, ltb, ◌==◌, if◌then◌else◌,
  Bool-cases, inl, inr, bit_and, bit_or, bit_not, set, u64, ◌<<<◌,
}
use qemu_risc_core.Prelude.Bits.{
  bit, word_at, read-word_at, set_mask, clear_mask, set_mask-lt, clear_mask-lt,
}
use qemu_risc_core.Mm.Pmm.{Pmm, max_managed_pages, mark_used_index, mark_free_index}
use qemu_risc_core.Mm.Pmm.Count.{clear_count-le, clear_count-set, clear_count-ext}
use qemu_risc_core.Mm.Pmm.State.{
  used, used-lt-two, IsValid, Writes, Writes-same, masked-used, written, written-used,
  written-Writes,
}

-- The counter follows the bit that is written.
pub Writes-free_pages :
    (p q : Pmm) (target : ℕ)
    → IsValid p
    → target < max_managed_pages
    → (Writes p target 1 q → used p target ≡ 0 → p.free_pages ≡ q.free_pages + 1)
      × (Writes p target 0 q → used p target ≡ 1 → q.free_pages ≡ p.free_pages + 1)
Writes-free_pages p q target v lt = (
  λ w clear. omega (
    arith,
    v.counted,
    w.valid.counted,
    clear_count-set (used p) (used q) target max_managed_pages lt clear
        (ground (arith, w.changes target)) (λ i ne. ground (arith, w.changes i)),
  ),
  λ w set. omega (
    arith,
    v.counted,
    w.valid.counted,
    clear_count-set (used q) (used p) target max_managed_pages lt (ground (arith, w.changes target))
        set (λ i ne. ground (arith, w.changes i)),
  ),
)

pub Writes-free_pages_same :
    (p q : Pmm) (target value : ℕ)
    → IsValid p
    → Writes p target value q
    → used p target ≡ value
    → q.free_pages ≡ p.free_pages
Writes-free_pages_same p q target value v w same = omega (
  arith,
  v.counted,
  w.valid.counted,
  clear_count-ext (used q) (used p) max_managed_pages (λ i lt. elim (Bool-cases (i == target)) [
    | inl at ↦ let e : i ≡ target = ground arith in rw e (ground (arith, w.changes target))
    | inr away ↦ ground (arith, w.changes i)
  ]),
)

-- The bit that `mark_free_index` clears for page `index`: it takes the word's index for the mask.
abbrev pub freed_index : ℕ → ℕ
freed_index index = index / 64 * 64 + index / 64 % 64

-- The count after setting or clearing one bit.
module _ (p : Pmm) (v : IsValid p) (target w : ℕ) (lt : target < max_managed_pages)
    (w_fits : w < 2 ^ 64) where
  abbrev Digits : ℕ → Type 0
  Digits value =
      (k : ℕ)
      → k < 64
      → bit w k ≡ (if k == target % 64 then value else bit (word_at p.used_bitmap (target / 64)) k)

  set-Writes :
      Digits 1
      → used p target ≡ 0
      → (q : Pmm) × (q ≡ record p {
        used_bitmap = set p.used_bitmap (target / 64) w;
        free_pages = if ltb 0 p.free_pages then p.free_pages - 1 else p.free_pages;
      })
        × Writes p target 1 q
  set-Writes digits clear =
      let count : ℕ = if ltb 0 p.free_pages then p.free_pages - 1 else p.free_pages in
      let changes = written-used p v target 1 w count lt w_fits digits in
      let q = written p v target 1 w count lt w_fits digits in
      let one =
        clear_count-set (used p) (used q) target max_managed_pages lt clear
          (ground (arith, changes target)) (λ i ne. ground (arith, changes i)) in
      (
        q,
        refl,
        written-Writes p v target 1 w count lt w_fits digits (ground (arith, one, v.counted)),
      )

  clear-Writes :
      Digits 0
      → used p target ≡ 1
      → (q : Pmm) × (q ≡ record p {
        used_bitmap = set p.used_bitmap (target / 64) w;
        free_pages = u64 (p.free_pages + 1);
      })
        × Writes p target 0 q
  clear-Writes digits marked =
      let count : ℕ = u64 (p.free_pages + 1) in
      let changes = written-used p v target 0 w count lt w_fits digits in
      let q = written p v target 0 w count lt w_fits digits in
      let one =
        clear_count-set (used q) (used p) target max_managed_pages lt
          (ground (arith, changes target)) marked (λ i ne. ground (arith, changes i)) in
      let bound = clear_count-le (used p) max_managed_pages in
      (
        q,
        refl,
        written-Writes p v target 0 w count lt w_fits digits (omega (arith, one, v.counted, bound)),
      )

module _ (p : Pmm) (v : IsValid p) (index : ℕ) (lt : index < max_managed_pages) where
  -- `mark_used_index` sets the bit of its page and no other, and keeps the count.
  pub mark_used_index-Writes : (q : Pmm) × (mark_used_index p index ≡ some q) × Writes p index 1 q
  unfolding mark_used_index
  mark_used_index-Writes =
      let old : ℕ = word_at p.used_bitmap (index / 64) in
      let read = read-word_at p.used_bitmap (index / 64) (omega (arith, v.words)) in
      rw (read, masked-used p index)
        (elim (Bool-cases (used p index == 0)) [
          | inl clear ↦
              let (q, e, w) =
                set-Writes p v index (bit_or old (1 <<< (index % 64))) lt
                  (set_mask-lt old (index % 64) (v.fits (index / 64)))
                  (λ k k_lt. set_mask old (index % 64) k (omega arith)) (ground arith) in
              (q, rw clear (rw e), w)
          | inr marked ↦
              (p, rw marked, Writes-same p v index 1 (ground (arith, used-lt-two p index)))
        ])

  -- `mark_free_index` clears the bit `freed_index index` and no other, and keeps the count.
  pub mark_free_index-Writes :
      (q : Pmm) × (mark_free_index p index ≡ some q) × Writes p (freed_index index) 0 q
  unfolding mark_free_index
  mark_free_index-Writes =
      let target : ℕ = freed_index index in
      let old : ℕ = word_at p.used_bitmap (index / 64) in
      let read = read-word_at p.used_bitmap (index / 64) (omega (arith, v.words)) in
      let quot : target / 64 ≡ index / 64 = omega arith in
      let rem : target % 64 ≡ index / 64 % 64 = omega arith in
      let tested = rw (quot, rem) at (masked-used p target) in
      rw (read, tested)
        (elim (Bool-cases (used p target == 0)) [
          | inl clear ↦ (p, rw clear, Writes-same p v target 0 (ground arith))
          | inr marked ↦
              let (q, e, w) =
                clear-Writes p v target (bit_and old (bit_not (1 <<< (index / 64 % 64))))
                  (omega arith)
                  (clear_mask-lt old (bit_not (1 <<< (index / 64 % 64))) (v.fits (index / 64)))
                  (rw (quot, rem) (λ k k_lt. clear_mask old (index / 64 % 64) k (omega arith) k_lt))
                  (ground (arith, used-lt-two p target)) in
              (q, rw marked (rw (e, quot)), w)
        ])
