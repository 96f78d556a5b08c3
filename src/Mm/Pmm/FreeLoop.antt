-- ===== src/Mm/Pmm/FreeLoop.antt =====
-- The loop of `pmm_init` that frees pages: which bits it clears.
use qemu_risc_core.Prelude.{
  ℕ, zero, suc, ◌+◌, ◌*◌, ◌/◌, ◌%◌, ◌^◌, ◌≤◌, ◌<◌, ◌≡◌, refl, sym, ◌∙◌, ◌≢◌, Bool, true, ◌&&◌, some,
  arith, ltb, ◌==◌, if◌then◌else◌, ==_iff, Bool-cases, inl, inr, replicate, length-replicate,
  bit_not,
}
use qemu_risc_core.Prelude.Bits.{bit_at, word_at, bit-low_mask}
use qemu_risc_core.Mm.Pmm.{Pmm, max_managed_pages, bitmap_words, all_ones, free_from}
use qemu_risc_core.Mm.Pmm.Count.{clear_count}
use qemu_risc_core.Mm.Pmm.State.{used, IsValid, Writes}
use qemu_risc_core.Mm.Pmm.Mark.{
  freed_index, mark_free_index-Writes, Writes-free_pages, Writes-free_pages_same,
}

-- The bits that the rounds `0 .. n - 1` of the loop clear: one in each group of 64 that they reach.
abbrev pub is_freed : ℕ → ℕ → Bool
is_freed n j = (j % 64 == j / 64 % 64) && ltb (j / 64 * 64) n

abbrev pub all_used : ℕ → ℕ → Pmm
all_used base total = record {
  used_bitmap = all_ones;
  managed_base = base;
  total_pages = total;
  free_pages = 0;
}

word_at-replicate : (n i w : ℕ) → word_at (replicate n w) i ≡ (if ltb i n then w else 0)
word_at-replicate zero i w = ground arith
word_at-replicate (suc n) zero w = ground arith
word_at-replicate (suc n) (suc i) w = word_at-replicate n i w ∙ ground arith

clear_count-ones :
    (digit : ℕ → ℕ) (n : ℕ) → ((i : ℕ) → i < n → digit i ≡ 1) → clear_count digit n ≡ 0
unfolding clear_count
clear_count-ones digit zero ones = refl
clear_count-ones digit (suc n) ones =
    omega (arith, ones n (omega arith), clear_count-ones digit n (λ i lt. ones i (omega arith)))

-- The loop after `i` rounds.
pub record Freed (base total i : ℕ) (p : Pmm) : Type 0 where
  pub valid : IsValid p
  pub base_is : p.managed_base ≡ base
  pub total_is : p.total_pages ≡ total
  pub bits : (j : ℕ) → j < max_managed_pages → used p j ≡ (if is_freed i j then 0 else 1)
  pub count : p.free_pages ≡ (i + 63) / 64

-- The count goes up with the first page of each group.
one_round :
    (base total i : ℕ) (p q : Pmm)
    → Freed base total i p
    → i < max_managed_pages
    → Writes p (freed_index i) 0 q
    → q.free_pages ≡ (i + 1 + 63) / 64
one_round base total i p q f lt w =
    let target : ℕ = freed_index i in
    let inside : target < max_managed_pages = omega arith in
    let more = (Writes-free_pages p q target f.valid inside).1 w in
    let same = Writes-free_pages_same p q target 0 f.valid w in
    let was = f.bits target inside in
    elim (Bool-cases (i % 64 == 0)) [
      | inl first ↦
          let marked : used p target ≡ 1 = ground (arith, was) in
          omega (arith, more marked, f.count, (==_iff (i % 64) 0).0 first)
      | inr later ↦
          let clear : used p target ≡ 0 = ground (arith, was) in
          let ne : i % 64 ≢ 0 = ground arith in omega (arith, same clear, f.count, ne)
    ]

pub free_from-Freed :
    (base total rounds i : ℕ) (p : Pmm)
    → i + rounds ≡ total
    → Freed base total i p
    → (q : Pmm) × (free_from rounds i p ≡ some q) × Freed base total total q
unfolding free_from
free_from-Freed base total zero i p e f = let e' : i ≡ total = omega arith in (p, refl, rw e' at f)
free_from-Freed base total (suc rounds) i p e f =
    let lt : i < max_managed_pages = omega (arith, f.valid.total, f.total_is) in
    let (q, runs, w) = mark_free_index-Writes p f.valid i lt in
    let (r, rest, done) = free_from-Freed base total rounds (i + 1) q (omega arith) (record {
      valid = w.valid;
      base_is = omega (arith, w.same_base, f.base_is);
      total_is = omega (arith, w.same_total, f.total_is);
      bits = λ j j_lt. ground (arith, w.changes j, f.bits j);
      count = one_round base total i p q f lt w;
    }) in
    (r, rw (runs, rest), done)

pub ones : (base total j : ℕ) → j < max_managed_pages → used (all_used base total) j ≡ 1
unfolding bit_at all_ones
ones base total j lt =
    let inside : ltb (j / 64) bitmap_words ≡ true = ground arith in
    rw (word_at-replicate bitmap_words (j / 64) (bit_not 0), inside)
      (bit-low_mask 64 (j % 64) (omega arith))

-- The state before the loop: every bit is set.
pub all_used-Freed :
    (base total : ℕ)
    → base % 4096 ≡ 0
    → total ≤ max_managed_pages
    → base + total * 4096 < 2 ^ 64
    → Freed base total 0 (all_used base total)
unfolding all_ones
all_used-Freed base total aligned small range = record {
  valid = record {
    words = length-replicate bitmap_words (bit_not 0);
    fits = λ i. rw (word_at-replicate bitmap_words i (bit_not 0)) (ground arith);
    total = small;
    aligned = aligned;
    range = range;
    counted =
        sym (clear_count-ones (used (all_used base total)) max_managed_pages (ones base total));
  };
  base_is = refl;
  total_is = refl;
  bits = λ j lt. ones base total j lt ∙ ground arith;
  count = refl;
}
