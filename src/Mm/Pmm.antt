-- ===== src/Mm/Pmm.antt =====
-- kernel/mm/pmm.cpp: the physical page allocator, a bitmap of used pages over one managed range.
-- A read or write beyond the bitmap is undefined in the source, and `none` here.
pub mod Count
pub mod State
pub mod Mark
pub mod Alloc
pub mod Pages
pub mod Release
pub mod FreeLoop
pub mod Init
pub mod Reserve
pub mod Safety
mod Tests
use qemu_risc_core.Prelude.{
  ℕ, zero, suc, ◌+◌, ◌-◌, ◌*◌, ◌/◌, ◌%◌, bit_and, bit_or, Bool, true, false, not, ◌&&◌, ◌||◌,
  Option, none, some, List, [], ◌∷◌, ltb, leb, ◌==◌, if◌then◌else◌, get_elem?, set, replicate, u64,
  sub64, bit_not, ◌<<<◌, ◌>>>◌, ◌>>=◌,
}
use qemu_risc_core.Mm.Page.{page_shift, page_size, is_page_aligned, align_down, align_up}

abbrev pub max_managed_pages : ℕ
max_managed_pages = 32768

abbrev pub bits_per_word : ℕ
bits_per_word = 64

abbrev pub bitmap_words : ℕ
bitmap_words = (max_managed_pages + bits_per_word - 1) / bits_per_word

-- `PhysicalRange`, and `ReservedRange`, which has the same fields.
pub record PhysicalRange : Type 0 where
  pub base : ℕ
  pub size : ℕ

pub record PmmStats : Type 0 where
  pub total_pages : ℕ
  pub free_pages : ℕ
  pub used_pages : ℕ

-- The variables of the file.
pub record Pmm : Type 0 where
  pub used_bitmap : List ℕ
  pub managed_base : ℕ
  pub total_pages : ℕ
  pub free_pages : ℕ

abbrev pub bit_mask : ℕ → ℕ
bit_mask bit = 1 <<< (bit % bits_per_word)

abbrev pub word_index : ℕ → ℕ
word_index bit = bit / bits_per_word

abbrev pub pa_to_index : Pmm → ℕ → ℕ
pa_to_index p pa = sub64 pa p.managed_base >>> page_shift

pub used_index : Pmm → ℕ → Option Bool
used_index p index = do
  word ← get_elem? p.used_bitmap (word_index index)
  some (not (bit_and word (bit_mask index) == 0))

pub mark_used_index : Pmm → ℕ → Option Pmm
mark_used_index p index = do
  let word = word_index index
  let mask = bit_mask index
  old ← get_elem? p.used_bitmap word
  if bit_and old mask == 0
      then some (record p {
        used_bitmap = set p.used_bitmap word (bit_or old mask);
        free_pages = if ltb 0 p.free_pages then p.free_pages - 1 else p.free_pages;
      })
      else some p

-- The mask is that of the word's index, as in the source.
pub mark_free_index : Pmm → ℕ → Option Pmm
mark_free_index p index = do
  let word = word_index index
  let mask = bit_mask word
  old ← get_elem? p.used_bitmap word
  if bit_and old mask == 0
      then some p
      else some (record p {
        used_bitmap = set p.used_bitmap word (bit_and old (bit_not mask));
        free_pages = u64 (p.free_pages + 1);
      })

abbrev pub managed_end : Pmm → ℕ
managed_end p = u64 (p.managed_base + u64 (p.total_pages * page_size))

-- The loop of `reserve_range` from `pa` on fuel; `none` if the fuel runs out.
pub reserve_from : ℕ → ℕ → ℕ → Pmm → Option Pmm
reserve_from zero end pa p = none
reserve_from (suc fuel) end pa p =
    let rest = (do
      q ← mark_used_index p (pa_to_index p pa)
      reserve_from fuel end (u64 (pa + page_size)) q) in
    if ltb pa end then rest else some p

-- The pages of the range and one more test: fuel for all pages that can be managed.
pub reserve_range : Pmm → PhysicalRange → Option Pmm
reserve_range p r =
    if (r.size == 0) || (p.total_pages == 0)
    then some p
    else let managed_start = p.managed_base in
      let reserve_start = align_down r.base in
      let reserve_end = align_up (u64 (r.base + r.size)) in
      let start = if ltb reserve_start managed_start then managed_start else reserve_start in
      let end = if ltb (managed_end p) reserve_end then managed_end p else reserve_end in
      if leb end start then some p else reserve_from (max_managed_pages + 1) end start p

-- `mark_free_index` for the rounds left from `i`.
pub free_from : ℕ → ℕ → Pmm → Option Pmm
free_from zero i p = some p
free_from (suc rounds) i p = do q ← mark_free_index p i; free_from rounds (i + 1) q

pub reserve_all : List PhysicalRange → Pmm → Option Pmm
reserve_all [] p = some p
reserve_all (r ∷ rs) p = do q ← reserve_range p r; reserve_all rs q

-- What the first loop of `pmm_init` leaves in the bitmap.
pub all_ones : List ℕ
all_ones = replicate bitmap_words (bit_not 0)

pub pmm_init : PhysicalRange → List PhysicalRange → Option Pmm
pmm_init managed reserved =
    let base = align_up managed.base in
    let end = align_down (u64 (managed.base + managed.size)) in
    if leb end base
    then some
        (record { used_bitmap = all_ones; managed_base = base; total_pages = 0; free_pages = 0 })
    else let page_count = sub64 end base / page_size in
      let total = if ltb page_count max_managed_pages then page_count else max_managed_pages in
      do
        freed ← free_from total 0 (record {
          used_bitmap = all_ones;
          managed_base = base;
          total_pages = total;
          free_pages = 0;
        })
        reserve_all reserved freed

-- The loop of `alloc_page` at `i`; the address is 0, a null pointer, if no page is free.
pub alloc_from : ℕ → ℕ → Pmm → Option (Pmm × ℕ)
alloc_from zero i p = some (p, 0)
alloc_from (suc rounds) i p =
    let rest = alloc_from rounds (i + 1) p in
    do
      used ← used_index p i
      if used
          then rest
          else do q ← mark_used_index p i; some (q, u64 (q.managed_base + u64 (i * page_size)))

pub alloc_page : Pmm → Option (Pmm × ℕ)
alloc_page p = alloc_from p.total_pages 0 p

pub is_managed_page : Pmm → ℕ → Bool
is_managed_page p pa = is_page_aligned pa && (leb p.managed_base pa && ltb pa (managed_end p))

pub is_page_free : Pmm → ℕ → Option Bool
is_page_free p pa =
    if not (is_managed_page p pa)
    then some false
    else do used ← used_index p (pa_to_index p pa); some (not used)

pub free_page : Pmm → ℕ → Option (Pmm × Bool)
free_page p pa =
    if not (is_managed_page p pa) || not (is_page_aligned pa) then some (p, false) else do
      let index = pa_to_index p pa
      used ← used_index p index
      if not used then some (p, false) else do q ← mark_free_index p index; some (q, true)

unfoldable pub get_stats : Pmm → PmmStats
get_stats p = record {
  total_pages = p.total_pages;
  free_pages = p.free_pages;
  used_pages = sub64 p.total_pages p.free_pages;
}
