-- ===== src/Arch/PageTable.antt =====
-- kernel/arch/riscv/mm/page_table.cpp: three-level Sv39 page tables in physical memory. `none`
-- stands for undefined behaviour of the page allocator.
pub mod Tree
pub mod Frame
pub mod Fresh
pub mod Leaf
pub mod Write
pub mod Growth
pub mod Grow
pub mod Ensure
pub mod Walk
pub mod Unmap
pub mod Empty
pub mod Map
pub mod Roundtrip
pub mod Range
pub mod Interface
mod Tests
use qemu_risc_core.Prelude.{
  ℕ, zero, suc, ◌+◌, ◌*◌, ◌^◌, bit_or, Bool, true, false, not, ◌||◌, Option, none, some, ltb, ◌==◌,
  if◌then◌else◌, u64, ◌>>=◌,
}
use qemu_risc_core.Mm.Page.{page_size, is_page_aligned, align_up, page_offset}
use qemu_risc_core.Mm.Pmm.{Pmm, alloc_page}
use qemu_risc_core.Arch.Sv39.{vpn_index, make_pte, pte_to_pa, pte_valid, pte_leaf, pte_v}

-- `mem a` is the 8-byte word at the address `a`; a page table at `t` has its entry `i` at
-- `t + 8 * i`.
pub record Machine : Type 0 where
  pub pmm : Pmm
  pub mem : ℕ → ℕ

abbrev pub entries_per_table : ℕ
entries_per_table = 512

abbrev pub entry_addr : ℕ → ℕ → ℕ
entry_addr table index = table + 8 * index

abbrev pub store : (ℕ → ℕ) → ℕ → ℕ → ℕ → ℕ
store mem addr value a = if a == addr then value else mem a

-- The words from index `i` of the page, for the rounds left.
pub zero_from : ℕ → ℕ → ℕ → (ℕ → ℕ) → ℕ → ℕ
zero_from zero i page mem = mem
zero_from (suc rounds) i page mem = zero_from rounds (i + 1) page (store mem (entry_addr page i) 0)

pub zero_page : ℕ → (ℕ → ℕ) → ℕ → ℕ
zero_page page mem = zero_from entries_per_table 0 page mem

abbrev pub pte_to_table : ℕ → ℕ
pte_to_table pte = pte_to_pa pte

-- The address is 0, a null pointer, if no page is free.
pub alloc_page_table : Machine → Option (Machine × ℕ)
alloc_page_table m = do
  (pmm, page) ← alloc_page m.pmm
  if page == 0
      then some (record m { pmm = pmm }, 0)
      else some (record { pmm = pmm; mem = zero_page page m.mem }, page)

-- The entry is made valid if it is not; nothing comes back if there is no page for the table.
pub ensure_entry : ℕ → Machine → Option (Machine × Bool)
ensure_entry entry m =
    if not (pte_valid (m.mem entry))
    then (do
      (n, next) ← alloc_page_table m
      if next == 0
          then some (n, false)
          else some (record n { mem = store n.mem entry (make_pte next pte_v) }, true))
    else some (m, true)

-- One level of the walk of `map_page`: the table of the level below, or nothing where `map_page`
-- returns false.
pub step_down : ℕ → ℕ → ℕ → Machine → Option (Machine × Option ℕ)
step_down level table va m = do
  let entry = entry_addr table (vpn_index va level)
  (n, ready) ← ensure_entry entry m
  let pte = n.mem entry
  if not ready
      then some (n, none)
      else if pte_leaf pte
      then some (n, none)
      else some (n, some (pte_to_table pte))

-- The walk from `level` down to level 1.
pub walk_down : ℕ → ℕ → ℕ → Machine → Option (Machine × Option ℕ)
walk_down zero table va m = some (m, some table)
walk_down (suc level) table va m = do
  (n, next) ← step_down (suc level) table va m
  elim next [ none ↦ some (n, none) | some t ↦ walk_down level t va n ]

-- The end of `map_page`: the leaf is written if it is not valid.
pub install : ℕ → ℕ → ℕ → Machine → Option ℕ → Option (Machine × Bool)
install va pa flags m none = some (m, false)
install va pa flags m (some table) =
    let leaf = entry_addr table (vpn_index va 0) in
    if pte_valid (m.mem leaf)
    then some (m, false)
    else some (record m { mem = store m.mem leaf (make_pte pa (bit_or flags pte_v)) }, true)

pub map_page : ℕ → ℕ → ℕ → ℕ → Machine → Option (Machine × Bool)
map_page root va pa flags m =
    if root == 0
    then some (m, false)
    else if not (is_page_aligned va) || not (is_page_aligned pa)
    then some (m, false)
    else do (n, found) ← walk_down 2 root va m; install va pa flags n found

-- The loop of `map_range` on fuel.
pub map_from : ℕ → ℕ → ℕ → ℕ → ℕ → ℕ → Machine → Option (Machine × Bool)
map_from zero root end va pa flags m = none
map_from (suc fuel) root end va pa flags m =
    let go = (do
      (n, done) ← map_page root va pa flags m
      let rest = map_from fuel root end (u64 (va + page_size)) (u64 (pa + page_size)) flags n
      if done then rest else some (n, false)) in
    if ltb va end then go else some (m, true)

-- Every page of the address space, and one more test.
abbrev pub map_fuel : ℕ
map_fuel = 2 ^ 52 + 1

pub map_range : ℕ → ℕ → ℕ → ℕ → ℕ → Machine → Option (Machine × Bool)
map_range root va pa size flags m =
    if size == 0
    then some (m, true)
    else if not (is_page_aligned va) || not (is_page_aligned pa)
    then some (m, false)
    else map_from map_fuel root (align_up (u64 (va + size))) va pa flags m

-- The walk of `virt_to_phys` with `rounds` levels left, at level `rounds - 1`.
pub translate_from : ℕ → ℕ → ℕ → (ℕ → ℕ) → ℕ
translate_from zero table va mem = 0
translate_from (suc level) table va mem =
    let pte = mem (entry_addr table (vpn_index va level)) in
    let below = translate_from level (pte_to_table pte) va mem in
    if not (pte_valid pte)
    then 0
    else if pte_leaf pte
    then u64 (pte_to_pa pte + page_offset va)
    else below

pub virt_to_phys : ℕ → ℕ → Machine → ℕ
virt_to_phys root va m = if root == 0 then 0 else translate_from 3 root va m.mem

-- The walk of `unmap_page` down to level 1.
pub find_leaf_table : ℕ → ℕ → ℕ → (ℕ → ℕ) → Option ℕ
find_leaf_table zero table va mem = some table
find_leaf_table (suc level) table va mem =
    let pte = mem (entry_addr table (vpn_index va (suc level))) in
    let below = find_leaf_table level (pte_to_table pte) va mem in
    if not (pte_valid pte) || pte_leaf pte then none else below

pub unmap_page : ℕ → ℕ → Machine → Machine × Bool
unmap_page root va m =
    if (root == 0) || not (is_page_aligned va)
    then (m, false)
    else elim (find_leaf_table 2 root va m.mem) [
      | none ↦ (m, false)
      | some table ↦
          let leaf = entry_addr table (vpn_index va 0) in
          if not (pte_valid (m.mem leaf)) || not (pte_leaf (m.mem leaf))
          then (m, false)
          else (record m { mem = store m.mem leaf 0 }, true)
    ]
