-- ===== src/Mm/AddressSpace/Identity.antt =====
-- The address space of the kernel maps only the memory and the two devices, and these to themselves.
use qemu_risc_core.Prelude.{
  ℕ, ◌+◌, ◌*◌, ◌/◌, ◌^◌, ◌<◌, ◌≡◌, refl, ◌∙◌, Bool, true, false, ◌&&◌, ◌||◌, some, arith, ltb, leb,
  ◌==◌, Bool-cases, inl, inr, ◌⊎◌, bind-some,
}
use qemu_risc_core.Mm.Page.{align_down, align_up}
use qemu_risc_core.Mm.Page.Align.{align_down_lem, align_up_lem}
use qemu_risc_core.Arch.Sv39.{pte_leaf}
use qemu_risc_core.Arch.Sv39.Encoding.{pte_leaf_lem}
use qemu_risc_core.Arch.PageTable.{Machine, alloc_page_table, map_range, virt_to_phys}
use qemu_risc_core.Mm.Pmm.State.{used}
use qemu_risc_core.Arch.PageTable.Tree.{Plan, Tree}
use qemu_risc_core.Arch.PageTable.Write.{root_ne_null}
use qemu_risc_core.Arch.PageTable.Ensure.{Full}
use qemu_risc_core.Arch.PageTable.Empty.{
  root_plan, Rootable, alloc_page_table-Tree, alloc_page_table-rooted,
}
use qemu_risc_core.Arch.PageTable.Range.{Ranged, map_range-Ranged}
use qemu_risc_core.Mm.AddressSpace.{AddressSpace, map_device_region, kernel_address_space_init}

-- An address that is translated is translated to itself, and is in the region.
abbrev pub Identity : ℕ → (ℕ → Bool) → Machine → Type 0
Identity root region m =
    (va : ℕ)
    → va < 2 ^ 39
    → (virt_to_phys root va m ≡ 0) ⊎ ((virt_to_phys root va m ≡ va) × (region va ≡ true))

abbrev pub within : ℕ → ℕ → ℕ → Bool
within base size va = leb base va && ltb va (base + size)

-- The memory, and the pages of the serial port and of the timer.
abbrev pub in_memory_map : ℕ → Bool
in_memory_map va =
    within 0x8000_0000 0x800_0000 va
    || (within 0x1000_0000 0x1000 va || within 0x0200_0000 0x1_0000 va)

Identity-Ranged :
    (root base count : ℕ) (region : ℕ → Bool) (m n : Machine) (done : Bool)
    → Identity root region m
    → Ranged m root base base count n done
    → Identity root (λ va. within base (count * 4096) va || region va) n
Identity-Ranged root base count region m n done before ranged va small =
    elim (Bool-cases (within base (count * 4096) va)) [
      | inr out ↦
          let same = ranged.outside va small (ground (arith, out)) in
          elim (before va small) [
            | inl nowhere ↦ inl (same ∙ nowhere)
            | inr it ↦ inr (same ∙ it.0, rw (out, it.1) refl)
          ]
      | inl in_range ↦ elim (ranged.either va small) [
        | inl same ↦ elim (before va small) [
          | inl nowhere ↦ inl (same ∙ nowhere)
          | inr it ↦ inr (same ∙ it.0, rw in_range refl)
        ]
        | inr moved ↦ inr (moved.1 ∙ omega (arith, moved.0), rw in_range refl)
      ]
    ]

abbrev Space : ℕ → (ℕ → Bool) → Machine → Type 0
Space root region m = (plan : Plan) × Tree m root plan × Identity root region m

map_range-Space :
    (root flags base size : ℕ) (region : ℕ → Bool) (m : Machine)
    → flags < 1024
    → pte_leaf flags ≡ true
    → base / 4096 * 4096 ≡ base
    → base + size < 2 ^ 38
    → Space root region m
    → (n : Machine) × (done : Bool) × (map_range root base base size flags m ≡ some (n, done))
      × Space root (λ va. within base ((size + 4095) / 4096 * 4096) va || region va) n
map_range-Space root flags base size region m flags_fit leaf aligned fits (plan, tree, before) =
    let (n, done, plan', runs, tree', ranged) =
      map_range-Ranged root flags flags_fit leaf base base size m plan tree (omega (arith, aligned))
        (omega (arith, aligned)) (omega (arith, fits)) (omega (arith, fits)) in
    (
      n,
      done,
      runs,
      (
        plan',
        tree',
        Identity-Ranged root base ((size + 4095) / 4096) region m n done before ranged,
      ),
    )

device_leaf : pte_leaf 0xc6 ≡ true
device_leaf = pte_leaf_lem 0xc6

map_device_region-Space :
    (root base size : ℕ) (region : ℕ → Bool) (m : Machine)
    → base / 4096 * 4096 ≡ base
    → base + size + 4096 < 2 ^ 38
    → Space root region m
    → (n : Machine) × (done : Bool) × (map_device_region root base size m ≡ some (n, done))
      × Space root
          (λ va. within base (((size + 4095) / 4096 * 4096 + 4095) / 4096 * 4096) va || region va)
          n
unfolding map_device_region
map_device_region-Space root base size region m aligned fits space =
    let down : align_down base ≡ base = align_down_lem base (omega (arith, fits)) ∙ aligned in
    let up : align_up size ≡ (size + 4095) / 4096 * 4096 =
      align_up_lem size ∙ omega (arith, fits) in
    rw (down, up)
      (map_range-Space root 0xc6 base ((size + 4095) / 4096 * 4096) region m (omega arith)
        device_leaf aligned (omega (arith, fits)) space)

dram_leaf : pte_leaf 0xce ≡ true
dram_leaf = pte_leaf_lem 0xce

-- What `kernel_address_space_init` leaves, with a root.
abbrev pub BoardMapped : AddressSpace → Type 0
BoardMapped b = (plan : Plan) × Tree b.machine b.root plan × Identity b.root in_memory_map b.machine

init_with_root :
    (a : AddressSpace) (m : Machine) (root : ℕ)
    → alloc_page_table a.machine ≡ some (m, root)
    → (root == 0) ≡ false
    → Space root (λ va. false) m
    → (b : AddressSpace) × (kernel_address_space_init a ≡ some b) × BoardMapped b
unfolding kernel_address_space_init
init_with_root a m root alloc ne space =
    let (m1, done1, runs1, space1) =
      map_range-Space root 0xce 0x8000_0000 0x800_0000 (λ va. false) m (omega arith) dram_leaf refl
        (omega arith) space in
    let (m2, done2, runs2, space2) =
      map_device_region-Space root 0x1000_0000 0x100 _ m1 refl (omega arith) space1 in
    let (m3, done3, runs3, space3) =
      map_device_region-Space root 0x0200_0000 0x1_0000 _ m2 refl (omega arith) space2 in
    let (plan, tree, same) = space3 in
    (
      record { machine = m3; root = root },
      bind-some _ alloc (rw ne (bind-some _ runs1 (bind-some _ runs2 (bind-some _ runs3 refl)))),
      (
        plan,
        tree,
        λ va small. elim (same va small) [
          | inl nowhere ↦ inl nowhere
          | inr it ↦ inr (it.0, ground (arith, it.1))
        ],
      ),
    )

-- With a free page there is a root.
pub init-BoardMapped :
    (a : AddressSpace) (i : ℕ)
    → Rootable a.machine
    → i < a.machine.pmm.total_pages
    → used a.machine.pmm i ≡ 0
    → (b : AddressSpace) × (kernel_address_space_init a ≡ some b) × BoardMapped b
init-BoardMapped a i ok lt clear =
    let (m, root, alloc, ne, tree, nowhere) = alloc_page_table-rooted a.machine i ok lt clear in
    init_with_root a m root alloc ne (root_plan root, tree, λ va small. inl (nowhere va))

-- For a valid allocator over a range that is not at address 0 and ends below 2 ^ 56,
-- `kernel_address_space_init` returns. If the root is a null pointer, no page was free for it.
-- Otherwise the root has a tree of tables in which an address that is translated is translated to
-- itself, and is in the 128 MiB of memory, or in the pages of the serial port or of the timer.
pub kernel_address_space_init-Identity :
    (a : AddressSpace)
    → Rootable a.machine
    → (b : AddressSpace) × (kernel_address_space_init a ≡ some b)
      × (((b.root ≡ 0) × Full b.machine)
          ⊎ ((plan : Plan) × Tree b.machine b.root plan × Identity b.root in_memory_map b.machine))
unfolding kernel_address_space_init
kernel_address_space_init-Identity a ok =
    let (m, root, alloc, result) = alloc_page_table-Tree a.machine ok in
    elim result [
      | inl null ↦
          let test : (root == 0) ≡ true = let e = null.0 in ground arith in
          (record { machine = m; root = root }, bind-some _ alloc (rw test refl), inl null)
      | inr rooted ↦
          let (tree, nowhere) = rooted in
          let ne : (root == 0) ≡ false = root_ne_null tree in
          let (b, runs, board) =
            init_with_root a m root alloc ne (root_plan root, tree, λ va small. inl (nowhere va)) in
          (b, runs, inr board)
    ]
