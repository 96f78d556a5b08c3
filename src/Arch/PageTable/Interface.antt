-- ===== src/Arch/PageTable/Interface.antt =====
-- kernel/arch/riscv/mm/page_table.h: the functions on page tables, what their users may rely on, and
-- any series of calls.
use qemu_risc_core.Prelude.{
  ℕ, ◌+◌, ◌/◌, ◌%◌, ◌^◌, ◌≤◌, ◌<◌, ◌≡◌, refl, ap, ◌∙◌, Bool, true, false, Option, some, List, [],
  ◌∷◌, arith, ◌==◌, if◌then◌else◌, Bool-cases, inl, inr, ◌⊎◌, ◌>>=◌,
}
use qemu_risc_core.Mm.Page.{page_offset}
use qemu_risc_core.Arch.Sv39.{pte_leaf}
use qemu_risc_core.Arch.PageTable.{
  Machine, alloc_page_table, map_page, map_range, unmap_page, virt_to_phys,
}
use qemu_risc_core.Arch.PageTable.Tree.{Plan, Tree}
use qemu_risc_core.Arch.PageTable.Ensure.{Full}
use qemu_risc_core.Arch.PageTable.Empty.{root_plan, Rootable, alloc_page_table-Tree}
use qemu_risc_core.Arch.PageTable.Map.{Mapped, map_page-Maps}
use qemu_risc_core.Arch.PageTable.Range.{Ranged, map_range-Ranged}
use qemu_risc_core.Arch.PageTable.Unmap.{Unmapped, unmap_page-Unmapped}

pub record PageTableOps : Type 0 where
  pub alloc_page_table : Machine → Option (Machine × ℕ)
  pub map_page : ℕ → ℕ → ℕ → ℕ → Machine → Option (Machine × Bool)
  pub map_range : ℕ → ℕ → ℕ → ℕ → ℕ → Machine → Option (Machine × Bool)
  pub unmap_page : ℕ → ℕ → Machine → Machine × Bool
  pub virt_to_phys : ℕ → ℕ → Machine → ℕ

pub record IsPageTable (ops : PageTableOps) : Type 0 where
  pub allocates :
      (m : Machine)
      → Rootable m
      → (n : Machine) × (root : ℕ) × (ops.alloc_page_table m ≡ some (n, root))
        × (((root ≡ 0) × Full n)
            ⊎ (Tree n root (root_plan root) × ((va : ℕ) → ops.virt_to_phys root va n ≡ 0)))
  pub maps :
      (m : Machine) (root : ℕ) (plan : Plan) (va pa flags : ℕ)
      → Tree m root plan
      → va < 2 ^ 39
      → pa < 2 ^ 56
      → flags < 1024
      → pte_leaf flags ≡ true
      → (n : Machine) × (done : Bool) × (plan' : Plan) × (ops.map_page root va pa flags m
          ≡ some (n, done))
        × Mapped m root va pa flags n done plan'
  pub ranges :
      (m : Machine) (root : ℕ) (plan : Plan) (va pa size flags : ℕ)
      → Tree m root plan
      → flags < 1024
      → pte_leaf flags ≡ true
      → va % 4096 ≡ 0
      → pa % 4096 ≡ 0
      → va + size ≤ 2 ^ 39
      → pa + size + 4095 ≤ 2 ^ 56
      → (n : Machine) × (done : Bool) × (plan' : Plan) × (ops.map_range root va pa size flags m
          ≡ some (n, done))
        × Tree n root plan'
        × Ranged m root va pa ((size + 4095) / 4096) n done
  pub unmaps :
      (m : Machine) (root : ℕ) (plan : Plan) (va : ℕ)
      → Tree m root plan
      → va < 2 ^ 39
      → Unmapped m root plan va (ops.unmap_page root va m).0 (ops.unmap_page root va m).1

abbrev pub page_table_ops : PageTableOps
page_table_ops = record {
  alloc_page_table = alloc_page_table;
  map_page = map_page;
  map_range = map_range;
  unmap_page = unmap_page;
  virt_to_phys = virt_to_phys;
}

pub page_table_ops-IsPageTable : IsPageTable page_table_ops
page_table_ops-IsPageTable = record {
  allocates = alloc_page_table-Tree;
  maps = λ m root plan va pa flags tree va_fits pa_fits flags_fit leaf.
      map_page-Maps pa flags pa_fits flags_fit leaf tree va va_fits;
  ranges = λ m root plan va pa size flags tree flags_fit leaf va_al pa_al va_fits pa_fits.
      map_range-Ranged root flags flags_fit leaf va pa size m plan tree va_al pa_al va_fits pa_fits;
  unmaps = λ m root plan va tree fits. unmap_page-Unmapped tree va fits;
}

-- The calls of a client on one address space.
pub data Request : Type 0 where
  map : ℕ → ℕ → ℕ → Request
  unmap : ℕ → Request

abbrev pub request : PageTableOps → ℕ → Request → Machine → Option (Machine × Bool)
request ops root (map va pa flags) m = ops.map_page root va pa flags m
request ops root (unmap va) m = some (ops.unmap_page root va m)

-- The machine after a series of calls, and the answers.
pub requests : PageTableOps → ℕ → List Request → Machine → Option (Machine × List Bool)
requests ops root [] m = some (m, [])
requests ops root (r ∷ rs) m = do
  (n, done) ← request ops root r m
  (o, rest) ← requests ops root rs n
  some (o, done ∷ rest)

-- The address space as a function: what one call with its answer makes of it.
abbrev pub target : Request → ℕ → ℕ
target (map va pa flags) at = pa + page_offset at
target (unmap va) at = 0

abbrev pub place : Request → ℕ
place (map va pa flags) = va
place (unmap va) = va

abbrev pub after_request : Request → Bool → (ℕ → ℕ) → ℕ → ℕ
after_request r done space at =
    if done then (if at / 4096 == place r / 4096 then target r at else space at) else space at

pub after_requests : List Request → List Bool → (ℕ → ℕ) → ℕ → ℕ
after_requests [] answers space = space
after_requests (r ∷ rs) [] space = space
after_requests (r ∷ rs) (done ∷ answers) space =
    after_requests rs answers (after_request r done space)

abbrev pub Suits : Request → Type 0
Suits (map va pa flags) = (va < 2 ^ 39) × (pa < 2 ^ 56) × (flags < 1024) × (pte_leaf flags ≡ true)
Suits (unmap va) = va < 2 ^ 39

abbrev pub AllSuit : List Request → Type 0
AllSuit [] = Unit {0}
AllSuit (r ∷ rs) = Suits r × AllSuit rs

-- The space `f` is what the tables of `m` translate.
abbrev pub Shows : ℕ → Machine → (ℕ → ℕ) → Type 0
Shows root m f = (at : ℕ) → at < 2 ^ 39 → virt_to_phys root at m ≡ f at

module _ (ops : PageTableOps) (laws : IsPageTable ops) (root : ℕ) where
  abbrev Serves : Request → Machine → (ℕ → ℕ) → Type 0
  Serves r m f =
      (n : Machine) × (done : Bool) × (plan : Plan) × (request ops root r m ≡ some (n, done))
      × Tree n root plan
      × Shows root n (after_request r done f)

  map-Serves :
      (m n : Machine) (plan' : Plan) (f : ℕ → ℕ) (va pa flags : ℕ) (done : Bool)
      → Shows root m f
      → Mapped m root va pa flags n done plan'
      → Shows root n (after_request (map va pa flags) done f)
  map-Serves m n plan' f va pa flags true shows mapped at small =
      elim (Bool-cases (at / 4096 == va / 4096)) [
        | inl here ↦ rw here (mapped.mapped at refl (ground arith))
        | inr away ↦ rw away (mapped.other at small (ground arith) ∙ shows at small)
      ]
  map-Serves m n plan' f va pa flags false shows mapped at small =
      mapped.unchanged at small refl ∙ shows at small

  unmap-Serves :
      (m n : Machine) (plan : Plan) (f : ℕ → ℕ) (va : ℕ) (done : Bool)
      → Shows root m f
      → Unmapped m root plan va n done
      → Shows root n (after_request (unmap va) done f)
  unmap-Serves m n plan f va true shows un at small = elim (Bool-cases (at / 4096 == va / 4096)) [
    | inl here ↦ rw here (un.cleared at refl (ground arith))
    | inr away ↦ rw away (un.other at small (ground arith) ∙ shows at small)
  ]
  unmap-Serves m n plan f va false shows un at small =
      ap (virt_to_phys root at) (un.refused refl) ∙ shows at small

  request-Serves :
      (r : Request) (m : Machine) (plan : Plan) (f : ℕ → ℕ)
      → Tree m root plan
      → Suits r
      → Shows root m f
      → Serves r m f
  request-Serves (map va pa flags) m plan f tree (va_fits, pa_fits, flags_fit, leaf) shows =
      let (n, done, plan', runs, mapped) =
        laws.maps m root plan va pa flags tree va_fits pa_fits flags_fit leaf in
      (n, done, plan', runs, mapped.tree, map-Serves m n plan' f va pa flags done shows mapped)
  request-Serves (unmap va) m plan f tree fits shows =
      let un = laws.unmaps m root plan va tree fits in
      (
        (ops.unmap_page root va m).0,
        (ops.unmap_page root va m).1,
        plan,
        refl,
        un.tree,
        unmap-Serves m (ops.unmap_page root va m).0 plan f va (ops.unmap_page root va m).1 shows un,
      )

  requests-Shows :
      (rs : List Request) (m : Machine) (plan : Plan) (f : ℕ → ℕ)
      → Tree m root plan
      → AllSuit rs
      → Shows root m f
      → (n : Machine) × (answers : List Bool) × (plan' : Plan) × (requests ops root rs m
          ≡ some (n, answers))
        × Tree n root plan'
        × Shows root n (after_requests rs answers f)
  unfolding requests after_requests
  requests-Shows [] m plan f tree suit shows = (m, [], plan, refl, tree, shows)
  requests-Shows (r ∷ rs) m plan f tree suit shows =
      let (n, done, plan', runs, tree', shows') = request-Serves r m plan f tree suit.0 shows in
      let (o, answers, plan'', all, tree'', shown) =
        requests-Shows rs n plan' (after_request r done f) tree' suit.1 shows' in
      (o, done ∷ answers, plan'', rw (runs, all) refl, tree'', shown)

-- For a tree of page tables, any series of calls of `map_page` and `unmap_page` on it, on addresses of 39
-- bits, physical addresses of 56 bits and flags of ten bits with one of R, W and X, returns and
-- leaves a tree of tables, which translates as the function does that every accepted call
-- changes at its page, to the offsets in the physical page or to 0, and no refused call does.
pub requests-space :
    (rs : List Request) (m : Machine) (root : ℕ) (plan : Plan)
    → Tree m root plan
    → AllSuit rs
    → (n : Machine) × (answers : List Bool) × (plan' : Plan) × (requests page_table_ops root rs m
        ≡ some (n, answers))
      × Tree n root plan'
      × ((at : ℕ)
          → at < 2 ^ 39
          → virt_to_phys root at n ≡ after_requests rs answers (λ va. virt_to_phys root va m) at)
requests-space rs m root plan tree suit =
    requests-Shows page_table_ops page_table_ops-IsPageTable root rs m plan
      (λ va. virt_to_phys root va m) tree suit (λ at small. refl)
