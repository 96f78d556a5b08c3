-- ===== src/Ds/List/Ring.antt =====
-- The state of a list object: a ring of distinct nodes through the sentinel.
pub mod Remove
pub mod Pop
pub mod Push
use qemu_risc_core.Prelude.{◌≡◌, refl, Bool, true, false, List, ◌∷◌, ◌⊎◌}
use qemu_risc_core.Ds.Heap.{Ptr, nullptr, Heap}
use qemu_risc_core.Ds.List.Linked.{has, Distinct, Linked}

-- From the sentinel `list` the links lead through `xs` and back.
pub record Ring (h : Heap) (list : Ptr) (xs : List Ptr) : Type 0 where
  pub links : Linked h list xs list
  pub distinct : Distinct (list ∷ xs)
  pub nodes : (p : Ptr) → has p (list ∷ xs) ≡ true → h.allocated p ≡ true
  pub not_null : has nullptr (list ∷ xs) ≡ false

-- `g` has the nodes of `h`, and the links of `h` outside `xs`.
pub record SameOutside (xs : List Ptr) (h g : Heap) : Type 0 where
  pub allocated : g.allocated ≡ h.allocated
  pub next : (p : Ptr) → has p xs ≡ false → g.next p ≡ h.next p
  pub prev : (p : Ptr) → has p xs ≡ false → g.prev p ≡ h.prev p
