-- ===== src/Ds/List/Interface.antt =====
-- kernel/lib/ds/list.h: the operations of the class `List`, and what its users may rely on.
use qemu_risc_core.Prelude.{◌≡◌, ◌≢◌, Bool, true, some, List, [], ◌∷◌, ◌++◌}
use qemu_risc_core.Ds.Heap.{Ptr, nullptr, Heap, Cmd}
use qemu_risc_core.Ds.List.{init, empty, push_front, push_back, pop_front, pop_back, remove}
use qemu_risc_core.Ds.List.Ring.{Ring, SameOutside}
use qemu_risc_core.Ds.List.Ring.Push.{
  Fresh, init-Ring, push_back-snoc, push_front-cons, push-nullptr,
}
use qemu_risc_core.Ds.List.Ring.Pop.{
  is_nil, empty-is_nil, pop_front-cons, pop_front-nil, pop_back-snoc, pop_back-nil,
}
use qemu_risc_core.Ds.List.Ring.Remove.{remove-Ring}

-- The object is the pointer to its member `m_head`.
pub record ListOps : Type 0 where
  pub init : Ptr → Cmd (Unit {0})
  pub empty : Ptr → Cmd Bool
  pub push_front : Ptr → Ptr → Cmd (Unit {0})
  pub push_back : Ptr → Ptr → Cmd (Unit {0})
  pub pop_front : Ptr → Cmd Ptr
  pub pop_back : Ptr → Cmd Ptr
  pub remove : Ptr → Cmd (Unit {0})

-- A command that leaves the ring `xs`, and has written to the nodes `touched` at most.
abbrev pub Leaves : {A : Type 0} → Heap → Ptr → Cmd A → A → List Ptr → List Ptr → Type 0
Leaves h list command answer xs touched =
    (g : Heap) × (command h ≡ some (answer, g)) × Ring g list xs × SameOutside touched h g

-- The list as a sequence of nodes with two ends.
pub record IsDeque (ops : ListOps) : Type 0 where
  pub inits :
      (h : Heap) (list : Ptr)
      → h.allocated list ≡ true
      → list ≢ nullptr
      → Leaves h list (ops.init list) tt [] (list ∷ [])
  pub tests :
      (h : Heap) (list : Ptr) (xs : List Ptr)
      → Ring h list xs
      → ops.empty list h ≡ some (is_nil xs, h)
  pub adds_front :
      (h : Heap) (list : Ptr) (xs : List Ptr) (node : Ptr)
      → Ring h list xs
      → Fresh h list xs node
      → Leaves h list (ops.push_front list node) tt (node ∷ xs) (list ∷ node ∷ xs)
  pub adds_back :
      (h : Heap) (list : Ptr) (xs : List Ptr) (node : Ptr)
      → Ring h list xs
      → Fresh h list xs node
      → Leaves h list (ops.push_back list node) tt (xs ++ node ∷ []) (list ∷ xs ++ node ∷ [])
  pub ignores_null :
      (h : Heap) (list : Ptr)
      → (ops.push_back list nullptr h ≡ some (tt, h))
        × (ops.push_front list nullptr h ≡ some (tt, h))
  pub takes_front :
      (h : Heap) (list x : Ptr) (xs : List Ptr)
      → Ring h list (x ∷ xs)
      → Leaves h list (ops.pop_front list) x xs (list ∷ x ∷ xs)
  pub takes_back :
      (h : Heap) (list : Ptr) (xs : List Ptr) (x : Ptr)
      → Ring h list (xs ++ x ∷ [])
      → Leaves h list (ops.pop_back list) x xs (list ∷ xs ++ x ∷ [])
  pub takes_null :
      (h : Heap) (list : Ptr)
      → Ring h list []
      → (ops.pop_front list h ≡ some (nullptr, h)) × (ops.pop_back list h ≡ some (nullptr, h))
  pub removes :
      (h : Heap) (list : Ptr) (before : List Ptr) (x : Ptr) (after : List Ptr)
      → Ring h list (before ++ x ∷ after)
      → Leaves h list (ops.remove x) tt (before ++ after) (list ∷ before ++ x ∷ after)

abbrev pub list_ops : ListOps
list_ops = record {
  init = init;
  empty = empty;
  push_front = push_front;
  push_back = push_back;
  pop_front = pop_front;
  pop_back = pop_back;
  remove = remove;
}

-- The class `List` is a sequence with two ends: in a ring of nodes, `init` leaves the empty ring;
-- `empty` tests for it; the pushes add a node that is not in the ring, at their end, and ignore a
-- null pointer; the pops take the node at their end, or answer a null pointer for the empty ring;
-- `remove` takes any node. No other links are written, and no access is out of the nodes.
pub list_ops-IsDeque : IsDeque list_ops
list_ops-IsDeque = record {
  inits = init-Ring;
  tests = empty-is_nil;
  adds_front = push_front-cons;
  adds_back = push_back-snoc;
  ignores_null = push-nullptr;
  takes_front = λ h list x xs ring.
      let (g, runs, after) = pop_front-cons h list x xs ring in (g, runs, after.0, after.1);
  takes_back = λ h list xs x ring.
      let (g, runs, after) = pop_back-snoc h list xs x ring in (g, runs, after.0, after.1);
  takes_null = λ h list ring. (pop_front-nil h list ring, pop_back-nil h list ring);
  removes = remove-Ring;
}
