-- ===== src/Ds/Heap.antt =====
-- The memory of `struct ListNode` (kernel/lib/ds/list.h), and commands over it. An access through
-- a pointer to no node is undefined in the source, and `none` here.
use qemu_risc_core.Prelude.{ℕ, Bool, Option, none, some, ◌==◌, if◌then◌else◌}

abbrev pub Ptr : Type 0
Ptr = ℕ

abbrev pub nullptr : Ptr
nullptr = 0

-- `allocated` says where a node lies; the fields of each node by its address.
pub record Heap : Type 0 where
  pub allocated : Ptr → Bool
  pub prev : Ptr → Ptr
  pub next : Ptr → Ptr

abbrev pub update : (Ptr → Ptr) → Ptr → Ptr → Ptr → Ptr
update f p v q = if q == p then v else f q

abbrev pub Cmd : Type 0 → Type 0
Cmd A = Heap → Option (A × Heap)

abbrev pub pure : {A : Type 0} → A → Cmd A
pure a h = some (a, h)

module _ {A B : Type 0} where
  abbrev pub and_then : Option (A × Heap) → (A → Cmd B) → Option (B × Heap)
  and_then none f = none
  and_then (some (a, h)) f = f a h

  infixl 5 ◌>>=◌ ◌>>◌
  abbrev pub ◌>>=◌ : Cmd A → (A → Cmd B) → Cmd B
  m >>= f = λ h. and_then (m h) f

  abbrev pub ◌>>◌ : Cmd A → Cmd B → Cmd B
  m >> k = m >>= λ _. k

-- `p->next`, `p->prev`, and writes of them.
abbrev pub get_next : Ptr → Cmd Ptr
get_next p h = if h.allocated p then some (h.next p, h) else none

abbrev pub get_prev : Ptr → Cmd Ptr
get_prev p h = if h.allocated p then some (h.prev p, h) else none

abbrev pub set_next : Ptr → Ptr → Cmd (Unit {0})
set_next p q h = if h.allocated p then some (tt, record h { next = update h.next p q }) else none

abbrev pub set_prev : Ptr → Ptr → Cmd (Unit {0})
set_prev p q h = if h.allocated p then some (tt, record h { prev = update h.prev p q }) else none
