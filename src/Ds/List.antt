-- ===== src/Ds/List.antt =====
-- kernel/lib/ds/list.cpp: a circular doubly linked list through a sentinel node. `list` is the
-- address of the sentinel `m_head`, which is the list's only member.
pub mod Linked
pub mod Ring
pub mod Interface
pub mod Samples
mod Tests
use qemu_risc_core.Prelude.{Bool, ◌==◌, if◌then◌else◌}
use qemu_risc_core.Ds.Heap.{
  Ptr, nullptr, Cmd, pure, ◌>>=◌, ◌>>◌, get_next, get_prev, set_next, set_prev,
}

pub init : Ptr → Cmd (Unit {0})
init list = do set_next list list; set_prev list list

pub empty : Ptr → Cmd Bool
empty list = do n ← get_next list; pure (n == list)

pub push_front : Ptr → Ptr → Cmd (Unit {0})
push_front list node = if node == nullptr then pure tt else do
  set_prev node list
  first ← get_next list
  set_next node first
  old ← get_next list
  set_prev old node
  set_next list node

pub push_back : Ptr → Ptr → Cmd (Unit {0})
push_back list node = if node == nullptr then pure tt else do
  set_next node list
  last ← get_prev list
  set_prev node last
  old ← get_prev list
  set_next old node
  set_prev list node

pub remove : Ptr → Cmd (Unit {0})
remove node = do
  before ← get_prev node
  after ← get_next node
  set_next before after
  after' ← get_next node
  before' ← get_prev node
  set_prev after' before'

pub pop_front : Ptr → Cmd Ptr
pop_front list = do
  is_empty ← empty list
  if is_empty then pure nullptr else do node ← get_next list; remove node; pure node

pub pop_back : Ptr → Cmd Ptr
pop_back list = do
  is_empty ← empty list
  if is_empty then pure nullptr else do node ← get_prev list; remove node; pure node
