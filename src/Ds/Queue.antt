-- ===== src/Ds/Queue.antt =====
-- kernel/lib/ds/queue.cpp: a first-in first-out queue over the list. `queue` is the address of
-- its only member `m_list`.
pub mod Fifo
pub mod Interface
mod Tests
use qemu_risc_core.Prelude.{Bool, if◌then◌else◌}
use qemu_risc_core.Ds.Heap.{Ptr, nullptr, Cmd, pure, ◌>>=◌}
use qemu_risc_core.Ds.List

pub init : Ptr → Cmd (Unit {0})
init queue = List.init queue

pub empty : Ptr → Cmd Bool
empty queue = List.empty queue

pub push : Ptr → Ptr → Cmd (Unit {0})
push queue node = List.push_back queue node

pub pop : Ptr → Cmd Ptr
pop queue = do is_empty ← List.empty queue; if is_empty then pure nullptr else List.pop_front queue
