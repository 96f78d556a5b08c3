-- ===== src/Core/Tasks.antt =====
-- kernel/core/task: the tasks, their table, and kernel/lib/ds/intrusive.h, by which a task is found
-- from its list node. A task is known by its address; its fields but `run_node` are in `task`, and
-- the links of the `run_node` are those of the node at its address. `none` is an access through a
-- pointer to nothing.
pub mod Create
pub mod First
pub mod Init
pub mod Interface
mod Tests
use qemu_risc_core.Prelude.{
  ℕ, zero, suc, ◌+◌, ◌*◌, ◌%◌, ◌^◌, bit_and, Bool, true, false, ◌||◌, Option, none, some, ◌==◌,
  if◌then◌else◌, u64, bit_not, sub64, ◌>>=◌,
}
use qemu_risc_core.Ds.Heap.{Heap, set_prev, set_next}

pub data State : Type 0 where
  empty ready running blocked dead : State

abbrev pub is_empty : State → Bool
is_empty empty = true
is_empty _ = false

abbrev pub is_running : State → Bool
is_running running = true
is_running _ = false

pub record Context : Type 0 where
  pub ra : ℕ
  pub sp : ℕ
  pub s0 : ℕ
  pub s1 : ℕ
  pub s2 : ℕ
  pub s3 : ℕ
  pub s4 : ℕ
  pub s5 : ℕ
  pub s6 : ℕ
  pub s7 : ℕ
  pub s8 : ℕ
  pub s9 : ℕ
  pub s10 : ℕ
  pub s11 : ℕ

pub record Task : Type 0 where
  pub id : ℕ
  pub state : State
  pub context : Context
  pub entry : ℕ
  pub stack_base : ℕ
  pub stack_size : ℕ

-- The offset of `run_node` in a `Task` behind two words of 4 bytes, and the size of a `Task`.
abbrev pub run_node_offset : ℕ
run_node_offset = 8

abbrev pub task_size : ℕ
task_size = 160

abbrev pub container_of : ℕ → ℕ → ℕ
container_of ptr offset = sub64 ptr offset

abbrev pub run_node : ℕ → ℕ
run_node task = task + run_node_offset

-- The variables of the task manager, of the run queue (`queue` is the address of the ready queue,
-- `current` the current task) and the registers that a call preserves. `table`, `trampoline`,
-- `idle_entry` and `idle_stack` are addresses of the image.
pub record Kernel : Type 0 where
  pub table : ℕ
  pub trampoline : ℕ
  pub idle_entry : ℕ
  pub idle_stack : ℕ
  pub queue : ℕ
  pub task : ℕ → Task
  pub heap : Heap
  pub idle : ℕ
  pub next_id : ℕ
  pub current : ℕ
  pub cpu : Context

abbrev pub max_tasks : ℕ
max_tasks = 32

abbrev pub task_addr : Kernel → ℕ → ℕ
task_addr k i = k.table + task_size * i

abbrev pub set_task : ℕ → Task → Kernel → Kernel
set_task t fields k = record k { task = λ (u : ℕ). if u == t then fields else k.task u }

abbrev pub set_state : ℕ → State → Kernel → Kernel
set_state t s k = set_task t (record (k.task t) { state = s }) k

-- The search from the index `i`; a null pointer if no entry is empty.
pub find_empty : ℕ → ℕ → Kernel → ℕ
find_empty zero i k = 0
find_empty (suc rounds) i k =
    let rest = find_empty rounds (i + 1) k in
    if is_empty (k.task (task_addr k i)).state then task_addr k i else rest

abbrev pub stack_top : ℕ → ℕ → ℕ
stack_top stack_base stack_size = bit_and (u64 (stack_base + stack_size)) (bit_not 0xf)

abbrev pub first_context : Kernel → ℕ → Context
first_context k sp = record {
  ra = k.trampoline;
  sp = sp;
  s0 = 0;
  s1 = 0;
  s2 = 0;
  s3 = 0;
  s4 = 0;
  s5 = 0;
  s6 = 0;
  s7 = 0;
  s8 = 0;
  s9 = 0;
  s10 = 0;
  s11 = 0;
}

pub fill_task : ℕ → ℕ → ℕ → ℕ → Kernel → Option Kernel
fill_task t entry stack_base stack_size k = do
  (a, h) ← set_prev (run_node t) 0 k.heap
  (b, h') ← set_next (run_node t) 0 h
  let fields : Task = record {
    id = k.next_id;
    state = ready;
    context = first_context k (stack_top stack_base stack_size);
    entry = entry;
    stack_base = stack_base;
    stack_size = stack_size;
  }
  some (record (set_task t fields k) { heap = h'; next_id = (k.next_id + 1) % 2 ^ 32 })

-- The address is 0, a null pointer, if the arguments or the table do not allow a task.
pub create_kernel_task : ℕ → ℕ → ℕ → Kernel → Option (Kernel × ℕ)
create_kernel_task entry stack_base stack_size k =
    if (stack_base == 0) || (stack_size == 0)
    then some (k, 0)
    else let t = find_empty max_tasks 0 k in
      if t == 0 then some (k, 0) else do n ← fill_task t entry stack_base stack_size k; some (n, t)

-- The loop of `init` over the table, with the rounds left.
pub clear_from : ℕ → ℕ → Kernel → Kernel
clear_from zero i k = k
clear_from (suc rounds) i k =
    let t = task_addr k i in
    clear_from rounds (i + 1) (
      set_task t (record (k.task t) { state = empty; stack_base = 0; stack_size = 0; entry = 0 }) k)

pub init : Kernel → Option Kernel
init k = do
  (n, t) ←
      create_kernel_task k.idle_entry k.idle_stack 256
        (clear_from max_tasks 0 (record k { next_id = 1 }))
  some (record n { idle = t })

unfoldable pub idle_task : Kernel → ℕ
idle_task k = if k.idle == 0 then 0 else k.idle
