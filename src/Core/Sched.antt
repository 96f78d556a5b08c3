-- ===== src/Core/Sched.antt =====
-- kernel/core/sched/scheduler.cpp: the scheduler, with `context_switch` of
-- kernel/arch/riscv/task/switch.S. The registers in `cpu` are those with which the processor goes
-- on: after a switch, in the other task. `none` is an access through a null pointer.
pub mod Requeue
pub mod Reschedule
pub mod Start
pub mod Rounds
pub mod Turns
pub mod Interface
mod Tests
use qemu_risc_core.Prelude.{
  ℕ, Bool, true, false, not, ◌&&◌, ◌||◌, Option, none, some, ◌==◌, if◌then◌else◌, ◌>>=◌,
}
use qemu_risc_core.Core.Tasks.{
  State, running, is_running, Context, Task, Kernel, set_task, set_state, idle_task,
}
use qemu_risc_core.Core.RunQueue
use qemu_risc_core.Core.Tasks.{ready}

-- The stores into the context of `prev`, and the loads from that of `next`.
pub save_context : ℕ → Kernel → Kernel
save_context prev k = set_task prev (record (k.task prev) { context = k.cpu }) k

pub load_context : ℕ → Kernel → Kernel
load_context next k = record k { cpu = (k.task next).context }

pub context_switch : ℕ → ℕ → Kernel → Kernel
context_switch prev next k = load_context next (save_context prev k)

pub init : Kernel → Option Kernel
init k = RunQueue.init k

abbrev pub next_or_idle : ℕ → Kernel → ℕ
next_or_idle next k = if next == 0 then idle_task k else next

-- The registers of the boot are saved in a local that nothing reads again.
pub start : Kernel → Option Kernel
start k = do
  (n, popped) ← RunQueue.next k
  let next = next_or_idle popped n
  let m = (RunQueue.set_current next n).0
  if next == 0 then none else some (load_context next (set_state next running m))

-- Whether `prev` goes back into the queue.
abbrev pub requeues : ℕ → Kernel → Bool
requeues prev k = not (prev == 0) && not (prev == idle_task k) && is_running (k.task prev).state

pub requeue : ℕ → Kernel → Option Kernel
requeue prev k =
    if requeues prev k
    then (do (n, pushed) ← RunQueue.push prev (set_state prev ready k); some n)
    else some k

-- The answer is true if the context was switched; otherwise the call returns at once.
pub reschedule : Kernel → Option (Kernel × Bool)
reschedule k = do
  let prev = RunQueue.current k
  (n, popped) ← RunQueue.next k
  let next = next_or_idle popped n
  if (next == 0) || (prev == 0) then some (n, false) else do
    m ← requeue prev n
    let o = (RunQueue.set_current next (set_state next running m)).0
    some (context_switch prev next o, true)

pub yield : Kernel → Option (Kernel × Bool)
yield k = reschedule k

pub on_tick : Kernel → Kernel
on_tick k = k
