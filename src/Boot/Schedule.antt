-- ===== src/Boot/Schedule.antt =====
-- The scheduler's part of `kmain`.
use qemu_risc_core.Prelude.{
  ℕ, ◌+◌, ◌*◌, ◌≤◌, ◌≡◌, refl, some, List, [], ◌∷◌, arith, length, codes, bind-some,
}
use qemu_risc_core.Drivers.Uart.{Uart, puts}
use qemu_risc_core.Drivers.Uart.Wait.{ready}
use qemu_risc_core.Drivers.Uart.Talk.{puts-Talks}
use qemu_risc_core.Core.Tasks.{Kernel, task_addr}
use qemu_risc_core.Core.Sched.Start.{start-started}
use qemu_risc_core.System.{System, with_uart, with_kernel}
use qemu_risc_core.System.Print.{print-Talks}
use qemu_risc_core.Boot.{Image, say, bootstrap_scheduler, boot_tasks}
use qemu_risc_core.Boot.Start.{
  Placed, Booted, empty_queue, inits, with_b, creates_a, creates_b, pushes, with_both, final,
  final-Booted,
}

-- A text is printed if the serial port is seen ready twice for each byte of it.
pub say-some :
    (text : List ℕ) (n : ℕ) (s : System)
    → 2 * length text ≤ n
    → n ≤ ready s.uart
    → (u : Uart) × (say text s ≡ some (with_uart u s)) × (ready s.uart ≤ ready u + n)
say-some text n s fits enough = print-Talks (puts (some text)) n s (puts-Talks text n fits) enough

-- For a table of tasks in memory, with the run queue beside it, and stacks that are not null and lie
-- in the address space, and a serial port that is seen ready 242 times, the part of `kmain` from
-- the scheduler on ends in task A: it is the current task, running, with the trampoline and
-- the top of its stack in the registers; task B is ready behind it, with a context of the same
-- kind, the run queue is valid, and the idle task is the first of the table. Nothing but the tasks
-- and the serial port is changed.
pub boot_tasks-Booted :
    (im : Image) (s : System)
    → Placed im s.kernel
    → 242 ≤ ready s.uart
    → (u : Uart) × (g : Kernel) × (boot_tasks im s ≡ some (with_kernel g (with_uart u s)))
      × Booted im s.kernel g
unfolding boot_tasks bootstrap_scheduler
boot_tasks-Booted im s p enough =
    let k : Kernel = s.kernel in
    let (f, h, runs_init, runs_sched, v, empties) = inits im k p in
    let make_a = creates_a im k p f h empties v in
    let make_b = creates_b im k p f h empties v in
    let (h1, h2, push_a, push_b, v2) = pushes im k p f h empties v in
    let (h3, starts, valid) =
      start-started (with_both im k p f h empties v h1 h2) (task_addr k 1 ∷ task_addr k 2 ∷ [])
        v2 in
    let (u1, r1, l1) =
      say-some (codes "start tasks scheduler\n") 44 s (omega arith) (omega (arith, enough)) in
    let s1 : System = with_uart u1 s in
    let (u2, r2, l2) =
      say-some (codes "Hello from bootstrap_scheduler\n") 62 s1 (omega arith)
        (omega (arith, enough, l1)) in
    let s2 : System = with_kernel (empty_queue im k p f h) (with_uart u2 s1) in
    let (u3, r3, l3) =
      say-some (codes "Task manager and scheduler inited\n") 68 s2 (omega arith)
        (omega (arith, enough, l1, l2)) in
    let s3 : System = with_kernel (with_b im k p f h empties v) (with_uart u3 s2) in
    let (u4, r4, l4) =
      say-some (codes "Creating task A&B\n") 36 s3 (omega arith)
        (omega (arith, enough, l1, l2, l3)) in
    let s4 : System = with_kernel (with_both im k p f h empties v h1 h2) (with_uart u4 s3) in
    let (u5, r5, l5) =
      say-some (codes "Start scheduler\n") 32 s4 (omega arith)
        (omega (arith, enough, l1, l2, l3, l4)) in
    (
      u5,
      final im k p f h empties v h1 h2 h3,
      bind-some _ r1 (
          bind-some _ (bind-some _ r2 (bind-some _ runs_init (bind-some _ runs_sched refl))) (
            bind-some _ r3 (
              bind-some _ make_a (
                bind-some _ make_b (
                  bind-some _ r4 (
                    bind-some _ push_a
                      (bind-some _ push_b (bind-some _ r5 (bind-some _ starts refl))))))))),
      final-Booted im k p f h empties v h1 h2 h3 valid,
    )
