-- ===== src/Boot/Tests.antt =====
-- Instances for the start of the tasks, and for the entry with a bss of 36 KiB.
use qemu_risc_core.Prelude.{
  ℕ, ◌+◌, ◌≤◌, ◌≡◌, ◌≢◌, refl, Option, some, [], ◌∷◌, arith, codes, ◌>>=◌, bind-some,
}
use qemu_risc_core.Drivers.Uart.{Uart}
use qemu_risc_core.Drivers.Uart.Wait.{ready}
use qemu_risc_core.Core.Tasks.{running, dead, Kernel}
use qemu_risc_core.Core.Samples.{first, second, third, sample_with, sample-IsValid}
use qemu_risc_core.Core.Sched.Reschedule.{Switched}
use qemu_risc_core.Core.Sched.Rounds.{yields}
use qemu_risc_core.Arch.Syscall.Exit.{killed}
use qemu_risc_core.System.{System, Outcome, returned, switched, with_uart, with_kernel}
use qemu_risc_core.System.Samples.{sample_system}
use qemu_risc_core.Boot.{Image, Board, say, task_entry_trampoline, boot_tasks, kmain}
use qemu_risc_core.Boot.Memory.{prepared}
use qemu_risc_core.Boot.Main.{kmain-Booted}
use qemu_risc_core.Mm.Pmm.FreeLoop.{all_used}
use qemu_risc_core.Mm.AddressSpace.{AddressSpace}
use qemu_risc_core.Mm.AddressSpace.Identity.{BoardMapped}
use qemu_risc_core.Boot.Start.{Placed, Booted}
use qemu_risc_core.Arch.TrapEntry.{Regs, Cpu}
use qemu_risc_core.Boot.Entry.{start}
use qemu_risc_core.Boot.Entry.Bss.{Cleared, start-Cleared}
use qemu_risc_core.Boot.Schedule.{say-some, boot_tasks-Booted}
use qemu_risc_core.Boot.Trampoline.{task_entry_trampoline-killed}

abbrev image : Image
image = record {
  symbols = record {
    kernel_start = 0x8000_0000;
    kernel_end = 0x8001_2000;
    text_start = 0x8000_0000;
    text_end = 0x8000_4000;
    rodata_start = 0x8000_4000;
    rodata_end = 0x8000_5000;
    data_start = 0x8000_5000;
    data_end = 0x8000_6000;
    bss_start = 0x8000_6000;
    bss_end = 0x8000_f000;
    boot_stack_bottom = 0x8000_f000;
    boot_stack_top = 0x8001_0000;
    stack_bottom = 0x8000_f000;
    stack_top = 0x8001_0000;
    heap_start = 0x8001_2000;
    global_pointer = 0x8000_5800;
  };
  task_a_entry = 0x8000_1000;
  task_b_entry = 0x8000_1100;
  task_a_stack = 0x8000_7000;
  task_b_stack = 0x8000_7400;
}

image-Placed : Placed image sample_system.kernel
image-Placed = record {
  table = (omega arith, omega arith, λ i lt. ground arith);
  queue_node = refl;
  queue_ne = omega arith;
  apart = λ t slot. let (i, lt, at) = slot in ground arith;
  idle_ne = omega arith;
  idle_fits = omega arith;
  a_ne = omega arith;
  a_fits = omega arith;
  b_ne = omega arith;
  b_fits = omega arith;
}

boot_tasks-Booted_example :
    (u : Uart) × (g : Kernel) × (boot_tasks image sample_system
      ≡ some (with_kernel g (with_uart u sample_system)))
    × Booted image sample_system.kernel g
boot_tasks-Booted_example = boot_tasks-Booted image sample_system image-Placed (omega arith)

abbrev regs : Regs
regs = record {
  ra = 0;
  gp = 0;
  tp = 0;
  t0 = 0;
  t1 = 0;
  t2 = 0;
  s0 = 0;
  s1 = 0;
  a0 = 0;
  a1 = 0;
  a2 = 0;
  a3 = 0;
  a4 = 0;
  a5 = 0;
  a6 = 0;
  a7 = 0;
  s2 = 0;
  s3 = 0;
  s4 = 0;
  s5 = 0;
  s6 = 0;
  s7 = 0;
  s8 = 0;
  s9 = 0;
  s10 = 0;
  s11 = 0;
  t3 = 0;
  t4 = 0;
  t5 = 0;
  t6 = 0;
  sp = 0;
}

abbrev cpu : Cpu
cpu = record { regs = regs; mem = λ a. 1 }

start-Cleared_example :
    (n : Cpu) × (start image.symbols cpu sample_system.csrs
      ≡ some (n, record sample_system.csrs { satp = 0 }))
    × Cleared 0x8000_6000 0x8000_f000 (λ a. 1) n.mem
    × (n.regs.sp ≡ 0x8001_0000)
    × (n.regs.gp ≡ 0x8000_5800)
start-Cleared_example = start-Cleared image.symbols cpu sample_system.csrs (omega arith)

abbrev board : Board
board = record {
  system = sample_system;
  space = record { machine = record { pmm = all_used 0 0; mem = λ a. 0 }; root = 0 };
}

kmain-Booted_example :
    (u : Uart) × (g : Kernel) × (a : AddressSpace) × (kmain image board
      ≡ some (record {
        system = with_kernel g (with_uart u (prepared a.root sample_system));
        space = a;
      }))
    × BoardMapped a
    × Booted image sample_system.kernel g
kmain-Booted_example =
    kmain-Booted image board (omega arith, omega arith) image-Placed (omega arith) (omega arith)

-- An entry that prints a line and returns.
abbrev greeting : ℕ → System → Option (Outcome ℕ)
greeting entry s = do t ← say (codes "hi\n") s; some (returned 0 t)

abbrev greeted :
    (u : Uart) × (say (codes "hi\n") sample_system ≡ some (with_uart u sample_system))
    × (ready sample_system.uart ≤ ready u + 6)
greeted = say-some (codes "hi\n") 6 sample_system (omega arith) (omega arith)

task_entry_trampoline-killed_example :
    (u : Uart) × (g : Kernel) × (task_entry_trampoline greeting sample_system
      ≡ some (switched (with_kernel g (with_uart u sample_system))))
    × Switched (killed (sample_with running)) (first ∷ second ∷ []) g
    × ((n : ℕ)
        → (o : Kernel) × (yields n g ≡ some o)
          × (o.current ≢ third)
          × ((o.task third).state ≡ dead))
task_entry_trampoline-killed_example =
    task_entry_trampoline-killed greeting sample_system (with_uart greeted.0 sample_system) 0
      (first ∷ second ∷ []) (bind-some _ greeted.1 refl) (sample-IsValid running) (omega arith)
      (omega (arith, greeted.2))
