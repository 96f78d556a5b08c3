-- ===== src/Boot/Main.antt =====
-- `kmain` as a whole: the memory, then the tasks.
use qemu_risc_core.Prelude.{◌≤◌, ◌<◌, ◌^◌, ◌≡◌, refl, some, arith, bind-some}
use qemu_risc_core.Drivers.Uart.{Uart}
use qemu_risc_core.Drivers.Uart.Wait.{ready}
use qemu_risc_core.Core.Tasks.{Kernel}
use qemu_risc_core.Mm.Platform.Image.{Fits}
use qemu_risc_core.Mm.AddressSpace.{AddressSpace}
use qemu_risc_core.Mm.AddressSpace.Identity.{BoardMapped}
use qemu_risc_core.System.{with_uart, with_kernel}
use qemu_risc_core.Boot.{Image, Board, kmain}
use qemu_risc_core.Boot.Start.{Placed, Booted}
use qemu_risc_core.Boot.Memory.{prepared, boot_memory-prepared}
use qemu_risc_core.Boot.Schedule.{boot_tasks-Booted}

-- For an image that has a byte and leaves the last page of the memory free, whose tasks and stacks
-- are placed as `Placed` asks, a count of ticks below 2 ^ 64, and a serial port that is seen ready
-- 458 times, `kmain` comes to its first task. The root of the page tables is not null, an
-- address that they translate is translated to itself and is in the memory or the pages of the
-- serial port or the timer, satp has this root, the timer interrupt is enabled with an interval of
-- 10000000, task A is the current task and task B is ready behind it; and but for the serial port
-- nothing else of the system is changed.
pub kmain-Booted :
    (im : Image) (b : Board)
    → Fits im.symbols
    → Placed im b.system.kernel
    → b.system.timer.ticks < 2 ^ 64
    → 458 ≤ ready b.system.uart
    → (u : Uart) × (g : Kernel) × (a : AddressSpace) × (kmain im b
        ≡ some
            (record { system = with_kernel g (with_uart u (prepared a.root b.system)); space = a }))
      × BoardMapped a
      × Booted im b.system.kernel g
unfolding kmain
kmain-Booted im b fits placed few enough =
    let (u, a, memory, mapped, left) = boot_memory-prepared im b fits few (omega (arith, enough)) in
    let (v, g, tasks, booted) =
      boot_tasks-Booted im (with_uart u (prepared a.root b.system)) placed
        (omega (arith, enough, left)) in
    (v, g, a, bind-some _ memory (bind-some _ tasks refl), mapped, booted)
