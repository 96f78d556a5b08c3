-- ===== src/Boot/Memory.antt =====
-- The memory's part of `kmain`: the allocator, the address space of the kernel, satp and the timer.
use qemu_risc_core.Prelude.{
  ℕ, ◌+◌, ◌≤◌, ◌<◌, ◌^◌, ◌≡◌, refl, ◌∙◌, Option, some, ◌>>=◌, arith, codes, bind-some, bit_or,
  ◌<<<◌,
}
use qemu_risc_core.Platform.Riscv.{Csrs}
use qemu_risc_core.Platform.Clint.{interrupt_after}
use qemu_risc_core.Drivers.Uart.{Uart, put_dec, putc}
use qemu_risc_core.Drivers.Uart
use qemu_risc_core.Drivers.Uart.Wait.{ready}
use qemu_risc_core.Drivers.Uart.Talk.{put_dec-Talks, putc-Talks}
use qemu_risc_core.Mm.Platform.Image.{Fits, pmm_init_platform-free}
use qemu_risc_core.Mm.AddressSpace.{AddressSpace}
use qemu_risc_core.Mm.AddressSpace.Identity.{BoardMapped, init-BoardMapped}
use qemu_risc_core.Arch.Mmu.{make_satp, enable_sv39}
use qemu_risc_core.System.{System, with_uart, print}
use qemu_risc_core.System.Print.{print-Talks}
use qemu_risc_core.Time.Timer
use qemu_risc_core.Boot.{Image, Board, say, boot_memory}
use qemu_risc_core.Boot.Schedule.{say-some}

-- The control and status registers with paging on at `root` and the timer interrupt enabled.
abbrev pub paged : ℕ → Csrs → Csrs
paged root c = record c {
  satp = make_satp root;
  fences = c.fences + 1;
  mie = bit_or c.mie (1 <<< 7);
  mstatus = bit_or c.mstatus (1 <<< 3);
}

-- The system after the memory's part of `kmain`, but for the serial port.
abbrev pub prepared : ℕ → System → System
prepared root s = record s {
  csrs = paged root s.csrs;
  clint = interrupt_after 10000000 s.clint;
  timer = record s.timer { interval = 10000000 };
}

-- The last lines of the report: the number of ticks.
report_ticks :
    (s : System) (rest : System → Option Board)
    → s.timer.ticks < 2 ^ 64
    → 84 ≤ ready s.uart
    → (u : Uart) × ((say (codes "current ticks count: ") s >>= λ s7.
          print (put_dec (Timer.ticks s7)) s7 >>= λ s8. print (putc b'\n') s8 >>= rest)
        ≡ rest (with_uart u s))
      × (ready s.uart ≤ ready u + 84)
report_ticks s rest few enough =
    let (u1, r1, l1) =
      say-some (codes "current ticks count: ") 42 s (omega arith) (omega (arith, enough)) in
    let (u2, r2, l2) =
      print-Talks (put_dec s.timer.ticks) 40 (with_uart u1 s) (put_dec-Talks s.timer.ticks few)
        (omega (arith, enough, l1)) in
    let (u3, r3, l3) =
      print-Talks (putc b'\n') 2 (with_uart u2 s) (putc-Talks b'\n')
        (omega (arith, enough, l1, l2)) in
    (u3, bind-some _ r1 (bind-some _ r2 (bind-some _ r3 refl)), omega (arith, l1, l2, l3))

-- The report between the switch to the page tables and the start of the timer.
report_paging :
    (s : System) (rest : System → Option Board)
    → 60 ≤ ready s.uart
    → (u : Uart) × ((say (codes "paging enabled\n") s >>= λ s4.
          say (codes "trap installed\n") s4 >>= rest)
        ≡ rest (with_uart u s))
      × (ready s.uart ≤ ready u + 60)
report_paging s rest enough =
    let (u1, r1, l1) =
      say-some (codes "paging enabled\n") 30 s (omega arith) (omega (arith, enough)) in
    let (u2, r2, l2) =
      say-some (codes "trap installed\n") 30 (with_uart u1 s) (omega arith)
        (omega (arith, enough, l1)) in
    (u2, bind-some _ r1 (bind-some _ r2 refl), omega (arith, l1, l2))

pub boot_memory-prepared :
    (im : Image) (b : Board)
    → Fits im.symbols
    → b.system.timer.ticks < 2 ^ 64
    → 216 ≤ ready b.system.uart
    → (u : Uart) × (a : AddressSpace) × (boot_memory im b
        ≡ some (record { system = with_uart u (prepared a.root b.system); space = a }))
      × BoardMapped a
      × (ready b.system.uart ≤ ready u + 216)
unfolding boot_memory Uart.init enable_sv39 Timer.init
boot_memory-prepared im b fits few enough =
    let s0 : System = b.system in
    let (p, runs_pmm, ok, lt, clear) = pmm_init_platform-free im.symbols b.space.machine.mem fits in
    let space : AddressSpace = record b.space { machine = record b.space.machine { pmm = p } } in
    let (a, runs_space, mapped) = init-BoardMapped space 32767 ok lt clear in
    let (u1, r1, l1) = say-some (codes "uart ok\n") 16 s0 (omega arith) (omega (arith, enough)) in
    let (u2, r2, l2) =
      say-some (codes "pmm ok\n") 14 (with_uart u1 s0) (omega arith) (omega (arith, enough, l1)) in
    let (u3, r3, l3) =
      say-some (codes "kernel page table ok\n") 42 (with_uart u2 s0) (omega arith)
        (omega (arith, enough, l1, l2)) in
    let (u5, r5, l5) =
      report_paging (record s0 { uart = u3; csrs = enable_sv39 a.root s0.csrs }) _
        (omega (arith, enough, l1, l2, l3)) in
    let (u8, r8, l8) =
      report_ticks (with_uart u5 (prepared a.root s0))
        (λ s9. some (record { system = s9; space = a })) few
        (omega (arith, enough, l1, l2, l3, l5)) in
    (
      u8,
      a,
      bind-some _ r1 (
          bind-some _ runs_pmm
            (bind-some _ r2 (bind-some _ runs_space (bind-some _ r3 (r5 ∙ r8))))),
      mapped,
      omega (arith, l1, l2, l3, l5, l8),
    )
