-- ===== src/System/Print.antt =====
-- Printing changes the serial port and nothing else.
use qemu_risc_core.Prelude.{ℕ, ◌≤◌, ◌≡◌, refl, Option, some, List, length, ◌+◌}
use qemu_risc_core.Drivers.Uart.{Uart}
use qemu_risc_core.Drivers.Uart.Wait.{ready, Sends}
use qemu_risc_core.Drivers.Uart.Send.{wire, Prints}
use qemu_risc_core.Drivers.Uart.Talk.{Talks}
use qemu_risc_core.System.{System, with_uart, print}

pub print-some :
    (f : Uart → Option Uart) (s : System) (u : Uart)
    → f s.uart ≡ some u
    → print f s ≡ some (with_uart u s)
unfolding print
print-some f s u runs = rw runs refl

pub print-Prints :
    (f : Uart → Option Uart) (text : List ℕ) (s : System)
    → Prints f text
    → length (wire text) ≤ ready s.uart
    → (u : Uart) × (print f s ≡ some (with_uart u s)) × Sends s.uart (wire text) u
print-Prints f text s prints enough =
    let (u, runs, sends) = prints s.uart enough in (u, print-some f s u runs, sends)

pub print-Talks :
    (f : Uart → Option Uart) (n : ℕ) (s : System)
    → Talks f n
    → n ≤ ready s.uart
    → (u : Uart) × (print f s ≡ some (with_uart u s)) × (ready s.uart ≤ ready u + n)
print-Talks f n s talks enough =
    let (u, runs, base, left) = talks s.uart enough in (u, print-some f s u runs, left)
