-- ===== src/Arch/Syscall/Write.antt =====
-- `sys_write`: the bytes that it prints.
use qemu_risc_core.Prelude.{
  ℕ, zero, suc, ◌+◌, ◌≤◌, ◌≡◌, ◌≢◌, refl, ap, ◌∙◌, false, not, ◌&&◌, Option, some, List, [], ◌∷◌,
  arith, length, length-append, ◌==◌, ◌⊎◌, u64,
}
use qemu_risc_core.Drivers.Uart.{Uart, putc}
use qemu_risc_core.Drivers.Uart.Wait.{ready, Sends}
use qemu_risc_core.Drivers.Uart.Send.{wire, wire-append, Sends-nil, Sends-append, putc-Prints}
use qemu_risc_core.System.{System, with_uart}
use qemu_risc_core.System.Print.{print-Prints}
use qemu_risc_core.Arch.Syscall.{fd_stdout, fd_stderr, write_from, sys_write}

-- The `n` bytes from the index `i` of the buffer.
unfoldable pub buffer : (ℕ → ℕ) → ℕ → ℕ → ℕ → List ℕ
buffer bytes buf i zero = []
buffer bytes buf i (suc n) = bytes (u64 (buf + i)) ∷ buffer bytes buf (i + 1) n

abbrev Writes : System → List ℕ → Option System → Type 0
Writes s text result = (u : Uart) × (result ≡ some (with_uart u s)) × Sends s.uart (wire text) u

write_from-Writes :
    (n buf i : ℕ) (s : System)
    → length (wire (buffer s.bytes buf i n)) ≤ ready s.uart
    → Writes s (buffer s.bytes buf i n) (write_from n buf i s)
unfolding write_from buffer
write_from-Writes zero buf i s enough = (s.uart, refl, Sends-nil s.uart)
write_from-Writes (suc n) buf i s enough =
    let c : ℕ = s.bytes (u64 (buf + i)) in
    let rest : List ℕ = buffer s.bytes buf (i + 1) n in
    let split = wire-append (c ∷ []) rest in
    let size = ap length split ∙ length-append (wire (c ∷ [])) (wire rest) in
    let (u, runs, sends) =
      print-Prints (putc c) (c ∷ []) s (putc-Prints c) (omega (arith, enough, size)) in
    let (v, runs', sends') =
      write_from-Writes n buf (i + 1) (with_uart u s) (omega (arith, enough, size, sends.left)) in
    (v, rw (runs, runs') refl, rw split (Sends-append sends sends'))

-- For the standard output or the standard error and a buffer that is not null, `sys_write` prints
-- the bytes of the buffer and answers their number, if the serial port is seen ready for each byte
-- that goes over the wire; nothing but the serial port changes.
pub sys_write-buffer :
    (fd buf len : ℕ) (s : System)
    → (fd ≡ fd_stdout) ⊎ (fd ≡ fd_stderr)
    → buf ≢ 0
    → length (wire (buffer s.bytes buf 0 len)) ≤ ready s.uart
    → (u : Uart) × (sys_write fd buf len s ≡ some (with_uart u s, len))
      × Sends s.uart (wire (buffer s.bytes buf 0 len)) u
unfolding sys_write
sys_write-buffer fd buf len s known ne enough =
    let good : (not (fd == fd_stdout) && not (fd == fd_stderr)) ≡ false = ground arith in
    let pos : (buf == 0) ≡ false = ground arith in
    let (u, runs, sends) = write_from-Writes len buf 0 s enough in
    (u, rw (good, pos, runs) refl, sends)
