-- ===== src/Arch/Syscall.antt =====
-- kernel/arch/riscv/syscall: the system calls and their dispatch.
pub mod Write
pub mod Dispatch
pub mod Exit
pub mod Interface
mod Tests
use qemu_risc_core.Prelude.{
  ℕ, zero, suc, ◌+◌, ◌-◌, ◌^◌, Bool, true, false, not, ◌&&◌, Option, none, some, ◌==◌,
  if◌then◌else◌, u64, codes, ◌>>=◌,
}
use qemu_risc_core.Drivers.Uart.{putc, puts, put_dec}
use qemu_risc_core.Core.Tasks.{dead, Kernel, set_state}
use qemu_risc_core.Core.RunQueue
use qemu_risc_core.Core.Sched.{reschedule}
use qemu_risc_core.System.{System, Outcome, returned, switched, halted, with_kernel, print}
use qemu_risc_core.Arch.TrapFrame.{TrapFrame}

pub data Number : Type 0 where
  write exit yield : Number

abbrev pub number : Number → ℕ
number write = 1
number exit = 2
number yield = 3

abbrev pub fd_stdout : ℕ
fd_stdout = 1

abbrev pub fd_stderr : ℕ
fd_stderr = 2

abbrev pub err_bad_fd : ℕ
err_bad_fd = 2 ^ 64 - 1

abbrev pub err_bad_ptr : ℕ
err_bad_ptr = 2 ^ 64 - 2

abbrev pub err_unknown_syscall : ℕ
err_unknown_syscall = 2 ^ 64 - 38

-- The loop over the bytes from the index `i`.
pub write_from : ℕ → ℕ → ℕ → System → Option System
write_from zero buf i s = some s
write_from (suc rounds) buf i s = do
  s' ← print (putc (s.bytes (u64 (buf + i)))) s
  write_from rounds buf (i + 1) s'

pub sys_write : ℕ → ℕ → ℕ → System → Option (System × ℕ)
sys_write fd buf len s =
    if not (fd == fd_stdout) && not (fd == fd_stderr)
    then some (s, err_bad_fd)
    else if buf == 0
    then some (s, err_bad_ptr)
    else do s' ← write_from len buf 0 s; some (s', len)

-- The current task, if there is one, is dead.
abbrev pub kill_current : Kernel → Kernel
kill_current k = let t = RunQueue.current k in if t == 0 then k else set_state t dead k

abbrev pub left_or_halted : System → Kernel × Bool → Outcome ℕ
left_or_halted s (k, true) = switched (with_kernel k s)
left_or_halted s (k, false) = halted (with_kernel k s)

-- It does not return: the processor goes on in another task, or waits for ever.
pub sys_exit : ℕ → System → Option (Outcome ℕ)
sys_exit code s = do
  s1 ← print (puts (some (codes "sys_exit, code = "))) s
  s2 ← print (put_dec code) s1
  s3 ← print (putc b'\n') s2
  result ← reschedule (kill_current s3.kernel)
  some (left_or_halted s3 result)

abbrev pub sys_yield : ℕ
sys_yield = 0

abbrev pub returns : System × ℕ → Outcome ℕ
returns (s, value) = returned value s

pub dispatch : TrapFrame → System → Option (Outcome ℕ)
dispatch tf s =
    if tf.a7 == number write
    then (do result ← sys_write tf.a0 tf.a1 tf.a2 s; some (returns result))
    else if tf.a7 == number exit
    then sys_exit tf.a0 s
    else if tf.a7 == number yield
    then some (returned sys_yield s)
    else some (returned err_unknown_syscall s)
