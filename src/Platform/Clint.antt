-- ===== src/Platform/Clint.antt =====
-- platform/qemu/devices/timer/clint_timer.h: the timer device. The clock goes on between two reads
-- of `mtime`: `clock n` is what the read number `n` gives.
use qemu_risc_core.Prelude.{ℕ, ◌+◌, u64}

abbrev pub interval_s : ℕ
interval_s = 10000000

pub record Clint : Type 0 where
  pub clock : ℕ → ℕ
  pub reads : ℕ
  pub mtimecmp : ℕ

unfoldable pub read_mtime : Clint → Clint × ℕ
read_mtime c = (record c { reads = c.reads + 1 }, c.clock c.reads)

unfoldable pub write_mtimecmp0 : ℕ → Clint → Clint
write_mtimecmp0 value c = record c { mtimecmp = value }

unfoldable pub interrupt_after : ℕ → Clint → Clint
unfolding read_mtime write_mtimecmp0
interrupt_after value c = let (d, now) = read_mtime c in write_mtimecmp0 (u64 (now + value)) d
