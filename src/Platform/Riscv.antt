-- ===== src/Platform/Riscv.antt =====
-- platform/riscv.h: the control and status registers. A `csrr`, `csrw`, `csrs` or `csrc` instruction
-- is a read or a write of the register; `fences` counts the executions of `sfence.vma`.
pub mod Cause
mod Tests
use qemu_risc_core.Prelude.{ℕ, ◌+◌, ◌-◌, ◌*◌, bit_and, bit_or, Bool, not, ◌==◌, bit_not, ◌<<<◌}

pub record Csrs : Type 0 where
  pub satp : ℕ
  pub mcause : ℕ
  pub mepc : ℕ
  pub mtval : ℕ
  pub mstatus : ℕ
  pub mhartid : ℕ
  pub mtvec : ℕ
  pub mie : ℕ
  pub fences : ℕ

abbrev pub read_satp : Csrs → ℕ
read_satp c = c.satp

abbrev pub write_satp : ℕ → Csrs → Csrs
write_satp value c = record c { satp = value }

abbrev pub sfence_vma : Csrs → Csrs
sfence_vma c = record c { fences = c.fences + 1 }

abbrev pub read_mcause : Csrs → ℕ
read_mcause c = c.mcause

abbrev pub read_mepc : Csrs → ℕ
read_mepc c = c.mepc

abbrev pub read_mtval : Csrs → ℕ
read_mtval c = c.mtval

abbrev pub read_mstatus : Csrs → ℕ
read_mstatus c = c.mstatus

abbrev pub read_mhartid : Csrs → ℕ
read_mhartid c = c.mhartid

abbrev pub write_mtvec : ℕ → Csrs → Csrs
write_mtvec value c = record c { mtvec = value }

abbrev pub write_mepc : ℕ → Csrs → Csrs
write_mepc value c = record c { mepc = value }

abbrev pub set_mstatus_bits : ℕ → Csrs → Csrs
set_mstatus_bits bits c = record c { mstatus = bit_or c.mstatus bits }

abbrev pub clear_mstatus_bits : ℕ → Csrs → Csrs
clear_mstatus_bits bits c = record c { mstatus = bit_and c.mstatus (bit_not bits) }

abbrev pub set_mie_bits : ℕ → Csrs → Csrs
set_mie_bits bits c = record c { mie = bit_or c.mie bits }

abbrev pub clear_mie_bits : ℕ → Csrs → Csrs
clear_mie_bits bits c = record c { mie = bit_and c.mie (bit_not bits) }

abbrev pub mstatus_mie : ℕ
mstatus_mie = 1 <<< 3

abbrev pub mie_mtie : ℕ
mie_mtie = 1 <<< 7

abbrev pub mcause_interrupt_bit : ℕ
mcause_interrupt_bit = 1 <<< (8 * 8 - 1)

pub mcause_is_interrupt : ℕ → Bool
mcause_is_interrupt mcause = not (bit_and mcause mcause_interrupt_bit == 0)

pub mcause_code : ℕ → ℕ
mcause_code mcause = bit_and mcause (bit_not mcause_interrupt_bit)

pub data ExceptionCode : Type 0 where
  instruction_address_misaligned : ExceptionCode
  instruction_access_fault : ExceptionCode
  illegal_instruction : ExceptionCode
  breakpoint : ExceptionCode
  load_address_misaligned : ExceptionCode
  load_access_fault : ExceptionCode
  store_amo_address_misaligned : ExceptionCode
  store_amo_access_fault : ExceptionCode
  ecall_from_u_mode : ExceptionCode
  ecall_from_s_mode : ExceptionCode
  ecall_from_m_mode : ExceptionCode
  instruction_page_fault : ExceptionCode
  load_page_fault : ExceptionCode
  store_amo_page_fault : ExceptionCode

abbrev pub exception_code : ExceptionCode → ℕ
exception_code instruction_address_misaligned = 0
exception_code instruction_access_fault = 1
exception_code illegal_instruction = 2
exception_code breakpoint = 3
exception_code load_address_misaligned = 4
exception_code load_access_fault = 5
exception_code store_amo_address_misaligned = 6
exception_code store_amo_access_fault = 7
exception_code ecall_from_u_mode = 8
exception_code ecall_from_s_mode = 9
exception_code ecall_from_m_mode = 11
exception_code instruction_page_fault = 12
exception_code load_page_fault = 13
exception_code store_amo_page_fault = 15

pub data InterruptCode : Type 0 where
  machine_software : InterruptCode
  machine_timer : InterruptCode
  machine_external : InterruptCode

abbrev pub interrupt_code : InterruptCode → ℕ
interrupt_code machine_software = 3
interrupt_code machine_timer = 7
interrupt_code machine_external = 11
