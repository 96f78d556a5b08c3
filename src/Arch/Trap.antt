-- ===== src/Arch/Trap.antt =====
-- kernel/arch/riscv/trap/trap.cpp and trap_logic.h: the handler of traps.
pub mod Reports
pub mod Handle
pub mod Call
mod Tests
use qemu_risc_core.Prelude.{
  ℕ, ◌+◌, Bool, true, false, Option, none, some, List, ◌==◌, if◌then◌else◌, u64, codes, ◌>>=◌,
}
use qemu_risc_core.Platform.Riscv.{
  write_mtvec, mcause_is_interrupt, mcause_code, exception_code, illegal_instruction, breakpoint,
  load_access_fault, store_amo_access_fault, ecall_from_m_mode, instruction_page_fault,
  load_page_fault, store_amo_page_fault, interrupt_code, machine_timer, machine_software,
  machine_external,
}
use qemu_risc_core.Drivers.Uart.{Uart, putc, puts, put_hex, put_dec}
use qemu_risc_core.System.{System, Outcome, returned, switched, halted, print}
use qemu_risc_core.Time.Timer
use qemu_risc_core.Arch.TrapFrame.{TrapFrame}
use qemu_risc_core.Arch.Syscall.{dispatch}

pub data HandleResult : Type 0 where
  resume fatal : HandleResult

pub record HandleSummary : Type 0 where
  pub is_interrupt : Bool
  pub code : ℕ
  pub result : HandleResult

abbrev pub insn_bytes_32 : ℕ
insn_bytes_32 = 4

abbrev pub syscall_number : TrapFrame → ℕ
syscall_number tf = tf.a7

abbrev pub syscall_arg0 : TrapFrame → ℕ
syscall_arg0 tf = tf.a0

abbrev pub syscall_arg1 : TrapFrame → ℕ
syscall_arg1 tf = tf.a1

abbrev pub syscall_arg2 : TrapFrame → ℕ
syscall_arg2 tf = tf.a2

abbrev pub set_syscall_return : ℕ → TrapFrame → TrapFrame
set_syscall_return value tf = record tf { a0 = value }

abbrev pub advance : TrapFrame → TrapFrame
advance tf = record tf { mepc = u64 (tf.mepc + insn_bytes_32) }

pub handle_breakpoint : TrapFrame → TrapFrame × HandleSummary
handle_breakpoint tf =
    (advance tf, record { is_interrupt = false; code = exception_code breakpoint; result = resume })

-- The frame is written when the call returns.
abbrev pub after_call : TrapFrame → Outcome ℕ → Outcome (TrapFrame × HandleSummary)
after_call tf (returned ret s) =
    returned
      (
        advance (record tf { a0 = ret }),
        record { is_interrupt = false; code = exception_code ecall_from_m_mode; result = resume },
      )
      s
after_call tf (switched s) = switched s
after_call tf (halted s) = halted s

pub handle_ecall_mmode : TrapFrame → System → Option (Outcome (TrapFrame × HandleSummary))
handle_ecall_mmode tf s = do outcome ← dispatch tf s; some (after_call tf outcome)

pub handle_illegalinstruction : TrapFrame → TrapFrame × HandleSummary
handle_illegalinstruction tf = (
  advance tf,
  record { is_interrupt = false; code = exception_code illegal_instruction; result = resume },
)

pub classify_trap : TrapFrame → HandleSummary
classify_trap tf = record {
  is_interrupt = mcause_is_interrupt tf.mcause;
  code = mcause_code tf.mcause;
  result = resume;
}

-- `entry` is the address of `trap_entry`.
pub init : ℕ → System → System
init entry s = record s { csrs = write_mtvec entry s.csrs }

pub exception_name : ℕ → List ℕ
exception_name code =
    if code == exception_code illegal_instruction
    then codes "illegal instruction"
    else if code == exception_code breakpoint
    then codes "breakpoint"
    else if code == exception_code load_access_fault
    then codes "load access fault"
    else if code == exception_code store_amo_access_fault
    then codes "store/amo access fault"
    else if code == exception_code ecall_from_m_mode
    then codes "ecall from M-mode"
    else if code == exception_code instruction_page_fault
    then codes "instruction page fault"
    else if code == exception_code load_page_fault
    then codes "load page fault"
    else if code == exception_code store_amo_page_fault
    then codes "store/amo page fault"
    else codes "unknown exception"

pub interrupt_name : ℕ → List ℕ
interrupt_name code =
    if code == interrupt_code machine_timer
    then codes "machine timer interrupt"
    else if code == interrupt_code machine_software
    then codes "machine software interrupt"
    else if code == interrupt_code machine_external
    then codes "machine external interrupt"
    else codes "unknown interrupt"

abbrev pub print_line : List ℕ → List ℕ → Uart → Option Uart
print_line head name u = do v ← puts (some head) u; w ← puts (some name) v; putc b'\n' w

abbrev pub print_value : List ℕ → (Uart → Option Uart) → Uart → Option Uart
print_value name value u = do v ← puts (some name) u; w ← value v; putc b'\n' w

-- The report of a page fault; the three are alike but for the title.
pub report : List ℕ → TrapFrame → Uart → Option Uart
report title tf u = do
  u1 ← puts (some title) u
  u2 ← print_value (codes "mcause = ") (put_hex tf.mcause) u1
  u3 ← print_value (codes "mepc = ") (put_hex tf.mepc) u2
  u4 ← print_value (codes "mtval = ") (put_hex tf.mtval) u3
  u5 ← print_value (codes "mstatus = ") (put_hex tf.mstatus) u4
  print_value (codes "hart = ") (put_dec tf.mhartid) u5

abbrev pub when : Bool → (Uart → Option Uart) → Uart → Option Uart
when test f u = if test then f u else some u

pub handle_interrupt : ℕ → TrapFrame → System → Option (Outcome TrapFrame)
handle_interrupt code tf s = do
  s1 ← print (print_line (codes "type = interrupt: ") (interrupt_name code)) s
  if code == interrupt_code machine_timer
      then (do
        s2 ← print (puts (some (codes "catch a timer interrupt\n"))) s1
        s3 ← Timer.on_interrupt s2
        some (returned tf s3))
      else some (halted s1)

-- Only the frame of the answer is used.
abbrev pub frame_of : Outcome (TrapFrame × HandleSummary) → Outcome TrapFrame
frame_of (returned (tf, summary) s) = returned tf s
frame_of (switched s) = switched s
frame_of (halted s) = halted s

pub handle_exception : ℕ → TrapFrame → System → Option (Outcome TrapFrame)
handle_exception code tf s = do
  s1 ← print (print_line (codes "type = exception: ") (exception_name code)) s
  if code == exception_code breakpoint
      then (do
        s2 ← print (puts (some (codes "resume after breakpoint\n"))) s1
        some (returned (handle_breakpoint tf).0 s2))
      else if code == exception_code ecall_from_m_mode
      then (do outcome ← handle_ecall_mmode tf s1; some (frame_of outcome))
      else (do
        s2 ←
            print
              (when (code == exception_code illegal_instruction)
                (puts (some (codes "Excpetion: Illegal instruction\n"))))
              s1
        s3 ←
            print
              (when (code == exception_code instruction_page_fault)
                (report (codes "\n=== Instruction Page Fault ===\n") tf))
              s2
        s4 ←
            print
              (when (code == exception_code load_page_fault)
                (report (codes "\n=== Load Page Fault ===\n") tf))
              s3
        s5 ←
            print
              (when (code == exception_code store_amo_page_fault)
                (report (codes "\n=== Store/Amo Page Fault ===\n") tf))
              s4
        some (halted s5))

pub trap_handle : TrapFrame → System → Option (Outcome TrapFrame)
trap_handle tf s =
    let code = mcause_code tf.mcause in
    if mcause_is_interrupt tf.mcause then handle_interrupt code tf s else handle_exception code tf s
