-- ===== src/Platform/Riscv/Cause.antt =====
-- The cause of a trap: the interrupt bit, and the code below it.
use qemu_risc_core.Prelude.{ℕ, ◌+◌, ◌*◌, ◌/◌, ◌%◌, ◌^◌, ◌<◌, ◌≡◌, ◌∙◌, not, arith, ◌==◌}
use qemu_risc_core.Prelude.Bits.{bit_and-low_mask, bit_and-high_mask}
use qemu_risc_core.Platform.Riscv.{mcause_is_interrupt, mcause_code}

pub mcause_code_lem : (mcause : ℕ) → mcause_code mcause ≡ mcause % 2 ^ 63
unfolding mcause_code
mcause_code_lem mcause = bit_and-low_mask 63 mcause

pub mcause_is_interrupt_lem :
    (mcause : ℕ) → mcause_is_interrupt mcause ≡ not (mcause / 2 ^ 63 % 2 == 0)
unfolding mcause_is_interrupt
mcause_is_interrupt_lem mcause =
    rw (bit_and-high_mask 63 mcause 1, bit_and-low_mask 1 (mcause / 2 ^ 63)) (ground arith)

-- A cause is an interrupt exactly if bit 63 is set, and its code is the bits below.
pub mcause_decode :
    (flag code : ℕ)
    → flag < 2
    → code < 2 ^ 63
    → (mcause_is_interrupt (flag * 2 ^ 63 + code) ≡ (flag == 1))
      × (mcause_code (flag * 2 ^ 63 + code) ≡ code)
mcause_decode flag code small fits =
    let top : (flag * 2 ^ 63 + code) / 2 ^ 63 % 2 ≡ flag = omega arith in
    (
      mcause_is_interrupt_lem (flag * 2 ^ 63 + code) ∙ rw top (ground arith),
      mcause_code_lem (flag * 2 ^ 63 + code) ∙ omega arith,
    )
