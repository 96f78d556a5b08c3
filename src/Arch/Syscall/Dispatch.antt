-- ===== src/Arch/Syscall/Dispatch.antt =====
-- `dispatch`: which call is made, and the calls that are refused.
use qemu_risc_core.Prelude.{
  ℕ, ◌-◌, ◌^◌, ◌≡◌, ◌≢◌, refl, true, false, not, ◌&&◌, some, arith, ◌==◌, ◌⊎◌,
}
use qemu_risc_core.System.{System, returned}
use qemu_risc_core.Arch.TrapFrame.{TrapFrame}
use qemu_risc_core.Arch.Syscall.{sys_write, sys_exit, dispatch}

-- The calls that do nothing, with their answers: -38 for an unknown number, -1 for a descriptor
-- that is no output, -2 for a null buffer, and 0 for a yield.
pub data Answers (tf : TrapFrame) (answer : ℕ) : Type 0 where
  unknown : tf.a7 ≢ 1 → tf.a7 ≢ 2 → tf.a7 ≢ 3 → answer ≡ 2 ^ 64 - 38 → Answers tf answer
  bad_fd : tf.a7 ≡ 1 → tf.a0 ≢ 1 → tf.a0 ≢ 2 → answer ≡ 2 ^ 64 - 1 → Answers tf answer
  bad_ptr :
      tf.a7 ≡ 1 → (tf.a0 ≡ 1) ⊎ (tf.a0 ≡ 2) → tf.a1 ≡ 0 → answer ≡ 2 ^ 64 - 2 → Answers tf answer
  yields : tf.a7 ≡ 3 → answer ≡ 0 → Answers tf answer

-- A system call that does nothing returns its answer, and changes nothing: -38 for an unknown
-- number, -1 for a write to a descriptor that is no output, -2 for a write of a null buffer to an
-- output, and 0 for a yield.
pub dispatch-Answers :
    (tf : TrapFrame) (s : System) (answer : ℕ)
    → Answers tf answer
    → dispatch tf s ≡ some (returned answer s)
unfolding dispatch sys_write
dispatch-Answers tf s answer (unknown a b c e) =
    let w : (tf.a7 == 1) ≡ false = ground arith in
    let x : (tf.a7 == 2) ≡ false = ground arith in
    let y : (tf.a7 == 3) ≡ false = ground arith in rw (w, x, y, e) refl
dispatch-Answers tf s answer (bad_fd a b c e) =
    let w : (tf.a7 == 1) ≡ true = ground arith in
    let x : (tf.a0 == 1) ≡ false = ground arith in
    let y : (tf.a0 == 2) ≡ false = ground arith in rw (w, x, y, e) refl
dispatch-Answers tf s answer (bad_ptr a known b e) =
    let w : (tf.a7 == 1) ≡ true = ground arith in
    let good : (not (tf.a0 == 1) && not (tf.a0 == 2)) ≡ false = ground arith in
    let z : (tf.a1 == 0) ≡ true = ground arith in rw (w, good, z, e) refl
dispatch-Answers tf s answer (yields a e) =
    let w : (tf.a7 == 1) ≡ false = ground arith in
    let x : (tf.a7 == 2) ≡ false = ground arith in
    let y : (tf.a7 == 3) ≡ true = ground arith in rw (w, x, y, e) refl

pub dispatch-exit : (tf : TrapFrame) (s : System) → tf.a7 ≡ 2 → dispatch tf s ≡ sys_exit tf.a0 s
unfolding dispatch
dispatch-exit tf s e =
    let w : (tf.a7 == 1) ≡ false = ground arith in
    let x : (tf.a7 == 2) ≡ true = ground arith in rw (w, x) refl
