-- ===== src/Arch/TrapEntry.antt =====
-- kernel/arch/riscv/trap/trap_entry.S: the registers of the interrupted code, their frame on its
-- stack, and the way back. The memory is its 8-byte words by their addresses. A series of `sd`
-- instructions is the list of its offsets from `sp`, each with the value that is stored.
pub mod Frame
pub mod Restore
mod Tests
use qemu_risc_core.Prelude.{
  ℕ, ◌+◌, Option, some, List, [], ◌∷◌, ◌==◌, if◌then◌else◌, u64, sub64, ◌>>=◌,
}
use qemu_risc_core.Platform.Riscv.{
  Csrs, read_mepc, read_mcause, read_mtval, read_mstatus, read_mhartid, write_mepc,
}
use qemu_risc_core.System.{System, Outcome, returned, switched, halted}
use qemu_risc_core.Arch.TrapFrame.{TrapFrame}
use qemu_risc_core.Arch.Trap.{trap_handle}

pub record Regs : Type 0 where
  pub ra : ℕ
  pub gp : ℕ
  pub tp : ℕ
  pub t0 : ℕ
  pub t1 : ℕ
  pub t2 : ℕ
  pub s0 : ℕ
  pub s1 : ℕ
  pub a0 : ℕ
  pub a1 : ℕ
  pub a2 : ℕ
  pub a3 : ℕ
  pub a4 : ℕ
  pub a5 : ℕ
  pub a6 : ℕ
  pub a7 : ℕ
  pub s2 : ℕ
  pub s3 : ℕ
  pub s4 : ℕ
  pub s5 : ℕ
  pub s6 : ℕ
  pub s7 : ℕ
  pub s8 : ℕ
  pub s9 : ℕ
  pub s10 : ℕ
  pub s11 : ℕ
  pub t3 : ℕ
  pub t4 : ℕ
  pub t5 : ℕ
  pub t6 : ℕ
  pub sp : ℕ

abbrev pub tf_size : ℕ
tf_size = 288

-- The registers and the memory at an instruction.
pub record Cpu : Type 0 where
  pub regs : Regs
  pub mem : ℕ → ℕ

pub stores : List (ℕ × ℕ) → ℕ → (ℕ → ℕ) → ℕ → ℕ
stores [] sp mem = mem
stores ((offset, value) ∷ rest) sp mem =
    stores rest sp (λ a. if a == u64 (sp + offset) then value else mem a)

-- What `ld` loads at each offset from `sp`.
abbrev pub view : ℕ → (ℕ → ℕ) → ℕ → ℕ
view sp mem offset = mem (u64 (sp + offset))

-- The stores of the entry; `t0` carries the last six values.
abbrev pub saves : Regs → ℕ → Csrs → List (ℕ × ℕ)
saves r sp c =
    (0, r.ra)
    ∷ (8, r.gp)
    ∷ (16, r.tp)
    ∷ (24, r.t0)
    ∷ (32, r.t1)
    ∷ (40, r.t2)
    ∷ (48, r.s0)
    ∷ (56, r.s1)
    ∷ (64, r.a0)
    ∷ (72, r.a1)
    ∷ (80, r.a2)
    ∷ (88, r.a3)
    ∷ (96, r.a4)
    ∷ (104, r.a5)
    ∷ (112, r.a6)
    ∷ (120, r.a7)
    ∷ (128, r.s2)
    ∷ (136, r.s3)
    ∷ (144, r.s4)
    ∷ (152, r.s5)
    ∷ (160, r.s6)
    ∷ (168, r.s7)
    ∷ (176, r.s8)
    ∷ (184, r.s9)
    ∷ (192, r.s10)
    ∷ (200, r.s11)
    ∷ (208, r.t3)
    ∷ (216, r.t4)
    ∷ (224, r.t5)
    ∷ (232, r.t6)
    ∷ (240, u64 (sp + tf_size))
    ∷ (248, read_mepc c)
    ∷ (256, read_mcause c)
    ∷ (264, read_mtval c)
    ∷ (272, read_mstatus c)
    ∷ (280, read_mhartid c)
    ∷ []

-- The frame that the handler is given, at `sp`.
abbrev pub frame : (ℕ → ℕ) → TrapFrame
frame at = record {
  ra = at 0;
  gp = at 8;
  tp = at 16;
  t0 = at 24;
  t1 = at 32;
  t2 = at 40;
  s0 = at 48;
  s1 = at 56;
  a0 = at 64;
  a1 = at 72;
  a2 = at 80;
  a3 = at 88;
  a4 = at 96;
  a5 = at 104;
  a6 = at 112;
  a7 = at 120;
  s2 = at 128;
  s3 = at 136;
  s4 = at 144;
  s5 = at 152;
  s6 = at 160;
  s7 = at 168;
  s8 = at 176;
  s9 = at 184;
  s10 = at 192;
  s11 = at 200;
  t3 = at 208;
  t4 = at 216;
  t5 = at 224;
  t6 = at 232;
  sp = at 240;
  mepc = at 248;
  mcause = at 256;
  mtval = at 264;
  mstatus = at 272;
  mhartid = at 280;
}

-- The words of the frame after the handler.
abbrev pub words : TrapFrame → List (ℕ × ℕ)
words tf =
    (0, tf.ra)
    ∷ (8, tf.gp)
    ∷ (16, tf.tp)
    ∷ (24, tf.t0)
    ∷ (32, tf.t1)
    ∷ (40, tf.t2)
    ∷ (48, tf.s0)
    ∷ (56, tf.s1)
    ∷ (64, tf.a0)
    ∷ (72, tf.a1)
    ∷ (80, tf.a2)
    ∷ (88, tf.a3)
    ∷ (96, tf.a4)
    ∷ (104, tf.a5)
    ∷ (112, tf.a6)
    ∷ (120, tf.a7)
    ∷ (128, tf.s2)
    ∷ (136, tf.s3)
    ∷ (144, tf.s4)
    ∷ (152, tf.s5)
    ∷ (160, tf.s6)
    ∷ (168, tf.s7)
    ∷ (176, tf.s8)
    ∷ (184, tf.s9)
    ∷ (192, tf.s10)
    ∷ (200, tf.s11)
    ∷ (208, tf.t3)
    ∷ (216, tf.t4)
    ∷ (224, tf.t5)
    ∷ (232, tf.t6)
    ∷ (240, tf.sp)
    ∷ (248, tf.mepc)
    ∷ (256, tf.mcause)
    ∷ (264, tf.mtval)
    ∷ (272, tf.mstatus)
    ∷ (280, tf.mhartid)
    ∷ []

-- The loads of the way back.
abbrev pub loads : (ℕ → ℕ) → ℕ → Regs
loads at sp = record {
  ra = at 0;
  gp = at 8;
  tp = at 16;
  t0 = at 24;
  t1 = at 32;
  t2 = at 40;
  s0 = at 48;
  s1 = at 56;
  a0 = at 64;
  a1 = at 72;
  a2 = at 80;
  a3 = at 88;
  a4 = at 96;
  a5 = at 104;
  a6 = at 112;
  a7 = at 120;
  s2 = at 128;
  s3 = at 136;
  s4 = at 144;
  s5 = at 152;
  s6 = at 160;
  s7 = at 168;
  s8 = at 176;
  s9 = at 184;
  s10 = at 192;
  s11 = at 200;
  t3 = at 208;
  t4 = at 216;
  t5 = at 224;
  t6 = at 232;
  sp = sp;
}

-- `sp` is the stack pointer of the frame, in the memory `mem`.
abbrev pub resume : ℕ → (ℕ → ℕ) → Outcome TrapFrame → Outcome Cpu
resume sp mem (returned tf s) =
    let after = stores (words tf) sp mem in
    returned (record { regs = loads (view sp after) (u64 (sp + tf_size)); mem = after })
      (record s { csrs = write_mepc (view sp after 248) s.csrs })
resume sp mem (switched s) = switched s
resume sp mem (halted s) = halted s

pub trap_entry : Cpu → System → Option (Outcome Cpu)
trap_entry c s = do
  let sp = sub64 c.regs.sp tf_size
  let saved = stores (saves c.regs sp s.csrs) sp c.mem
  outcome ← trap_handle (frame (view sp saved)) s
  some (resume sp saved outcome)
