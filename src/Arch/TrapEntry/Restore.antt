-- ===== src/Arch/TrapEntry/Restore.antt =====
-- What a trap leaves of the registers and the memory of the interrupted code.
use qemu_risc_core.Prelude.{
  ℕ, ◌+◌, ◌^◌, ◌≤◌, ◌<◌, ◌≡◌, ◌≢◌, refl, sym, ap, ◌∙◌, true, false, some, List, arith, u64, sub64,
  ◌⊎◌, inl, inr, bind-some,
}
use qemu_risc_core.Platform.Riscv.{Csrs, mcause_is_interrupt, mcause_code, write_mepc}
use qemu_risc_core.Drivers.Uart.Wait.{ready}
use qemu_risc_core.System.{System, Outcome, returned, with_uart}
use qemu_risc_core.Arch.TrapFrame.{TrapFrame}
use qemu_risc_core.Arch.Trap.{trap_handle}
use qemu_risc_core.Arch.Trap.Reports.{Fits}
use qemu_risc_core.Arch.Trap.Handle.{
  Handled, timer, interrupt, breakpoint, fault, trap_handle-Handled,
}
use qemu_risc_core.Arch.TrapEntry.{
  Regs, Cpu, tf_size, stores, view, saves, frame, words, loads, trap_entry,
}
use qemu_risc_core.Arch.TrapEntry.Frame.{
  slots, Inside, Outside, view-stores, stores-Outside, trim-same,
}

-- The frame that the handler should be given.
abbrev pub interrupted : Regs → Csrs → TrapFrame
interrupted r c = record {
  ra = r.ra;
  gp = r.gp;
  tp = r.tp;
  t0 = r.t0;
  t1 = r.t1;
  t2 = r.t2;
  s0 = r.s0;
  s1 = r.s1;
  a0 = r.a0;
  a1 = r.a1;
  a2 = r.a2;
  a3 = r.a3;
  a4 = r.a4;
  a5 = r.a5;
  a6 = r.a6;
  a7 = r.a7;
  s2 = r.s2;
  s3 = r.s3;
  s4 = r.s4;
  s5 = r.s5;
  s6 = r.s6;
  s7 = r.s7;
  s8 = r.s8;
  s9 = r.s9;
  s10 = r.s10;
  s11 = r.s11;
  t3 = r.t3;
  t4 = r.t4;
  t5 = r.t5;
  t6 = r.t6;
  sp = r.sp;
  mepc = c.mepc;
  mcause = c.mcause;
  mtval = c.mtval;
  mstatus = c.mstatus;
  mhartid = c.mhartid;
}

-- The registers that a frame stands for.
abbrev pub regs_of : TrapFrame → ℕ → Regs
regs_of tf sp = record {
  ra = tf.ra;
  gp = tf.gp;
  tp = tf.tp;
  t0 = tf.t0;
  t1 = tf.t1;
  t2 = tf.t2;
  s0 = tf.s0;
  s1 = tf.s1;
  a0 = tf.a0;
  a1 = tf.a1;
  a2 = tf.a2;
  a3 = tf.a3;
  a4 = tf.a4;
  a5 = tf.a5;
  a6 = tf.a6;
  a7 = tf.a7;
  s2 = tf.s2;
  s3 = tf.s3;
  s4 = tf.s4;
  s5 = tf.s5;
  s6 = tf.s6;
  s7 = tf.s7;
  s8 = tf.s8;
  s9 = tf.s9;
  s10 = tf.s10;
  s11 = tf.s11;
  t3 = tf.t3;
  t4 = tf.t4;
  t5 = tf.t5;
  t6 = tf.t6;
  sp = sp;
}

saves-Inside : (r : Regs) (sp : ℕ) (c : Csrs) → Inside (saves r sp c)
saves-Inside r sp c = omega arith

words-Inside : (tf : TrapFrame) → Inside (words tf)
words-Inside tf = omega arith

-- The frame that the handler is given is that of the interrupted code.
saved-interrupted :
    (c : Cpu) (csrs : Csrs)
    → c.regs.sp < 2 ^ 64
    → frame (
        view
          (sub64 c.regs.sp tf_size)
          (stores (saves c.regs (sub64 c.regs.sp tf_size) csrs) (sub64 c.regs.sp tf_size) c.mem))
      ≡ interrupted c.regs csrs
saved-interrupted c csrs fits =
    let sp : ℕ = sub64 c.regs.sp tf_size in
    let is : List (ℕ × ℕ) = saves c.regs sp csrs in
    let f : ℕ → ℕ = view sp c.mem in
    let top : u64 (sp + 288) ≡ c.regs.sp = omega (arith, fits) in
    let same = view-stores is sp c.mem f (saves-Inside c.regs sp csrs) (λ o o_in. refl) in
    ap frame (trim-same (view sp (stores is sp c.mem)) (slots is f) same)
    ∙ ap (λ (x : ℕ). record (interrupted c.regs csrs) { sp = x }) top

-- The registers that the way back loads are those of the frame that the handler leaves.
restored-regs_of :
    (tf : TrapFrame) (sp top : ℕ) (mem : ℕ → ℕ)
    → (loads (view sp (stores (words tf) sp mem)) top ≡ regs_of tf top)
      × (view sp (stores (words tf) sp mem) 248 ≡ tf.mepc)
restored-regs_of tf sp top mem =
    let f : ℕ → ℕ = view sp mem in
    let same = view-stores (words tf) sp mem f (words-Inside tf) (λ o o_in. refl) in
    (
      ap (λ (at : ℕ → ℕ). loads at top)
          (trim-same (view sp (stores (words tf) sp mem)) (slots (words tf) f) same),
      same 248 (omega arith),
    )

-- After a handler that returns, the registers are those of its frame, and the memory outside the
-- frame is as before.
pub trap_entry-returns :
    (c : Cpu) (s : System) (tf : TrapFrame) (n : System)
    → c.regs.sp < 2 ^ 64
    → trap_handle (interrupted c.regs s.csrs) s ≡ some (returned tf n)
    → (mem : ℕ → ℕ) × (trap_entry c s
        ≡ some (
            returned
              (record { regs = regs_of tf c.regs.sp; mem = mem })
              (record n { csrs = write_mepc tf.mepc n.csrs })))
      × ((a : ℕ) → Outside (sub64 c.regs.sp tf_size) a → mem a ≡ c.mem a)
unfolding trap_entry
trap_entry-returns c s tf n fits handles =
    let sp : ℕ = sub64 c.regs.sp tf_size in
    let saved : ℕ → ℕ = stores (saves c.regs sp s.csrs) sp c.mem in
    let after : ℕ → ℕ = stores (words tf) sp saved in
    let top : u64 (sp + 288) ≡ c.regs.sp = omega (arith, fits) in
    let given = saved-interrupted c s.csrs fits in
    let run = ap (λ (x : TrapFrame). trap_handle x s) given ∙ handles in
    let (regs, mepc) = restored-regs_of tf sp c.regs.sp saved in
    (
      after,
      bind-some _ run (
          ap
            (λ (t : ℕ). some (
              returned (record { regs = loads (view sp after) t; mem = after })
                (record n { csrs = write_mepc (view sp after 248) n.csrs })))
            top
          ∙ ap
              (λ (r : Regs). some (
                returned (record { regs = r; mem = after })
                  (record n { csrs = write_mepc (view sp after 248) n.csrs })))
              regs
          ∙ ap
              (λ (x : ℕ). some (
                returned (record { regs = regs_of tf c.regs.sp; mem = after })
                  (record n { csrs = write_mepc x n.csrs })))
              mepc),
      λ a out.
          stores-Outside (words tf) sp saved a (words-Inside tf) out
          ∙ stores-Outside (saves c.regs sp s.csrs) sp c.mem a (saves-Inside c.regs sp s.csrs) out,
    )

-- The traps that the code goes on after, and by how many bytes `mepc` is moved.
pub data GoesOn (mcause : ℕ) (skip : ℕ) : Type 0 where
  ticks : mcause_is_interrupt mcause ≡ true → mcause_code mcause ≡ 7 → skip ≡ 0 → GoesOn mcause skip
  breaks :
      mcause_is_interrupt mcause ≡ false → mcause_code mcause ≡ 3 → skip ≡ 4 → GoesOn mcause skip

-- The frame that a handler returns to.
abbrev Returns : TrapFrame → System → ℕ → Outcome TrapFrame → Type 0
Returns tf s skip o =
    (n : System) × (o ≡ returned (record tf { mepc = u64 (tf.mepc + skip) }) n)
    × (n.kernel ≡ s.kernel)
    × (n.csrs ≡ s.csrs)

returns :
    (tf : TrapFrame) (s : System) (skip : ℕ) {o : Outcome TrapFrame}
    → tf.mepc < 2 ^ 64
    → GoesOn tf.mcause skip
    → Handled tf s o
    → Returns tf s skip o
returns tf s skip fits (ticks is at none) (timer u n is' at' t) =
    let same : u64 (tf.mepc + skip) ≡ tf.mepc = omega (arith, none, fits) in
    (n, ap (λ (x : ℕ). returned (record tf { mepc = x }) n) (sym same), t.kernel, t.csrs)
returns tf s skip fits (breaks is at four) (breakpoint u is' at') = (
  with_uart u s,
  ap (λ (x : ℕ). returned (record tf { mepc = u64 (tf.mepc + x) }) (with_uart u s)) (sym four),
  refl,
  refl,
)
returns tf s skip fits (ticks is at none) (interrupt u is' ne) = absurd (ne at)
returns tf s skip fits (ticks is at none) (breakpoint u is' at') = absurd (ground arith)
returns tf s skip fits (ticks is at none) (fault u is' ne) = absurd (ground arith)
returns tf s skip fits (breaks is at four) (timer u n is' at' t) = absurd (ground arith)
returns tf s skip fits (breaks is at four) (interrupt u is' ne) = absurd (ground arith)
returns tf s skip fits (breaks is at four) (fault u is' ne) = absurd (ne at)

no_call :
    (mcause skip : ℕ)
    → GoesOn mcause skip
    → (mcause_is_interrupt mcause ≡ true) ⊎ (mcause_code mcause ≢ 11)
no_call mcause skip (ticks is at e) = inl is
no_call mcause skip (breaks is at e) = inr (omega (arith, at))

-- For a timer interrupt or a breakpoint, with registers and a clock of 64 bits and a serial port that is seen
-- ready 1164 times, the trap ends in the interrupted code: all its registers are as before, `mepc` is
-- the interrupted address, or four bytes on after a breakpoint, the memory outside the 288 bytes
-- below its stack pointer is as before, and so are the tasks.
pub trap_entry-transparent :
    (c : Cpu) (s : System) (skip : ℕ)
    → c.regs.sp < 2 ^ 64
    → Fits (interrupted c.regs s.csrs)
    → ((n : ℕ) → s.clint.clock n < 2 ^ 64)
    → 1164 ≤ ready s.uart
    → GoesOn s.csrs.mcause skip
    → (mem : ℕ → ℕ) × (n : System) × (trap_entry c s
        ≡ some (returned (record { regs = c.regs; mem = mem }) n))
      × (n.csrs ≡ record s.csrs { mepc = u64 (s.csrs.mepc + skip) })
      × (n.kernel ≡ s.kernel)
      × ((a : ℕ) → Outside (sub64 c.regs.sp tf_size) a → mem a ≡ c.mem a)
trap_entry-transparent c s skip sp_fits fits clock_fits enough goes =
    let tf : TrapFrame = interrupted c.regs s.csrs in
    let (o, runs, handled) =
      trap_handle-Handled tf s fits clock_fits enough (no_call s.csrs.mcause skip goes) in
    let (n, back, kernel, csrs) = returns tf s skip fits.mepc goes handled in
    let (mem, all, out) =
      trap_entry-returns c s (record tf { mepc = u64 (tf.mepc + skip) }) n sp_fits
        (runs ∙ ap (λ (x : Outcome TrapFrame). some x) back) in
    (
      mem,
      record n { csrs = write_mepc (u64 (s.csrs.mepc + skip)) n.csrs },
      all,
      ap (λ (x : Csrs). write_mepc (u64 (s.csrs.mepc + skip)) x) csrs,
      kernel,
      out,
    )
