-- ===== src/Boot/Entry/Bss.antt =====
-- The bss is clear when the kernel starts.
use qemu_risc_core.Prelude.{
  ℕ, zero, suc, ◌+◌, ◌-◌, ◌*◌, ◌^◌, ◌≤◌, ◌<◌, ◌≡◌, refl, ap, ◌∙◌, true, false, some, arith, leb,
  ◌==◌, if◌then◌else◌, u64, Bool-cases, inl, inr, ◌⊎◌, bind-some,
}
use qemu_risc_core.Platform.Linker.{Symbols}
use qemu_risc_core.Platform.Riscv.{Csrs}
use qemu_risc_core.Arch.TrapEntry.{Cpu}
use qemu_risc_core.Boot.Entry.{clear_bss, start}

-- The words from `from` on below `to` are 0, and the words before and behind are as before.
pub record Cleared (from to : ℕ) (mem after : ℕ → ℕ) : Type 0 where
  pub zeros : (i : ℕ) → from + 8 * i < to → after (from + 8 * i) ≡ 0
  pub others : (a : ℕ) → (a < from) ⊎ (to ≤ a) → after a ≡ mem a

abbrev cleared_at : ℕ → (ℕ → ℕ) → ℕ → ℕ
cleared_at t5 mem a = if a == t5 then 0 else mem a

Cleared-cons :
    (from to : ℕ) (mem after : ℕ → ℕ)
    → from < to
    → Cleared (from + 8) to (cleared_at from mem) after
    → Cleared from to mem after
Cleared-cons from to mem after more rest = record {
  zeros = λ i below. elim (Bool-cases (i == 0)) [
    | inl first ↦
        let e : from + 8 * i ≡ from = ground arith in
        let here : (from == from) ≡ true = ground arith in
        ap after e ∙ rest.others from (inl (omega arith)) ∙ rw here refl
    | inr later ↦
        let e : from + 8 * i ≡ from + 8 + 8 * (i - 1) = ground arith in
        ap after e ∙ rest.zeros (i - 1) (omega (arith, below, e))
  ];
  others = λ a away.
      let apart : (a == from) ≡ false = ground arith in
      rest.others a (ground arith) ∙ rw apart refl;
}

clear_bss-ends :
    (fuel from to : ℕ) (mem : ℕ → ℕ)
    → leb to from ≡ true
    → clear_bss (suc fuel) from to mem ≡ some (mem, from)
unfolding clear_bss
clear_bss-ends fuel from to mem ends = rw ends refl

clear_bss-goes :
    (fuel from to : ℕ) (mem : ℕ → ℕ)
    → leb to from ≡ false
    → clear_bss (suc fuel) from to mem ≡ clear_bss fuel (u64 (from + 8)) to (cleared_at from mem)
unfolding clear_bss
clear_bss-goes fuel from to mem goes = rw goes refl

clear_bss-Cleared :
    (fuel from to : ℕ) (mem : ℕ → ℕ)
    → to ≤ from + 8 * fuel
    → to + 8 ≤ 2 ^ 64
    → (after : ℕ → ℕ) × (t5 : ℕ) × (clear_bss (suc fuel) from to mem ≡ some (after, t5))
      × Cleared from to mem after
clear_bss-Cleared zero from to mem enough fits =
    let ends : leb to from ≡ true = ground arith in
    (
      mem,
      from,
      clear_bss-ends zero from to mem ends,
      record { zeros = λ i below. absurd (omega (arith, enough, below)); others = λ a away. refl },
    )
clear_bss-Cleared (suc fuel) from to mem enough fits = elim (Bool-cases (leb to from)) [
  | inl ends ↦ (
    mem,
    from,
    clear_bss-ends (suc fuel) from to mem ends,
    record { zeros = λ i below. absurd (ground arith); others = λ a away. refl },
  )
  | inr goes ↦
      let next : u64 (from + 8) ≡ from + 8 = ground (arith, fits) in
      let (after, t5, runs, rest) =
        clear_bss-Cleared fuel (from + 8) to (cleared_at from mem) (omega (arith, enough)) fits in
      (
        after,
        t5,
        clear_bss-goes (suc fuel) from to mem goes
            ∙ ap (λ (x : ℕ). clear_bss (suc fuel) x to (cleared_at from mem)) next
            ∙ runs,
        Cleared-cons from to mem after (ground arith) rest,
      )
]

-- For a bss that ends eight bytes below the top of the address space at the latest, the loop of the
-- entry ends, within its fuel, and the kernel starts with the words of the bss at 0 and the words
-- before and behind it as before, the stack pointer and the global pointer of the image, and no
-- address translation.
pub start-Cleared :
    (s : Symbols) (c : Cpu) (csrs : Csrs)
    → s.bss_end + 8 ≤ 2 ^ 64
    → (n : Cpu) × (start s c csrs ≡ some (n, record csrs { satp = 0 }))
      × Cleared s.bss_start s.bss_end c.mem n.mem
      × (n.regs.sp ≡ s.stack_top)
      × (n.regs.gp ≡ s.global_pointer)
unfolding start
start-Cleared s c csrs fits =
    let (mem, t5, runs, cleared) =
      clear_bss-Cleared (2 ^ 61) s.bss_start s.bss_end c.mem (omega (arith, fits)) fits in
    (
      record {
        regs = record c.regs { gp = s.global_pointer; sp = s.stack_top; t5 = t5; t6 = s.bss_end };
        mem = mem;
      },
      bind-some _ runs refl,
      cleared,
      refl,
      refl,
    )
