-- ===== src/Core/Samples.antt =====
-- A kernel for the tests: the table at 0x80010000, the queue with the tasks 1 and 2, the current task
-- 3, and the idle task 0.
use qemu_risc_core.Prelude.{
  ℕ, refl, Bool-cases, inl, inr, ◌&&◌, [], ◌∷◌, arith, ltb, ◌==◌, if◌then◌else◌,
}
use qemu_risc_core.Core.Tasks.{ready, running, empty, State, Context, Task, Kernel, run_node}
use qemu_risc_core.Core.RunQueue.Valid.{Queued, IsValid}

abbrev zeros : Context
zeros = record {
  ra = 0;
  sp = 0;
  s0 = 0;
  s1 = 0;
  s2 = 0;
  s3 = 0;
  s4 = 0;
  s5 = 0;
  s6 = 0;
  s7 = 0;
  s8 = 0;
  s9 = 0;
  s10 = 0;
  s11 = 0;
}

abbrev sample_task : State → Task
sample_task s = record {
  id = 1;
  state = s;
  context = zeros;
  entry = 0x8000_1000;
  stack_base = 0x8002_0000;
  stack_size = 1024;
}

abbrev pub first : ℕ
first = 0x8001_00a0

abbrev pub second : ℕ
second = 0x8001_0140

abbrev pub third : ℕ
third = 0x8001_01e0

abbrev pub sample_with : State → Kernel
sample_with s = record {
  table = 0x8001_0000;
  trampoline = 0x8000_0100;
  idle_entry = 0x8000_0200;
  idle_stack = 0x8000_f000;
  queue = 0x8000_e000;
  task = λ t.
      if t == 0x8001_0000
      then sample_task running
      else if t == first
      then sample_task ready
      else if t == second
      then sample_task ready
      else if t == third
      then sample_task s
      else sample_task empty;
  heap = record {
    allocated = λ p. ltb 0x8000_dfff p && ltb p 0x8001_1400;
    next = λ p.
        if p == 0x8000_e000
        then run_node first
        else if p == run_node first
        then run_node second
        else 0x8000_e000;
    prev = λ p.
        if p == 0x8000_e000
        then run_node second
        else if p == run_node second
        then run_node first
        else 0x8000_e000;
  };
  idle = 0x8001_0000;
  next_id = 5;
  current = third;
  cpu = zeros;
}

pub sample-Queued : (s : State) → Queued (sample_with s) (first ∷ second ∷ [])
sample-Queued s = record {
  table_pos = omega arith;
  table_fits = omega arith;
  nodes = λ t slot. let (i, lt, at) = slot in ground arith;
  apart = λ t slot. let (i, lt, at) = slot in ground arith;
  ring = record {
    links = (refl, refl, (refl, refl, (refl, refl)));
    distinct = (refl, (refl, (refl, tt)));
    nodes = λ p i. ground arith;
    not_null = refl;
  };
  slots = λ t in_queue. elim (Bool-cases (t == first)) [
    | inl at ↦ (1, omega arith, ground arith)
    | inr away ↦ (2, omega arith, ground arith)
  ];
  all_ready = λ t in_queue. ground arith;
  idle_slot = (0, omega arith, refl);
  idle_out = refl;
}

pub sample-IsValid : (s : State) → IsValid (sample_with s) (first ∷ second ∷ [])
sample-IsValid s = record {
  queue = sample-Queued s;
  current_slot = (3, omega arith, refl);
  current_out = refl;
}
