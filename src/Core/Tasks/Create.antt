-- ===== src/Core/Tasks/Create.antt =====
-- `create_kernel_task`: the entry that it takes, and the first context of the task.
use qemu_risc_core.Prelude.{
  ℕ, zero, suc, ◌+◌, ◌-◌, ◌*◌, ◌/◌, ◌%◌, ◌^◌, ◌≤◌, ◌<◌, ◌≡◌, ◌≢◌, refl, ap, ◌∙◌, true, false,
  bit_and, some, arith, ◌==◌, if◌then◌else◌, Bool-cases, inl, inr, ◌⊎◌, u64, bit_not,
}
use qemu_risc_core.Prelude.Bits.{bit_and-high_mask, bit_and-low_mask}
use qemu_risc_core.Ds.Heap.{Heap}
use qemu_risc_core.Core.Tasks.{
  ready, is_empty, Task, Kernel, task_addr, max_tasks, run_node, set_task, find_empty, stack_top,
  first_context, fill_task, create_kernel_task,
}

-- The entries before `n` are taken.
abbrev pub Taken : Kernel → ℕ → Type 0
Taken k n = (j : ℕ) → j < n → is_empty (k.task (task_addr k j)).state ≡ false

pub data Finds (k : Kernel) (t : ℕ) : Type 0 where
  full : Taken k max_tasks → t ≡ 0 → Finds k t
  found :
      (i : ℕ)
      → i < max_tasks
      → Taken k i
      → is_empty (k.task (task_addr k i)).state ≡ true
      → t ≡ task_addr k i
      → Finds k t

pub find_empty-Finds :
    (k : Kernel) (rounds i : ℕ)
    → i + rounds ≡ max_tasks
    → Taken k i
    → Finds k (find_empty rounds i k)
unfolding find_empty
find_empty-Finds k zero i e taken = full (λ j lt. taken j (omega (arith, e, lt))) refl
find_empty-Finds k (suc rounds) i e taken =
    elim (Bool-cases (is_empty (k.task (task_addr k i)).state)) [
      | inl free ↦ rw free (found i (omega (arith, e)) taken free refl)
      | inr busy ↦ rw busy (
          find_empty-Finds k rounds (i + 1) (omega (arith, e)) (λ j lt. elim (Bool-cases (j == i)) [
            | inl at ↦
                let j_is : j ≡ i = ground arith in
                ap (λ (x : ℕ). is_empty (k.task (task_addr k x)).state) j_is ∙ busy
            | inr below ↦ taken j (ground arith)
          ]))
    ]

-- The stack pointer is aligned to 16 bytes, at most 15 bytes below the end of the stack.
pub stack_top_aligned :
    (base size : ℕ)
    → base + size < 2 ^ 64
    → (stack_top base size % 16 ≡ 0)
      × (stack_top base size ≤ base + size)
      × (base + size < stack_top base size + 16)
stack_top_aligned base size fits =
    let top : ℕ = u64 (base + size) in
    let masked : bit_and top (bit_not 0xf) ≡ top / 16 * 16 =
      bit_and-high_mask 4 top (2 ^ 60 - 1) ∙ rw (bit_and-low_mask 60 (top / 16)) (omega arith) in
    omega (arith, masked)

-- What the table says of a new task, and what else is as before.
pub record Created (k : Kernel) (t entry base size : ℕ) (n : Kernel) : Type 0 where
  pub state : (n.task t).state ≡ ready
  pub id : (n.task t).id ≡ k.next_id
  pub entry_is : (n.task t).entry ≡ entry
  pub stack : ((n.task t).stack_base ≡ base) × ((n.task t).stack_size ≡ size)
  pub returns_to : (n.task t).context.ra ≡ k.trampoline
  pub sp_aligned : (n.task t).context.sp % 16 ≡ 0
  pub sp_top : ((n.task t).context.sp ≤ base + size) × (base + size < (n.task t).context.sp + 16)
  pub unlinked : (n.heap.prev (run_node t) ≡ 0) × (n.heap.next (run_node t) ≡ 0)
  pub next_id : n.next_id ≡ (k.next_id + 1) % 2 ^ 32
  pub others : (u : ℕ) → u ≢ t → n.task u ≡ k.task u

-- The table is in the address space, with its nodes.
abbrev pub Table : Kernel → Type 0
Table k =
    (0 < k.table)
    × (k.table + 5120 < 2 ^ 64)
    × ((i : ℕ) → i < max_tasks → k.heap.allocated (run_node (task_addr k i)) ≡ true)

module _ (k : Kernel) (t entry base size : ℕ) (fits : base + size < 2 ^ 64) where
  abbrev fields : Task
  fields = record {
    id = k.next_id;
    state = ready;
    context = first_context k (stack_top base size);
    entry = entry;
    stack_base = base;
    stack_size = size;
  }

  abbrev cleared : Heap
  cleared = record k.heap {
    prev = λ (p : ℕ). if p == run_node t then 0 else k.heap.prev p;
    next = λ (p : ℕ). if p == run_node t then 0 else k.heap.next p;
  }

  abbrev pub created : Kernel
  created = record (set_task t fields k) { heap = cleared; next_id = (k.next_id + 1) % 2 ^ 32 }

  pub fill_task-runs :
      k.heap.allocated (run_node t) ≡ true → fill_task t entry base size k ≡ some created
  unfolding fill_task
  fill_task-runs node = rw (node, node) refl

  pub created-Created : Created k t entry base size created
  created-Created =
      let here : (t == t) ≡ true = ground arith in
      let node : (run_node t == run_node t) ≡ true = ground arith in
      let (aligned, below, above) = stack_top_aligned base size fits in
      record {
        state = rw here refl;
        id = rw here refl;
        entry_is = rw here refl;
        stack = rw here (refl, refl);
        returns_to = rw here refl;
        sp_aligned = rw here aligned;
        sp_top = rw here (below, above);
        unlinked = rw node (refl, refl);
        next_id = refl;
        others = λ u ne. let away : (u == t) ≡ false = ground arith in rw away refl;
      }

abbrev Creates : (k : Kernel) (entry base size : ℕ) → Type 0
Creates k entry base size =
    (n : Kernel) × (t : ℕ) × (create_kernel_task entry base size k ≡ some (n, t))
    × ((Taken k max_tasks × (t ≡ 0) × (n ≡ k))
        ⊎ ((i : ℕ) × (i < max_tasks)
            × Taken k i
            × (is_empty (k.task (task_addr k i)).state ≡ true)
            × (t ≡ task_addr k i)
            × Created k t entry base size n))

create_at :
    (k : Kernel) (entry base size : ℕ)
    → Table k
    → base ≢ 0
    → size ≢ 0
    → base + size < 2 ^ 64
    → (t : ℕ) → find_empty max_tasks 0 k ≡ t
    → Finds k t
    → Creates k entry base size
unfolding create_kernel_task
create_at k entry base size table base_ne size_ne fits t at (full taken null) =
    let base_pos : (base == 0) ≡ false = ground arith in
    let size_pos : (size == 0) ≡ false = ground arith in
    let t_null : (t == 0) ≡ true = ground arith in
    (k, 0, rw (base_pos, size_pos, at, t_null) refl, inl (taken, refl, refl))
create_at k entry base size table base_ne size_ne fits t at (found i lt taken free t_is) =
    let (pos, table_fits, nodes) = table in
    let base_pos : (base == 0) ≡ false = ground arith in
    let size_pos : (size == 0) ≡ false = ground arith in
    let t_pos : (t == 0) ≡ false = ground arith in
    let node : k.heap.allocated (run_node t) ≡ true =
      ap (λ (x : ℕ). k.heap.allocated (run_node x)) t_is ∙ nodes i lt in
    let run = fill_task-runs k t entry base size fits node in
    (
      created k t entry base size fits,
      t,
      rw (base_pos, size_pos, at, t_pos, run) refl,
      inr (i, lt, taken, free, t_is, created-Created k t entry base size fits),
    )

-- For a stack that is not empty and lies in the address space, and a table in memory,
-- `create_kernel_task` returns: either no entry of the table is empty, and it returns a null
-- pointer and changes nothing; or it takes the first empty entry, which is ready, has the next
-- id, starts at the trampoline on a stack pointer that is aligned to 16 bytes and at most 15 bytes
-- below the end of its stack, and is in no list; no other task is changed.
pub create_kernel_task-Created :
    (k : Kernel) (entry base size : ℕ)
    → Table k
    → base ≢ 0
    → size ≢ 0
    → base + size < 2 ^ 64
    → (n : Kernel) × (t : ℕ) × (create_kernel_task entry base size k ≡ some (n, t))
      × ((Taken k max_tasks × (t ≡ 0) × (n ≡ k))
          ⊎ ((i : ℕ) × (i < max_tasks)
              × Taken k i
              × (is_empty (k.task (task_addr k i)).state ≡ true)
              × (t ≡ task_addr k i)
              × Created k t entry base size n))
create_kernel_task-Created k entry base size table base_ne size_ne fits =
    create_at k entry base size table base_ne size_ne fits (find_empty max_tasks 0 k) refl
      (find_empty-Finds k max_tasks 0 (omega arith) (λ j lt. absurd (omega (arith, lt))))
