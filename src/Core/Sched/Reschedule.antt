-- ===== src/Core/Sched/Reschedule.antt =====
-- `reschedule`: which task goes on, with which registers, and what the queue is afterwards.
use qemu_risc_core.Prelude.{
  ℕ, ◌≡◌, ◌≢◌, refl, ap, ◌∙◌, true, false, some, List, [], ◌∷◌, ◌++◌, arith, ◌==◌, if◌then◌else◌,
  Bool-cases, inl, inr,
}
use qemu_risc_core.Ds.Heap.{Heap}
use qemu_risc_core.Ds.List.Linked.{has, has-append}
use qemu_risc_core.Core.Tasks.{ready, running, Kernel, Task, set_state, idle_task}
use qemu_risc_core.Core.RunQueue
use qemu_risc_core.Core.RunQueue.Valid.{Slot, Queued, IsValid, Slot-pos, has-map-run_node}
use qemu_risc_core.Core.RunQueue.Next.{with_heap, head_or_null, tail, next-head}
use qemu_risc_core.Core.Sched.{
  next_or_idle, requeues, requeue, reschedule, context_switch, save_context, load_context,
}
use qemu_risc_core.Core.Sched.Requeue.{
  Queued-task, idle_task_lem, back, with_tasks, Requeues, requeue-Requeues,
}

-- The task that goes on: the first of the queue, or the idle task.
abbrev pub chosen : Kernel → List ℕ → ℕ
chosen k [] = k.idle
chosen k (t ∷ ts) = t

-- From `k` with the queue `queued`, the processor was given to the chosen task.
pub record Switched (k : Kernel) (queued : List ℕ) (g : Kernel) : Type 0 where
  pub valid : IsValid g (tail queued ++ back k.current k)
  pub current : g.current ≡ chosen k queued
  pub runs : (g.task (chosen k queued)).state ≡ running
  pub saved : (g.task k.current).context ≡ k.cpu
  pub kept :
      requeues k.current k ≡ false
      → chosen k queued ≢ k.current
      → (g.task k.current).state ≡ (k.task k.current).state
  pub loaded : chosen k queued ≢ k.current → g.cpu ≡ (k.task (chosen k queued)).context
  pub stayed : chosen k queued ≡ k.current → g.cpu ≡ k.cpu
  pub others : (t : ℕ) → t ≢ k.current → t ≢ chosen k queued → g.task t ≡ k.task t
  pub idle : g.idle ≡ k.idle

module _ (k : Kernel) (c next : ℕ) (h : Heap) (f : ℕ → Task) where
  -- The kernel that `reschedule` ends with.
  abbrev run_state : ℕ → Task
  run_state t = if t == next then record (f next) { state = running } else f t

  abbrev final : Kernel
  final =
      context_switch c next (record (set_state next running (with_tasks h f k)) { current = next })

  final-task :
      (t : ℕ)
      → final.task t ≡ (if t == c then record (run_state c) { context = k.cpu } else run_state t)
  unfolding context_switch save_context load_context
  final-task t = refl

-- The chosen task is not in the queue that is left.
chosen-out :
    (k : Kernel) (queued : List ℕ) (v : IsValid k queued)
    → has (chosen k queued) (tail queued ++ back k.current k) ≡ false
chosen-out k [] v =
    let e = idle_task_lem v.queue in
    elim (Bool-cases (requeues k.current k)) [
      | inl goes ↦ rw goes (ground arith)
      | inr stays ↦ rw stays refl
    ]
chosen-out k (t ∷ ts) v =
    let listed = has-map-run_node t ts in
    let distinct = v.queue.ring.distinct in
    let apart = v.current_out in
    let split = has-append t ts (back k.current k) in
    elim (Bool-cases (requeues k.current k)) [
      | inl goes ↦ rw goes (rw goes at split ∙ ground arith)
      | inr stays ↦ rw stays (rw stays at split ∙ ground arith)
    ]

pub chosen-Slot : (k : Kernel) (queued : List ℕ) (v : Queued k queued) → Slot k (chosen k queued)
chosen-Slot k [] v = v.idle_slot
chosen-Slot k (t ∷ ts) v = v.slots t (ground arith)

module _ (k : Kernel) (queued : List ℕ) (c next : ℕ) (h : Heap) (f : ℕ → Task)
    (queue : Queued (with_tasks h f k) queued) (out : has next queued ≡ false) where
  final-states : (t : ℕ) → has t queued ≡ true → ((final k c next h f).task t).state ≡ ready
  unfolding context_switch save_context load_context
  final-states t in_queue =
      let not_next : (t == next) ≡ false = elim (Bool-cases (t == next)) [
        | inr away ↦ away
        | inl at ↦
            let e : t ≡ next = ground arith in
            absurd (let bad = ap (λ (x : ℕ). has x queued) e in ground arith)
      ] in
      let was = queue.all_ready t in_queue in
      elim (Bool-cases (t == c)) [
        | inr other ↦ rw (other, not_next) was
        | inl at ↦
            let e : c ≡ t = ground arith in
            rw at (ap (λ (x : ℕ). (run_state k c next h f x).state) e ∙ rw not_next was)
      ]

  final-Queued : Queued (final k c next h f) queued
  unfolding context_switch save_context load_context
  final-Queued =
      Queued-task queue (final k c next h f).task next (final k c next h f).cpu final-states

pub next_or_idle-chosen :
    (k : Kernel) (queued : List ℕ) (v : Queued k queued) (h : Heap)
    → next_or_idle (head_or_null queued) (with_heap h k) ≡ chosen k queued
unfolding idle_task
next_or_idle-chosen k [] v h = idle_task_lem v
next_or_idle-chosen k (t ∷ ts) v h =
    let pos = Slot-pos v t (v.slots t (ground arith)) in rw pos refl

pub tail-out : (t : ℕ) (ts : List ℕ) → has t ts ≡ false → has t (tail ts) ≡ false
tail-out t [] out = out
tail-out t (u ∷ ts) out = ground arith

reschedule-runs :
    (k n m : Kernel) (popped next : ℕ)
    → RunQueue.next k ≡ some (n, popped)
    → next_or_idle popped n ≡ next
    → (next == 0) ≡ false
    → (k.current == 0) ≡ false
    → requeue k.current n ≡ some m
    → reschedule k
      ≡ some (
        context_switch k.current next (record (set_state next running m) { current = next }),
        true,
      )
unfolding reschedule RunQueue.current RunQueue.set_current
reschedule-runs k n m popped next pops picks next_pos c_pos requeues_c =
    rw (pops, picks, next_pos, c_pos, requeues_c) refl

module _ (k : Kernel) (queued : List ℕ) (v : IsValid k queued) where
  final-Switched :
      (g h : Heap) (f : ℕ → Task)
      → Requeues (with_heap g k) (tail queued) k.current h f
      → Switched k queued (final k k.current (chosen k queued) h f)
  unfolding context_switch save_context load_context idle_task
  final-Switched g h f r =
      let next = chosen k queued in
      let c = k.current in
      let here : (c == c) ≡ true = ground arith in
      let here' : (next == next) ≡ true = ground arith in
      let queue =
        final-Queued k (tail queued ++ back c k) c next h f r.queue (chosen-out k queued v) in
      record {
        valid = record {
          queue = queue;
          current_slot = chosen-Slot k queued v.queue;
          current_out = chosen-out k queued v;
        };
        current = refl;
        runs = elim (Bool-cases (next == c)) [
          | inl same ↦ let same' : (c == next) ≡ true = ground arith in rw same (rw same' refl)
          | inr other ↦ rw (other, here') refl
        ];
        saved = rw here refl;
        kept = λ stays ne.
            let away : (c == next) ≡ false = ground arith in
            rw here (rw away (ap (λ (t : Task). t.state) (r.stays stays)));
        loaded = λ ne.
            let away : (next == c) ≡ false = ground arith in
            rw away (rw here' (ap (λ (t : Task). t.context) (r.others next ne)));
        stayed = λ same. let at : (next == c) ≡ true = ground arith in rw at refl;
        others = λ t ne ne'.
            let away : (t == c) ≡ false = ground arith in
            let away' : (t == next) ≡ false = ground arith in rw (away, away') (r.others t ne);
        idle = refl;
      }

  -- With a valid run queue `reschedule` switches the context: the first task of the queue, or the
  -- idle task if the queue is empty, becomes the current task, is running, and goes on with the
  -- registers of its context; the registers of the task before are saved in its context; that
  -- task goes to the end of the queue exactly if it is running and not the idle task; the other
  -- tasks are as before, and the run queue is valid.
  pub reschedule-Switched : (g : Kernel) × (reschedule k ≡ some (g, true)) × Switched k queued g
  unfolding idle_task
  reschedule-Switched =
      let (g, pops, queue) = next-head k queued v.queue in
      let out = tail-out k.current queued v.current_out in
      let (h, f, r) =
        requeue-Requeues (with_heap g k) (tail queued) queue k.current v.current_slot out in
      let next_pos = Slot-pos v.queue (chosen k queued) (chosen-Slot k queued v.queue) in
      let current_pos = Slot-pos v.queue k.current v.current_slot in
      (
        final k k.current (chosen k queued) h f,
        reschedule-runs k (with_heap g k) (with_tasks h f k) (head_or_null queued) (chosen k queued)
            pops (next_or_idle-chosen k queued v.queue g) next_pos current_pos r.runs,
        final-Switched g h f r,
      )
