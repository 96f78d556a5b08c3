-- ===== src/Core/Sched/Rounds.antt =====
-- Tasks that yield take turns.
use qemu_risc_core.Prelude.{
  ℕ, zero, suc, ◌≡◌, ◌≢◌, refl, sym, ap, ◌∙◌, true, false, not, ◌&&◌, Option, some, List, [], ◌∷◌,
  ◌++◌, length, arith, ◌==◌, Bool-cases, inl, inr, ◌>>=◌,
}
use mathlib.Core.List.{append_assoc, append-nil}
use qemu_risc_core.Ds.List.Linked.{has, has-append}
use qemu_risc_core.Core.Tasks.{State, running, dead, is_running, Task, Kernel, idle_task}
use qemu_risc_core.Core.RunQueue.Valid.{IsValid}
use qemu_risc_core.Core.Sched.{requeues, reschedule, yield}
use qemu_risc_core.Core.Sched.Requeue.{back}
use qemu_risc_core.Core.Sched.Reschedule.{Switched, chosen, tail-out, reschedule-Switched}
use qemu_risc_core.Core.RunQueue.Next.{tail}

-- A number of yields, each of the task that runs then.
unfoldable pub yields : ℕ → Kernel → Option Kernel
yields zero k = some k
yields (suc n) k = do (g, switched) ← yield k; yields n g

-- With a valid run queue, a task in the queue is the current task, and running, after as many yields
-- as there are tasks in the queue up to it, itself included.
pub yields-runs :
    (before : List ℕ) (t : ℕ) (after : List ℕ) (k : Kernel)
    → IsValid k (before ++ t ∷ after)
    → (g : Kernel) × (yields (suc (length before)) k ≡ some g)
      × (g.current ≡ t)
      × ((g.task t).state ≡ running)
unfolding yields yield
yields-runs [] t after k v =
    let (g, runs, s) = reschedule-Switched k (t ∷ after) v in (g, rw runs refl, s.current, s.runs)
yields-runs (b ∷ before) t after k v =
    let (g, runs, s) = reschedule-Switched k (b ∷ before ++ t ∷ after) v in
    let valid = rw (append_assoc before (t ∷ after) (back k.current k)) at s.valid in
    let (o, rest, current, state) = yields-runs before t (after ++ back k.current k) g valid in
    (o, rw (runs, rest) refl, current, state)

chosen-ne :
    (k : Kernel) (queued : List ℕ) (c : ℕ) → has c queued ≡ false → c ≢ k.idle → c ≢ chosen k queued
chosen-ne k [] c out ne = ne
chosen-ne k (t ∷ ts) c out ne = ground arith

requeued-out :
    (k : Kernel) (queued : List ℕ) (c : ℕ)
    → has c queued ≡ false
    → c ≢ k.current
    → has c (tail queued ++ back k.current k) ≡ false
requeued-out k queued c out ne =
    let rest = tail-out c queued out in
    elim (Bool-cases (requeues k.current k)) [
      | inl goes ↦ rw goes (has-append c (tail queued) (k.current ∷ []) ∙ ground arith)
      | inr stays ↦ rw stays (has-append c (tail queued) [] ∙ ground arith)
    ]

-- A task apart from the queue, the current and the idle task stays apart, and is not changed.
yields-apart :
    (n : ℕ) (c : ℕ) (queued : List ℕ) (k : Kernel)
    → IsValid k queued
    → has c queued ≡ false
    → c ≢ k.current
    → c ≢ k.idle
    → (g : Kernel) × (yields n k ≡ some g) × (g.current ≢ c) × (g.task c ≡ k.task c)
unfolding yields yield
yields-apart zero c queued k v out ne ne' = (k, refl, λ e. ne (sym e), refl)
yields-apart (suc n) c queued k v out ne ne' =
    let (g, runs, s) = reschedule-Switched k queued v in
    let not_chosen = chosen-ne k queued c out ne' in
    let out' = requeued-out k queued c out ne in
    let (o, rest, current, same) =
      yields-apart n c (tail queued ++ back k.current k) g s.valid out'
        (λ e. not_chosen (e ∙ s.current)) (λ e. ne' (e ∙ s.idle)) in
    (o, rw (runs, rest) refl, current, same ∙ s.others c ne not_chosen)

-- A dead task that gives up the processor, unless it is the idle task, is not the current task
-- after any number of further yields, and stays dead; the task that goes on is as for every
-- `reschedule`.
pub reschedule-dead :
    (k : Kernel) (queued : List ℕ)
    → IsValid k queued
    → (k.task k.current).state ≡ dead
    → k.current ≢ k.idle
    → (g : Kernel) × (reschedule k ≡ some (g, true))
      × Switched k queued g
      × ((n : ℕ)
          → (o : Kernel) × (yields n g ≡ some o)
            × (o.current ≢ k.current)
            × ((o.task k.current).state ≡ dead))
reschedule-dead k queued v is_dead ne =
    let (g, runs, s) = reschedule-Switched k queued v in
    let stays : requeues k.current k ≡ false =
      ap (λ (t : State). not (k.current == 0) && not (k.current == idle_task k) && is_running t)
        is_dead
      ∙ ground arith in
    let not_chosen = chosen-ne k queued k.current v.current_out ne in
    let none_back : back k.current k ≡ [] = rw stays refl in
    let valid : IsValid g (tail queued) = rw (none_back, append-nil) at s.valid in
    let state = s.kept stays (λ e. not_chosen (sym e)) in
    (
      g,
      runs,
      s,
      λ n.
          let (o, rest, current, same) =
            yields-apart n k.current (tail queued) g valid (tail-out k.current queued v.current_out)
              (λ e. not_chosen (e ∙ s.current)) (λ e. ne (e ∙ s.idle)) in
          (o, rest, current, ap (λ (t : Task). t.state) same ∙ state ∙ is_dead),
    )
