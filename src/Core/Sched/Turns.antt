-- ===== src/Core/Sched/Turns.antt =====
-- The scheduler as a rotation: which task is the current one, and which tasks wait behind it.
use qemu_risc_core.Prelude.{
  ℕ, zero, suc, ◌≡◌, refl, ap, ◌∙◌, true, not, some, List, [], ◌∷◌, ◌++◌, arith, ◌==◌,
  if◌then◌else◌,
}
use qemu_risc_core.Core.Tasks.{running, Kernel}
use qemu_risc_core.Core.RunQueue.Valid.{IsValid, Slot-pos}
use qemu_risc_core.Core.Sched.{requeues, yield}
use qemu_risc_core.Core.Sched.Requeue.{back, idle_task_lem}
use qemu_risc_core.Core.Sched.Reschedule.{chosen, reschedule-Switched}
use qemu_risc_core.Core.Sched.Rounds.{yields}
use qemu_risc_core.Core.RunQueue.Next.{tail}

-- One turn of the tasks, all of which run on: the current task goes behind the others, and the idle
-- task stands in when no other task waits, and waits nowhere itself.
abbrev pub behind : ℕ → ℕ → List ℕ
behind idle c = if c == idle then [] else c ∷ []

abbrev pub turn : ℕ → ℕ × List ℕ → ℕ × List ℕ
turn idle (c, []) = (idle, behind idle c)
turn idle (c, t ∷ ts) = (t, ts ++ behind idle c)

unfoldable pub turns : ℕ → ℕ → ℕ × List ℕ → ℕ × List ℕ
turns zero idle s = s
turns (suc n) idle s = turns n idle (turn idle s)

-- The kernel stands at the current task and the queue of `s`.
pub record At (k : Kernel) (s : ℕ × List ℕ) : Type 0 where
  pub current : k.current ≡ s.0
  pub valid : IsValid k s.1
  pub runs : (k.task k.current).state ≡ running

back-running :
    (k : Kernel) (queued : List ℕ)
    → IsValid k queued
    → (k.task k.current).state ≡ running
    → back k.current k ≡ behind k.idle k.current
back-running k queued v runs =
    let pos = Slot-pos v.queue k.current v.current_slot in
    let idle = idle_task_lem v.queue in
    let same : requeues k.current k ≡ not (k.current == k.idle) =
      rw (pos, idle, runs) (ground arith) in
    rw same (ground arith)

chosen-turn :
    (k : Kernel) (queued : List ℕ)
    → (chosen k queued ≡ (turn k.idle (k.current, queued)).0)
      × (tail queued ++ behind k.idle k.current ≡ (turn k.idle (k.current, queued)).1)
chosen-turn k [] = (refl, refl)
chosen-turn k (t ∷ ts) = (refl, refl)

yield-turn :
    (k : Kernel) (queued : List ℕ)
    → At k (k.current, queued)
    → (g : Kernel) × (yield k ≡ some (g, true))
      × At g (turn k.idle (k.current, queued))
      × (g.idle ≡ k.idle)
unfolding yield
yield-turn k queued a =
    let (g, runs, s) = reschedule-Switched k queued a.valid in
    let (next, waits) = chosen-turn k queued in
    let e = back-running k queued a.valid a.runs in
    (
      g,
      runs,
      record {
        current = s.current ∙ next;
        valid = rw (e, waits) at s.valid;
        runs = ap (λ (t : ℕ). (g.task t).state) s.current ∙ s.runs;
      },
      s.idle,
    )

yields-At :
    (n : ℕ) (k : Kernel) (s : ℕ × List ℕ)
    → At k s
    → (g : Kernel) × (yields n k ≡ some g) × At g (turns n k.idle s)
unfolding yields turns
yields-At zero k s a = (k, refl, a)
yields-At (suc n) k (c, queued) a =
    let here : At k (k.current, queued) = record {
      current = refl;
      valid = a.valid;
      runs = a.runs;
    } in
    let (g, runs, after, idle) = yield-turn k queued here in
    let after' : At g (turn k.idle (c, queued)) =
      rw (ap (λ (x : ℕ). turn k.idle (x, queued)) a.current) at after in
    let (o, rest, end) = yields-At n g (turn k.idle (c, queued)) after' in
    (o, rw (runs, rest) refl, rw idle at end)

-- With a valid run queue and a running current task, any number of yields gives the processor to
-- the task that as many turns of the tasks lead to, and leaves the queue of these turns: the
-- current task goes behind the waiting ones, and the idle task runs when none waits.
pub yields-turns :
    (n : ℕ) (k : Kernel) (queued : List ℕ)
    → IsValid k queued
    → (k.task k.current).state ≡ running
    → (g : Kernel) × (yields n k ≡ some g)
      × (g.current ≡ (turns n k.idle (k.current, queued)).0)
      × IsValid g (turns n k.idle (k.current, queued)).1
      × ((g.task g.current).state ≡ running)
yields-turns n k queued v runs =
    let (g, all, end) =
      yields-At n k (k.current, queued) (record { current = refl; valid = v; runs = runs }) in
    (g, all, end.current, end.valid, end.runs)
