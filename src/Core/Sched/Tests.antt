-- ===== src/Core/Sched/Tests.antt =====
-- Instances for the scheduler.
use qemu_risc_core.Prelude.{ℕ, ◌≡◌, ◌≢◌, refl, true, some, [], ◌∷◌, arith}
use qemu_risc_core.Core.Tasks.{running, dead, Kernel}
use qemu_risc_core.Core.RunQueue.Valid.{IsValid}
use qemu_risc_core.Core.Samples.{first, second, third, sample_with, sample-Queued, sample-IsValid}
use qemu_risc_core.Core.Sched.{start, reschedule}
use qemu_risc_core.Core.Sched.Reschedule.{Switched, reschedule-Switched}
use qemu_risc_core.Core.Sched.Start.{start-IsValid}
use qemu_risc_core.Core.Sched.Turns.{turns, yields-turns}
use qemu_risc_core.Core.Sched.Rounds.{yields, yields-runs, reschedule-dead}

reschedule-Switched_example :
    (g : Kernel) × (reschedule (sample_with running) ≡ some (g, true))
    × Switched (sample_with running) (first ∷ second ∷ []) g
reschedule-Switched_example =
    reschedule-Switched (sample_with running) (first ∷ second ∷ []) (sample-IsValid running)

start-IsValid_run :
    (g : Kernel) × (start (sample_with running) ≡ some g)
    × IsValid g (second ∷ [])
    × (g.current ≡ first)
    × ((g.task first).state ≡ running)
    × (g.cpu ≡ ((sample_with running).task first).context)
start-IsValid_run =
    start-IsValid (sample_with running) (first ∷ second ∷ []) (sample-Queued running)

yields-runs_example :
    (g : Kernel) × (yields 2 (sample_with running) ≡ some g)
    × (g.current ≡ second)
    × ((g.task second).state ≡ running)
yields-runs_example =
    yields-runs (first ∷ []) second [] (sample_with running) (sample-IsValid running)

reschedule-dead_run :
    (g : Kernel) × (reschedule (sample_with dead) ≡ some (g, true))
    × Switched (sample_with dead) (first ∷ second ∷ []) g
    × ((n : ℕ)
        → (o : Kernel) × (yields n g ≡ some o)
          × (o.current ≢ third)
          × ((o.task third).state ≡ dead))
reschedule-dead_run =
    reschedule-dead (sample_with dead) (first ∷ second ∷ []) (sample-IsValid dead) refl
      (omega arith)

yields-turns_example :
    (g : Kernel) × (yields 3 (sample_with running) ≡ some g)
    × (g.current ≡ third)
    × IsValid g (first ∷ second ∷ [])
    × ((g.task g.current).state ≡ running)
unfolding turns
yields-turns_example =
    yields-turns 3 (sample_with running) (first ∷ second ∷ []) (sample-IsValid running) refl
