-- ===== src/Arch/Syscall/Exit.antt =====
-- `sys_exit`: the message, and the task that goes on.
use qemu_risc_core.Prelude.{
  ℕ, ◌^◌, ◌≤◌, ◌<◌, ◌≡◌, ◌≢◌, refl, ap, ◌∙◌, true, some, List, arith, codes, ◌==◌, Bool-cases, inl,
  inr, bind-some,
}
use qemu_risc_core.Drivers.Uart.{Uart, puts, putc, put_dec}
use qemu_risc_core.Drivers.Uart.Wait.{ready}
use qemu_risc_core.Drivers.Uart.Talk.{puts-Talks, putc-Talks, put_dec-Talks}
use qemu_risc_core.Ds.List.Linked.{has}
use qemu_risc_core.Core.Tasks.{dead, Kernel, set_state}
use qemu_risc_core.Core.RunQueue
use qemu_risc_core.Core.RunQueue.Valid.{IsValid, Slot-pos}
use qemu_risc_core.Core.Sched.{reschedule}
use qemu_risc_core.Core.Sched.Requeue.{Queued-task}
use qemu_risc_core.Core.Sched.Reschedule.{Switched}
use qemu_risc_core.Core.Sched.Rounds.{yields, reschedule-dead}
use qemu_risc_core.System.{System, switched, with_uart, with_kernel}
use qemu_risc_core.System.Print.{print-Talks}
use qemu_risc_core.Arch.Syscall.{kill_current, sys_exit}

-- The kernel with its current task dead.
pub killed : Kernel → Kernel
killed k = set_state k.current dead k

kill_current-killed : (k : Kernel) (queued : List ℕ) → IsValid k queued → kill_current k ≡ killed k
unfolding killed RunQueue.current
kill_current-killed k queued v = let pos = Slot-pos v.queue k.current v.current_slot in rw pos refl

killed-IsValid : (k : Kernel) (queued : List ℕ) → IsValid k queued → IsValid (killed k) queued
unfolding killed
killed-IsValid k queued v = record {
  queue = Queued-task v.queue (set_state k.current dead k).task k.current k.cpu (λ t in_queue.
      elim (Bool-cases (t == k.current)) [
        | inl at ↦
            let e : t ≡ k.current = ground arith in
            absurd
              (let bad = ap (λ (x : ℕ). has x queued) e in let out = v.current_out in ground arith)
        | inr away ↦ rw away (v.queue.all_ready t in_queue)
      ]);
  current_slot = v.current_slot;
  current_out = v.current_out;
}

killed-dead : (k : Kernel) → ((killed k).task k.current).state ≡ dead
unfolding killed
killed-dead k = let here : (k.current == k.current) ≡ true = ground arith in rw here refl

-- With a valid run queue and a current task that is not the idle task, `sys_exit` prints its message,
-- if the serial port is seen ready 76 times, and does not return: the current task is dead, and the
-- processor goes on in the task that `reschedule` chooses; after any number of yields from there the
-- dead task is not the current task, and is dead.
pub sys_exit-switched :
    (code : ℕ) (s : System) (queued : List ℕ)
    → code < 2 ^ 64
    → IsValid s.kernel queued
    → s.kernel.current ≢ s.kernel.idle
    → 76 ≤ ready s.uart
    → (u : Uart) × (g : Kernel) × (sys_exit code s
        ≡ some (switched (with_kernel g (with_uart u s))))
      × Switched (killed s.kernel) queued g
      × ((n : ℕ)
          → (o : Kernel) × (yields n g ≡ some o)
            × (o.current ≢ s.kernel.current)
            × ((o.task s.kernel.current).state ≡ dead))
unfolding sys_exit killed
sys_exit-switched code s queued fits v ne enough =
    let text : List ℕ = codes "sys_exit, code = " in
    let (u1, r1, l1) =
      print-Talks (puts (some text)) 34 s (puts-Talks text 34 (omega arith))
        (omega (arith, enough)) in
    let s1 : System = with_uart u1 s in
    let (u2, r2, l2) =
      print-Talks (put_dec code) 40 s1 (put_dec-Talks code fits) (omega (arith, enough, l1)) in
    let s2 : System = with_uart u2 s1 in
    let (u3, r3, l3) =
      print-Talks (putc b'\n') 2 s2 (putc-Talks b'\n') (omega (arith, enough, l1, l2)) in
    let (g, runs, switch, never) =
      reschedule-dead (killed s.kernel) queued (killed-IsValid s.kernel queued v)
        (killed-dead s.kernel) ne in
    let run = ap reschedule (kill_current-killed s.kernel queued v) ∙ runs in
    (u3, g, bind-some _ r1 (bind-some _ r2 (bind-some _ r3 (bind-some _ run refl))), switch, never)
