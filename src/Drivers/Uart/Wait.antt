-- ===== src/Drivers/Uart/Wait.antt =====
-- The polling for the transmitter, and the writing of one byte.
use qemu_risc_core.Prelude.{
  ℕ, suc, ◌+◌, ◌<◌, ◌≡◌, refl, ap, ◌∙◌, true, false, bit_and, some, List, [], ◌∷◌, ◌++◌, map, arith,
  length, ◌==◌, if◌then◌else◌, Bool-cases, inl, inr, u64,
}
use qemu_risc_core.Drivers.Uart.{
  Uart, reg, lsr, rbr_thr_dll, lsr_thr_empty, with_input, read_reg, write_reg, wait_from,
  wait_tx_ready, putc_raw,
}

-- What the next reads of the line status register give, and how many of them say that the
-- transmitter is empty.
abbrev pub status : Uart → List ℕ
status u = u.inputs (reg lsr u)

abbrev pub ready_in : List ℕ → ℕ
ready_in [] = 0
ready_in (s ∷ ss) = if bit_and s lsr_thr_empty == 0 then ready_in ss else suc (ready_in ss)

abbrev pub ready : Uart → ℕ
ready u = ready_in (status u)

-- From `u` to `v` the bytes were written to the transmitter, each after it was seen empty.
pub record Sends (u : Uart) (bytes : List ℕ) (v : Uart) : Type 0 where
  pub base : v.base ≡ u.base
  pub writes : v.writes ≡ u.writes ++ map (λ b. (reg rbr_thr_dll u, b)) bytes
  pub left : ready v + length bytes ≡ ready u

status-with_input : (u : Uart) (ss : List ℕ) → status (with_input (reg lsr u) ss u) ≡ ss
status-with_input u ss = let here : (reg lsr u == reg lsr u) ≡ true = ground arith in rw here refl

wait_from-busy :
    (n s : ℕ) (ss : List ℕ) (u : Uart)
    → status u ≡ s ∷ ss
    → (bit_and s lsr_thr_empty == 0) ≡ true
    → wait_from (suc n) u ≡ wait_from n (with_input (reg lsr u) ss u)
unfolding wait_from read_reg
wait_from-busy n s ss u e busy = rw (e, busy) refl

wait_from-empty :
    (n s : ℕ) (ss : List ℕ) (u : Uart)
    → status u ≡ s ∷ ss
    → (bit_and s lsr_thr_empty == 0) ≡ false
    → wait_from (suc n) u ≡ some (with_input (reg lsr u) ss u)
unfolding wait_from read_reg
wait_from-empty n s ss u e empty = rw (e, empty) refl

wait_from-ready :
    (ss : List ℕ) (u : Uart)
    → status u ≡ ss
    → 0 < ready_in ss
    → (v : Uart) × (wait_from (length ss) u ≡ some v)
      × (v.base ≡ u.base)
      × (v.writes ≡ u.writes)
      × (ready v + 1 ≡ ready_in ss)
unfolding wait_from read_reg
wait_from-ready [] u e some_ready = absurd (omega arith)
wait_from-ready (s ∷ ss) u e some_ready =
    let v : Uart = with_input (reg lsr u) ss u in
    let rest = status-with_input u ss in
    elim (Bool-cases (bit_and s lsr_thr_empty == 0)) [
      | inl busy ↦
          let (w, runs, base, writes, left) = wait_from-ready ss v rest (ground arith) in
          (w, wait_from-busy (length ss) s ss u e busy ∙ runs, base, writes, rw busy left)
      | inr empty ↦ (
        v,
        wait_from-empty (length ss) s ss u e empty,
        refl,
        refl,
        rw (empty, rest) (omega arith),
      )
    ]

pub putc_raw-Sends :
    (ch : ℕ) (u : Uart) → 0 < ready u → (v : Uart) × (putc_raw ch u ≡ some v) × Sends u (ch ∷ []) v
unfolding putc_raw wait_tx_ready write_reg
putc_raw-Sends ch u some_ready =
    let (v, runs, base, writes, left) = wait_from-ready (status u) u refl some_ready in
    (
      write_reg rbr_thr_dll ch v,
      rw runs refl,
      record {
        base = base;
        writes =
            ap (λ ws. ws ++ (reg rbr_thr_dll v, ch) ∷ []) writes
            ∙ ap (λ (b : ℕ). u.writes ++ (u64 (b + 0), ch) ∷ []) base;
        left = left;
      },
    )
