-- ===== src/Mm/Pmm/Count.antt =====
-- How many of the digits below `n` are clear.
use qemu_risc_core.Prelude.{
  ℕ, zero, suc, ◌+◌, ◌-◌, ◌≤◌, ◌<◌, ◌≡◌, refl, ◌≢◌, arith, ◌==◌, Bool-cases, inl, inr,
}

unfoldable pub clear_count : (ℕ → ℕ) → ℕ → ℕ
clear_count digit zero = 0
clear_count digit (suc n) = clear_count digit n + (1 - digit n)

pub clear_count-le : (digit : ℕ → ℕ) (n : ℕ) → clear_count digit n ≤ n
unfolding clear_count
clear_count-le digit zero = omega arith
clear_count-le digit (suc n) = omega (arith, clear_count-le digit n)

pub clear_count-ext :
    (f g : ℕ → ℕ) (n : ℕ) → ((i : ℕ) → i < n → f i ≡ g i) → clear_count f n ≡ clear_count g n
unfolding clear_count
clear_count-ext f g zero same = refl
clear_count-ext f g (suc n) same =
    omega (arith, same n (omega arith), clear_count-ext f g n (λ i lt. same i (omega arith)))

pub clear_count_mono :
    (f g : ℕ → ℕ) (n : ℕ) → ((i : ℕ) → i < n → f i ≤ g i) → clear_count g n ≤ clear_count f n
unfolding clear_count
clear_count_mono f g zero le = omega arith
clear_count_mono f g (suc n) le =
    omega (arith, le n (omega arith), clear_count_mono f g n (λ i lt. le i (omega arith)))

-- Setting a clear digit takes one away.
pub clear_count-set :
    (f g : ℕ → ℕ) (target n : ℕ)
    → target < n
    → f target ≡ 0
    → g target ≡ 1
    → ((i : ℕ) → i ≢ target → g i ≡ f i)
    → clear_count f n ≡ clear_count g n + 1
unfolding clear_count
clear_count-set f g target zero lt was now same = absurd (omega arith)
clear_count-set f g target (suc n) lt was now same = elim (Bool-cases (n == target)) [
  | inl at ↦
      let e : n ≡ target = ground arith in
      let below = clear_count-ext f g n (λ i i_lt. ground (arith, same i)) in
      let was' : f n ≡ 0 = rw e was in let now' : g n ≡ 1 = rw e now in omega (arith, below)
  | inr away ↦
      let ne : n ≢ target = ground arith in
      omega (arith, same n ne, clear_count-set f g target n (omega arith) was now same)
]
