-- ===== src/Prelude/Words.antt =====
-- `uint64_t`, `uintptr_t` and `size_t`: numbers below 2 ^ 64, with the wrap written out.
use Prim.Native.Nat.{ℕ, ◌+◌, ◌-◌, ◌*◌, ◌/◌, ◌%◌, ◌^◌}

abbrev pub word_mod : ℕ
word_mod = 2 ^ 64

-- The value that a 64-bit register keeps.
abbrev pub u64 : ℕ → ℕ
u64 n = n % 2 ^ 64

-- `~x` of a 64-bit word.
abbrev pub bit_not : ℕ → ℕ
bit_not x = 2 ^ 64 - 1 - x

infixl 75 ◌<<<◌ ◌>>>◌
-- `x << k` for k < 64.
abbrev pub ◌<<<◌ : ℕ → ℕ → ℕ
x <<< k = u64 (x * 2 ^ k)

-- `x >> k`.
abbrev pub ◌>>>◌ : ℕ → ℕ → ℕ
x >>> k = x / 2 ^ k

-- `a - b` in 64 bits; 2 ^ 64 is added first since `-` stops at 0.
abbrev pub sub64 : ℕ → ℕ → ℕ
sub64 a b = u64 (a + 2 ^ 64 - b)
