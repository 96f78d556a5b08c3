-- ===== src/Prelude/Results.antt =====
-- Sequencing of steps that may meet undefined behaviour (`none`), and signed results.
use Prim.Native.Nat.{ℕ}
use mathlib.Core.Path.{◌≡◌, ap, ◌∙◌}
use mathlib.Core.Option.{Option, none, some}

-- `negsuc n` is -(n + 1).
pub data ℤ : Type 0 where
  pos : ℕ → ℤ
  negsuc : ℕ → ℤ

module _ {ℓ κ} {A : Type ℓ} {B : Type κ} where
  infixl 5 ◌>>=◌
  abbrev pub ◌>>=◌ : Option A → (A → Option B) → Option B
  none >>= f = none
  some a >>= f = f a

  -- One step of a chain that goes on.
  pub bind-some :
      {m : Option A} {a : A} (f : A → Option B) {r : Option B}
      → m ≡ some a
      → f a ≡ r
      → (m >>= f) ≡ r
  bind-some f e rest = ap (λ (o : Option A). o >>= f) e ∙ rest
