-- ===== src/Arch/TrapEntry/Frame.antt =====
-- Stores at offsets of the frame, and what is then found there and elsewhere.
use mathlib.Core.Path.{fun_ext}
use qemu_risc_core.Prelude.{
  ℕ, ◌+◌, ◌<◌, ◌≡◌, ◌≢◌, refl, ◌∙◌, false, List, [], ◌∷◌, arith, ltb, ◌==◌, if◌then◌else◌, u64,
  Bool-cases, inl, inr,
}
use qemu_risc_core.Arch.TrapEntry.{stores, view}

-- The same stores, on the offsets.
abbrev pub slots : List (ℕ × ℕ) → (ℕ → ℕ) → ℕ → ℕ
slots [] f = f
slots ((offset, value) ∷ rest) f = slots rest (λ o. if o == offset then value else f o)

abbrev pub Inside : List (ℕ × ℕ) → Type 0
Inside [] = Unit {0}
Inside ((offset, value) ∷ rest) = (offset < 288) × Inside rest

same_offset : (sp o p : ℕ) → o < 288 → p < 288 → (u64 (sp + o) == u64 (sp + p)) ≡ (o == p)
same_offset sp o p o_in p_in = elim (Bool-cases (o == p)) [
  | inl same ↦ rw same (ground arith)
  | inr away ↦ rw away (ground arith)
]

pub view-stores :
    (is : List (ℕ × ℕ)) (sp : ℕ) (mem f : ℕ → ℕ)
    → Inside is
    → ((o : ℕ) → o < 288 → view sp mem o ≡ f o)
    → (o : ℕ) → o < 288
    → view sp (stores is sp mem) o ≡ slots is f o
unfolding stores
view-stores [] sp mem f inside same o o_in = same o o_in
view-stores ((p, v) ∷ is) sp mem f inside same o o_in =
    view-stores is sp (λ a. if a == u64 (sp + p) then v else mem a) (λ q. if q == p then v else f q)
      inside.1
      (λ q q_in. elim (Bool-cases (q == p)) [
        | inl at ↦ let hit = same_offset sp q p q_in inside.0 ∙ at in rw (hit, at) refl
        | inr away ↦
            let miss = same_offset sp q p q_in inside.0 ∙ away in rw (miss, away) (same q q_in)
      ])
      o o_in

-- An address is outside the frame.
abbrev pub Outside : ℕ → ℕ → Type 0
Outside sp a = (o : ℕ) → o < 288 → a ≢ u64 (sp + o)

pub stores-Outside :
    (is : List (ℕ × ℕ)) (sp : ℕ) (mem : ℕ → ℕ) (a : ℕ)
    → Inside is
    → Outside sp a
    → stores is sp mem a ≡ mem a
unfolding stores
stores-Outside [] sp mem a inside out = refl
stores-Outside ((p, v) ∷ is) sp mem a inside out =
    let miss : (a == u64 (sp + p)) ≡ false = let ne = out p inside.0 in ground arith in
    stores-Outside is sp (λ b. if b == u64 (sp + p) then v else mem b) a inside.1 out ∙ rw miss refl

-- Only the offsets of the frame count.
abbrev pub trim : (ℕ → ℕ) → ℕ → ℕ
trim at o = if ltb o 288 then at o else 0

pub trim-same : (at by : ℕ → ℕ) → ((o : ℕ) → o < 288 → at o ≡ by o) → trim at ≡ trim by
trim-same at by same = fun_ext (λ o. elim (Bool-cases (ltb o 288)) [
  | inl low ↦ rw low (same o (ground arith))
  | inr high ↦ rw high refl
])
