-- ===== src/Drivers/Uart/Send.antt =====
-- What a routine prints: the bytes that go over the wire, and how routines follow each other.
use mathlib.Core.List.{append_assoc, append-nil, map-append}
use qemu_risc_core.Prelude.{
  ℕ, ◌+◌, ◌^◌, ◌%◌, ◌≤◌, ◌≡◌, refl, sym, ap, ◌∙◌, Option, none, some, List, [], ◌∷◌, ◌++◌, map,
  arith, length, length-append, ◌==◌, if◌then◌else◌, Bool-cases, inl, inr, ◌>>=◌,
}
use qemu_risc_core.Drivers.Uart.{Uart, reg, rbr_thr_dll, putc_raw, putc, put_chars, puts}
use qemu_risc_core.Drivers.Uart.Wait.{ready, Sends, putc_raw-Sends}

-- The bytes of a text on the wire: a carriage return goes before each line feed.
abbrev pub wire : List ℕ → List ℕ
wire [] = []
wire (c ∷ cs) = if c == b'\n' then b'\r' ∷ b'\n' ∷ wire cs else c ∷ wire cs

pub wire-append : (xs ys : List ℕ) → wire (xs ++ ys) ≡ wire xs ++ wire ys
wire-append [] ys = refl
wire-append (c ∷ xs) ys = elim (Bool-cases (c == b'\n')) [
  | inl line ↦ rw (line, wire-append xs ys) refl
  | inr other ↦ rw (other, wire-append xs ys) refl
]

pub Sends-nil : (u : Uart) → Sends u [] u
Sends-nil u = record { base = refl; writes = sym (append-nil u.writes); left = omega arith }

pub Sends-append :
    {u v w : Uart} {xs ys : List ℕ} → Sends u xs v → Sends v ys w → Sends u (xs ++ ys) w
Sends-append {u} {v} {w} {xs} {ys} s t = record {
  base = t.base ∙ s.base;
  writes =
      t.writes
      ∙ ap (λ (b : ℕ). v.writes ++ map (λ (c : ℕ). ((b + 0) % 2 ^ 64, c)) ys) s.base
      ∙ ap (λ ws. ws ++ map (λ (c : ℕ). (reg rbr_thr_dll u, c)) ys) s.writes
      ∙ append_assoc u.writes (map (λ (c : ℕ). (reg rbr_thr_dll u, c)) xs)
          (map (λ (c : ℕ). (reg rbr_thr_dll u, c)) ys)
      ∙ ap (λ ws. u.writes ++ ws) (sym (map-append (λ (c : ℕ). (reg rbr_thr_dll u, c)) xs ys));
  left = omega (arith, s.left, t.left, length-append xs ys);
}

-- If the device says often enough that the transmitter is empty, the routine returns, and has
-- sent the text.
abbrev pub Prints : (Uart → Option Uart) → List ℕ → Type 0
Prints f text =
    (u : Uart) → length (wire text) ≤ ready u → (v : Uart) × (f u ≡ some v) × Sends u (wire text) v

pub Prints-nil : Prints some []
Prints-nil u enough = (u, refl, Sends-nil u)

pub Prints-append :
    (f g : Uart → Option Uart) (xs ys : List ℕ)
    → Prints f xs
    → Prints g ys
    → Prints (λ u. f u >>= g) (xs ++ ys)
Prints-append f g xs ys pf pg u enough =
    let split = wire-append xs ys in
    let size = ap length split ∙ length-append (wire xs) (wire ys) in
    let (v, runs, s) = pf u (omega (arith, enough, size)) in
    let (w, runs', t) = pg v (omega (arith, enough, size, s.left)) in
    (w, rw (runs, runs') refl, rw split (Sends-append s t))

pub putc-Prints : (c : ℕ) → Prints (putc c) (c ∷ [])
unfolding putc
putc-Prints c u enough = elim (Bool-cases (c == b'\n')) [
  | inr other ↦
      let size : length (wire (c ∷ [])) ≡ 1 = rw other refl in
      let (v, runs, s) = putc_raw-Sends c u (omega (arith, enough, size)) in
      (v, rw (other, runs) refl, rw other s)
  | inl line ↦
      let size : length (wire (c ∷ [])) ≡ 2 = rw line refl in
      let c_is : c ≡ b'\n' = ground arith in
      let (v, runs, s) = putc_raw-Sends b'\r' u (omega (arith, enough, size)) in
      let (w, runs', t) = putc_raw-Sends b'\n' v (omega (arith, enough, size, s.left)) in
      (w, rw (line, runs) (ap (λ (x : ℕ). putc_raw x v) c_is ∙ runs'), rw line (Sends-append s t))
]

-- The characters before the NUL.
abbrev pub until_nul : List ℕ → List ℕ
until_nul [] = []
until_nul (c ∷ s) = if c == 0 then [] else c ∷ until_nul s

pub put_chars-Prints : (s : List ℕ) → Prints (put_chars s) (until_nul s)
unfolding put_chars
put_chars-Prints [] u = Prints-nil u
put_chars-Prints (c ∷ s) u = elim (Bool-cases (c == 0)) [
  | inl nul ↦ rw nul (Prints-nil u)
  | inr more ↦ rw more (
      Prints-append (putc c) (put_chars s) (c ∷ []) (until_nul s) (putc-Prints c)
        (put_chars-Prints s) u)
]

-- If the device says often enough that the transmitter is empty, `puts` of a text returns, and has
-- written the characters before the first NUL to the transmitter, in order, with a carriage return
-- before each line feed, and nothing else; one of those reads of the status went before each byte.
pub puts-Prints : (s : List ℕ) → Prints (puts (some s)) (until_nul s)
unfolding puts
puts-Prints s = put_chars-Prints s

pub puts-null : (u : Uart) → puts none u ≡ some u
unfolding puts
puts-null u = refl
