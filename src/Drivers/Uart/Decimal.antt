-- ===== src/Drivers/Uart/Decimal.antt =====
-- `put_dec`: the digits in its buffer, the text that it prints, and how it reads back.
use native.Mathlib.Nat.{pow-suc}
use qemu_risc_core.Prelude.{
  ℕ, zero, suc, ◌+◌, ◌-◌, ◌*◌, ◌/◌, ◌%◌, ◌^◌, ◌≤◌, ◌<◌, ◌≡◌, refl, sym, ap, ◌∙◌, true, false,
  Option, some, List, [], ◌∷◌, arith, length, get_elem?, set, length-set, get_elem?-set_self,
  get_elem?-set_ne, replicate, ltb, ◌==◌, Bool-cases, inl, inr, ◌⊎◌, All,
}
use qemu_risc_core.Drivers.Uart.{putc, fill, drain, put_dec}
use qemu_risc_core.Drivers.Uart.Send.{Prints, Prints-nil, Prints-append, putc-Prints}

abbrev pub IsDigit : ℕ → Type 0
IsDigit c = (b'0' ≤ c) × (c ≤ b'9')

-- The first digit is not 0.
abbrev pub Leading : List ℕ → Type 0
Leading [] = ⊥
Leading (c ∷ cs) = b'0' < c

-- The value of digits behind a number already read.
abbrev pub read_dec : ℕ → List ℕ → ℕ
read_dec acc [] = acc
read_dec acc (c ∷ cs) = read_dec (acc * 10 + (c - b'0')) cs

-- The places below the length hold the digits, the last pushed at the top.
abbrev Holds : List ℕ → List ℕ → Type 0
Holds buf [] = Unit {0}
Holds buf (c ∷ cs) = (get_elem? buf (length cs) ≡ some c) × Holds buf cs

Holds-set : (buf cs : List ℕ) (i v : ℕ) → length cs ≤ i → Holds buf cs → Holds (set buf i v) cs
Holds-set buf [] i v le h = tt
Holds-set buf (c ∷ cs) i v le h =
    (get_elem?-set_ne buf v (omega arith) ∙ h.0, Holds-set buf cs i v (omega arith) h.1)

-- What `drain` prints is what the buffer holds.
drain-Prints : (buf cs : List ℕ) → Holds buf cs → Prints (drain (length cs) buf) cs
unfolding drain
drain-Prints buf [] h u = Prints-nil u
drain-Prints buf (c ∷ cs) h u = rw h.0 (
    Prints-append (putc c) (drain (length cs) buf) (c ∷ []) cs (putc-Prints c)
      (drain-Prints buf cs h.1) u)

-- What `fill` comes to: the digits are in front of those that the buffer held.
record Filled (value : ℕ) (cs buf : List ℕ) (result : Option (List ℕ × ℕ)) : Type 0 where
  out : List ℕ
  digits : List ℕ
  runs : result ≡ some (out, length digits)
  holds : Holds out digits
  reads : read_dec 0 digits ≡ read_dec value cs
  size : length digits ≤ 20
  are_digits : All IsDigit cs → All IsDigit digits
  leads : (0 < value) ⊎ Leading cs → Leading digits

fill_push :
    (fuel value : ℕ) (buf cs : List ℕ)
    → 0 < value
    → length buf ≡ 20
    → length cs < 20
    → fill (suc fuel) value buf (length cs)
      ≡ fill fuel (value / 10) (set buf (length cs) (b'0' + value % 10)) (length cs + 1)
unfolding fill
fill_push fuel value buf cs pos full room =
    let go : ltb 0 value ≡ true = ground arith in
    let inside : ltb (length cs) (length buf) ≡ true = ground arith in rw (go, inside) refl

fill_stop :
    (fuel value : ℕ) (buf : List ℕ) (i : ℕ)
    → ltb 0 value ≡ false
    → fill (suc fuel) value buf i ≡ some (buf, i)
unfolding fill
fill_stop fuel value buf i stop = rw stop refl

Filled-stop :
    (n value : ℕ) (buf cs : List ℕ)
    → ltb 0 value ≡ false
    → length cs ≤ 20
    → Holds buf cs
    → Filled value cs buf (fill (suc n) value buf (length cs))
Filled-stop n value buf cs stop room holds =
    let none_left : value ≡ 0 = ground arith in
    record {
      out = buf;
      digits = cs;
      runs = fill_stop n value buf (length cs) stop;
      holds = holds;
      reads = ap (λ (x : ℕ). read_dec x cs) (sym none_left);
      size = room;
      are_digits = λ d. d;
      leads = λ either. elim either [ inl pos ↦ absurd (ground arith) | inr front ↦ front ];
    }

-- `n` more digits are enough for the value, and there is room for them.
fill-Filled :
    (n value : ℕ) (buf cs : List ℕ)
    → value < 10 ^ n
    → length buf ≡ 20
    → length cs + n ≤ 20
    → Holds buf cs
    → Filled value cs buf (fill (suc n) value buf (length cs))
fill-Filled zero value buf cs small full room holds =
    Filled-stop zero value buf cs (ground arith) (omega arith) holds
fill-Filled (suc n) value buf cs small full room holds = elim (Bool-cases (ltb 0 value)) [
  | inr stop ↦ Filled-stop (suc n) value buf cs stop (omega arith) holds
  | inl go ↦
      let digit : ℕ = b'0' + value % 10 in
      let pos : 0 < value = ground arith in
      let inside : length cs < length buf = omega (arith, full, room) in
      let ih =
        fill-Filled n (value / 10) (set buf (length cs) digit) (digit ∷ cs)
          (omega (arith, small, pow-suc 10 n)) (length-set buf (length cs) digit ∙ full)
          (omega (arith, room))
          (
            get_elem?-set_self buf (length cs) digit inside,
            Holds-set buf cs (length cs) digit (omega arith) holds,
          ) in
      let next : length cs + 1 ≡ suc (length cs) = omega arith in
      let last : value / 10 * 10 + (digit - b'0') ≡ value = omega arith in
      record {
        out = ih.out;
        digits = ih.digits;
        runs =
            fill_push (suc n) value buf cs pos full (omega (arith, room))
            ∙ ap (λ (i : ℕ). fill (suc n) (value / 10) (set buf (length cs) digit) i) next
            ∙ ih.runs;
        holds = ih.holds;
        reads = ih.reads ∙ ap (λ (x : ℕ). read_dec x cs) last;
        size = ih.size;
        are_digits = λ d. ih.are_digits ((omega arith, omega arith), d);
        leads = λ either. ih.leads (elim (Bool-cases (ltb 0 (value / 10))) [
          | inl more ↦ inl (ground arith)
          | inr last_one ↦ inr (ground (arith, pos))
        ]);
      }
]

-- For a 64-bit value `put_dec` prints at most twenty bytes, for which its buffer has room; they are
-- digits from 0 to 9, the first is not 0 unless it is the only one, and they read back as the value.
pub put_dec-read_dec :
    (v : ℕ)
    → v < 2 ^ 64
    → (text : List ℕ) × Prints (put_dec v) text
      × (length text ≤ 20)
      × (read_dec 0 text ≡ v)
      × All IsDigit text
      × ((text ≡ b'0' ∷ []) ⊎ Leading text)
unfolding put_dec
put_dec-read_dec v fits = elim (Bool-cases (v == 0)) [
  | inl null ↦
      let v_null : v ≡ 0 = ground arith in
      (
        b'0' ∷ [],
        λ u. rw null (putc-Prints b'0' u),
        omega arith,
        omega (arith, v_null),
        ((omega arith, omega arith), tt),
        inl refl,
      )
  | inr some_v ↦
      let f = fill-Filled 20 v (replicate 20 0) [] (omega arith) refl (omega arith) tt in
      (
        f.digits,
        λ u. rw (some_v, f.runs) (drain-Prints f.out f.digits f.holds u),
        f.size,
        f.reads,
        f.are_digits tt,
        inr (f.leads (inl (ground arith))),
      )
]
