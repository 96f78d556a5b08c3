-- ===== src/Drivers/Uart/Hex.antt =====
-- `put_hex`: the text that it prints, and how it reads back.
use native.Mathlib.Nat.{div-div-eq-div-mul, pow-suc}
use qemu_risc_core.Prelude.{
  ℕ, zero, suc, ◌+◌, ◌-◌, ◌*◌, ◌/◌, ◌%◌, ◌^◌, ◌<◌, ◌≡◌, refl, sym, ap, ◌∙◌, Bool, true, ◌&&◌, some,
  List, [], ◌∷◌, arith, length, get_elem?, get_or, ltb, leb, ◌||◌, All, ◌==◌, ==_iff, if◌then◌else◌,
  Bool-cases, inl, inr, ◌>>=◌,
}
use qemu_risc_core.Prelude.Bits.{bit_and-low_mask}
use qemu_risc_core.Drivers.Uart.{hex_chars, putc, hex_from, put_hex}
use qemu_risc_core.Drivers.Uart.Send.{Prints, Prints-nil, Prints-append, putc-Prints}

-- The characters from 0 to 9 and from a to f.
abbrev pub is_hex_digit : ℕ → Bool
is_hex_digit c = (leb b'0' c && leb c b'9') || (leb b'a' c && leb c b'f')

abbrev pub IsHexDigit : ℕ → Type 0
IsHexDigit c = is_hex_digit c ≡ true

-- The value of a digit, and of digits behind a number already read.
abbrev pub hex_digit : ℕ → ℕ
hex_digit c = if ltb b'9' c then c - b'a' + 10 else c - b'0'

abbrev pub read_hex : ℕ → List ℕ → ℕ
read_hex acc [] = acc
read_hex acc (c ∷ cs) = read_hex (acc * 16 + hex_digit c) cs

abbrev hex_char : ℕ → ℕ
hex_char d = get_or hex_chars d 0

hex_text : ℕ → ℕ → List ℕ
hex_text zero v = []
hex_text (suc n) v = hex_char (v / 2 ^ (4 * n) % 16) ∷ hex_text n v

all_below : ℕ → (ℕ → Bool) → Bool
all_below zero p = true
all_below (suc n) p = p n && all_below n p

all_below-lt : (n : ℕ) (p : ℕ → Bool) (x : ℕ) → all_below n p ≡ true → x < n → p x ≡ true
unfolding all_below
all_below-lt zero p x all lt = absurd (omega arith)
all_below-lt (suc n) p x all lt = elim (Bool-cases (x == n)) [
  | inl at ↦ let e : x ≡ n = ground arith in rw e (ground arith)
  | inr below ↦ all_below-lt n p x (ground arith) (ground arith)
]

-- A digit is in the table, and has its value.
hex_digit-hex_char : (d : ℕ) → d < 16 → hex_digit (hex_char d) ≡ d
unfolding all_below
hex_digit-hex_char d lt =
    (==_iff (hex_digit (hex_char d)) d).0
      (all_below-lt 16 (λ x. hex_digit (hex_char x) == x) d refl lt)

hex_char-IsHexDigit : (d : ℕ) → d < 16 → IsHexDigit (hex_char d)
unfolding all_below
hex_char-IsHexDigit d lt = all_below-lt 16 (λ x. is_hex_digit (hex_char x)) d refl lt

hex_text-IsHexDigit : (n v : ℕ) → All IsHexDigit (hex_text n v)
unfolding hex_text
hex_text-IsHexDigit zero v = tt
hex_text-IsHexDigit (suc n) v =
    (hex_char-IsHexDigit (v / 2 ^ (4 * n) % 16) (omega arith), hex_text-IsHexDigit n v)

get_elem?-get_or : (xs : List ℕ) (i : ℕ) → i < length xs → get_elem? xs i ≡ some (get_or xs i 0)
get_elem?-get_or [] i lt = absurd (omega arith)
get_elem?-get_or (x ∷ xs) zero lt = refl
get_elem?-get_or (x ∷ xs) (suc i) lt = get_elem?-get_or xs i (omega arith)

hex_from-Prints : (n v : ℕ) → Prints (hex_from n v) (hex_text n v)
unfolding hex_from hex_text
hex_from-Prints zero v u = Prints-nil u
hex_from-Prints (suc n) v u =
    let d : ℕ = v / 2 ^ (4 * n) % 16 in
    let known : get_elem? hex_chars d ≡ some (hex_char d) =
      get_elem?-get_or hex_chars d (omega arith) in
    rw (bit_and-low_mask 4 (v / 2 ^ (4 * n)), known)
      (Prints-append (putc (hex_char d)) (hex_from n v) (hex_char d ∷ []) (hex_text n v)
        (putc-Prints (hex_char d)) (hex_from-Prints n v) u)

length-hex_text : (n v : ℕ) → length (hex_text n v) ≡ n
unfolding hex_text
length-hex_text zero v = refl
length-hex_text (suc n) v = ap suc (length-hex_text n v)

two-pow-four : (n : ℕ) → 2 ^ (4 * suc n) ≡ 2 ^ (4 * n) * 16
two-pow-four n =
    let k : ℕ = 4 * n in
    let four : 4 * suc n ≡ suc (suc (suc (suc k))) = omega arith in
    ap (λ (e : ℕ). 2 ^ e) four
    ∙ omega (
      arith,
      pow-suc 2 k,
      pow-suc 2 (suc k),
      pow-suc 2 (suc (suc k)),
      pow-suc 2 (suc (suc (suc k))),
    )

quotient_step : (n v : ℕ) → v / 2 ^ (4 * suc n) ≡ v / 2 ^ (4 * n) / 16
quotient_step n v =
    ap (λ (d : ℕ). v / d) (two-pow-four n) ∙ sym (div-div-eq-div-mul v (2 ^ (4 * n)) 16)

-- The digits before have been read.
read_hex-hex_text : (n v : ℕ) → read_hex (v / 2 ^ (4 * n)) (hex_text n v) ≡ v
unfolding hex_text
read_hex-hex_text zero v = omega arith
read_hex-hex_text (suc n) v =
    let q : ℕ = v / 2 ^ (4 * n) in
    let step : v / 2 ^ (4 * suc n) * 16 + hex_digit (hex_char (q % 16)) ≡ q =
      omega (arith, quotient_step n v, hex_digit-hex_char (q % 16) (omega arith)) in
    ap (λ (x : ℕ). read_hex x (hex_text n v)) step ∙ read_hex-hex_text n v

-- For a 64-bit value `put_hex` prints `0x` and sixteen digits from 0 to 9 and from a to f, which read
-- back as the value.
pub put_hex-read_hex :
    (v : ℕ)
    → v < 2 ^ 64
    → (text : List ℕ) × Prints (put_hex v) (b'0' ∷ b'x' ∷ text)
      × (length text ≡ 16)
      × (read_hex 0 text ≡ v)
      × All IsHexDigit text
unfolding put_hex
put_hex-read_hex v fits =
    let none_before : v / 2 ^ 64 ≡ 0 = omega arith in
    (
      hex_text 16 v,
      Prints-append (putc b'0') (λ u. putc b'x' u >>= hex_from 16 v) (b'0' ∷ [])
          (b'x' ∷ hex_text 16 v) (putc-Prints b'0')
          (Prints-append (putc b'x') (hex_from 16 v) (b'x' ∷ []) (hex_text 16 v) (putc-Prints b'x')
            (hex_from-Prints 16 v)),
      length-hex_text 16 v,
      ap (λ (x : ℕ). read_hex x (hex_text 16 v)) (sym none_before) ∙ read_hex-hex_text 16 v,
      hex_text-IsHexDigit 16 v,
    )
