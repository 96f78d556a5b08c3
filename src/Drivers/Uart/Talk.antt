-- ===== src/Drivers/Uart/Talk.antt =====
-- How long a routine may have to wait: bounds on the bytes that it sends.
use qemu_risc_core.Prelude.{
  ℕ, ◌+◌, ◌*◌, ◌^◌, ◌≤◌, ◌<◌, ◌≡◌, refl, ◌∙◌, Option, some, List, [], ◌∷◌, arith, length, ◌>>=◌,
}
use qemu_risc_core.Drivers.Uart.{Uart, puts, putc, put_hex, put_dec}
use qemu_risc_core.Drivers.Uart.Wait.{ready}
use qemu_risc_core.Drivers.Uart.Send.{wire, Prints, until_nul, putc-Prints, puts-Prints}
use qemu_risc_core.Drivers.Uart.Hex.{put_hex-read_hex}
use qemu_risc_core.Drivers.Uart.Decimal.{put_dec-read_dec}

-- The routine returns if the device is seen ready `n` more times, and uses up at most `n` of them.
abbrev pub Talks : (Uart → Option Uart) → ℕ → Type 0
Talks f n =
    (u : Uart)
    → n ≤ ready u
    → (v : Uart) × (f u ≡ some v) × (v.base ≡ u.base) × (ready u ≤ ready v + n)

length-wire-le : (xs : List ℕ) → length (wire xs) ≤ 2 * length xs
length-wire-le [] = omega arith
length-wire-le (c ∷ xs) = ground (arith, length-wire-le xs)

pub Prints-Talks :
    (f : Uart → Option Uart) (text : List ℕ) (n : ℕ)
    → Prints f text
    → 2 * length text ≤ n
    → Talks f n
Prints-Talks f text n prints small u enough =
    let size = length-wire-le text in
    let (v, runs, s) = prints u (omega (arith, size, small, enough)) in
    (v, runs, s.base, omega (arith, s.left, size, small))

pub Talks-append :
    (f g : Uart → Option Uart) (m n : ℕ) → Talks f m → Talks g n → Talks (λ u. f u >>= g) (m + n)
Talks-append f g m n tf tg u enough =
    let (v, runs, base, left) = tf u (omega (arith, enough)) in
    let (w, runs', base', left') = tg v (omega (arith, enough, left)) in
    (w, rw (runs, runs') refl, base' ∙ base, omega (arith, left, left'))

pub Talks-le : (f : Uart → Option Uart) (m n : ℕ) → m ≤ n → Talks f m → Talks f n
Talks-le f m n le t u enough =
    let (v, runs, base, left) = t u (omega (arith, le, enough)) in
    (v, runs, base, omega (arith, left, le))

until_nul-le : (s : List ℕ) → length (until_nul s) ≤ length s
until_nul-le [] = omega arith
until_nul-le (c ∷ s) = ground (arith, until_nul-le s)

pub puts-Talks : (s : List ℕ) (n : ℕ) → 2 * length s ≤ n → Talks (puts (some s)) n
puts-Talks s n le =
    Prints-Talks (puts (some s)) (until_nul s) n (puts-Prints s) (omega (arith, until_nul-le s, le))

pub putc-Talks : (c : ℕ) → Talks (putc c) 2
putc-Talks c = Prints-Talks (putc c) (c ∷ []) 2 (putc-Prints c) (omega arith)

pub put_hex-Talks : (v : ℕ) → v < 2 ^ 64 → Talks (put_hex v) 36
put_hex-Talks v fits =
    let (text, prints, size, reads, hex) = put_hex-read_hex v fits in
    Prints-Talks (put_hex v) (b'0' ∷ b'x' ∷ text) 36 prints (omega (arith, size))

pub put_dec-Talks : (v : ℕ) → v < 2 ^ 64 → Talks (put_dec v) 40
put_dec-Talks v fits =
    let (text, prints, size, reads, decimal, leads) = put_dec-read_dec v fits in
    Prints-Talks (put_dec v) text 40 prints (omega (arith, size))
