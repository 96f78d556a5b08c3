-- ===== src/Drivers/Uart/Tests.antt =====
-- Runs and instances of the driver, with a device that is ready at every second read.
use qemu_risc_core.Prelude.{ℕ, ◌≤◌, ◌≡◌, some, List, [], ◌∷◌, arith, length, codes, ◌⊎◌, All}
use qemu_risc_core.Drivers.Uart.{Uart, puts, put_hex, put_dec}
use qemu_risc_core.Drivers.Uart.Wait.{Sends}
use qemu_risc_core.Drivers.Uart.Send.{Prints, puts-Prints}
use qemu_risc_core.Drivers.Uart.Hex.{IsHexDigit, read_hex, put_hex-read_hex}
use qemu_risc_core.Drivers.Uart.Decimal.{IsDigit, Leading, read_dec, put_dec-read_dec}

abbrev uart0 : Uart
uart0 = record {
  base = 0x1000_0000;
  inputs = λ a. 0 ∷ 0x60 ∷ 0 ∷ 0x60 ∷ 0x20 ∷ 0x60 ∷ [];
  writes = [];
}

puts-Prints_run :
    (v : Uart) × (puts (some (codes "a\n")) uart0 ≡ some v)
    × Sends uart0 (b'a' ∷ b'\r' ∷ b'\n' ∷ []) v
puts-Prints_run = puts-Prints (codes "a\n") uart0 (omega arith)

put_hex-read_hex_example :
    (text : List ℕ) × Prints (put_hex 0x8000_1000) (b'0' ∷ b'x' ∷ text)
    × (length text ≡ 16)
    × (read_hex 0 text ≡ 0x8000_1000)
    × All IsHexDigit text
put_hex-read_hex_example = put_hex-read_hex 0x8000_1000 (omega arith)

put_dec-read_dec_example :
    (text : List ℕ) × Prints (put_dec 1000_0000) text
    × (length text ≤ 20)
    × (read_dec 0 text ≡ 1000_0000)
    × All IsDigit text
    × ((text ≡ b'0' ∷ []) ⊎ Leading text)
put_dec-read_dec_example = put_dec-read_dec 1000_0000 (omega arith)
