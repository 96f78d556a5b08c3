-- ===== src/Drivers/Uart.antt =====
-- drivers/uart/uart.cpp and uart.h: the driver of the serial port. A register is read and written
-- at its address; the device is the bytes that the reads of each address will give, and the writes
-- so far. A character is its byte. `none` stands for polling that has not ended after the reads
-- given, or an access beyond an array.
pub mod Wait
pub mod Send
pub mod Hex
pub mod Decimal
pub mod Talk
mod Tests
use qemu_risc_core.Prelude.{
  ℕ, zero, suc, ◌+◌, ◌*◌, ◌/◌, ◌%◌, bit_and, Bool, not, Option, none, some, List, [], ◌∷◌, ◌++◌,
  length, get_elem?, set, replicate, ltb, ◌==◌, if◌then◌else◌, u64, codes, ◌>>=◌, ◌>>>◌,
}
use qemu_risc_core.Platform.Memmap

abbrev pub lcr_8n1 : ℕ
lcr_8n1 = 0x03

abbrev pub fcr_enable_fifo : ℕ
fcr_enable_fifo = 0x01

abbrev pub fcr_clear_rx_tx : ℕ
fcr_clear_rx_tx = 0x06

abbrev pub lsr_thr_empty : ℕ
lsr_thr_empty = 0x20

pub data Reg : Type 0 where
  rbr_thr_dll ier_dlm fcr_iir lcr mcr lsr : Reg

abbrev pub reg_offset : Reg → ℕ
reg_offset rbr_thr_dll = 0x00
reg_offset ier_dlm = 0x01
reg_offset fcr_iir = 0x02
reg_offset lcr = 0x03
reg_offset mcr = 0x04
reg_offset lsr = 0x05

-- `inputs a` are the bytes that the next reads of the address `a` give; `writes` are the writes,
-- the address first.
pub record Uart : Type 0 where
  pub base : ℕ
  pub inputs : ℕ → List ℕ
  pub writes : List (ℕ × ℕ)

-- The serial port of the board, with the bytes that its reads will give.
abbrev pub g_uart0 : (ℕ → List ℕ) → Uart
g_uart0 inputs = record { base = Memmap.uart0.base; inputs = inputs; writes = [] }

unfoldable pub init : Uart → Uart
init u = u

abbrev pub reg : Reg → Uart → ℕ
reg r u = u64 (u.base + reg_offset r)

pub write_reg : Reg → ℕ → Uart → Uart
write_reg r value u = record u { writes = u.writes ++ (reg r u, value) ∷ [] }

abbrev pub with_input : ℕ → List ℕ → Uart → Uart
with_input a rest u = record u { inputs = λ (b : ℕ). if b == a then rest else u.inputs b }

read_from : List ℕ → ℕ → Uart → Option (Uart × ℕ)
read_from [] a u = none
read_from (value ∷ rest) a u = some (with_input a rest u, value)

pub read_reg : Reg → Uart → Option (Uart × ℕ)
unfolding read_from
read_reg r u = read_from (u.inputs (reg r u)) (reg r u) u

-- The polling, for the rounds that the reads given allow.
pub wait_from : ℕ → Uart → Option Uart
wait_from zero u = none
wait_from (suc rounds) u = do
  (v, status) ← read_reg lsr u
  let again = wait_from rounds v
  if bit_and status lsr_thr_empty == 0 then again else some v

pub wait_tx_ready : Uart → Option Uart
wait_tx_ready u = wait_from (length (u.inputs (reg lsr u))) u

pub putc_raw : ℕ → Uart → Option Uart
putc_raw ch u = do v ← wait_tx_ready u; some (write_reg rbr_thr_dll ch v)

pub putc : ℕ → Uart → Option Uart
putc ch u = do v ← (if ch == b'\n' then putc_raw b'\r' u else some u); putc_raw ch v

-- The characters up to the NUL, or all of them.
pub put_chars : List ℕ → Uart → Option Uart
put_chars [] u = some u
put_chars (c ∷ s) u = do let go = (do v ← putc c u; put_chars s v); if c == 0 then some u else go

-- `none` is a null pointer.
pub puts : Option (List ℕ) → Uart → Option Uart
puts none u = some u
puts (some s) u = put_chars s u

abbrev pub hex_chars : List ℕ
hex_chars = codes "0123456789abcdef"

-- The rounds left; the shift of the next is four times one less.
pub hex_from : ℕ → ℕ → Uart → Option Uart
hex_from zero value u = some u
hex_from (suc rounds) value u = do
  let nibble = bit_and (value >>> (4 * rounds)) 0xf
  ch ← get_elem? hex_chars nibble
  v ← putc ch u
  hex_from rounds value v

pub put_hex : ℕ → Uart → Option Uart
put_hex value u = do v ← putc b'0' u; w ← putc b'x' v; hex_from 16 value w

-- A write into the buffer of `put_dec`.
abbrev pub write_buf : List ℕ → ℕ → ℕ → Option (List ℕ)
write_buf buf i ch = if ltb i (length buf) then some (set buf i ch) else none

-- The digits from the last to the first, on fuel.
pub fill : ℕ → ℕ → List ℕ → ℕ → Option (List ℕ × ℕ)
fill zero value buf i = none
fill (suc fuel) value buf i =
    let go = (do buf' ← write_buf buf i (b'0' + value % 10); fill fuel (value / 10) buf' (i + 1)) in
    if ltb 0 value then go else some (buf, i)

pub drain : ℕ → List ℕ → Uart → Option Uart
drain zero buf u = some u
drain (suc i) buf u = do ch ← get_elem? buf i; v ← putc ch u; drain i buf v

-- One round for each place of the buffer, and the last test.
abbrev pub put_dec_fuel : ℕ
put_dec_fuel = 21

pub put_dec : ℕ → Uart → Option Uart
put_dec value u =
    if value == 0
    then putc b'0' u
    else do (buf, i) ← fill put_dec_fuel value (replicate 20 0) 0; drain i buf u
