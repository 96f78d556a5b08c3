-- ===== src/Arch/Trap/Reports.antt =====
-- How long the reports of a trap may have to wait for the serial port.
use qemu_risc_core.Prelude.{
  ℕ, ◌+◌, ◌*◌, ◌^◌, ◌≤◌, ◌<◌, refl, Bool, true, false, Option, some, List, arith, length, codes,
  ◌>>=◌,
}
use qemu_risc_core.Drivers.Uart.{Uart, puts, putc, put_hex, put_dec}
use qemu_risc_core.Drivers.Uart.Talk.{
  Talks, Talks-append, puts-Talks, putc-Talks, put_hex-Talks, put_dec-Talks,
}
use qemu_risc_core.Arch.TrapFrame.{TrapFrame}
use qemu_risc_core.Arch.Trap.{exception_name, interrupt_name, print_line, print_value, report, when}

pub length-exception_name : (code : ℕ) → length (exception_name code) ≤ 22
unfolding exception_name
length-exception_name code = ground arith

pub length-interrupt_name : (code : ℕ) → length (interrupt_name code) ≤ 26
unfolding interrupt_name
length-interrupt_name code = ground arith

pub print_line-Talks :
    (head name : List ℕ) (m n : ℕ)
    → 2 * length head ≤ m
    → 2 * length name ≤ n
    → Talks (print_line head name) (m + (n + 2))
print_line-Talks head name m n head_fits name_fits =
    Talks-append (puts (some head)) (λ u. puts (some name) u >>= putc b'\n') m (n + 2)
      (puts-Talks head m head_fits)
      (Talks-append (puts (some name)) (putc b'\n') n 2 (puts-Talks name n name_fits)
        (putc-Talks b'\n'))

pub print_value-Talks :
    (name : List ℕ) (value : Uart → Option Uart) (m n : ℕ)
    → 2 * length name ≤ m
    → Talks value n
    → Talks (print_value name value) (m + (n + 2))
print_value-Talks name value m n fits talks =
    Talks-append (puts (some name)) (λ u. value u >>= putc b'\n') m (n + 2) (puts-Talks name m fits)
      (Talks-append value (putc b'\n') n 2 talks (putc-Talks b'\n'))

pub when-Talks : (test : Bool) (f : Uart → Option Uart) (n : ℕ) → Talks f n → Talks (when test f) n
when-Talks true f n talks u enough = talks u enough
when-Talks false f n talks u enough = (u, refl, refl, omega arith)

-- The five registers that a report shows are 64 bits wide.
pub record Fits (tf : TrapFrame) : Type 0 where
  pub mcause : tf.mcause < 2 ^ 64
  pub mepc : tf.mepc < 2 ^ 64
  pub mtval : tf.mtval < 2 ^ 64
  pub mstatus : tf.mstatus < 2 ^ 64
  pub mhartid : tf.mhartid < 2 ^ 64

pub report-Talks :
    (title : List ℕ) (tf : TrapFrame) (n : ℕ)
    → Fits tf
    → 2 * length title ≤ n
    → Talks (report title tf) (n + 276)
unfolding report
report-Talks title tf n fits small =
    Talks-append (puts (some title)) _ n 276 (puts-Talks title n small) (
      Talks-append _ _ 56 220
        (print_value-Talks (codes "mcause = ") (put_hex tf.mcause) 18 36 (omega arith)
          (put_hex-Talks tf.mcause fits.mcause))
        (Talks-append _ _ 52 168
          (print_value-Talks (codes "mepc = ") (put_hex tf.mepc) 14 36 (omega arith)
            (put_hex-Talks tf.mepc fits.mepc))
          (Talks-append _ _ 54 114
            (print_value-Talks (codes "mtval = ") (put_hex tf.mtval) 16 36 (omega arith)
              (put_hex-Talks tf.mtval fits.mtval))
            (Talks-append _ _ 58 56
              (print_value-Talks (codes "mstatus = ") (put_hex tf.mstatus) 20 36 (omega arith)
                (put_hex-Talks tf.mstatus fits.mstatus))
              (print_value-Talks (codes "hart = ") (put_dec tf.mhartid) 14 40 (omega arith)
                (put_dec-Talks tf.mhartid fits.mhartid))))))
