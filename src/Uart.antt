-- ===== src/Uart.antt =====
-- kernel/uart.c: the transmit buffer. uart_tx_lock is held through each function up to its sleep. The
-- device is a number: how many reads of its status say that it is idle before one that says that it is
-- not; a process that finds the buffer full sleeps, `none`. `panicked` is not set.
pub mod Order
mod Tests
use kali.Prelude.{
  ℕ, zero, suc, ◌+◌, ◌%◌, ◌^◌, Option, none, some, List, [], ◌∷◌, ◌==◌, if◌then◌else◌, update,
}

abbrev pub uart_tx_buf_size : ℕ
uart_tx_buf_size = 32

pub record Uart : Type 0 where
  pub buf : ℕ → ℕ
  pub w : ℕ
  pub r : ℕ

-- `uint64` addition
abbrev pub add64 : ℕ → ℕ → ℕ
add64 a b = (a + b) % 2 ^ 64

-- The oldest character, and the buffer without it.
abbrev pub oldest : Uart → ℕ
oldest u = u.buf (u.r % uart_tx_buf_size)

abbrev pub advance : Uart → Uart
advance u = record u { r = add64 u.r 1 }

-- The buffer has `char`s.
abbrev pub enqueue : Uart → (c : ℕ) → Uart
enqueue u c = record u { buf = update u.buf (u.w % uart_tx_buf_size) (c % 2 ^ 8); w = add64 u.w 1 }

-- The characters that are written to the device, and the buffer.
unfoldable pub uartstart : (idle : ℕ) → Uart → List ℕ × Uart
uartstart zero u = ([], u)
uartstart (suc idle) u =
    let (sent, u') = uartstart idle (advance u) in
    if u.w == u.r then ([], u) else (oldest u ∷ sent, u')

unfoldable pub uartputc : (idle c : ℕ) → Uart → Option (List ℕ × Uart)
unfolding uartstart
uartputc idle c u =
    if u.w == add64 u.r uart_tx_buf_size then none else some (uartstart idle (enqueue u c))
