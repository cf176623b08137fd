-- ===== src/Console.antt =====
-- kernel/console.c: the input of the console. cons.lock is held from the entry of a function, or the return of its
-- `sleep`, to its exit or its next `sleep`: such a run is one function here. What is echoed is a list of
-- the arguments of consputc; readers are woken where `w` is set. `buf` has `char`s, which are unsigned. The
-- count of a read is not negative. `copyout` says whether the copy of a byte to the caller succeeds.
pub mod Window
pub mod Lines
mod Tests
use kali.Prelude.{
  ℕ, zero, suc, ◌+◌, ◌-◌, ◌%◌, ◌^◌, Bool, true, false, not, ◌&&◌, ◌||◌, List, [], ◌∷◌, ◌==◌, ltb,
  if◌then◌else◌, update, ℤ, pos, negsuc,
}

abbrev pub input_buf_size : ℕ
input_buf_size = 128

abbrev pub backspace : ℕ
backspace = 0x100

-- `cons`, less its spinlock.
pub record Cons : Type 0 where
  pub buf : ℕ → ℕ
  pub r : ℕ
  pub w : ℕ
  pub e : ℕ

-- Steps of a `uint`, and the difference of two.
abbrev pub next : ℕ → ℕ
next i = (i + 1) % 2 ^ 32

abbrev pub prev : ℕ → ℕ
prev i = (i + (2 ^ 32 - 1)) % 2 ^ 32

abbrev pub distance : (to from : ℕ) → ℕ
distance to from = (to + (2 ^ 32 - from)) % 2 ^ 32

-- `cons.e--`
abbrev pub erase : Cons → Cons
erase c = record c { e = prev c.e }

-- The loop of control-U; at most the whole buffer is edited.
pub kill_line : (fuel : ℕ) → Cons → List ℕ × Cons
kill_line zero c = ([], c)
kill_line (suc fuel) c =
    let (echo, c') = kill_line fuel (erase c) in
    if not (c.e == c.w) && not (c.buf (prev c.e % input_buf_size) == 10)
    then (backspace ∷ echo, c')
    else ([], c)

-- `cons.buf[cons.e++ % INPUT_BUF_SIZE] = c`
abbrev pub append : Cons → (ch : ℕ) → Cons
append c ch = record c { buf = update c.buf (c.e % input_buf_size) (ch % 2 ^ 8); e = next c.e }

-- `cons.w = cons.e` where a line or the end of the input is there or the buffer is full.
abbrev pub commit_line : (ch : ℕ) → Cons → Cons
commit_line ch c =
    if ch == 10 || ch == 4 || distance c.e c.r == input_buf_size then record c { w = c.e } else c

abbrev pub newline : ℕ → ℕ
newline ch = if ch == 13 then 10 else ch

-- The default case.
pub take_char : (ch : ℕ) → Cons → List ℕ × Cons
take_char ch c =
    if not (ch == 0) && ltb (distance c.e c.r) input_buf_size
    then (newline ch ∷ [], commit_line (newline ch) (append c (newline ch)))
    else ([], c)

-- What is echoed, and the buffer; control-P prints the processes.
pub consoleintr : (ch : ℕ) → Cons → List ℕ × Cons
unfolding kill_line take_char
consoleintr ch c =
    if ch == 16
    then ([], c)
    else if ch == 21
    then kill_line input_buf_size c
    else if ch == 8 || ch == 127
    then if not (c.e == c.w) then (backspace ∷ [], erase c) else ([], c)
    else take_char ch c

pub data Outcome : Type 0 where
  returns : ℤ → Outcome
  sleeps : (left : ℕ) → Outcome  -- with `left` bytes to go

-- A run of consoleread with `left` of `target` bytes to go: how it ends, the bytes it copied, and the buffer.
pub consoleread :
    (copyout : ℕ → ℕ → Bool)
    → (killed : Bool) → (dst target left : ℕ) → Cons
    → Outcome × List ℕ × Cons
consoleread copyout killed dst target zero c = (returns (pos target), [], c)
consoleread copyout killed dst target (suc left) c =
    let ch = c.buf (c.r % input_buf_size) in
    let taken = record c { r = next c.r } in
    let (o, cs, c') = consoleread copyout killed (dst + 1) target left taken in
    let done : Outcome = returns (pos (target - suc left)) in
    if c.r == c.w
    then (if killed then returns (negsuc 0) else sleeps (suc left), [], c)
    else if ch == 4
    then (done, [], if ltb (suc left) target then c else taken)
    else if not (copyout dst ch)
    then (done, [], taken)
    else if ch == 10
    then (returns (pos (target - left)), ch ∷ [], taken)
    else (o, ch ∷ cs, c')
