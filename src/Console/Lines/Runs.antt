-- ===== src/Console/Lines/Runs.antt =====
-- kernel/console.c: keys and reads in any order, as uartintr and the callers of consoleread make them.
use kali.Prelude.{ℕ, ◌<◌, ◌^◌, Bool, List, [], ◌∷◌}
use kali.Console.{Cons, Outcome, consoleintr, consoleread}
use kali.Console.Lines.{Lines, key, line_read}
use kali.Console.Lines.Ring.{lines_of}

-- An interrupt for a byte that the UART has received, or a run of a read.
pub data Event : Type 0 where
  types : (ch : ℕ) → ch < 2 ^ 8 → Event
  reads : (copyout : ℕ → ℕ → Bool) (killed : Bool) (dst target left : ℕ) → Event

-- What is echoed, or how a run of a read ends and the bytes that it gets.
pub data Answer : Type 0 where
  echoes : List ℕ → Answer
  gets : Outcome → List ℕ → Answer

abbrev pub at_boot : (buf : ℕ → ℕ) → Cons
at_boot buf = record { buf = buf; r = 0; w = 0; e = 0 }

abbrev pub no_lines : Lines
no_lines = record { ready = []; edited = [] }

-- The events on the ring of the console.
abbrev step : Event → Cons → Answer × Cons
step (types ch is_byte) c = let (echo, d) = consoleintr ch c in (echoes echo, d)
step (reads copyout killed dst target left) c =
    let (o, cs, d) = consoleread copyout killed dst target left c in (gets o cs, d)

-- The events on the two lists.
abbrev line_step : Event → Lines → Answer × Lines
line_step (types ch is_byte) l = let (echo, m) = key ch l in (echoes echo, m)
line_step (reads copyout killed dst target left) l =
    let (o, cs, rest) = line_read copyout killed dst target left l.ready in
    (gets o cs, record { ready = rest; edited = l.edited })

abbrev pub run : List Event → Cons → List Answer × Cons
run [] c = ([], c)
run (event ∷ events) c =
    let (answer, d) = step event c in let (answers, last) = run events d in (answer ∷ answers, last)

abbrev pub line_run : List Event → Lines → List Answer × Lines
line_run [] l = ([], l)
line_run (event ∷ events) l =
    let (answer, m) = line_step event l in
    let (answers, last) = line_run events m in (answer ∷ answers, last)

-- The answers, and the lines of the buffer.
abbrev pub answered : {A : Type 0} → A × Cons → A × Lines
answered (a, c) = (a, lines_of c)
