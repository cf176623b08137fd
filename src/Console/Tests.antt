-- ===== src/Console/Tests.antt =====
-- kernel/console.c: "ab", a backspace and a newline, a read, and "c".
use kali.Prelude.{◌≡◌, refl, true, false, [], ◌∷◌, List, pos, arith}
use kali.Console.{consoleintr, kill_line, take_char, consoleread, returns}
use kali.Console.Lines.Runs.{Event, types, reads, echoes, gets, at_boot, run}

abbrev session : List Event
session =
    types 97 (omega arith)
    ∷ types 98 (omega arith)
    ∷ types 127 (omega arith)
    ∷ types 13 (omega arith)
    ∷ reads (λ a ch. true) false 0 9 9
    ∷ types 99 (omega arith)
    ∷ []

-- The read gets "a" and the newline.
answers :
    (run session (at_boot (λ i. 0))).0
    ≡ echoes (97 ∷ [])
      ∷ echoes (98 ∷ [])
      ∷ echoes (256 ∷ [])
      ∷ echoes (10 ∷ [])
      ∷ gets (returns (pos 2)) (97 ∷ 10 ∷ [])
      ∷ echoes (99 ∷ [])
      ∷ []
unfolding consoleintr kill_line take_char consoleread
answers = refl
