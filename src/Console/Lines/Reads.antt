-- ===== src/Console/Lines/Reads.antt =====
-- kernel/console.c: what a run of a read takes of the lines in the console's buffer.
use kali.Prelude.{
  ℕ, zero, suc, ◌+◌, ◌%◌, ◌≡◌, ◌≢◌, refl, ap, ◌∙◌, Bool, true, false, List, [], ◌∷◌, ◌==◌, ltb,
  arith, Bool-cases, inl, inr,
}
use kali.Console.{Cons, input_buf_size, next, distance, Outcome, consoleread}
use kali.Console.Window.{IsWindow, taken-IsWindow}
use kali.Console.Lines.{line_read}
use kali.Console.Lines.Ring.{forwards, forwards_first, lines_of}

-- How a read ends, its bytes, and what stays ready.
abbrev pub got : Outcome × List ℕ × Cons → Outcome × List ℕ × List ℕ
got (o, cs, c) = (o, cs, (lines_of c).ready)

none_ready : (c : Cons) → IsWindow c → (c.r == c.w) ≡ true → (lines_of c).ready ≡ []
none_ready c f same =
    let none_left : distance c.w c.r ≡ 0 = ground (arith, same, f.read_index) in
    ap (forwards c.buf c.r) none_left

ready_first :
    (c : Cons)
    → IsWindow c
    → (c.r == c.w) ≡ false
    → (lines_of c).ready
      ≡ c.buf (c.r % input_buf_size) ∷ (lines_of (record c { r = next c.r })).ready
ready_first c f differ =
    let some_left : distance c.w c.r ≢ 0 = ground (arith, differ, f.read_index, f.write_index) in
    forwards_first c.buf c.r (distance c.w c.r) some_left
    ∙ ap (λ k. c.buf (c.r % input_buf_size) ∷ forwards c.buf (next c.r) k)
        (omega (arith, some_left, f.read_index, f.write_index))

pub consoleread_lem :
    (copyout : ℕ → ℕ → Bool) (killed : Bool) (left dst target : ℕ) (c : Cons)
    → IsWindow c
    → got (consoleread copyout killed dst target left c)
      ≡ line_read copyout killed dst target left (lines_of c).ready
unfolding consoleread
consoleread_lem copyout killed zero dst target c f = refl
consoleread_lem copyout killed (suc left) dst target c f = elim (Bool-cases (c.r == c.w)) [
  | inl empty ↦ rw (empty, none_ready c f empty) refl
  | inr some_left ↦
      let ch = c.buf (c.r % input_buf_size) in
      let taken : Cons = record c { r = next c.r } in
      let e = ready_first c f some_left in
      elim (Bool-cases (ch == 4)) [
        | inl ends ↦ elim (Bool-cases (ltb (suc left) target)) [
          | inl later ↦ rw (some_left, e, ends, later, e) refl
          | inr first ↦ rw (some_left, e, ends, first) refl
        ]
        | inr char ↦ elim (Bool-cases (copyout dst ch)) [
          | inr fails ↦ rw (some_left, e, char, fails) refl
          | inl copied ↦ elim (Bool-cases (ch == 10)) [
            | inl line ↦ rw (some_left, e, char, copied, line) refl
            | inr inner ↦
                let rest =
                  consoleread_lem copyout killed left (dst + 1) target taken
                    (taken-IsWindow c f some_left) in
                rw (some_left, e, char, copied, inner)
                  (ap (λ (x : Outcome × List ℕ × List ℕ). (x.0, ch ∷ x.1, x.2)) rest)
          ]
        ]
      ]
]

-- A read leaves the line that is edited.
pub edited-consoleread :
    (copyout : ℕ → ℕ → Bool) (killed : Bool) (left dst target : ℕ) (c : Cons)
    → (lines_of (consoleread copyout killed dst target left c).2).edited ≡ (lines_of c).edited
unfolding consoleread
edited-consoleread copyout killed zero dst target c = refl
edited-consoleread copyout killed (suc left) dst target c =
    let rest =
      edited-consoleread copyout killed left (dst + 1) target (record c { r = next c.r }) in
    ground (arith, rest)
