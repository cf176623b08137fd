-- ===== src/Console/Window.antt =====
-- kernel/console.c: the indices of the console's buffer.
use kali.Prelude.{
  ℕ, zero, suc, ◌+◌, ◌%◌, ◌^◌, ◌≡◌, ◌≤◌, ◌<◌, Bool, true, false, ◌||◌, ◌==◌, ltb, arith, Bool-cases,
  inl, inr,
}
use kali.Console.{
  Cons, input_buf_size, next, prev, distance, erase, kill_line, append, commit_line, newline,
  take_char, consoleintr, consoleread,
}

-- The bytes to read, from `r` to `w`, stand before those that are edited, from `w` to `e`, and all of
-- them fit the buffer.
pub record IsWindow (c : Cons) : Type 0 where
  pub read_index : c.r < 2 ^ 32
  pub write_index : c.w < 2 ^ 32
  pub edit_index : c.e < 2 ^ 32
  pub ordered : distance c.w c.r ≤ distance c.e c.r
  pub fits : distance c.e c.r ≤ input_buf_size

pub erase-IsWindow : (c : Cons) → IsWindow c → (c.e == c.w) ≡ false → IsWindow (erase c)
erase-IsWindow c f differ = record {
  read_index = f.read_index;
  write_index = f.write_index;
  edit_index = omega arith;
  ordered = ground (arith, f.ordered, f.fits, f.read_index, f.write_index, f.edit_index, differ);
  fits = ground (arith, f.ordered, f.fits, f.read_index, f.write_index, f.edit_index, differ);
}

pub append-IsWindow :
    (c : Cons) (ch : ℕ)
    → IsWindow c
    → ltb (distance c.e c.r) input_buf_size ≡ true
    → IsWindow (append c ch)
append-IsWindow c ch f room = record {
  read_index = f.read_index;
  write_index = f.write_index;
  edit_index = omega arith;
  ordered = ground (arith, f.ordered, f.fits, f.read_index, f.write_index, f.edit_index, room);
  fits = ground (arith, f.fits, f.read_index, f.edit_index, room);
}

pub commit_line-IsWindow : (ch : ℕ) (c : Cons) → IsWindow c → IsWindow (commit_line ch c)
commit_line-IsWindow ch c f =
    elim (Bool-cases (ch == 10 || ch == 4 || distance c.e c.r == input_buf_size)) [
      | inr n ↦ rw n f
      | inl y ↦ rw y (record {
        read_index = f.read_index;
        write_index = f.edit_index;
        edit_index = f.edit_index;
        ordered = omega arith;
        fits = f.fits;
      })
    ]

pub kill_line-IsWindow : (fuel : ℕ) (c : Cons) → IsWindow c → IsWindow (kill_line fuel c).1
unfolding kill_line
kill_line-IsWindow zero c f = f
kill_line-IsWindow (suc fuel) c f = elim (Bool-cases (c.e == c.w)) [
  | inl same ↦ rw same f
  | inr differ ↦ elim (Bool-cases (c.buf (prev c.e % input_buf_size) == 10)) [
    | inl line ↦ rw (differ, line) f
    | inr char ↦ rw (differ, char) (kill_line-IsWindow fuel (erase c) (erase-IsWindow c f differ))
  ]
]

pub take_char-IsWindow : (ch : ℕ) (c : Cons) → IsWindow c → IsWindow (take_char ch c).1
unfolding take_char
take_char-IsWindow ch c f = elim (Bool-cases (ch == 0)) [
  | inl null ↦ rw null f
  | inr char ↦ elim (Bool-cases (ltb (distance c.e c.r) input_buf_size)) [
    | inr full ↦ rw (char, full) f
    | inl room ↦
        rw (char, room)
          (commit_line-IsWindow (newline ch) (append c (newline ch))
            (append-IsWindow c (newline ch) f room))
  ]
]

pub consoleintr-IsWindow : (ch : ℕ) (c : Cons) → IsWindow c → IsWindow (consoleintr ch c).1
unfolding consoleintr
consoleintr-IsWindow ch c f = elim (Bool-cases (ch == 16)) [
  | inl y ↦ rw y f
  | inr n1 ↦ elim (Bool-cases (ch == 21)) [
    | inl y ↦ rw (n1, y) (kill_line-IsWindow input_buf_size c f)
    | inr n2 ↦ elim (Bool-cases (ch == 8 || ch == 127)) [
      | inr n3 ↦ rw (n1, n2, n3) (take_char-IsWindow ch c f)
      | inl y ↦ elim (Bool-cases (c.e == c.w)) [
        | inl same ↦ rw (n1, n2, y, same) f
        | inr differ ↦ rw (n1, n2, y, differ) (erase-IsWindow c f differ)
      ]
    ]
  ]
]

pub taken-IsWindow :
    (c : Cons) → IsWindow c → (c.r == c.w) ≡ false → IsWindow (record c { r = next c.r })
taken-IsWindow c f some_left = record {
  read_index = omega arith;
  write_index = f.write_index;
  edit_index = f.edit_index;
  ordered = ground (arith, f.ordered, f.fits, f.read_index, f.write_index, f.edit_index, some_left);
  fits = ground (arith, f.ordered, f.fits, f.read_index, f.write_index, f.edit_index, some_left);
}

pub consoleread-IsWindow :
    (copyout : ℕ → ℕ → Bool) (killed : Bool) (left dst target : ℕ) (c : Cons)
    → IsWindow c
    → IsWindow (consoleread copyout killed dst target left c).2
unfolding consoleread
consoleread-IsWindow copyout killed zero dst target c f = f
consoleread-IsWindow copyout killed (suc left) dst target c f = elim (Bool-cases (c.r == c.w)) [
  | inl empty ↦ rw empty f
  | inr some_left ↦
      let t = taken-IsWindow c f some_left in
      elim (Bool-cases (c.buf (c.r % input_buf_size) == 4)) [
        | inl ends ↦ elim (Bool-cases (ltb (suc left) target)) [
          | inl later ↦ rw (some_left, ends, later) f
          | inr first ↦ rw (some_left, ends, first) t
        ]
        | inr char ↦ elim (Bool-cases (copyout dst (c.buf (c.r % input_buf_size)))) [
          | inr fails ↦ rw (some_left, char, fails) t
          | inl copied ↦ elim (Bool-cases (c.buf (c.r % input_buf_size) == 10)) [
            | inl line ↦ rw (some_left, char, copied, line) t
            | inr inner ↦
                rw (some_left, char, copied, inner)
                  (consoleread-IsWindow copyout killed left (dst + 1) target
                    (record c { r = next c.r }) t)
          ]
        ]
      ]
]
