-- ===== src/Console/Lines/Keys.antt =====
-- kernel/console.c: what a key does to the lines in the console's buffer.
use kali.Prelude.{
  ℕ, zero, suc, ◌+◌, ◌%◌, ◌^◌, ◌≡◌, ◌≢◌, ◌≤◌, ◌<◌, refl, sym, subst, ap, ap₂, ◌∙◌, false, not, ◌&&◌,
  ◌||◌, List, [], ◌∷◌, ◌==◌, ltb, if◌then◌else◌, update_self, arith, Bool-cases, inl, inr,
}
use kali.Console.{
  Cons, input_buf_size, prev, distance, backspace, erase, kill_line, append, commit_line, newline,
  take_char, consoleintr,
}
use kali.Console.Window.{IsWindow, erase-IsWindow, append-IsWindow}
use kali.Console.Lines.{Lines, room_taken, line_ready, typed, wiped, rubbed_out, key}
use kali.Console.Lines.Ring.{
  backwards, lines_of, length-forwards, length-backwards, forwards-update, backwards-update,
  backwards_first, forwards, forwards-backwards,
}

-- No byte of the edited line is a newline.
pub data IsUnfinished : List ℕ → Type 0 where
  no_byte : IsUnfinished []
  byte_of : {c : ℕ} {cs : List ℕ} → (c == 10) ≡ false → IsUnfinished cs → IsUnfinished (c ∷ cs)

-- What is echoed, and the lines of the buffer.
abbrev pub seen : List ℕ × Cons → List ℕ × Lines
seen (echo, c) = (echo, lines_of c)

none_edited : (c : Cons) → distance c.e c.w ≡ 0 → (lines_of c).edited ≡ []
none_edited c e = ap (backwards c.buf c.e) e

module _ (c : Cons) (f : IsWindow c) where
  room_taken_lem : room_taken (lines_of c) ≡ distance c.e c.r
  room_taken_lem =
      ap₂ ◌+◌ (length-forwards c.buf c.r (distance c.w c.r))
        (length-backwards c.buf c.e (distance c.e c.w))
      ∙ omega (arith, f.ordered, f.fits, f.read_index, f.write_index, f.edit_index)

  edited-erase :
      (c.e == c.w) ≡ false
      → (lines_of c).edited ≡ c.buf (prev c.e % input_buf_size) ∷ (lines_of (erase c)).edited
  edited-erase differ =
      let some_left : distance c.e c.w ≢ 0 = ground (arith, differ, f.write_index, f.edit_index) in
      backwards_first c.buf c.e (distance c.e c.w) some_left
      ∙ ap (λ k. c.buf (prev c.e % input_buf_size) ∷ backwards c.buf (prev c.e) k)
          (omega (arith, some_left, f.write_index, f.edit_index))

  module _ (ch : ℕ) (is_byte : ch < 2 ^ 8) (room : distance c.e c.r < input_buf_size) where
    lines_of-append :
        lines_of (append c ch)
        ≡ record { ready = (lines_of c).ready; edited = ch ∷ (lines_of c).edited }
    lines_of-append =
        let d = append c ch in
        let more : distance d.e c.w ≡ suc (distance c.e c.w) =
          omega (arith, f.ordered, f.read_index, f.write_index, f.edit_index) in
        let back : prev d.e ≡ c.e = omega (arith, f.edit_index) in
        let ready =
          forwards-update c.buf c.r (distance c.w c.r) c.e (ch % 2 ^ 8) f.read_index f.edit_index
            f.ordered room in
        let rest =
          backwards-update c.buf c.e (distance c.e c.w) c.e (ch % 2 ^ 8) f.edit_index f.edit_index
            (omega (arith, room, f.ordered, f.read_index, f.write_index, f.edit_index)) in
        let edited : (lines_of d).edited ≡ ch ∷ (lines_of c).edited =
          ap (backwards d.buf d.e) more
          ∙ ap (λ i. d.buf (i % input_buf_size) ∷ backwards d.buf i (distance c.e c.w)) back
          ∙ ap₂ ◌∷◌ (update_self c.buf (c.e % input_buf_size) (ch % 2 ^ 8) ∙ omega (arith, is_byte))
              rest in
        ap₂ (λ (r : List ℕ) (e : List ℕ). record { ready = r; edited = e }) ready edited

  -- Where the line becomes ready.
  lines_of-commit :
      lines_of (record c { w = c.e })
      ≡ record { ready = line_ready (lines_of c).ready (lines_of c).edited; edited = [] }
  lines_of-commit =
      let whole : distance c.e c.r ≡ distance c.w c.r + distance c.e c.w =
        omega (arith, f.ordered, f.fits, f.read_index, f.write_index, f.edit_index) in
      let none_left : distance c.e c.e ≡ 0 = omega (arith, f.edit_index) in
      ap₂ (λ (r : List ℕ) (e : List ℕ). record { ready = r; edited = e })
        (ap (forwards c.buf c.r) whole
          ∙ forwards-backwards c.buf c.r c.e (distance c.w c.r) (distance c.e c.w) f.read_index
              f.edit_index (sym whole) f.fits)
        (ap (backwards c.buf c.e) none_left)

IsUnfinished-first :
    (c : ℕ) (cs : List ℕ) → IsUnfinished (c ∷ cs) → ((c == 10) ≡ false) × IsUnfinished cs
IsUnfinished-first c cs (byte_of n u) = (n, u)

kill_line_lem :
    (fuel : ℕ) (c : Cons)
    → IsWindow c
    → IsUnfinished (lines_of c).edited
    → distance c.e c.w ≤ fuel
    → seen (kill_line fuel c)
      ≡ (wiped (lines_of c).edited, record { ready = (lines_of c).ready; edited = [] })
unfolding kill_line
kill_line_lem zero c f u all = rw (none_edited c (omega (arith, all))) refl
kill_line_lem (suc fuel) c f u all = elim (Bool-cases (c.e == c.w)) [
  | inl same ↦
      let empty = none_edited c (ground (arith, same, f.edit_index)) in rw (same, empty) refl
  | inr differ ↦
      let e = edited-erase c f differ in
      let last = c.buf (prev c.e % input_buf_size) in
      let less : distance (prev c.e) c.w ≤ fuel =
        ground (arith, differ, all, f.edit_index, f.write_index) in
      let (char, v) =
        IsUnfinished-first last (lines_of (erase c)).edited (subst IsUnfinished e u) in
      let rest = kill_line_lem fuel (erase c) (erase-IsWindow c f differ) v less in
      rw (differ, char, e) (ap (λ (r : List ℕ × Lines). (backspace ∷ r.0, r.1)) rest)
]

commit_line_lem :
    (ch : ℕ) (c : Cons)
    → ch < 2 ^ 8
    → IsWindow c
    → distance c.e c.r < input_buf_size
    → lines_of (commit_line ch (append c ch)) ≡ typed ch (lines_of c)
commit_line_lem ch c is_byte f room =
    let d = append c ch in
    let moved = lines_of-append c f ch is_byte room in
    let window = append-IsWindow c ch f (ground (arith, room)) in
    let taken : distance d.e d.r ≡ room_taken (lines_of c) + 1 =
      omega (arith, room, f.read_index, f.edit_index, room_taken_lem c f) in
    let same = ap (λ k. ch == 10 || ch == 4 || k == input_buf_size) taken in
    elim (Bool-cases (ch == 10 || ch == 4 || distance d.e d.r == input_buf_size)) [
      | inl ends ↦
          rw (ends, sym same ∙ ends)
            (lines_of-commit d window
              ∙ ap (λ (l : Lines). record { ready = line_ready l.ready l.edited; edited = [] })
                  moved)
      | inr goes_on ↦ rw (goes_on, sym same ∙ goes_on) moved
    ]

take_char_lem :
    (ch : ℕ) (c : Cons)
    → ch < 2 ^ 8
    → IsWindow c
    → seen (take_char ch c) ≡ (
        if not (ch == 0) && ltb (room_taken (lines_of c)) input_buf_size
        then (newline ch ∷ [], typed (newline ch) (lines_of c))
        else ([], lines_of c))
unfolding take_char
take_char_lem ch c is_byte f =
    let taken = ap (λ k. ltb k input_buf_size) (room_taken_lem c f) in
    elim (Bool-cases (ch == 0)) [
      | inl null ↦ rw null refl
      | inr char ↦ elim (Bool-cases (ltb (distance c.e c.r) input_buf_size)) [
        | inr full ↦ rw (char, taken, full) refl
        | inl room ↦
            rw (char, taken, room)
              (ap (λ (l : Lines). (newline ch ∷ [], l))
                (commit_line_lem (newline ch) c (ground (arith, is_byte)) f (ground (arith, room))))
      ]
    ]

pub consoleintr_lem :
    (ch : ℕ) (c : Cons)
    → ch < 2 ^ 8
    → IsWindow c
    → IsUnfinished (lines_of c).edited
    → seen (consoleintr ch c) ≡ key ch (lines_of c)
unfolding consoleintr
consoleintr_lem ch c is_byte f u = elim (Bool-cases (ch == 16)) [
  | inl y ↦ rw y refl
  | inr n1 ↦ elim (Bool-cases (ch == 21)) [
    | inl y ↦
        rw (n1, y)
          (kill_line_lem input_buf_size c f u
            (omega (arith, f.ordered, f.fits, f.read_index, f.write_index, f.edit_index)))
    | inr n2 ↦ elim (Bool-cases (ch == 8 || ch == 127)) [
      | inr n3 ↦ rw (n1, n2, n3) (take_char_lem ch c is_byte f)
      | inl y ↦ elim (Bool-cases (c.e == c.w)) [
        | inl same ↦
            let empty = none_edited c (ground (arith, same, f.edit_index)) in
            rw (n1, n2, y, same, empty) refl
        | inr differ ↦ rw (n1, n2, y, differ, edited-erase c f differ) refl
      ]
    ]
  ]
]

typed-IsUnfinished : (ch : ℕ) (l : Lines) → IsUnfinished l.edited → IsUnfinished (typed ch l).edited
typed-IsUnfinished ch l u = elim (Bool-cases (ch == 10)) [
  | inl ends ↦ rw ends no_byte
  | inr char ↦ elim (Bool-cases (ch == 4 || room_taken l + 1 == input_buf_size)) [
    | inl ends ↦ rw (char, ends) no_byte
    | inr goes_on ↦ rw (char, goes_on) (byte_of char u)
  ]
]

rubbed_out-IsUnfinished :
    (ready edited : List ℕ) → IsUnfinished edited → IsUnfinished (rubbed_out ready edited).1.edited
rubbed_out-IsUnfinished ready [] u = u
rubbed_out-IsUnfinished ready (c ∷ cs) u = (IsUnfinished-first c cs u).1

pub key-IsUnfinished :
    (ch : ℕ) (l : Lines) → IsUnfinished l.edited → IsUnfinished (key ch l).1.edited
key-IsUnfinished ch l u = elim (Bool-cases (ch == 16)) [
  | inl y ↦ rw y u
  | inr n1 ↦ elim (Bool-cases (ch == 21)) [
    | inl y ↦ rw (n1, y) no_byte
    | inr n2 ↦ elim (Bool-cases (ch == 8 || ch == 127)) [
      | inl y ↦ rw (n1, n2, y) (rubbed_out-IsUnfinished l.ready l.edited u)
      | inr n3 ↦ elim (Bool-cases (not (ch == 0) && ltb (room_taken l) input_buf_size)) [
        | inl room ↦ rw (n1, n2, n3, room) (typed-IsUnfinished (newline ch) l u)
        | inr full ↦ rw (n1, n2, n3, full) u
      ]
    ]
  ]
]
