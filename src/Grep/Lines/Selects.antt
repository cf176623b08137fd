-- ===== src/Grep/Lines/Selects.antt =====
-- user/grep.c: the loop writes the lines that match, however the reads cut the file.
use kali.Prelude.{
  ℕ, zero, suc, ◌+◌, ◌-◌, ◌≡◌, ◌≤◌, ◌<◌, refl, sym, ap, ◌∙◌, Bool, true, false, not, ◌&&◌, none,
  some, List, [], ◌∷◌, ◌++◌, ◌==◌, ltb, if◌then◌else◌, length, take, drop, arith, append-nil,
  append_assoc, subst, ne→==, eq→==, ℕ_discrete, ◌≢◌, length-append, take-append-drop,
}
use kali.Grep.{match}
use kali.Grep.Lines.{buf_room, find_newline, write_line, lines_loop, read_count, grep_loop, grep}

-- A line as it is to be shown: with its newline, or not at all.
abbrev pub shown_line : (pattern line : List ℕ) → List ℕ
shown_line pattern line = if match pattern line then line ++ (10 ∷ []) else []

-- The lines of a text, whose first one begins with `line`, that match, each with its newline. What is behind
-- the last newline is no line.
abbrev pub selected : (pattern line src : List ℕ) → List ℕ
selected pattern line [] = []
selected pattern line (c ∷ cs) =
    let closed = shown_line pattern line ++ selected pattern [] cs in
    let longer = selected pattern (line ++ (c ∷ [])) cs in if c == 10 then closed else longer

-- No zeros, and less than 1023 characters to a line, the first of which has `n` more.
abbrev pub has_short_lines : (n : ℕ) → (src : List ℕ) → Bool
has_short_lines n [] = ltb n buf_room
has_short_lines n (c ∷ cs) =
    let closed = has_short_lines 0 cs in
    let longer = has_short_lines (n + 1) cs in
    ltb n buf_room && not (c == 0) && (if c == 10 then closed else longer)

-- No newline and no zero.
pub data IsLine : List ℕ → Type 0 where
  at_end : IsLine []
  and_then : {c : ℕ} {cs : List ℕ} → c ≢ 0 → c ≢ 10 → IsLine cs → IsLine (c ∷ cs)

no_zero : (n c : ℕ) (cs : List ℕ) → has_short_lines n (c ∷ cs) ≡ true → c ≢ 0
no_zero n c cs h = ground arith

-- The first line of the buffer.
data FirstLine (s : List ℕ) : Type 0 where
  unfinished : IsLine s → find_newline s ≡ none → FirstLine s
  finished :
      (line behind : List ℕ)
      → IsLine line
      → s ≡ line ++ (10 ∷ behind)
      → find_newline s ≡ some (line, behind)
      → FirstLine s

one_longer : (c : ℕ) (cs : List ℕ) → c ≢ 0 → c ≢ 10 → FirstLine cs → FirstLine (c ∷ cs)
unfolding find_newline
one_longer c cs nz nn (unfinished l e) =
    unfinished (and_then nz nn l) (rw (ne→== c 0 nz, ne→== c 10 nn, e) refl)
one_longer c cs nz nn (finished line behind l same e) =
    finished (c ∷ line) behind (and_then nz nn l) (ap (λ k. c ∷ k) same)
      (rw (ne→== c 0 nz, ne→== c 10 nn, e) refl)

first_line : (n : ℕ) (s t : List ℕ) → has_short_lines n (s ++ t) ≡ true → FirstLine s
unfolding find_newline
first_line n [] t h = unfinished at_end refl
first_line n (c ∷ cs) t h = elim (ℕ_discrete c 10) [
  | yes newline ↦
      finished [] cs at_end (ap (λ d. d ∷ cs) newline)
        (rw (ne→== c 0 (no_zero n c (cs ++ t) h), eq→== c 10 newline) refl)
  | no other ↦
      one_longer c cs (no_zero n c (cs ++ t) h) other (first_line (n + 1) cs t (ground (arith, h)))
]

module _ (pattern : List ℕ) where
  selected-IsLine :
      (line : List ℕ) {l : List ℕ} (t : List ℕ)
      → IsLine l
      → selected pattern line (l ++ t) ≡ selected pattern (line ++ l) t
  selected-IsLine line t at_end = rw append-nil refl
  selected-IsLine line t (and_then {c} {cs} nz nn l) = rw (ne→== c 10 nn) (
      selected-IsLine (line ++ (c ∷ [])) t l
      ∙ ap (λ k. selected pattern k t) (append_assoc line (c ∷ []) cs))

short-IsLine :
    (n : ℕ) {l : List ℕ} (t : List ℕ)
    → IsLine l
    → has_short_lines n (l ++ t) ≡ true
    → has_short_lines (n + length l) t ≡ true
short-IsLine n t at_end h = ap (λ k. has_short_lines k t) (omega arith) ∙ h
short-IsLine n t (and_then {c} {cs} nz nn l) h =
    let next : has_short_lines (n + 1) (cs ++ t) ≡ true = ground (arith, h, nn) in
    ap (λ k. has_short_lines k t) (omega arith) ∙ short-IsLine (n + 1) t l next

-- The loop over the lines of the buffer takes from the text what it writes, and leaves a beginning of a line.
record IsCut (pattern s out left : List ℕ) : Type 0 where
  line : IsLine left
  same : (t : List ℕ) → selected pattern [] (s ++ t) ≡ out ++ selected pattern left t
  short : (t : List ℕ) → has_short_lines 0 (s ++ t) ≡ true → has_short_lines (length left) t ≡ true

next_line : (n : ℕ) (t : List ℕ) → has_short_lines n (10 ∷ t) ≡ true → has_short_lines 0 t ≡ true
next_line n t h = ground (arith, h)

behind_line :
    (n : ℕ) {l : List ℕ} (behind t : List ℕ)
    → IsLine l
    → has_short_lines n ((l ++ (10 ∷ behind)) ++ t) ≡ true
    → has_short_lines 0 (behind ++ t) ≡ true
behind_line n {l} behind t is_line h = next_line (n + length l) (behind ++ t) (
    short-IsLine n (10 ∷ (behind ++ t)) is_line
      (ap (has_short_lines n) (sym (append_assoc l (10 ∷ behind) t)) ∙ h))

module _ (pattern : List ℕ) where
  line_more :
      {l behind out left : List ℕ}
      → IsLine l
      → IsCut pattern behind out left
      → IsCut pattern (l ++ (10 ∷ behind)) (write_line pattern l ++ out) left
  line_more {l} {behind} {out} {left} is_line c = record {
    line = c.line;
    same = λ t.
        ap (selected pattern []) (append_assoc l (10 ∷ behind) t)
        ∙ selected-IsLine pattern [] (10 ∷ (behind ++ t)) is_line
        ∙ ap (λ k. write_line pattern l ++ k) (c.same t)
        ∙ sym (append_assoc (write_line pattern l) out (selected pattern left t));
    short = λ t h. c.short t (behind_line 0 behind t is_line h);
  }

  unfinished-IsCut : {s : List ℕ} → IsLine s → IsCut pattern s [] s
  unfinished-IsCut {s} is_line = record {
    line = is_line;
    same = λ t. selected-IsLine pattern [] t is_line;
    short = λ t h. ap (λ k. has_short_lines k t) (omega arith) ∙ short-IsLine 0 t is_line h;
  }

  loop_ends :
      (fuel : ℕ) (s : List ℕ) → find_newline s ≡ none → lines_loop pattern (suc fuel) s ≡ ([], s)
  unfolding lines_loop
  loop_ends fuel s e = rw (lines_loop, e) refl

  loop_goes_on :
      (fuel : ℕ) (s l behind : List ℕ)
      → find_newline s ≡ some (l, behind)
      → lines_loop pattern (suc fuel) s ≡ (
        write_line pattern l ++ (lines_loop pattern fuel behind).0,
        (lines_loop pattern fuel behind).1,
      )
  unfolding lines_loop
  loop_goes_on fuel s l behind e = rw (lines_loop, e) refl

  lines_loop-IsCut :
      (fuel : ℕ) (s t : List ℕ)
      → has_short_lines 0 (s ++ t) ≡ true
      → length s ≤ fuel
      → IsCut pattern s (lines_loop pattern fuel s).0 (lines_loop pattern fuel s).1
  unfolding lines_loop
  lines_loop-IsCut zero [] t h le = unfinished-IsCut at_end
  lines_loop-IsCut zero (c ∷ cs) t h le = absurd (omega arith)
  lines_loop-IsCut (suc fuel) s t h le = elim (first_line 0 s t h) [
    | unfinished is_line e ↦ rw (loop_ends fuel s e) (unfinished-IsCut is_line)
    | finished l behind is_line same e ↦
        let rest =
          lines_loop-IsCut fuel behind t
            (behind_line 0 behind t is_line (ap (λ z. has_short_lines 0 (z ++ t)) (sym same) ∙ h))
            (omega (arith, ap length same, length-append l (10 ∷ behind), le)) in
        rw (loop_goes_on fuel s l behind e) (
          subst
            (λ z.
              IsCut pattern z (write_line pattern l ++ (lines_loop pattern fuel behind).0)
                (lines_loop pattern fuel behind).1)
            (sym same) (line_more is_line rest))
  ]

room_left : (n : ℕ) (c : ℕ) (cs : List ℕ) → has_short_lines n (c ∷ cs) ≡ true → n < buf_room
room_left n c cs h = ground (arith, h)

length-drop : (n : ℕ) (xs : List ℕ) → length (drop n xs) ≡ length xs - n
length-drop zero xs = omega arith
length-drop (suc n) [] = omega arith
length-drop (suc n) (x ∷ xs) = omega (arith, length-drop n xs)

short_bound : (n : ℕ) (src : List ℕ) → has_short_lines n src ≡ true → n < buf_room
short_bound n [] h = ground (arith, h)
short_bound n (c ∷ cs) h = room_left n c cs h

short_kept :
    (n : ℕ) {kept : List ℕ} (src : List ℕ)
    → IsLine kept
    → has_short_lines (n + length kept) src ≡ true
    → has_short_lines n (kept ++ src) ≡ true
short_kept n src at_end h = ap (λ k. has_short_lines k src) (omega arith) ∙ h
short_kept n src (and_then {c} {cs} nz nn l) h =
    let rest = short_kept (n + 1) src l (ap (λ k. has_short_lines k src) (omega arith) ∙ h) in
    let room = short_bound (n + suc (length cs)) src h in
    rw (ne→== c 0 nz, ne→== c 10 nn, rest) (ground (arith, room))

-- What the reads have cut together again.
module _ (pattern : List ℕ) (n : ℕ) {kept : List ℕ} (src : List ℕ) (k : IsLine kept) where
  together : (kept ++ take n src) ++ drop n src ≡ kept ++ src
  together =
      append_assoc kept (take n src) (drop n src) ∙ ap (λ z. kept ++ z) (take-append-drop n src)

  module _ (h : has_short_lines (length kept) src ≡ true) where
    whole_short : has_short_lines 0 ((kept ++ take n src) ++ drop n src) ≡ true
    whole_short =
        ap (has_short_lines 0) together
        ∙ short_kept 0 src k (ap (λ m. has_short_lines m src) (omega arith) ∙ h)

    round-IsCut :
        IsCut pattern
          (kept ++ take n src)
          (lines_loop pattern (length (kept ++ take n src)) (kept ++ take n src)).0
          (lines_loop pattern (length (kept ++ take n src)) (kept ++ take n src)).1
    round-IsCut =
        lines_loop-IsCut pattern (length (kept ++ take n src)) (kept ++ take n src) (drop n src)
          whole_short (omega arith)

grep_loop_lem :
    (pattern : List ℕ) (sizes : ℕ → ℕ) (fuel i : ℕ) {kept : List ℕ} (src : List ℕ)
    → IsLine kept
    → has_short_lines (length kept) src ≡ true
    → length src < fuel
    → grep_loop pattern sizes fuel i kept src ≡ selected pattern kept src
unfolding grep_loop
grep_loop_lem pattern sizes zero i src k h lt = absurd (omega arith)
grep_loop_lem pattern sizes (suc fuel) i {kept} [] k h lt =
    let none_read : (read_count (buf_room - length kept) (sizes i) 0 == 0) ≡ true = ground arith in
    rw none_read refl
grep_loop_lem pattern sizes (suc fuel) i {kept} (c ∷ cs) k h lt =
    let n = read_count (buf_room - length kept) (sizes i) (suc (length cs)) in
    let room = room_left (length kept) c cs h in
    let positive : 0 < n = ground (arith, room) in
    let some_read : (n == 0) ≡ false = ground (arith, positive) in
    let cut = round-IsCut pattern n (c ∷ cs) k h in
    rw some_read (
      ap
        (λ z.
          (lines_loop pattern (length (kept ++ take n (c ∷ cs))) (kept ++ take n (c ∷ cs))).0 ++ z)
        (grep_loop_lem pattern sizes fuel (i + 1) (drop n (c ∷ cs)) cut.line
          (cut.short (drop n (c ∷ cs)) (whole_short pattern n (c ∷ cs) k h))
          (omega (arith, length-drop n (c ∷ cs), positive, lt)))
      ∙ sym (cut.same (drop n (c ∷ cs)))
      ∙ ap (selected pattern []) (together pattern n (c ∷ cs) k)
      ∙ selected-IsLine pattern [] (c ∷ cs) k)

-- On a file without zeros whose lines, and what stands behind the last newline, have less than 1023
-- characters, grep writes the lines that match, each with its newline, in order, however the reads cut the
-- file; what stands behind the last newline is not written.
pub grep_lem :
    (pattern : List ℕ) (sizes : ℕ → ℕ) (src : List ℕ)
    → has_short_lines 0 src ≡ true
    → grep pattern sizes src ≡ selected pattern [] src
unfolding grep
grep_lem pattern sizes src h =
    grep_loop_lem pattern sizes (suc (length src)) 0 src at_end h (omega arith)
