-- ===== src/Grep/Lines.antt =====
-- user/grep.c: the loop of grep over the reads of a file. The buffer is the list of its first `m` bytes; a read
-- takes from the bytes `src` that are left in the file, how many at most in round `i` is `sizes i`.
pub mod Selects
use kali.Prelude.{
  ℕ, zero, suc, ◌+◌, ◌-◌, Bool, true, false, Option, none, some, List, [], ◌∷◌, ◌++◌, ◌==◌, ltb,
  if◌then◌else◌, length, take, drop,
}
use kali.Grep.{match}

-- sizeof(buf) - 1
abbrev pub buf_room : ℕ
buf_room = 1023

-- strchr(p, '\n'), which stops at a zero: the line before the newline, and what is behind it.
pub find_newline : List ℕ → Option (List ℕ × List ℕ)
find_newline [] = none
find_newline (c ∷ cs) =
    let rest = find_newline cs in
    if c == 0
    then none
    else if c == 10
    then some ([], cs)
    else elim rest [ none ↦ none | some (line, behind) ↦ some (c ∷ line, behind) ]

-- The line with its newline, if it matches.
abbrev pub write_line : (pattern line : List ℕ) → List ℕ
write_line pattern line = if match pattern line then line ++ (10 ∷ []) else []

-- The inner loop: what it writes, and what stays in the buffer. Each round takes a newline.
pub lines_loop : (pattern : List ℕ) → (fuel : ℕ) → List ℕ → List ℕ × List ℕ
lines_loop pattern zero s = ([], s)
lines_loop pattern (suc fuel) s = elim (find_newline s) [
  | none ↦ ([], s)
  | some (line, behind) ↦
      let r = lines_loop pattern fuel behind in (write_line pattern line ++ r.0, r.1)
]

-- The bytes that a read gives: at least one, if there is room and the file has some.
abbrev pub smaller : ℕ → ℕ → ℕ
smaller a b = if ltb a b then a else b

abbrev pub read_count : (room size left : ℕ) → ℕ
read_count room size left = smaller (smaller room (suc size)) left

-- The loop of grep, with `kept` in the buffer; a round takes a byte of the file at least.
pub grep_loop : (pattern : List ℕ) → (sizes : ℕ → ℕ) → (fuel i : ℕ) → (kept src : List ℕ) → List ℕ
grep_loop pattern sizes zero i kept src = []
grep_loop pattern sizes (suc fuel) i kept src =
    let n = read_count (buf_room - length kept) (sizes i) (length src) in
    let s = kept ++ take n src in
    let r = lines_loop pattern (length s) s in
    let rest = grep_loop pattern sizes fuel (i + 1) r.1 (drop n src) in
    if n == 0 then [] else r.0 ++ rest

unfoldable pub grep : (pattern : List ℕ) → (sizes : ℕ → ℕ) → (src : List ℕ) → List ℕ
unfolding grep_loop
grep pattern sizes src = grep_loop pattern sizes (suc (length src)) 0 [] src
