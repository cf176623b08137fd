-- ===== src/Console/Lines.antt =====
-- kernel/console.c: the console's input as two lists: the bytes that are ready to read, oldest first, and the line
-- that is edited, newest byte first. It says what each key and each read does, without a ring and without indices.
pub mod Ring
pub mod Keys
pub mod Reads
pub mod Runs
use kali.Prelude.{
  ℕ, zero, suc, ◌+◌, ◌-◌, Bool, true, false, not, ◌&&◌, ◌||◌, List, [], ◌∷◌, ◌++◌, ◌==◌, ltb,
  if◌then◌else◌, length, pos, negsuc,
}
use kali.Console.{input_buf_size, backspace, newline, Outcome, returns, sleeps}

pub record Lines : Type 0 where
  pub ready : List ℕ
  pub edited : List ℕ

abbrev pub room_taken : Lines → ℕ
room_taken l = length l.ready + length l.edited

-- The edited line behind the bytes that are ready.
abbrev pub line_ready : (ready edited : List ℕ) → List ℕ
line_ready ready [] = ready
line_ready ready (c ∷ cs) = line_ready ready cs ++ (c ∷ [])

-- A byte is typed; the end of a line, the end of the input and the last free place make the line ready.
abbrev pub typed : (ch : ℕ) → Lines → Lines
typed ch l =
    if ch == 10 || ch == 4 || room_taken l + 1 == input_buf_size
    then record { ready = line_ready l.ready (ch ∷ l.edited); edited = [] }
    else record { ready = l.ready; edited = ch ∷ l.edited }

-- One backspace for each byte of the edited line.
abbrev pub wiped : List ℕ → List ℕ
wiped [] = []
wiped (c ∷ cs) = backspace ∷ wiped cs

abbrev pub rubbed_out : (ready edited : List ℕ) → List ℕ × Lines
rubbed_out ready [] = ([], record { ready = ready; edited = [] })
rubbed_out ready (c ∷ cs) = (backspace ∷ [], record { ready = ready; edited = cs })

-- What a key echoes, and the lines behind it.
abbrev pub key : (ch : ℕ) → Lines → List ℕ × Lines
key ch l =
    if ch == 16
    then ([], l)
    else if ch == 21
    then (wiped l.edited, record { ready = l.ready; edited = [] })
    else if ch == 8 || ch == 127
    then rubbed_out l.ready l.edited
    else if not (ch == 0) && ltb (room_taken l) input_buf_size
    then (newline ch ∷ [], typed (newline ch) l)
    else ([], l)

-- How a read with `left` of `target` bytes to go ends, the bytes that it gets, and what stays ready.
abbrev pub line_read :
    (copyout : ℕ → ℕ → Bool) (killed : Bool) (dst target left : ℕ)
    → (ready : List ℕ) → Outcome × List ℕ × List ℕ
line_read copyout killed dst target zero ready = (returns (pos target), [], ready)
line_read copyout killed dst target (suc left) [] =
    (if killed then returns (negsuc 0) else sleeps (suc left), [], [])
line_read copyout killed dst target (suc left) (ch ∷ ready) =
    let (o, cs, rest) = line_read copyout killed (dst + 1) target left ready in
    let done : Outcome = returns (pos (target - suc left)) in
    if ch == 4
    then (done, [], if ltb (suc left) target then ch ∷ ready else ready)
    else if not (copyout dst ch)
    then (done, [], ready)
    else if ch == 10
    then (returns (pos (target - left)), ch ∷ [], ready)
    else (o, ch ∷ cs, rest)
