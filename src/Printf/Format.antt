-- ===== src/Printf/Format.antt =====
-- kernel/printf.c: printf and printptr. A format is the list of its characters before the terminating zero; the
-- arguments are `args`, 64 bits each, and `text` gives the string at an address. pr.lock keeps the output of
-- one call together and is not here. There is no output where printint stores behind its buffer.
pub mod Pieces
pub mod Pointers
pub mod Output
use kali.Prelude.{
  ℕ, zero, suc, ◌+◌, ◌-◌, ◌*◌, ◌/◌, ◌%◌, ◌^◌, Bool, true, false, ◌&&◌, List, [], ◌∷◌, ◌++◌, ◌==◌,
  ltb, if◌then◌else◌, length, drop, Option, none, some,
}
use kali.Printf.{digit, printint}

-- The loop of printptr: the upper four bits of 64, and then the rest.
pub ptr_loop : (rounds x : ℕ) → List ℕ
ptr_loop zero x = []
ptr_loop (suc rounds) x = digit (x / 2 ^ 60) ∷ ptr_loop rounds (x * 2 ^ 4 % 2 ^ 64)

unfoldable pub printptr : (x : ℕ) → List ℕ
unfolding ptr_loop
printptr x = b'0' ∷ b'x' ∷ ptr_loop 16 x

-- The branches of printf behind a percent sign.
pub data Conversion : Type 0 where
  number : (wide : Bool) (base : ℕ) (sign : Bool) → Conversion
  pointer : Conversion
  string : Conversion
  percent : Conversion
  stop : Conversion
  unknown : Conversion

-- The branch for the next three characters, and what is added to `i`.
abbrev pub conversion : (c0 c1 c2 : ℕ) → Conversion × ℕ
conversion c0 c1 c2 =
    if c0 == b'd'
    then (number false 10 true, 0)
    else if c0 == b'l' && c1 == b'd'
    then (number true 10 true, 1)
    else if c0 == b'l' && c1 == b'l' && c2 == b'd'
    then (number true 10 true, 2)
    else if c0 == b'u'
    then (number false 10 false, 0)
    else if c0 == b'l' && c1 == b'u'
    then (number true 10 false, 1)
    else if c0 == b'l' && c1 == b'l' && c2 == b'u'
    then (number true 10 false, 2)
    else if c0 == b'x'
    then (number false 16 false, 0)
    else if c0 == b'l' && c1 == b'x'
    then (number true 16 false, 1)
    else if c0 == b'l' && c1 == b'l' && c2 == b'x'
    then (number true 16 false, 2)
    else if c0 == b'p'
    then (pointer, 0)
    else if c0 == b's'
    then (string, 0)
    else if c0 == b'%'
    then (percent, 0)
    else if c0 == 0
    then (stop, 0)
    else (unknown, 0)

-- An `int` as a `long long`.
abbrev pub sign_extend : (word : ℕ) → ℕ
sign_extend word =
    let low = word % 2 ^ 32 in if ltb low (2 ^ 31) then low else low + 2 ^ 64 - 2 ^ 32

-- "(null)"
abbrev pub null_text : List ℕ
null_text = b'(' ∷ b'n' ∷ b'u' ∷ b'l' ∷ b'l' ∷ b')' ∷ []

-- What a branch prints of the next argument, and how many it takes.
abbrev pub shown : (text : ℕ → List ℕ) (c0 word : ℕ) → Conversion → Option (List ℕ)
shown text c0 word (number wide base sign) =
    printint (if wide then word else sign_extend word) base sign
shown text c0 word pointer = some (printptr word)
shown text c0 word string = some (if word == 0 then null_text else text word)
shown text c0 word percent = some (b'%' ∷ [])
shown text c0 word stop = some []
shown text c0 word unknown = some (b'%' ∷ c0 ∷ [])

abbrev pub args_taken : Conversion → ℕ
args_taken (number wide base sign) = 1
args_taken pointer = 1
args_taken string = 1
args_taken percent = 0
args_taken stop = 0
args_taken unknown = 0

-- `fmt[i]`, and 0 at the end of the format.
abbrev pub letter_at : ℕ → List ℕ → ℕ
letter_at i [] = 0
letter_at zero (c ∷ cs) = c
letter_at (suc i) (c ∷ cs) = letter_at i cs

-- The loop stops or goes on with what is left.
abbrev pub go_on : Conversion → (next : Option (List ℕ)) → Option (List ℕ)
go_on (number wide base sign) next = next
go_on pointer next = next
go_on string next = next
go_on percent next = next
go_on stop next = some []
go_on unknown next = next

-- The output of a branch and then of the rest.
abbrev pub followed_by : (cs rest : Option (List ℕ)) → Option (List ℕ)
followed_by none rest = none
followed_by (some cs) none = none
followed_by (some cs) (some ds) = some (cs ++ ds)

module _ (text : ℕ → List ℕ) (args : ℕ → ℕ) where
  -- The loop of printf behind `n` arguments. Each round takes a character of the format.
  pub printf_loop : (fuel n : ℕ) (fmt : List ℕ) → Option (List ℕ)
  printf_loop zero n fmt = some []
  printf_loop (suc fuel) n [] = some []
  printf_loop (suc fuel) n (cx ∷ fmt) =
      let c0 = letter_at 0 fmt in
      let c1 = if c0 == 0 then 0 else letter_at 1 fmt in
      let c2 = if c1 == 0 then 0 else letter_at 2 fmt in
      let (c, extra) = conversion c0 c1 c2 in
      let plain = printf_loop fuel n fmt in
      let next = printf_loop fuel (n + args_taken c) (drop (extra + 1) fmt) in
      if cx == b'%'
      then followed_by (shown text c0 (args n) c) (go_on c next)
      else followed_by (some (cx ∷ [])) plain

  unfoldable pub printf : (fmt : List ℕ) → Option (List ℕ)
  unfolding printf_loop
  printf fmt = printf_loop (length fmt) 0 fmt
