-- ===== src/UserPrintf.antt =====
-- user/printf.c: printint, printptr and vprintf, with what putc writes as a list. A format is the list of its
-- characters before the terminating zero; the arguments are `args`, 64 bits each, and `text` gives the string
-- at an address.
-- The comment of vprintf names %d, %x, %p and %s; the code reads the other conversions too.
pub mod Pieces
pub mod Output
mod Tests
use kali.Prelude.{
  ℕ, zero, suc, ◌+◌, ◌-◌, ◌*◌, ◌/◌, ◌%◌, ◌^◌, Bool, true, false, ◌&&◌, List, [], ◌∷◌, ◌++◌, ◌==◌,
  ltb, leb, if◌then◌else◌, length, drop,
}
use kali.Printf.{print_loop}
use kali.Printf.Format.{letter_at, null_text}

-- `digits[d]`
abbrev pub upper_digit : ℕ → ℕ
upper_digit d = if ltb d 10 then 48 + d else 55 + d

-- The loop that fills `buf`; 32 rounds are enough for a `uint`.
pub fill_loop : (fuel x base : ℕ) → List ℕ
fill_loop zero x base = []
fill_loop (suc fuel) x base =
    let rest = fill_loop fuel (x / base) base in
    upper_digit (x % base) ∷ (if x / base == 0 then [] else rest)

-- `sgn && xx < 0`, for the 32 bits of an `int`.
abbrev pub is_below_zero : (xx : ℕ) → (sgn : Bool) → Bool
is_below_zero xx sgn = sgn && leb (2 ^ 31) xx

-- A `uint` has ten digits at most, so `buf` has room for them and the sign.
pub print_int : (xx base : ℕ) → (sgn : Bool) → List ℕ
print_int xx base sgn =
    let x = if is_below_zero xx sgn then (2 ^ 32 - xx) % 2 ^ 32 else xx in
    print_loop (fill_loop 32 x base ++ (if is_below_zero xx sgn then b'-' ∷ [] else []))

pub pointer_loop : (rounds x : ℕ) → List ℕ
pointer_loop zero x = []
pointer_loop (suc rounds) x = upper_digit (x / 2 ^ 60) ∷ pointer_loop rounds (x * 2 ^ 4 % 2 ^ 64)

pub print_pointer : (x : ℕ) → List ℕ
print_pointer x = b'0' ∷ b'x' ∷ pointer_loop 16 x

-- The branches in the state '%'.
pub data Directive : Type 0 where
  integer : (base : ℕ) (sgn : Bool) → Directive
  pointer_to : Directive
  string_at : Directive
  percent_sign : Directive
  other_letter : Directive

-- The branch for the next three characters, and what is added to `i`.
abbrev pub directive : (c0 c1 c2 : ℕ) → Directive × ℕ
directive c0 c1 c2 =
    if c0 == b'd'
    then (integer 10 true, 0)
    else if c0 == b'l' && c1 == b'd'
    then (integer 10 true, 1)
    else if c0 == b'l' && c1 == b'l' && c2 == b'd'
    then (integer 10 true, 2)
    else if c0 == b'u'
    then (integer 10 false, 0)
    else if c0 == b'l' && c1 == b'u'
    then (integer 10 false, 1)
    else if c0 == b'l' && c1 == b'l' && c2 == b'u'
    then (integer 10 false, 2)
    else if c0 == b'x'
    then (integer 16 false, 0)
    else if c0 == b'l' && c1 == b'x'
    then (integer 16 false, 1)
    else if c0 == b'l' && c1 == b'l' && c2 == b'x'
    then (integer 16 false, 2)
    else if c0 == b'p'
    then (pointer_to, 0)
    else if c0 == b's'
    then (string_at, 0)
    else if c0 == b'%'
    then (percent_sign, 0)
    else (other_letter, 0)

-- What a branch writes; printint takes an `int`, so the lower 32 bits of each argument.
abbrev pub puts_of : (text : ℕ → List ℕ) (c0 word : ℕ) → Directive → List ℕ
puts_of text c0 word (integer base sgn) = print_int (word % 2 ^ 32) base sgn
puts_of text c0 word pointer_to = print_pointer word
puts_of text c0 word string_at = if word == 0 then null_text else text word
puts_of text c0 word percent_sign = b'%' ∷ []
puts_of text c0 word other_letter = b'%' ∷ c0 ∷ []

abbrev pub args_of : Directive → ℕ
args_of (integer base sgn) = 1
args_of pointer_to = 1
args_of string_at = 1
args_of percent_sign = 0
args_of other_letter = 0

module _ (text : ℕ → List ℕ) (args : ℕ → ℕ) where
  -- The loop behind `n` arguments, in the state '%' or not. Each round takes a character of the format.
  pub vprintf_loop : (fuel : ℕ) (in_directive : Bool) (n : ℕ) (fmt : List ℕ) → List ℕ
  vprintf_loop zero state n fmt = []
  vprintf_loop (suc fuel) state n [] = []
  vprintf_loop (suc fuel) false n (c0 ∷ fmt) =
      let after_sign = vprintf_loop fuel true n fmt in
      let plain = vprintf_loop fuel false n fmt in if c0 == b'%' then after_sign else c0 ∷ plain
  vprintf_loop (suc fuel) true n (c0 ∷ fmt) =
      let c1 = letter_at 0 fmt in
      let c2 = if c1 == 0 then 0 else letter_at 1 fmt in
      let (d, extra) = directive c0 c1 c2 in
      puts_of text c0 (args n) d ++ vprintf_loop fuel false (n + args_of d) (drop extra fmt)

  unfoldable pub vprintf : (fmt : List ℕ) → List ℕ
  unfolding vprintf_loop
  vprintf fmt = vprintf_loop (length fmt) false 0 fmt
