-- ===== src/Printf.antt =====
-- kernel/printf.c: printint. A `long long` is its 64 bits; what consputc prints is a list of characters, and there is
-- none where the stack is overwritten.
pub mod Digits
pub mod Numbers
pub mod Format
mod Tests
use kali.Prelude.{
  ℕ, zero, suc, ◌+◌, ◌-◌, ◌*◌, ◌/◌, ◌%◌, ◌^◌, Bool, true, false, ◌&&◌, List, [], ◌∷◌, ◌++◌, ◌==◌,
  ltb, leb, if◌then◌else◌, length, Option, none, some,
}

-- `digits[d]`
abbrev pub digit : ℕ → ℕ
digit d = if ltb d 10 then 48 + d else 87 + d

-- The loop that fills `buf`, the last digit first; the first number bounds the rounds.
unfoldable pub digits_loop : (fuel x base : ℕ) → List ℕ
digits_loop zero x base = []
digits_loop (suc fuel) x base =
    let rest = digits_loop fuel (x / base) base in
    digit (x % base) ∷ (if x / base == 0 then [] else rest)

-- The loop that prints `buf` from its end.
unfoldable pub print_loop : List ℕ → List ℕ
print_loop [] = []
print_loop (c ∷ cs) = print_loop cs ++ (c ∷ [])

-- `xx < 0`
abbrev pub is_negative : ℕ → Bool
is_negative xx = leb (2 ^ 63) xx

abbrev pub magnitude : (xx : ℕ) → Bool → ℕ
magnitude xx sign = if sign && is_negative xx then (2 ^ 64 - xx) % 2 ^ 64 else xx

-- The bytes that are stored from `buf[0]` on, of which there may be more than `buf` has; a division by 10 or more
-- leaves 0 of 64 bits within 64 rounds.
pub fill_buf : (xx base : ℕ) → Bool → List ℕ
fill_buf xx base sign =
    digits_loop 64 (magnitude xx sign) base ++ (if sign && is_negative xx then 45 ∷ [] else [])

-- `char buf[16]`
abbrev pub buf_size : ℕ
buf_size = 16

-- What is printed, or none where a byte is stored behind `buf`.
pub printint : (xx base : ℕ) → Bool → Option (List ℕ)
printint xx base sign =
    let cs = fill_buf xx base sign in
    if leb (length cs) buf_size then some (print_loop cs) else none
