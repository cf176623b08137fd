-- ===== src/UserPrintf/Output.antt =====
-- user/printf.c: what vprintf prints of a format that is put together from pieces, read back.
use kali.Prelude.{
  ℕ, zero, suc, ◌+◌, ◌-◌, ◌*◌, ◌/◌, ◌%◌, ◌^◌, ◌≡◌, ◌≤◌, ◌<◌, ◌⊎◌, inl, inr, refl, sym, subst, ap,
  ◌∙◌, Bool, true, false, List, [], ◌∷◌, ◌++◌, ◌==◌, leb, length, arith, Bool-cases, append-nil,
}
use kali.Printf.{print_loop, digits_loop}
use kali.Printf.Digits.{value, value_from, undigit, value-append, quotient-bound, digits_short}
use kali.Printf.Numbers.{
  hex_short, print_loop-append, is_digit, IsNumeral, last_digit, more_digits, IsNumeral-append,
  IsNumber, below_zero, not_below, without_sign,
}
use kali.Printf.Format.Pieces.{
  Piece, plain, numeric, address, words, sign, Width, Radix, decimal, unsigned, hex, spelled,
  AreSpelled,
}
use kali.Printf.Format.Output.{
  IsOutput, no_piece, put_plain, put_number, put_address, put_words, put_sign,
}
use kali.Printf.Format.Pointers.{IsAddress, sixteen_digits, nibbles_left}
use kali.UserPrintf.{upper_digit, fill_loop, print_int, pointer_loop, print_pointer, vprintf}
use kali.UserPrintf.Pieces.{int_in, user_output, vprintf-user_output}

undigit-upper_digit : (d : ℕ) → d < 16 → undigit (upper_digit d) ≡ d
undigit-upper_digit d h = ground (arith, h)

whole_again :
    (x base : ℕ)
    → (base ≡ 10) ⊎ (base ≡ 16)
    → x / base * base + undigit (upper_digit (x % base)) ≡ x
whole_again x base (inl e) = rw e (rw (undigit-upper_digit (x % 10) (omega arith)) (omega arith))
whole_again x base (inr e) = rw e (rw (undigit-upper_digit (x % 16) (omega arith)) (omega arith))

value-fill_loop :
    (fuel x base : ℕ)
    → (base ≡ 10) ⊎ (base ≡ 16)
    → x < 2 ^ fuel
    → 0 < fuel
    → value base (print_loop (fill_loop fuel x base)) ≡ x
unfolding print_loop fill_loop
value-fill_loop zero x base b small pos = absurd (omega arith)
value-fill_loop (suc fuel) x base b small pos = elim (Bool-cases (x / base == 0)) [
  | inl last ↦
      let none_left : x / base ≡ 0 = ground (arith, last) in
      rw last (
        ap (λ q. q * base + undigit (upper_digit (x % base))) (sym none_left)
        ∙ whole_again x base b)
  | inr more ↦
      let (s, p) = quotient-bound fuel x base b small more in
      rw more (
        value-append base 0 (print_loop (fill_loop fuel (x / base) base)) (upper_digit (x % base))
        ∙ ap (λ q. q * base + undigit (upper_digit (x % base)))
            (value-fill_loop fuel (x / base) base b s p)
        ∙ whole_again x base b)
]

is_digit-upper_digit :
    (x base : ℕ) → (base ≡ 10) ⊎ (base ≡ 16) → is_digit base (upper_digit (x % base)) ≡ true
is_digit-upper_digit x base (inl e) = rw e (ground arith)
is_digit-upper_digit x base (inr e) = rw e (ground arith)

IsNumeral-fill_loop :
    (fuel x base : ℕ)
    → (base ≡ 10) ⊎ (base ≡ 16)
    → x < 2 ^ fuel
    → 0 < fuel
    → IsNumeral base (print_loop (fill_loop fuel x base))
unfolding print_loop fill_loop
IsNumeral-fill_loop zero x base b small pos = absurd (omega arith)
IsNumeral-fill_loop (suc fuel) x base b small pos = elim (Bool-cases (x / base == 0)) [
  | inl last ↦ rw last (last_digit (is_digit-upper_digit x base b))
  | inr more ↦
      let (s, p) = quotient-bound fuel x base b small more in
      rw more (
        IsNumeral-append _ (IsNumeral-fill_loop fuel (x / base) base b s p)
          (is_digit-upper_digit x base b))
]

plain_fill :
    (xx base : ℕ)
    → xx < 2 ^ 32
    → (base ≡ 10) ⊎ (base ≡ 16)
    → IsNumeral base (print_loop (fill_loop 32 xx base ++ []))
      × (value base (print_loop (fill_loop 32 xx base ++ [])) ≡ xx)
plain_fill xx base small b = rw (append-nil (fill_loop 32 xx base)) (
  IsNumeral-fill_loop 32 xx base b small (omega arith),
  value-fill_loop 32 xx base b small (omega arith),
)

-- Printed in base 10 or 16, a number of 32 bits reads back as itself, with the sign of an `int` if asked for.
print_int_lem :
    (xx base : ℕ) (sgn : Bool)
    → xx < 2 ^ 32
    → (base ≡ 10) ⊎ (base ≡ 16)
    → IsNumber (2 ^ 31) base xx sgn (print_int xx base sgn)
unfolding print_int
print_int_lem xx base false small b =
    let (digits, read) = plain_fill xx base small b in without_sign digits read
print_int_lem xx base true small b = elim (Bool-cases (leb (2 ^ 31) xx)) [
  | inr positive ↦
      let (digits, read) = plain_fill xx base small b in
      rw positive (not_below (ground (arith, positive)) digits read)
  | inl negative ↦
      let m = (2 ^ 32 - xx) % 2 ^ 32 in
      let ds = fill_loop 32 m base in
      let large : 2 ^ 31 ≤ xx = ground (arith, negative) in
      let read = value-fill_loop 32 m base b (omega arith) (omega arith) in
      let whole : m + xx ≡ 2 * 2 ^ 31 = omega (arith, large) in
      rw negative (
        subst (IsNumber (2 ^ 31) base xx true) (sym (print_loop-append ds b'-')) (
          below_zero large (IsNumeral-fill_loop 32 m base b (omega arith) (omega arith))
            (ap (λ k. k + xx) read ∙ whole)))
]

-- As many digits as the kernel's printint stores.
length-fill_loop :
    (fuel x base : ℕ) → length (fill_loop fuel x base) ≡ length (digits_loop fuel x base)
unfolding fill_loop digits_loop
length-fill_loop zero x base = refl
length-fill_loop (suc fuel) x base = elim (Bool-cases (x / base == 0)) [
  | inl last ↦ rw last refl
  | inr more ↦ rw more (ap suc (length-fill_loop fuel (x / base) base))
]

fill_loop_short :
    (x base : ℕ) → x < 2 ^ 32 → (base ≡ 10) ⊎ (base ≡ 16) → length (fill_loop 32 x base) ≤ 10
fill_loop_short x base small (inl e) =
    subst (λ b. length (fill_loop 32 x b) ≤ 10) (sym e)
      (subst (λ k. k ≤ 10) (sym (length-fill_loop 32 x 10)) (digits_short 32 9 x (omega arith)))
fill_loop_short x base small (inr e) =
    subst (λ b. length (fill_loop 32 x b) ≤ 10) (sym e)
      (subst (λ k. k ≤ 10) (sym (length-fill_loop 32 x 16)) (hex_short 32 9 x (omega arith)))

value-pointer_loop :
    (n x acc m : ℕ)
    → x < 2 ^ 64
    → (x + acc * 2 ^ 64) * 16 ^ n ≡ m * 2 ^ 64
    → value_from 16 acc (pointer_loop n x) ≡ m
unfolding pointer_loop
value-pointer_loop zero x acc m small e = omega (arith, e)
value-pointer_loop (suc n) x acc m small e =
    ap (λ d. value_from 16 (acc * 16 + d) (pointer_loop n (x * 2 ^ 4 % 2 ^ 64)))
      (undigit-upper_digit (x / 2 ^ 60) (omega arith))
    ∙ value-pointer_loop n (x * 2 ^ 4 % 2 ^ 64) (acc * 16 + x / 2 ^ 60) m (omega arith)
        (nibbles_left n x acc m small e)

IsNumeral-pointer_loop : (n x : ℕ) → x < 2 ^ 64 → IsNumeral 16 (pointer_loop (suc n) x)
unfolding pointer_loop
IsNumeral-pointer_loop zero x small = last_digit (ground arith)
IsNumeral-pointer_loop (suc n) x small =
    more_digits (ground arith) (IsNumeral-pointer_loop n (x * 2 ^ 4 % 2 ^ 64) (omega arith))

length-pointer_loop : (n x : ℕ) → length (pointer_loop n x) ≡ n
unfolding pointer_loop
length-pointer_loop zero x = refl
length-pointer_loop (suc n) x = ap suc (length-pointer_loop n (x * 2 ^ 4 % 2 ^ 64))

print_pointer-IsAddress : (word : ℕ) → word < 2 ^ 64 → IsAddress word (print_pointer word)
unfolding print_pointer
print_pointer-IsAddress word small =
    sixteen_digits (length-pointer_loop 16 word) (IsNumeral-pointer_loop 15 word small)
      (value-pointer_loop 16 word 0 word small (omega arith))

-- How vprintf prints a number: of any width, as an `int` or `uint`.
abbrev pub IsUserText : Width → Radix → (word : ℕ) → List ℕ → Type 0
IsUserText w decimal word cs = IsNumber (2 ^ 31) 10 (word % 2 ^ 32) true cs
IsUserText w unsigned word cs = IsNumber (2 ^ 31) 10 (word % 2 ^ 32) false cs
IsUserText w hex word cs = IsNumber (2 ^ 31) 16 (word % 2 ^ 32) false cs

int_in_lem : (w : Width) (r : Radix) (word : ℕ) → IsUserText w r word (int_in r (word % 2 ^ 32))
int_in_lem w decimal word = print_int_lem (word % 2 ^ 32) 10 true (omega arith) (inl refl)
int_in_lem w unsigned word = print_int_lem (word % 2 ^ 32) 10 false (omega arith) (inl refl)
int_in_lem w hex word = print_int_lem (word % 2 ^ 32) 16 false (omega arith) (inr refl)

module _ (text : ℕ → List ℕ) (args : ℕ → ℕ) (small : (n : ℕ) → args n < 2 ^ 64) where
  user_output_lem :
      (n : ℕ) (ps : List Piece) → IsOutput IsUserText text args n ps (user_output text args n ps)
  user_output_lem n [] = no_piece
  user_output_lem n (plain c ∷ ps) = put_plain (user_output_lem n ps)
  user_output_lem n (numeric w r ∷ ps) =
      put_number (int_in_lem w r (args n)) (user_output_lem (n + 1) ps)
  user_output_lem n (address ∷ ps) =
      put_address (print_pointer-IsAddress (args n) (small n)) (user_output_lem (n + 1) ps)
  user_output_lem n (words ∷ ps) = put_words (user_output_lem (n + 1) ps)
  user_output_lem n (sign ∷ ps) = put_sign (user_output_lem n ps)

-- A format is put together from characters other than a percent sign and the conversions %d, %u, %x with their
-- `l` and `ll`, %p, %s and %%, and each argument has 64 bits. Then vprintf prints the pieces one after the
-- other, each conversion with the next argument: of a number of any width its lower 32 bits, as one digit
-- or more that read back as them, with a minus sign exactly where %d has a negative `int`; a pointer as 0x and 16 digits
-- that read back as it; a string as it is, or (null).
pub vprintf_lem :
    (text : ℕ → List ℕ) (args : ℕ → ℕ) {ps : List Piece}
    → ((n : ℕ) → args n < 2 ^ 64)
    → AreSpelled ps
    → IsOutput IsUserText text args 0 ps (vprintf text args (spelled ps))
vprintf_lem text args {ps} small s =
    subst (IsOutput IsUserText text args 0 ps) (sym (vprintf-user_output text args s))
      (user_output_lem text args small 0 ps)
