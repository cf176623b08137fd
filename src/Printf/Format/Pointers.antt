-- ===== src/Printf/Format/Pointers.antt =====
-- kernel/printf.c: the text that printptr prints of an address.
use kali.Prelude.{
  ℕ, zero, suc, ◌+◌, ◌*◌, ◌/◌, ◌%◌, ◌^◌, ◌≡◌, ◌<◌, refl, ap, ◌∙◌, List, ◌∷◌, length, arith,
}
use kali.Printf.Digits.{value, value_from, undigit-digit}
use kali.Printf.Numbers.{IsNumeral, last_digit, more_digits}
use kali.Printf.Format.{ptr_loop, printptr}

-- `0x` and the 16 digits of an address.
pub data IsAddress (word : ℕ) : List ℕ → Type 0 where
  sixteen_digits :
      {ds : List ℕ}
      → length ds ≡ 16
      → IsNumeral 16 ds
      → value 16 ds ≡ word
      → IsAddress word (b'0' ∷ b'x' ∷ ds)

-- The upper four bits move into the number that is read.
nibble_moves :
    (x acc : ℕ)
    → x < 2 ^ 64
    → x * 2 ^ 4 % 2 ^ 64 + (acc * 16 + x / 2 ^ 60) * 2 ^ 64 ≡ 16 * (x + acc * 2 ^ 64)
nibble_moves x acc small = omega arith

pub nibbles_left :
    (n x acc m : ℕ)
    → x < 2 ^ 64
    → (x + acc * 2 ^ 64) * 16 ^ suc n ≡ m * 2 ^ 64
    → (x * 2 ^ 4 % 2 ^ 64 + (acc * 16 + x / 2 ^ 60) * 2 ^ 64) * 16 ^ n ≡ m * 2 ^ 64
nibbles_left n x acc m small e =
    let power : 16 * 16 ^ n ≡ 16 ^ suc n = omega arith in
    ap (λ k. k * 16 ^ n) (nibble_moves x acc small)
    ∙ shifted (x + acc * 2 ^ 64) (16 ^ n)
    ∙ ap (λ k. (x + acc * 2 ^ 64) * k) power
    ∙ e
  where
    shifted : (y p : ℕ) → 16 * y * p ≡ y * (16 * p)
    shifted y p = grind arith

value-ptr_loop :
    (n x acc m : ℕ)
    → x < 2 ^ 64
    → (x + acc * 2 ^ 64) * 16 ^ n ≡ m * 2 ^ 64
    → value_from 16 acc (ptr_loop n x) ≡ m
unfolding ptr_loop
value-ptr_loop zero x acc m small e = omega (arith, e)
value-ptr_loop (suc n) x acc m small e =
    ap (λ d. value_from 16 (acc * 16 + d) (ptr_loop n (x * 2 ^ 4 % 2 ^ 64)))
      (undigit-digit (x / 2 ^ 60) (omega arith))
    ∙ value-ptr_loop n (x * 2 ^ 4 % 2 ^ 64) (acc * 16 + x / 2 ^ 60) m (omega arith)
        (nibbles_left n x acc m small e)

IsNumeral-ptr_loop : (n x : ℕ) → x < 2 ^ 64 → IsNumeral 16 (ptr_loop (suc n) x)
unfolding ptr_loop
IsNumeral-ptr_loop zero x small = last_digit (ground arith)
IsNumeral-ptr_loop (suc n) x small =
    more_digits (ground arith) (IsNumeral-ptr_loop n (x * 2 ^ 4 % 2 ^ 64) (omega arith))

length-ptr_loop : (n x : ℕ) → length (ptr_loop n x) ≡ n
unfolding ptr_loop
length-ptr_loop zero x = refl
length-ptr_loop (suc n) x = ap suc (length-ptr_loop n (x * 2 ^ 4 % 2 ^ 64))

pub printptr-IsAddress : (word : ℕ) → word < 2 ^ 64 → IsAddress word (printptr word)
unfolding printptr
printptr-IsAddress word small =
    sixteen_digits (length-ptr_loop 16 word) (IsNumeral-ptr_loop 15 word small)
      (value-ptr_loop 16 word 0 word small (omega arith))
