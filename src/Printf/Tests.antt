-- ===== src/Printf/Tests.antt =====
-- kernel/printf.c: small and large numbers.
use kali.Prelude.{
  ◌≡◌, ◌≤◌, ◌<◌, ◌^◌, ◌↔◌, ◌∷◌, [], refl, true, false, some, none, length, arith, ℕ, List, ◌==◌,
  if◌then◌else◌,
}
use kali.Printf.{printint, fill_buf, digits_loop, print_loop}
use kali.Printf.Format.{printf}
use kali.Printf.Format.Pieces.{
  Piece, plain, numeric, words, sign, int, decimal, spelled, AreSpelled, done, next_plain,
  next_numeric, next_words, next_sign,
}
use kali.Printf.Format.Output.{
  IsOutput, IsKernelText, HaveRoom, no_room, plain_room, number_room, words_room, sign_room,
  int_decimal, printf_lem,
}
use kali.Printf.Digits.{fill_buf_fits_iff}
use kali.Printf.Numbers.{IsNumber, negative_room, printint_lem}

-- -42, with its sign.
negative : printint (18446744073709551574) 10 true ≡ some (45 ∷ 52 ∷ 50 ∷ [])
unfolding printint fill_buf digits_loop print_loop
negative = refl

-- 2 ^ 64 - 1 has 20 digits.
overflows : printint 18446744073709551615 10 false ≡ none
unfolding printint fill_buf digits_loop
overflows = refl

printint_lem_example :
    (cs : List ℕ) × (printint 18446744073709551574 10 true ≡ some cs)
    × IsNumber (2 ^ 63) 10 18446744073709551574 true cs
printint_lem_example =
    printint_lem 18446744073709551574 10 true (negative_room (omega arith) (omega arith))

fill_buf_fits_iff_example :
    (length (fill_buf 18446744073709551615 10 false) ≤ 16) ↔ (18446744073709551615 < 10 ^ 16)
fill_buf_fits_iff_example = fill_buf_fits_iff 18446744073709551615 (omega arith)

-- "%d of %s%%"
abbrev pieces : List Piece
pieces = numeric int decimal ∷ plain b' ' ∷ plain b'o' ∷ plain b'f' ∷ plain b' ' ∷ words ∷ sign ∷ []

pieces-AreSpelled : AreSpelled pieces
pieces-AreSpelled = next_numeric int decimal (
    next_plain (omega arith) (
      next_plain (omega arith)
        (next_plain (omega arith) (next_plain (omega arith) (next_words (next_sign done))))))

-- The first argument is -2, and the string that the second one points to is "x".
abbrev two_args : ℕ → ℕ
two_args n = if n == 0 then 4294967294 else 4096

printed :
    printf (λ a. b'x' ∷ []) two_args (spelled pieces)
    ≡ some (b'-' ∷ b'2' ∷ b' ' ∷ b'o' ∷ b'f' ∷ b' ' ∷ b'x' ∷ b'%' ∷ [])
unfolding printf printint fill_buf digits_loop print_loop
printed = refl

-- A percent sign at the end of the format, and one before a letter that is none.
ends : printf (λ a. []) two_args (b'%' ∷ b'q' ∷ b'%' ∷ []) ≡ some (b'%' ∷ b'q' ∷ [])
unfolding printf
ends = refl

pieces-HaveRoom : HaveRoom two_args 0 pieces
pieces-HaveRoom =
    number_room int_decimal
      (plain_room (plain_room (plain_room (plain_room (words_room (sign_room no_room))))))

printf_lem_example :
    (cs : List ℕ) × (printf (λ a. b'x' ∷ []) two_args (spelled pieces) ≡ some cs)
    × IsOutput IsKernelText (λ a. b'x' ∷ []) two_args 0 pieces cs
printf_lem_example = printf_lem (λ a. b'x' ∷ []) two_args pieces-AreSpelled pieces-HaveRoom
