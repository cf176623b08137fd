-- ===== src/UserPrintf/Pieces.antt =====
-- user/printf.c: formats that are put together from the pieces of kernel/printf.c.
use kali.Prelude.{
  ℕ, zero, suc, ◌+◌, ◌%◌, ◌^◌, ◌≡◌, ◌≤◌, refl, ap, ◌∙◌, true, false, List, [], ◌∷◌, ◌++◌, ◌==◌,
  if◌then◌else◌, length, arith, ne→==,
}
use kali.Printf.Format.{null_text}
use kali.Printf.Format.Pieces.{
  Piece, plain, numeric, address, words, sign, Width, int, long, long_long, Radix, decimal,
  unsigned, hex, letters, letter, spell, spelled, AreSpelled, done, next_plain, next_numeric,
  next_address, next_words, next_sign,
}
use kali.UserPrintf.{print_int, print_pointer, vprintf_loop, vprintf}

abbrev pub int_in : Radix → (xx : ℕ) → List ℕ
int_in decimal xx = print_int xx 10 true
int_in unsigned xx = print_int xx 10 false
int_in hex xx = print_int xx 16 false

-- The output of the pieces, each with the arguments from `n` on: `l` and `ll` change nothing.
abbrev pub user_output : (text : ℕ → List ℕ) (args : ℕ → ℕ) (n : ℕ) → List Piece → List ℕ
user_output text args n [] = []
user_output text args n (plain c ∷ ps) = c ∷ user_output text args n ps
user_output text args n (numeric w r ∷ ps) =
    int_in r (args n % 2 ^ 32) ++ user_output text args (n + 1) ps
user_output text args n (address ∷ ps) = print_pointer (args n) ++ user_output text args (n + 1) ps
user_output text args n (words ∷ ps) =
    (if args n == 0 then null_text else text (args n)) ++ user_output text args (n + 1) ps
user_output text args n (sign ∷ ps) = b'%' ∷ user_output text args n ps

module _ (text : ℕ → List ℕ) (args : ℕ → ℕ) where
  numeric_round :
      (w : Width) (r : Radix) (fuel n : ℕ) (k : List ℕ)
      → vprintf_loop text args (suc (suc fuel)) false n (spell (numeric w r) k)
        ≡ int_in r (args n % 2 ^ 32) ++ vprintf_loop text args fuel false (n + 1) k
  unfolding vprintf_loop
  numeric_round int decimal fuel n k = refl
  numeric_round int unsigned fuel n k = refl
  numeric_round int hex fuel n k = refl
  numeric_round long decimal fuel n k = refl
  numeric_round long unsigned fuel n k = refl
  numeric_round long hex fuel n k = refl
  numeric_round long_long decimal fuel n k = refl
  numeric_round long_long unsigned fuel n k = refl
  numeric_round long_long hex fuel n k = refl

  letters_longer : (w : Width) (k : List ℕ) → length k ≤ length (letters w k)
  letters_longer int k = omega arith
  letters_longer long k = omega arith
  letters_longer long_long k = omega arith

  round_lem :
      {ps : List Piece} (fuel n : ℕ)
      → AreSpelled ps
      → length (spelled ps) ≤ fuel
      → vprintf_loop text args fuel false n (spelled ps) ≡ user_output text args n ps
  unfolding vprintf_loop
  round_lem zero n done h = refl
  round_lem (suc fuel) n done h = refl
  round_lem zero n (next_plain c s) h = absurd (omega arith)
  round_lem zero n (next_numeric w r s) h = absurd (omega arith)
  round_lem zero n (next_address s) h = absurd (omega arith)
  round_lem zero n (next_words s) h = absurd (omega arith)
  round_lem zero n (next_sign s) h = absurd (omega arith)
  round_lem (suc fuel) n (next_plain {c} ne s) h =
      rw (ne→== c b'%' ne, round_lem fuel n s (omega arith)) refl
  round_lem (suc zero) n (next_numeric {ps} w r s) h =
      absurd (omega (arith, letters_longer w (letter r ∷ spelled ps)))
  round_lem (suc zero) n (next_address s) h = absurd (omega arith)
  round_lem (suc zero) n (next_words s) h = absurd (omega arith)
  round_lem (suc zero) n (next_sign s) h = absurd (omega arith)
  round_lem (suc (suc fuel)) n (next_numeric {ps} w r s) h =
      numeric_round w r fuel n (spelled ps)
      ∙ ap (λ k. int_in r (args n % 2 ^ 32) ++ k)
          (round_lem fuel (n + 1) s (omega (arith, letters_longer w (letter r ∷ spelled ps))))
  round_lem (suc (suc fuel)) n (next_address s) h = rw (round_lem fuel (n + 1) s (omega arith)) refl
  round_lem (suc (suc fuel)) n (next_words s) h = rw (round_lem fuel (n + 1) s (omega arith)) refl
  round_lem (suc (suc fuel)) n (next_sign {ps} s) h =
      let same : n + 0 ≡ n = omega arith in
      ap (λ k. b'%' ∷ k)
        (round_lem fuel (n + 0) s (omega arith) ∙ ap (λ m. user_output text args m ps) same)

pub vprintf-user_output :
    (text : ℕ → List ℕ) (args : ℕ → ℕ) {ps : List Piece}
    → AreSpelled ps
    → vprintf text args (spelled ps) ≡ user_output text args 0 ps
unfolding vprintf
vprintf-user_output text args {ps} s = round_lem text args (length (spelled ps)) 0 s (omega arith)
