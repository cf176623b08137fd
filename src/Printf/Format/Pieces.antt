-- ===== src/Printf/Format/Pieces.antt =====
-- kernel/printf.c: formats that are put together from pieces.
use kali.Prelude.{
  ℕ, zero, suc, ◌+◌, ◌≡◌, ◌≢◌, ◌≤◌, refl, ap, ◌∙◌, true, false, List, [], ◌∷◌, ◌==◌, if◌then◌else◌,
  length, arith, ne→==, Option, some,
}
use kali.Printf.{printint}
use kali.Printf.Format.{sign_extend, followed_by, printf_loop, printf, printptr, null_text}

-- A character, or a conversion with its letters: `%d`, `%ld`, `%lld`, `%u`, `%lu`, `%llu`, `%x`, `%lx`,
-- `%llx`, `%p`, `%s`, `%%`.
pub data Width : Type 0 where
  int : Width
  long : Width
  long_long : Width

pub data Radix : Type 0 where
  decimal : Radix
  unsigned : Radix
  hex : Radix

pub data Piece : Type 0 where
  plain : ℕ → Piece
  numeric : Width → Radix → Piece
  address : Piece
  words : Piece
  sign : Piece

abbrev pub letters : Width → (k : List ℕ) → List ℕ
letters int k = k
letters long k = b'l' ∷ k
letters long_long k = b'l' ∷ b'l' ∷ k

abbrev pub letter : Radix → ℕ
letter decimal = b'd'
letter unsigned = b'u'
letter hex = b'x'

abbrev pub spell : Piece → (k : List ℕ) → List ℕ
spell (plain c) k = c ∷ k
spell (numeric w r) k = b'%' ∷ letters w (letter r ∷ k)
spell address k = b'%' ∷ b'p' ∷ k
spell words k = b'%' ∷ b's' ∷ k
spell sign k = b'%' ∷ b'%' ∷ k

abbrev pub spelled : List Piece → List ℕ
spelled [] = []
spelled (p ∷ ps) = spell p (spelled ps)

-- The number that printint is given.
abbrev pub widened : Width → (word : ℕ) → ℕ
widened int word = sign_extend word
widened long word = word
widened long_long word = word

abbrev pub in_radix : Radix → (xx : ℕ) → Option (List ℕ)
in_radix decimal xx = printint xx 10 true
in_radix unsigned xx = printint xx 10 false
in_radix hex xx = printint xx 16 false

-- The output of the pieces, each with the arguments from `n` on.
abbrev pub output : (text : ℕ → List ℕ) (args : ℕ → ℕ) (n : ℕ) → List Piece → Option (List ℕ)
output text args n [] = some []
output text args n (plain c ∷ ps) = followed_by (some (c ∷ [])) (output text args n ps)
output text args n (numeric w r ∷ ps) =
    followed_by (in_radix r (widened w (args n))) (output text args (n + 1) ps)
output text args n (address ∷ ps) =
    followed_by (some (printptr (args n))) (output text args (n + 1) ps)
output text args n (words ∷ ps) =
    followed_by (some (if args n == 0 then null_text else text (args n)))
      (output text args (n + 1) ps)
output text args n (sign ∷ ps) = followed_by (some (b'%' ∷ [])) (output text args n ps)

-- No piece that is a plain character is a percent sign.
pub data AreSpelled : List Piece → Type 0 where
  done : AreSpelled []
  next_plain : {c : ℕ} {ps : List Piece} → c ≢ b'%' → AreSpelled ps → AreSpelled (plain c ∷ ps)
  next_numeric :
      {ps : List Piece} (w : Width) (r : Radix) → AreSpelled ps → AreSpelled (numeric w r ∷ ps)
  next_address : {ps : List Piece} → AreSpelled ps → AreSpelled (address ∷ ps)
  next_words : {ps : List Piece} → AreSpelled ps → AreSpelled (words ∷ ps)
  next_sign : {ps : List Piece} → AreSpelled ps → AreSpelled (sign ∷ ps)

module _ (text : ℕ → List ℕ) (args : ℕ → ℕ) where
  numeric_lem :
      (w : Width) (r : Radix) (fuel n : ℕ) (k : List ℕ)
      → printf_loop text args (suc fuel) n (spell (numeric w r) k)
        ≡ followed_by (in_radix r (widened w (args n))) (printf_loop text args fuel (n + 1) k)
  unfolding printf_loop
  numeric_lem int decimal fuel n k = refl
  numeric_lem int unsigned fuel n k = refl
  numeric_lem int hex fuel n k = refl
  numeric_lem long decimal fuel n k = refl
  numeric_lem long unsigned fuel n k = refl
  numeric_lem long hex fuel n k = refl
  numeric_lem long_long decimal fuel n k = refl
  numeric_lem long_long unsigned fuel n k = refl
  numeric_lem long_long hex fuel n k = refl

  letters_long : (w : Width) (k : List ℕ) → length k ≤ length (letters w k)
  letters_long int k = omega arith
  letters_long long k = omega arith
  letters_long long_long k = omega arith

  loop_lem :
      {ps : List Piece} (fuel n : ℕ)
      → AreSpelled ps
      → length (spelled ps) ≤ fuel
      → printf_loop text args fuel n (spelled ps) ≡ output text args n ps
  unfolding printf_loop
  loop_lem zero n done h = refl
  loop_lem (suc fuel) n done h = refl
  loop_lem zero n (next_plain c s) h = absurd (omega arith)
  loop_lem zero n (next_numeric w r s) h = absurd (omega arith)
  loop_lem zero n (next_address s) h = absurd (omega arith)
  loop_lem zero n (next_words s) h = absurd (omega arith)
  loop_lem zero n (next_sign s) h = absurd (omega arith)
  loop_lem (suc fuel) n (next_plain {c} ne s) h =
      rw (ne→== c b'%' ne, loop_lem fuel n s (omega arith)) refl
  loop_lem (suc fuel) n (next_numeric {ps} w r s) h =
      numeric_lem w r fuel n (spelled ps)
      ∙ ap (followed_by (in_radix r (widened w (args n))))
          (loop_lem fuel (n + 1) s (omega (arith, letters_long w (letter r ∷ spelled ps))))
  loop_lem (suc fuel) n (next_address s) h = rw (loop_lem fuel (n + 1) s (omega arith)) refl
  loop_lem (suc fuel) n (next_words s) h = rw (loop_lem fuel (n + 1) s (omega arith)) refl
  loop_lem (suc fuel) n (next_sign {ps} s) h =
      let same : n + 0 ≡ n = omega arith in
      ap (followed_by (some (b'%' ∷ [])))
        (loop_lem fuel (n + 0) s (omega arith) ∙ ap (λ m. output text args m ps) same)

pub printf-output :
    (text : ℕ → List ℕ) (args : ℕ → ℕ) {ps : List Piece}
    → AreSpelled ps
    → printf text args (spelled ps) ≡ output text args 0 ps
unfolding printf
printf-output text args {ps} s = loop_lem text args (length (spelled ps)) 0 s (omega arith)
