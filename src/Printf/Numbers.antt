-- ===== src/Printf/Numbers.antt =====
-- kernel/printf.c: the text that printint prints of a number.
use kali.Prelude.{
  ℕ, zero, suc, ◌+◌, ◌-◌, ◌*◌, ◌/◌, ◌%◌, ◌^◌, ◌≤◌, ◌<◌, ◌≡◌, ◌⊎◌, inl, inr, refl, sym, ap, ◌∙◌,
  Bool, ◌&&◌, ◌||◌, false, true, List, leb, some, [], ◌∷◌, ◌++◌, ◌==◌, ltb, arith, Bool-cases,
  length, length-append, subst, append-nil,
}
use kali.Printf.{digit, digits_loop, print_loop, fill_buf, printint}
use kali.Printf.Digits.{value, undigit, quotient-bound, value-digits_loop, digits_short, plain}

abbrev pub is_digit : (base c : ℕ) → Bool
is_digit base c =
    (leb 48 c && ltb c 58 || leb 65 c && ltb c 71 || leb 97 c && ltb c 103) && ltb (undigit c) base

-- One digit or more.
pub data IsNumeral (base : ℕ) : List ℕ → Type 0 where
  last_digit : {c : ℕ} → is_digit base c ≡ true → IsNumeral base (c ∷ [])
  more_digits :
      {c : ℕ} {cs : List ℕ} → is_digit base c ≡ true → IsNumeral base cs → IsNumeral base (c ∷ cs)

pub IsNumeral-append :
    {base : ℕ} {cs : List ℕ} (c : ℕ)
    → IsNumeral base cs
    → is_digit base c ≡ true
    → IsNumeral base (cs ++ (c ∷ []))
IsNumeral-append c (last_digit e) h = more_digits e (last_digit h)
IsNumeral-append c (more_digits e k) h = more_digits e (IsNumeral-append c k h)

is_digit-digit : (x base : ℕ) → (base ≡ 10) ⊎ (base ≡ 16) → is_digit base (digit (x % base)) ≡ true
is_digit-digit x base (inl e) = rw e (ground arith)
is_digit-digit x base (inr e) = rw e (ground arith)

IsNumeral-digits_loop :
    (fuel x base : ℕ)
    → (base ≡ 10) ⊎ (base ≡ 16)
    → x < 2 ^ fuel
    → 0 < fuel
    → IsNumeral base (print_loop (digits_loop fuel x base))
unfolding print_loop digits_loop
IsNumeral-digits_loop zero x base b small pos = absurd (omega arith)
IsNumeral-digits_loop (suc fuel) x base b small pos = elim (Bool-cases (x / base == 0)) [
  | inl last ↦ rw last (last_digit (is_digit-digit x base b))
  | inr more ↦
      let (s, p) = quotient-bound fuel x base b small more in
      rw more (
        IsNumeral-append _ (IsNumeral-digits_loop fuel (x / base) base b s p)
          (is_digit-digit x base b))
]

-- A text of `xx`, of `2 * half` numbers: with a minus sign before the digits where `sign` asks for one and `xx`
-- is in the upper half.
pub data IsNumber (half base xx : ℕ) : Bool → List ℕ → Type 0 where
  below_zero :
      {ds : List ℕ}
      → half ≤ xx
      → IsNumeral base ds
      → value base ds + xx ≡ 2 * half
      → IsNumber half base xx true (b'-' ∷ ds)
  not_below :
      {ds : List ℕ}
      → xx < half
      → IsNumeral base ds
      → value base ds ≡ xx
      → IsNumber half base xx true ds
  without_sign :
      {ds : List ℕ} → IsNumeral base ds → value base ds ≡ xx → IsNumber half base xx false ds

-- The 64-bit numbers that have 16 characters at most.
pub data HasRoom (xx : ℕ) : (base : ℕ) → Bool → Type 0 where
  decimal_room : (sign : Bool) → xx < 10 ^ 16 → HasRoom xx 10 sign
  negative_room : 2 ^ 64 < xx + 10 ^ 15 → xx < 2 ^ 64 → HasRoom xx 10 true
  hex_room : xx < 2 ^ 64 → HasRoom xx 16 false

pub hex_short : (fuel n x : ℕ) → x < 16 ^ suc n → length (digits_loop fuel x 16) ≤ suc n
unfolding digits_loop
hex_short zero n x small = omega arith
hex_short (suc fuel) zero x small = elim (Bool-cases (x / 16 == 0)) [
  | inl last ↦ rw last (omega arith)
  | inr more ↦ absurd (ground arith)
]
hex_short (suc fuel) (suc n) x small = elim (Bool-cases (x / 16 == 0)) [
  | inl last ↦ rw last (omega arith)
  | inr more ↦
      let power : 16 ^ suc (suc n) ≡ 16 * 16 ^ suc n = omega arith in
      let rest = hex_short fuel n (x / 16) (omega (arith, small, power)) in
      rw more (omega (arith, rest))
]

printint_fits :
    (xx base : ℕ) (sign : Bool)
    → length (fill_buf xx base sign) ≤ 16
    → printint xx base sign ≡ some (print_loop (fill_buf xx base sign))
unfolding printint
printint_fits xx base sign short =
    let fits : leb (length (fill_buf xx base sign)) 16 ≡ true = ground (arith, short) in
    rw fits refl

plain_signed : (xx base : ℕ) → xx < 2 ^ 63 → fill_buf xx base true ≡ digits_loop 64 xx base
unfolding fill_buf
plain_signed xx base small =
    let not_negative : leb (2 ^ 63) xx ≡ false = ground (arith, small) in
    rw not_negative (append-nil (digits_loop 64 xx base))

minus_signed :
    (xx base : ℕ)
    → 2 ^ 63 ≤ xx
    → xx < 2 ^ 64
    → fill_buf xx base true ≡ digits_loop 64 (2 ^ 64 - xx) base ++ (b'-' ∷ [])
unfolding fill_buf
minus_signed xx base large small =
    let negative : leb (2 ^ 63) xx ≡ true = ground (arith, large) in
    let same : (2 ^ 64 - xx) % 2 ^ 64 ≡ 2 ^ 64 - xx = omega arith in
    rw negative (ap (λ m. digits_loop 64 m base ++ (b'-' ∷ [])) same)

pub print_loop-append : (cs : List ℕ) (c : ℕ) → print_loop (cs ++ (c ∷ [])) ≡ c ∷ print_loop cs
unfolding print_loop
print_loop-append [] c = refl
print_loop-append (d ∷ cs) c = ap (λ ds. ds ++ (d ∷ [])) (print_loop-append cs c)

-- A text that is printed from its digits.
number_of :
    (xx base : ℕ) (sign : Bool) (ds : List ℕ)
    → fill_buf xx base sign ≡ ds
    → length ds ≤ 16
    → printint xx base sign ≡ some (print_loop ds)
number_of xx base sign ds e short =
    printint_fits xx base sign (subst (λ cs. length cs ≤ 16) (sym e) short)
    ∙ ap (λ cs. some (print_loop cs)) e

-- Each number that has room in the 16 bytes of `buf` is printed without storing behind `buf`: without a sign
-- every 64-bit number in base 16 and those below 10 ^ 16 in base 10; with a sign, in base 10, those above
-- -10 ^ 15 and below 10 ^ 16. What is printed is one digit or more that read back as the number, behind a
-- minus sign exactly if a sign is asked for and the number is negative.
pub printint_lem :
    (xx base : ℕ) (sign : Bool)
    → HasRoom xx base sign
    → (cs : List ℕ) × (printint xx base sign ≡ some cs) × IsNumber (2 ^ 63) base xx sign cs
printint_lem xx base sign (hex_room small) =
    let ds = digits_loop 64 xx 16 in
    (
      print_loop ds,
      number_of xx 16 false ds (plain xx 16) (hex_short 64 15 xx (omega arith)),
      without_sign (IsNumeral-digits_loop 64 xx 16 (inr refl) (omega arith) (omega arith))
          (value-digits_loop 64 xx 16 (inr refl) small (omega arith)),
    )
printint_lem xx base sign (decimal_room false small) =
    let ds = digits_loop 64 xx 10 in
    (
      print_loop ds,
      number_of xx 10 false ds (plain xx 10) (digits_short 64 15 xx small),
      without_sign (IsNumeral-digits_loop 64 xx 10 (inl refl) (omega arith) (omega arith))
          (value-digits_loop 64 xx 10 (inl refl) (omega arith) (omega arith)),
    )
printint_lem xx base sign (decimal_room true small) =
    let ds = digits_loop 64 xx 10 in
    (
      print_loop ds,
      number_of xx 10 true ds (plain_signed xx 10 (omega arith)) (digits_short 64 15 xx small),
      not_below (omega arith)
          (IsNumeral-digits_loop 64 xx 10 (inl refl) (omega arith) (omega arith))
          (value-digits_loop 64 xx 10 (inl refl) (omega arith) (omega arith)),
    )
printint_lem xx base sign (negative_room large small) =
    let m : ℕ = 2 ^ 64 - xx in
    let ds = digits_loop 64 m 10 in
    let room : length ds ≤ 15 = digits_short 64 14 m (omega arith) in
    let read : value 10 (print_loop ds) ≡ m =
      value-digits_loop 64 m 10 (inl refl) (omega arith) (omega arith) in
    (
      b'-' ∷ print_loop ds,
      number_of xx 10 true (ds ++ (b'-' ∷ [])) (minus_signed xx 10 (omega arith) small)
            (omega (arith, room, length-append ds (b'-' ∷ [])))
          ∙ ap some (print_loop-append ds b'-'),
      below_zero (omega arith)
          (IsNumeral-digits_loop 64 m 10 (inl refl) (omega arith) (omega arith))
          (omega (arith, read)),
    )
