-- ===== src/Printf/Digits.antt =====
-- kernel/printf.c: the number that printint prints, and the room that it takes in `buf`.
use kali.Prelude.{
  ℕ, zero, suc, ◌+◌, ◌-◌, ◌*◌, ◌/◌, ◌%◌, ◌^◌, ◌≤◌, ◌<◌, ◌≡◌, ◌⊎◌, inl, inr, refl, sym, ap, ◌∙◌,
  false, List, [], ◌∷◌, ◌++◌, ◌==◌, ltb, if◌then◌else◌, arith, Bool-cases, length, subst,
  append-nil, ◌↔◌,
}
use kali.Printf.{digit, digits_loop, print_loop, fill_buf}

-- The digit that a character stands for; those from 10 on are lower or upper case letters.
abbrev pub undigit : ℕ → ℕ
undigit c = if ltb c 58 then c - 48 else if ltb c 97 then c - 55 else c - 87

-- The number that a text of digits stands for, behind digits that stand for `acc`.
abbrev pub value_from : (base acc : ℕ) → List ℕ → ℕ
value_from base acc [] = acc
value_from base acc (c ∷ cs) = value_from base (acc * base + undigit c) cs

-- The number that a text stands for, behind a sign or not.
abbrev pub value : (base : ℕ) → List ℕ → ℕ
value base cs = value_from base 0 cs

pub value-append :
    (base acc : ℕ) (xs : List ℕ) (c : ℕ)
    → value_from base acc (xs ++ (c ∷ [])) ≡ value_from base acc xs * base + undigit c
value-append base acc [] c = refl
value-append base acc (x ∷ xs) c = value-append base (acc * base + undigit x) xs c

pub undigit-digit : (d : ℕ) → d < 16 → undigit (digit d) ≡ d
undigit-digit d h = ground (arith, h)

round_trip :
    (x base : ℕ) → (base ≡ 10) ⊎ (base ≡ 16) → x / base * base + undigit (digit (x % base)) ≡ x
round_trip x base (inl e) = rw e (rw (undigit-digit (x % 10) (omega arith)) (omega arith))
round_trip x base (inr e) = rw e (rw (undigit-digit (x % 16) (omega arith)) (omega arith))

pub quotient-bound :
    (fuel x base : ℕ)
    → (base ≡ 10) ⊎ (base ≡ 16)
    → x < 2 ^ suc fuel
    → (x / base == 0) ≡ false
    → (x / base < 2 ^ fuel) × (0 < fuel)
quotient-bound zero x base (inl e) small more = absurd (ground (arith, e))
quotient-bound zero x base (inr e) small more = absurd (ground (arith, e))
quotient-bound (suc fuel) x base (inl e) small more =
    let power : 2 ^ suc (suc fuel) ≡ 2 * 2 ^ suc fuel = omega arith in
    (rw e (omega (arith, small, power)), omega arith)
quotient-bound (suc fuel) x base (inr e) small more =
    let power : 2 ^ suc (suc fuel) ≡ 2 * 2 ^ suc fuel = omega arith in
    (rw e (omega (arith, small, power)), omega arith)

pub value-digits_loop :
    (fuel x base : ℕ)
    → (base ≡ 10) ⊎ (base ≡ 16)
    → x < 2 ^ fuel
    → 0 < fuel
    → value base (print_loop (digits_loop fuel x base)) ≡ x
unfolding print_loop digits_loop
value-digits_loop zero x base b small pos = absurd (omega arith)
value-digits_loop (suc fuel) x base b small pos = elim (Bool-cases (x / base == 0)) [
  | inl last ↦
      let none_left : x / base ≡ 0 = ground (arith, last) in
      rw last
        (ap (λ q. q * base + undigit (digit (x % base))) (sym none_left) ∙ round_trip x base b)
  | inr more ↦
      let (s, p) = quotient-bound fuel x base b small more in
      rw more (
        value-append base 0 (print_loop (digits_loop fuel (x / base) base)) (digit (x % base))
        ∙ ap (λ q. q * base + undigit (digit (x % base)))
            (value-digits_loop fuel (x / base) base b s p)
        ∙ round_trip x base b)
]

pub digits_short : (fuel n x : ℕ) → x < 10 ^ suc n → length (digits_loop fuel x 10) ≤ suc n
unfolding digits_loop
digits_short zero n x small = omega arith
digits_short (suc fuel) zero x small = elim (Bool-cases (x / 10 == 0)) [
  | inl last ↦ rw last (omega arith)
  | inr more ↦ absurd (ground arith)
]
digits_short (suc fuel) (suc n) x small = elim (Bool-cases (x / 10 == 0)) [
  | inl last ↦ rw last (omega arith)
  | inr more ↦
      let power : 10 ^ suc (suc n) ≡ 10 * 10 ^ suc n = omega arith in
      let rest = digits_short fuel n (x / 10) (omega (arith, small, power)) in
      rw more (omega (arith, rest))
]

power_pos : (n : ℕ) → 1 ≤ 10 ^ n
power_pos zero = omega arith
power_pos (suc n) =
    let power : 10 ^ suc n ≡ 10 * 10 ^ n = omega arith in omega (arith, power, power_pos n)

digits_long :
    (fuel n x : ℕ) → x < 2 ^ fuel → length (digits_loop fuel x 10) ≤ n → 0 < fuel → x < 10 ^ n
unfolding digits_loop
digits_long zero n x small h pos = absurd (omega arith)
digits_long (suc fuel) zero x small h pos = absurd (omega (arith, h))
digits_long (suc fuel) (suc n) x small h pos =
    let power : 10 ^ suc n ≡ 10 * 10 ^ n = omega arith in
    elim (Bool-cases (x / 10 == 0)) [
      | inl last ↦
          let none_left : x / 10 ≡ 0 = ground (arith, last) in
          omega (arith, power, power_pos n, none_left)
      | inr more ↦
          let (s, p) = quotient-bound fuel x 10 (inl refl) small more in
          let h2 = rw more at h in
          let rest = digits_long fuel n (x / 10) s (omega (arith, h2)) p in
          omega (arith, rest, power)
    ]

pub plain : (xx base : ℕ) → fill_buf xx base false ≡ digits_loop 64 xx base
unfolding fill_buf
plain xx base = append-nil (digits_loop 64 xx base)

-- In base 10 and without a sign, the digits fit in the 16 bytes of `buf` exactly for numbers below
-- 10 ^ 16.
pub fill_buf_fits_iff :
    (xx : ℕ) → xx < 2 ^ 64 → (length (fill_buf xx 10 false) ≤ 16) ↔ (xx < 10 ^ 16)
fill_buf_fits_iff xx small = (
  λ h. digits_long 64 16 xx small (subst (λ cs. length cs ≤ 16) (plain xx 10) h) (omega arith),
  λ h. subst (λ cs. length cs ≤ 16) (sym (plain xx 10)) (digits_short 64 15 xx h),
)
