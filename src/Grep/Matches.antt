-- ===== src/Grep/Matches.antt =====
-- user/grep.c: what the matcher accepts.
use kali.Prelude.{
  ℕ, ◌≡◌, ◌≢◌, ◌⊎◌, ◌↔◌, refl, sym, ap, subst, inl, inr, Bool, true, false, List, [], ◌∷◌, ◌++◌,
  ◌||◌, ◌==◌, if◌then◌else◌, arith, Bool-cases,
}
use kali.Grep.{is_end, matchstar, match_one, matchhere, match_loop, match}

-- The character `c` of an expression stands for the character `t`.
abbrev pub Fits : (c t : ℕ) → Type 0
Fits c t = (c ≡ 46) ⊎ (c ≡ t)

abbrev pub AllFit : (c : ℕ) → List ℕ → Type 0
AllFit c [] = Unit {0}
AllFit c (t ∷ ts) = Fits c t × AllFit c ts

-- Some characters that `c` stands for, and then a text of which P holds.
abbrev pub Repeats : (c : ℕ) → (List ℕ → Type 0) → List ℕ → Type 0
Repeats c P text = (xs : List ℕ) × (ys : List ℕ) × (text ≡ xs ++ ys) × AllFit c xs × P ys

-- One such character, and then a text of which P holds.
abbrev pub OneThen : (c : ℕ) → (List ℕ → Type 0) → List ℕ → Type 0
OneThen c P [] = ⊥
OneThen c P (t ∷ ts) = Fits c t × P ts

-- The text starts with a text that the expression stands for.
abbrev pub Starts : (re text : List ℕ) → Type 0
Starts [] text = Unit {0}
Starts (c ∷ []) text = ((c ≡ 36) × (text ≡ [])) ⊎ ((c ≢ 36) × OneThen c (λ _. Unit {0}) text)
Starts (c ∷ d ∷ re) text =
    ((d ≡ 42) × Repeats c (Starts re) text) ⊎ ((d ≢ 42) × OneThen c (Starts (d ∷ re)) text)

abbrev pub Anywhere : (re text : List ℕ) → Type 0
Anywhere re text = (xs : List ℕ) × (ys : List ℕ) × (text ≡ xs ++ ys) × Starts re ys

-- The expression, behind a caret from the start of the text and else from some place of it.
abbrev pub Finds : (re text : List ℕ) → Type 0
Finds [] text = Anywhere [] text
Finds (c ∷ re) text = ((c ≡ 94) × Starts re text) ⊎ ((c ≢ 94) × Anywhere (c ∷ re) text)

either : (b : Bool) → (if b then true else true) ≡ true
either true = refl
either false = refl

eq-false : (a b : ℕ) → a ≢ b → (a == b) ≡ false
eq-false a b h = ground (arith, h)

module _ (here : List ℕ → Bool) (P : List ℕ → Type 0) (c : ℕ) where
  one_sound :
      ((t : List ℕ) → here t ≡ true → P t)
      → (text : List ℕ) → match_one c here text ≡ true
      → OneThen c P text
  unfolding match_one
  one_sound sound [] h = cc
  one_sound sound (t ∷ ts) h = elim (Bool-cases (c == 46 || c == t)) [
    | inl fits ↦ (ground (arith, fits), sound ts (rw fits at h))
    | inr unfit ↦ let bad = rw unfit at h in cc
  ]

  one_complete :
      ((t : List ℕ) → P t → here t ≡ true)
      → (text : List ℕ) → OneThen c P text
      → match_one c here text ≡ true
  unfolding match_one
  one_complete full [] h = absurd h
  one_complete full (t ∷ ts) h =
      let fits : (c == 46 || c == t) ≡ true = ground (arith, h.0) in rw fits (full ts h.1)

  star_sound :
      ((t : List ℕ) → here t ≡ true → P t)
      → (text : List ℕ) → matchstar here c text ≡ true
      → Repeats c P text
  unfolding matchstar
  star_sound sound [] h = ([], [], refl, tt, sound [] h)
  star_sound sound (t ∷ ts) h = elim (Bool-cases (here (t ∷ ts))) [
    | inl now ↦ ([], t ∷ ts, refl, tt, sound (t ∷ ts) now)
    | inr later ↦ elim (Bool-cases (t == c || c == 46)) [
      | inr unfit ↦ let bad = rw (later, unfit) at h in cc
      | inl fits ↦
          let (xs, ys, e, all, p) = star_sound sound ts (rw (later, fits) at h) in
          (t ∷ xs, ys, ap (λ r. t ∷ r) e, (ground (arith, fits), all), p)
    ]
  ]

  star_complete :
      ((t : List ℕ) → P t → here t ≡ true)
      → (xs ys : List ℕ) → AllFit c xs
      → P ys
      → matchstar here c (xs ++ ys) ≡ true
  unfolding matchstar
  star_complete full [] [] all p = full [] p
  star_complete full [] (y ∷ ys) all p = rw (full (y ∷ ys) p) refl
  star_complete full (x ∷ xs) ys all p =
      let fits : (x == c || c == 46) ≡ true = ground (arith, all.0) in
      rw (fits, star_complete full xs ys all.1 p) (either (here (x ∷ (xs ++ ys))))

end_sound : (text : List ℕ) → is_end text ≡ true → text ≡ []
end_sound [] h = refl
end_sound (t ∷ ts) h = cc

end_complete : (text : List ℕ) → text ≡ [] → is_end text ≡ true
end_complete text e = subst (λ t. is_end t ≡ true) (sym e) refl

matchhere_sound : (re text : List ℕ) → matchhere re text ≡ true → Starts re text
unfolding matchhere
matchhere_sound [] text h = tt
matchhere_sound (c ∷ []) text h = elim (Bool-cases (c == 36)) [
  | inl dollar ↦ inl (ground arith, end_sound text (rw dollar at h))
  | inr other ↦ inr (
    λ e. ground (arith, e, other),
    one_sound (λ _. true) (λ _. Unit {0}) c (λ t e. tt) text (rw other at h),
  )
]
matchhere_sound (c ∷ d ∷ re) text h = elim (Bool-cases (d == 42)) [
  | inl star ↦ inl (
    ground arith,
    star_sound (matchhere re) (Starts re) c (matchhere_sound re) text (rw star at h),
  )
  | inr other ↦ inr (
    λ e. ground (arith, e, other),
    one_sound (matchhere (d ∷ re)) (Starts (d ∷ re)) c (matchhere_sound (d ∷ re)) text
        (rw other at h),
  )
]

matchhere_complete : (re text : List ℕ) → Starts re text → matchhere re text ≡ true
unfolding matchhere
matchhere_complete [] text h = refl
matchhere_complete (c ∷ []) text (inl (e, done)) = rw e (end_complete text done)
matchhere_complete (c ∷ []) text (inr (ne, h)) =
    rw (eq-false c 36 ne) (one_complete (λ _. true) (λ _. Unit {0}) c (λ t _. refl) text h)
matchhere_complete (c ∷ d ∷ re) text (inl (e, (xs, ys, split, all, p))) =
    rw (e, split) (star_complete (matchhere re) (Starts re) c (matchhere_complete re) xs ys all p)
matchhere_complete (c ∷ d ∷ re) text (inr (ne, h)) =
    rw (eq-false d 42 ne)
      (one_complete (matchhere (d ∷ re)) (Starts (d ∷ re)) c (matchhere_complete (d ∷ re)) text h)

loop_sound : (re text : List ℕ) → match_loop re text ≡ true → Anywhere re text
unfolding match_loop
loop_sound re [] h = ([], [], refl, matchhere_sound re [] h)
loop_sound re (t ∷ ts) h = elim (Bool-cases (matchhere re (t ∷ ts))) [
  | inl now ↦ ([], t ∷ ts, refl, matchhere_sound re (t ∷ ts) now)
  | inr later ↦
      let (xs, ys, e, p) = loop_sound re ts (rw later at h) in (t ∷ xs, ys, ap (λ r. t ∷ r) e, p)
]

loop_complete : (re xs ys : List ℕ) → Starts re ys → match_loop re (xs ++ ys) ≡ true
unfolding match_loop
loop_complete re [] [] p = matchhere_complete re [] p
loop_complete re [] (y ∷ ys) p = rw (matchhere_complete re (y ∷ ys) p) refl
loop_complete re (x ∷ xs) ys p =
    rw (loop_complete re xs ys p) (either (matchhere re (x ∷ (xs ++ ys))))

-- match accepts exactly the texts in which the expression is found: behind a caret at the start, and
-- else at any place. A character stands for itself and a dot for any, starred for any number of
-- such characters, and a dollar sign at the end for the end of the text.
pub match_iff : (re text : List ℕ) → (match re text ≡ true) ↔ Finds re text
unfolding match
match_iff re text = (sound re text, complete re text)
  where
    sound : (re text : List ℕ) → match re text ≡ true → Finds re text
    sound [] text h = loop_sound [] text h
    sound (c ∷ re) text h = elim (Bool-cases (c == 94)) [
      | inl caret ↦ inl (ground arith, matchhere_sound re text (rw caret at h))
      | inr other ↦ inr (λ e. ground (arith, e, other), loop_sound (c ∷ re) text (rw other at h))
    ]

    complete : (re text : List ℕ) → Finds re text → match re text ≡ true
    complete [] text (xs, ys, e, p) = rw e (loop_complete [] xs ys p)
    complete (c ∷ re) text (inl (e, p)) = rw e (matchhere_complete re text p)
    complete (c ∷ re) text (inr (ne, (xs, ys, e, p))) =
        rw (eq-false c 94 ne, e) (loop_complete (c ∷ re) xs ys p)
