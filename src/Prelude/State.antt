-- ===== src/Prelude/State.antt =====
-- Code over a shared state that may panic: the result with the new state, or `none`.
use mathlib.Core.Path.{◌≡◌, refl}
use mathlib.Core.Bool.{Bool, true, false}
use mathlib.Core.Option.{Option, none, some}

abbrev pub M : Type 0 → Type 0 → Type 0
M S A = S → Option (A × S)

module _ {S : Type 0} where
  abbrev pub pure : {A : Type 0} → A → M S A
  pure a s = some (a, s)

  abbrev pub panic : {A : Type 0} → M S A
  panic s = none

  infixl 5 ◌>>=◌ ◌>>◌
  abbrev pub ◌>>=◌ : {A B : Type 0} → M S A → (A → M S B) → M S B
  ◌>>=◌ m f s = elim (m s) [ none ↦ none | some (a, s') ↦ f a s' ]

  abbrev pub ◌>>◌ : {A B : Type 0} → M S A → M S B → M S B
  m >> k = m >>= λ _. k

  abbrev pub panic_if : Bool → M S (Unit {0})
  panic_if true s = none
  panic_if false s = some (tt, s)

  abbrev pub gets : {A : Type 0} → (S → A) → M S A
  gets f s = some (f s, s)

  abbrev pub modify : (S → S) → M S (Unit {0})
  modify f s = some (tt, f s)

-- A first step that goes through hands over to the rest.
pub >>=-some :
    {S A B : Type 0} (m : M S A) (f : A → M S B) {s : S} {a : A} {s' : S}
    → m s ≡ some (a, s')
    → (m >>= f) s ≡ f a s'
>>=-some m f e = rw (e, ◌>>=◌) refl

pub >>=-none :
    {S A B : Type 0} (m : M S A) (f : A → M S B) {s : S} → m s ≡ none → (m >>= f) s ≡ none
>>=-none m f e = rw (e, ◌>>=◌) refl
