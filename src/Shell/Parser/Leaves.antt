-- ===== src/Shell/Parser/Leaves.antt =====
-- user/sh.c: the part of a text that the lexer leaves, and what it is for the parser's functions.
use kali.Prelude.{
  ℕ, ◌≡◌, ◌≤◌, ◌<◌, refl, Bool, true, false, [], ◌∷◌, if◌then◌else◌, length, arith, ◌⊎◌, inl, inr,
  Bool-cases,
}
use kali.Shell.{
  Text, is_space, is_symbol, skip_spaces, take_word, token_at, after_greater, gettoken, peek,
  word_token,
}
use kali.Shell.Parser.{Parsed, ok, syntax, ◌>>=◌, branch}

-- A result that is not for want of fuel, and whose text `left` has at most `n` characters.
pub data Leaves {A : Type 0} (left : A → Text) (n : ℕ) : Parsed A → Type 0 where
  leaves : {a : A} → length (left a) ≤ n → Leaves left n (ok a)
  fails : Leaves left n syntax

abbrev pub second : {A : Type 0} → A × Text → Text
second r = r.1

abbrev pub third : {A B : Type 0} → A × B × Text → Text
third r = r.2

pub Leaves-bind :
    {A B : Type 0} {m n : ℕ} (left : A → Text) (left' : B → Text) {r : Parsed A} (f : A → Parsed B)
    → Leaves left m r
    → ((a : A) → length (left a) ≤ m → Leaves left' n (f a))
    → Leaves left' n (r >>= f)
Leaves-bind left left' f (leaves {a} h) g = g a h
Leaves-bind left left' f fails g = fails

pub Leaves-less :
    {A : Type 0} {left : A → Text} {m n : ℕ} {r : Parsed A}
    → Leaves left m r
    → m ≤ n
    → Leaves left n r
Leaves-less (leaves h) le = leaves (omega arith)
Leaves-less fails le = fails

skip_shorter : (s : Text) → length (skip_spaces s) ≤ length s
unfolding skip_spaces
skip_shorter [] = omega arith
skip_shorter (c ∷ cs) = ground (arith, skip_shorter cs)

take_word_shorter : (s : Text) → length (take_word s).1 ≤ length s
unfolding take_word
take_word_shorter [] = omega arith
take_word_shorter (c ∷ cs) = ground (arith, take_word_shorter cs)

after_greater_shorter : (s : Text) → length (after_greater s).rest ≤ length s
unfolding after_greater
after_greater_shorter [] = unfold skip_spaces in omega arith
after_greater_shorter (c ∷ cs) = ground (arith, skip_shorter cs, skip_shorter (c ∷ cs))

word_shorter :
    (c : ℕ) (cs : Text)
    → is_space c ≡ false
    → is_symbol c ≡ false
    → length (word_token (c ∷ cs)).rest ≤ length cs
unfolding take_word
word_shorter c cs h g =
    rw (h, g) (omega (arith, take_word_shorter cs, skip_shorter (take_word cs).1))

-- A token that stands at the front takes a character.
token_at_shorter :
    (c : ℕ) (cs : Text) → is_space c ≡ false → length (token_at (c ∷ cs)).rest ≤ length cs
unfolding token_at
token_at_shorter c cs h =
    ground (arith, skip_shorter cs, after_greater_shorter cs, word_shorter c cs h)

pub gettoken_shorter :
    (c : ℕ) (cs : Text) → is_space c ≡ false → length (gettoken (c ∷ cs)).rest ≤ length cs
unfolding gettoken skip_spaces
gettoken_shorter c cs h = rw h (token_at_shorter c cs h)

peek_front :
    (s : Text)
    → (skip_spaces s ≡ [])
      ⊎ ((c : ℕ) × (cs : Text) × (skip_spaces s ≡ c ∷ cs)
          × (is_space c ≡ false)
          × (length cs < length s))
unfolding skip_spaces
peek_front [] = inl refl
peek_front (c ∷ cs) = elim (Bool-cases (is_space c)) [
  | inl space ↦ rw space (elim (peek_front cs) [
    | inl e ↦ inl e
    | inr (d, ds, e, h, lt) ↦ inr (d, ds, e, h, omega arith)
  ])
  | inr other ↦ inr (c, cs, rw other refl, other, omega arith)
]

-- What follows a peek on a text: for a text that it finds, for the end, for any other.
pub after_peek :
    {A : Type 0} (left : A → Text) (n : ℕ) (toks : ℕ → Bool) (s : Text)
    (found other : Text → Parsed A)
    → ((c : ℕ) (cs : Text)
        → is_space c ≡ false
        → toks c ≡ true
        → length cs < length s
        → Leaves left n (found (c ∷ cs)))
    → Leaves left n (other [])
    → ((c : ℕ) (cs : Text)
        → is_space c ≡ false
        → length cs < length s
        → Leaves left n (other (c ∷ cs)))
    → Leaves left n (branch (peek toks s) found other)
unfolding peek
after_peek left n toks s found other f e o = elim (peek_front s) [
  | inl empty ↦ rw empty e
  | inr (c, cs, e, h, lt) ↦ rw e (elim (Bool-cases (toks c)) [
    | inl here ↦ rw here (f c cs h here lt)
    | inr elsewhere ↦ rw elsewhere (o c cs h lt)
  ])
]

pub gettoken_part : (s : Text) → length (gettoken s).rest ≤ length s
unfolding gettoken
gettoken_part s = elim (peek_front s) [
  | inl e ↦ rw e (unfold token_at skip_spaces in omega arith)
  | inr (c, cs, e, h, lt) ↦ rw e (omega (arith, token_at_shorter c cs h))
]

pub Leaves-either :
    {A : Type 0} (left : A → Text) {n : ℕ} (b : Bool) {r q : Parsed A}
    → Leaves left n r
    → Leaves left n q
    → Leaves left n (if b then r else q)
Leaves-either left true h g = h
Leaves-either left false h g = g
