-- ===== src/Bio/Unlink.antt =====
-- kernel/bio.c: what unlinking a buffer, as brelse does, leaves of the list.
use kali.Prelude.{
  ℕ, ◌+◌, ◌≤◌, ◌≡◌, refl, sym, subst, true, false, some, List, [], ◌∷◌, ◌==◌, if◌then◌else◌, arith,
  Bool-cases, inl, inr,
}
use mathlib.Core.Option.{some-injective}
use kali.Bio.{Buf, has_key, find_cached, get_buf, on_buf, unlink}
use kali.Bio.Find.{copies, places, Each}
use kali.Bio.Reads.{copies_pos}

pub places-unlink :
    (i j : ℕ) (bufs : List Buf) (b : Buf)
    → get_buf i bufs ≡ some b
    → (if b.id == j then 1 else 0) + places j (unlink i bufs) ≡ places j bufs
unfolding get_buf unlink
places-unlink i j [] b g = cc
places-unlink i j (a ∷ bs) b g = elim (Bool-cases (a.id == i)) [
  | inl here ↦ rw here (rw (some-injective a b (rw here at g)) refl)
  | inr there ↦ rw there (let rest = places-unlink i j bs b (rw there at g) in omega (arith, rest))
]

pub copies-unlink :
    (i d x : ℕ) (bufs : List Buf) (b : Buf)
    → get_buf i bufs ≡ some b
    → (if has_key d x b then 1 else 0) + copies d x (unlink i bufs) ≡ copies d x bufs
unfolding get_buf unlink
copies-unlink i d x [] b g = cc
copies-unlink i d x (a ∷ bs) b g = elim (Bool-cases (a.id == i)) [
  | inl here ↦ rw here (rw (some-injective a b (rw here at g)) refl)
  | inr there ↦
      rw there (let rest = copies-unlink i d x bs b (rw there at g) in omega (arith, rest))
]

pub find_cached-unlink :
    (i d x : ℕ) (bufs : List Buf) (b : Buf)
    → get_buf i bufs ≡ some b
    → has_key d x b ≡ false
    → find_cached d x (unlink i bufs) ≡ find_cached d x bufs
unfolding get_buf unlink find_cached
find_cached-unlink i d x [] b g other = cc
find_cached-unlink i d x (a ∷ bs) b g other = elim (Bool-cases (a.id == i)) [
  | inl here ↦
      let e = some-injective a b (rw here at g) in
      rw here (rw (subst (λ v. has_key d x v ≡ false) (sym e) other) refl)
  | inr there ↦ rw there (rw (find_cached-unlink i d x bs b (rw there at g) other) refl)
]

pub Each-unlink :
    (P : Buf → Type 0) (i : ℕ) (bufs : List Buf) → Each P bufs → Each P (unlink i bufs)
unfolding unlink
Each-unlink P i [] h = tt
Each-unlink P i (a ∷ bs) h = elim (Bool-cases (a.id == i)) [
  | inl here ↦ rw here h.1
  | inr there ↦ rw there (h.0, Each-unlink P i bs h.1)
]

-- A change of the buffer at `i` needs to keep what holds of that one alone.
pub Each-on_buf_at :
    (P : Buf → Type 0) (f : Buf → Buf) (i : ℕ) (bufs : List Buf) (b : Buf)
    → get_buf i bufs ≡ some b
    → P (f b)
    → Each P bufs
    → Each P (on_buf i f bufs)
unfolding get_buf on_buf
Each-on_buf_at P f i [] b g p h = cc
Each-on_buf_at P f i (a ∷ bs) b g p h = elim (Bool-cases (a.id == i)) [
  | inl here ↦ rw here (subst (λ v. P (f v)) (sym (some-injective a b (rw here at g))) p, h.1)
  | inr there ↦ rw there (h.0, Each-on_buf_at P f i bs b (rw there at g) p h.1)
]

pub get_buf-id : (i : ℕ) (bufs : List Buf) (b : Buf) → get_buf i bufs ≡ some b → b.id ≡ i
unfolding get_buf
get_buf-id i [] b g = cc
get_buf-id i (a ∷ bs) b g = elim (Bool-cases (a.id == i)) [
  | inl here ↦ let e = some-injective a b (rw here at g) in subst (λ v. v.id ≡ i) e (ground arith)
  | inr there ↦ get_buf-id i bs b (rw there at g)
]

Each-absent :
    (P : Buf → Type 0) (d x : ℕ) (bufs : List Buf)
    → copies d x bufs ≡ 0
    → Each (λ a. has_key d x a ≡ true → P a) bufs
Each-absent P d x [] h = tt
Each-absent P d x (a ∷ bs) h = elim (Bool-cases (has_key d x a)) [
  | inl key ↦ absurd (ground arith)
  | inr other ↦ (λ key. absurd cc, Each-absent P d x bs (omega (arith, h)))
]

-- What holds of a buffer holds of all those of its block, where that is cached once.
pub Each-unique :
    (P : Buf → Type 0) (i d x : ℕ) (bufs : List Buf) (b : Buf)
    → get_buf i bufs ≡ some b
    → has_key d x b ≡ true
    → copies d x bufs ≤ 1
    → P b
    → Each (λ a. has_key d x a ≡ true → P a) bufs
unfolding get_buf
Each-unique P i d x [] b g key once p = tt
Each-unique P i d x (a ∷ bs) b g key once p = elim (Bool-cases (a.id == i)) [
  | inl here ↦
      let e = some-injective a b (rw here at g) in
      let akey = subst (λ v. has_key d x v ≡ true) (sym e) key in
      (λ _. subst P (sym e) p, Each-absent P d x bs (ground arith))
  | inr there ↦
      let pos = copies_pos i d x bs b (rw there at g) key in
      (
        λ akey. absurd (ground (arith, pos)),
        Each-unique P i d x bs b (rw there at g) key (ground arith) p,
      )
]
