-- ===== src/Fs/Paths/Elements.antt =====
-- kernel/fs.c: the elements that skipelem takes from a path.
use kali.Prelude.{
  ℕ, zero, suc, ◌+◌, ◌-◌, ◌≡◌, ◌≢◌, ◌≤◌, ◌<◌, refl, sym, ap, ◌∙◌, subst, true, false, ◌&&◌, none,
  some, List, [], ◌∷◌, ltb, leb, if◌then◌else◌, length, update, update_ne, update_self, arith,
  Bool-cases, inl, inr, ◌⊎◌,
}
use kali.Fs.Directories.{Name, dirsiz}
use kali.Fs.Paths.{is_slash, skip_slashes, span, move_name, copy_name, skipelem}

abbrev cons_first : ℕ → List (List ℕ) → List (List ℕ)
cons_first c [] = (c ∷ []) ∷ []
cons_first c (f ∷ fs) = (c ∷ f) ∷ fs

-- The texts between the slashes.
unfoldable pub fields : List ℕ → List (List ℕ)
fields [] = [] ∷ []
fields (c ∷ cs) = let rest = fields cs in if is_slash c then [] ∷ rest else cons_first c rest

abbrev nonempty : List (List ℕ) → List (List ℕ)
nonempty [] = []
nonempty ([] ∷ fs) = nonempty fs
nonempty ((c ∷ f) ∷ fs) = (c ∷ f) ∷ nonempty fs

-- The elements of a path.
unfoldable pub elements : List ℕ → List (List ℕ)
unfolding fields
elements p = nonempty (fields p)

abbrev behind : List ℕ → List (List ℕ)
behind [] = []
behind (c ∷ cs) = fields cs

elements-skip_slashes : (p : List ℕ) → elements (skip_slashes p) ≡ elements p
unfolding elements skip_slashes
elements-skip_slashes [] = refl
elements-skip_slashes (c ∷ cs) = elim (Bool-cases (is_slash c)) [
  | inl slash ↦ rw slash (elements-skip_slashes cs)
  | inr other ↦ rw other (rw other refl)
]

-- No slash stands first.
abbrev pub IsTrimmed : List ℕ → Type 0
IsTrimmed [] = Unit {0}
IsTrimmed (c ∷ cs) = is_slash c ≡ false

skip_slashes-IsTrimmed : (p : List ℕ) → IsTrimmed (skip_slashes p)
unfolding skip_slashes
skip_slashes-IsTrimmed [] = tt
skip_slashes-IsTrimmed (c ∷ cs) = elim (Bool-cases (is_slash c)) [
  | inl slash ↦ rw slash (skip_slashes-IsTrimmed cs)
  | inr other ↦ rw other other
]

-- span stops at the end or at a slash.
StopsAt : List ℕ → Type 0
StopsAt [] = Unit {0}
StopsAt (c ∷ cs) = is_slash c ≡ true

span_lem :
    (p : List ℕ)
    → (fields p ≡ (span p).0 ∷ behind (span p).1)
      × StopsAt (span p).1
      × (length (span p).0 + length (span p).1 ≡ length p)
unfolding fields span StopsAt
span_lem [] = (refl, tt, omega arith)
span_lem (c ∷ cs) = elim (Bool-cases (is_slash c)) [
  | inl slash ↦ rw slash (refl, slash, omega arith)
  | inr other ↦
      let (e, stop, total) = span_lem cs in
      rw other (ap (cons_first c) e, stop, omega (arith, total))
]

elements-behind : (rest : List ℕ) → StopsAt rest → elements rest ≡ nonempty (behind rest)
unfolding elements fields StopsAt
elements-behind [] stop = refl
elements-behind (c ∷ cs) stop = rw stop refl

length-skip_slashes : (p : List ℕ) → length (skip_slashes p) ≤ length p
unfolding skip_slashes
length-skip_slashes [] = omega arith
length-skip_slashes (c ∷ cs) = elim (Bool-cases (is_slash c)) [
  | inl slash ↦ rw slash (omega (arith, length-skip_slashes cs))
  | inr other ↦ rw other (omega arith)
]

abbrev pub nth : List ℕ → ℕ → ℕ
nth [] i = 0
nth (c ∷ cs) zero = c
nth (c ∷ cs) (suc i) = nth cs i

nth-cons : (c : ℕ) (s : List ℕ) (k : ℕ) → k ≢ 0 → nth (c ∷ s) k ≡ nth s (k - 1)
nth-cons c s zero h = absurd (h refl)
nth-cons c s (suc k) h = ap (nth s) (omega arith)

move_name_lem :
    (n : ℕ) (name : Name) (i : ℕ) (s : List ℕ) (q : ℕ)
    → n ≤ length s
    → move_name name i n s q ≡ (if leb i q && ltb q (i + n) then nth s (q - i) else name q)
unfolding move_name
move_name_lem zero name i s q h = ground arith
move_name_lem (suc n) name i [] q h = absurd (omega (arith, h))
move_name_lem (suc n) name i (c ∷ s) q h =
    move_name_lem n (update name i c) (i + 1) s q (omega (arith, h))
    ∙ ground (arith, nth-cons c s (q - i), ap (nth s) (less q i))
  where
    less : (q i : ℕ) → q - i - 1 ≡ q - (i + 1)
    less q i = omega arith

-- An element in the array that holds its name: cut off at 14 characters, and else terminated.
pub record IsName (e : List ℕ) (name : Name) : Type 0 where
  pub chars : (q : ℕ) → q < dirsiz → q < length e → name q ≡ nth e q
  pub end : length e < dirsiz → name (length e) ≡ 0

front :
    (e : List ℕ) (name : Name) (n q : ℕ)
    → q < n
    → (if leb 0 q && ltb q (0 + n) then nth e (q - 0) else name q) ≡ nth e q
front e name n q h = ground (arith, h, ap (nth e) (minus_zero q))
  where
    minus_zero : (q : ℕ) → q - 0 ≡ q
    minus_zero q = omega arith

copy_name-IsName : (e : List ℕ) (name : Name) → IsName e (copy_name e name)
copy_name-IsName e name = elim (Bool-cases (leb dirsiz (length e))) [
  | inl long ↦ rw long (record {
    chars = λ q short inside.
        move_name_lem dirsiz name 0 e q (ground (arith, long)) ∙ front e name dirsiz q short;
    end = λ h. absurd (ground (arith, long));
  })
  | inr short ↦ rw short (record {
    chars = λ q h inside.
        update_ne (move_name name 0 (length e) e) (length e) q 0
          (λ z. absurd (omega (arith, z, inside)))
        ∙ move_name_lem (length e) name 0 e q (omega arith)
        ∙ front e name (length e) q inside;
    end = λ h. update_self (move_name name 0 (length e) e) (length e) 0;
  })
]

-- What skipelem returns for a path with an element.
pub record IsTaken (path : List ℕ) (e : List ℕ) (es : List (List ℕ)) (rest : List ℕ) (name : Name)
    : Type 0 where
  pub split : elements path ≡ e ∷ es
  pub left : elements rest ≡ es
  pub trimmed : IsTrimmed rest
  pub named : IsName e name
  pub shorter : length rest < length path

no_elements : elements [] ≡ []
unfolding elements fields
no_elements = refl

first_element :
    (c : ℕ) (cs : List ℕ)
    → is_slash c ≡ false
    → elements (c ∷ cs) ≡ (span (c ∷ cs)).0 ∷ nonempty (behind (span (c ∷ cs)).1)
unfolding elements fields span
first_element c cs other = rw other (rw (span_lem cs).0 refl)

trimmed : (path : List ℕ) {c : ℕ} {cs : List ℕ} → skip_slashes path ≡ c ∷ cs → is_slash c ≡ false
trimmed path eq = subst IsTrimmed eq (skip_slashes-IsTrimmed path)

span_takes : (c : ℕ) (cs : List ℕ) → is_slash c ≡ false → 1 ≤ length (span (c ∷ cs)).0
unfolding span
span_takes c cs other = rw other (omega arith)

first_shorter :
    (path : List ℕ) (c : ℕ) (cs : List ℕ)
    → skip_slashes path ≡ c ∷ cs
    → is_slash c ≡ false
    → length (skip_slashes (span (c ∷ cs)).1) < length path
first_shorter path c cs eq other = omega (
  arith,
  length-skip_slashes (span (c ∷ cs)).1,
  span_takes c cs other,
  (span_lem (c ∷ cs)).2,
  ap length eq,
  length-skip_slashes path,
)

skipelem-trimmed :
    (path p : List ℕ) (name : Name)
    → skip_slashes path ≡ p
    → ((elements path ≡ []) × (skipelem path name ≡ none))
      ⊎ ((e : List ℕ) × (es : List (List ℕ)) × (rest : List ℕ) × (name' : Name) × (skipelem path
              name
            ≡ some (rest, name'))
          × IsTaken path e es rest name')
unfolding skipelem
skipelem-trimmed path [] name eq =
    inl (sym (elements-skip_slashes path) ∙ ap elements eq ∙ no_elements, rw eq refl)
skipelem-trimmed path (c ∷ cs) name eq = inr (
  (span (c ∷ cs)).0,
  nonempty (behind (span (c ∷ cs)).1),
  skip_slashes (span (c ∷ cs)).1,
  copy_name (span (c ∷ cs)).0 name,
  rw eq refl,
  record {
    split =
        sym (elements-skip_slashes path) ∙ ap elements eq ∙ first_element c cs (trimmed path eq);
    left =
        elements-skip_slashes (span (c ∷ cs)).1
        ∙ elements-behind (span (c ∷ cs)).1 (span_lem (c ∷ cs)).1;
    trimmed = skip_slashes-IsTrimmed (span (c ∷ cs)).1;
    named = copy_name-IsName (span (c ∷ cs)).0 name;
    shorter = first_shorter path c cs eq (trimmed path eq);
  },
)

-- skipelem returns null exactly for a path without elements. Else it takes the first element, into
-- `name`, and the path that it returns has the elements that follow, no slash in front, and is
-- shorter.
pub skipelem_lem :
    (path : List ℕ) (name : Name)
    → ((elements path ≡ []) × (skipelem path name ≡ none))
      ⊎ ((e : List ℕ) × (es : List (List ℕ)) × (rest : List ℕ) × (name' : Name) × (skipelem path
              name
            ≡ some (rest, name'))
          × IsTaken path e es rest name')
skipelem_lem path name = skipelem-trimmed path (skip_slashes path) name refl
