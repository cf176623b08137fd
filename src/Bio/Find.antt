-- ===== src/Bio/Find.antt =====
-- kernel/bio.c: searches and changes of the list of buffers.
use kali.Prelude.{
  ℕ, ◌+◌, ◌≤◌, ◌≡◌, refl, sym, subst, Bool, true, false, Option, none, some, List, [], ◌∷◌, ◌==◌,
  if◌then◌else◌, arith, Bool-cases, Option-cases, inl, inr,
}
use mathlib.Core.Option.{some-injective}
use kali.Buffers.{Block}
use kali.Bio.{Buf, has_key, find_cached, find_unused, get_buf, on_buf, recycle}

-- How many buffers hold the block `x` of the device `d`, and how many stand at the address `i`.
abbrev pub copies : (d x : ℕ) → List Buf → ℕ
copies d x [] = 0
copies d x (b ∷ bs) = (if has_key d x b then 1 else 0) + copies d x bs

abbrev pub places : (i : ℕ) → List Buf → ℕ
places i [] = 0
places i (b ∷ bs) = (if b.id == i then 1 else 0) + places i bs

-- What a client finds in the block: the buffer's contents if it is valid, and else the disk's.
abbrev pub seen : Block → Option Buf → Block
seen y none = y
seen y (some b) = if b.valid then b.words else y

abbrev pub view : (d x : ℕ) → Block → List Buf → Block
view d x y bufs = seen y (find_cached d x bufs)

pub copies-absent : (d x : ℕ) (bufs : List Buf) → find_cached d x bufs ≡ none → copies d x bufs ≡ 0
unfolding find_cached
copies-absent d x [] h = refl
copies-absent d x (b ∷ bs) h = ground (arith, copies-absent d x bs)

pub find_absent : (d x : ℕ) (bufs : List Buf) → copies d x bufs ≡ 0 → find_cached d x bufs ≡ none
unfolding find_cached
find_absent d x [] h = refl
find_absent d x (b ∷ bs) h = ground (arith, find_absent d x bs)

-- What the head of the list adds to a view.
view-cons :
    (d x : ℕ) (y : Block) (b : Buf) (bs : List Buf)
    → view d x y (b ∷ bs) ≡ (if has_key d x b then seen y (some b) else view d x y bs)
unfolding find_cached
view-cons d x y b bs = elim (Bool-cases (has_key d x b)) [ inl h ↦ rw h | inr h ↦ rw h ]

on_buf-here :
    (i : ℕ) (f : Buf → Buf) (b : Buf) (bs : List Buf)
    → (b.id == i) ≡ true
    → on_buf i f (b ∷ bs) ≡ f b ∷ bs
unfolding on_buf
on_buf-here i f b bs h = rw h

on_buf-there :
    (i : ℕ) (f : Buf → Buf) (b : Buf) (bs : List Buf)
    → (b.id == i) ≡ false
    → on_buf i f (b ∷ bs) ≡ b ∷ on_buf i f bs
unfolding on_buf
on_buf-there i f b bs h = rw h

-- A change that keeps the block of each buffer, and what a client finds in it, changes no view.
module _ (f : Buf → Buf) (same_dev : (b : Buf) → (f b).dev ≡ b.dev)
    (same_block : (b : Buf) → (f b).blockno ≡ b.blockno) where
  has_key-same : (d x : ℕ) (b : Buf) → has_key d x (f b) ≡ has_key d x b
  has_key-same d x b = rw (same_dev b, same_block b)

  pub view-on_buf :
      (i d x : ℕ) (y : Block)
      → ((b : Buf) → has_key d x b ≡ true → seen y (some (f b)) ≡ seen y (some b))
      → (bufs : List Buf) → view d x y (on_buf i f bufs) ≡ view d x y bufs
  unfolding on_buf
  view-on_buf i d x y same [] = refl
  view-on_buf i d x y same (b ∷ bs) = elim (Bool-cases (b.id == i)) [
    | inl here ↦ rw here (
        rw (view-cons d x y (f b) bs, view-cons d x y b bs, has_key-same d x b)
          (head (has_key d x b) refl))
    | inr there ↦
        rw there (
          rw (view-cons d x y b (on_buf i f bs), view-cons d x y b bs, view-on_buf i d x y same bs))
  ]
    where
      head :
          (t : Bool)
          → has_key d x b ≡ t
          → (if t then seen y (some (f b)) else view d x y bs)
            ≡ (if t then seen y (some b) else view d x y bs)
      head true e = same b e
      head false e = refl

  pub copies-on_buf : (i d x : ℕ) (bufs : List Buf) → copies d x (on_buf i f bufs) ≡ copies d x bufs
  unfolding on_buf
  copies-on_buf i d x [] = refl
  copies-on_buf i d x (b ∷ bs) = elim (Bool-cases (b.id == i)) [
    | inl here ↦ rw here (rw (has_key-same d x b))
    | inr there ↦ rw there (rw (copies-on_buf i d x bs))
  ]

-- Where the block is not cached, a client finds the disk's.
view_none : (d x : ℕ) (y : Block) (bufs : List Buf) → copies d x bufs ≡ 0 → view d x y bufs ≡ y
view_none d x y bufs h = rw (find_absent d x bufs h)

abbrev pub Each : (Buf → Type 0) → List Buf → Type 0
Each P [] = Unit {0}
Each P (b ∷ bs) = P b × Each P bs

pub Each-on_buf :
    (P Q : Buf → Type 0) (i : ℕ) (f : Buf → Buf)
    → ((b : Buf) → Q b → P b → P (f b))
    → (bufs : List Buf) → Each Q bufs
    → Each P bufs
    → Each P (on_buf i f bufs)
unfolding on_buf
Each-on_buf P Q i f keep [] q h = tt
Each-on_buf P Q i f keep (b ∷ bs) q h = elim (Bool-cases (b.id == i)) [
  | inl here ↦ rw here (keep b q.0 h.0, h.1)
  | inr there ↦ rw there (h.0, Each-on_buf P Q i f keep bs q.1 h.1)
]

pub Each-unused : (bufs : List Buf) → Each (λ b. Unit {0}) bufs
Each-unused [] = tt
Each-unused (b ∷ bs) = (tt, Each-unused bs)

-- An unused buffer of the block `x` of the device `d` agrees with the disk's block `y`.
abbrev pub Agrees : (d x : ℕ) → Block → Buf → Type 0
Agrees d x y b = has_key d x b ≡ true → b.refcnt ≡ 0 → seen y (some b) ≡ y

pub key_eq : (d x : ℕ) (b : Buf) → has_key d x b ≡ true → (b.dev ≡ d) × (b.blockno ≡ x)
key_eq d x b h = (ground arith, ground arith)

same_copies :
    (dev blockno d x : ℕ) (b : Buf) (bs : List Buf)
    → has_key d x (recycle dev blockno b) ≡ true
    → copies dev blockno bs ≡ 0
    → copies d x bs ≡ 0
same_copies dev blockno d x b bs h e =
    let (e1, e2) = key_eq d x (recycle dev blockno b) h in
    subst (λ k. copies d k bs ≡ 0) e2 (subst (λ k. copies k blockno bs ≡ 0) e1 e)

pub view-recycle :
    (i d x : ℕ) (y : Block) (dev blockno : ℕ) (bufs : List Buf) {u : Buf}
    → get_buf i bufs ≡ some u
    → u.refcnt ≡ 0
    → copies dev blockno bufs ≡ 0
    → copies d x bufs ≤ 1
    → Each (Agrees d x y) bufs
    → view d x y (on_buf i (recycle dev blockno) bufs) ≡ view d x y bufs
unfolding get_buf on_buf
view-recycle i d x y dev blockno [] g idle fresh once clean = refl
view-recycle i d x y dev blockno (b ∷ bs) {u} g idle fresh once clean =
    elim (Bool-cases (b.id == i)) [
      | inl here ↦
          let b_idle : b.refcnt ≡ 0 = ground arith in
          rw here (
            rw (view-cons d x y (recycle dev blockno b) bs, view-cons d x y b bs)
              (elim (Bool-cases (has_key d x b)) [
                | inl old ↦
                    rw (old, clean.0 old b_idle)
                      (rw (view_none d x y bs (ground arith)) (ground arith))
                | inr other ↦ rw other (elim (Bool-cases (has_key d x (recycle dev blockno b))) [
                  | inl new ↦ rw new (
                      sym (
                        view_none d x y bs
                          (same_copies dev blockno d x b bs new (omega (arith, fresh)))))
                  | inr no_key ↦ rw no_key
                ])
              ]))
      | inr there ↦ rw there (
          rw (
            view-cons d x y b (on_buf i (recycle dev blockno) bs),
            view-cons d x y b bs,
            view-recycle i d x y dev blockno bs (rw there at g) idle (ground arith) (ground arith)
                clean.1,
          ))
    ]

-- What the searches find.
places_pos : (i : ℕ) (bufs : List Buf) (b : Buf) → get_buf i bufs ≡ some b → 1 ≤ places i bufs
unfolding get_buf
places_pos i [] b g = cc
places_pos i (a ∷ bs) b g = ground (arith, places_pos i bs b)

-- A buffer further on is found past a head that stands elsewhere.
get_buf-there :
    (a : Buf) (bs : List Buf) (b : Buf)
    → places b.id (a ∷ bs) ≤ 1
    → get_buf b.id bs ≡ some b
    → get_buf b.id (a ∷ bs) ≡ some b
unfolding get_buf
get_buf-there a bs b once g = elim (Bool-cases (a.id == b.id)) [
  | inl same ↦ absurd (ground (arith, places_pos b.id bs b g))
  | inr other ↦ rw other g
]

pub find_cached_lem :
    (d x : ℕ) (bufs : List Buf) {b : Buf}
    → find_cached d x bufs ≡ some b
    → ((i : ℕ) → places i bufs ≤ 1)
    → (get_buf b.id bufs ≡ some b) × (has_key d x b ≡ true)
unfolding find_cached get_buf
find_cached_lem d x [] h once = cc
find_cached_lem d x (a ∷ bs) {b} h once = elim (Bool-cases (has_key d x a)) [
  | inl key ↦ let e = rw key at h in (ground arith, ground arith)
  | inr other ↦
      let rest = find_cached_lem d x bs (rw other at h) (λ i. omega (arith, once i)) in
      (get_buf-there a bs b (once b.id) rest.0, rest.1)
]

pub find_unused_lem :
    (bufs : List Buf) {b : Buf}
    → find_unused bufs ≡ some b
    → ((i : ℕ) → places i bufs ≤ 1)
    → (get_buf b.id bufs ≡ some b) × (b.refcnt ≡ 0)
unfolding find_unused get_buf
find_unused_lem [] h once = cc
find_unused_lem (a ∷ bs) {b} h once = elim (Option-cases (find_unused bs)) [
  | inl nothing ↦ let e = rw nothing at h in (ground arith, ground arith)
  | inr (u, found) ↦
      let e = rw found at h in
      let rest = find_unused_lem bs found (λ i. omega (arith, once i)) in
      subst (λ v. (get_buf v.id (a ∷ bs) ≡ some v) × (v.refcnt ≡ 0)) (some-injective u b e)
        (get_buf-there a bs u (once u.id) rest.0, rest.1)
]
