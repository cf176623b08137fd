-- ===== src/Bio/Boot.antt =====
-- kernel/bio.c: the cache after binit, and when bread panics.
use kali.Prelude.{
  ℕ, zero, suc, ◌≤◌, ◌≡◌, ◌≢◌, refl, none, some, List, [], ◌∷◌, ltb, if◌then◌else◌, arith,
  Option-cases, inl, inr, ◌↔◌,
}
use kali.Buffers.{Block}
use kali.Bio.{
  Buf, Cache, nbuf, binit, binit_loop, find_cached, find_unused, bget, on_buf, incref, recycle,
  acquiresleep, bread, panics,
}
use kali.Bio.Find.{copies, places, Each, Agrees, copies-absent, find_absent}
use kali.Bio.Contents.{IsWell}

binit-places : (n i : ℕ) → places i (binit_loop n) ≤ (if ltb i n then 1 else 0)
unfolding binit_loop
binit-places zero i = omega arith
binit-places (suc n) i = let rest = binit-places n i in ground (arith, rest)

binit-once : (n i : ℕ) → places i (binit_loop n) ≤ 1
binit-once n i = let bound = binit-places n i in ground (arith, bound)

binit-copies : (n d x : ℕ) → d ≢ 0 → copies d x (binit_loop n) ≡ 0
unfolding binit_loop
binit-copies zero d x ne = refl
binit-copies (suc n) d x ne = let rest = binit-copies n d x ne in ground (arith, rest)

binit-clean : (n d x : ℕ) (y : Block) → Each (Agrees d x y) (binit_loop n)
unfolding binit_loop
binit-clean zero d x y = tt
binit-clean (suc n) d x y = (λ key idle. refl, binit-clean n d x y)

-- The cache that binit builds is well-formed, whatever is on the disk.
pub binit-IsWell : (disk : ℕ → ℕ → Block) → IsWell (record { bufs = binit; disk = disk })
unfolding binit
binit-IsWell disk = record {
  addresses = λ i. binit-once nbuf i;
  keys = λ d x ne. omega (arith, binit-copies nbuf d x ne);
  clean = λ d x. binit-clean nbuf d x (disk d x);
}

-- All the buffers are in use.
abbrev pub InUse : List Buf → Type 0
InUse bufs = Each (λ b. b.refcnt ≢ 0) bufs

InUse-full : (bufs : List Buf) → find_unused bufs ≡ none → InUse bufs
unfolding find_unused
InUse-full [] h = tt
InUse-full (b ∷ bs) h = elim (Option-cases (find_unused bs)) [
  | inl nothing ↦ (λ idle. let e = rw nothing at h in ground (arith, e), InUse-full bs nothing)
  | inr (u, found) ↦ let e = rw found at h in cc
]

full-InUse : (bufs : List Buf) → InUse bufs → find_unused bufs ≡ none
unfolding find_unused
full-InUse [] h = refl
full-InUse (b ∷ bs) h = rw (full-InUse bs h.1) (ground (arith, h.0))

bread-full :
    (pid dev blockno : ℕ) (c : Cache)
    → find_cached dev blockno c.bufs ≡ none
    → find_unused c.bufs ≡ none
    → bread pid dev blockno c ≡ panics
unfolding bread bget
bread-full pid dev blockno c e h = rw (e, h, bread, bget) refl

bread-went :
    (pid dev blockno : ℕ) (c : Cache) (r : ℕ × Cache)
    → bget dev blockno c ≡ some r
    → bread pid dev blockno c ≢ panics
unfolding bread
bread-went pid dev blockno c r e h = elim (Option-cases (acquiresleep pid r.0 r.1)) [
  | inl busy ↦ let bad = rw (e, busy, bread) at h in cc
  | inr (c2, free) ↦ let bad = rw (e, free, bread) at h in cc
]

bget-some :
    (dev blockno : ℕ) (c : Cache) (b : Buf)
    → find_cached dev blockno c.bufs ≡ some b
    → (r : ℕ × Cache) × (bget dev blockno c ≡ some r)
unfolding bget
bget-some dev blockno c b e =
    ((b.id, record c { bufs = on_buf b.id incref c.bufs }), rw (e, bget) refl)

bget-unused :
    (dev blockno : ℕ) (c : Cache) (b : Buf)
    → find_cached dev blockno c.bufs ≡ none
    → find_unused c.bufs ≡ some b
    → (r : ℕ × Cache) × (bget dev blockno c ≡ some r)
unfolding bget
bget-unused dev blockno c b e h =
    ((b.id, record c { bufs = on_buf b.id (recycle dev blockno) c.bufs }), rw (e, h, bget) refl)

panics-full :
    (pid dev blockno : ℕ) (c : Cache)
    → bread pid dev blockno c ≡ panics
    → (copies dev blockno c.bufs ≡ 0) × InUse c.bufs
panics-full pid dev blockno c h = elim (Option-cases (find_cached dev blockno c.bufs)) [
  | inr (b, e) ↦
      let (r, went) = bget-some dev blockno c b e in absurd (bread-went pid dev blockno c r went h)
  | inl absent ↦ elim (Option-cases (find_unused c.bufs)) [
    | inr (u, e) ↦
        let (r, went) = bget-unused dev blockno c u absent e in
        absurd (bread-went pid dev blockno c r went h)
    | inl full ↦ (copies-absent dev blockno c.bufs absent, InUse-full c.bufs full)
  ]
]

-- bread panics exactly when the block is not cached and every buffer is in use.
pub bread_panics_iff :
    (pid dev blockno : ℕ) (c : Cache)
    → (bread pid dev blockno c ≡ panics) ↔ ((copies dev blockno c.bufs ≡ 0) × InUse c.bufs)
bread_panics_iff pid dev blockno c = (
  panics-full pid dev blockno c,
  λ h. bread-full pid dev blockno c (find_absent dev blockno c.bufs h.0) (full-InUse c.bufs h.1),
)
