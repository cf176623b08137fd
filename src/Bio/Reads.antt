-- ===== src/Bio/Reads.antt =====
-- kernel/bio.c: what bread returns.
use kali.Prelude.{
  ℕ, ◌≤◌, ◌≡◌, ◌≢◌, refl, sym, ap, subst, ◌∙◌, true, some, List, [], ◌∷◌, ◌==◌, arith, Bool-cases,
  Option-cases, inl, inr,
}
use mathlib.Core.Option.{some-injective}
use kali.Buffers.{Block}
use kali.Bio.{
  Buf, Cache, has_key, find_cached, get_buf, on_buf, read_block, bget, acquiresleep, fill, bread,
  got,
}
use kali.Bio.Find.{
  copies, seen, view-on_buf, copies-on_buf, Each-on_buf, Each-unused, Agrees, key_eq,
}
use kali.Bio.Contents.{
  contents, IsWell, HasHeadroom, SameView, bget-IsGotten, places-on_buf, get_buf-on_buf,
}

pub copies_pos :
    (i d x : ℕ) (bufs : List Buf) (b : Buf)
    → get_buf i bufs ≡ some b
    → has_key d x b ≡ true
    → 1 ≤ copies d x bufs
unfolding get_buf
copies_pos i d x [] b g key = cc
copies_pos i d x (a ∷ bs) b g key = elim (Bool-cases (a.id == i)) [
  | inl here ↦
      let e = some-injective a b (rw here at g) in
      rw (subst (λ v. has_key d x v ≡ true) (sym e) key) (omega arith)
  | inr there ↦ let rest = copies_pos i d x bs b (rw there at g) key in omega arith
]

-- A buffer is what a search for its block finds, if it is cached once.
pub find_unique :
    (i d x : ℕ) (bufs : List Buf) (b : Buf)
    → get_buf i bufs ≡ some b
    → has_key d x b ≡ true
    → copies d x bufs ≤ 1
    → find_cached d x bufs ≡ some b
unfolding get_buf find_cached
find_unique i d x [] b g key once = cc
find_unique i d x (a ∷ bs) b g key once = elim (Bool-cases (a.id == i)) [
  | inl here ↦
      let e = some-injective a b (rw here at g) in
      rw (subst (λ v. has_key d x v ≡ true) (sym e) key) (rw e refl)
  | inr there ↦
      let pos = copies_pos i d x bs b (rw there at g) key in
      let rest = find_unique i d x bs b (rw there at g) key in ground (arith, rest)
]

-- A change of a buffer that clients cannot see.
pub record IsQuiet (disk : ℕ → ℕ → Block) (f : Buf → Buf) : Type 0 where
  pub id : (b : Buf) → (f b).id ≡ b.id
  pub dev : (b : Buf) → (f b).dev ≡ b.dev
  pub blockno : (b : Buf) → (f b).blockno ≡ b.blockno
  pub refcnt : (b : Buf) → (f b).refcnt ≡ b.refcnt
  pub seen_same :
      (d x : ℕ) (b : Buf)
      → has_key d x b ≡ true
      → seen (disk d x) (some (f b)) ≡ seen (disk d x) (some b)

module _ (c : Cache) (f : Buf → Buf) (quiet : IsQuiet c.disk f) (i : ℕ) where
  changed : Cache
  changed = record c { bufs = on_buf i f c.bufs }

  quiet-IsWell : IsWell c → IsWell changed
  unfolding changed
  quiet-IsWell w = record {
    addresses = λ j. subst (λ n. n ≤ 1) (sym (places-on_buf f quiet.id i j c.bufs)) (w.addresses j);
    keys = λ d x ne.
        subst (λ n. n ≤ 1) (sym (copies-on_buf f quiet.dev quiet.blockno i d x c.bufs))
          (w.keys d x ne);
    clean = λ d x.
        Each-on_buf (Agrees d x (c.disk d x)) (λ _. Unit {0}) i f
          (λ a _ agrees key idle.
            let old = rw (quiet.dev a, quiet.blockno a) at key in
            quiet.seen_same d x a old ∙ agrees old (rw (quiet.refcnt a) at idle))
          c.bufs (Each-unused c.bufs) (w.clean d x);
  }

  quiet-SameView : SameView c changed
  unfolding changed
  quiet-SameView = record {
    disk = refl;
    found = λ d x ne.
        view-on_buf f quiet.dev quiet.blockno i d x (c.disk d x) (quiet.seen_same d x) c.bufs;
  }

lock : (pid : ℕ) → Buf → Buf
lock pid b = record b { owner = some pid }

lock-IsQuiet : (disk : ℕ → ℕ → Block) (pid : ℕ) → IsQuiet disk (lock pid)
unfolding lock
lock-IsQuiet disk pid = record {
  id = λ b. refl;
  dev = λ b. refl;
  blockno = λ b. refl;
  refcnt = λ b. refl;
  seen_same = λ d x b key. refl;
}

read-IsQuiet : (disk : ℕ → ℕ → Block) → IsQuiet disk (read_block disk)
read-IsQuiet disk = record {
  id = λ b. refl;
  dev = λ b. refl;
  blockno = λ b. refl;
  refcnt = λ b. refl;
  seen_same = λ d x b key. let (e1, e2) = key_eq d x b key in rw (e1, e2) refl;
}

acquiresleep-inv :
    (pid i : ℕ) (c c' : Cache) (b : Buf)
    → get_buf i c.bufs ≡ some b
    → acquiresleep pid i c ≡ some c'
    → record c { bufs = on_buf i (lock pid) c.bufs } ≡ c'
unfolding lock acquiresleep
acquiresleep-inv pid i c c' b g h = elim (Option-cases b.owner) [
  | inl free ↦ some-injective _ c' (rw (g, free, acquiresleep) at h)
  | inr (p, taken) ↦ let bad = rw (g, taken, acquiresleep) at h in cc
]

SameView-trans : {a b c : Cache} → SameView a b → SameView b c → SameView a c
SameView-trans s t = record {
  disk = t.disk ∙ s.disk;
  found = λ d x ne. t.found d x ne ∙ s.found d x ne;
}

module _ (pid dev blockno i : ℕ) (c : Cache) where
  -- What a process has when bread returns the buffer at `i`.
  pub record IsRead (c' : Cache) : Type 0 where
    pub well : IsWell c'
    pub same : SameView c c'
    pub buf : Buf
    pub at : get_buf i c'.bufs ≡ some buf
    pub key : has_key dev blockno buf ≡ true
    pub locked : buf.owner ≡ some pid
    pub valid : buf.valid ≡ true
    pub words : buf.words ≡ contents c dev blockno

  -- bread from the return of acquiresleep on, which may be much later than the call of bget.
  pub fill-IsRead :
      dev ≢ 0
      → IsWell c
      → (b : Buf) → get_buf i c.bufs ≡ some b
      → has_key dev blockno b ≡ true
      → (c' : Cache) → acquiresleep pid i c ≡ some c'
      → IsRead (fill i c')
  unfolding fill lock changed
  fill-IsRead real w b g key c' h =
      let q = lock-IsQuiet c.disk pid in
      let r = read-IsQuiet c.disk in
      let c1 : Cache = record c { bufs = on_buf i (lock pid) c.bufs } in
      let w1 = quiet-IsWell c (lock pid) q i w in
      let w2 = quiet-IsWell c1 (read_block c.disk) r i w1 in
      let s =
        SameView-trans (quiet-SameView c (lock pid) q i)
          (quiet-SameView c1 (read_block c.disk) r i) in
      let at1 = get_buf-on_buf (lock pid) q.id i c.bufs b g in
      let at2 = get_buf-on_buf (read_block c.disk) r.id i c1.bufs (lock pid b) at1 in
      let b2 = read_block c.disk (lock pid b) in
      let c2 : Cache = fill i c1 in
      let found = find_unique i dev blockno c2.bufs b2 at2 key (w2.keys dev blockno real) in
      subst (λ v. IsRead (fill i v)) (acquiresleep-inv pid i c c' b g h)
        (record {
          well = w2;
          same = s;
          buf = b2;
          at = at2;
          key = key;
          locked = refl;
          valid = refl;
          words = sym (ap (seen (c.disk dev blockno)) found) ∙ s.found dev blockno real;
        })

-- Nothing that clients find has changed before the call.
rebase :
    (pid dev blockno i : ℕ) (c c1 c' : Cache)
    → dev ≢ 0
    → SameView c c1
    → IsRead pid dev blockno i c1 c'
    → IsRead pid dev blockno i c c'
rebase pid dev blockno i c c1 c' real s r = record {
  well = r.well;
  same = SameView-trans s r.same;
  buf = r.buf;
  at = r.at;
  key = r.key;
  locked = r.locked;
  valid = r.valid;
  words = r.words ∙ s.found dev blockno real;
}

bread-inv :
    (pid dev blockno i : ℕ) (c c' : Cache)
    → bread pid dev blockno c ≡ got i c'
    → (r : ℕ × Cache) × (bget dev blockno c ≡ some r)
      × (c2 : Cache) × (acquiresleep pid r.0 r.1 ≡ some c2)
      × (r.0 ≡ i)
      × (fill r.0 c2 ≡ c')
unfolding bread
bread-inv pid dev blockno i c c' h = elim (Option-cases (bget dev blockno c)) [
  | inl full ↦ let bad = rw (full, bread) at h in cc
  | inr (r, e) ↦ elim (Option-cases (acquiresleep pid r.0 r.1)) [
    | inl busy ↦ let bad = rw (e, busy, bread) at h in cc
    | inr (c2, e2) ↦ let same = rw (e, e2, bread) at h in (r, e, c2, e2, cc, cc)
  ]
]

-- In a well-formed cache, where no reference count is about to wrap, a bread of a block of a real
-- device that does not wait returns a buffer of that block, locked by the caller and valid, with the
-- contents that clients find in the block before the call. The call changes these contents for no
-- block, nor the disk, and the cache stays well-formed.
pub bread_lem :
    (pid dev blockno i : ℕ) (c c' : Cache)
    → dev ≢ 0
    → IsWell c
    → HasHeadroom c
    → bread pid dev blockno c ≡ got i c'
    → IsRead pid dev blockno i c c'
bread_lem pid dev blockno i c c' real w room h =
    let (r, e, c2, e2, here, filled) = bread-inv pid dev blockno i c c' h in
    let g = bget-IsGotten c w room dev blockno real r e in
    let read = fill-IsRead pid dev blockno r.0 r.1 real g.well g.buf g.at g.key c2 e2 in
    subst (λ j. IsRead pid dev blockno j c c') here
      (rebase pid dev blockno r.0 c r.1 c' real g.same
        (subst (IsRead pid dev blockno r.0 r.1) filled read))
