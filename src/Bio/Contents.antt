-- ===== src/Bio/Contents.antt =====
-- kernel/bio.c: well-formed caches, and that bget keeps them and what clients find in them.
use kali.Prelude.{
  ℕ, ◌+◌, ◌^◌, ◌≤◌, ◌<◌, ◌≡◌, ◌≢◌, refl, sym, ap, subst, ◌∙◌, true, ◌&&◌, none, some, List, [], ◌∷◌,
  ◌==◌, if◌then◌else◌, arith, Bool-cases, Option-cases, inl, inr,
}
use mathlib.Core.Option.{some-injective}
use kali.Buffers.{Block}
use kali.Bio.{Buf, Cache, has_key, find_cached, find_unused, get_buf, on_buf, incref, recycle, bget}
use kali.Bio.Find.{
  copies, places, view, copies-absent, view-on_buf, copies-on_buf, Each, Each-on_buf, Each-unused,
  Agrees, view-recycle, find_cached_lem, find_unused_lem,
}

-- What a client finds in the block `x` of the device `d`.
abbrev pub contents : Cache → (d x : ℕ) → Block
contents c d x = view d x (c.disk d x) c.bufs

-- No address stands twice in the list, no block of a device is cached twice, and a buffer that is not
-- in use can be recycled without loss. Device 0 is that of the blank buffers.
pub record IsWell (c : Cache) : Type 0 where
  pub addresses : (i : ℕ) → places i c.bufs ≤ 1
  pub keys : (d x : ℕ) → d ≢ 0 → copies d x c.bufs ≤ 1
  pub clean : (d x : ℕ) → Each (Agrees d x (c.disk d x)) c.bufs

-- No reference count is about to wrap.
abbrev pub HasHeadroom : Cache → Type 0
HasHeadroom c = Each (λ b. b.refcnt + 1 < 2 ^ 32) c.bufs

pub places-on_buf :
    (f : Buf → Buf)
    → ((b : Buf) → (f b).id ≡ b.id)
    → (i j : ℕ) (bufs : List Buf) → places j (on_buf i f bufs) ≡ places j bufs
unfolding on_buf
places-on_buf f same i j [] = refl
places-on_buf f same i j (b ∷ bs) = elim (Bool-cases (b.id == i)) [
  | inl here ↦ rw here (rw (same b))
  | inr there ↦ rw there (rw (places-on_buf f same i j bs))
]

get_buf-here : (i : ℕ) (b : Buf) (bs : List Buf) → (b.id == i) ≡ true → get_buf i (b ∷ bs) ≡ some b
unfolding get_buf
get_buf-here i b bs h = rw h

pub get_buf-on_buf :
    (f : Buf → Buf)
    → ((b : Buf) → (f b).id ≡ b.id)
    → (i : ℕ) (bufs : List Buf) (b : Buf) → get_buf i bufs ≡ some b
    → get_buf i (on_buf i f bufs) ≡ some (f b)
unfolding on_buf get_buf
get_buf-on_buf f same i [] b g = cc
get_buf-on_buf f same i (a ∷ bs) b g = elim (Bool-cases (a.id == i)) [
  | inl here ↦ rw here (
      get_buf-here i (f a) bs (ap (λ k. k == i) (same a) ∙ here)
      ∙ ap (λ v. some (f v)) (some-injective a b (rw here at g)))
  | inr there ↦ rw there (rw there (get_buf-on_buf f same i bs b (rw there at g)))
]

copies-recycle :
    (i d x dev blockno : ℕ) (bufs : List Buf)
    → copies d x (on_buf i (recycle dev blockno) bufs)
      ≤ copies d x bufs + (if dev == d && blockno == x then 1 else 0)
unfolding on_buf
copies-recycle i d x dev blockno [] = omega arith
copies-recycle i d x dev blockno (b ∷ bs) = elim (Bool-cases (b.id == i)) [
  | inl here ↦ rw here (ground arith)
  | inr there ↦ rw there (omega (arith, copies-recycle i d x dev blockno bs))
]

recycled_once :
    (i d x dev blockno : ℕ) (bufs : List Buf)
    → copies dev blockno bufs ≡ 0
    → copies d x bufs ≤ 1
    → copies d x (on_buf i (recycle dev blockno) bufs) ≤ 1
recycled_once i d x dev blockno bufs fresh once = elim (Bool-cases (dev == d && blockno == x)) [
  | inl same ↦
      let e1 : dev ≡ d = ground arith in
      let e2 : blockno ≡ x = ground arith in
      let z =
        subst (λ k. copies d k bufs ≡ 0) e2 (subst (λ k. copies k blockno bufs ≡ 0) e1 fresh) in
      let bound = copies-recycle i d x dev blockno bufs in ground (arith, bound, z)
  | inr other ↦ let bound = copies-recycle i d x dev blockno bufs in ground (arith, bound)
]

-- Two caches in which a client finds the same, and that have the same disk.
pub record SameView (c c' : Cache) : Type 0 where
  pub disk : c'.disk ≡ c.disk
  pub found : (d x : ℕ) → d ≢ 0 → contents c' d x ≡ contents c d x

module _ (c : Cache) (w : IsWell c) (room : HasHeadroom c) (dev blockno : ℕ) (real : dev ≢ 0) where
  hit : (b : Buf) → Cache
  hit b = record c { bufs = on_buf b.id incref c.bufs }

  hit-IsWell : (b : Buf) → IsWell (hit b)
  unfolding hit
  hit-IsWell b = record {
    addresses = λ i.
        subst (λ n. n ≤ 1) (sym (places-on_buf incref (λ a. refl) b.id i c.bufs)) (w.addresses i);
    keys = λ d x ne.
        subst (λ n. n ≤ 1) (sym (copies-on_buf incref (λ a. refl) (λ a. refl) b.id d x c.bufs))
          (w.keys d x ne);
    clean = λ d x.
        Each-on_buf (Agrees d x (c.disk d x)) (λ a. a.refcnt + 1 < 2 ^ 32) b.id incref
          (λ a small agrees key idle. absurd (omega arith)) c.bufs room (w.clean d x);
  }

  hit-SameView : (b : Buf) → SameView c (hit b)
  unfolding hit
  hit-SameView b = record {
    disk = refl;
    found = λ d x ne.
        view-on_buf incref (λ a. refl) (λ a. refl) b.id d x (c.disk d x) (λ a key. refl) c.bufs;
  }

  miss : (u : Buf) → Cache
  miss u = record c { bufs = on_buf u.id (recycle dev blockno) c.bufs }

  module _ (absent : copies dev blockno c.bufs ≡ 0) where
    miss-IsWell : (u : Buf) → IsWell (miss u)
    unfolding miss
    miss-IsWell u = record {
      addresses = λ i.
          subst (λ n. n ≤ 1) (sym (places-on_buf (recycle dev blockno) (λ a. refl) u.id i c.bufs))
            (w.addresses i);
      keys = λ d x ne. recycled_once u.id d x dev blockno c.bufs absent (w.keys d x ne);
      clean = λ d x.
          Each-on_buf (Agrees d x (c.disk d x)) (λ _. Unit {0}) u.id (recycle dev blockno)
            (λ a _ agrees key idle. refl) c.bufs (Each-unused c.bufs) (w.clean d x);
    }

    miss-SameView : (u : Buf) → get_buf u.id c.bufs ≡ some u → u.refcnt ≡ 0 → SameView c (miss u)
    unfolding miss
    miss-SameView u g idle = record {
      disk = refl;
      found = λ d x ne.
          view-recycle u.id d x (c.disk d x) dev blockno c.bufs g idle absent (w.keys d x ne)
            (w.clean d x);
    }

  -- What bget makes of the cache and the buffer at the address that it returns.
  pub record IsGotten (i : ℕ) (c' : Cache) : Type 0 where
    pub well : IsWell c'
    pub same : SameView c c'
    pub buf : Buf
    pub at : get_buf i c'.bufs ≡ some buf
    pub key : has_key dev blockno buf ≡ true

  hit-IsGotten : (b : Buf) → find_cached dev blockno c.bufs ≡ some b → IsGotten b.id (hit b)
  unfolding hit
  hit-IsGotten b e =
      let (at, key) = find_cached_lem dev blockno c.bufs e w.addresses in
      record {
        well = hit-IsWell b;
        same = hit-SameView b;
        buf = incref b;
        at = get_buf-on_buf incref (λ a. refl) b.id c.bufs b at;
        key = key;
      }

  miss-IsGotten :
      (u : Buf)
      → find_cached dev blockno c.bufs ≡ none
      → find_unused c.bufs ≡ some u
      → IsGotten u.id (miss u)
  unfolding miss
  miss-IsGotten u e h =
      let absent = copies-absent dev blockno c.bufs e in
      let (at, idle) = find_unused_lem c.bufs h w.addresses in
      record {
        well = miss-IsWell absent u;
        same = miss-SameView absent u at idle;
        buf = recycle dev blockno u;
        at = get_buf-on_buf (recycle dev blockno) (λ a. refl) u.id c.bufs u at;
        key = ground arith;
      }

  bget-hit :
      (b : Buf) → find_cached dev blockno c.bufs ≡ some b → bget dev blockno c ≡ some (b.id, hit b)
  unfolding bget hit
  bget-hit b e = rw (e, bget)

  bget-miss :
      (u : Buf)
      → find_cached dev blockno c.bufs ≡ none
      → find_unused c.bufs ≡ some u
      → bget dev blockno c ≡ some (u.id, miss u)
  unfolding bget miss
  bget-miss u e h = rw (e, h, bget)

  bget-full :
      find_cached dev blockno c.bufs ≡ none → find_unused c.bufs ≡ none → bget dev blockno c ≡ none
  unfolding bget
  bget-full e h = rw (e, h, bget)

  pub bget-IsGotten : (r : ℕ × Cache) → bget dev blockno c ≡ some r → IsGotten r.0 r.1
  bget-IsGotten r h = elim (Option-cases (find_cached dev blockno c.bufs)) [
    | inr (b, e) ↦
        subst (λ (q : ℕ × Cache). IsGotten q.0 q.1)
          (some-injective (b.id, hit b) r (sym (bget-hit b e) ∙ h)) (hit-IsGotten b e)
    | inl absent ↦ elim (Option-cases (find_unused c.bufs)) [
      | inr (u, e) ↦
          subst (λ (q : ℕ × Cache). IsGotten q.0 q.1)
            (some-injective (u.id, miss u) r (sym (bget-miss u absent e) ∙ h))
            (miss-IsGotten u absent e)
      | inl full ↦ let bad = bget-full absent full in cc
    ]
  ]
