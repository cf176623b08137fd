-- ===== src/Log/Absorb.antt =====
-- kernel/log.c: what log_write records.
use kali.Prelude.{
  ℕ, zero, suc, ◌+◌, ◌≤◌, ◌<◌, ◌≡◌, ◌≢◌, refl, ap, sym, subst, fun_ext, ◌∙◌, inl, inr, Bool, true,
  false, ◌&&◌, not, ◌||◌, some, ◌==◌, if◌then◌else◌, update, update_self, update_ne, arith,
  ℕ_discrete, Bool-cases, ==→eq, ==→ne, ◌-◌,
}
use native.Mathlib.Nat.{add-zero, zero-add}
use native.Mathlib.Numerals.{add-one}
use kali.Buffers.{View, bpin}
use kali.Log.{Log, log_size, find_block, log_write}
use kali.Log.Effect.{among}
use kali.Log.Holds.{among_same, among_self}

find_block_bounds :
    (block : ℕ → ℕ) (b i k : ℕ) → (i ≤ find_block block b i k) × (find_block block b i k ≤ i + k)
unfolding find_block
find_block_bounds block b i zero = omega arith
find_block_bounds block b i (suc k) = ground (arith, find_block_bounds block b (i + 1) k)

find_block_hit :
    (block : ℕ → ℕ) (b i k : ℕ)
    → find_block block b i k < i + k
    → block (find_block block b i k) ≡ b
unfolding find_block
find_block_hit block b i zero h = absurd (omega arith)
find_block_hit block b i (suc k) h = ground (arith, find_block_hit block b (i + 1) k)

find_block_miss :
    (block : ℕ → ℕ) (b i k : ℕ) → find_block block b i k ≡ i + k → among block i k b ≡ false
unfolding find_block
find_block_miss block b i zero h = refl
find_block_miss block b i (suc k) h =
    ground (arith, find_block_bounds block b (i + 1) k, find_block_miss block b (i + 1) k)

suc_shift : (tail k : ℕ) → tail + 1 + k ≡ tail + suc k
suc_shift tail k = omega arith

among_snoc :
    (f : ℕ → ℕ) (tail k b : ℕ) → among f tail (suc k) b ≡ (among f tail k b || (f (tail + k) == b))
among_snoc f tail zero b = ground (arith, ap f (add-zero tail))
among_snoc f tail (suc k) b = ground (arith, among_snoc f (tail + 1) k b, ap f (suc_shift tail k))

update_hit : (f : ℕ → ℕ) (i b j : ℕ) → f i ≡ b → update f i b j ≡ f j
update_hit f i b j h = ground arith

-- No block is logged twice.
abbrev pub IsDistinct : Log → Type 0
IsDistinct l = (i j : ℕ) → i < j → j < l.lh.n → l.lh.block i ≢ l.lh.block j

abbrev pub is_logged : Log → ℕ → Bool
is_logged l b = among l.lh.block 0 l.lh.n b

-- The record of a successful log_write: `b` joins the logged blocks, and is pinned and counted once
-- if it was not among them; the contents and the disk are as before, and no block is logged twice.
pub record IsRecorded (l : Log) (v : View) (b : ℕ) (l' : Log) (v' : View) : Type 0 where
  pub logged : (c : ℕ) → is_logged l' c ≡ ((b == c) || is_logged l c)
  pub counted : l'.lh.n ≡ (if is_logged l b then l.lh.n else l.lh.n + 1)
  pub pinned :
      (c : ℕ) → v'.pins c ≡ (if (b == c) && not (is_logged l b) then v.pins c + 1 else v.pins c)
  pub contents : v'.contents ≡ v.contents
  pub disk : v'.disk ≡ v.disk
  pub distinct : IsDistinct l → IsDistinct l'

module _ (l : Log) (v : View) (b : ℕ) where
  abbrev place : ℕ
  place = find_block l.lh.block b 0 l.lh.n

  bounds : (0 ≤ place) × (place ≤ 0 + l.lh.n)
  bounds = find_block_bounds l.lh.block b 0 l.lh.n

  abbrev stored : ℕ → ℕ
  stored = update l.lh.block place b

  known : is_logged l b ≡ true → IsRecorded l v b l v
  known e = record {
    logged = λ c. ground arith;
    counted = rw e;
    pinned = λ c. rw e (ground arith);
    contents = refl;
    disk = refl;
    distinct = λ h. h;
  }

  absorbed :
      place ≢ l.lh.n → IsRecorded l v b (record l { lh = record { n = l.lh.n; block = stored } }) v
  absorbed ne =
      let hit : l.lh.block place ≡ b =
        find_block_hit l.lh.block b 0 l.lh.n (omega (arith, bounds)) in
      let found : is_logged l b ≡ true =
        subst (λ c. is_logged l c ≡ true) hit
          (among_self l.lh.block 0 l.lh.n place (omega arith) (omega (arith, bounds))) in
      let same : stored ≡ l.lh.block = fun_ext (λ j. update_hit l.lh.block place b j hit) in
      subst (λ f. IsRecorded l v b (record l { lh = record { n = l.lh.n; block = f } }) v)
        (sym same) (known found)

  module _ (end : place ≡ l.lh.n) where
    fresh : is_logged l b ≡ false
    fresh = find_block_miss l.lh.block b 0 l.lh.n (omega arith)

    before : (j : ℕ) → j < l.lh.n → stored j ≡ l.lh.block j
    before j h = update_ne l.lh.block place j b (omega arith)

    at_end : stored l.lh.n ≡ b
    at_end = rw end (update_self l.lh.block l.lh.n b)

    is_logged_snoc : (c : ℕ) → among stored 0 (l.lh.n + 1) c ≡ ((b == c) || is_logged l c)
    is_logged_snoc c =
        let longer = ap (λ m. among stored 0 m c) (add-one l.lh.n) in
        let old = among_same stored l.lh.block 0 l.lh.n c (λ j lo hi. before j (omega arith)) in
        let last : stored (0 + l.lh.n) ≡ b = rw (zero-add l.lh.n) at_end in
        ground (arith, longer, among_snoc stored 0 l.lh.n c, old, last)

    still_distinct : IsDistinct l → (i j : ℕ) → i < j → j < l.lh.n + 1 → stored i ≢ stored j
    still_distinct h i j lt top e = elim (ℕ_discrete j l.lh.n) [
      | yes last ↦
          let i_is_b : l.lh.block i ≡ b =
            sym (before i (omega arith)) ∙ e ∙ ap stored last ∙ at_end in
          cc (
            sym fresh
            ∙ subst (λ c. is_logged l c ≡ true) i_is_b
                (among_self l.lh.block 0 l.lh.n i (omega arith) (omega arith)))
      | no earlier ↦
          h i j lt (omega arith) (sym (before i (omega arith)) ∙ e ∙ before j (omega arith))
    ]

    appended :
        IsRecorded l v b (record l { lh = record { n = l.lh.n + 1; block = stored } }) (bpin b v)
    appended = record {
      logged = is_logged_snoc;
      counted = rw fresh;
      pinned = λ c. rw fresh (ground arith);
      contents = refl;
      disk = refl;
      distinct = still_distinct;
    }

  pub result : Log × View
  result =
      if place == l.lh.n
      then (record l { lh = record { n = l.lh.n + 1; block = stored } }, bpin b v)
      else (record l { lh = record { n = l.lh.n; block = stored } }, v)

  result-IsRecorded : IsRecorded l v b result.0 result.1
  unfolding result
  result-IsRecorded = elim (Bool-cases (place == l.lh.n)) [
    | inl end ↦ rw end (appended (==→eq place l.lh.n end))
    | inr found ↦ rw found (absorbed (==→ne place l.lh.n found))
  ]

  -- The guards of a log_write that returns, and what it returns.
  pub log_write-some :
      {r : Log × View}
      → log_write l v b ≡ some r
      → (l.lh.n < log_size) × (l.lh.n < l.size - 1) × (0 < l.outstanding) × (result ≡ r)
  unfolding log_write result
  log_write-some h = ground arith

  -- A log_write adds one block at most, and leaves the rest of `struct log` alone.
  pub log_write-same :
      {r : Log × View}
      → log_write l v b ≡ some r
      → (r.0.lh.n ≤ l.lh.n + 1)
        × (r.0.outstanding ≡ l.outstanding)
        × (r.0.committing ≡ l.committing)
        × (r.0.size ≡ l.size)
  unfolding log_write
  log_write-same h = ground arith

  -- Where no guard fires, log_write returns.
  pub log_write-returns :
      l.lh.n < log_size → l.lh.n < l.size - 1 → 0 < l.outstanding → log_write l v b ≡ some result
  unfolding log_write result
  log_write-returns h k o = ground arith

-- Every log_write that does not panic records its block.
pub log_write_lem :
    (l : Log) (v : View) (b : ℕ) {l' : Log} {v' : View}
    → log_write l v b ≡ some (l', v')
    → IsRecorded l v b l' v'
log_write_lem l v b {l'} {v'} h =
    subst (λ (r : Log × View). IsRecorded l v b r.0 r.1) (log_write-some l v b h).3
      (result-IsRecorded l v b)
