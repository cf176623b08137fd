-- ===== src/Bio/Writes.antt =====
-- kernel/bio.c: bwrite and brelse by the holder of a buffer.
use kali.Prelude.{
  ℕ, ◌≡◌, ◌≢◌, refl, sym, ◌∙◌, true, false, ◌&&◌, some, ◌==◌, arith, Bool-cases, inl, inr,
}
use kali.Buffers.{Block}
use kali.Bio.{Buf, Cache, has_key, get_buf, holdingsleep, store_block, bwrite}
use kali.Bio.Find.{seen, view, Each, Agrees}
use kali.Bio.Contents.{contents, IsWell}
use kali.Bio.Reads.{find_unique}
use kali.Bio.Unlink.{Each-unique}

pub holder :
    (pid i : ℕ) (c : Cache) (b : Buf)
    → get_buf i c.bufs ≡ some b
    → b.owner ≡ some pid
    → holdingsleep pid i c ≡ true
unfolding holdingsleep
holder pid i c b g own = rw (g, own, holdingsleep) (ground arith)

-- What bwrite of the buffer `b` makes of the cache `c`.
pub record IsWritten (c : Cache) (b : Buf) (c' : Cache) : Type 0 where
  pub well : IsWell c'
  pub same : c'.bufs ≡ c.bufs
  pub stored : c'.disk b.dev b.blockno ≡ b.words
  pub others : (d x : ℕ) → has_key d x b ≡ false → c'.disk d x ≡ c.disk d x
  pub found : (d x : ℕ) → d ≢ 0 → contents c' d x ≡ contents c d x

module _ (pid i : ℕ) (c : Cache) (b : Buf) (w : IsWell c) (g : get_buf i c.bufs ≡ some b)
    (own : b.owner ≡ some pid) where
  written : Cache
  written = record c { disk = store_block c.disk b.dev b.blockno b.words }

  bwrite-holder : bwrite pid i c ≡ some written
  unfolding bwrite written
  bwrite-holder = rw (g, bwrite) (rw (holder pid i c b g own) refl)

  module _ (real : b.dev ≢ 0) (valid : b.valid ≡ true) where
    found_here :
        (d x : ℕ) → d ≢ 0 → has_key d x b ≡ true → (y : Block) → view d x y c.bufs ≡ b.words
    found_here d x ne key y = rw (find_unique i d x c.bufs b g key (w.keys d x ne), valid) refl

    written-clean :
        (d x : ℕ) → Each (Agrees d x (store_block c.disk b.dev b.blockno b.words d x)) c.bufs
    written-clean d x = elim (Bool-cases (d == b.dev && x == b.blockno)) [
      | inl same ↦ rw same (
          Each-unique (λ a. a.refcnt ≡ 0 → seen b.words (some a) ≡ b.words) i d x c.bufs b g
            (ground arith) (w.keys d x (λ e. real (ground (arith, e)))) (λ _. rw valid refl))
      | inr other ↦ rw other (w.clean d x)
    ]

    written-found : (d x : ℕ) → d ≢ 0 → contents written d x ≡ contents c d x
    unfolding written
    written-found d x ne = elim (Bool-cases (d == b.dev && x == b.blockno)) [
      | inl same ↦ rw same (
          let key : has_key d x b ≡ true = ground arith in
          found_here d x ne key b.words ∙ sym (found_here d x ne key (c.disk d x)))
      | inr other ↦ rw other refl
    ]

    written-IsWritten : IsWritten c b written
    unfolding written
    written-IsWritten = record {
      well = record { addresses = w.addresses; keys = w.keys; clean = written-clean };
      same = refl;
      stored = ground arith;
      others = λ d x other. ground arith;
      found = written-found;
    }

  -- The holder of a valid buffer of a real device can write it: bwrite does not panic and stores the
  -- buffer's contents in its block of the disk, and in no other. It changes no buffer, and clients
  -- find in every block what they found before. The cache stays well-formed.
  pub bwrite_lem :
      b.dev ≢ 0 → b.valid ≡ true → (c' : Cache) × (bwrite pid i c ≡ some c') × IsWritten c b c'
  bwrite_lem real valid = (written, bwrite-holder, written-IsWritten real valid)
