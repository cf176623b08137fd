-- ===== src/Fs/Alloc/Frees.antt =====
-- kernel/fs.c: the bitmap after bfree.
use kali.Prelude.{
  ℕ, ◌%◌, ◌≡◌, ◌≢◌, ◌⊎◌, refl, sym, ap, ap₂, ◌∙◌, true, false, not, ◌&&◌, some, none, ◌==◌,
  update_ne, arith, Bool-cases, inl, inr, ==→eq, panic_if, ◌>>◌,
}
use kali.Buffers.{Block}
use kali.Fs.{Fs, write_block}
use kali.Fs.Writes.{HasRoom, IsLogged, write_block_lem}
use kali.Fs.Alloc.{bpb, bblock, in_use, unmark, bfree}
use kali.Fs.Alloc.Bits.{in_use-unmark}
use kali.Fs.Alloc.First.{used}

-- Block `b` is no longer in use in `s'`.
pub record IsFreed (s : Fs) (b : ℕ) (s' : Fs) : Type 0 where
  pub marks : (q : ℕ) → used s' q ≡ (not (b == q) && used s q)
  pub others : (d : ℕ) → d ≢ bblock b s.sb → s'.view.contents d ≡ s.view.contents d
  pub table : s'.itable ≡ s.itable

abbrev unmarked : Fs → (b : ℕ) → Block
unmarked s b = unmark (s.view.contents (bblock b s.sb)) (b % bpb)

module _ (s : Fs) (b : ℕ) where
  bfree-used : used s b ≡ true → bfree b s ≡ write_block (bblock b s.sb) (unmarked s b) s
  unfolding bfree
  bfree-used e = ap (λ t. (panic_if (not t) >> write_block (bblock b s.sb) (unmarked s b)) s) e

  bfree-free : used s b ≡ false → bfree b s ≡ none
  unfolding bfree
  bfree-free e = ap (λ t. (panic_if (not t) >> write_block (bblock b s.sb) (unmarked s b)) s) e

  same_marks :
      (q : ℕ)
      → (bblock b s.sb == bblock q s.sb) ≡ true
      → (not (b % bpb == q % bpb) && in_use (s.view.contents (bblock b s.sb)) (q % bpb))
        ≡ (not (b == q) && used s q)
  same_marks q same =
      ap₂ (λ t k. not t && in_use (s.view.contents k) (q % bpb)) same_place
        (==→eq (bblock b s.sb) (bblock q s.sb) same)
    where
      same_place : (b % bpb == q % bpb) ≡ (b == q)
      same_place = ground (arith, same)

  other_marks : (q : ℕ) → (bblock b s.sb == bblock q s.sb) ≡ false → (b == q) ≡ false
  other_marks q other = ground (arith, other)

  freed_lem :
      (s' : Fs) → used s b ≡ true → IsLogged s (bblock b s.sb) (unmarked s b) s' → IsFreed s b s'
  freed_lem s' e l = record {
    marks = λ q.
        ap₂ (λ sb f. in_use (f (bblock q sb)) (q % bpb)) l.sb l.contents
        ∙ elim (Bool-cases (bblock b s.sb == bblock q s.sb)) [
          | inl same ↦ rw same (
              in_use-unmark (s.view.contents (bblock b s.sb)) (b % bpb) (q % bpb) e
              ∙ same_marks q same)
          | inr other ↦ rw (other, other_marks q other) refl
        ];
    others = λ d n.
        ap (λ f. f d) l.contents
        ∙ update_ne s.view.contents (bblock b s.sb) d (unmarked s b) (λ e. n (sym e));
    table = l.itable;
  }

  -- Where the running transaction has room for a block: bfree of a block in use clears its mark in
  -- the bitmap and no other, and leaves all blocks but that of the bitmap, and the inode table; of a free
  -- block it panics.
  pub bfree_lem :
      HasRoom 1 s
      → ((used s b ≡ true) × (s' : Fs) × (bfree b s ≡ some (tt, s')) × IsFreed s b s')
        ⊎ ((used s b ≡ false) × (bfree b s ≡ none))
  bfree_lem room = elim (Bool-cases (used s b)) [
    | inr e ↦ inr (e, bfree-free e)
    | inl e ↦
        let (s', run, l) = write_block_lem s (bblock b s.sb) (unmarked s b) 0 room in
        inl (e, s', bfree-used e ∙ run, freed_lem s' e l)
  ]
