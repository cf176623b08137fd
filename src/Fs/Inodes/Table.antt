-- ===== src/Fs/Inodes/Table.antt =====
-- kernel/fs.c: iget on the table of inodes.
use kali.Prelude.{
  ℕ, ◌+◌, ◌≡◌, ◌≢◌, ◌<◌, ◌⊎◌, inl, inr, refl, sym, ◌∙◌, true, false, none, some, update,
  update_self, arith, Bool-cases, update_ne,
}
use kali.Fs.{Fs, Inode, ninode}
use kali.Fs.Inodes.Search.{Finds, find_slot-Finds}
use kali.Fs.Inodes.{
  Slot, cached, empty, full, is_cached, find_slot, more_refs, fresh_entry, take_slot, iget,
}

-- No inode stands in two entries that are in use.
pub record IsTable (tbl : ℕ → Inode) : Type 0 where
  pub once :
      (i j : ℕ)
      → i < ninode
      → j < ninode
      → 0 < (tbl i).ref
      → 0 < (tbl j).ref
      → (tbl i).dev ≡ (tbl j).dev
      → (tbl i).inum ≡ (tbl j).inum
      → i ≡ j

-- The entry `i` that iget returns, and the state `s'` that it leaves.
pub record IsGot (s : Fs) (dev inum i : ℕ) (s' : Fs) : Type 0 where
  pub index : i < ninode
  pub this_dev : (s'.itable i).dev ≡ dev
  pub this_inum : (s'.itable i).inum ≡ inum
  pub count : (s'.itable i).ref ≡ (s.itable i).ref + 1
  pub content :
      (s'.itable i ≡ more_refs (s.itable i))
      ⊎ (((s.itable i).ref ≡ 0) × ((s'.itable i).valid ≡ false))
  pub others : (j : ℕ) → j ≢ i → s'.itable j ≡ s.itable j
  pub table : IsTable s'.itable
  pub blocks : s'.view ≡ s.view

-- The table has no room for the inode.
pub record IsFull (s : Fs) (dev inum : ℕ) : Type 0 where
  pub absent : (q : ℕ) → q < ninode → is_cached dev inum (s.itable q) ≡ false
  pub in_use : (q : ℕ) → q < ninode → (s.itable q).ref ≢ 0

put_entry : Fs → (i : ℕ) → Inode → Fs
put_entry s i ip = record s { itable = update s.itable i ip }

module _ (s : Fs) (dev inum : ℕ) where
  iget_lem_slot : iget dev inum s ≡ take_slot dev inum (find_slot s.itable dev inum 0 ninode none) s
  unfolding iget
  iget_lem_slot = refl

  -- A changed entry is the only one of its inode that is in use.
  put-IsTable :
      IsTable s.itable
      → (i : ℕ) (ip : Inode) → ip.dev ≡ dev
      → ip.inum ≡ inum
      → ((q : ℕ) → q < ninode → q ≢ i → is_cached dev inum (s.itable q) ≡ false)
      → IsTable (put_entry s i ip).itable
  unfolding put_entry
  put-IsTable t i ip e1 e2 alone = record {
    once = λ p q hp hq rp rq ed en. ground (arith, t.once p q, alone p, alone q);
  }

  is_cached-parts :
      (ip : Inode) → is_cached dev inum ip ≡ true → (0 < ip.ref) × (ip.dev ≡ dev) × (ip.inum ≡ inum)
  is_cached-parts ip h = (ground (arith, h), ground (arith, h), ground (arith, h))

  put_others : (i : ℕ) (ip : Inode) (j : ℕ) → j ≢ i → (put_entry s i ip).itable j ≡ s.itable j
  unfolding put_entry
  put_others i ip j ne = update_ne s.itable i j ip (λ e. ne (sym e))

  put_here : (i : ℕ) (ip : Inode) → (put_entry s i ip).itable i ≡ ip
  unfolding put_entry
  put_here i ip = update_self s.itable i ip

  put_view : (i : ℕ) (ip : Inode) → (put_entry s i ip).view ≡ s.view
  unfolding put_entry
  put_view i ip = refl

  hit_lem :
      IsTable s.itable
      → (i : ℕ) → i < ninode
      → is_cached dev inum (s.itable i) ≡ true
      → IsGot s dev inum i (put_entry s i (more_refs (s.itable i)))
  hit_lem t i small hit =
      let (used, e1, e2) = is_cached-parts (s.itable i) hit in
      record {
        index = small;
        this_dev = rw (put_here i (more_refs (s.itable i))) e1;
        this_inum = rw (put_here i (more_refs (s.itable i))) e2;
        count = rw (put_here i (more_refs (s.itable i))) refl;
        content = inl (put_here i (more_refs (s.itable i)));
        others = put_others i (more_refs (s.itable i));
        table = put-IsTable t i (more_refs (s.itable i)) e1 e2 (λ q hq ne.
            elim (Bool-cases (is_cached dev inum (s.itable q))) [
              | inr absent ↦ absent
              | inl twice ↦
                  let (used', d1, d2) = is_cached-parts (s.itable q) twice in
                  absurd (ne (t.once q i hq small used' used (d1 ∙ sym e1) (d2 ∙ sym e2)))
            ]);
        blocks = put_view i (more_refs (s.itable i));
      }

  fresh_lem :
      IsTable s.itable
      → (i : ℕ) → i < ninode
      → (s.itable i).ref ≡ 0
      → ((q : ℕ) → q < ninode → is_cached dev inum (s.itable q) ≡ false)
      → IsGot s dev inum i (put_entry s i (fresh_entry dev inum (s.itable i)))
  fresh_lem t i small idle absent = record {
    index = small;
    this_dev = rw (put_here i (fresh_entry dev inum (s.itable i))) refl;
    this_inum = rw (put_here i (fresh_entry dev inum (s.itable i))) refl;
    count = rw (put_here i (fresh_entry dev inum (s.itable i))) (omega (arith, idle));
    content = inr (idle, rw (put_here i (fresh_entry dev inum (s.itable i))) refl);
    others = put_others i (fresh_entry dev inum (s.itable i));
    table = put-IsTable t i (fresh_entry dev inum (s.itable i)) refl refl (λ q hq ne. absent q hq);
    blocks = put_view i (fresh_entry dev inum (s.itable i));
  }

-- iget on a table in which no inode stands twice returns an entry of the inode with one reference
-- more: the one it has, otherwise unchanged, or a free one, not yet valid. No other entry changes and
-- no inode comes to stand twice. It panics only if the inode has no entry and every entry is in use.
pub iget_lem :
    (s : Fs) (dev inum : ℕ)
    → IsTable s.itable
    → ((i : ℕ) × (s' : Fs) × (iget dev inum s ≡ some (i, s')) × IsGot s dev inum i s')
      ⊎ ((iget dev inum s ≡ none) × IsFull s dev inum)
unfolding put_entry take_slot
iget_lem s dev inum t =
    by_slot (find_slot s.itable dev inum 0 ninode none)
      (find_slot-Finds s.itable dev inum 0 ninode none) (iget_lem_slot s dev inum)
  where
    by_slot :
        (slot : Slot)
        → Finds s.itable dev inum 0 ninode none slot
        → iget dev inum s ≡ take_slot dev inum slot s
        → ((i : ℕ) × (s' : Fs) × (iget dev inum s ≡ some (i, s')) × IsGot s dev inum i s')
          ⊎ ((iget dev inum s ≡ none) × IsFull s dev inum)
    by_slot (cached i) f e = inl (
      i,
      put_entry s i (more_refs (s.itable i)),
      e,
      hit_lem s dev inum t i (omega (arith, f.1)) f.2,
    )
    by_slot (empty i) (absent, inr (low, high, idle)) e = inl (
      i,
      put_entry s i (fresh_entry dev inum (s.itable i)),
      e,
      fresh_lem s dev inum t i (omega (arith, high)) idle
          (λ q hq. absent q (omega arith) (omega (arith, hq))),
    )
    by_slot (empty i) (absent, inl bad) e = cc
    by_slot full (nothing, absent, used) e = inr (
      e,
      record {
        absent = λ q hq. absent q (omega arith) (omega (arith, hq));
        in_use = λ q hq. used q (omega arith) (omega (arith, hq));
      },
    )
