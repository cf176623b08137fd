-- ===== src/Fs/Inodes/Search.antt =====
-- kernel/fs.c: the search of iget.
use kali.Prelude.{
  ℕ, zero, suc, ◌+◌, ◌≡◌, ◌≢◌, ◌≤◌, ◌<◌, ◌⊎◌, inl, inr, refl, sym, subst, true, false, Option, none,
  some, ◌==◌, arith, Bool-cases, ℕ_discrete,
}
use mathlib.Core.Option.{some-injective}
use kali.Fs.{Inode}
use kali.Fs.Inodes.{Slot, cached, empty, full, is_cached, remember, find_slot}

-- What the search from `i` on can conclude when `e` is remembered.
abbrev pub Finds : (ℕ → Inode) → (dev inum i rounds : ℕ) → Option ℕ → Slot → Type 0
Finds tbl dev inum i rounds e (cached j) =
    (i ≤ j) × (j < i + rounds) × (is_cached dev inum (tbl j) ≡ true)
Finds tbl dev inum i rounds e (empty j) =
    ((q : ℕ) → i ≤ q → q < i + rounds → is_cached dev inum (tbl q) ≡ false)
    × ((e ≡ some j) ⊎ ((i ≤ j) × (j < i + rounds) × ((tbl j).ref ≡ 0)))
Finds tbl dev inum i rounds e full =
    (e ≡ none)
    × ((q : ℕ) → i ≤ q → q < i + rounds → is_cached dev inum (tbl q) ≡ false)
    × ((q : ℕ) → i ≤ q → q < i + rounds → (tbl q).ref ≢ 0)

module _ (tbl : ℕ → Inode) (dev inum : ℕ) where
  from_here :
      (P : ℕ → Type 0) (i k : ℕ)
      → P i
      → ((q : ℕ) → i + 1 ≤ q → q < i + 1 + k → P q)
      → (q : ℕ) → i ≤ q
      → q < i + suc k
      → P q
  from_here P i k first rest q low high = elim (ℕ_discrete q i) [
    | yes e ↦ subst P (sym e) first
    | no ne ↦ rest q (omega (arith, low, ne)) (omega (arith, high))
  ]

  remembered :
      (e : Option ℕ) (i j k : ℕ)
      → (remember e i (tbl i) ≡ some j) ⊎ ((i + 1 ≤ j) × (j < i + 1 + k) × ((tbl j).ref ≡ 0))
      → (e ≡ some j) ⊎ ((i ≤ j) × (j < i + suc k) × ((tbl j).ref ≡ 0))
  remembered e i j k (inr (low, high, idle)) = inr (omega (arith, low), omega (arith, high), idle)
  remembered (some e) i j k (inl h) = inl h
  remembered none i j k (inl h) = elim (Bool-cases ((tbl i).ref == 0)) [
    | inr used ↦ let bad = rw used at h in cc
    | inl idle ↦
        let here = some-injective i j (rw idle at h) in
        inr (
          omega (arith, here),
          omega (arith, here),
          subst (λ j'. (tbl j').ref ≡ 0) here (ground (arith, idle)),
        )
  ]

  not_remembered :
      (e : Option ℕ) (i : ℕ) → remember e i (tbl i) ≡ none → (e ≡ none) × ((tbl i).ref ≢ 0)
  not_remembered (some e) i h = cc
  not_remembered none i h = elim (Bool-cases ((tbl i).ref == 0)) [
    | inl idle ↦ let bad = rw idle at h in cc
    | inr used ↦ (refl, ground (arith, used))
  ]

  step :
      (i k : ℕ) (e : Option ℕ) (s : Slot)
      → is_cached dev inum (tbl i) ≡ false
      → Finds tbl dev inum (i + 1) k (remember e i (tbl i)) s
      → Finds tbl dev inum i (suc k) e s
  step i k e (cached j) no_hit (low, high, hit) = (omega (arith, low), omega (arith, high), hit)
  step i k e (empty j) no_hit (none_cached, free) = (
    from_here (λ q. is_cached dev inum (tbl q) ≡ false) i k no_hit none_cached,
    remembered e i j k free,
  )
  step i k e full no_hit (nothing, none_cached, all_used) =
      let (e_none, used) = not_remembered e i nothing in
      (
        e_none,
        from_here (λ q. is_cached dev inum (tbl q) ≡ false) i k no_hit none_cached,
        from_here (λ q. (tbl q).ref ≢ 0) i k used all_used,
      )

  pub find_slot-Finds :
      (i k : ℕ) (e : Option ℕ) → Finds tbl dev inum i k e (find_slot tbl dev inum i k e)
  unfolding find_slot
  find_slot-Finds i zero none =
      (refl, λ q low high. absurd (omega arith), λ q low high. absurd (omega arith))
  find_slot-Finds i zero (some j) = (λ q low high. absurd (omega arith), inl refl)
  find_slot-Finds i (suc k) e = elim (Bool-cases (is_cached dev inum (tbl i))) [
    | inl hit ↦ rw hit (omega arith, omega arith, hit)
    | inr no_hit ↦ rw no_hit (
        step i k e (find_slot tbl dev inum (i + 1) k (remember e i (tbl i))) no_hit
          (find_slot-Finds (i + 1) k (remember e i (tbl i))))
  ]
