-- ===== src/Fs/Alloc/Scan.antt =====
-- kernel/fs.c: the search in a block of the bitmap.
use kali.Prelude.{
  ℕ, zero, suc, ◌+◌, ◌≡◌, ◌≤◌, ◌<◌, inl, inr, sym, subst, true, false, none, some, ltb, arith,
  Bool-cases, lt→ltb, ltb→lt, ℕ_discrete,
}
use mathlib.Core.Option.{some-injective}
use kali.Buffers.{Block}
use kali.Fs.Alloc.{in_use, scan}

module _ (size : ℕ) (x : Block) (b : ℕ) where
  pub scan-none :
      (rounds bi : ℕ)
      → scan size x b bi rounds ≡ none
      → (q : ℕ) → bi ≤ q
      → q < bi + rounds
      → b + q < size
      → in_use x q ≡ true
  unfolding scan
  scan-none zero bi e q low high inside = absurd (omega arith)
  scan-none (suc rounds) bi e q low high inside = elim (Bool-cases (in_use x bi)) [
    | inr free ↦
        let bad = rw (lt→ltb (b + bi) size (omega arith)) at e in let worse = rw free at bad in cc
    | inl used ↦ elim (ℕ_discrete q bi) [
      | yes here ↦ subst (λ j. in_use x j ≡ true) (sym here) used
      | no other ↦
          scan-none rounds (bi + 1) (rw used at (rw (lt→ltb (b + bi) size (omega arith)) at e)) q
            (omega (arith, low, other)) (omega arith) inside
    ]
  ]

  -- The first free block, from `bi` on.
  pub record IsFirst (bi j : ℕ) : Type 0 where
    pub from : bi ≤ j
    pub inside : b + j < size
    pub free : in_use x j ≡ false
    pub before : (q : ℕ) → bi ≤ q → q < j → in_use x q ≡ true

  pub scan-some :
      (rounds bi j : ℕ) → scan size x b bi rounds ≡ some j → IsFirst bi j × (j < bi + rounds)
  unfolding scan
  scan-some zero bi j e = cc
  scan-some (suc rounds) bi j e = elim (Bool-cases (ltb (b + bi) size)) [
    | inr end ↦ let bad = rw end at e in cc
    | inl inside ↦ elim (Bool-cases (in_use x bi)) [
      | inr free ↦
          let here = some-injective bi j (rw free at (rw inside at e)) in
          subst (λ i. IsFirst bi i × (i < bi + suc rounds)) here
            (
              record {
                from = omega arith;
                inside = ltb→lt (b + bi) size inside;
                free = free;
                before = λ q low high. absurd (omega arith);
              },
              omega arith,
            )
      | inl used ↦
          let (first, bound) = scan-some rounds (bi + 1) j (rw used at (rw inside at e)) in
          (
            record {
              from = omega (arith, first.from);
              inside = first.inside;
              free = first.free;
              before = λ q low high. elim (ℕ_discrete q bi) [
                | yes here ↦ subst (λ i. in_use x i ≡ true) (sym here) used
                | no other ↦ first.before q (omega (arith, low, other)) high
              ];
            },
            omega (arith, bound),
          )
    ]
  ]
