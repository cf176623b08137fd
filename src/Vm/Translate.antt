-- ===== src/Vm/Translate.antt =====
-- kernel/vm.c: what walk finds when it does not allocate, as functions of memory alone.
use kali.Prelude.{
  >>=-some, ℕ, zero, suc, ◌+◌, ◌*◌, ◌≡◌, ◌<◌, refl, ◌∙◌, false, not, ◌||◌, none, some, ◌==◌, leb,
  if◌then◌else◌, Bool-cases, inl, inr, arith, ◌%◌,
}
use kali.Strings.{Memory}
use kali.Kalloc.{Kmem, pgsize}
use kali.Vm.{
  pte_v, pte_u, has, pte2pa, px, maxva, pgrounddown, entry, next_table, walk_loop, walk, user_pa,
  walkaddr,
}

-- The address of the entry that Sv39 finds for `va` in the table `t` of a level, or 0.
unfoldable pub lookup : (level : ℕ) → Memory → (t va : ℕ) → ℕ
lookup zero m t va = t + 8 * px 0 va
lookup (suc level) m t va =
    let e = entry m (t + 8 * px (suc level) va) in
    let next = lookup level m (pte2pa e) va in if has pte_v e then next else 0

-- The address of the physical page behind the user's page at `va`, or 0.
unfoldable pub user_page : Memory → (pagetable va : ℕ) → ℕ
user_page m pagetable va =
    if leb maxva va
    then 0
    else let a = lookup 2 m pagetable va in
      if a == 0
      then 0
      else if not (has pte_v (entry m a)) || not (has pte_u (entry m a))
      then 0
      else pte2pa (entry m a)

-- The physical address of the user's byte at `va`, by the pages that P gives.
abbrev pub physical : (P : ℕ → ℕ) → (va : ℕ) → ℕ
physical P va = P (pgrounddown va) + va % pgsize

next_table-lookup :
    (pte : ℕ) (k : Kmem)
    → next_table false pte k
      ≡ some (if has pte_v (entry k.mem pte) then some (pte2pa (entry k.mem pte)) else none, k)
unfolding next_table
next_table-lookup pte k = elim (Bool-cases (has pte_v (entry k.mem pte))) [
  | inl valid ↦ rw valid refl
  | inr free ↦ rw free refl
]

pub walk_loop-lookup :
    (level t va : ℕ) (k : Kmem) → walk_loop level false t va k ≡ some (lookup level k.mem t va, k)
unfolding walk_loop lookup
walk_loop-lookup zero t va k = refl
walk_loop-lookup (suc level) t va k =
    >>=-some (next_table false a) _ (next_table-lookup a k)
    ∙ elim (Bool-cases (has pte_v (entry k.mem a))) [
      | inl valid ↦ rw valid (walk_loop-lookup level (pte2pa (entry k.mem a)) va k)
      | inr free ↦ rw free refl
    ]
  where
    a : ℕ
    a = t + 8 * px (suc level) va

pub walk-lookup :
    (t va : ℕ) (k : Kmem) → va < maxva → walk t va false k ≡ some (lookup 2 k.mem t va, k)
unfolding walk
walk-lookup t va k small = rw (below va small) (walk_loop-lookup 2 t va k)
  where
    below : (va : ℕ) → va < maxva → leb maxva va ≡ false
    below va small = ground arith

user_pa-page : Memory → (a : ℕ) → ℕ
user_pa-page m a =
    if a == 0
    then 0
    else if not (has pte_v (entry m a)) || not (has pte_u (entry m a))
    then 0
    else pte2pa (entry m a)

user_pa-read : (a : ℕ) (k : Kmem) → user_pa a k ≡ some (user_pa-page k.mem a, k)
unfolding user_pa user_pa-page
user_pa-read a k = elim (Bool-cases (a == 0)) [
  | inl null ↦ rw null refl
  | inr real ↦
      rw real
        (elim (Bool-cases (not (has pte_v (entry k.mem a)) || not (has pte_u (entry k.mem a)))) [
          | inl bad ↦ rw bad refl
          | inr good ↦ rw good refl
        ])
]

-- walkaddr reads the page and changes nothing.
pub walkaddr-user_page : (t va : ℕ) (k : Kmem) → walkaddr t va k ≡ some (user_page k.mem t va, k)
unfolding walkaddr user_page user_pa-page
walkaddr-user_page t va k = elim (Bool-cases (leb maxva va)) [
  | inl high ↦ rw high refl
  | inr low ↦ rw low (
      >>=-some (walk t va false) user_pa (walk-lookup t va k (ground (arith, low)))
      ∙ user_pa-read (lookup 2 k.mem t va) k)
]
