-- ===== src/Kalloc/Ranges.antt =====
-- kernel/kalloc.c: freerange and kinit.
use kali.Prelude.{
  ℕ, zero, suc, ◌+◌, ◌-◌, ◌*◌, ◌/◌, ◌%◌, ◌≤◌, ◌<◌, ◌≡◌, refl, ◌∙◌, List, [], ◌∷◌, arith, some, true,
  leb,
}
use kali.Strings.{Memory}
use kali.Kalloc.{Kmem, pgsize, phystop, pgroundup, kfree, freerange_loop, freerange, kinit}
use kali.Kalloc.Pages.{IsPage, IsFresh, IsFreeList}
use kali.Kalloc.Frees.{kfree_lem}

-- The list `ps` behind the `n` pages from `p` on, the last one first.
abbrev pub pages_before : (p n : ℕ) → List ℕ → List ℕ
pages_before p zero ps = ps
pages_before p (suc n) ps = pages_before (p + 4096) n (p ∷ ps)

abbrev AreBelow : (p : ℕ) → List ℕ → Type 0
AreBelow p [] = Unit {0}
AreBelow p (q ∷ qs) = (q < p) × AreBelow p qs

below-IsFresh : (p : ℕ) (ps : List ℕ) → AreBelow p ps → IsFresh p ps
below-IsFresh p [] h = tt
below-IsFresh p (q ∷ qs) h = (λ e. absurd (omega (arith, e, h.0)), below-IsFresh p qs h.1)

below-more : (p : ℕ) (ps : List ℕ) → AreBelow p ps → AreBelow (p + 4096) ps
below-more p [] h = tt
below-more p (q ∷ qs) h = (omega (arith, h.0), below-more p qs h.1)

freerange-stop :
    (fuel end p pa_end : ℕ) (k : Kmem)
    → pa_end < p + 4096
    → freerange_loop (suc fuel) end p pa_end k ≡ some k
unfolding freerange_loop
freerange-stop fuel end p pa_end k h = ground (arith, h)

freerange-turn :
    (fuel end p pa_end : ℕ) (k k' : Kmem)
    → p + 4096 ≤ pa_end
    → kfree end p k ≡ some k'
    → freerange_loop (suc fuel) end p pa_end k ≡ freerange_loop fuel end (p + 4096) pa_end k'
unfolding freerange_loop
freerange-turn fuel end p pa_end k k' h e = rw (on p pa_end h, e) refl
  where
    on : (p pa_end : ℕ) → p + 4096 ≤ pa_end → leb (p + pgsize) pa_end ≡ true
    on p pa_end h = ground (arith, h)

freerange_loop_lem :
    (n fuel end p pa_end : ℕ) (k : Kmem) (ps : List ℕ)
    → n < fuel
    → p % 4096 ≡ 0
    → end ≤ p
    → pa_end ≤ phystop
    → p + n * 4096 ≤ pa_end
    → pa_end < p + n * 4096 + 4096
    → IsFreeList end k ps
    → AreBelow p ps
    → (k' : Kmem) × (freerange_loop fuel end p pa_end k ≡ some k')
      × IsFreeList end k' (pages_before p n ps)
freerange_loop_lem n zero end p pa_end k ps f al above top fits last free below =
    absurd (omega arith)
freerange_loop_lem zero (suc fuel) end p pa_end k ps f al above top fits last free below =
    (k, freerange-stop fuel end p pa_end k (omega arith), free)
freerange_loop_lem (suc n) (suc fuel) end p pa_end k ps f al above top fits last free below =
    let page : IsPage end p = record { aligned = al; above = above; below = omega arith } in
    let (k1, e, freed) = kfree_lem end p k ps free page (below-IsFresh p ps below) in
    let (k2, run, done) =
      freerange_loop_lem n fuel end (p + 4096) pa_end k1 (p ∷ ps) (omega arith) (omega arith)
        (omega arith) top (omega arith) (omega arith) freed.listed
        (omega arith, below-more p ps below) in
    (k2, freerange-turn fuel end p pa_end k k1 (omega arith) e ∙ run, done)

-- The number of whole pages above the kernel.
abbrev pub page_count : (end : ℕ) → ℕ
page_count end = (phystop - pgroundup end) / 4096

-- With fuel above the number of pages from the kernel's end, rounded up, to PHYSTOP, kinit does not
-- panic: its free list is all these pages, the highest first.
pub kinit_lem :
    (fuel end : ℕ) (m : Memory)
    → end < phystop
    → page_count end < fuel
    → (k : Kmem) × (kinit fuel end m ≡ some k)
      × IsFreeList end k (pages_before (pgroundup end) (page_count end) [])
unfolding kinit freerange
kinit_lem fuel end m small enough =
    freerange_loop_lem (page_count end) fuel end (pgroundup end) phystop
      (record { freelist = 0; mem = m }) [] enough (omega arith) (omega arith) (omega arith)
      (omega arith) (omega arith) (record { chain = refl; pages = tt; distinct = tt }) tt
