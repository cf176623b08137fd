-- ===== src/Kalloc/Tests.antt =====
-- kernel/kalloc.c: the allocator at small lists.
use kali.Prelude.{◌≡◌, refl, [], ◌∷◌, some, arith}
use kali.Kalloc.{Kmem, pgroundup, load_le, kfree, kalloc, kinit}
use kali.Kalloc.Pages.{IsFreeList}
use kali.Kalloc.Frees.{IsFreed, IsTaken, kfree_lem, kalloc_lem}
use kali.Kalloc.Ranges.{pages_before, page_count, kinit_lem}

-- The kernel ends at 4096; no page is free.
abbrev empty : Kmem
empty = record { freelist = 0; mem = λ a. 0 }

empty-IsFreeList : IsFreeList 4096 empty []
empty-IsFreeList = record { chain = refl; pages = tt; distinct = tt }

kfree_lem_example : (k : Kmem) × (kfree 4096 8192 empty ≡ some k) × IsFreed 4096 8192 empty [] k
kfree_lem_example =
    kfree_lem 4096 8192 empty [] empty-IsFreeList
      (record { aligned = refl; above = omega arith; below = omega arith }) tt

-- One page is free, the last of the list.
abbrev one : Kmem
one = record { freelist = 8192; mem = λ a. 0 }

load_zero : load_le one.mem 8192 8 ≡ 0
unfolding load_le
load_zero = refl

one-IsFreeList : IsFreeList 4096 one (8192 ∷ [])
one-IsFreeList = record {
  chain = (refl, load_zero);
  pages = (record { aligned = refl; above = omega arith; below = omega arith }, tt);
  distinct = (tt, tt);
}

kalloc_lem_example : IsTaken 4096 one (8192 ∷ []) (kalloc one)
kalloc_lem_example = kalloc_lem 4096 one (8192 ∷ []) (omega arith) one-IsFreeList

kinit_lem_example :
    (k : Kmem) × (kinit 557056 2281693184 (λ a. 0) ≡ some k)
    × IsFreeList 2281693184 k (pages_before (pgroundup 2281693184) (page_count 2281693184) [])
kinit_lem_example = kinit_lem 557056 2281693184 (λ a. 0) (omega arith) (omega arith)
