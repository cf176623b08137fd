-- ===== src/Kalloc/Frees.antt =====
-- kernel/kalloc.c: kfree and kalloc on the list of free pages.
use kali.Prelude.{
  ℕ, ◌+◌, ◌%◌, ◌^◌, ◌≤◌, ◌<◌, ◌≡◌, ◌≢◌, ◌⊎◌, refl, sym, ap, subst, inl, inr, ◌∙◌, List, [], ◌∷◌,
  arith, none, some, true, false, ◌||◌, ◌==◌, ltb, leb, ◌↔◌, dec_lt, Bool-cases, dec_lt,
}
use kali.Strings.{Memory, memset}
use kali.Strings.Blocks.{memset_lem}
use kali.Kalloc.{Kmem, pgsize, phystop, store_le, load_le, kfree, kalloc}
use kali.Kalloc.Words.{load_le-store_le, store_le-out}
use kali.Kalloc.Pages.{IsPage, Chain, ArePages, IsFresh, IsFreeList, SameBut, Chain-same}

memset-SameBut : (m : Memory) (q c : ℕ) → SameBut q m (memset m q c 4096)
memset-SameBut m q c a out = rw (memset_lem m q c 4096 a) (ground (arith, out))

-- The memory behind kfree of `pa`.
linked : Memory → (pa next : ℕ) → Memory
linked m pa next = store_le (memset m pa 1 pgsize) pa next 8

linked-SameBut : (m : Memory) (pa next : ℕ) → SameBut pa m (linked m pa next)
unfolding linked
linked-SameBut m pa next a out =
    store_le-out 8 (memset m pa 1 4096) pa next a (ground (arith, out))
    ∙ memset-SameBut m pa 1 a out

ltb-off : (a b : ℕ) → b ≤ a → ltb a b ≡ false
ltb-off a b h = ground (arith, h)

leb-off : (a b : ℕ) → b < a → leb a b ≡ false
leb-off a b h = ground (arith, h)

kfree-some :
    (end pa : ℕ) (k : Kmem)
    → IsPage end pa
    → kfree end pa k ≡ some (record { freelist = pa; mem = linked k.mem pa k.freelist })
unfolding kfree linked
kfree-some end pa k p = rw (p.aligned, ltb-off pa end p.above, leb-off phystop pa p.below) refl

next :
    (k : Kmem) (pa : ℕ)
    → k.freelist < 256 ^ 8
    → load_le (linked k.mem pa k.freelist) pa 8 ≡ k.freelist
unfolding linked
next k pa small = load_le-store_le 8 (memset k.mem pa 1 4096) pa k.freelist small

-- What kfree of the page `pa` makes of the list `ps`.
pub record IsFreed (end pa : ℕ) (k : Kmem) (ps : List ℕ) (k' : Kmem) : Type 0 where
  pub listed : IsFreeList end k' (pa ∷ ps)
  pub same : SameBut pa k.mem k'.mem

head-small :
    (end head : ℕ) (m : Memory) (ps : List ℕ) → ArePages end ps → Chain m head ps → head < 256 ^ 8
head-small end head m [] pages chain = omega (arith, chain)
head-small end head m (p ∷ ps) pages chain = omega (arith, chain.0, pages.0.below)

-- kfree of a page of the allocator's range that is not free does not panic: it puts the page in front
-- of the list, and stores to no byte outside the page.
pub kfree_lem :
    (end pa : ℕ) (k : Kmem) (ps : List ℕ)
    → IsFreeList end k ps
    → IsPage end pa
    → IsFresh pa ps
    → (k' : Kmem) × (kfree end pa k ≡ some k') × IsFreed end pa k ps k'
kfree_lem end pa k ps free page fresh = (
  record { freelist = pa; mem = linked k.mem pa k.freelist },
  kfree-some end pa k page,
  record {
    listed = record {
      chain =
          (refl, subst (λ h. Chain (linked k.mem pa k.freelist) h ps) (sym (next k pa small)) kept);
      pages = (page, free.pages);
      distinct = (fresh, free.distinct);
    };
    same = linked-SameBut k.mem pa k.freelist;
  },
)
  where
    small : k.freelist < 256 ^ 8
    small = head-small end k.freelist k.mem ps free.pages free.chain

    kept : Chain (linked k.mem pa k.freelist) k.freelist ps
    kept =
        Chain-same end pa k.freelist k.mem (linked k.mem pa k.freelist) ps page.aligned
          (linked-SameBut k.mem pa k.freelist) fresh free.pages free.chain

-- What kalloc returns for the list of free pages `ps`.
abbrev pub IsTaken : (end : ℕ) (k : Kmem) → List ℕ → ℕ × Kmem → Type 0
IsTaken end k [] r = r ≡ (0, k)
IsTaken end k (p ∷ ps) r =
    (r.0 ≡ p)
    × IsFresh p ps
    × IsFreeList end r.1 ps
    × SameBut p k.mem r.1.mem
    × ((i : ℕ) → i < 4096 → r.1.mem (p + i) ≡ 5)

kalloc-none : (k : Kmem) → k.freelist ≡ 0 → kalloc k ≡ (0, k)
unfolding kalloc
kalloc-none k e = rw e refl

-- The list and the memory when the first page `p` is gone.
without : Kmem → (p : ℕ) → Kmem
without k p = record { freelist = load_le k.mem p 8; mem = memset k.mem p 5 4096 }

kalloc-some : (k : Kmem) (p : ℕ) → k.freelist ≡ p → p ≢ 0 → kalloc k ≡ (p, without k p)
unfolding kalloc without
kalloc-some k p e ne =
    rw (isnt (λ z. ne (sym e ∙ z)))
      (ap (λ q. (q, record { freelist = load_le k.mem q 8; mem = memset k.mem q 5 4096 })) e)
  where
    isnt : k.freelist ≢ 0 → (k.freelist == 0) ≡ false
    isnt h = ground (arith, h)

memset-within : (m : Memory) (q i : ℕ) → i < 4096 → memset m q 5 4096 (q + i) ≡ 5
memset-within m q i small = rw (memset_lem m q 5 4096 (q + i)) (ground (arith, small))

-- kalloc returns the first free page, filled with fives and no longer in the list; it stores to no
-- byte outside the page. Where no page is free it returns 0 and changes nothing.
pub kalloc_lem :
    (end : ℕ) (k : Kmem) (ps : List ℕ) → 0 < end → IsFreeList end k ps → IsTaken end k ps (kalloc k)
unfolding without
kalloc_lem end k [] pos free = kalloc-none k free.chain
kalloc_lem end k (p ∷ ps) pos free =
    subst (IsTaken end k (p ∷ ps)) (sym (kalloc-some k p free.chain.0 nonzero))
      (refl, free.distinct.0, rest, memset-SameBut k.mem p 5, memset-within k.mem p)
  where
    nonzero : p ≢ 0
    nonzero e = absurd (omega (arith, e, free.pages.0.above, pos))

    rest : IsFreeList end (without k p) ps
    rest = record {
      chain =
          Chain-same end p (load_le k.mem p 8) k.mem (memset k.mem p 5 4096) ps free.pages.0.aligned
            (memset-SameBut k.mem p 5) free.distinct.0 free.pages.1 free.chain.1;
      pages = free.pages.1;
      distinct = free.distinct.1;
    }

kfree-none :
    (end pa : ℕ) (k : Kmem) → (pa % 4096 ≢ 0) ⊎ (pa < end) ⊎ (phystop ≤ pa) → kfree end pa k ≡ none
unfolding kfree
kfree-none end pa k (inl odd) = rw (unequal (pa % 4096) odd) refl
  where
    unequal : (n : ℕ) → n ≢ 0 → (n == 0) ≡ false
    unequal n h = ground arith
kfree-none end pa k (inr h) = elim (Bool-cases (pa % 4096 == 0)) [
  | inl even ↦ rw (even, outside h) refl
  | inr odd ↦ rw odd refl
]
  where
    outside : (pa < end) ⊎ (phystop ≤ pa) → (ltb pa end || leb phystop pa) ≡ true
    outside h = ground (arith, h)

-- kfree panics exactly for an address that is not a page's, below the kernel's end, or from PHYSTOP on.
pub kfree_panics_iff :
    (end pa : ℕ) (k : Kmem)
    → (kfree end pa k ≡ none) ↔ ((pa % 4096 ≢ 0) ⊎ (pa < end) ⊎ (phystop ≤ pa))
kfree_panics_iff end pa k = (
  λ h. elim (dec_lt pa end) [
    | yes low ↦ inr (inl low)
    | no above ↦ elim (dec_lt pa phystop) [
      | no high ↦ inr (inr (omega (arith, high)))
      | yes below ↦ inl (λ al.
          let went =
            kfree-some end pa k
              (record { aligned = al; above = omega (arith, above); below = below }) in
          cc)
    ]
  ],
  kfree-none end pa k,
)
