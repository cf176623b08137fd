-- ===== src/Vm/Space.antt =====
-- kernel/vm.c: the address space of a process. A result that the source tests against 0 is a number.
use kali.Prelude.{
  ℕ, zero, suc, ◌+◌, ◌-◌, ◌*◌, ◌/◌, true, false, not, ◌&&◌, ◌||◌, ◌==◌, ltb, leb, if◌then◌else◌, ℤ,
  pos, negsuc, M, pure, panic, panic_if, modify, ◌>>=◌, ◌>>◌,
}
use kali.Strings.{memmove}
use kali.Kalloc.{Kmem, pgsize, pgroundup}
use kali.Vm.{
  pte_v, pte_r, pte_w, pte_x, pte_u, has, pte2pa, pte_flags, read_pte, write_pte, alloc_page,
  free_page, fill_page, walk, mappages, failed, uvmunmap,
}
use Prim.Native.Nat.{bit_or}

abbrev pub move_bytes : (dst src n : ℕ) → M Kmem (Unit {0})
move_bytes dst src n = modify (λ k. record k { mem = memmove k.mem dst src n })

pub uvmcreate : M Kmem ℕ
uvmcreate = do
  pagetable ← alloc_page
  if pagetable == 0 then pure 0 else do fill_page pagetable 0; pure pagetable

pub uvmfirst : (pagetable src sz : ℕ) → M Kmem (Unit {0})
uvmfirst pagetable src sz = do
  panic_if (leb pgsize sz)
  mem ← alloc_page
  fill_page mem 0
  mappages pagetable 0 pgsize mem (bit_or (bit_or (bit_or pte_w pte_r) pte_x) pte_u)
  move_bytes mem src sz

pub uvmdealloc : (end pagetable oldsz newsz : ℕ) → M Kmem ℕ
uvmdealloc end pagetable oldsz newsz =
    if leb oldsz newsz
    then pure oldsz
    else if ltb (pgroundup newsz) (pgroundup oldsz)
    then uvmunmap end pagetable (pgroundup newsz) ((pgroundup oldsz - pgroundup newsz) / pgsize)
        true
      >> pure newsz
    else pure newsz

-- The failure of a round of uvmalloc.
pub give_back : (end pagetable a oldsz : ℕ) → M Kmem ℕ
give_back end pagetable a oldsz = do uvmdealloc end pagetable a oldsz; pure 0

-- The loop of uvmalloc from `a`; `oldsz` is rounded up.
pub uvmalloc_loop : (end rounds pagetable a oldsz newsz xperm : ℕ) → M Kmem ℕ
uvmalloc_loop end zero pagetable a oldsz newsz xperm = pure newsz
uvmalloc_loop end (suc rounds) pagetable a oldsz newsz xperm = alloc_page >>= λ mem.
    if mem == 0 then give_back end pagetable a oldsz else do
      fill_page mem 0
      r ← mappages pagetable a pgsize mem (bit_or (bit_or pte_r pte_u) xperm)
      if failed r
          then (do free_page end mem; give_back end pagetable a oldsz)
          else uvmalloc_loop end rounds pagetable (a + pgsize) oldsz newsz xperm

-- The rounds are the pages from the rounded `oldsz` up to `newsz`.
pub uvmalloc : (end pagetable oldsz newsz xperm : ℕ) → M Kmem ℕ
uvmalloc end pagetable oldsz newsz xperm =
    if ltb newsz oldsz
    then pure oldsz
    else uvmalloc_loop end ((newsz - pgroundup oldsz + pgsize - 1) / pgsize) pagetable
        (pgroundup oldsz) (pgroundup oldsz) newsz xperm

-- The entries of a table from `i` on; `child` frees a table of the level below.
pub freewalk_loop : (child : ℕ → M Kmem (Unit {0})) → (rounds pagetable i : ℕ) → M Kmem (Unit {0})
freewalk_loop child zero pagetable i = pure tt
freewalk_loop child (suc rounds) pagetable i = do
  pte ← read_pte (pagetable + 8 * i)
  if has pte_v pte && not (has pte_r pte || has pte_w pte || has pte_x pte)
      then (do child (pte2pa pte); write_pte (pagetable + 8 * i) 0)
      else panic_if (has pte_v pte)
  freewalk_loop child rounds pagetable (i + 1)

-- A table of Sv39 has two levels below it: a depth of 3 is enough, and to go deeper panics.
pub freewalk : (end depth pagetable : ℕ) → M Kmem (Unit {0})
freewalk end zero pagetable = panic
freewalk end (suc depth) pagetable = do
  freewalk_loop (freewalk end depth) 512 pagetable 0
  free_page end pagetable

pub uvmfree : (end pagetable sz : ℕ) → M Kmem (Unit {0})
uvmfree end pagetable sz = do
  if ltb 0 sz then uvmunmap end pagetable 0 (pgroundup sz / pgsize) true else pure tt
  freewalk end 3 pagetable

-- `err`, at the address `i`.
pub undo_copy : (end new i : ℕ) → M Kmem ℤ
undo_copy end new i = do uvmunmap end new 0 (i / pgsize) true; pure (negsuc 0)

-- The loop of uvmcopy from `i`.
pub uvmcopy_loop : (end rounds old new i : ℕ) → M Kmem ℤ
uvmcopy_loop end zero old new i = pure (pos 0)
uvmcopy_loop end (suc rounds) old new i = do
  pte ← walk old i false
  panic_if (pte == 0)
  e ← read_pte pte
  panic_if (not (has pte_v e))
  mem ← alloc_page
  if mem == 0 then undo_copy end new i else do
    move_bytes mem (pte2pa e) pgsize
    r ← mappages new i pgsize mem (pte_flags e)
    if failed r
        then (do free_page end mem; undo_copy end new i)
        else uvmcopy_loop end rounds old new (i + pgsize)

pub uvmcopy : (end old new sz : ℕ) → M Kmem ℤ
uvmcopy end old new sz = uvmcopy_loop end ((sz + pgsize - 1) / pgsize) old new 0

-- `*pte &= ~PTE_U`
pub uvmclear : (pagetable va : ℕ) → M Kmem (Unit {0})
uvmclear pagetable va = do
  pte ← walk pagetable va false
  panic_if (pte == 0)
  e ← read_pte pte
  write_pte pte (if has pte_u e then e - pte_u else e)
