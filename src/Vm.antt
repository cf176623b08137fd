-- ===== src/Vm.antt =====
-- kernel/vm.c: page tables in memory. A page table is the address of its page, of 512 entries of 8
-- bytes. The state is that of Kalloc, memory and free list; `none` is a panic. A `pagetable_t` that
-- the code tests against 0 is the number 0.
pub mod Translate
pub mod Space
pub mod Copy
use kali.Prelude.{
  ℕ, zero, suc, ◌+◌, ◌-◌, ◌*◌, ◌/◌, ◌%◌, ◌^◌, Bool, true, false, not, ◌&&◌, ◌||◌, Option, none,
  some, ◌==◌, ltb, leb, if◌then◌else◌, ℤ, pos, negsuc, M, pure, panic, panic_if, gets, modify,
  ◌>>=◌, ◌>>◌,
}
use Prim.Native.Nat.{bit_or}
use kali.Strings.{Memory, memset}
use kali.Kalloc
use kali.Kalloc.{Kmem, pgsize, store_le, load_le, kalloc, kfree}

-- The flags of an entry.
abbrev pub pte_v : ℕ
pte_v = 1

abbrev pub pte_r : ℕ
pte_r = 2

abbrev pub pte_w : ℕ
pte_w = 4

abbrev pub pte_x : ℕ
pte_x = 8

abbrev pub pte_u : ℕ
pte_u = 16

-- `pte & f`, of one flag.
abbrev pub has : (f pte : ℕ) → Bool
has f pte = pte / f % 2 == 1

abbrev pub pa2pte : ℕ → ℕ
pa2pte pa = pa / 2 ^ 12 * 2 ^ 10

abbrev pub pte2pa : ℕ → ℕ
pte2pa pte = pte / 2 ^ 10 * 2 ^ 12 % 2 ^ 64

abbrev pub pte_flags : ℕ → ℕ
pte_flags pte = pte % 1024

-- The 9 bits of an address that index the table at a level.
unfoldable pub px : (level va : ℕ) → ℕ
px level va = va / 2 ^ (12 + 9 * level) % 512

abbrev pub maxva : ℕ
maxva = 2 ^ 38

abbrev pub pgrounddown : ℕ → ℕ
pgrounddown a = a - a % pgsize

-- `*pte`, and a store to it.
abbrev pub entry : Memory → (pte : ℕ) → ℕ
entry m pte = load_le m pte 8

abbrev pub read_pte : (pte : ℕ) → M Kmem ℕ
read_pte pte = gets (λ k. entry k.mem pte)

abbrev pub write_pte : (pte v : ℕ) → M Kmem (Unit {0})
write_pte pte v = modify (λ k. record k { mem = store_le k.mem pte v 8 })

abbrev pub alloc_page : M Kmem ℕ
alloc_page k = some (kalloc k)

abbrev pub free_page : (end pa : ℕ) → M Kmem (Unit {0})
free_page end pa k = elim (kfree end pa k) [ none ↦ none | some k' ↦ some (tt, k') ]

abbrev pub fill_page : (pa c : ℕ) → M Kmem (Unit {0})
fill_page pa c = modify (λ k. record k { mem = memset k.mem pa c pgsize })

-- A fresh table, linked from the entry at `pte`; `none` if there is no page.
pub new_table : (pte : ℕ) → M Kmem (Option ℕ)
new_table pte = do
  t ← alloc_page
  if t == 0
      then pure none
      else do fill_page t 0; write_pte pte (bit_or (pa2pte t) pte_v); pure (some t)

-- A round of the loop of walk: the table that the entry at `pte` leads to.
unfoldable pub next_table : (alloc : Bool) → (pte : ℕ) → M Kmem (Option ℕ)
next_table alloc pte = do
  e ← read_pte pte
  if has pte_v e then pure (some (pte2pa e)) else if not alloc then pure none else new_table pte

unfoldable pub walk_loop : (level : ℕ) → (alloc : Bool) → (pagetable va : ℕ) → M Kmem ℕ
walk_loop zero alloc pagetable va = pure (pagetable + 8 * px 0 va)
walk_loop (suc level) alloc pagetable va =
    next_table alloc (pagetable + 8 * px (suc level) va) >>= λ next. elim next [
      | none ↦ pure 0
      | some t ↦ walk_loop level alloc t va
    ]

unfoldable pub walk : (pagetable va : ℕ) → (alloc : Bool) → M Kmem ℕ
walk pagetable va alloc = do panic_if (leb maxva va); walk_loop 2 alloc pagetable va

-- `pte == 0 || (*pte & PTE_V) == 0 || (*pte & PTE_U) == 0`, else the physical address.
pub user_pa : (pte : ℕ) → M Kmem ℕ
user_pa pte = if pte == 0 then pure 0 else do
  e ← read_pte pte
  if not (has pte_v e) || not (has pte_u e) then pure 0 else pure (pte2pa e)

pub walkaddr : (pagetable va : ℕ) → M Kmem ℕ
walkaddr pagetable va =
    if leb maxva va then pure 0 else do pte ← walk pagetable va false; user_pa pte

-- The loop of mappages, with the rounds that it has left; the result is that of mappages.
pub mappages_loop : (rounds pagetable a pa perm : ℕ) → M Kmem ℤ
mappages_loop zero pagetable a pa perm = pure (pos 0)
mappages_loop (suc rounds) pagetable a pa perm = walk pagetable a true >>= λ pte.
    if pte == 0 then pure (negsuc 0) else do
      e ← read_pte pte
      panic_if (has pte_v e)
      write_pte pte (bit_or (bit_or (pa2pte pa) perm) pte_v)
      mappages_loop rounds pagetable (a + pgsize) (pa + pgsize) perm

-- The rounds from `va` to `va + size - PGSIZE`.
pub mappages : (pagetable va size pa perm : ℕ) → M Kmem ℤ
mappages pagetable va size pa perm = do
  panic_if (not (va % pgsize == 0))
  panic_if (not (size % pgsize == 0))
  panic_if (size == 0)
  mappages_loop (size / pgsize) pagetable va pa perm

abbrev pub failed : ℤ → Bool
failed (pos n) = not (n == 0)
failed (negsuc n) = true

pub kvmmap : (kpgtbl va pa sz perm : ℕ) → M Kmem (Unit {0})
kvmmap kpgtbl va pa sz perm = do r ← mappages kpgtbl va sz pa perm; panic_if (failed r)

pub uvmunmap_loop : (end rounds pagetable a : ℕ) → (do_free : Bool) → M Kmem (Unit {0})
uvmunmap_loop end zero pagetable a do_free = pure tt
uvmunmap_loop end (suc rounds) pagetable a do_free = do
  pte ← walk pagetable a false
  panic_if (pte == 0)
  e ← read_pte pte
  panic_if (not (has pte_v e))
  panic_if (pte_flags e == pte_v)
  if do_free then free_page end (pte2pa e) else pure tt
  write_pte pte 0
  uvmunmap_loop end rounds pagetable (a + pgsize) do_free

pub uvmunmap : (end pagetable va npages : ℕ) → (do_free : Bool) → M Kmem (Unit {0})
uvmunmap end pagetable va npages do_free = do
  panic_if (not (va % pgsize == 0))
  uvmunmap_loop end npages pagetable va do_free
