-- ===== src/Proc/Lifecycle.antt =====
-- kernel/proc.c: processes with their memory and files, from allocproc to exit and wait. `me` is the
-- running process. `end`, `trampoline`, `etext` and `forkret` are addresses that the linker gives.
-- `none` is a panic or a wait; sched, which leaves the CPU to others, is of Proc.System. Pids are unbounded.
use kali.Prelude.{
  ℕ, zero, suc, ◌+◌, ◌-◌, ◌*◌, false, Option, none, some, ◌==◌, if◌then◌else◌, update, M, pure,
  panic_if, gets, modify, ◌>>=◌, ◌>>◌,
}
use kali.Kalloc.{Kmem, pgsize, phystop}
use kali.Vm.{
  pte_r, pte_w, pte_x, maxva, alloc_page, free_page, fill_page, mappages, failed, kvmmap, uvmunmap,
}
use kali.Vm.Space.{uvmcreate, uvmfree}
use kali.File.{Files, on_kmem}
use kali.Proc.{Proc, Table, unused, nproc, find_unused, claimed, freed}
use Prim.Native.Nat.{bit_or}

abbrev pub trampoline_va : ℕ
trampoline_va = maxva - pgsize

abbrev pub trapframe_va : ℕ
trapframe_va = trampoline_va - pgsize

abbrev pub kstack : (p : ℕ) → ℕ
kstack p = trampoline_va - (p + 1) * 2 * pgsize

abbrev pub nofile : ℕ
nofile = 16

pub proc_mapstacks_loop : (kpgtbl p rounds : ℕ) → M Kmem (Unit {0})
proc_mapstacks_loop kpgtbl p zero = pure tt
proc_mapstacks_loop kpgtbl p (suc rounds) = do
  pa ← alloc_page
  panic_if (pa == 0)
  kvmmap kpgtbl (kstack p) pa pgsize (bit_or pte_r pte_w)
  proc_mapstacks_loop kpgtbl (p + 1) rounds

pub proc_mapstacks : (kpgtbl : ℕ) → M Kmem (Unit {0})
proc_mapstacks kpgtbl = proc_mapstacks_loop kpgtbl 0 nproc

-- kernel/vm.c: the kernel's page table. The registers of the UART, the disk and the PLIC, the text, the
-- data and the RAM are mapped to themselves.
pub kvmmake : (etext trampoline : ℕ) → M Kmem ℕ
kvmmake etext trampoline = do
  kpgtbl ← alloc_page
  fill_page kpgtbl 0
  kvmmap kpgtbl 0x10000000 0x10000000 pgsize (bit_or pte_r pte_w)
  kvmmap kpgtbl 0x10001000 0x10001000 pgsize (bit_or pte_r pte_w)
  kvmmap kpgtbl 0x0c000000 0x0c000000 0x4000000 (bit_or pte_r pte_w)
  kvmmap kpgtbl 0x80000000 0x80000000 (etext - 0x80000000) (bit_or pte_r pte_x)
  kvmmap kpgtbl etext etext (phystop - etext) (bit_or pte_r pte_w)
  kvmmap kpgtbl trampoline_va trampoline pgsize (bit_or pte_r pte_x)
  proc_mapstacks kpgtbl
  pure kpgtbl

pub procinit_loop : (p rounds : ℕ) → Table → Table
procinit_loop p zero ps = ps
procinit_loop p (suc rounds) ps =
    procinit_loop (p + 1) rounds (update ps p (record (ps p) { state = unused; kstack = kstack p }))

pub procinit : Table → Table
procinit ps = procinit_loop 0 nproc ps

-- The kernel's state as processes change it.
pub record World : Type 0 where
  pub files : Files
  pub table : Table
  pub nextpid : ℕ
  pub initproc : Option ℕ

abbrev pub on_files : {A : Type 0} → M Files A → M World A
on_files m s = elim (m s.files) [ none ↦ none | some (a, f) ↦ some (a, record s { files = f }) ]

abbrev pub on_mem : {A : Type 0} → M Kmem A → M World A
on_mem m = on_files (on_kmem m)

abbrev pub this_proc : (i : ℕ) → M World Proc
this_proc i = gets (λ s. s.table i)

abbrev pub set_proc : (i : ℕ) → (Proc → Proc) → M World (Unit {0})
set_proc i g = modify (λ s. record s { table = update s.table i (g (s.table i)) })

pub allocpid : M World ℕ
allocpid = do
  pid ← gets (λ s. s.nextpid)
  modify (λ s. record s { nextpid = s.nextpid + 1 })
  pure pid

-- The mapping of the trapframe page, behind that of the trampoline.
pub map_trapframe : (end pagetable trapframe : ℕ) → M Kmem ℕ
map_trapframe end pagetable trapframe = do
  r ← mappages pagetable trapframe_va pgsize trapframe (bit_or pte_r pte_w)
  if failed r
      then uvmunmap end pagetable trampoline_va 1 false >> uvmfree end pagetable 0 >> pure 0
      else pure pagetable

pub map_trampoline : (end trampoline trapframe pagetable : ℕ) → M Kmem ℕ
map_trampoline end trampoline trapframe pagetable = do
  r ← mappages pagetable trampoline_va pgsize trampoline (bit_or pte_r pte_x)
  if failed r then uvmfree end pagetable 0 >> pure 0 else map_trapframe end pagetable trapframe

pub proc_pagetable : (end trampoline trapframe : ℕ) → M Kmem ℕ
proc_pagetable end trampoline trapframe = do
  pagetable ← uvmcreate
  if pagetable == 0 then pure 0 else map_trampoline end trampoline trapframe pagetable

pub proc_freepagetable : (end pagetable sz : ℕ) → M Kmem (Unit {0})
proc_freepagetable end pagetable sz = do
  uvmunmap end pagetable trampoline_va 1 false
  uvmunmap end pagetable trapframe_va 1 false
  uvmfree end pagetable sz

pub freeproc : (end i : ℕ) → M World (Unit {0})
freeproc end i = do
  p ← this_proc i
  if p.trapframe == 0 then pure tt else on_mem (free_page end p.trapframe)
  if p.pagetable == 0 then pure tt else on_mem (proc_freepagetable end p.pagetable p.sz)
  set_proc i freed

module _ (end trampoline forkret : ℕ) where
  -- allocproc behind the allocation of the trapframe page, and behind that of the page table.
  pub with_pagetable : (i pagetable : ℕ) → M World (Option ℕ)
  with_pagetable i pagetable = do
    set_proc i (λ p. record p { pagetable = pagetable })
    if pagetable == 0
        then freeproc end i >> pure none
        else set_proc i (λ p. record p { context = (forkret, p.kstack + pgsize) }) >> pure (some i)

  pub with_trapframe : (i trapframe : ℕ) → M World (Option ℕ)
  with_trapframe i trapframe = do
    set_proc i (λ p. record p { trapframe = trapframe })
    if trapframe == 0
        then freeproc end i >> pure none
        else on_mem (proc_pagetable end trampoline trapframe) >>= with_pagetable i

  pub found_proc : (i : ℕ) → M World (Option ℕ)
  found_proc i = do pid ← allocpid; set_proc i (claimed pid); on_mem alloc_page >>= with_trapframe i

  pub allocproc : M World (Option ℕ)
  allocproc = do
    found ← gets (λ s. find_unused s.table 0 nproc)
    elim found [ none ↦ pure none | some i ↦ found_proc i ]
