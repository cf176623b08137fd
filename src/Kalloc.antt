-- ===== src/Kalloc.antt =====
-- kernel/kalloc.c. The free list runs through memory: the first 8 bytes of a free page are the address
-- of the next one, little-endian. `kmem.lock` is held through each access of the list; the memset of
-- a page touches nothing that another CPU may use. Addresses are below 2 ^ 64.
pub mod Words
pub mod Pages
pub mod Frees
pub mod Ranges
mod Tests
use kali.Prelude.{
  ℕ, zero, suc, ◌+◌, ◌-◌, ◌*◌, ◌/◌, ◌%◌, ◌^◌, Bool, true, false, not, ◌&&◌, ◌||◌, Option, none,
  some, ◌==◌, ltb, leb, if◌then◌else◌, update,
}
use kali.Strings.{Memory, memset}

abbrev pub pgsize : ℕ
pgsize = 4096

abbrev pub phystop : ℕ
phystop = 2147483648 + 128 * 1024 * 1024

abbrev pub pgroundup : ℕ → ℕ
pgroundup sz = sz + pgsize - 1 - (sz + pgsize - 1) % pgsize

-- A store and a load of `n` bytes.
unfoldable pub store_le : Memory → (a v n : ℕ) → Memory
store_le m a v zero = m
store_le m a v (suc n) = store_le (update m a (v % 256)) (a + 1) (v / 256) n

unfoldable pub load_le : Memory → (a n : ℕ) → ℕ
load_le m a zero = 0
load_le m a (suc n) = m a + 256 * load_le m (a + 1) n

-- `kmem`, and the memory.
pub record Kmem : Type 0 where
  pub freelist : ℕ
  pub mem : Memory

-- `end` is the first address after the kernel; `none` is the panic.
pub kfree : (end pa : ℕ) → Kmem → Option Kmem
kfree end pa k =
    if not (pa % pgsize == 0) || ltb pa end || leb phystop pa
    then none
    else some (record { freelist = pa; mem = store_le (memset k.mem pa 1 pgsize) pa k.freelist 8 })

pub kalloc : Kmem → ℕ × Kmem
kalloc k =
    let r = k.freelist in
    if r == 0
    then (r, k)
    else (r, record { freelist = load_le k.mem r 8; mem = memset k.mem r 5 pgsize })

-- The loop of freerange; the first number is more than the rounds it makes.
pub freerange_loop : (fuel end p pa_end : ℕ) → Kmem → Option Kmem
freerange_loop zero end p pa_end k = none
freerange_loop (suc fuel) end p pa_end k =
    if leb (p + pgsize) pa_end
    then elim (kfree end p k) [
      | none ↦ none
      | some k' ↦ freerange_loop fuel end (p + pgsize) pa_end k'
    ]
    else some k

pub freerange : (fuel end pa_start pa_end : ℕ) → Kmem → Option Kmem
freerange fuel end pa_start pa_end k = freerange_loop fuel end (pgroundup pa_start) pa_end k

pub kinit : (fuel end : ℕ) → Memory → Option Kmem
kinit fuel end m = freerange fuel end end phystop (record { freelist = 0; mem = m })
