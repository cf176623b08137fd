-- ===== src/Vm/Copy.antt =====
-- kernel/vm.c: copies between the kernel's memory and a user's. The loops run on fuel; each round
-- copies a byte at least, so that the length is enough.
pub mod Region
pub mod Round
pub mod In
mod Tests
use kali.Prelude.{
  ℕ, zero, suc, ◌+◌, ◌-◌, ◌%◌, ◌^◌, Bool, true, false, not, ◌&&◌, ◌||◌, Option, none, some, ◌==◌,
  ltb, leb, if◌then◌else◌, ℤ, pos, negsuc, min, update, M, pure, panic, panic_if, gets, modify,
  ◌>>=◌, ◌>>◌,
}
use kali.Strings.{Memory}
use kali.Kalloc.{Kmem, pgsize}
use kali.Vm.{pte_v, pte_w, pte_u, has, pte2pa, maxva, pgrounddown, read_pte, walk, walkaddr}
use kali.Vm.Space.{move_bytes}

-- `n = PGSIZE - (va - va0)`, and `len` if that is less.
abbrev pub chunk : (va len : ℕ) → ℕ
chunk va len = let n = pgsize - (va - pgrounddown va) in if ltb len n then len else n

-- The physical page behind the user's page at `va0` if the user may write there.
unfoldable pub writable_page : (pagetable va0 : ℕ) → M Kmem (Option ℕ)
writable_page pagetable va0 =
    if leb maxva va0
    then pure none
    else walk pagetable va0 false >>= λ pte. if pte == 0 then pure none else do
      e ← read_pte pte
      if not (has pte_v e) || not (has pte_u e) || not (has pte_w e)
          then pure none
          else pure (some (pte2pa e))

unfoldable pub copyout_loop : (fuel pagetable dstva src len : ℕ) → M Kmem ℤ
copyout_loop zero pagetable dstva src len = if len == 0 then pure (pos 0) else panic
copyout_loop (suc fuel) pagetable dstva src len =
    if len == 0
    then pure (pos 0)
    else writable_page pagetable (pgrounddown dstva) >>= λ page. elim page [
      | none ↦ pure (negsuc 0)
      | some pa0 ↦ do
        move_bytes (pa0 + (dstva - pgrounddown dstva)) src (chunk dstva len)
        copyout_loop fuel pagetable (pgrounddown dstva + pgsize) (src + chunk dstva len)
            (len - chunk dstva len)
    ]

unfoldable pub copyout : (pagetable dstva src len : ℕ) → M Kmem ℤ
copyout pagetable dstva src len = copyout_loop len pagetable dstva src len

pub copyin_loop : (fuel pagetable dst srcva len : ℕ) → M Kmem ℤ
copyin_loop zero pagetable dst srcva len = if len == 0 then pure (pos 0) else panic
copyin_loop (suc fuel) pagetable dst srcva len =
    if len == 0
    then pure (pos 0)
    else walkaddr pagetable (pgrounddown srcva) >>= λ pa0. if pa0 == 0 then pure (negsuc 0) else do
      move_bytes dst (pa0 + (srcva - pgrounddown srcva)) (chunk srcva len)
      copyin_loop fuel pagetable (dst + chunk srcva len) (pgrounddown srcva + pgsize)
          (len - chunk srcva len)

pub copyin : (pagetable dst srcva len : ℕ) → M Kmem ℤ
copyin pagetable dst srcva len = copyin_loop len pagetable dst srcva len

-- The inner loop of copyinstr, of `n` bytes from `p`: whether it found the 0.
pub copy_string : Memory → (dst p n : ℕ) → Bool × Memory
copy_string m dst p zero = (false, m)
copy_string m dst p (suc n) =
    let rest = copy_string (update m dst (m p)) (dst + 1) (p + 1) n in
    if m p == 0 then (true, update m dst 0) else rest

abbrev pub copy_chunk : (dst p n : ℕ) → M Kmem Bool
copy_chunk dst p n k =
    let (found, m) = copy_string k.mem dst p n in some (found, record k { mem = m })

pub copyinstr_loop : (fuel pagetable dst srcva max : ℕ) → M Kmem ℤ
copyinstr_loop zero pagetable dst srcva max = if max == 0 then pure (negsuc 0) else panic
copyinstr_loop (suc fuel) pagetable dst srcva max =
    if max == 0
    then pure (negsuc 0)
    else walkaddr pagetable (pgrounddown srcva) >>= λ pa0. if pa0 == 0 then pure (negsuc 0) else do
      got_null ← copy_chunk dst (pa0 + (srcva - pgrounddown srcva)) (chunk srcva max)
      if got_null
          then pure (pos 0)
          else copyinstr_loop fuel pagetable (dst + chunk srcva max) (pgrounddown srcva + pgsize)
              (max - chunk srcva max)

pub copyinstr : (pagetable dst srcva max : ℕ) → M Kmem ℤ
copyinstr pagetable dst srcva max = copyinstr_loop max pagetable dst srcva max
