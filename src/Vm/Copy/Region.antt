-- ===== src/Vm/Copy/Region.antt =====
-- kernel/vm.c: the part of a user's page that one round of a copy takes.
use kali.Prelude.{ℕ, ◌+◌, ◌-◌, ◌%◌, ◌≡◌, ◌≢◌, ◌≤◌, ◌<◌, arith, true, false}
use kali.Strings.{Memory}
use kali.Strings.Blocks.{within}
use kali.Kalloc.{pgsize}
use kali.Vm.{pgrounddown}
use kali.Vm.Translate.{physical}
use kali.Vm.Copy.{chunk}

-- Memory that differs in the `n` bytes from `d` on at most.
abbrev pub SameOutside : (d n : ℕ) → (m m' : Memory) → Type 0
SameOutside d n m m' = (q : ℕ) → within d n q ≡ false → m' q ≡ m q

pub chunk_pos : (va len : ℕ) → len ≢ 0 → 1 ≤ chunk va len
chunk_pos va len h = ground arith

pub chunk_le : (va len : ℕ) → chunk va len ≤ len
chunk_le va len = ground arith

pub chunk_room : (va len : ℕ) → va % pgsize + chunk va len ≤ pgsize
chunk_room va len = ground arith

-- A round that is not the last ends at the end of the page.
pub chunk_next : (va len : ℕ) → chunk va len < len → pgrounddown va + pgsize ≡ va + chunk va len
chunk_next va len h = ground arith

pub page_same : (va i : ℕ) → va % pgsize + i < pgsize → pgrounddown (va + i) ≡ pgrounddown va
page_same va i h = omega arith

-- The bytes of one page lie behind one another.
pub physical-same :
    (P : ℕ → ℕ) (va i : ℕ)
    → va % pgsize + i < pgsize
    → physical P (va + i) ≡ P (pgrounddown va) + (va - pgrounddown va) + i
physical-same P va i h = rw (page_same va i h) (omega arith)

-- The bytes behind the first `n` of a region.
pub within-rest : (d n len q : ℕ) → within (d + n) (len - n) q ≡ true → within d len q ≡ true
within-rest d n len q h = ground (arith, h)

pub within-first :
    (d n len q : ℕ) → n ≤ len → within (d + n) (len - n) q ≡ false → within d n q ≡ within d len q
within-first d n len q le h = ground (arith, h)

pub within-out :
    (d n len q : ℕ)
    → n ≤ len
    → within d len q ≡ false
    → (within d n q ≡ false) × (within (d + n) (len - n) q ≡ false)
within-out d n len q le h = (ground (arith, h), ground (arith, h))

pub within-sub :
    (base size d n q : ℕ)
    → base ≤ d
    → d + n ≤ base + size
    → within base size q ≡ false
    → within d n q ≡ false
within-sub base size d n q low high h = ground (arith, h)
