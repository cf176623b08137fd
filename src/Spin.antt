-- ===== src/Spin.antt =====
-- kernel/spinlock.c. `acquire` and `release` are cut where another CPU can see a difference: each
-- piece is a function here, and Spin.System has their interleavings.
pub mod Nesting
pub mod System
pub mod Steps
pub mod Exclusion
mod Tests
use kali.Prelude.{
  ℕ, ◌+◌, ◌-◌, Bool, true, false, not, ◌&&◌, Option, none, some, ◌==◌, ltb, if◌then◌else◌,
}

-- The fields of `struct cpu` that matter here, and the interrupt enable bit of the CPU's sstatus.
pub record Cpu : Type 0 where
  pub noff : ℕ
  pub intena : Bool
  pub intr : Bool

-- `struct spinlock`, less its name; a CPU is its number, and `none` the null pointer.
pub record Spinlock : Type 0 where
  pub locked : ℕ
  pub cpu : Option ℕ

abbrev pub initlock : Spinlock
initlock = record { locked = 0; cpu = none }

pub push_off : Cpu → Cpu
push_off c =
    let old = c.intr in
    let intena = if c.noff == 0 then old else c.intena in
    record { noff = c.noff + 1; intena = intena; intr = false }

-- `none` is a panic.
pub pop_off : Cpu → Option Cpu
pop_off c =
    let noff = c.noff - 1 in
    if c.intr
    then none
    else if ltb c.noff 1
    then none
    else some (record c { noff = noff; intr = if noff == 0 && c.intena then true else c.intr })

abbrev is_cpu : Option ℕ → ℕ → Bool
is_cpu none i = false
is_cpu (some j) i = i == j

pub holding : Spinlock → (cpu : ℕ) → Bool
holding lk i = not (lk.locked == 0) && is_cpu lk.cpu i

-- `acquire` up to its loop; `none` is the panic.
pub acquire_start : Spinlock → (cpu : ℕ) → Cpu → Option Cpu
unfolding push_off holding
acquire_start lk i c = if holding lk i then none else some (push_off c)

-- The atomic swap of the loop: the old value, and the lock with 1 stored.
pub test_and_set : Spinlock → ℕ × Spinlock
test_and_set lk = (lk.locked, record lk { locked = 1 })

-- `acquire` behind its loop.
pub acquire_end : Spinlock → (cpu : ℕ) → Spinlock
acquire_end lk i = record lk { cpu = some i }

-- `release` up to the store that frees the lock; `none` is the panic.
pub release_start : Spinlock → (cpu : ℕ) → Option Spinlock
unfolding holding
release_start lk i = if not (holding lk i) then none else some (record lk { cpu = none })

-- `__sync_lock_release`
pub lock_release : Spinlock → Spinlock
lock_release lk = record lk { locked = 0 }
